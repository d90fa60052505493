-- ===== src/Evidence/Gate/Reasons.antt =====
-- The reason that the gate reports is that of the first condition which a candidate breaks.
use mathlib.Core.Path.{subst}
use marx_engels_insight_matc.Base.{
  ℕ, Text, text_eq, text_eq_iff, strip, is_empty, Bool, true, false, not, ◌&&◌, Option, none, some,
  List, [], ◌≡◌, ◌≢◌, ◌⊎◌, inl, inr, refl, arith, Option-cases, Bool-cases, if◌then◌else◌,
}
use marx_engels_insight_matc.Contracts.{SearchScope, Candidate}
use marx_engels_insight_matc.Retrieval.Records.{AuthoritativeEvidenceRecord, Records}
use marx_engels_insight_matc.Evidence.Matching.{non_overlapping_match_offsets}
use marx_engels_insight_matc.Evidence.Matching.Laws.{
  MatchesAt, non_overlapping_match_offsets-nonempty_iff,
}
use marx_engels_insight_matc.Evidence.Gate.{
  EvidenceExclusionReason, id_not_found, not_verified, not_published, out_of_scope,
  text_hash_mismatch, pages_unavailable, metadata_unavailable, model_unauthorized_id,
  exact_query_required, exact_query_empty, no_exact_match, verified, published, in_scope,
  metadata_available, is_exact_candidate, is_vector_candidate, hash_differs, occurrence_failure,
  query_failure, exact_gate_failure, unauthorized, record_failure, first_gate_failure,
}
use marx_engels_insight_matc.Evidence.Gate.Laws.{
  HasContent, InScope, IsReleased, Authorized, in_scope_iff, metadata_available→IsReleased,
  IsReleased→metadata_available, hash_differs_iff, unauthorized_iff,
}

if-some :
    {A : Type 0} {x y : A} {o : Option A} (b : Bool)
    → (if b then some x else o) ≡ some y
    → ((b ≡ true) × (x ≡ y)) ⊎ ((b ≡ false) × (o ≡ some y))
if-some true h = inl (refl, ground (arith, h))
if-some false h = inr (refl, h)

module _ {F : Type 0} (c : Candidate F) (r : AuthoritativeEvidenceRecord) (scope : SearchScope)
    (allowed : Option (List Text)) (exact_query : Option Text) where
  -- The conditions of the gate, in the order of its tests.
  abbrev Verified : Type 0
  Verified = Authorized allowed c.evidence_id × (r.verification_status ≡ verified)

  abbrev Published : Type 0
  Published = Verified × (r.release_status ≡ published)

  abbrev Scoped : Type 0
  Scoped = Published × InScope r scope

  abbrev Hashed : Type 0
  Hashed = Scoped × (is_vector_candidate c ≡ true → c.text_hash ≡ some r.text_hash)

  abbrev Released : Type 0
  Released = Hashed × IsReleased r

  -- For each reason: the conditions before it hold, and its own does not.
  abbrev pub Breaks : EvidenceExclusionReason → Type 0
  Breaks id_not_found = ⊥
  Breaks pages_unavailable = ⊥
  Breaks model_unauthorized_id = Authorized allowed c.evidence_id → ⊥
  Breaks not_verified = Authorized allowed c.evidence_id × (r.verification_status ≢ verified)
  Breaks not_published = Verified × (r.release_status ≢ published)
  Breaks out_of_scope = Published × (InScope r scope → ⊥)
  Breaks text_hash_mismatch =
      Scoped × ((is_vector_candidate c ≡ true) × (c.text_hash ≢ some r.text_hash))
  Breaks metadata_unavailable = Hashed × (IsReleased r → ⊥)
  Breaks exact_query_required = Released × ((is_exact_candidate c ≡ true) × (exact_query ≡ none))
  Breaks exact_query_empty =
      Released
      × ((is_exact_candidate c ≡ true)
          × ((query : Text) × ((exact_query ≡ some query) × (strip query ≡ []))))
  Breaks no_exact_match =
      Released
      × ((is_exact_candidate c ≡ true)
          × ((query : Text) × ((exact_query ≡ some query)
                × (HasContent query × ((i : ℕ) → MatchesAt r.verified_text (strip query) i → ⊥)))))

  query_failure-Breaks :
      (q : Option Text) (reason : EvidenceExclusionReason)
      → exact_query ≡ q
      → Released
      → is_exact_candidate c ≡ true
      → query_failure r.verified_text q ≡ some reason
      → Breaks reason
  unfolding query_failure occurrence_failure
  query_failure-Breaks none reason e h x run =
      let same : exact_query_required ≡ reason = ground (arith, run) in
      subst Breaks same (h, (x, e))
  query_failure-Breaks (some query) reason e h x run = elim (if-some (is_empty (strip query)) run) [
    | inl (blank, same) ↦ subst Breaks same (h, (x, (query, (e, ground (arith, blank)))))
    | inr (given, rest) ↦
        elim (if-some (is_empty (non_overlapping_match_offsets r.verified_text (strip query)))
          rest) [
            | inl (nothing, same) ↦
                let content : HasContent query = ground (arith, given) in
                subst Breaks same (
                  h,
                  (
                    x,
                    (
                      query,
                      (
                        e,
                        (
                          content,
                          λ i m. absurd (
                              ground (
                                arith,
                                nothing,
                                (non_overlapping_match_offsets-nonempty_iff r.verified_text
                                      (strip query)).1
                                    (content, (i, m)),
                              )),
                        ),
                      ),
                    ),
                  ),
                )
            | inr (something, run') ↦ absurd (ground (arith, run'))
          ]
  ]

  record_failure-Breaks :
      (reason : EvidenceExclusionReason)
      → record_failure c r scope allowed exact_query ≡ some reason
      → Breaks reason
  unfolding record_failure exact_gate_failure
  record_failure-Breaks reason run = elim (if-some (unauthorized allowed c.evidence_id) run) [
    | inl (t, e) ↦
        subst Breaks e
          (λ a. absurd (ground (arith, t, (unauthorized_iff allowed c.evidence_id).1 a)))
    | inr (t, r1) ↦
        let a = (unauthorized_iff allowed c.evidence_id).0 t in
        elim (if-some (not (text_eq r.verification_status verified)) r1) [
          | inl (t, e) ↦
              subst Breaks e (
                a,
                λ v. absurd (ground (arith, t, (text_eq_iff r.verification_status verified).1 v)),
              )
          | inr (t, r2) ↦
              at_published reason
                (a, (text_eq_iff r.verification_status verified).0 (ground (arith, t))) r2
        ]
  ]
    where
      at_exact :
          (reason : EvidenceExclusionReason)
          → Released
          → exact_gate_failure c r exact_query ≡ some reason
          → Breaks reason
      at_exact reason h run = elim (Bool-cases (is_exact_candidate c)) [
        | inl x ↦ query_failure-Breaks exact_query reason refl h x (ground (arith, run, x))
        | inr n ↦ absurd (ground (arith, run, n))
      ]

      at_hash :
          (reason : EvidenceExclusionReason)
          → Scoped
          → (if is_vector_candidate c && hash_differs c.text_hash r.text_hash
              then some text_hash_mismatch
              else if not (metadata_available r)
              then some metadata_unavailable
              else exact_gate_failure c r exact_query)
            ≡ some reason
          → Breaks reason
      at_hash reason h run =
          elim (if-some (is_vector_candidate c && hash_differs c.text_hash r.text_hash) run) [
            | inl (t, e) ↦ subst Breaks e (
              h,
              (
                ground (arith, t),
                λ s. absurd (ground (arith, t, (hash_differs_iff c.text_hash r.text_hash).1 s)),
              ),
            )
            | inr (t, r1) ↦
                let hashed : Hashed =
                  (h, λ v. (hash_differs_iff c.text_hash r.text_hash).0 (ground (arith, t, v))) in
                elim (if-some (not (metadata_available r)) r1) [
                  | inl (t, e) ↦
                      subst Breaks e
                        (hashed, λ m. absurd (ground (arith, t, IsReleased→metadata_available r m)))
                  | inr (t, r2) ↦
                      at_exact reason (hashed, metadata_available→IsReleased r (ground (arith, t)))
                        r2
                ]
          ]

      at_published :
          (reason : EvidenceExclusionReason)
          → Verified
          → (if not (text_eq r.release_status published)
              then some not_published
              else if not (in_scope r scope)
              then some out_of_scope
              else if is_vector_candidate c && hash_differs c.text_hash r.text_hash
              then some text_hash_mismatch
              else if not (metadata_available r)
              then some metadata_unavailable
              else exact_gate_failure c r exact_query)
            ≡ some reason
          → Breaks reason
      at_published reason h run = elim (if-some (not (text_eq r.release_status published)) run) [
        | inl (t, e) ↦
            subst Breaks e
              (h, λ p. absurd (ground (arith, t, (text_eq_iff r.release_status published).1 p)))
        | inr (t, r1) ↦
            let shown : Published =
              (h, (text_eq_iff r.release_status published).0 (ground (arith, t))) in
            elim (if-some (not (in_scope r scope)) r1) [
              | inl (t, e) ↦
                  subst Breaks e
                    (shown, λ s. absurd (ground (arith, t, (in_scope_iff r scope).1 s)))
              | inr (t, r2) ↦
                  at_hash reason (shown, (in_scope_iff r scope).0 (ground (arith, t))) r2
            ]
      ]

module _ {F : Type 0} (c : Candidate F) (records : Records) (scope : SearchScope)
    (allowed : Option (List Text)) (exact_query : Option Text) where
  -- The candidate has no record, or it is the record that breaks a condition.
  abbrev pub BreaksFirst : EvidenceExclusionReason → Type 0
  BreaksFirst reason =
      ((records c.evidence_id ≡ none) × (reason ≡ id_not_found))
      ⊎ ((r : AuthoritativeEvidenceRecord) × ((records c.evidence_id ≡ some r)
            × Breaks c r scope allowed exact_query reason))

  pub first_gate_failure-BreaksFirst :
      (reason : EvidenceExclusionReason)
      → first_gate_failure c records scope allowed exact_query ≡ some reason
      → BreaksFirst reason
  unfolding first_gate_failure
  first_gate_failure-BreaksFirst reason run = elim (Option-cases (records c.evidence_id)) [
    | inl n ↦ inl (n, ground (arith, run, n))
    | inr (r, y) ↦ inr (
      r,
      (y, record_failure-Breaks c r scope allowed exact_query reason (ground (arith, run, y))),
    )
  ]
