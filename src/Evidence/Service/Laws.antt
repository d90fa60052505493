-- ===== src/Evidence/Service/Laws.antt =====
-- `hydrate` is total over its repository, puts every candidate identifier into one of its two
-- lists, and quotes only the records that it was given.
use marx_engels_insight_matc.Base.{
  ◌+◌, ◌≡◌, refl, ◌∙◌, sym, Text, Option, some, List, [], ◌∷◌, map, if◌then◌else◌, arith,
  Option-cases, inl, inr, All, In, All-weaken,
}
use mathlib.Core.List.{Sublistᴰ}
use mathlib.Core.Path.{subst}
use marx_engels_insight_matc.Base.Unique.{contains, count, count-unique_by, unique_by-In}
use marx_engels_insight_matc.Errors.{ok}
use marx_engels_insight_matc.Errors.Laws.{ok_injective, Result-cases, ok-ne-raise}
use marx_engels_insight_matc.Contracts.{SearchScope, Candidate, Evidence}
use marx_engels_insight_matc.Retrieval.Records.{
  AuthoritativeEvidenceRecord, Records, EvidenceRepository,
}
use marx_engels_insight_matc.Evidence.Gate.{first_gate_failure}
use marx_engels_insight_matc.Evidence.Gate.Reasons.{BreaksFirst, first_gate_failure-BreaksFirst}
use marx_engels_insight_matc.Evidence.Gate.Laws.{Admissible, first_gate_failure-none_iff}
use marx_engels_insight_matc.Evidence.Service.{
  EvidenceGateExclusion, EvidenceHydrationResult, unique_candidates, hydrate_loop, hydrate,
}
use marx_engels_insight_matc.Evidence.Service.Quotation.{
  IsQuotation, to_public_evidence-IsQuotation,
}

-- Every record that the mapping holds has the identifier under which it is found.
abbrev pub IsKeyed : Records → Type 0
IsKeyed records =
    (i : Text) (r : AuthoritativeEvidenceRecord) → records i ≡ some r → r.evidence_id ≡ i

abbrev pub evidence_ids : EvidenceHydrationResult → List Text
evidence_ids res = map (λ e. e.evidence_id) res.evidence

abbrev pub excluded_ids : EvidenceHydrationResult → List Text
excluded_ids res = map (λ x. x.evidence_id) res.exclusions

abbrev pub record_ids : EvidenceHydrationResult → List Text
record_ids res = map (λ r. r.evidence_id) res.accepted_records

abbrev pub candidate_ids : {F : Type 0} → List (Candidate F) → List Text
candidate_ids cs = map (λ c. c.evidence_id) cs

module _ {F : Type 0} (records : Records) (scope : SearchScope) (allowed : Option (List Text))
    (exact_query : Option Text) where
  -- `e` quotes the record of an admissible candidate of the list.
  abbrev pub Sound : List (Candidate F) → Evidence → Type 0
  Sound cs e =
      (c : Candidate F) × (r : AuthoritativeEvidenceRecord) × In c cs
      × (records c.evidence_id ≡ some r)
      × Admissible c r scope allowed exact_query
      × IsQuotation c r exact_query e

  -- `x` reports the first condition that a candidate of the list breaks.
  abbrev pub Reported : List (Candidate F) → EvidenceGateExclusion → Type 0
  Reported cs x =
      (c : Candidate F) × In c cs
      × (c.evidence_id ≡ x.evidence_id)
      × BreaksFirst c records scope allowed exact_query x.reason

  pub record Gated (cs : List (Candidate F)) (res : EvidenceHydrationResult) : Type 0 where
    pub counted :
        (i : Text)
        → count i (evidence_ids res) + count i (excluded_ids res) ≡ count i (candidate_ids cs)
    pub sound : All (Sound cs) res.evidence
    pub reported : All (Reported cs) res.exclusions
    pub aligned : record_ids res ≡ evidence_ids res
    pub authoritative : All (λ r. records r.evidence_id ≡ some r) res.accepted_records
    pub ordered : Sublistᴰ (evidence_ids res) (candidate_ids cs)

  Sound-later :
      (c : Candidate F) (cs : List (Candidate F)) (es : List Evidence)
      → All (Sound cs) es
      → All (Sound (c ∷ cs)) es
  Sound-later c cs es =
      All-weaken (Sound cs) (Sound (c ∷ cs)) es (λ e (d, r, m, y, a, q). (d, r, inr m, y, a, q))

  Reported-later :
      (c : Candidate F) (cs : List (Candidate F)) (xs : List EvidenceGateExclusion)
      → All (Reported cs) xs
      → All (Reported (c ∷ cs)) xs
  Reported-later c cs xs =
      All-weaken (Reported cs) (Reported (c ∷ cs)) xs (λ x (d, m, e, f). (d, inr m, e, f))

  hydrate_loop-Gated :
      IsKeyed records
      → (cs : List (Candidate F))
      → (res : EvidenceHydrationResult) × (hydrate_loop records scope allowed exact_query cs
          ≡ ok res)
        × Gated cs res
  unfolding hydrate_loop count
  hydrate_loop-Gated keyed [] = (
    _,
    refl,
    record {
      counted = λ i. refl;
      sound = tt;
      reported = tt;
      aligned = refl;
      authoritative = tt;
      ordered = Sublistᴰ.slnil;
    },
  )
  hydrate_loop-Gated keyed (c ∷ cs) =
      let (rest, e, g) = hydrate_loop-Gated keyed cs in
      elim (Option-cases (first_gate_failure c records scope allowed exact_query)) [
        | inl pass ↦
            let (r, y, a) =
              (first_gate_failure-none_iff c records scope allowed exact_query).0 pass in
            let (ev, built, q) = to_public_evidence-IsQuotation c r exact_query a.released in
            let same : ev.evidence_id ≡ c.evidence_id = q.evidence_id ∙ keyed c.evidence_id r y in
            (
              record {
                evidence = ev ∷ rest.evidence;
                exclusions = rest.exclusions;
                accepted_records = r ∷ rest.accepted_records;
              },
              rw (pass, hydrate_loop, y, built, e),
              record {
                counted = λ i. rw same (omega (arith, g.counted i));
                sound = ((c, r, inl refl, y, a, q), Sound-later c cs rest.evidence g.sound);
                reported = Reported-later c cs rest.exclusions g.reported;
                aligned = cc (g.aligned, q.evidence_id);
                authoritative = (rw (keyed c.evidence_id r y) y, g.authoritative);
                ordered = Sublistᴰ.cons-cons same g.ordered;
              },
            )
        | inr (reason, fail) ↦ (
          record rest {
            exclusions = record { evidence_id = c.evidence_id; reason = reason } ∷ rest.exclusions;
          },
          rw (fail, hydrate_loop, e),
          record {
            counted = λ i. omega (arith, g.counted i);
            sound = Sound-later c cs rest.evidence g.sound;
            reported = (
              (
                c,
                inl refl,
                refl,
                first_gate_failure-BreaksFirst c records scope allowed exact_query reason fail,
              ),
              Reported-later c cs rest.exclusions g.reported,
            );
            aligned = g.aligned;
            authoritative = g.authoritative;
            ordered = Sublistᴰ.cons g.ordered;
          },
        )
      ]

-- A repository that answers with every record under its own identifier.
abbrev pub IsFaithful : EvidenceRepository → Type 0
IsFaithful repository =
    (ids : List Text) (records : Records) → repository ids ≡ ok records → IsKeyed records

-- Where `hydrate` returned, the repository had answered.
pub hydrate_found :
    {F : Type 0} (repository : EvidenceRepository) (candidates : List (Candidate F))
    (scope : SearchScope) (exact_query : Option Text) (allowed : Option (List Text))
    (res : EvidenceHydrationResult)
    → hydrate repository candidates scope exact_query allowed ≡ ok res
    → (records : Records) × (repository (candidate_ids (unique_candidates candidates)) ≡ ok records)
unfolding hydrate
hydrate_found repository candidates scope exact_query allowed res run =
    elim (Result-cases (repository (candidate_ids (unique_candidates candidates)))) [
      | inl (e, raised) ↦ absurd (ok-ne-raise res e run (rw (raised, hydrate) refl))
      | inr answered ↦ answered
    ]

module _ {F : Type 0} (repository : EvidenceRepository) (candidates : List (Candidate F))
    (scope : SearchScope) (exact_query : Option Text) (allowed : Option (List Text))
    (records : Records)
    (found : repository (candidate_ids (unique_candidates candidates)) ≡ ok records)
    (keyed : IsKeyed records) where
  hydrate-Gated :
      (res : EvidenceHydrationResult) × (hydrate repository candidates scope exact_query allowed
        ≡ ok res)
      × Gated records scope allowed exact_query (unique_candidates candidates) res
  unfolding hydrate
  hydrate-Gated =
      let (res, e, g) =
        hydrate_loop-Gated records scope allowed exact_query keyed (unique_candidates candidates) in
      (res, rw (found, e), g)

  hydrate-Gated_of_ok :
      (res : EvidenceHydrationResult)
      → hydrate repository candidates scope exact_query allowed ≡ ok res
      → Gated records scope allowed exact_query (unique_candidates candidates) res
  hydrate-Gated_of_ok res h =
      let (res', e, g) = hydrate-Gated in
      subst (Gated records scope allowed exact_query (unique_candidates candidates))
        (ok_injective res' res (sym e ∙ h)) g

  -- When the repository answers, with every record under its own identifier, `hydrate` returns,
  -- and each identifier among the candidates stands once, either as evidence or as an exclusion;
  -- no other identifier stands in either list.
  pub hydrate-partition :
      (res : EvidenceHydrationResult) × (hydrate repository candidates scope exact_query allowed
        ≡ ok res)
      × ((i : Text)
          → count i (evidence_ids res) + count i (excluded_ids res)
            ≡ (if contains i (candidate_ids candidates) then 1 else 0))
  unfolding unique_candidates
  hydrate-partition =
      let (res, e, g) = hydrate-Gated in
      (res, e, λ i. g.counted i ∙ count-unique_by (λ (c : Candidate F). c.evidence_id) i candidates)

  -- When the repository answers, with every record under its own identifier, every evidence that
  -- is returned quotes, field by field, the authoritative record of one of the candidates, and
  -- that candidate is admissible.
  pub hydrate-Sound :
      (res : EvidenceHydrationResult)
      → hydrate repository candidates scope exact_query allowed ≡ ok res
      → All (Sound records scope allowed exact_query candidates) res.evidence
  unfolding unique_candidates
  hydrate-Sound res h =
      All-weaken (Sound records scope allowed exact_query (unique_candidates candidates))
        (Sound records scope allowed exact_query candidates) res.evidence
        (λ e (c, r, m, y, a, q).
          (c, r, unique_by-In (λ (d : Candidate F). d.evidence_id) c candidates m, y, a, q))
        (hydrate-Gated_of_ok res h).sound

  -- When the repository answers, with every record under its own identifier, every exclusion that
  -- is returned carries the identifier of one of the candidates and a reason: the authority has
  -- no record of it; or its record breaks the condition of that reason and keeps all those before,
  -- in the order: within the pool, verified, published, in the scope, with the hash of a candidate
  -- found by vectors, released with its metadata, and for an exact candidate a query that is
  -- given, not blank and found in the text.
  pub hydrate-Reported :
      (res : EvidenceHydrationResult)
      → hydrate repository candidates scope exact_query allowed ≡ ok res
      → All (Reported records scope allowed exact_query candidates) res.exclusions
  unfolding unique_candidates
  hydrate-Reported res h =
      All-weaken (Reported records scope allowed exact_query (unique_candidates candidates))
        (Reported records scope allowed exact_query candidates) res.exclusions
        (λ x (c, m, e, f).
          (c, unique_by-In (λ (d : Candidate F). d.evidence_id) c candidates m, e, f))
        (hydrate-Gated_of_ok res h).reported
