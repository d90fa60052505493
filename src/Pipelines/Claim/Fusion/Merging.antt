-- ===== src/Pipelines/Claim/Fusion/Merging.antt =====
-- The dictionary of merged candidates: each stands under its identifier, and those of the
-- channels are there.
use marx_engels_insight_matc.Base.{
  ℕ, ◌+◌, ◌≡◌, refl, ap, sym, ◌∙◌, Text, text_eq, text_eq_iff, text_eq_refl, is_some, All, Bool,
  true, false, ◌||◌, Option, none, some, List, [], ◌∷◌, map, if◌then◌else◌, arith, inl, inr,
  Option-cases,
}
use marx_engels_insight_matc.Base.Dict.{Dict, get, put, get-put}
use marx_engels_insight_matc.Base.Unique.{contains}
use marx_engels_insight_matc.Contracts.{Candidate}
use marx_engels_insight_matc.Errors.{ok}
use marx_engels_insight_matc.Pipelines.Claim.Fusion.{
  lexical_candidate, vector_candidate, merged_candidate, fused_candidate, add_vector, merge_lexical,
  merge_vector, fused_loop,
}

module _ {F : Type 0} where
  abbrev pub ids : List (Candidate F) → List Text
  ids cs = map (λ c. c.evidence_id) cs

  abbrev pub Keyed : Dict (Candidate F) → Type 0
  Keyed d = (i : Text) (c : Candidate F) → get i d ≡ some c → c.evidence_id ≡ i

  -- Every listed identifier has a score.
  abbrev pub Scored : Dict F → List Text → Type 0
  Scored scores = All (λ i. is_some (get i scores) ≡ true)

  pub record Merged (old : Dict (Candidate F)) (cs : List (Candidate F)) (new : Dict (Candidate F))
      : Type 0 where
    pub keyed : Keyed new
    pub held : (i : Text) → is_some (get i new) ≡ (is_some (get i old) || contains i (ids cs))

  abbrev id_of : Option (Candidate F) → Text
  id_of none = []
  id_of (some c) = c.evidence_id

  pub put-Keyed :
      (k : Text) (c : Candidate F) (d : Dict (Candidate F))
      → c.evidence_id ≡ k
      → Keyed d
      → Keyed (put k c d)
  put-Keyed k c d named keyed i x h = at_key_of (text_eq i k) refl (sym (get-put k i c d) ∙ h)
    where
      at_key_of :
          (b : Bool)
          → text_eq i k ≡ b
          → (if b then some c else get i d) ≡ some x
          → x.evidence_id ≡ i
      at_key_of true e g = ap id_of (sym g) ∙ (named ∙ sym ((text_eq_iff i k).0 e))
      at_key_of false e g = keyed i x g

  pub merge_lexical-Merged :
      (scores : Dict F) (rank : ℕ) (cs : List (Candidate F)) (old : Dict (Candidate F))
      → Keyed old
      → Scored scores (ids cs)
      → (new : Dict (Candidate F)) × ((merge_lexical scores rank cs old ≡ ok new)
          × Merged old cs new)
  unfolding merge_lexical contains
  merge_lexical-Merged scores rank [] old keyed s =
      (old, (refl, record { keyed = keyed; held = λ i. ground arith }))
  merge_lexical-Merged scores rank (c ∷ cs) old keyed s =
      elim (Option-cases (get c.evidence_id scores)) [
        | inl n ↦ absurd (ground (arith, n, s.0))
        | inr (score, y) ↦
            let next = put c.evidence_id (lexical_candidate c rank score) old in
            let (new, (run, merged)) =
              merge_lexical-Merged scores (rank + 1) cs next
                (put-Keyed c.evidence_id (lexical_candidate c rank score) old refl keyed) s.1 in
            (
              new,
              (
                rw y run,
                record {
                  keyed = merged.keyed;
                  held = λ i. ground (
                    arith,
                    merged.held i,
                    get-put c.evidence_id i (lexical_candidate c rank score) old,
                  );
                },
              ),
            )
      ]

  add_vector-id :
      (old : Dict (Candidate F)) (c : Candidate F) (rank : ℕ) (score : F)
      → Keyed old
      → (add_vector (get c.evidence_id old) c rank score).evidence_id ≡ c.evidence_id
  unfolding vector_candidate merged_candidate
  add_vector-id old c rank score keyed = known (get c.evidence_id old) refl
    where
      known :
          (o : Option (Candidate F))
          → get c.evidence_id old ≡ o
          → (add_vector o c rank score).evidence_id ≡ c.evidence_id
      known none e = refl
      known (some x) e = keyed c.evidence_id x e

  pub merge_vector-Merged :
      (scores : Dict F) (rank : ℕ) (cs : List (Candidate F)) (old : Dict (Candidate F))
      → Keyed old
      → Scored scores (ids cs)
      → (new : Dict (Candidate F)) × ((merge_vector scores rank cs old ≡ ok new)
          × Merged old cs new)
  unfolding merge_vector contains
  merge_vector-Merged scores rank [] old keyed s =
      (old, (refl, record { keyed = keyed; held = λ i. ground arith }))
  merge_vector-Merged scores rank (c ∷ cs) old keyed s =
      elim (Option-cases (get c.evidence_id scores)) [
        | inl n ↦ absurd (ground (arith, n, s.0))
        | inr (score, y) ↦
            let v = add_vector (get c.evidence_id old) c rank score in
            let next = put c.evidence_id v old in
            let (new, (run, merged)) =
              merge_vector-Merged scores (rank + 1) cs next
                (put-Keyed c.evidence_id v old (add_vector-id old c rank score keyed) keyed) s.1 in
            (
              new,
              (
                rw y run,
                record {
                  keyed = merged.keyed;
                  held = λ i. ground (arith, merged.held i, get-put c.evidence_id i v old);
                },
              ),
            )
      ]

  pub fused_loop-ids :
      (merged : Dict (Candidate F)) (scores : Dict F) (order : List Text)
      → Keyed merged
      → All (λ i. is_some (get i merged) ≡ true) order
      → Scored scores order
      → (out : List (Candidate F)) × ((fused_loop merged scores order ≡ ok out) × (ids out ≡ order))
  unfolding fused_loop
  fused_loop-ids merged scores [] keyed m s = ([], (refl, refl))
  fused_loop-ids merged scores (i ∷ order) keyed m s = elim (Option-cases (get i merged)) [
    | inl n ↦ absurd (ground (arith, n, m.0))
    | inr (c, y) ↦ elim (Option-cases (get i scores)) [
      | inl n ↦ absurd (ground (arith, n, s.0))
      | inr (score, z) ↦
          let (out, (run, same)) = fused_loop-ids merged scores order keyed m.1 s.1 in
          (
            fused_candidate c score ∷ out,
            (rw (y, fused_loop) (rw (z, run) refl), ground (arith, keyed i c y, same)),
          )
    ]
  ]

pub All-of-contains :
    {P : Text → Type 0} (xs : List Text) → ((i : Text) → contains i xs ≡ true → P i) → All P xs
unfolding contains
All-of-contains [] h = tt
All-of-contains (x ∷ xs) h =
    (h x (ground (arith, text_eq_refl x)), All-of-contains xs (λ i c. h i (ground (arith, c))))
