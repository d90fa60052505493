-- ===== src/Pipelines/Thematic/Presentation/Laws.antt =====
-- A group lists the members of its cluster, each as often, by falling score; a generated label
-- is shown only if every evidence that it cites is in the cluster.
use marx_engels_insight_matc.Base.{
  ◌≡◌, ◌≢◌, refl, Text, text_eq_iff, strip, All, true, false, List, [], ◌∷◌, arith, ◌↔◌,
}
use marx_engels_insight_matc.Base.Unique.{contains, Distinct}
use marx_engels_insight_matc.Pipelines.Thematic.Presentation.{
  valid_from, cited_evidence_ids_are_valid,
}

-- An identifier that may be cited: not empty, not padded, in the cluster.
abbrev pub Citable : List Text → Text → Type 0
Citable cluster_ids i = (i ≢ []) × (strip i ≡ i) × (contains i cluster_ids ≡ true)

module _ (cluster_ids : List Text) where
  valid_from→All :
      (seen claimed : List Text)
      → valid_from cluster_ids seen claimed ≡ true
      → All (λ i. Citable cluster_ids i × (contains i seen ≡ false)) claimed × Distinct claimed
  unfolding valid_from contains
  valid_from→All seen [] h = (tt, tt)
  valid_from→All seen (i ∷ claimed) h =
      let (rest, d) = valid_from→All (i ∷ seen) claimed (ground arith) in
      (
        (
          ((ground arith, ground (arith, text_eq_iff (strip i) i), ground arith), ground arith),
          older claimed rest,
        ),
        (first claimed rest, d),
      )
    where
      older :
          (xs : List Text)
          → All (λ j. Citable cluster_ids j × (contains j (i ∷ seen) ≡ false)) xs
          → All (λ j. Citable cluster_ids j × (contains j seen ≡ false)) xs
      older [] h = tt
      older (x ∷ xs) h = ((h.0.0, ground arith), older xs h.1)

      first :
          (xs : List Text)
          → All (λ j. Citable cluster_ids j × (contains j (i ∷ seen) ≡ false)) xs
          → contains i xs ≡ false
      first [] h = refl
      first (x ∷ xs) h = ground (arith, first xs h.1, h.0.1, text_eq_iff i x, text_eq_iff x i)

  All→valid_from :
      (seen claimed : List Text)
      → All (λ i. Citable cluster_ids i × (contains i seen ≡ false)) claimed
      → Distinct claimed
      → valid_from cluster_ids seen claimed ≡ true
  unfolding valid_from contains
  All→valid_from seen [] h d = refl
  All→valid_from seen (i ∷ claimed) h d = ground (
    arith,
    h.0.0.0,
    h.0.0.1,
    h.0.0.2,
    h.0.1,
    text_eq_iff (strip i) i,
    All→valid_from (i ∷ seen) claimed (newer claimed h.1 d.0) d.1,
  )
    where
      newer :
          (xs : List Text)
          → All (λ j. Citable cluster_ids j × (contains j seen ≡ false)) xs
          → contains i xs ≡ false
          → All (λ j. Citable cluster_ids j × (contains j (i ∷ seen) ≡ false)) xs
      newer [] h n = tt
      newer (x ∷ xs) h n = (
        (h.0.0, ground (arith, h.0.1, text_eq_iff i x, text_eq_iff x i)),
        newer xs h.1 (ground arith),
      )

  none_seen :
      (xs : List Text)
      → All (Citable cluster_ids) xs
      → All (λ j. Citable cluster_ids j × (contains j [] ≡ false)) xs
  unfolding contains
  none_seen [] h = tt
  none_seen (x ∷ xs) h = ((h.0, refl), none_seen xs h.1)

  citable :
      (xs : List Text)
      → All (λ j. Citable cluster_ids j × (contains j [] ≡ false)) xs
      → All (Citable cluster_ids) xs
  citable [] h = tt
  citable (x ∷ xs) h = (h.0.0, citable xs h.1)

  -- Citations are valid exactly when there is one, none is repeated, and each is an identifier
  -- of the cluster that is neither empty nor padded.
  pub cited_evidence_ids_are_valid_iff :
      (claimed : List Text)
      → (cited_evidence_ids_are_valid claimed cluster_ids ≡ true)
        ↔ ((claimed ≢ []) × Distinct claimed × All (Citable cluster_ids) claimed)
  unfolding cited_evidence_ids_are_valid
  cited_evidence_ids_are_valid_iff [] = (λ h. cc, λ h. absurd (h.0 refl))
  cited_evidence_ids_are_valid_iff (i ∷ claimed) = (
    λ h. let (a, d) = valid_from→All [] (i ∷ claimed) h in (λ e. cc, d, citable (i ∷ claimed) a),
    λ (n, d, a). All→valid_from [] (i ∷ claimed) (none_seen (i ∷ claimed) a) d,
  )
