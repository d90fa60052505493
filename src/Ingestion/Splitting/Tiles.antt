-- ===== src/Ingestion/Splitting/Tiles.antt =====
-- Mappings in order without gaps, as packages/marx_engels/ingestion/splitting.py makes them, are
-- accepted by ingestion/mapping.py.
use marx_engels_insight_matc.Base.{
  Text, ℕ, ◌+◌, ◌≤◌, ◌<◌, All, false, ◌≡◌, refl, sym, ◌∙◌, List, [], ◌∷◌, none, inl, inr,
  Bool-cases, arith,
}
use marx_engels_insight_matc.Base.Strings.{text_eq, text_eq_iff}
use marx_engels_insight_matc.Base.Unique.{contains, Distinct}
use marx_engels_insight_matc.Corpus.Ids.{chunk_id, chunk_id-injective}
use marx_engels_insight_matc.Ingestion.Mapping.{PageRangeMapping, assert_complete_coverage}
use marx_engels_insight_matc.Ingestion.Mapping.Ranges.{holders, IsRange, Covers, ids, Covers-cons}
use marx_engels_insight_matc.Ingestion.Mapping.Coverage.{assert_complete_coverage_iff}

-- Mappings in order, each at the page after the one before it, from page `e` to page `n`.
abbrev pub Tiles : ℕ → ℕ → List PageRangeMapping → Type 0
Tiles e n [] = e ≡ n + 1
Tiles e n (m ∷ ms) =
    (m.original_start_page ≡ e) × (m.original_end_page ≤ n) × Tiles (m.original_end_page + 1) n ms

Tiles-Covers :
    (e n : ℕ) (ms : List PageRangeMapping) → All IsRange ms → Tiles e n ms → Covers e n ms
unfolding holders
Tiles-Covers e n [] r t = λ p. ground arith
Tiles-Covers e n (m ∷ ms) r (s, le, t) =
    Covers-cons m e n ms s r.0 le (Tiles-Covers (m.original_end_page + 1) n ms r.1 t)

module _ (v : ℕ) (source : Text) where
  -- The identifier is the one of the volume, the pages and the hash of the source.
  abbrev pub Named : PageRangeMapping → Type 0
  Named m = m.chunk_id ≡ chunk_id v m.original_start_page m.original_end_page source

  later_ids :
      (i : Text) (s f e n : ℕ) (ms : List PageRangeMapping)
      → i ≡ chunk_id v s f source
      → s < e
      → All IsRange ms
      → All Named ms
      → Tiles e n ms
      → contains i (ids ms) ≡ false
  unfolding contains
  later_ids i s f e n [] p h r k t = refl
  later_ids i s f e n (m ∷ ms) p h r k (at, le, t) = elim (Bool-cases (text_eq i m.chunk_id)) [
    | inl same ↦
        let q : chunk_id v s f source
            ≡ chunk_id v m.original_start_page m.original_end_page source =
          sym p ∙ ((text_eq_iff i m.chunk_id).0 same ∙ k.0) in
        absurd (omega (arith, at, (chunk_id-injective v s f source v _ _ source q).1))
    | inr differ ↦ ground (
      arith,
      differ,
      later_ids i s f (m.original_end_page + 1) n ms p (omega (arith, r.0.1)) r.1 k.1 t,
    )
  ]

  Distinct-of_Tiles :
      (e n : ℕ) (ms : List PageRangeMapping)
      → All IsRange ms
      → All Named ms
      → Tiles e n ms
      → Distinct (ids ms)
  Distinct-of_Tiles e n [] r k t = tt
  Distinct-of_Tiles e n (m ∷ ms) r k (at, le, t) = (
    later_ids m.chunk_id m.original_start_page m.original_end_page (m.original_end_page + 1) n ms
        k.0 (omega (arith, r.0.1)) r.1 k.1 t,
    Distinct-of_Tiles (m.original_end_page + 1) n ms r.1 k.1 t,
  )

  pub accepted_of_Tiles :
      (n : ℕ) (ms : List PageRangeMapping)
      → 1 ≤ n
      → All IsRange ms
      → All Named ms
      → Tiles 1 n ms
      → assert_complete_coverage n ms ≡ none
  accepted_of_Tiles n ms h r k t =
      (assert_complete_coverage_iff n ms).1
        (h, r, Distinct-of_Tiles 1 n ms r k t, Tiles-Covers 1 n ms r t)
