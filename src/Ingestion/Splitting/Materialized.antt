-- ===== src/Ingestion/Splitting/Materialized.antt =====
-- The chunks that packages/marx_engels/ingestion/splitting.py cuts are accepted by
-- ingestion/mapping.py and keep the budget.
use marx_engels_insight_matc.Base.{
  Text, ℕ, zero, suc, ◌+◌, ◌-◌, ◌≤◌, ◌<◌, min, max, leb, ◌==◌, All, ◌≡◌, ◌≢◌, sym, ◌∙◌, List, [],
  ◌∷◌, map, inl, inr, Bool-cases, Option-cases, arith,
}
use marx_engels_insight_matc.Corpus.Ids.{chunk_id}
use marx_engels_insight_matc.Ingestion.Failures.{
  Failure, out_of_fuel, Outcome, and_then-Outcome, Outcome-of_if, Outcome-weaken,
}
use marx_engels_insight_matc.Ingestion.Mapping.{PageRangeMapping, mapping_from_range}
use marx_engels_insight_matc.Ingestion.Mapping.Ranges.{IsRange}
use marx_engels_insight_matc.Ingestion.Splitting.{
  PlannedRange, MaterializedChunk, Budget, SourcePdf, shrunk_end, fit_loop, fit_end_page,
  proposed_end, materialize_loop,
}
use marx_engels_insight_matc.Ingestion.Splitting.Tiles.{Tiles, Named}

-- Any failure that the source can raise.
abbrev pub Raised : Failure → Type 0
Raised f = f ≢ out_of_fuel

-- The mapping of a range of pages.
abbrev pub MapsRange : Text → ℕ → Text → ℕ → ℕ → PageRangeMapping → Type 0
MapsRange i v source s e m =
    IsRange m
    × (m.chunk_id ≡ i)
    × (m.volume_number ≡ v)
    × (m.source_sha256 ≡ source)
    × (m.original_start_page ≡ s)
    × (m.original_end_page ≡ e)

pub mapping_from_range-MapsRange :
    (i : Text) (v : ℕ) (source digest : Text) (s e : ℕ)
    → Outcome (MapsRange i v source s e) Raised (mapping_from_range i v source digest s e)
unfolding mapping_from_range
mapping_from_range-MapsRange i v source digest s e = ground arith

module _ (budget : Budget) (pdf : SourcePdf) where
  -- An attempt after one that was too large ends earlier, at the start page at the latest.
  pub shrunk_end_bounds :
      (s e size : ℕ)
      → (s ≤ shrunk_end budget pdf s e size) × (shrunk_end budget pdf s e size ≤ max s (e - 1))
  unfolding shrunk_end
  shrunk_end_bounds s e size = ground arith

  abbrev Fits : ℕ → ℕ → ℕ × ℕ → Type 0
  Fits s e fit = (fit.0 ≤ max s e) × (fit.1 ≤ budget.max_bytes)

  fit_loop-Fits :
      (fuel s e : ℕ)
      → 1 ≤ fuel
      → e + 1 ≤ fuel + s
      → (e < s → 2 ≤ fuel)
      → Outcome (Fits s e) Raised (fit_loop budget pdf fuel s e)
  unfolding fit_loop
  fit_loop-Fits zero s e h k l = absurd (omega arith)
  fit_loop-Fits (suc fuel) s e h k l = elim (Option-cases (pdf.written s e)) [
    | inl raised ↦ rw (raised, fit_loop) (λ x. cc)
    | inr (size, w) ↦
        rw (w, fit_loop)
          (Outcome-of_if (Fits s e) Raised (leb size budget.max_bytes) _ _ (λ t. ground arith)
            (λ t.
              Outcome-of_if (Fits s e) Raised (e == s) _ _ (λ u x. cc)
                (λ u.
                  let e' = shrunk_end budget pdf s e size in
                  let b = shrunk_end_bounds s e size in
                  Outcome-weaken (Fits s e') Raised (Fits s e) (fit_loop budget pdf fuel s e')
                    (λ fit h. (omega (arith, h.0, b), h.1))
                    (fit_loop-Fits fuel s e' (ground arith) (ground arith) (λ x. omega arith)))))
  ]

  -- The end page lies in the proposed range, and the chunk keeps the budget.
  abbrev pub KeepsBudget : ℕ → ℕ → ℕ × ℕ → Type 0
  KeepsBudget s p fit =
      (fit.0 ≤ max s p) × (fit.0 + 1 ≤ s + max 1 budget.max_pages) × (fit.1 ≤ budget.max_bytes)

  pub fit_end_page-KeepsBudget :
      (s p : ℕ) → Outcome (KeepsBudget s p) Raised (fit_end_page budget pdf s p)
  unfolding fit_end_page
  fit_end_page-KeepsBudget s p =
      let e = min (min p (s + budget.max_pages - 1)) pdf.page_total in
      Outcome-weaken (Fits s e) Raised (KeepsBudget s p) (fit_loop budget pdf (e - s + 2) s e)
        (λ fit h. (omega (arith, h.0), omega (arith, h.0), h.1))
        (fit_loop-Fits (e - s + 2) s e (omega arith) (omega arith) (λ h. omega arith))

  module _ (v : ℕ) (source : Text) (n : ℕ) where
    -- A chunk of the volume within the budget.
    abbrev pub IsChunk : MaterializedChunk → Type 0
    IsChunk c =
        IsRange c.mapping
        × Named v source c.mapping
        × (c.mapping.volume_number ≡ v)
        × (c.mapping.source_sha256 ≡ source)
        × (c.size_bytes ≤ budget.max_bytes)
        × (c.mapping.chunk_page_count ≤ max 1 budget.max_pages)

    pub proposed_end_bound :
        (s : ℕ) (planned : List PlannedRange)
        → All (λ r. r.end_page ≤ n) planned
        → proposed_end budget pdf n s planned ≤ n
    unfolding proposed_end
    proposed_end_bound s [] h = omega arith
    proposed_end_bound s (r ∷ rs) h = ground (arith, proposed_end_bound s rs h.1)

    abbrev pub IsCut : ℕ → List MaterializedChunk → Type 0
    IsCut s cs = All IsChunk cs × Tiles s n (map (λ c. c.mapping) cs)

    IsChunk-of_round :
        (s p : ℕ) (fit : ℕ × ℕ) (m : PageRangeMapping)
        → KeepsBudget s p fit
        → MapsRange (chunk_id v s fit.0 source) v source s fit.0 m
        → IsChunk (record { mapping = m; size_bytes = fit.1 })
    IsChunk-of_round s p fit m (b, c, d) (r, i, u, w, f, l) =
        (r, i ∙ (λ k. chunk_id v (sym f k) (sym l k) source), u, w, d, omega arith)

    pub materialize_loop-IsCut :
        (fuel : ℕ) (planned : List PlannedRange) (s : ℕ)
        → All (λ r. r.end_page ≤ n) planned
        → s ≤ n + 1
        → n + 1 ≤ fuel + s
        → Outcome (IsCut s) Raised (materialize_loop budget pdf v source n fuel planned s)
    unfolding materialize_loop
    materialize_loop-IsCut zero planned s b le f = ground arith
    materialize_loop-IsCut (suc fuel) planned s b le f =
        let p = proposed_end budget pdf n s planned in
        let p≤n = proposed_end_bound s planned b in
        elim (Bool-cases (leb s n)) [
          | inr stop ↦ rw (stop, materialize_loop) (tt, ground arith)
          | inl more ↦
              rw (more, materialize_loop)
                (and_then-Outcome (KeepsBudget s p) (IsCut s) Raised (fit_end_page budget pdf s p) _
                  (fit_end_page-KeepsBudget s p)
                  (λ fit q keeps.
                    let i = chunk_id v s fit.0 source in
                    let digest = pdf.pages_sha256 s fit.0 in
                    and_then-Outcome (MapsRange i v source s fit.0) (IsCut s) Raised
                      (mapping_from_range i v source digest s fit.0) _
                      (mapping_from_range-MapsRange i v source digest s fit.0)
                      (λ m q' maps.
                        let s≤n : s ≤ n = ground arith in
                        let le' : fit.0 ≤ n = omega (arith, keeps, p≤n) in
                        and_then-Outcome (IsCut (fit.0 + 1)) (IsCut s) Raised
                          (materialize_loop budget pdf v source n fuel planned (fit.0 + 1)) _
                          (materialize_loop-IsCut fuel planned (fit.0 + 1) b (omega arith)
                            (omega (arith, maps)))
                          (λ cs run cut. (
                            (IsChunk-of_round s p fit m keeps maps, cut.0),
                            (maps.4, omega (arith, maps.5), rw maps.5 cut.1),
                          )))))
        ]
