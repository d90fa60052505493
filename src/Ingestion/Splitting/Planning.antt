-- ===== src/Ingestion/Splitting/Planning.antt =====
-- The plan of packages/marx_engels/ingestion/splitting.py and the pilot window of
-- ingestion/pipeline.py: ranges in order, without gaps, within the budget.
use marx_engels_insight_matc.Base.{
  ℕ, zero, suc, ◌+◌, ◌-◌, ◌≤◌, ◌<◌, min, max, leb, ◌&&◌, ◌≡◌, refl, List, [], ◌∷◌, inl, inr,
  Bool-cases, arith,
}
use marx_engels_insight_matc.Ingestion.Failures.{empty_pdf, pdf_split, done, failed}
use marx_engels_insight_matc.Ingestion.Splitting.{
  PlannedRange, Budget, plan_loop, plan_page_ranges, pilot_window,
}

-- Ranges of at most `w` pages, each after the one before it, from page `e` to page `n`.
abbrev pub IsPlan : ℕ → ℕ → ℕ → List PlannedRange → Type 0
IsPlan w e n [] = e ≡ n + 1
IsPlan w e n (r ∷ rs) =
    (r.start_page ≡ e)
    × (e ≤ r.end_page)
    × (r.end_page ≤ n)
    × (r.end_page + 1 ≤ e + w)
    × IsPlan w (r.end_page + 1) n rs

IsPlan-widen : (w v e n : ℕ) (rs : List PlannedRange) → w ≤ v → IsPlan w e n rs → IsPlan v e n rs
IsPlan-widen w v e n [] h p = p
IsPlan-widen w v e n (r ∷ rs) h (s, a, b, c, p) =
    (s, a, b, omega arith, IsPlan-widen w v (r.end_page + 1) n rs h p)

plan_loop-IsPlan :
    (fuel n w e : ℕ)
    → 1 ≤ w
    → 1 ≤ e
    → e ≤ n + 1
    → n + 1 ≤ fuel + e
    → (rs : List PlannedRange) × (plan_loop fuel n w e ≡ done rs) × IsPlan w e n rs
unfolding plan_loop
plan_loop-IsPlan zero n w e h k le f = ([], ground arith, omega arith)
plan_loop-IsPlan (suc fuel) n w e h k le f = elim (Bool-cases (leb e n)) [
  | inl more ↦
      let last = min n (e + w - 1) in
      let e≤n : e ≤ n = ground arith in
      let (rs, p, q) =
        plan_loop-IsPlan fuel n w (last + 1) h (omega arith) (omega arith) (omega arith) in
      (
        record { start_page = e; end_page = last } ∷ rs,
        rw (more, plan_loop) (rw p refl),
        (refl, omega arith, omega arith, omega arith, q),
      )
  | inr stop ↦ ([], rw (stop, plan_loop) refl, ground arith)
]

-- A volume without pages is refused. Any other is planned: the ranges start at page 1, each at
-- the page after the one before it, none is empty, none has more pages than the budget allows
-- (one page where the budget allows none), and the last one ends at the last page.
pub plan_page_ranges-IsPlan :
    (budget : Budget) (page_count file_size : ℕ)
    → (page_count < 1 → plan_page_ranges budget page_count file_size ≡ failed (pdf_split empty_pdf))
      × (1 ≤ page_count
          → (ranges : List PlannedRange) × (plan_page_ranges budget page_count file_size
              ≡ done ranges)
            × IsPlan (max 1 budget.max_pages) 1 page_count ranges)
unfolding plan_page_ranges
plan_page_ranges-IsPlan budget n size = (
  λ h. ground arith,
  λ h. elim (Bool-cases (leb size budget.max_bytes && leb n budget.max_pages)) [
    | inl fits ↦ (
      record { start_page = 1; end_page = n } ∷ [],
      ground arith,
      (refl, h, omega arith, ground arith, refl),
    )
    | inr cut ↦
        let window =
          max 1 (min budget.max_pages (max 1 (budget.by_size budget.max_bytes size n))) in
        let (ranges, p, plan) =
          plan_loop-IsPlan n n window 1 (omega arith) (omega arith) (omega arith) (omega arith) in
        (
          ranges,
          ground (arith, p),
          IsPlan-widen window (max 1 budget.max_pages) 1 n ranges (omega arith) plan,
        )
  ],
)

-- The pilot window lies in the volume and has as many pages as are asked for, or all.
pub pilot_window_bounds :
    (page_count start count : ℕ)
    → 1 ≤ page_count
    → 1 ≤ start
    → 1 ≤ count
    → let (first, last) = pilot_window page_count start count in
      (1 ≤ first) × (last ≤ page_count) × (last + 1 ≡ first + min count page_count)
unfolding pilot_window
pilot_window_bounds n s c h k l = ground arith
