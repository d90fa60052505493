-- ===== src/Ingestion/Mapping/Coverage.antt =====
-- `assert_complete_coverage` of packages/marx_engels/ingestion/mapping.py accepts exactly the
-- mappings under which every page stands in one chunk.
use marx_engels_insight_matc.Base.{
  Text, ℕ, ◌+◌, ◌≤◌, leb, All, ◌&&◌, ◌≡◌, refl, List, [], ◌∷◌, none, map, if◌then◌else◌, ◌↔◌, arith,
}
use marx_engels_insight_matc.Base.Unique.{
  contains, count, Distinct, count-Distinct, Distinct-of_count,
}
use marx_engels_insight_matc.Base.Compare.{
  IsOrder, compare_nat, compare_nat-IsOrder, by_key-IsOrder,
}
use marx_engels_insight_matc.Base.Sort.{
  insert_by, sort_by, sort_by-Ascending, All-sort_by, All-of_sort_by, count-sort_by, Ascending,
}
use marx_engels_insight_matc.Ingestion.Mapping.{
  PageRangeMapping, start_order, mapping_fault, coverage_loop, assert_complete_coverage,
}
use marx_engels_insight_matc.Ingestion.Mapping.Ranges.{
  holders, IsRange, ids, Covers, Fresh, mapping_fault-none_iff, Covers-tail, Covers-cons,
  start_of_Covers, Fresh-tail, Fresh-cons,
}

abbrev Loop : ℕ → ℕ → List Text → List PageRangeMapping → Type 0
Loop n e seen ms = All IsRange ms × Covers e n ms × Fresh seen ms

Loop-tail :
    (n e : ℕ) (seen : List Text) (m : PageRangeMapping) (ms : List PageRangeMapping)
    → 1 ≤ e
    → Ascending start_order (m ∷ ms)
    → Loop n e seen (m ∷ ms)
    → (mapping_fault e seen m ≡ none)
      × (m.original_end_page ≤ n)
      × Loop n (m.original_end_page + 1) (m.chunk_id ∷ seen) ms
Loop-tail n e seen m ms h a ((r, rs), c, f) =
    let s : m.original_start_page ≡ e = start_of_Covers m e n ms r a.0 c in
    let (c', le) = Covers-tail m e n ms s r c in
    let (new, f') = Fresh-tail m seen ms f in
    ((mapping_fault-none_iff e seen m h).1 (new, s, r), le, (rs, c', f'))

coverage_loop-accepts :
    (n e : ℕ) (seen : List Text) (ms : List PageRangeMapping)
    → 1 ≤ e
    → e ≤ n + 1
    → Ascending start_order ms
    → Loop n e seen ms
    → coverage_loop n e seen ms ≡ none
unfolding coverage_loop holders
coverage_loop-accepts n e seen [] h le a (r, c, f) = ground (arith, c e)
coverage_loop-accepts n e seen (m ∷ ms) h le a l =
    let (passes, le', rest) = Loop-tail n e seen m ms h a l in
    rw (passes, coverage_loop)
      (coverage_loop-accepts n (m.original_end_page + 1) (m.chunk_id ∷ seen) ms (omega arith)
        (omega arith) a.1 rest)

coverage_loop_sound :
    (n e : ℕ) (seen : List Text) (ms : List PageRangeMapping)
    → 1 ≤ e
    → coverage_loop n e seen ms ≡ none
    → (e ≤ n + 1) × Loop n e seen ms
unfolding coverage_loop holders count
coverage_loop_sound n e seen [] h k =
    let e' : e ≡ n + 1 = ground arith in (omega arith, (tt, λ p. ground arith, λ i. ground arith))
coverage_loop_sound n e seen (m ∷ ms) h k =
    let passes : mapping_fault e seen m ≡ none = ground arith in
    let (new, s, r) = (mapping_fault-none_iff e seen m h).0 passes in
    let rest : coverage_loop n (m.original_end_page + 1) (m.chunk_id ∷ seen) ms ≡ none =
      ground arith in
    let (le, (rs, c, f)) =
      coverage_loop_sound n (m.original_end_page + 1) (m.chunk_id ∷ seen) ms (omega arith) rest in
    (omega arith, ((r, rs), Covers-cons m e n ms s r (omega arith) c, Fresh-cons m seen ms new f))

-- Sorting keeps the number of ranges that hold a page.
holders-insert_by :
    (p : ℕ) (m : PageRangeMapping) (ms : List PageRangeMapping)
    → holders p (insert_by start_order m ms) ≡ holders p (m ∷ ms)
unfolding insert_by holders
holders-insert_by p m [] = refl
holders-insert_by p m (y ∷ ys) = ground (arith, holders-insert_by p m ys)

holders-sort_by :
    (p : ℕ) (ms : List PageRangeMapping) → holders p (sort_by start_order ms) ≡ holders p ms
unfolding sort_by holders
holders-sort_by p [] = refl
holders-sort_by p (m ∷ ms) =
    omega (arith, holders-insert_by p m (sort_by start_order ms), holders-sort_by p ms)

start_order-IsOrder : IsOrder start_order
start_order-IsOrder =
    by_key-IsOrder {cmp = compare_nat} (λ m. m.original_start_page) compare_nat-IsOrder

Loop-sort_by :
    (n : ℕ) (ms : List PageRangeMapping)
    → Loop n 1 [] (sort_by start_order ms) ↔ (All IsRange ms × Covers 1 n ms × Distinct (ids ms))
unfolding contains
Loop-sort_by n ms = (
  λ l.
      let (r, c, f) = l in
      (
        All-of_sort_by IsRange start_order ms r,
        λ p. omega (arith, c p, holders-sort_by p ms),
        Distinct-of_count (ids ms) (λ i.
            omega
              (arith, f i, count-sort_by (λ (m : PageRangeMapping). m.chunk_id) start_order i ms)),
      ),
  λ l.
      let (r, c, d) = l in
      (
        All-sort_by IsRange start_order ms r,
        λ p. omega (arith, c p, holders-sort_by p ms),
        λ i. ground (
          arith,
          count-Distinct i (ids ms) d,
          count-sort_by (λ (m : PageRangeMapping). m.chunk_id) start_order i ms,
        ),
      ),
)

-- The check of a volume's chunks accepts exactly when the volume has a page, no chunk
-- identifier stands twice, the page count and the offset of each chunk are those of its range,
-- and every page of the volume stands in exactly one chunk and no other page in any.
pub assert_complete_coverage_iff :
    (page_count : ℕ) (ms : List PageRangeMapping)
    → (assert_complete_coverage page_count ms ≡ none) ↔ (
        (1 ≤ page_count)
        × All IsRange ms
        × Distinct (map (λ m. m.chunk_id) ms)
        × ((p : ℕ) → holders p ms ≡ (if leb 1 p && leb p page_count then 1 else 0)))
unfolding assert_complete_coverage holders
assert_complete_coverage_iff n [] =
    (λ h. absurd (ground arith), λ h. absurd (ground (arith, h.3 1)))
assert_complete_coverage_iff n (m ∷ ms) = (
  λ h.
      let le : 1 ≤ n = ground arith in
      let passes : coverage_loop n 1 [] (sort_by start_order (m ∷ ms)) ≡ none = ground arith in
      let (r, c, d) =
        (Loop-sort_by n (m ∷ ms)).0 (coverage_loop_sound n 1 [] _ (omega arith) passes).1 in
      (le, r, d, c),
  λ h.
      let (le, r, d, c) = h in
      let passes : coverage_loop n 1 [] (sort_by start_order (m ∷ ms)) ≡ none =
        coverage_loop-accepts n 1 [] _ (omega arith) (omega arith)
          (sort_by-Ascending start_order-IsOrder (m ∷ ms))
          ((Loop-sort_by n (m ∷ ms)).1 (r, c, d)) in
      ground arith,
)

-- Ordered mappings are accepted if the mappings are.
pub assert_complete_coverage-sort_by :
    (n : ℕ) (ms : List PageRangeMapping)
    → assert_complete_coverage n ms ≡ none
    → assert_complete_coverage n (sort_by start_order ms) ≡ none
assert_complete_coverage-sort_by n ms h =
    let (le, r, d, c) = (assert_complete_coverage_iff n ms).0 h in
    (assert_complete_coverage_iff n (sort_by start_order ms)).1 (
      le,
      All-sort_by IsRange start_order ms r,
      Distinct-of_count (ids (sort_by start_order ms)) (λ i. ground (
        arith,
        count-Distinct i (ids ms) d,
        count-sort_by (λ (m : PageRangeMapping). m.chunk_id) start_order i ms,
      )),
      λ p. omega (arith, c p, holders-sort_by p ms),
    )
