-- ===== src/Ingestion/Mapping/Ranges.antt =====
-- The ranges of pages of packages/marx_engels/ingestion/mapping.py: which pages they hold, and the
-- identifiers seen by the loop of the check.
use marx_engels_insight_matc.Base.{
  Text, ℕ, ◌+◌, ◌≤◌, ◌<◌, leb, All, Bool, true, false, ◌&&◌, ◌≡◌, refl, List, [], ◌∷◌, none, map,
  if◌then◌else◌, ◌↔◌, arith,
}
use marx_engels_insight_matc.Base.Strings.{text_eq_iff}
use marx_engels_insight_matc.Base.Unique.{contains, count}
use marx_engels_insight_matc.Base.Compare.{le_of}
use marx_engels_insight_matc.Ingestion.Mapping.{
  PageRangeMapping, start_order, first_page_fault, original_page_for, mapping_fault,
}

-- How many of the mappings claim page `p` of the volume.
abbrev pub holds : ℕ → PageRangeMapping → Bool
holds p m = leb m.original_start_page p && leb p m.original_end_page

unfoldable pub holders : ℕ → List PageRangeMapping → ℕ
holders p [] = 0
holders p (m ∷ ms) = (if holds p m then 1 else 0) + holders p ms

-- A chunk whose page count and offset are those of its range.
abbrev pub IsRange : PageRangeMapping → Type 0
IsRange m =
    (1 ≤ m.original_start_page)
    × (m.original_start_page ≤ m.original_end_page)
    × (m.chunk_page_count + m.original_start_page ≡ m.original_end_page + 1)
    × (m.offset + 1 ≡ m.original_start_page)

abbrev pub ids : List PageRangeMapping → List Text
ids ms = map (λ m. m.chunk_id) ms

-- Every page from `e` to `n` stands in one of the ranges, and no other page in any.
abbrev pub Covers : ℕ → ℕ → List PageRangeMapping → Type 0
Covers e n ms = (p : ℕ) → holders p ms ≡ (if leb e p && leb p n then 1 else 0)

-- No identifier stands twice in the list, or in the list and among those seen.
abbrev pub Fresh : List Text → List PageRangeMapping → Type 0
Fresh seen ms = (i : Text) → count i (ids ms) + (if contains i seen then 1 else 0) ≤ 1

-- What the body of the loop asks of a mapping.
pub mapping_fault-none_iff :
    (e : ℕ) (seen : List Text) (m : PageRangeMapping)
    → 1 ≤ e
    → (mapping_fault e seen m ≡ none)
      ↔ ((contains m.chunk_id seen ≡ false) × (m.original_start_page ≡ e) × IsRange m)
unfolding mapping_fault first_page_fault original_page_for
mapping_fault-none_iff e seen m h = (λ k. ground arith, λ k. ground arith)

module _ (m : PageRangeMapping) where
  -- A range that starts after `p` leaves `p` free, and so do those that start later.
  pub holders-before :
      (p : ℕ) (ms : List PageRangeMapping)
      → p < m.original_start_page
      → All (λ y. le_of start_order m y ≡ true) ms
      → holders p ms ≡ 0
  unfolding holders
  holders-before p [] h a = refl
  holders-before p (y ∷ ys) h a = ground (arith, a.0, holders-before p ys h a.1)

  pub Covers-tail :
      (e n : ℕ) (ms : List PageRangeMapping)
      → m.original_start_page ≡ e
      → IsRange m
      → Covers e n (m ∷ ms)
      → Covers (m.original_end_page + 1) n ms × (m.original_end_page ≤ n)
  unfolding holders
  Covers-tail e n ms s r c =
      (λ p. ground (arith, c p, c m.original_end_page), ground (arith, c m.original_end_page))

  pub Covers-cons :
      (e n : ℕ) (ms : List PageRangeMapping)
      → m.original_start_page ≡ e
      → IsRange m
      → m.original_end_page ≤ n
      → Covers (m.original_end_page + 1) n ms
      → Covers e n (m ∷ ms)
  unfolding holders
  Covers-cons e n ms s r le c p = ground (arith, c p)

  -- The first of the ordered ranges starts at the first page to be covered.
  pub start_of_Covers :
      (e n : ℕ) (ms : List PageRangeMapping)
      → IsRange m
      → All (λ y. le_of start_order m y ≡ true) ms
      → Covers e n (m ∷ ms)
      → m.original_start_page ≡ e
  unfolding holders
  start_of_Covers e n ms r a c = ground (arith, c e, c m.original_start_page, holders-before e ms)

  pub Fresh-tail :
      (seen : List Text) (ms : List PageRangeMapping)
      → Fresh seen (m ∷ ms)
      → (contains m.chunk_id seen ≡ false) × Fresh (m.chunk_id ∷ seen) ms
  unfolding count contains
  Fresh-tail seen ms f = (
    ground (arith, f m.chunk_id, text_eq_iff m.chunk_id m.chunk_id),
    λ i. ground (arith, f i, f m.chunk_id, text_eq_iff i m.chunk_id),
  )

  pub Fresh-cons :
      (seen : List Text) (ms : List PageRangeMapping)
      → contains m.chunk_id seen ≡ false
      → Fresh (m.chunk_id ∷ seen) ms
      → Fresh seen (m ∷ ms)
  unfolding count contains
  Fresh-cons seen ms new f i = ground (arith, f i, text_eq_iff i m.chunk_id)
