-- ===== src/Ingestion/Mapping.antt =====
-- packages/marx_engels/ingestion/mapping.py and `PageRangeMapping` of ingestion/models.py.
pub mod Ranges
pub mod Coverage
pub mod Pages
use Prim.Native.Nat.{Ordering}
use marx_engels_insight_matc.Base.{
  Text, codes, ℕ, zero, suc, ◌+◌, ◌-◌, ltb, leb, ◌==◌, length, all, Bool, true, false, not, ◌&&◌,
  ◌||◌, List, [], ◌∷◌, Option, none, some, if◌then◌else◌,
}
use marx_engels_insight_matc.Base.Unique.{contains}
use marx_engels_insight_matc.Base.Compare.{compare_nat}
use marx_engels_insight_matc.Base.Sort.{sort_by}
use marx_engels_insight_matc.Ingestion.Failures.{
  PageMappingError, invalid_range, no_pages, no_mappings, duplicate_id, overlapping, gap_before,
  inverted, count_mismatch, offset_mismatch, start_mismatch, coverage_ended, Failure, page_mapping,
  value_error, validation_error, Attempt, done, failed,
}

pub record PageRangeMapping : Type 0 where
  pub chunk_id : Text
  pub volume_number : ℕ
  pub source_sha256 : Text
  pub chunk_sha256 : Text
  pub original_start_page : ℕ
  pub original_end_page : ℕ
  pub chunk_page_count : ℕ
  pub offset : ℕ

-- `^[a-f0-9]{64}$`
unfoldable pub is_sha256 : Text → Bool
is_sha256 s = (length s == 64) && all (λ c. leb 97 c && leb c 102 || (leb 48 c && leb c 57)) s

-- The constraints of the fields. `offset >= 0` holds of every natural number.
unfoldable pub is_valid : PageRangeMapping → Bool
is_valid m =
    leb 1 m.volume_number
    && leb m.volume_number 10
    && is_sha256 m.source_sha256
    && is_sha256 m.chunk_sha256
    && leb 1 m.original_start_page
    && leb 1 m.original_end_page
    && leb 1 m.chunk_page_count

unfoldable pub original_page_for : PageRangeMapping → ℕ → Attempt ℕ
original_page_for m chunk_page =
    if ltb chunk_page 1 || ltb m.chunk_page_count chunk_page
    then failed (value_error m.chunk_id)
    else done (chunk_page + m.offset)

-- At `start_page = 0` the source has the offset -1, which is refused as the start is.
unfoldable pub mapping_from_range : Text → ℕ → Text → Text → ℕ → ℕ → Attempt PageRangeMapping
unfolding is_valid
mapping_from_range chunk_id volume_number source_sha256 chunk_sha256 start_page end_page =
    let m : PageRangeMapping = record {
      chunk_id = chunk_id;
      volume_number = volume_number;
      source_sha256 = source_sha256;
      chunk_sha256 = chunk_sha256;
      original_start_page = start_page;
      original_end_page = end_page;
      chunk_page_count = end_page - start_page + 1;
      offset = start_page - 1;
    } in
    if ltb end_page start_page
    then failed (page_mapping (invalid_range start_page end_page))
    else if is_valid m
    then done m
    else failed validation_error

-- `mapping.original_page_for(1) != mapping.original_start_page`
unfoldable pub first_page_fault : PageRangeMapping → Option Failure
unfolding original_page_for
first_page_fault m = elim (original_page_for m 1) [
  | failed f ↦ some f
  | done p ↦
      if p == m.original_start_page then none else some (page_mapping (start_mismatch m.chunk_id))
]

-- The body of the loop, up to the new value of `expected`.
unfoldable pub mapping_fault : ℕ → List Text → PageRangeMapping → Option Failure
unfolding first_page_fault
mapping_fault expected seen_ids m =
    if contains m.chunk_id seen_ids
    then some (page_mapping (duplicate_id m.chunk_id))
    else if not (m.original_start_page == expected)
    then some (
        page_mapping (
          if ltb m.original_start_page expected
          then overlapping m.original_start_page
          else gap_before m.original_start_page))
    else if ltb m.original_end_page m.original_start_page
    then some (page_mapping (inverted m.chunk_id))
    else if not (m.chunk_page_count == m.original_end_page - m.original_start_page + 1)
    then some (page_mapping (count_mismatch m.chunk_id))
    else if not (m.offset == m.original_start_page - 1)
    then some (page_mapping (offset_mismatch m.chunk_id))
    else first_page_fault m

-- The loop over the ordered mappings, and the test after it.
unfoldable pub coverage_loop : ℕ → ℕ → List Text → List PageRangeMapping → Option Failure
coverage_loop page_count expected seen_ids [] =
    if expected == page_count + 1
    then none
    else some (page_mapping (coverage_ended (expected - 1) page_count))
coverage_loop page_count expected seen_ids (m ∷ ms) = elim (mapping_fault expected seen_ids m) [
  | some f ↦ some f
  | none ↦ coverage_loop page_count (m.original_end_page + 1) (m.chunk_id ∷ seen_ids) ms
]

abbrev pub start_order : PageRangeMapping → PageRangeMapping → Ordering
start_order a b = compare_nat a.original_start_page b.original_start_page

-- `none` when nothing is raised.
unfoldable pub assert_complete_coverage : ℕ → List PageRangeMapping → Option Failure
assert_complete_coverage page_count [] =
    if ltb page_count 1 then some (page_mapping no_pages) else some (page_mapping no_mappings)
assert_complete_coverage page_count (m ∷ ms) =
    if ltb page_count 1
    then some (page_mapping no_pages)
    else coverage_loop page_count 1 [] (sort_by start_order (m ∷ ms))
