-- ===== src/Ingestion/Splitting.antt =====
-- packages/marx_engels/ingestion/splitting.py, and `pilot_window` of ingestion/pipeline.py.
pub mod Planning
pub mod Tiles
pub mod Materialized
pub mod Accepted
pub mod Total
use marx_engels_insight_matc.Base.{
  Text, ℕ, zero, suc, ◌+◌, ◌-◌, min, max, ltb, leb, ◌==◌, any, Bool, true, false, not, ◌&&◌, ◌||◌,
  List, [], ◌∷◌, Option, none, some, map, if◌then◌else◌,
}
use marx_engels_insight_matc.Base.Strings.{text_eq}
use marx_engels_insight_matc.Base.Sort.{sort_by}
use marx_engels_insight_matc.Corpus.Ids.{chunk_id}
use marx_engels_insight_matc.Ingestion.Failures.{
  validation_error, empty_pdf, unreadable, empty_window, window_too_long, window_out_of_range,
  window_too_large, oversized_page, pdf_split, writer, out_of_fuel, Attempt, done, failed, and_then,
}
use marx_engels_insight_matc.Ingestion.Mapping.{
  PageRangeMapping, mapping_from_range, assert_complete_coverage, start_order,
}

pub record PlannedRange : Type 0 where
  pub start_page : ℕ
  pub end_page : ℕ

-- The path of the file is that of its volume and its pages, and is left out.
pub record MaterializedChunk : Type 0 where
  pub mapping : PageRangeMapping
  pub size_bytes : ℕ

-- The budgets, and the two products of floats that estimate how many pages fit:
-- `by_size max_bytes file_size_bytes page_count` and `shrink page_span max_bytes size`.
pub record Budget : Type 0 where
  pub max_bytes : ℕ
  pub max_pages : ℕ
  pub by_size : ℕ → ℕ → ℕ → ℕ
  pub shrink : ℕ → ℕ → ℕ → ℕ

-- The source file and the PDF library: the size of the file, whether it opens, the number of
-- pages it reads, the size and the hash of the chunk of some of the pages, and the hash of
-- its copy. `written` is `none` where the library raises.
pub record SourcePdf : Type 0 where
  pub file_size : ℕ
  pub opens : Bool
  pub page_total : ℕ
  pub written : ℕ → ℕ → Option ℕ
  pub pages_sha256 : ℕ → ℕ → Text
  pub file_sha256 : Text

-- The output folder: its mapping files, `none` for one that is no valid mapping, and the hash and size of the chunk file of two pages.
pub record OutputDir : Type 0 where
  pub mapping_files : List (Option PageRangeMapping)
  pub chunk_file : ℕ → ℕ → Option (Text × ℕ)

-- `PageRangeMapping.model_validate_json` of each mapping file.
unfoldable pub read_mappings : List (Option PageRangeMapping) → Attempt (List PageRangeMapping)
read_mappings [] = done []
read_mappings (none ∷ files) = failed validation_error
read_mappings (some m ∷ files) = and_then (read_mappings files) (λ ms. done (m ∷ ms))

-- The `while` loop. The window is positive, so a fuel of `page_count` is enough.
unfoldable pub plan_loop : ℕ → ℕ → ℕ → ℕ → Attempt (List PlannedRange)
plan_loop zero page_count window start =
    if leb start page_count then failed out_of_fuel else done []
plan_loop (suc fuel) page_count window start = elim (leb start page_count) [
  | true ↦
      let end_page = min page_count (start + window - 1) in
      and_then (plan_loop fuel page_count window (end_page + 1))
        (λ ranges. done (record { start_page = start; end_page = end_page } ∷ ranges))
  | false ↦ done []
]

unfoldable pub plan_page_ranges : Budget → ℕ → ℕ → Attempt (List PlannedRange)
plan_page_ranges budget page_count file_size_bytes =
    let window =
      max 1 (
        min budget.max_pages
          (max 1 (budget.by_size budget.max_bytes file_size_bytes page_count))) in
    if ltb page_count 1
    then failed (pdf_split empty_pdf)
    else if leb file_size_bytes budget.max_bytes && leb page_count budget.max_pages
    then done (record { start_page = 1; end_page = page_count } ∷ [])
    else plan_loop page_count page_count window 1

-- `pilot_window` with its defaults `start = 21` and `count = 10` as arguments.
unfoldable pub pilot_window : ℕ → ℕ → ℕ → ℕ × ℕ
pilot_window page_count start count =
    if leb page_count count
    then (1, page_count)
    else if leb (start + count - 1) page_count
    then (start, start + count - 1)
    else (page_count - count + 1, page_count)

module _ (budget : Budget) (pdf : SourcePdf) where
  -- The end page of the next attempt, after one of `size` bytes. Where the span is not positive
  -- the source shrinks to the start page too.
  unfoldable pub shrunk_end : ℕ → ℕ → ℕ → ℕ
  shrunk_end start_page end_page size =
      let page_span = end_page + 1 - start_page in
      let shrunk = start_page + (budget.shrink page_span budget.max_bytes size - 1) in
      max start_page (if leb end_page shrunk then end_page - 1 else shrunk)

  unfoldable pub fit_loop : ℕ → ℕ → ℕ → Attempt (ℕ × ℕ)
  fit_loop zero start_page end_page = failed out_of_fuel
  fit_loop (suc fuel) start_page end_page = elim (pdf.written start_page end_page) [
    | none ↦ failed writer
    | some size ↦
        let again = fit_loop fuel start_page (shrunk_end start_page end_page size) in
        if leb size budget.max_bytes
        then done (end_page, size)
        else if end_page == start_page
        then failed (pdf_split (oversized_page start_page size))
        else again
  ]

  -- Each attempt is shorter than the one before it, down to a single page.
  unfoldable pub fit_end_page : ℕ → ℕ → Attempt (ℕ × ℕ)
  fit_end_page start_page proposed_end =
      let end_page = min (min proposed_end (start_page + budget.max_pages - 1)) pdf.page_total in
      fit_loop (end_page - start_page + 2) start_page end_page

  -- The planned end of the range that starts at `start`, or the longest one.
  unfoldable pub proposed_end : ℕ → ℕ → List PlannedRange → ℕ
  proposed_end page_count start [] = min page_count (start + budget.max_pages - 1)
  proposed_end page_count start (item ∷ planned) =
      if item.start_page == start then item.end_page else proposed_end page_count start planned

  module _ (volume_number : ℕ) (source_sha256 : Text) (page_count : ℕ) where
    -- Every round starts after the pages of the round before it.
    unfoldable pub materialize_loop : ℕ → List PlannedRange → ℕ → Attempt (List MaterializedChunk)
    materialize_loop zero planned start =
        if leb start page_count then failed out_of_fuel else done []
    materialize_loop (suc fuel) planned start = elim (leb start page_count) [
      | true ↦ and_then (fit_end_page start (proposed_end page_count start planned)) (λ fit.
          and_then
            (mapping_from_range (chunk_id volume_number start fit.0 source_sha256) volume_number
              source_sha256 (pdf.pages_sha256 start fit.0) start fit.0)
            (λ m.
              and_then (materialize_loop fuel planned (fit.0 + 1))
                (λ chunks. done (record { mapping = m; size_bytes = fit.1 } ∷ chunks))))
      | false ↦ done []
    ]

    -- The loop over the ordered mapping files.
    unfoldable pub reuse_loop : OutputDir → List PageRangeMapping → Option (List MaterializedChunk)
    reuse_loop dir [] = some []
    reuse_loop dir (m ∷ ms) = elim (dir.chunk_file m.original_start_page m.original_end_page) [
      | none ↦ none
      | some (digest, size) ↦
          if not (text_eq digest m.chunk_sha256)
          then none
          else if ltb budget.max_bytes size || ltb budget.max_pages m.chunk_page_count
          then none
          else elim (reuse_loop dir ms) [
            | none ↦ none
            | some chunks ↦ some (record { mapping = m; size_bytes = size } ∷ chunks)
          ]
    ]

    unfoldable pub reuse_mappings :
        OutputDir → List PageRangeMapping → Option (List MaterializedChunk)
    reuse_mappings dir [] = none
    reuse_mappings dir (m ∷ ms) =
        if any
          (λ (item : PageRangeMapping).
            not (text_eq item.source_sha256 source_sha256)
            || not (item.volume_number == volume_number))
          (m ∷ ms)
        then none
        else elim (assert_complete_coverage page_count (m ∷ ms)) [
          | some f ↦ none
          | none ↦ reuse_loop dir (sort_by start_order (m ∷ ms))
        ]

    unfoldable pub reuse_existing_chunks : OutputDir → Attempt (Option (List MaterializedChunk))
    unfolding read_mappings reuse_mappings
    reuse_existing_chunks dir =
        and_then (read_mappings dir.mapping_files) (λ ms. done (reuse_mappings dir ms))

    -- The source is one chunk when it fits, and is cut otherwise.
    unfoldable pub split_source : List PlannedRange → Attempt (List MaterializedChunk)
    split_source planned =
        if leb pdf.file_size budget.max_bytes && leb page_count budget.max_pages
        then and_then
            (mapping_from_range (chunk_id volume_number 1 page_count source_sha256) volume_number
              source_sha256 pdf.file_sha256 1 page_count)
            (λ m. done (record { mapping = m; size_bytes = pdf.file_size } ∷ []))
        else if pdf.opens
        then materialize_loop page_count planned 1
        else failed (pdf_split unreadable)

    -- The chunks that are reused, or those that are planned and cut.
    abbrev pub reused_or_cut : Option (List MaterializedChunk) → Attempt (List MaterializedChunk)
    reused_or_cut (some chunks) = done chunks
    reused_or_cut none = and_then (plan_page_ranges budget page_count pdf.file_size) split_source

    unfoldable pub materialize_chunks : OutputDir → Attempt (List MaterializedChunk)
    unfolding reuse_existing_chunks split_source
    materialize_chunks dir = and_then (reuse_existing_chunks dir) reused_or_cut

  -- The window of a pilot run.
  unfoldable pub materialize_page_window : ℕ → Text → ℕ → ℕ → Attempt MaterializedChunk
  materialize_page_window volume_number source_sha256 start_page end_page =
      if ltb end_page start_page
      then failed (pdf_split empty_window)
      else if ltb budget.max_pages (end_page - start_page + 1)
      then failed (pdf_split (window_too_long start_page end_page))
      else if not pdf.opens
      then failed (pdf_split unreadable)
      else if ltb pdf.page_total end_page
      then failed (pdf_split (window_out_of_range start_page end_page))
      else elim (pdf.written start_page end_page) [
        | none ↦ failed writer
        | some size ↦
            if ltb budget.max_bytes size
            then failed (pdf_split (window_too_large size))
            else and_then
                (mapping_from_range (chunk_id volume_number start_page end_page source_sha256)
                  volume_number source_sha256 (pdf.pages_sha256 start_page end_page) start_page
                  end_page)
                (λ m. done (record { mapping = m; size_bytes = size }))
      ]
