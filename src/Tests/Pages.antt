-- ===== src/Tests/Pages.antt =====
-- Chunks of small volumes.
use Prim.Native.String.{String}
use marx_engels_insight_matc.Base.{
  ℕ, zero, suc, ◌+◌, ◌-◌, ◌*◌, ◌≤◌, ◌<◌, leb, max, All, In, Text, codes, true, ◌&&◌, none, some,
  List, [], ◌∷◌, map, ◌≡◌, ◌↔◌, refl, if◌then◌else◌, arith,
}
use marx_engels_insight_matc.Base.Unique.{contains, Distinct}
use marx_engels_insight_matc.Base.Sort.{sort_by}
use marx_engels_insight_matc.Base.Strings.{text_eq}
use marx_engels_insight_matc.Corpus.Ids.{chunk_id}
use marx_engels_insight_matc.Ingestion.Failures.{done, failed, pdf_split, empty_pdf}
use marx_engels_insight_matc.Ingestion.Mapping.{
  PageRangeMapping, is_sha256, is_valid, original_page_for, mapping_from_range, first_page_fault,
  mapping_fault, coverage_loop, assert_complete_coverage,
}
use marx_engels_insight_matc.Ingestion.Mapping.Ranges.{IsRange, holders}
use marx_engels_insight_matc.Ingestion.Mapping.Coverage.{assert_complete_coverage_iff}
use marx_engels_insight_matc.Ingestion.Mapping.Pages.{original_page_for_unique}
use marx_engels_insight_matc.Ingestion.Splitting.{
  PlannedRange, MaterializedChunk, Budget, SourcePdf, OutputDir, plan_page_ranges, plan_loop,
  shrunk_end, fit_loop, fit_end_page, proposed_end, materialize_loop, reuse_existing_chunks,
  split_source, materialize_chunks, read_mappings,
}
use marx_engels_insight_matc.Ingestion.Splitting.Planning.{IsPlan, plan_page_ranges-IsPlan}
use marx_engels_insight_matc.Ingestion.Splitting.Accepted.{IsBudgeted, materialize_chunks_accepted}
use marx_engels_insight_matc.Ingestion.Splitting.Total.{Works, materialize_chunks_total}

abbrev letters : ℕ → Text
letters zero = []
letters (suc n) = 97 ∷ letters n

abbrev hash : Text
hash = letters 64

abbrev mapped : String → ℕ → ℕ → PageRangeMapping
mapped id s e = record {
  chunk_id = codes id;
  volume_number = 1;
  source_sha256 = hash;
  chunk_sha256 = hash;
  original_start_page = s;
  original_end_page = e;
  chunk_page_count = e - s + 1;
  offset = s - 1;
}

-- Pages 1 and 2, and page 3; not in this order.
abbrev two_chunks : List PageRangeMapping
two_chunks = mapped "b" 3 3 ∷ mapped "a" 1 2 ∷ []

assert_complete_coverage_iff_example : (assert_complete_coverage 3 two_chunks ≡ none) ↔ (
    (1 ≤ 3)
    × All IsRange two_chunks
    × Distinct (map (λ m. m.chunk_id) two_chunks)
    × ((p : ℕ) → holders p two_chunks ≡ (if leb 1 p && leb p 3 then 1 else 0)))
assert_complete_coverage_iff_example = assert_complete_coverage_iff 3 two_chunks

two_chunks_accepted : assert_complete_coverage 3 two_chunks ≡ none
unfolding assert_complete_coverage coverage_loop mapping_fault first_page_fault sort_by contains
    text_eq
two_chunks_accepted = refl

original_page_for_unique_example :
    (m : PageRangeMapping) × (c : ℕ) × In m two_chunks
    × (original_page_for m c ≡ done 2)
    × ((x : PageRangeMapping) (d : ℕ)
        → In x two_chunks
        → original_page_for x d ≡ done 2
        → (x ≡ m) × (d ≡ c))
original_page_for_unique_example =
    original_page_for_unique 3 two_chunks 2 two_chunks_accepted (omega arith) (omega arith)

-- 100 bytes and two pages at most.
abbrev small : Budget
small = record { max_bytes = 100; max_pages = 2; by_size = λ m f p. 1; shrink = λ n m s. 1 }

-- Three pages of 60 bytes each.
abbrev three_pages : SourcePdf
three_pages = record {
  file_size = 180;
  opens = true;
  page_total = 3;
  written = λ s e. some ((e + 1 - s) * 60);
  pages_sha256 = λ s e. hash;
  file_sha256 = hash;
}

abbrev no_files : OutputDir
no_files = record { mapping_files = []; chunk_file = λ s e. none }

plan_page_ranges-IsPlan_example :
    (3 < 1 → plan_page_ranges small 3 180 ≡ failed (pdf_split empty_pdf))
    × (1 ≤ 3
        → (ranges : List PlannedRange) × (plan_page_ranges small 3 180 ≡ done ranges)
          × IsPlan (max 1 2) 1 3 ranges)
plan_page_ranges-IsPlan_example = plan_page_ranges-IsPlan small 3 180

hash_valid : is_sha256 hash ≡ true
unfolding is_sha256
hash_valid = refl

three_pages_work : Works small three_pages
three_pages_work = record {
  opened = refl;
  writes = λ s e a b c. ((e + 1 - s) * 60, refl);
  page_fits = λ s size a b h. ground arith;
  hashes = λ s e. hash_valid;
  hash = hash_valid;
  pages = omega arith;
}

materialize_chunks_total_example :
    (chunks : List MaterializedChunk) × (materialize_chunks small three_pages 1 hash 3 no_files
      ≡ done chunks)
materialize_chunks_total_example =
    materialize_chunks_total small three_pages three_pages_work 1 hash 3 no_files tt (omega arith)
      (omega arith) hash_valid (omega arith) (omega arith)

-- Two pages are too many for a chunk.
abbrev one_page : ℕ → MaterializedChunk
one_page p = record {
  mapping = record {
    chunk_id = chunk_id 1 p p hash;
    volume_number = 1;
    source_sha256 = hash;
    chunk_sha256 = hash;
    original_start_page = p;
    original_end_page = p;
    chunk_page_count = 1;
    offset = p - 1;
  };
  size_bytes = 60;
}

abbrev cut_chunks : List MaterializedChunk
cut_chunks = one_page 1 ∷ one_page 2 ∷ one_page 3 ∷ []

three_pages_cut : materialize_chunks small three_pages 1 hash 3 no_files ≡ done cut_chunks
unfolding materialize_chunks reuse_existing_chunks read_mappings split_source plan_page_ranges
    plan_loop materialize_loop proposed_end fit_end_page fit_loop shrunk_end mapping_from_range
    is_valid is_sha256
three_pages_cut = refl

materialize_chunks_accepted_example :
    (assert_complete_coverage 3 (map (λ c. c.mapping) cut_chunks) ≡ none)
    × All (IsBudgeted small three_pages 1 hash 3) cut_chunks
materialize_chunks_accepted_example =
    materialize_chunks_accepted small three_pages 1 hash 3 no_files cut_chunks three_pages_cut
