-- ===== src/Ingestion/Merging/Volume.antt =====
-- packages/marx_engels/ingestion/page_merge.py and RawPageRecord of layer_models.py: the pages of a
-- volume out of the pages of its chunks. What the files of a chunk hold is the parameter
-- `pages_of`, and `B` is the type of blocks.
pub mod Pages
pub mod Laws
use Prim.Native.Nat.{Ordering, max}
use marx_engels_insight_matc.Base.{
  ℕ, zero, suc, ◌+◌, ◌==◌, ltb, Text, codes, any, keep, length, Bool, true, false, not, ◌&&◌, ◌||◌,
  Option, none, some, List, [], ◌∷◌, ◌++◌, map, if◌then◌else◌,
}
use marx_engels_insight_matc.Base.Compare.{compare_nat}
use marx_engels_insight_matc.Base.Sort.{sort_by}
use marx_engels_insight_matc.Ingestion.Failures.{Attempt, done, and_then}
use marx_engels_insight_matc.Ingestion.Runs.{ExtractionChunk}

-- `artifact_kind` and `layer` have their defaults in every record, and are left out.
pub record RawPageRecord (B : Type 0) : Type 0 where
  pub volume_id : Text
  pub volume_number : ℕ
  pub pdf_page : ℕ
  pub extraction_run_id : Text
  pub chunk_id : Option Text
  pub chunk_page_index : Option ℕ
  pub source_sha256 : Text
  pub artifact_name : Option Text
  pub raw_text : Text
  pub blocks : List B
  pub warnings : List Text
  pub manual_required : Bool
  pub missing : Bool
  pub duplicate : Bool

abbrev shown_id : Option Text → Text
shown_id none = codes "None"
shown_id (some chunk_id) = chunk_id

-- The pages, the numbers that came again, the chunks out of order, and the end so far.
pub record Merge (B : Type 0) : Type 0 where
  pub recovered : List (RawPageRecord B)
  pub duplicates : List ℕ
  pub out_of_order : List Text
  pub previous_end : ℕ

abbrev pub chunk_order : ExtractionChunk → ExtractionChunk → Ordering
chunk_order a b = compare_nat a.original_start_page b.original_start_page

module _ {B : Type 0} where
  -- `page in recovered`
  unfoldable pub has_page : ℕ → List (RawPageRecord B) → Bool
  has_page n [] = false
  has_page n (p ∷ pages) = (n == p.pdf_page) || has_page n pages

  -- What is written on the page that is there, when another one arrives.
  unfoldable pub mark_duplicate : RawPageRecord B → RawPageRecord B → RawPageRecord B
  mark_duplicate page existing = record existing {
    duplicate = true;
    warnings = existing.warnings ++ (codes "duplicate from " ++ shown_id page.chunk_id) ∷ [];
    manual_required = true;
  }

  -- The dictionary `recovered`, in insertion order: its keys are the numbers of its pages.
  unfoldable pub recover_page : RawPageRecord B → List (RawPageRecord B) → List (RawPageRecord B)
  unfolding mark_duplicate
  recover_page page [] = page ∷ []
  recover_page page (p ∷ recovered) =
      if page.pdf_page == p.pdf_page
      then mark_duplicate page p ∷ recovered
      else p ∷ recover_page page recovered

  -- the loop over the pages of a chunk
  unfoldable pub page_loop : List (RawPageRecord B) → Merge B → Merge B
  unfolding has_page recover_page
  page_loop [] m = m
  page_loop (page ∷ pages) m = page_loop pages (record m {
    recovered = recover_page page m.recovered;
    duplicates =
        if has_page page.pdf_page m.recovered
        then m.duplicates ++ page.pdf_page ∷ []
        else m.duplicates;
  })

  abbrev pub start_chunk : ExtractionChunk → Merge B → Merge B
  start_chunk chunk m = record m {
    out_of_order =
        if ltb chunk.original_start_page m.previous_end
        then m.out_of_order ++ chunk.chunk_id ∷ []
        else m.out_of_order;
    previous_end = max m.previous_end chunk.original_end_page;
  }

  -- the loop over the chunks
  unfoldable pub chunk_loop :
      (ExtractionChunk → Attempt (List (RawPageRecord B)))
      → List ExtractionChunk
      → Merge B
      → Attempt (Merge B)
  unfolding page_loop
  chunk_loop pages_of [] m = done m
  chunk_loop pages_of (chunk ∷ chunks) m =
      and_then (pages_of chunk)
        (λ pages. chunk_loop pages_of chunks (page_loop pages (start_chunk chunk m)))

-- `range(start, start + count)`
unfoldable pub page_range : ℕ → ℕ → List ℕ
page_range start zero = []
page_range start (suc count) = start ∷ page_range (start + 1) count

-- `max(chunk.original_end_page for chunk in chunks)`. Of no chunk, `max` raises and this is 0; the
-- caller groups the chunks of a run by volume, so a volume has at least one.
unfoldable pub last_page : List ExtractionChunk → ℕ
last_page [] = 0
last_page (chunk ∷ chunks) = max chunk.original_end_page (last_page chunks)

-- The part of a `SourceRecord` that is read; no count, or a count of 0, is none.
pub record VolumeRecord : Type 0 where
  pub volume_id : Text
  pub pdf_page_count : Option ℕ
  pub sha256 : Text

unfoldable pub expected_pages : Option VolumeRecord → List ExtractionChunk → ℕ
unfolding last_page
expected_pages none chunks = last_page chunks
expected_pages (some record_) chunks = counted record_.pdf_page_count
  where
    counted : Option ℕ → ℕ
    counted none = last_page chunks
    counted (some zero) = last_page chunks
    counted (some (suc n)) = suc n

abbrev first_sha : List ExtractionChunk → Text
first_sha [] = []
first_sha (chunk ∷ chunks) = chunk.source_sha256

abbrev pub source_sha : Option VolumeRecord → List ExtractionChunk → Text
source_sha none ordered = first_sha ordered
source_sha (some r) ordered = r.sha256

abbrev pub volume_id_of : Option VolumeRecord → Text → Text
volume_id_of none fallback = fallback
volume_id_of (some r) fallback = r.volume_id

-- The pages that are written, and the lists of the report.
pub record MergedVolume (B : Type 0) : Type 0 where
  pub volume_id : Text
  pub pages : List (RawPageRecord B)
  pub expected : ℕ
  pub missing : List ℕ
  pub duplicates : List ℕ
  pub out_of_order : List Text
  pub chunk_ids : List Text

module _ {B : Type 0} where
  unfoldable pub missing_record : Text → ℕ → Text → Text → ℕ → RawPageRecord B
  missing_record volume_id volume_number run_id sha n = record {
    volume_id = volume_id;
    volume_number = volume_number;
    pdf_page = n;
    extraction_run_id = run_id;
    chunk_id = none;
    chunk_page_index = none;
    source_sha256 = sha;
    artifact_name = none;
    raw_text = [];
    blocks = [];
    warnings = codes "missing_structured_page" ∷ [];
    manual_required = true;
    missing = true;
    duplicate = false;
  }

  -- The missing pages, and the report. It sorts the duplicates and drops repetitions.
  unfoldable pub finish_volume :
      Text → Option VolumeRecord → ℕ → Text → List ExtractionChunk → Merge B → MergedVolume B
  unfolding page_range has_page expected_pages missing_record
  finish_volume run_id volume volume_number fallback chunks m =
      let expected = expected_pages volume chunks in
      let ordered = sort_by chunk_order chunks in
      let missing = keep (λ n. not (has_page n m.recovered)) (page_range 1 expected) in
      record {
        volume_id = volume_id_of volume fallback;
        pages =
            m.recovered
            ++ map
                (missing_record (volume_id_of volume fallback) volume_number run_id
                  (source_sha volume ordered))
                missing;
        expected = expected;
        missing = missing;
        duplicates = m.duplicates;
        out_of_order = m.out_of_order;
        chunk_ids = map (λ c. c.chunk_id) ordered;
      }

  -- `_merge_volume`, up to the writing of the pages. `fallback` is `volume_id_for(volume_number)`.
  unfoldable pub merge_volume :
      (ExtractionChunk → Attempt (List (RawPageRecord B)))
      → Text
      → Option VolumeRecord
      → ℕ
      → Text
      → List ExtractionChunk
      → Attempt (MergedVolume B)
  unfolding chunk_loop finish_volume
  merge_volume pages_of run_id volume volume_number fallback chunks =
      and_then
        (chunk_loop pages_of (sort_by chunk_order chunks)
          (record { recovered = []; duplicates = []; out_of_order = []; previous_end = 0 }))
        (λ m. done (finish_volume run_id volume volume_number fallback chunks m))

  unfoldable pub manual_required_pages : MergedVolume B → List ℕ
  manual_required_pages v =
      sort_by compare_nat (map (λ p. p.pdf_page) (keep (λ p. p.manual_required) v.pages))

  unfoldable pub recovered_pages : MergedVolume B → ℕ
  recovered_pages v = length (keep (λ p. not p.missing) v.pages)
