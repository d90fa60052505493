-- ===== src/Tests/Merging.antt =====
-- Runs of the merging of pages.
use marx_engels_insight_matc.Base.{
  ℕ, ◌≡◌, refl, Text, codes, text_eq, false, none, List, [], ◌∷◌, if◌then◌else◌,
}
use marx_engels_insight_matc.Base.Sort.{sort_by}
use marx_engels_insight_matc.Ingestion.Failures.{Attempt, done}
use marx_engels_insight_matc.Ingestion.Runs.{ExtractionChunk, ExtractionRun}
use marx_engels_insight_matc.Ingestion.Runs.Statuses.{ChunkStatus, RunStatus}
use marx_engels_insight_matc.Ingestion.Merging.{
  selected, refused, no_completed_run, select_all_extraction_run,
}
use marx_engels_insight_matc.Ingestion.Merging.Volume.{
  RawPageRecord, missing_record, MergedVolume, expected_pages, merge_volume,
}
use marx_engels_insight_matc.Ingestion.Merging.Volume.Laws.{all_pages, IsMerged, merge_volume_lem}
use marx_engels_insight_matc.Tests.Runs.{chunk, run_of}

-- The numbers of pages stand for their blocks.
abbrev page : ℕ → RawPageRecord ℕ
page n = record (missing_record (codes "v") 1 (codes "r") (codes "s") n) {
  warnings = [];
  manual_required = false;
  missing = false;
}

-- Page 2 is in both chunks, and page 3 in none.
abbrev pages_of : ExtractionChunk → Attempt (List (RawPageRecord ℕ))
pages_of c = done (if text_eq c.chunk_id (codes "a") then page 1 ∷ page 2 ∷ [] else page 2 ∷ [])

abbrev chunks : List ExtractionChunk
chunks =
    chunk (codes "a") ChunkStatus.completed
    ∷ record (chunk (codes "b") ChunkStatus.completed) {
      original_start_page = 2;
      original_end_page = 3;
    }
    ∷ []

merge_volume_lem_example :
    (v : MergedVolume ℕ) × ((merge_volume pages_of (codes "r") none 1 (codes "v") chunks ≡ done v)
      × IsMerged (expected_pages none chunks) (page 1 ∷ page 2 ∷ page 2 ∷ []) v)
unfolding all_pages sort_by missing_record text_eq
merge_volume_lem_example =
    merge_volume_lem pages_of (codes "r") none 1 (codes "v") chunks (page 1 ∷ page 2 ∷ page 2 ∷ [])
      refl

abbrev finished : Text → ℕ → ExtractionRun
finished id at = record (run_of chunks) {
  run_id = id;
  status = RunStatus.completed;
  updated_at = at;
}

-- The latest completed run is taken; a running one is not.
test_select :
    select_all_extraction_run
      ((codes "x", finished (codes "x") 5)
        ∷ (codes "y", finished (codes "y") 9)
        ∷ (codes "z", run_of chunks)
        ∷ [])
      none
    ≡ selected (finished (codes "y") 9)
unfolding select_all_extraction_run sort_by
test_select = refl

test_select_none : select_all_extraction_run [] none ≡ refused no_completed_run
unfolding select_all_extraction_run sort_by
test_select_none = refl
