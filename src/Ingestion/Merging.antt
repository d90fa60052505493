-- ===== src/Ingestion/Merging.antt =====
-- packages/marx_engels/ingestion/page_merge.py: the run that is merged, and the pages of a volume
-- out of the pages of its chunks. What a chunk's files hold is a parameter.
pub mod Volume
use Prim.Native.Nat.{Ordering, max}
use marx_engels_insight_matc.Base.{
  ℕ, zero, suc, ◌+◌, ◌-◌, ◌==◌, ltb, Text, codes, any, all, keep, is_empty, length, Bool, true,
  false, not, ◌&&◌, ◌||◌, Option, none, some, List, [], ◌∷◌, ◌++◌, map, if◌then◌else◌,
}
use marx_engels_insight_matc.Base.Compare.{compare_nat, descending}
use marx_engels_insight_matc.Base.Dict.{Dict, get}
use marx_engels_insight_matc.Base.Sort.{sort_by}
use marx_engels_insight_matc.Ingestion.Failures.{Attempt, done, failed, and_then}
use marx_engels_insight_matc.Ingestion.Runs.{ExtractionChunk, ExtractionRun}
use marx_engels_insight_matc.Ingestion.Runs.Statuses.{RunMode, RunStatus, is_completed}

pub data PageMergeError : Type 0 where
  run_not_found : Text → PageMergeError
  run_not_all : Text → PageMergeError
  no_completed_run : PageMergeError

pub data Selection : Type 0 where
  selected : ExtractionRun → Selection
  refused : PageMergeError → Selection

-- `MINERU_MAX_PAGES`
abbrev pub mineru_max_pages : ℕ
mineru_max_pages = 200

abbrev pub is_all : RunMode → Bool
is_all RunMode.all = true
is_all RunMode.pilot = false

abbrev pub is_run_completed : RunStatus → Bool
is_run_completed RunStatus.completed = true
is_run_completed s = false

-- What the loop over the runs does not skip.
unfoldable pub is_eligible : ExtractionRun → Bool
is_eligible run =
    is_all run.mode
    && is_run_completed run.status
    && not (any (λ c. ltb mineru_max_pages c.chunk_page_count) run.chunks)
    && all (λ c. is_completed c.status) run.chunks

abbrev pub latest_first : ExtractionRun → ExtractionRun → Ordering
latest_first a b = descending compare_nat a.updated_at b.updated_at

abbrev first_run : List ExtractionRun → Selection
first_run [] = refused no_completed_run
first_run (run ∷ runs) = selected run

abbrev requested : Text → Option ExtractionRun → Selection
requested run_id none = refused (run_not_found run_id)
requested run_id (some run) = if is_all run.mode then selected run else refused (run_not_all run_id)

-- An empty identifier of a run is none.
unfoldable pub select_all_extraction_run : Dict ExtractionRun → Option Text → Selection
unfolding is_eligible
select_all_extraction_run runs (some (c ∷ s)) = requested (c ∷ s) (get (c ∷ s) runs)
select_all_extraction_run runs (some []) =
    first_run (sort_by latest_first (keep is_eligible (map (λ e. e.1) runs)))
select_all_extraction_run runs none =
    first_run (sort_by latest_first (keep is_eligible (map (λ e. e.1) runs)))
