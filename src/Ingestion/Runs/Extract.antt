-- ===== src/Ingestion/Runs/Extract.antt =====
-- `extract` of packages/marx_engels/ingestion/pipeline.py around the tasks: the run that it starts
-- or resumes, and the status in which it leaves it.
pub mod Laws
use marx_engels_insight_matc.Base.{
  Text, ℕ, ltb, any, all, ◌==◌, Bool, true, false, not, ◌&&◌, ◌||◌, List, [], ◌∷◌, Option, none,
  some, if◌then◌else◌,
}
use marx_engels_insight_matc.Base.Dict.{get}
use marx_engels_insight_matc.Ingestion.Runs.Statuses.{
  RunStatus, RunMode, is_completed, is_failed, is_skipped,
}
use marx_engels_insight_matc.Ingestion.Runs.{
  ExtractionChunk, ExtractionRun, ExtractOptions, PipelineState, upsert_run,
}
use marx_engels_insight_matc.Ingestion.Runs.Tasks.{
  Fault, authentication, quota_exceeded, poll_timeout, extraction_cancelled, provider_error,
  unexpected,
}

-- `SPLIT_MAX_PAGES`
abbrev pub split_max_pages : ℕ
split_max_pages = 180

abbrev pub is_all : RunMode → Bool
is_all RunMode.all = true
is_all RunMode.pilot = false

-- `existing.status in {RUNNING, PAUSED, CREATED, FAILED}`
abbrev pub is_resumable : RunStatus → Bool
is_resumable RunStatus.running = true
is_resumable RunStatus.paused = true
is_resumable RunStatus.created = true
is_resumable RunStatus.failed = true
is_resumable RunStatus.completed = false
is_resumable RunStatus.cancelled = false

-- `_prepare_run`: a run of the state, or none, where a new run is made. `left` is a run that was
-- asked for and is not in the state (`PipelineStop`).
pub data Prepared : Type 0 where
  existing : ExtractionRun → Prepared
  fresh : Prepared
  left : Text → Prepared

unfoldable pub active_run : PipelineState → Option ExtractionRun
active_run state = elim state.active_run_id [ none ↦ none | some id ↦ get id state.runs ]

-- The plan is not reused if a chunk has more pages than the provider now accepts.
unfoldable pub reusable : ExtractionRun → Bool
reusable run =
    is_all run.mode
    && is_resumable run.status
    && not (any (λ (c : ExtractionChunk). ltb split_max_pages c.chunk_page_count) run.chunks)

unfoldable pub prepare_run : PipelineState → RunMode → Option Text → Prepared
unfolding active_run reusable
prepare_run state mode (some resume_run_id) = elim (get resume_run_id state.runs) [
  | some run ↦ existing run
  | none ↦ left resume_run_id
]
prepare_run state mode none =
    if is_all mode
    then elim (active_run state) [
      | some run ↦ if reusable run then existing run else fresh
      | none ↦ fresh
    ]
    else fresh

-- `run.status = RunStatus.RUNNING`, saved.
unfoldable pub start_run : ℕ → PipelineState → ExtractionRun → ExtractionRun × PipelineState
start_run now state run =
    let started = record run { status = RunStatus.running; updated_at = now } in
    (started, upsert_run state started)

-- How `_run_chunks` ends: it returns, raises `ExtractionCancelled`, raises `PipelineStop` with an
-- exit code, or passes on an exception that it does not know.
pub data RunEnd : Type 0 where
  returned : RunEnd
  cancelled : RunEnd
  stopped : ℕ → RunEnd
  crashed : RunEnd

-- The tasks in the order in which they end, each with the fault that it raised.
unfoldable pub wait_for : List (Option Fault) → RunEnd
wait_for [] = returned
wait_for (none ∷ rest) = wait_for rest
wait_for (some (provider_error text) ∷ rest) = wait_for rest
wait_for (some extraction_cancelled ∷ rest) = cancelled
wait_for (some authentication ∷ rest) = stopped 2
wait_for (some quota_exceeded ∷ rest) = stopped 3
wait_for (some poll_timeout ∷ rest) = stopped 4
wait_for (some unexpected ∷ rest) = crashed

-- `run.status not in {COMPLETED, FAILED, CANCELLED}`
abbrev pub is_open : RunStatus → Bool
is_open RunStatus.completed = false
is_open RunStatus.failed = false
is_open RunStatus.cancelled = false
is_open _ = true

unfoldable pub final_status : RunStatus → List ExtractionChunk → RunStatus
final_status status cs =
    if is_open status
    then if all (λ (c : ExtractionChunk). is_completed c.status || is_skipped c.status) cs
      then RunStatus.completed
      else if any (λ (c : ExtractionChunk). is_failed c.status) cs
      then RunStatus.failed
      else RunStatus.paused
    else status

-- `_run_chunks` turns the exceptions of the last `except` clause into `PipelineStop`.
unfoldable pub end_status : RunEnd → RunStatus → List ExtractionChunk → RunStatus
unfolding final_status
end_status returned status cs = final_status status cs
end_status cancelled status cs = RunStatus.cancelled
end_status (stopped exit_code) status cs =
    if exit_code == 3 || exit_code == 4 then RunStatus.paused else RunStatus.failed
end_status crashed status cs = status

unfoldable pub end_extract : RunEnd → ExtractionRun → ExtractionRun
unfolding end_status
end_extract e run = record run { status = end_status e run.status run.chunks }
