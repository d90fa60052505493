-- ===== src/Tests/Runs.antt =====
-- Runs of few chunks.
use marx_engels_insight_matc.Base.{
  all, Text, codes, true, false, none, some, List, [], ◌∷◌, map, ◌≡◌, ◌≢◌, refl, text_eq,
}
use marx_engels_insight_matc.Base.Unique.{contains, Distinct}
use marx_engels_insight_matc.Base.Dict.{get, put}
use marx_engels_insight_matc.Ingestion.Failures.{Attempt, done, and_then}
use marx_engels_insight_matc.Ingestion.Runs.Statuses.{ChunkStatus, RunStatus, RunMode}
use marx_engels_insight_matc.Ingestion.Runs.{
  ExtractionChunk, ExtractionRun, PipelineState, ChunkUpdate, default_options, mark_chunk,
  upsert_run,
}
use marx_engels_insight_matc.Ingestion.Runs.Tasks.{
  answered, raised, provider_error, Replies, update_to, process_chunk,
}
use marx_engels_insight_matc.Ingestion.Runs.Protocol.{RunsFrom, process_chunk-RunsFrom}
use marx_engels_insight_matc.Ingestion.Runs.Schedule.{
  World, tasks_of, retrying, update, forget, Reach, here, next, AreDone,
}
use marx_engels_insight_matc.Ingestion.Runs.Schedule.Saved.{IsSaved, IsNearlySaved}
use marx_engels_insight_matc.Ingestion.Runs.Schedule.Deterministic.{
  processed, run_chunks_deterministic,
}
use marx_engels_insight_matc.Ingestion.Runs.Extract.{returned, crashed, wait_for, end_extract}
use marx_engels_insight_matc.Ingestion.Runs.Extract.Laws.{is_settled, is_at_rest, extract_status}

abbrev pub chunk : Text → ChunkStatus → ExtractionChunk
chunk id s = record {
  chunk_id = id;
  volume_number = 1;
  source_sha256 = codes "s";
  chunk_sha256 = none;
  original_start_page = 1;
  original_end_page = 2;
  chunk_page_count = 2;
  offset = 0;
  file_name = codes "a.pdf";
  status = s;
  fingerprint = some (codes "f");
  batch_id = none;
  data_id = none;
  error = none;
}

abbrev pub run_of : List ExtractionChunk → ExtractionRun
run_of cs = record {
  run_id = codes "r";
  mode = RunMode.all;
  status = RunStatus.running;
  created_at = 0;
  updated_at = 0;
  provider = codes "mineru";
  provider_version = codes "1";
  options = default_options false;
  chunks = cs;
}

-- A provider that refuses the file.
abbrev refusing : Replies
refusing = record {
  cancelled = false;
  late = false;
  fingerprint_completed = λ f. false;
  submit_file = raised (provider_error (codes "refused"));
  poll_batch = λ b. answered none;
  download_archive = λ u. answered tt;
  extract_and_register = answered tt;
}

process_chunk-RunsFrom_example :
    let c = chunk (codes "a") ChunkStatus.failed in
    RunsFrom c ChunkStatus.failed none (process_chunk c refusing)
process_chunk-RunsFrom_example =
    process_chunk-RunsFrom (chunk (codes "a") ChunkStatus.failed) refusing refl

-- A fingerprint that is completed already.
abbrev duplicate : Text → Replies
duplicate id = record refusing { fingerprint_completed = λ f. true }

abbrev one_pending : ExtractionRun
one_pending =
    run_of (chunk (codes "a") ChunkStatus.planned ∷ chunk (codes "b") ChunkStatus.completed ∷ [])

abbrev saved : ExtractionRun → PipelineState
saved r = record { active_run_id = some (codes "r"); runs = (codes "r", r) ∷ []; fingerprints = [] }

abbrev skipping : ChunkUpdate
skipping = record {
  status = ChunkStatus.skipped;
  batch_id = none;
  error = some (some (codes "duplicate fingerprint"));
}

abbrev at_start : World
at_start = record {
  run = one_pending;
  state = saved one_pending;
  tasks = record { chunk_id = codes "a"; updates = skipping ∷ [] } ∷ [];
}

abbrev one_skipped : ExtractionRun
one_skipped = record one_pending {
  chunks =
      record (chunk (codes "a") ChunkStatus.skipped) {
        error = some (codes "duplicate fingerprint");
      }
      ∷ chunk (codes "b") ChunkStatus.completed
      ∷ [];
  updated_at = 7;
}

abbrev at_end : World
at_end = record {
  run = one_skipped;
  state = saved one_skipped;
  tasks = record { chunk_id = codes "a"; updates = [] } ∷ [];
}

run_ends : Reach at_start at_end
unfolding mark_chunk upsert_run text_eq put
run_ends = next here (update 7 [] [] (codes "a") skipping [] refl refl refl refl)

tasks_start : at_start.tasks ≡ tasks_of duplicate at_start.run.chunks
unfolding tasks_of process_chunk
tasks_start = refl

names-Distinct : Distinct (codes "a" ∷ codes "b" ∷ [])
unfolding contains text_eq
names-Distinct = (refl, (refl, tt))

start-IsSaved : IsSaved at_start
unfolding get text_eq
start-IsSaved = (refl, refl)

run_chunks_deterministic_example :
    IsNearlySaved at_end
    × (AreDone at_end.tasks
        → IsSaved at_end × (at_end.run.chunks ≡ map (processed duplicate) at_start.run.chunks))
run_chunks_deterministic_example =
    run_chunks_deterministic duplicate at_start at_end tasks_start names-Distinct start-IsSaved
      run_ends

extract_status_example :
    let final = (end_extract (wait_for (none ∷ [])) one_skipped).status in
    (final ≡ RunStatus.completed → all is_settled one_skipped.chunks ≡ true)
    × (wait_for (none ∷ []) ≢ crashed → is_at_rest final ≡ true)
extract_status_example =
    extract_status duplicate at_start at_end (none ∷ []) tasks_start names-Distinct refl run_ends

one_skipped_completes : (end_extract returned one_skipped).status ≡ RunStatus.completed
unfolding end_extract
one_skipped_completes = refl

-- A resumed run with two failed chunks, of which the first is completed and then the second
-- skipped: the run is left failed, although no chunk is.
abbrev stale_run : Attempt ExtractionRun
stale_run =
    and_then
      (mark_chunk 1
        (run_of (chunk (codes "a") ChunkStatus.failed ∷ chunk (codes "b") ChunkStatus.failed ∷ []))
        (codes "a") (update_to ChunkStatus.completed))
      (λ r. and_then (mark_chunk 2 r (codes "b") skipping) (λ s. done (end_extract returned s)))

stale_run_failed :
    (r : ExtractionRun) × (stale_run ≡ done r)
    × (r.status ≡ RunStatus.failed)
    × (all is_settled r.chunks ≡ true)
unfolding mark_chunk end_extract text_eq
stale_run_failed = (_, refl, refl, refl)

-- A failed chunk that is about to be sent again loses its batch in memory, not in the file.
abbrev sent_before : ExtractionRun
sent_before =
    run_of (record (chunk (codes "a") ChunkStatus.failed) { batch_id = some (codes "b") } ∷ [])

abbrev batch_kept : World
batch_kept = record {
  run = sent_before;
  state = saved sent_before;
  tasks = record { chunk_id = codes "a"; updates = retrying ∷ [] } ∷ [];
}

abbrev batch_forgotten : World
batch_forgotten = record batch_kept { run = run_of (chunk (codes "a") ChunkStatus.failed ∷ []) }

test_forget : Reach batch_kept batch_forgotten
unfolding text_eq
test_forget = next here (forget [] [] (codes "a") [] refl refl refl refl)
