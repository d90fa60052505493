-- ===== src/Ingestion/Runs.antt =====
-- packages/marx_engels/ingestion/state.py and the runs of ingestion/models.py: chunks, their
-- statuses, and the run that holds them.
pub mod Statuses
pub mod Tasks
pub mod Protocol
pub mod Schedule
pub mod Extract
use marx_engels_insight_matc.Base.{
  Text, codes, ℕ, any, all, Bool, true, false, not, ◌&&◌, ◌||◌, List, [], ◌∷◌, Option, none, some,
  map, if◌then◌else◌,
}
use marx_engels_insight_matc.Base.Strings.{text_eq}
use marx_engels_insight_matc.Base.Dict.{Dict, get, put}
use marx_engels_insight_matc.Ingestion.Runs.Statuses.{
  ChunkStatus, RunStatus, RunMode, is_completed, is_failed, is_skipped,
}
use marx_engels_insight_matc.Ingestion.Failures.{Attempt, done, failed, key_error}

pub record ExtractOptions : Type 0 where
  pub model_version : Text
  pub language : Text
  pub enable_table : Bool
  pub enable_formula : Bool
  pub is_ocr : Bool

-- `layer` is `TextLayer.RAW` in every chunk that the program makes, and is left out.
pub record ExtractionChunk : Type 0 where
  pub chunk_id : Text
  pub volume_number : ℕ
  pub source_sha256 : Text
  pub chunk_sha256 : Option Text
  pub original_start_page : ℕ
  pub original_end_page : ℕ
  pub chunk_page_count : ℕ
  pub offset : ℕ
  pub file_name : Text
  pub status : ChunkStatus
  pub fingerprint : Option Text
  pub batch_id : Option Text
  pub data_id : Option Text
  pub error : Option Text

-- Times are those of a clock. `notes` has its default in every run, and is left out.
pub record ExtractionRun : Type 0 where
  pub run_id : Text
  pub mode : RunMode
  pub status : RunStatus
  pub created_at : ℕ
  pub updated_at : ℕ
  pub provider : Text
  pub provider_version : Text
  pub options : ExtractOptions
  pub chunks : List ExtractionChunk

-- The state file. Its `volumes` are written by the inventory, and left out.
pub record PipelineState : Type 0 where
  pub active_run_id : Option Text
  pub runs : Dict ExtractionRun
  pub fingerprints : Dict (Text × Text)

-- `DEFAULT_MODEL_VERSION` and `DEFAULT_LANGUAGE`
unfoldable pub default_options : Bool → ExtractOptions
default_options is_ocr = record {
  model_version = codes "vlm";
  language = codes "ch";
  enable_table = true;
  enable_formula = true;
  is_ocr = is_ocr;
}

-- The keyword arguments of `mark_chunk`: the fields that a caller sets.
pub record ChunkUpdate : Type 0 where
  pub status : ChunkStatus
  pub batch_id : Option (Option Text)
  pub error : Option (Option Text)

abbrev pub given {ℓ} : {A : Type ℓ} → Option A → A → A
given none old = old
given (some new) old = new

unfoldable pub apply_update : ChunkUpdate → ExtractionChunk → ExtractionChunk
apply_update u c = record c {
  status = u.status;
  batch_id = given u.batch_id c.batch_id;
  error = given u.error c.error;
}

unfoldable pub chunk_by_id : List ExtractionChunk → Text → Attempt ExtractionChunk
chunk_by_id [] chunk_id = failed (key_error chunk_id)
chunk_by_id (c ∷ cs) chunk_id =
    if text_eq c.chunk_id chunk_id then done c else chunk_by_id cs chunk_id

-- The loop over the chunks.
unfoldable pub updated_chunk : Text → ChunkUpdate → ExtractionChunk → ExtractionChunk
unfolding apply_update
updated_chunk chunk_id u c = if text_eq c.chunk_id chunk_id then apply_update u c else c

unfoldable pub updated_chunks : Text → ChunkUpdate → List ExtractionChunk → List ExtractionChunk
unfolding updated_chunk
updated_chunks chunk_id u cs = map (updated_chunk chunk_id u) cs

-- The status of a run whose chunks are these.
unfoldable pub settled_status : List ExtractionChunk → RunStatus → RunStatus
settled_status cs old =
    if all (λ (c : ExtractionChunk). is_completed c.status) cs
    then RunStatus.completed
    else if any (λ (c : ExtractionChunk). is_failed c.status) cs
        && all
            (λ (c : ExtractionChunk).
              is_completed c.status || is_failed c.status || is_skipped c.status)
            cs
    then RunStatus.failed
    else old

unfoldable pub mark_chunk : ℕ → ExtractionRun → Text → ChunkUpdate → Attempt ExtractionRun
unfolding updated_chunks settled_status
mark_chunk now run chunk_id u =
    let cs = updated_chunks chunk_id u run.chunks in
    if any (λ (c : ExtractionChunk). text_eq c.chunk_id chunk_id) run.chunks
    then done (record run { chunks = cs; updated_at = now; status = settled_status cs run.status })
    else failed (key_error chunk_id)

unfoldable pub upsert_run : PipelineState → ExtractionRun → PipelineState
upsert_run state run = record state {
  runs = put run.run_id run state.runs;
  active_run_id = some run.run_id;
}
