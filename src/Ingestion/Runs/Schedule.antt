-- ===== src/Ingestion/Runs/Schedule.antt =====
-- `_run_chunks`, `_update_chunk` and `_remember_fingerprint` of
-- packages/marx_engels/ingestion/pipeline.py: the tasks of the pending chunks run in threads that
-- take turns under one lock.
pub mod Order
pub mod Saved
pub mod Deterministic
pub mod Status
use marx_engels_insight_matc.Base.{
  Text, ℕ, List, [], ◌∷◌, ◌++◌, ◌≡◌, All, none, some, map, if◌then◌else◌,
}
use marx_engels_insight_matc.Base.Strings.{text_eq}
use marx_engels_insight_matc.Base.Dict.{put}
use marx_engels_insight_matc.Ingestion.Failures.{done}
use marx_engels_insight_matc.Ingestion.Runs.Statuses.{ChunkStatus}
use marx_engels_insight_matc.Ingestion.Runs.{
  ExtractionChunk, ExtractionRun, PipelineState, ChunkUpdate, apply_update, mark_chunk, upsert_run,
}
use marx_engels_insight_matc.Ingestion.Runs.Tasks.{Replies, process_chunk}
use marx_engels_insight_matc.Ingestion.Runs.Protocol.{is_pending}

-- The updates that the task of a chunk has still to make.
pub record ChunkTask : Type 0 where
  pub chunk_id : Text
  pub updates : List ChunkUpdate

-- The run in memory, the state file, and the tasks.
pub record World : Type 0 where
  pub run : ExtractionRun
  pub state : PipelineState
  pub tasks : List ChunkTask

-- One task for each pending chunk.
unfoldable pub tasks_of : (Text → Replies) → List ExtractionChunk → List ChunkTask
tasks_of replies [] = []
tasks_of replies (c ∷ cs) =
    let rest = tasks_of replies cs in
    if is_pending c.status
    then record { chunk_id = c.chunk_id; updates = (process_chunk c (replies c.chunk_id)).updates }
      ∷ rest
    else rest

-- The update that sends a failed chunk again.
abbrev pub retrying : ChunkUpdate
retrying = record { status = ChunkStatus.materialized; batch_id = some none; error = some none }

-- `chunk.batch_id = None`, on the chunk that the run in memory holds.
abbrev pub forgotten : Text → ExtractionChunk → ExtractionChunk
forgotten id c = if text_eq c.chunk_id id then record c { batch_id = none } else c

-- A thread that holds the lock makes the next update of its task and saves the run, or remembers
-- a fingerprint. A thread that is about to send a failed chunk again clears, without the lock, the
-- batch of the chunk in memory; the state file is not written.
pub data Step (w v : World) : Type 0 where
  update :
      (now : ℕ) (before after : List ChunkTask) (id : Text) (u : ChunkUpdate)
      (us : List ChunkUpdate)
      → w.tasks ≡ before ++ record { chunk_id = id; updates = u ∷ us } ∷ after
      → mark_chunk now w.run id u ≡ done v.run
      → v.state ≡ upsert_run w.state v.run
      → v.tasks ≡ before ++ record { chunk_id = id; updates = us } ∷ after
      → Step w v
  remember :
      (fingerprint id : Text)
      → v.run ≡ w.run
      → v.state
        ≡ record w.state { fingerprints = put fingerprint (w.run.run_id, id) w.state.fingerprints }
      → v.tasks ≡ w.tasks
      → Step w v
  forget :
      (before after : List ChunkTask) (id : Text) (us : List ChunkUpdate)
      → w.tasks ≡ before ++ record { chunk_id = id; updates = retrying ∷ us } ∷ after
      → v.run ≡ record w.run { chunks = map (forgotten id) w.run.chunks }
      → v.state ≡ w.state
      → v.tasks ≡ w.tasks
      → Step w v

pub data Reach (w : World) : World → Type 0 where
  here : Reach w w
  next : {v u : World} → Reach w v → Step v u → Reach w u

-- What becomes of a chunk when its updates are made one after the other.
abbrev pub apply_updates : List ChunkUpdate → ExtractionChunk → ExtractionChunk
apply_updates [] c = c
apply_updates (u ∷ us) c = apply_updates us (apply_update u c)

-- What becomes of a chunk when the tasks are finished one after the other.
abbrev pub finish : List ChunkTask → ExtractionChunk → ExtractionChunk
finish [] c = c
finish (t ∷ ts) c =
    finish ts (if text_eq c.chunk_id t.chunk_id then apply_updates t.updates c else c)

-- No task has an update to make.
abbrev pub AreDone : List ChunkTask → Type 0
AreDone ts = All (λ t. t.updates ≡ []) ts
