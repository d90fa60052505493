-- ===== src/Ingestion/Runs/Tasks.antt =====
-- `_process_chunk` of packages/marx_engels/ingestion/pipeline.py: the updates that the task of a
-- chunk makes, one after the other, and how it ends.
use marx_engels_insight_matc.Base.{
  Text, codes, Bool, true, not, ◌&&◌, List, [], ◌∷◌, Option, none, some, is_empty, if◌then◌else◌,
}
use marx_engels_insight_matc.Ingestion.Mapping.{PageRangeMapping, is_valid}
use marx_engels_insight_matc.Ingestion.Runs.Statuses.{ChunkStatus, is_failed, is_polling}
use marx_engels_insight_matc.Ingestion.Runs.{ExtractionChunk, ChunkUpdate}

-- What a call of the provider may raise: `AuthenticationError`, `QuotaExceededError`,
-- `PollTimeoutError`, `ExtractionCancelled`, any other `ProviderError` with its redacted text, and
-- any exception that is none of these, such as `ZipSlipError`.
pub data Fault : Type 0 where
  authentication : Fault
  quota_exceeded : Fault
  poll_timeout : Fault
  extraction_cancelled : Fault
  provider_error : Text → Fault
  unexpected : Fault

pub data Reply {ℓ} (A : Type ℓ) : Type ℓ where
  answered : A → Reply A
  raised : Fault → Reply A

-- What the task of a chunk meets: whether it is cancelled or past the deadline at its start,
-- whether its fingerprint is completed, and the answers of the provider and of the archive: the
-- batch, the address of the result, the download and the extraction.
pub record Replies : Type 0 where
  pub cancelled : Bool
  pub late : Bool
  pub fingerprint_completed : Text → Bool
  pub submit_file : Reply Text
  pub poll_batch : Text → Reply (Option Text)
  pub download_archive : Text → Reply (Unit {0})
  pub extract_and_register : Reply (Unit {0})

-- The task as it ran: its updates in order, the fault that it raised, and the fingerprint that it
-- remembered.
pub record Task : Type 0 where
  pub updates : List ChunkUpdate
  pub fault : Option Fault
  pub remembered : Option Text

abbrev pub update_to : ChunkStatus → ChunkUpdate
update_to s = record { status = s; batch_id = none; error = none }

abbrev pub returns : Task
returns = record { updates = []; fault = none; remembered = none }

-- `self._update_chunk(…)`, then the rest.
abbrev pub then_do : ChunkUpdate → Task → Task
then_do u rest = record rest { updates = u ∷ rest.updates }

-- `not text`
abbrev pub is_blank : Option Text → Bool
is_blank none = true
is_blank (some s) = is_empty s

-- `text or default`
abbrev pub or_text : Option Text → Text → Text
or_text none default = default
or_text (some s) default = if is_empty s then default else s

-- The `except` clauses.
unfoldable pub handle : Fault → Task
handle (provider_error text) =
    then_do (record { status = ChunkStatus.failed; batch_id = none; error = some (some text) })
      (record returns { fault = some (provider_error text) })
handle other_fault = record returns { fault = some other_fault }

abbrev pub on_reply {ℓ} : {A : Type ℓ} → Reply A → (A → Task) → Task
on_reply (answered a) next = next a
on_reply (raised f) next = handle f

abbrev pub mapping_of : ExtractionChunk → PageRangeMapping
mapping_of c = record {
  chunk_id = c.chunk_id;
  volume_number = c.volume_number;
  source_sha256 = c.source_sha256;
  chunk_sha256 = or_text c.chunk_sha256 [];
  original_start_page = c.original_start_page;
  original_end_page = c.original_end_page;
  chunk_page_count = c.chunk_page_count;
  offset = c.offset;
}

module _ (chunk : ExtractionChunk) (replies : Replies) where
  -- From the archive on: the mapping is validated and written, the fingerprint remembered.
  unfoldable pub store_result : Task
  store_result =
      if is_valid (mapping_of chunk)
      then then_do (record { status = ChunkStatus.completed; batch_id = none; error = some none })
          (record returns {
            remembered = if is_blank chunk.fingerprint then none else chunk.fingerprint;
          })
      else handle unexpected

  unfoldable pub download : Option Text → Task
  unfolding store_result handle
  download full_zip_url = then_do (update_to ChunkStatus.downloading) (
      if is_blank full_zip_url
      then handle (provider_error (codes "missing full_zip_url"))
      else on_reply (replies.download_archive (or_text full_zip_url []))
          (λ t. on_reply replies.extract_and_register (λ u. store_result)))

  unfoldable pub poll : Option Text → Task
  unfolding download
  poll batch_id = on_reply (replies.poll_batch (or_text batch_id [])) download

  -- `batch_id` is that of the local chunk, which a failed chunk has lost.
  unfoldable pub submit : Option Text → Task
  unfolding poll
  submit batch_id =
      if is_blank batch_id
      then then_do (update_to ChunkStatus.uploading) (
          on_reply replies.submit_file (λ batch.
            then_do
              (record { status = ChunkStatus.polling; batch_id = some (some batch); error = none })
              (poll (some batch))))
      else then_do (update_to ChunkStatus.polling) (poll batch_id)

  unfoldable pub process_chunk : Task
  unfolding submit
  process_chunk =
      if replies.cancelled
      then handle extraction_cancelled
      else if replies.late
      then handle poll_timeout
      else if not (is_blank chunk.fingerprint)
          && replies.fingerprint_completed (or_text chunk.fingerprint [])
          && not (is_polling chunk.status)
      then then_do
          (record {
            status = ChunkStatus.skipped;
            batch_id = none;
            error = some (some (codes "duplicate fingerprint"));
          })
          returns
      else if is_failed chunk.status
      then then_do
          (record { status = ChunkStatus.materialized; batch_id = some none; error = some none })
          (submit none)
      else submit chunk.batch_id
