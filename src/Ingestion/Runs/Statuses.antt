-- ===== src/Ingestion/Runs/Statuses.antt =====
-- The statuses of packages/marx_engels/ingestion/models.py.
use marx_engels_insight_matc.Base.{Bool, true, false}

pub data ChunkStatus : Type 0 where
  planned materialized uploading polling downloading completed failed skipped : ChunkStatus

pub data RunStatus : Type 0 where
  created running paused completed failed cancelled : RunStatus

pub data RunMode : Type 0 where
  pilot : RunMode
  all : RunMode

abbrev pub is_completed : ChunkStatus → Bool
is_completed ChunkStatus.completed = true
is_completed _ = false

abbrev pub is_failed : ChunkStatus → Bool
is_failed ChunkStatus.failed = true
is_failed _ = false

abbrev pub is_skipped : ChunkStatus → Bool
is_skipped ChunkStatus.skipped = true
is_skipped _ = false

abbrev pub is_polling : ChunkStatus → Bool
is_polling ChunkStatus.polling = true
is_polling _ = false
