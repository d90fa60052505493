-- ===== src/Ingestion/Runs/Protocol.antt =====
-- The life of a chunk in packages/marx_engels/ingestion/pipeline.py: the edges between its
-- statuses, and that the task of a chunk follows them.
use marx_engels_insight_matc.Base.{
  Text, codes, Bool, true, false, not, ◌&&◌, ◌||◌, ◌≡◌, ◌⊎◌, inl, inr, refl, List, [], ◌∷◌, Option,
  none, some, if◌then◌else◌, arith,
}
use marx_engels_insight_matc.Ingestion.Mapping.{is_valid}
use marx_engels_insight_matc.Ingestion.Runs.Statuses.{
  ChunkStatus, planned, materialized, uploading, polling, downloading, completed, failed, skipped,
  is_completed, is_failed, is_skipped, is_polling,
}
use marx_engels_insight_matc.Ingestion.Runs.{ExtractionChunk, ChunkUpdate}
use marx_engels_insight_matc.Ingestion.Runs.Tasks.{
  Fault, provider_error, authentication, quota_exceeded, poll_timeout, extraction_cancelled,
  unexpected, Reply, answered, raised, Replies, Task, handle, on_reply, is_blank, or_text,
  mapping_of, then_do, store_result, download, poll, submit, process_chunk,
}

-- A chunk that a run takes up: it is neither completed nor skipped.
abbrev pub is_pending : ChunkStatus → Bool
is_pending s = not (is_completed s || is_skipped s)

-- A chunk that the provider works on.
pub data InProgress : ChunkStatus → Type 0 where
  while_uploading : InProgress uploading
  while_polling : InProgress polling
  while_downloading : InProgress downloading

infix 40 ◌⟶◌
pub data ◌⟶◌ : ChunkStatus → ChunkStatus → Type 0 where
  skip : {s : ChunkStatus} → is_pending s ≡ true → is_polling s ≡ false → s ⟶ skipped
  retry : failed ⟶ materialized
  upload : {s : ChunkStatus} → is_pending s ≡ true → is_failed s ≡ false → s ⟶ uploading
  resume : {s : ChunkStatus} → is_pending s ≡ true → is_failed s ≡ false → s ⟶ polling
  receive : polling ⟶ downloading
  store : downloading ⟶ completed
  give_up : {s : ChunkStatus} → InProgress s → s ⟶ failed

-- Each update follows an edge from the status before it.
abbrev pub Follows : ChunkStatus → List ChunkUpdate → Type 0
Follows s [] = Unit
Follows s (u ∷ us) = (s ⟶ u.status) × Follows u.status us

-- The status that the updates leave, and the error that the last one records.
abbrev pub last_status : ChunkStatus → List ChunkUpdate → ChunkStatus
last_status s [] = s
last_status s (u ∷ us) = last_status u.status us

abbrev pub last_error : Option (Option Text) → List ChunkUpdate → Option (Option Text)
last_error e [] = e
last_error e (u ∷ us) = last_error u.error us

-- A task that returns leaves its chunk completed or skipped. One that ends with another error of
-- the provider leaves it failed, with the text of the error. One that is stopped leaves it
-- pending.
abbrev pub EndsAs : Option Fault → ChunkStatus → Option (Option Text) → Type 0
EndsAs none s e = (s ≡ completed) ⊎ (s ≡ skipped)
EndsAs (some (provider_error text)) s e = (s ≡ failed) × (e ≡ some (some text))
EndsAs (some _) s e = is_pending s ≡ true

abbrev pub Remembers : Option Text → Option Text → ChunkStatus → Type 0
Remembers none fingerprint s = Unit
Remembers (some f) fingerprint s = (fingerprint ≡ some f) × (s ≡ completed)

-- How a task goes on from status `s`, when the last update recorded the error `e`.
abbrev pub RunsFrom : ExtractionChunk → ChunkStatus → Option (Option Text) → Task → Type 0
RunsFrom c s e t =
    Follows s t.updates
    × EndsAs t.fault (last_status s t.updates) (last_error e t.updates)
    × Remembers t.remembered c.fingerprint (last_status s t.updates)

InProgress-pending : {s : ChunkStatus} → InProgress s → is_pending s ≡ true
InProgress-pending while_uploading = refl
InProgress-pending while_polling = refl
InProgress-pending while_downloading = refl

retry_edge : (s : ChunkStatus) → is_failed s ≡ true → s ⟶ materialized
retry_edge failed h = retry
retry_edge planned h = cc
retry_edge materialized h = cc
retry_edge uploading h = cc
retry_edge polling h = cc
retry_edge downloading h = cc
retry_edge completed h = cc
retry_edge skipped h = cc

module _ (c : ExtractionChunk) where
  handle-RunsFrom :
      (s : ChunkStatus) (e : Option (Option Text)) (f : Fault)
      → InProgress s
      → RunsFrom c s e (handle f)
  unfolding handle
  handle-RunsFrom s e (provider_error text) p = ((give_up p, tt), (refl, refl), tt)
  handle-RunsFrom s e authentication p = (tt, InProgress-pending p, tt)
  handle-RunsFrom s e quota_exceeded p = (tt, InProgress-pending p, tt)
  handle-RunsFrom s e poll_timeout p = (tt, InProgress-pending p, tt)
  handle-RunsFrom s e extraction_cancelled p = (tt, InProgress-pending p, tt)
  handle-RunsFrom s e unexpected p = (tt, InProgress-pending p, tt)

  -- The answer of the provider, or its fault.
  on_reply-RunsFrom :
      {A : Type 0} (s : ChunkStatus) (e : Option (Option Text)) (reply : Reply A) (next : A → Task)
      → InProgress s
      → ((a : A) → RunsFrom c s e (next a))
      → RunsFrom c s e (on_reply reply next)
  on_reply-RunsFrom s e (answered a) next p h = h a
  on_reply-RunsFrom s e (raised f) next p h = handle-RunsFrom s e f p

  if-RunsFrom :
      (s : ChunkStatus) (e : Option (Option Text)) (b : Bool) (x y : Task)
      → (b ≡ true → RunsFrom c s e x)
      → (b ≡ false → RunsFrom c s e y)
      → RunsFrom c s e (if b then x else y)
  if-RunsFrom s e true x y h k = h refl
  if-RunsFrom s e false x y h k = k refl

  module _ (r : Replies) where
    store_result-RunsFrom : (e : Option (Option Text)) → RunsFrom c downloading e (store_result c r)
    unfolding store_result
    store_result-RunsFrom e =
        if-RunsFrom downloading e (is_valid (mapping_of c)) _ _
          (λ y. ((store, tt), inl refl, remembers c.fingerprint))
          (λ n. handle-RunsFrom downloading e unexpected while_downloading)
      where
        remembers : (f : Option Text) → Remembers (if is_blank f then none else f) f completed
        remembers none = tt
        remembers (some text) = ground arith

    download-RunsFrom :
        (e : Option (Option Text)) (url : Option Text) → RunsFrom c polling e (download c r url)
    unfolding download
    download-RunsFrom e url = let (f, g, m) = rest in ((receive, f), g, m)
      where
        rest : RunsFrom c downloading none (
            if is_blank url
            then handle (provider_error (codes "missing full_zip_url"))
            else on_reply
                (r.download_archive (or_text url []))
                (λ t. on_reply r.extract_and_register (λ u. store_result c r)))
        rest =
            if-RunsFrom downloading none (is_blank url) _ _
              (λ y.
                handle-RunsFrom downloading none (provider_error (codes "missing full_zip_url"))
                  while_downloading)
              (λ n.
                on_reply-RunsFrom downloading none (r.download_archive (or_text url [])) _
                  while_downloading
                  (λ t.
                    on_reply-RunsFrom downloading none r.extract_and_register _ while_downloading
                      (λ u. store_result-RunsFrom none)))

    poll-RunsFrom :
        (e : Option (Option Text)) (batch : Option Text) → RunsFrom c polling e (poll c r batch)
    unfolding poll
    poll-RunsFrom e batch =
        on_reply-RunsFrom polling e (r.poll_batch (or_text batch [])) (download c r) while_polling
          (download-RunsFrom e)

    submit-RunsFrom :
        (s : ChunkStatus) (e : Option (Option Text)) (batch : Option Text)
        → is_pending s ≡ true
        → is_failed s ≡ false
        → RunsFrom c s e (submit c r batch)
    unfolding submit
    submit-RunsFrom s e batch p q =
        if-RunsFrom s e (is_blank batch) _ _
          (λ y. let (f, g, m) = uploaded in ((upload p q, f), g, m))
          (λ n. let (f, g, m) = poll-RunsFrom none batch in ((resume p q, f), g, m))
      where
        uploaded : RunsFrom c uploading none (
            on_reply r.submit_file (λ b.
              then_do
                (record { status = ChunkStatus.polling; batch_id = some (some b); error = none })
                (poll c r (some b))))
        uploaded =
            on_reply-RunsFrom uploading none r.submit_file _ while_uploading
              (λ b. let (f, g, m) = poll-RunsFrom none (some b) in ((resume refl refl, f), g, m))

    -- The task of a pending chunk updates it along the edges of the diagram. If it returns, the
    -- chunk is completed or skipped at the end; if it ends with an error of the provider that does
    -- not stop the run, the chunk is failed and the error is recorded; with any other exception
    -- the chunk is still pending. A fingerprint is remembered only for a completed chunk.
    pub process_chunk-RunsFrom :
        is_pending c.status ≡ true → RunsFrom c c.status none (process_chunk c r)
    unfolding process_chunk
    process_chunk-RunsFrom p =
        if-RunsFrom c.status none r.cancelled _ _ (λ y. (tt, p, tt))
          (λ n.
            if-RunsFrom c.status none r.late _ _ (λ y. (tt, p, tt))
              (λ n'.
                if-RunsFrom c.status none
                  (not (is_blank c.fingerprint)
                    && r.fingerprint_completed (or_text c.fingerprint [])
                    && not (is_polling c.status))
                  _ _ (λ y. ((skip p (ground arith), tt), inr refl, tt))
                  (λ n''.
                    if-RunsFrom c.status none (is_failed c.status) _ _
                      (λ y.
                        let (f, g, m) = submit-RunsFrom materialized (some none) none refl refl in
                        ((retry_edge c.status y, f), g, m))
                      (λ q. submit-RunsFrom c.status none c.batch_id p q))))
