-- ===== src/Ingestion/Runs/Schedule/Deterministic.antt =====
-- The chunks of a run of packages/marx_engels/ingestion/pipeline.py at the end of its tasks.
use mathlib.Core.Path.{subst}
use marx_engels_insight_matc.Base.{
  Text, some, true, false, List, [], ◌∷◌, ◌≡◌, refl, sym, ap, ◌∙◌, map, if◌then◌else◌, arith,
}
use marx_engels_insight_matc.Base.Strings.{text_eq, text_eq_iff, text_eq_refl}
use marx_engels_insight_matc.Base.Unique.{contains, Distinct}
use marx_engels_insight_matc.Ingestion.Runs.{ExtractionChunk}
use marx_engels_insight_matc.Ingestion.Runs.Tasks.{Replies, process_chunk}
use marx_engels_insight_matc.Ingestion.Runs.Protocol.{is_pending}
use marx_engels_insight_matc.Ingestion.Runs.Schedule.{
  ChunkTask, World, tasks_of, Reach, apply_updates, finish, AreDone,
}
use marx_engels_insight_matc.Ingestion.Runs.Schedule.Saved.{
  IsSaved, IsNearlySaved, Reach-IsNearlySaved,
}
use marx_engels_insight_matc.Ingestion.Runs.Schedule.Order.{
  task_ids, task, apply_updates-chunk_id, finish_absent, Reach-Keeps,
}

-- Tasks that are done leave every chunk as it is.
finish_done : (ts : List ChunkTask) (c : ExtractionChunk) → AreDone ts → finish ts c ≡ c
finish_done [] c h = refl
finish_done (t ∷ ts) c h =
    (λ i. finish ts (if text_eq c.chunk_id t.chunk_id then apply_updates (h.0 i) c else c))
    ∙ ground (arith, finish_done ts c h.1)

map-finish_done :
    (ts : List ChunkTask) (cs : List ExtractionChunk) → AreDone ts → map (finish ts) cs ≡ cs
map-finish_done ts [] h = refl
map-finish_done ts (c ∷ cs) h = λ i. finish_done ts c h i ∷ map-finish_done ts cs h i

-- When no task has an update to make, nothing but the run as it stands is in the file.
IsSaved-of_AreDone : (w : World) → IsNearlySaved w → AreDone w.tasks → IsSaved w
IsSaved-of_AreDone w h done_all =
    let chunks : h.stored.chunks ≡ w.run.chunks =
      sym (map-finish_done w.tasks h.stored.chunks done_all)
      ∙ (h.same_end ∙ map-finish_done w.tasks w.run.chunks done_all) in
    let whole : h.stored ≡ w.run = (λ i. record h.stored { chunks = chunks i }) ∙ h.same_run in
    (h.found ∙ ap some whole, h.active)

-- What the task of a chunk makes of it, on its own.
abbrev pub processed : (Text → Replies) → ExtractionChunk → ExtractionChunk
processed replies c =
    if is_pending c.status
    then apply_updates (process_chunk c (replies c.chunk_id)).updates c
    else c

abbrev pub ids_of : List ExtractionChunk → List Text
ids_of cs = map (λ c. c.chunk_id) cs

module _ (replies : Text → Replies) where
  contains-tasks_of :
      (i : Text) (cs : List ExtractionChunk)
      → contains i (ids_of cs) ≡ false
      → contains i (task_ids (tasks_of replies cs)) ≡ false
  unfolding contains tasks_of
  contains-tasks_of i [] h = refl
  contains-tasks_of i (c ∷ cs) h = ground (arith, contains-tasks_of i cs)

  pub Distinct-tasks_of :
      (cs : List ExtractionChunk) → Distinct (ids_of cs) → Distinct (task_ids (tasks_of replies cs))
  unfolding tasks_of
  Distinct-tasks_of [] d = tt
  Distinct-tasks_of (c ∷ cs) d =
      elim (is_pending c.status)
        as (λ b. Distinct (
          task_ids (
            if b
            then task c.chunk_id (process_chunk c (replies c.chunk_id)).updates
              ∷ tasks_of replies cs
            else tasks_of replies cs))) [
              | true ↦ (contains-tasks_of c.chunk_id cs d.0, Distinct-tasks_of cs d.1)
              | false ↦ Distinct-tasks_of cs d.1
            ]

  -- The task of the first chunk does not touch the others.
  finish_others :
      (c : ExtractionChunk) (ds cs : List ExtractionChunk)
      → contains c.chunk_id (ids_of cs) ≡ false
      → map (finish (tasks_of replies (c ∷ ds))) cs ≡ map (finish (tasks_of replies ds)) cs
  unfolding tasks_of contains
  finish_others c ds [] h = refl
  finish_others c ds (x ∷ xs) h =
      let differs : text_eq x.chunk_id c.chunk_id ≡ false =
        ground (arith, text_eq_iff x.chunk_id c.chunk_id, text_eq_iff c.chunk_id x.chunk_id) in
      let later : contains c.chunk_id (ids_of xs) ≡ false = ground arith in
      let first : finish (tasks_of replies (c ∷ ds)) x ≡ finish (tasks_of replies ds) x =
        elim (is_pending c.status)
          as (λ b.
            finish
              (if b
                then task c.chunk_id (process_chunk c (replies c.chunk_id)).updates
                  ∷ tasks_of replies ds
                else tasks_of replies ds)
              x
            ≡ finish (tasks_of replies ds) x) [
              | true ↦ ap (finish (tasks_of replies ds)) (ground arith)
              | false ↦ refl
            ] in
      λ i. first i ∷ finish_others c ds xs later i

  finish_first :
      (c : ExtractionChunk) (cs : List ExtractionChunk)
      → contains c.chunk_id (ids_of cs) ≡ false
      → finish (tasks_of replies (c ∷ cs)) c ≡ processed replies c
  unfolding tasks_of
  finish_first c cs h =
      let us = (process_chunk c (replies c.chunk_id)).updates in
      let rest = tasks_of replies cs in
      let absent : contains c.chunk_id (task_ids rest) ≡ false =
        contains-tasks_of c.chunk_id cs h in
      elim (is_pending c.status)
        as (λ b.
          finish (if b then task c.chunk_id us ∷ rest else rest) c
          ≡ (if b then apply_updates us c else c)) [
            | true ↦
                ap (finish rest) (ground (arith, text_eq_refl c.chunk_id))
                ∙ finish_absent rest (apply_updates us c) (rw (apply_updates-chunk_id us c) absent)
            | false ↦ finish_absent rest c absent
          ]

  map-finish-tasks_of :
      (cs : List ExtractionChunk)
      → Distinct (ids_of cs)
      → map (finish (tasks_of replies cs)) cs ≡ map (processed replies) cs
  map-finish-tasks_of [] d = refl
  map-finish-tasks_of (c ∷ cs) d =
      λ i. finish_first c cs d.0 i ∷ (finish_others c cs cs d.0 ∙ map-finish-tasks_of cs d.1) i

-- Start from a run whose chunks have distinct identifiers, saved in the state file, with a task
-- for each pending chunk. Whatever the order in which the threads make their updates and clear
-- batches, the state file holds the run at every moment but for batches of its chunks; and when
-- all tasks are done, the file holds the run as it stands, each chunk is what its own task makes
-- of it alone, and the chunks that were not pending are as they were.
pub run_chunks_deterministic :
    (replies : Text → Replies) (w v : World)
    → w.tasks ≡ tasks_of replies w.run.chunks
    → Distinct (ids_of w.run.chunks)
    → IsSaved w
    → Reach w v
    → IsNearlySaved v
      × (AreDone v.tasks → IsSaved v × (v.run.chunks ≡ map (processed replies) w.run.chunks))
run_chunks_deterministic replies w v t d s r =
    let start : Distinct (task_ids w.tasks) =
      subst (λ ts. Distinct (task_ids ts)) (sym t) (Distinct-tasks_of replies w.run.chunks d) in
    let keeps = Reach-Keeps w v start r in
    let saved = Reach-IsNearlySaved w v start s r in
    (
      saved,
      λ h. (
        IsSaved-of_AreDone v saved h,
        sym (map-finish_done v.tasks v.run.chunks h)
            ∙ (keeps.0
                ∙ ((λ i. map (finish (t i)) w.run.chunks)
                    ∙ map-finish-tasks_of replies w.run.chunks d)),
      ),
    )
