-- ===== src/Ingestion/Runs/Extract/Laws.antt =====
-- The status in which `extract` of packages/marx_engels/ingestion/pipeline.py leaves a run.
use mathlib.Core.Path.{subst}
use marx_engels_insight_matc.Base.{
  Text, Bool, true, false, all, ◌||◌, List, [], ◌∷◌, ◌≡◌, ◌≢◌, inl, inr, refl, sym, All, All-weaken,
  Option, Bool-cases, arith,
}
use marx_engels_insight_matc.Base.Unique.{Distinct}
use marx_engels_insight_matc.Ingestion.Runs.Statuses.{RunStatus, is_completed, is_skipped}
use marx_engels_insight_matc.Ingestion.Runs.{ExtractionChunk}
use marx_engels_insight_matc.Ingestion.Runs.Tasks.{Fault, Replies}
use marx_engels_insight_matc.Ingestion.Runs.Protocol.{is_pending, process_chunk-RunsFrom}
use marx_engels_insight_matc.Ingestion.Runs.Schedule.{ChunkTask, World, tasks_of, Reach}
use marx_engels_insight_matc.Ingestion.Runs.Schedule.Order.{task_ids}
use marx_engels_insight_matc.Ingestion.Runs.Schedule.Deterministic.{ids_of, Distinct-tasks_of}
use marx_engels_insight_matc.Ingestion.Runs.Schedule.Status.{
  Tracked, IsSound, is_completed_run, all_completed, Reach-IsSound,
}
use marx_engels_insight_matc.Ingestion.Runs.Extract.{
  RunEnd, returned, cancelled, stopped, crashed, wait_for, end_status, end_extract,
}

Tracked-later :
    (c : ExtractionChunk) (cs : List ExtractionChunk) (t : ChunkTask)
    → Tracked cs t
    → Tracked (c ∷ cs) t
Tracked-later c cs t (d, i, e, f) = (d, inr i, e, f)

-- At the start each task is in step with its chunk.
tasks_of-Tracked :
    (replies : Text → Replies) (cs : List ExtractionChunk) → All (Tracked cs) (tasks_of replies cs)
unfolding tasks_of
tasks_of-Tracked replies [] = tt
tasks_of-Tracked replies (c ∷ cs) =
    let rest : All (Tracked (c ∷ cs)) (tasks_of replies cs) =
      All-weaken (Tracked cs) (Tracked (c ∷ cs)) (tasks_of replies cs) (Tracked-later c cs)
        (tasks_of-Tracked replies cs) in
    elim (Bool-cases (is_pending c.status)) [
      | inr closed ↦ rw closed rest
      | inl pending ↦
          rw pending
            ((c, inl refl, refl, (process_chunk-RunsFrom c (replies c.chunk_id) pending).0), rest)
    ]

abbrev pub is_settled : ExtractionChunk → Bool
is_settled c = is_completed c.status || is_skipped c.status

-- Neither `created` nor `running`.
abbrev pub is_at_rest : RunStatus → Bool
is_at_rest RunStatus.created = false
is_at_rest RunStatus.running = false
is_at_rest _ = true

settled_of_completed :
    (cs : List ExtractionChunk) → all_completed cs ≡ true → all is_settled cs ≡ true
settled_of_completed [] h = refl
settled_of_completed (c ∷ cs) h = ground (arith, settled_of_completed cs)

end_status-completed :
    (e : RunEnd) (s : RunStatus) (cs : List ExtractionChunk)
    → (is_completed_run s ≡ true → all_completed cs ≡ true)
    → end_status e s cs ≡ RunStatus.completed
    → all is_settled cs ≡ true
unfolding end_status
end_status-completed e s cs h k = ground (arith, settled_of_completed cs)

end_status_at_rest :
    (e : RunEnd) (s : RunStatus) (cs : List ExtractionChunk)
    → e ≢ crashed
    → is_at_rest (end_status e s cs) ≡ true
unfolding end_status
end_status_at_rest returned s cs h = ground arith
end_status_at_rest cancelled s cs h = refl
end_status_at_rest (stopped code) s cs h = ground arith
end_status_at_rest crashed s cs h = absurd (h refl)

-- Start from a running run whose chunks have distinct identifiers, with a task for each pending
-- chunk, and let the threads take turns in any order, for as long as they do. If `extract` then
-- leaves the run completed, whatever the faults of the tasks that it waits for, every chunk is
-- completed or skipped. Unless an unknown exception passes through, it leaves the run neither
-- created nor running.
pub extract_status :
    (replies : Text → Replies) (w v : World) (faults : List (Option Fault))
    → w.tasks ≡ tasks_of replies w.run.chunks
    → Distinct (ids_of w.run.chunks)
    → w.run.status ≡ RunStatus.running
    → Reach w v
    → let final = (end_extract (wait_for faults) v.run).status in
      (final ≡ RunStatus.completed → all is_settled v.run.chunks ≡ true)
      × (wait_for faults ≢ crashed → is_at_rest final ≡ true)
unfolding end_extract
extract_status replies w v faults t d s r =
    let e = wait_for faults in
    let start : Distinct (task_ids w.tasks) =
      subst (λ ts. Distinct (task_ids ts)) (sym t) (Distinct-tasks_of replies w.run.chunks d) in
    let sound : IsSound w = record {
      settled = λ y. absurd (ground arith);
      tracked =
          subst (λ ts. All (Tracked w.run.chunks) ts) (sym t)
            (tasks_of-Tracked replies w.run.chunks);
    } in
    (
      end_status-completed e v.run.status v.run.chunks (Reach-IsSound w v start sound r).settled,
      end_status_at_rest e v.run.status v.run.chunks,
    )
