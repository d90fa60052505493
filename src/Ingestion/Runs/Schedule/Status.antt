-- ===== src/Ingestion/Runs/Schedule/Status.antt =====
-- The status of a run of packages/marx_engels/ingestion/pipeline.py while its tasks take turns.
use mathlib.Core.Path.{subst}
use marx_engels_insight_matc.Base.{
  Text, Bool, true, false, all, List, [], ◌∷◌, ◌++◌, ◌≡◌, ◌⊎◌, inl, inr, refl, sym, ap, ◌∙◌, ◌&&◌,
  All, All-weaken, In, map, Bool-cases, arith,
}
use marx_engels_insight_matc.Base.Strings.{text_eq, text_eq_iff}
use marx_engels_insight_matc.Base.Unique.{contains, Distinct}
use marx_engels_insight_matc.Ingestion.Runs.Statuses.{ChunkStatus, RunStatus, is_completed}
use marx_engels_insight_matc.Ingestion.Runs.{
  ExtractionChunk, ExtractionRun, ChunkUpdate, apply_update, updated_chunk, updated_chunks,
  settled_status,
}
use marx_engels_insight_matc.Ingestion.Runs.Protocol.{
  while_uploading, while_polling, while_downloading, ◌⟶◌, skip, retry, upload, resume, receive,
  store, give_up, Follows,
}
use marx_engels_insight_matc.Ingestion.Runs.Schedule.{
  ChunkTask, World, forgotten, Step, update, remember, forget, Reach, here, next,
}
use marx_engels_insight_matc.Ingestion.Runs.Schedule.Order.{
  task_ids, task, contains-middle, mark_chunk_lem, Reach-Keeps,
}

-- No edge leaves a completed chunk.
⟶-not_completed : {s t : ChunkStatus} → s ⟶ t → is_completed s ≡ false
⟶-not_completed (skip p q) = ground arith
⟶-not_completed retry = refl
⟶-not_completed (upload p q) = ground arith
⟶-not_completed (resume p q) = ground arith
⟶-not_completed receive = refl
⟶-not_completed store = refl
⟶-not_completed (give_up while_uploading) = refl
⟶-not_completed (give_up while_polling) = refl
⟶-not_completed (give_up while_downloading) = refl

-- The chunk of the task is in the list, and what the task has still to do follows its status.
abbrev pub Tracked : List ExtractionChunk → ChunkTask → Type 0
Tracked cs t =
    (c : ExtractionChunk) × In c cs × (c.chunk_id ≡ t.chunk_id) × Follows c.status t.updates

In-map :
    (f : ExtractionChunk → ExtractionChunk) (c : ExtractionChunk) (cs : List ExtractionChunk)
    → In c cs
    → In (f c) (map f cs)
In-map f c [] h = absurd h
In-map f c (d ∷ ds) (inl e) = inl (ap f e)
In-map f c (d ∷ ds) (inr h) = inr (In-map f c ds h)

module _ (id : Text) (u : ChunkUpdate) (cs : List ExtractionChunk) where
  -- The other chunks are as they were.
  Tracked-others :
      (t : ChunkTask)
      → text_eq t.chunk_id id ≡ false
      → Tracked cs t
      → Tracked (updated_chunks id u cs) t
  unfolding updated_chunks updated_chunk
  Tracked-others t h (c, i, e, f) =
      let same : updated_chunk id u c ≡ c =
        ground (arith, text_eq_iff c.chunk_id id, text_eq_iff t.chunk_id id) in
      (
        c,
        subst (λ x. In x (updated_chunks id u cs)) same (In-map (updated_chunk id u) c cs i),
        e,
        f,
      )

  Tracked-own :
      (us : List ChunkUpdate)
      → Tracked cs (task id (u ∷ us))
      → Tracked (updated_chunks id u cs) (task id us)
  unfolding updated_chunks updated_chunk apply_update
  Tracked-own us (c, i, e, (edge, f)) =
      let new : updated_chunk id u c ≡ apply_update u c =
        ground (arith, text_eq_iff c.chunk_id id) in
      (
        apply_update u c,
        subst (λ x. In x (updated_chunks id u cs)) new (In-map (updated_chunk id u) c cs i),
        e,
        f,
      )

-- What holds of a task that moves on, and of the tasks of other chunks, holds of all.
All-middle :
    {P Q : ChunkTask → Type 0} (id : Text) (us vs : List ChunkUpdate)
    → ((t : ChunkTask) → text_eq t.chunk_id id ≡ false → P t → Q t)
    → (P (task id us) → Q (task id vs))
    → (before after : List ChunkTask) → Distinct (task_ids (before ++ task id us ∷ after))
    → All P (before ++ task id us ∷ after)
    → All Q (before ++ task id vs ∷ after)
unfolding contains
All-middle {P} {Q} id us vs other own [] after d (p, ps) = (own p, rest after d.0 ps)
  where
    rest : (ts : List ChunkTask) → contains id (task_ids ts) ≡ false → All P ts → All Q ts
    rest [] h p = tt
    rest (t ∷ ts) h (p, ps) = (
      other t (ground (arith, text_eq_iff t.chunk_id id, text_eq_iff id t.chunk_id)) p,
      rest ts (ground arith) ps,
    )
All-middle id us vs other own (t ∷ ts) after d (p, ps) = (
  other t (ground (arith, d.0, contains-middle t.chunk_id ts after id us)) p,
  All-middle id us vs other own ts after d.1 ps,
)

abbrev pub all_completed : List ExtractionChunk → Bool
all_completed cs = all (λ (c : ExtractionChunk). is_completed c.status) cs

abbrev pub is_completed_run : RunStatus → Bool
is_completed_run RunStatus.completed = true
is_completed_run _ = false

-- A run is completed only when its chunks are, and every task is in step with its chunk.
pub record IsSound (w : World) : Type 0 where
  pub settled : is_completed_run w.run.status ≡ true → all_completed w.run.chunks ≡ true
  pub tracked : All (Tracked w.run.chunks) w.tasks

forgotten_same :
    (id : Text) (c : ExtractionChunk)
    → ((forgotten id c).status ≡ c.status) × ((forgotten id c).chunk_id ≡ c.chunk_id)
forgotten_same id c = ground arith

all_completed-forgotten :
    (id : Text) (cs : List ExtractionChunk)
    → all_completed (map (forgotten id) cs) ≡ all_completed cs
all_completed-forgotten id [] = refl
all_completed-forgotten id (c ∷ cs) =
    λ i. is_completed ((forgotten_same id c).0 i) && all_completed-forgotten id cs i

Tracked-forgotten :
    (id : Text) (cs : List ExtractionChunk) (t : ChunkTask)
    → Tracked cs t
    → Tracked (map (forgotten id) cs) t
Tracked-forgotten id cs t (c, m, e, f) =
    let (status, name) = forgotten_same id c in
    (
      forgotten id c,
      In-map (forgotten id) c cs m,
      name ∙ e,
      subst (λ s. Follows s t.updates) (sym status) f,
    )

all_completed-In :
    (cs : List ExtractionChunk) (c : ExtractionChunk)
    → all_completed cs ≡ true
    → In c cs
    → is_completed c.status ≡ true
all_completed-In [] c h i = absurd i
all_completed-In (d ∷ ds) c h (inl e) =
    subst (λ (x : ExtractionChunk). is_completed x.status ≡ true) (sym e) (ground arith)
all_completed-In (d ∷ ds) c h (inr i) = all_completed-In ds c (ground arith) i

-- A run with a task to go on with is not completed.
not_completed_of_task :
    (cs : List ExtractionChunk) (id : Text) (u : ChunkUpdate) (us : List ChunkUpdate)
    → Tracked cs (task id (u ∷ us))
    → all_completed cs ≡ false
not_completed_of_task cs id u us (c, i, e, (edge, f)) = elim (Bool-cases (all_completed cs)) [
  | inr n ↦ n
  | inl y ↦
      let done_chunk = all_completed-In cs c y i in let open_chunk = ⟶-not_completed edge in cc
]

middle :
    (P : ChunkTask → Type 0) (before after : List ChunkTask) (t : ChunkTask)
    → All P (before ++ t ∷ after)
    → P t
middle P [] after t (p, ps) = p
middle P (x ∷ xs) after t (p, ps) = middle P xs after t ps

settled_status-completed :
    (cs : List ExtractionChunk) (old : RunStatus)
    → is_completed_run (settled_status cs old) ≡ true
    → (all_completed cs ≡ true) ⊎ (is_completed_run old ≡ true)
unfolding settled_status
settled_status-completed cs old h = ground arith

Step-IsSound : (w v : World) → Step w v → Distinct (task_ids w.tasks) → IsSound w → IsSound v
Step-IsSound w v (update now before after id u us e m s f) d h =
    let (cs, i, status, found) = mark_chunk_lem now w.run id u v.run m in
    let tracked = subst (λ ts. All (Tracked w.run.chunks) ts) e h.tracked in
    let ongoing : Tracked w.run.chunks (task id (u ∷ us)) =
      middle (Tracked w.run.chunks) before after (task id (u ∷ us)) tracked in
    record {
      settled = λ y.
          elim (settled_status-completed v.run.chunks w.run.status
            (subst (λ (x : RunStatus). is_completed_run x ≡ true) status y)) [
              | inl now_settled ↦ now_settled
              | inr before_settled ↦
                  let was = h.settled before_settled in
                  let is_not = not_completed_of_task w.run.chunks id u us ongoing in cc
            ];
      tracked =
          subst (λ ts. All (Tracked v.run.chunks) ts) (sym f)
            (subst (λ (xs : List ExtractionChunk). All (Tracked xs) (before ++ task id us ∷ after))
              (sym cs)
              (All-middle {Q = Tracked (updated_chunks id u w.run.chunks)} id (u ∷ us) us
                (Tracked-others id u w.run.chunks) (Tracked-own id u w.run.chunks us) before after
                (subst (λ ts. Distinct (task_ids ts)) e d) tracked));
    }
Step-IsSound w v (remember f id r s t) d h = record {
  settled =
      subst
        (λ (x : ExtractionRun). is_completed_run x.status ≡ true → all_completed x.chunks ≡ true)
        (sym r) h.settled;
  tracked =
      subst (λ ts. All (Tracked v.run.chunks) ts) (sym t)
        (subst (λ (x : ExtractionRun). All (Tracked x.chunks) w.tasks) (sym r) h.tracked);
}
Step-IsSound w v (forget before after id us e r s t) d h =
    let cs : List ExtractionChunk = map (forgotten id) w.run.chunks in
    let new : ExtractionRun = record w.run { chunks = cs } in
    record {
      settled =
          subst
            (λ (x : ExtractionRun).
              is_completed_run x.status ≡ true → all_completed x.chunks ≡ true)
            (sym r) (λ y. all_completed-forgotten id w.run.chunks ∙ h.settled y);
      tracked =
          subst (λ ts. All (Tracked v.run.chunks) ts) (sym t)
            (subst (λ (x : ExtractionRun). All (Tracked x.chunks) w.tasks) (sym r)
              (All-weaken (Tracked w.run.chunks) (Tracked cs) w.tasks
                (Tracked-forgotten id w.run.chunks) h.tracked));
    }

-- What holds when the tasks start holds at every moment.
pub Reach-IsSound : (w v : World) → Distinct (task_ids w.tasks) → IsSound w → Reach w v → IsSound v
Reach-IsSound w v d h here = h
Reach-IsSound w v d h (next {v = x} r s) =
    let keeps = Reach-Keeps w x d r in
    Step-IsSound x v s (subst (λ is. Distinct is) (sym keeps.1) d) (Reach-IsSound w x d h r)
