-- ===== src/Ingestion/Runs/Schedule/Order.antt =====
-- Whatever the order in which the threads of packages/marx_engels/ingestion/pipeline.py take
-- turns, the chunks of the run end the same.
use mathlib.Core.Path.{subst}
use marx_engels_insight_matc.Base.{
  Text, ℕ, true, false, none, List, [], ◌∷◌, ◌++◌, ◌≡◌, refl, sym, ap, ◌∙◌, inl, inr, map, any,
  Bool-cases, if◌then◌else◌, arith,
}
use marx_engels_insight_matc.Base.Strings.{text_eq, text_eq_iff}
use marx_engels_insight_matc.Base.Unique.{contains, Distinct}
use marx_engels_insight_matc.Ingestion.Failures.{done}
use marx_engels_insight_matc.Ingestion.Runs.{
  ExtractionChunk, ExtractionRun, ChunkUpdate, apply_update, updated_chunk, settled_status,
  updated_chunks, mark_chunk,
}
use marx_engels_insight_matc.Ingestion.Runs.Schedule.{
  ChunkTask, World, retrying, forgotten, Step, update, remember, forget, Reach, here, next,
  apply_updates, finish,
}

abbrev pub task_ids : List ChunkTask → List Text
task_ids ts = map (λ t. t.chunk_id) ts

pub apply_updates-chunk_id :
    (us : List ChunkUpdate) (c : ExtractionChunk) → (apply_updates us c).chunk_id ≡ c.chunk_id
unfolding apply_update
apply_updates-chunk_id [] c = refl
apply_updates-chunk_id (u ∷ us) c = apply_updates-chunk_id us (apply_update u c)

-- A chunk that no task has is left alone.
pub finish_absent :
    (ts : List ChunkTask) (c : ExtractionChunk)
    → contains c.chunk_id (task_ids ts) ≡ false
    → finish ts c ≡ c
unfolding contains
finish_absent [] c h = refl
finish_absent (t ∷ ts) c h = ground (arith, finish_absent ts c)

finish-append :
    (ts us : List ChunkTask) (c : ExtractionChunk) → finish (ts ++ us) c ≡ finish us (finish ts c)
finish-append [] us c = refl
finish-append (t ∷ ts) us c = finish-append ts us _

finish-chunk_id : (ts : List ChunkTask) (c : ExtractionChunk) → (finish ts c).chunk_id ≡ c.chunk_id
finish-chunk_id [] c = refl
finish-chunk_id (t ∷ ts) c = ground (
  arith,
  finish-chunk_id ts c,
  finish-chunk_id ts (apply_updates t.updates c),
  apply_updates-chunk_id t.updates c,
)

abbrev pub task : Text → List ChunkUpdate → ChunkTask
task id us = record { chunk_id = id; updates = us }

-- The tasks before, the task, and the tasks after it.
finish_at :
    (before after : List ChunkTask) (id : Text) (us : List ChunkUpdate) (c : ExtractionChunk)
    → finish (before ++ task id us ∷ after) c
      ≡ finish after
          (if text_eq c.chunk_id id then apply_updates us (finish before c) else finish before c)
finish_at before after id us c =
    finish-append before (task id us ∷ after) c
    ∙ ap
        (λ (i : Text).
          finish after
            (if text_eq i id then apply_updates us (finish before c) else finish before c))
        (finish-chunk_id before c)

-- An update made now, or by the task at the end, comes to the same.
finish_updated :
    (before after : List ChunkTask) (id : Text) (u : ChunkUpdate) (us : List ChunkUpdate)
    (c : ExtractionChunk)
    → contains id (task_ids before) ≡ false
    → finish (before ++ task id us ∷ after) (updated_chunk id u c)
      ≡ finish (before ++ task id (u ∷ us) ∷ after) c
unfolding updated_chunk
finish_updated before after id u us c h = elim (Bool-cases (text_eq c.chunk_id id)) [
  | inr differs ↦
      let same_chunk : updated_chunk id u c ≡ c = ground arith in
      rw same_chunk (
        finish_at before after id us c
        ∙ (ap (finish after) (ground arith) ∙ sym (finish_at before after id (u ∷ us) c)))
  | inl same ↦
      let e : c.chunk_id ≡ id = (text_eq_iff c.chunk_id id).0 same in
      let new : updated_chunk id u c ≡ apply_update u c = ground arith in
      let absent : finish before (apply_update u c) ≡ apply_update u c =
        finish_absent before (apply_update u c) (rw e h) in
      let absent' : finish before c ≡ c = finish_absent before c (rw e h) in
      ap (finish (before ++ task id us ∷ after)) new
      ∙ (finish_at before after id us (apply_update u c)
          ∙ (ap (finish after) (ground (arith, absent, absent'))
              ∙ sym (finish_at before after id (u ∷ us) c)))
]

pub task_ids_same :
    (before after : List ChunkTask) (id : Text) (us vs : List ChunkUpdate)
    → task_ids (before ++ task id us ∷ after) ≡ task_ids (before ++ task id vs ∷ after)
task_ids_same [] after id us vs = refl
task_ids_same (t ∷ ts) after id us vs = ap (◌∷◌ t.chunk_id) (task_ids_same ts after id us vs)

pub contains-middle :
    (i : Text) (before after : List ChunkTask) (id : Text) (us : List ChunkUpdate)
    → text_eq i id ≡ true
    → contains i (task_ids (before ++ task id us ∷ after)) ≡ true
unfolding contains
contains-middle i [] after id us h = ground arith
contains-middle i (t ∷ ts) after id us h = ground (arith, contains-middle i ts after id us h)

-- No task before has the identifier of a task.
pub absent_before :
    (before after : List ChunkTask) (id : Text) (us : List ChunkUpdate)
    → Distinct (task_ids (before ++ task id us ∷ after))
    → contains id (task_ids before) ≡ false
unfolding contains
absent_before [] after id us d = refl
absent_before (t ∷ ts) after id us d = ground (
  arith,
  d.0,
  absent_before ts after id us d.1,
  contains-middle t.chunk_id ts after id us,
  text_eq_iff id t.chunk_id,
  text_eq_iff t.chunk_id id,
)

pub mark_chunk_lem :
    (now : ℕ) (run : ExtractionRun) (id : Text) (u : ChunkUpdate) (r : ExtractionRun)
    → mark_chunk now run id u ≡ done r
    → (r.chunks ≡ updated_chunks id u run.chunks)
      × (r.run_id ≡ run.run_id)
      × (r.status ≡ settled_status r.chunks run.status)
      × (any (λ (c : ExtractionChunk). text_eq c.chunk_id id) run.chunks ≡ true)
unfolding mark_chunk
mark_chunk_lem now run id u r h = ground arith

finish-updated_chunks :
    (before after : List ChunkTask) (id : Text) (u : ChunkUpdate) (us : List ChunkUpdate)
    (cs : List ExtractionChunk)
    → contains id (task_ids before) ≡ false
    → map (finish (before ++ task id us ∷ after)) (updated_chunks id u cs)
      ≡ map (finish (before ++ task id (u ∷ us) ∷ after)) cs
unfolding updated_chunks
finish-updated_chunks before after id u us [] h = refl
finish-updated_chunks before after id u us (c ∷ cs) h = λ i.
    finish_updated before after id u us c h i ∷ finish-updated_chunks before after id u us cs h i

-- A batch that is cleared early, or by the update that follows, comes to the same.
finish-forgotten :
    (before after : List ChunkTask) (id : Text) (us : List ChunkUpdate) (c : ExtractionChunk)
    → contains id (task_ids before) ≡ false
    → finish (before ++ task id (retrying ∷ us) ∷ after) (forgotten id c)
      ≡ finish (before ++ task id (retrying ∷ us) ∷ after) c
unfolding apply_update
finish-forgotten before after id us c h = elim (Bool-cases (text_eq c.chunk_id id)) [
  | inr differs ↦
      let same_chunk : forgotten id c ≡ c = ground arith in
      ap (finish (before ++ task id (retrying ∷ us) ∷ after)) same_chunk
  | inl same ↦
      let e : c.chunk_id ≡ id = (text_eq_iff c.chunk_id id).0 same in
      let d : ExtractionChunk = record c { batch_id = none } in
      let new : forgotten id c ≡ d = ground arith in
      let absent : finish before d ≡ d = finish_absent before d (rw e h) in
      let absent' : finish before c ≡ c = finish_absent before c (rw e h) in
      ap (finish (before ++ task id (retrying ∷ us) ∷ after)) new
      ∙ (finish_at before after id (retrying ∷ us) d
          ∙ (ap (finish after) (rw (same, absent, absent') refl)
              ∙ sym (finish_at before after id (retrying ∷ us) c)))
]

pub map-finish-forgotten :
    (before after : List ChunkTask) (id : Text) (us : List ChunkUpdate) (cs : List ExtractionChunk)
    → contains id (task_ids before) ≡ false
    → map (finish (before ++ task id (retrying ∷ us) ∷ after)) (map (forgotten id) cs)
      ≡ map (finish (before ++ task id (retrying ∷ us) ∷ after)) cs
map-finish-forgotten before after id us [] h = refl
map-finish-forgotten before after id us (c ∷ cs) h =
    λ i. finish-forgotten before after id us c h i ∷ map-finish-forgotten before after id us cs h i

abbrev pub Keeps : World → World → Type 0
Keeps w v =
    (map (finish v.tasks) v.run.chunks ≡ map (finish w.tasks) w.run.chunks)
    × (task_ids v.tasks ≡ task_ids w.tasks)
    × (v.run.run_id ≡ w.run.run_id)

pub Step-Keeps : (w v : World) → Step w v → Distinct (task_ids w.tasks) → Keeps w v
Step-Keeps w v (update now before after id u us e m s f) d =
    let (cs, i, status, found) = mark_chunk_lem now w.run id u v.run m in
    let absent : contains id (task_ids before) ≡ false =
      absent_before before after id (u ∷ us) (subst (λ ts. Distinct (task_ids ts)) e d) in
    (
      (λ k. map (finish (f k)) (cs k))
          ∙ (finish-updated_chunks before after id u us w.run.chunks absent
              ∙ (λ k. map (finish (sym e k)) w.run.chunks)),
      ap task_ids f ∙ (task_ids_same before after id us (u ∷ us) ∙ ap task_ids (sym e)),
      i,
    )
Step-Keeps w v (remember f id r s t) d =
    (λ k. map (finish (t k)) ((r k).chunks), ap task_ids t, ap (λ (x : ExtractionRun). x.run_id) r)
Step-Keeps w v (forget before after id us e r s t) d =
    let absent : contains id (task_ids before) ≡ false =
      absent_before before after id (retrying ∷ us) (subst (λ ts. Distinct (task_ids ts)) e d) in
    (
      (λ k. map (finish ((t ∙ e) k)) ((r k).chunks))
          ∙ (map-finish-forgotten before after id us w.run.chunks absent
              ∙ (λ k. map (finish (sym e k)) w.run.chunks)),
      ap task_ids t,
      ap (λ (x : ExtractionRun). x.run_id) r,
    )

pub Reach-Keeps : (w v : World) → Distinct (task_ids w.tasks) → Reach w v → Keeps w v
Reach-Keeps w v d here = (refl, refl, refl)
Reach-Keeps w v d (next {v = u} r s) =
    let (cs, ids, i) = Reach-Keeps w u d r in
    let (cs', ids', i') = Step-Keeps u v s (subst (λ is. Distinct is) (sym ids) d) in
    (cs' ∙ cs, ids' ∙ ids, i' ∙ i)
