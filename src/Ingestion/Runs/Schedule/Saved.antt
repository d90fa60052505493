-- ===== src/Ingestion/Runs/Schedule/Saved.antt =====
-- What the state file of packages/marx_engels/ingestion/pipeline.py holds of the run while its
-- threads take turns.
use mathlib.Core.Path.{subst}
use marx_engels_insight_matc.Base.{
  Text, Bool, true, false, none, List, [], ◌∷◌, ◌≡◌, refl, sym, ap, ◌∙◌, map, some, if◌then◌else◌,
  arith,
}
use marx_engels_insight_matc.Base.Strings.{text_eq, text_eq_refl}
use marx_engels_insight_matc.Base.Unique.{contains, Distinct}
use marx_engels_insight_matc.Base.Dict.{get, put, get-put}
use marx_engels_insight_matc.Ingestion.Runs.{ExtractionChunk, ExtractionRun, upsert_run}
use marx_engels_insight_matc.Ingestion.Runs.Schedule.{
  World, retrying, forgotten, Step, update, remember, forget, Reach, here, next, finish,
}
use marx_engels_insight_matc.Ingestion.Runs.Schedule.Order.{
  task_ids, absent_before, map-finish-forgotten, Reach-Keeps,
}

abbrev pub without_batch : ExtractionChunk → ExtractionChunk
without_batch c = record c { batch_id = none }

forgotten-without_batch :
    (id : Text) (cs : List ExtractionChunk)
    → map without_batch (map (forgotten id) cs) ≡ map without_batch cs
forgotten-without_batch id [] = refl
forgotten-without_batch id (c ∷ cs) =
    λ i. at (text_eq c.chunk_id id) i ∷ forgotten-without_batch id cs i
  where
    at :
        (b : Bool) → without_batch (if b then record c { batch_id = none } else c) ≡ without_batch c
    at true = refl
    at false = refl

-- The state file holds the run, but for batches of chunks, which the tasks overwrite before they
-- end.
pub record IsNearlySaved (w : World) : Type 0 where
  pub stored : ExtractionRun
  pub found : get w.run.run_id w.state.runs ≡ some stored
  pub active : w.state.active_run_id ≡ some w.run.run_id
  pub same_run : record stored { chunks = w.run.chunks } ≡ w.run
  pub same_chunks : map without_batch stored.chunks ≡ map without_batch w.run.chunks
  pub same_end : map (finish w.tasks) stored.chunks ≡ map (finish w.tasks) w.run.chunks

-- The run is saved as it stands.
abbrev pub IsSaved : World → Type 0
IsSaved w =
    (get w.run.run_id w.state.runs ≡ some w.run) × (w.state.active_run_id ≡ some w.run.run_id)

IsNearlySaved-of_IsSaved : (w : World) → IsSaved w → IsNearlySaved w
IsNearlySaved-of_IsSaved w h = record {
  stored = w.run;
  found = h.0;
  active = h.1;
  same_run = refl;
  same_chunks = refl;
  same_end = refl;
}

Step-IsNearlySaved :
    (w v : World) → Step w v → Distinct (task_ids w.tasks) → IsNearlySaved w → IsNearlySaved v
unfolding upsert_run
Step-IsNearlySaved w v (update now before after id u us e m s f) d h = IsNearlySaved-of_IsSaved v (
  (λ k. get v.run.run_id ((s k).runs))
      ∙ (get-put v.run.run_id v.run.run_id v.run w.state.runs
          ∙ ground (arith, text_eq_refl v.run.run_id)),
  λ k. (s k).active_run_id,
)
Step-IsNearlySaved w v (remember f id r s t) d h =
    let new : World = record {
      run = w.run;
      state = record w.state { fingerprints = put f (w.run.run_id, id) w.state.fingerprints };
      tasks = w.tasks;
    } in
    let made : new ≡ v = λ k. record { run = sym r k; state = sym s k; tasks = sym t k } in
    subst IsNearlySaved made (record {
      stored = h.stored;
      found = h.found;
      active = h.active;
      same_run = h.same_run;
      same_chunks = h.same_chunks;
      same_end = h.same_end;
    })
Step-IsNearlySaved w v (forget before after id us e r s t) d h =
    let absent : contains id (task_ids before) ≡ false =
      absent_before before after id (retrying ∷ us) (subst (λ ts. Distinct (task_ids ts)) e d) in
    let new : World = record {
      run = record w.run { chunks = map (forgotten id) w.run.chunks };
      state = w.state;
      tasks = w.tasks;
    } in
    let made : new ≡ v = λ k. record { run = sym r k; state = sym s k; tasks = sym t k } in
    subst IsNearlySaved made (record {
      stored = h.stored;
      found = h.found;
      active = h.active;
      same_run =
          ap (λ (x : ExtractionRun). record x { chunks = map (forgotten id) w.run.chunks })
            h.same_run;
      same_chunks = h.same_chunks ∙ sym (forgotten-without_batch id w.run.chunks);
      same_end =
          h.same_end
          ∙ ((λ k. map (finish (e k)) w.run.chunks)
              ∙ (sym (map-finish-forgotten before after id us w.run.chunks absent)
                  ∙ (λ k. map (finish (sym e k)) (map (forgotten id) w.run.chunks))));
    })

pub Reach-IsNearlySaved :
    (w v : World) → Distinct (task_ids w.tasks) → IsSaved w → Reach w v → IsNearlySaved v
Reach-IsNearlySaved w v d h here = IsNearlySaved-of_IsSaved w h
Reach-IsNearlySaved w v d h (next {v = u} r s) =
    let (cs, ids, i) = Reach-Keeps w u d r in
    Step-IsNearlySaved u v s (subst (λ is. Distinct is) (sym ids) d) (Reach-IsNearlySaved w u d h r)
