-- ===== src/Pipelines/Timeline/Execute/Working.antt =====
-- What the collaborators of the timeline do where they work, and that the reranking and the
-- summaries then return.
use marx_engels_insight_matc.Base.{
  ◌≤◌, ◌≡◌, refl, Text, is_empty, map, Bool, true, false, ◌&&◌, Option, none, some, List, [], ◌∷◌,
  ◌++◌, if◌then◌else◌,
}
use marx_engels_insight_matc.Base.Dict.{Dict, index_by}
use marx_engels_insight_matc.Contracts.{SearchScope, Candidate, Evidence, ResultGroup, Warning}
use marx_engels_insight_matc.Errors.{Result, ok, raise}
use marx_engels_insight_matc.Errors.Laws.{Returns, if-Returns, Meets, bind-Meets}
use marx_engels_insight_matc.Evidence.Service.Laws.{IsFaithful, candidate_ids, Sound}
use marx_engels_insight_matc.Evidence.Service.{unique_candidates}
use marx_engels_insight_matc.Retrieval.Floats.{FloatOps}
use marx_engels_insight_matc.Retrieval.Records.{Records}
use marx_engels_insight_matc.Pipelines.Claim.Recall.Laws.{interrupted}
use marx_engels_insight_matc.Pipelines.Timeline.Years.{CharacterDatabase}
use marx_engels_insight_matc.Pipelines.Timeline.Grouping.Loops.{IsDated}
use marx_engels_insight_matc.Pipelines.Timeline.Recall.{is_channel_failure}
use marx_engels_insight_matc.Pipelines.Timeline.Recall.Laws.{sanitize_reranked_lem}
use marx_engels_insight_matc.Pipelines.Timeline.Recall.Fused.{blocks}
use marx_engels_insight_matc.Pipelines.Timeline.Ports.{TimelinePorts, summary_warning}
use marx_engels_insight_matc.Pipelines.Timeline.Execute.{
  members_in, search_lexical, search_semantic, taken, reranked, with_reranker, maybe_rerank,
  summarized, summary_loop, with_summaries, maybe_summarize,
}
use marx_engels_insight_matc.Pipelines.Timeline.Execute.Paged.{without_summary}

module _ {F V : Type 0} (ops : FloatOps F) (ports : TimelinePorts F V) (u : CharacterDatabase) where
  abbrev pub Reranks : Option (Text → List (Candidate F) → Result (List (Candidate F))) → Type 0
  Reranks none = Unit
  Reranks (some rerank) =
      (query : Text) (cs : List (Candidate F)) → interrupted (rerank query cs) ≡ false

  abbrev pub Summarizes : Option (Text → Text → List Evidence → Result (Option Text)) → Type 0
  Summarizes none = Unit
  Summarizes (some summarize) =
      (query group_id : Text) (members : List Evidence)
      → interrupted (summarize query group_id members) ≡ false

  -- `e` quotes the record that the repository returns for a candidate of the list that passes
  -- the gate within the pool of the recall.
  abbrev pub Quoted : SearchScope → List Text → List (Candidate F) → Evidence → Type 0
  Quoted scope allowed cs e =
      (records : Records) × (ports.get_by_ids (candidate_ids (unique_candidates cs)) ≡ ok records)
      × Sound records scope (some allowed) none cs e

  -- The scope, the release, the repository and the overview answer, and dates are read; one of the
  -- two channels, the reranker and the summaries may fail.
  pub record IsWorking : Type 0 where
    pub resolves : (scope : SearchScope) → Returns (ports.resolve scope)
    pub releases : (scope : SearchScope) → Returns (ports.release_for scope)
    pub lexical :
        (query : Text) (scope : SearchScope) → blocks (search_lexical ops ports query scope) ≡ false
    pub semantic :
        (query : Text) (scope : SearchScope)
        → blocks (search_semantic ops ports query scope) ≡ false
    pub either :
        (query : Text) (scope : SearchScope)
        → (is_channel_failure (search_lexical ops ports query scope)
            && is_channel_failure (search_semantic ops ports query scope))
          ≡ false
    pub reranks : Reranks ports.reranker
    pub summarizes : Summarizes ports.summary_provider
    pub finds : (ids : List Text) → Returns (ports.get_by_ids ids)
    pub faithful : IsFaithful ports.get_by_ids
    pub dated :
        (scope : SearchScope) (allowed : List Text) (cs : List (Candidate F)) (e : Evidence)
        → Quoted scope allowed cs e
        → IsDated u e
    pub overviews : (evidence : List Evidence) → Returns (ports.overview evidence)
    pub positive : 1 ≤ ports.rrf_k

  reranked-Returns :
      (candidates : List (Candidate F)) (warnings : List Warning) (m : Result (List (Candidate F)))
      → interrupted m ≡ false
      → Returns (reranked ops ports candidates warnings m)
  reranked-Returns candidates warnings (ok items) h =
      let (out, (run, counted)) = sanitize_reranked_lem items candidates in
      (taken ops ports candidates warnings out, rw run refl)
  reranked-Returns candidates warnings (raise e) h = rw h ((candidates, _), refl)

  with_reranker-Returns :
      (reranker : Option (Text → List (Candidate F) → Result (List (Candidate F)))) (query : Text)
      (candidates : List (Candidate F)) (warnings : List Warning)
      → Reranks reranker
      → Returns (with_reranker ops ports reranker query candidates warnings)
  with_reranker-Returns none query candidates warnings h = (_, refl)
  with_reranker-Returns (some rerank) query candidates warnings h =
      reranked-Returns candidates warnings (rerank query candidates) (h query candidates)

  pub maybe_rerank-Returns :
      (query : Text) (candidates : List (Candidate F)) (warnings : List Warning)
      → Reranks ports.reranker
      → Returns (maybe_rerank ops ports query candidates warnings)
  unfolding maybe_rerank
  maybe_rerank-Returns query candidates warnings h =
      if-Returns (is_empty candidates) (_, refl)
        (with_reranker-Returns ports.reranker query candidates warnings h)

  -- The same groups, but for their summaries.
  abbrev pub SameGroups : List (ResultGroup F) → List (ResultGroup F) × List Warning → Type 0
  SameGroups groups s = map (without_summary u) s.0 ≡ map (without_summary u) groups

  abbrev SameGroup : ResultGroup F → ResultGroup F × List Warning → Type 0
  SameGroup group s = without_summary u s.0 ≡ without_summary u group

  summarized-SameGroup :
      (group : ResultGroup F) (warnings : List Warning) (m : Result (Option Text))
      → interrupted m ≡ false
      → Meets (SameGroup group) (summarized ops ports group warnings m)
  summarized-SameGroup group warnings (ok summary) h =
      ((record group { summary = summary }, warnings), (refl, refl))
  summarized-SameGroup group warnings (raise e) h =
      ((group, warnings ++ summary_warning e ∷ []), (rw h refl, refl))

  summary_loop-SameGroups :
      (summarize : Text → Text → List Evidence → Result (Option Text)) (query : Text)
      (by_id : Dict Evidence) (groups : List (ResultGroup F)) (warnings : List Warning)
      → Summarizes (some summarize)
      → Meets (SameGroups groups) (summary_loop ops ports summarize query by_id groups warnings)
  unfolding summary_loop
  summary_loop-SameGroups summarize query by_id [] warnings h = (([], warnings), (refl, refl))
  summary_loop-SameGroups summarize query by_id (g ∷ groups) warnings h =
      let members = members_in by_id g.evidence_ids in
      bind-Meets (SameGroup g) (SameGroups (g ∷ groups))
        (summarized ops ports g warnings (summarize query g.group_id members)) _
        (summarized-SameGroup g warnings (summarize query g.group_id members)
          (h query g.group_id members))
        (λ shown same.
          bind-Meets (SameGroups groups) (SameGroups (g ∷ groups))
            (summary_loop ops ports summarize query by_id groups shown.1) _
            (summary_loop-SameGroups summarize query by_id groups shown.1 h)
            (λ later rest. ((shown.0 ∷ later.0, later.1), (refl, cc (same, rest)))))

  with_summaries-SameGroups :
      (provider : Option (Text → Text → List Evidence → Result (Option Text))) (query : Text)
      (groups : List (ResultGroup F)) (evidence : List Evidence) (warnings : List Warning)
      → Summarizes provider
      → Meets (SameGroups groups) (with_summaries ops ports provider query groups evidence warnings)
  with_summaries-SameGroups none query groups evidence warnings h =
      ((groups, warnings), (refl, refl))
  with_summaries-SameGroups (some summarize) query groups evidence warnings h =
      summary_loop-SameGroups summarize query (index_by (λ (e : Evidence). e.evidence_id) evidence)
        groups warnings h

  pub maybe_summarize-SameGroups :
      (query : Text) (groups : List (ResultGroup F)) (evidence : List Evidence)
      (warnings : List Warning) (include : Bool)
      → Summarizes ports.summary_provider
      → Meets (SameGroups groups) (
          if include
          then maybe_summarize ops ports query groups evidence warnings
          else ok (groups, warnings))
  unfolding maybe_summarize
  maybe_summarize-SameGroups query groups evidence warnings false h =
      ((groups, warnings), (refl, refl))
  maybe_summarize-SameGroups query groups evidence warnings true h =
      with_summaries-SameGroups ports.summary_provider query groups evidence warnings h
