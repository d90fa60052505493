-- ===== src/Pipelines/Thematic/Execute/Total.antt =====
-- A thematic request is answered when its collaborators work, although one channel, the relevance
-- stage, the embeddings, the clusterer and the labeler may fail.
use marx_engels_insight_matc.Base.{
  ◌≤◌, ◌≡◌, refl, Text, min, is_empty, take, true, false, ◌&&◌, Option, none, some, List, [],
}
use marx_engels_insight_matc.Base.Dict.{Dict}
use marx_engels_insight_matc.Contracts.{
  SearchScope, SearchRequest, SearchResponse, Candidate, Evidence, ReleaseInfo, Warning,
}
use marx_engels_insight_matc.Errors.{ok}
use marx_engels_insight_matc.Errors.Laws.{Returns, if-Returns, bind-Returns, bind-Returns_of}
use marx_engels_insight_matc.Evidence.Service.{hydrate, unique_candidates}
use marx_engels_insight_matc.Evidence.Service.Laws.{IsFaithful, candidate_ids, hydrate-partition}
use marx_engels_insight_matc.Retrieval.Floats.{FloatOps}
use marx_engels_insight_matc.Pipelines.Claim.Recall.Laws.{interrupted}
use marx_engels_insight_matc.Pipelines.Thematic.Types.{SanitizedGrouping}
use marx_engels_insight_matc.Pipelines.Thematic.Ports.{ThematicPorts}
use marx_engels_insight_matc.Pipelines.Thematic.Recall.{RecallOutcome, recall}
use marx_engels_insight_matc.Pipelines.Thematic.Recall.Laws.{
  stops, failed, lexical_search, vector_search, recall-failed,
}
use marx_engels_insight_matc.Pipelines.Thematic.Relevance.{relevance, apply_relevance_gate}
use marx_engels_insight_matc.Pipelines.Thematic.Steps.{cluster, build_groups}
use marx_engels_insight_matc.Pipelines.Thematic.Steps.Total.{
  Labels, relevance-Returns, cluster-Returns, build_groups-Returns,
}
use marx_engels_insight_matc.Pipelines.Thematic.Execute.{
  Draft, is_thematic, found_in, by_evidence_id, surviving, gate_warnings, arrange, organize,
  hydrated, draft, respond, execute,
}
use marx_engels_insight_matc.Pipelines.Thematic.Execute.Drafts.{ids_of}
use marx_engels_insight_matc.Pipelines.Thematic.Execute.Laws.{
  IsThematicAnswer, execute-IsThematicAnswer_of_ok,
}

module _ {F V : Type 0} (ops : FloatOps F) (ports : ThematicPorts F V) where
  -- The scope, the release, the repository and the overview answer; one of the two channels and
  -- the other collaborators may fail, with no hard error.
  pub record IsWorking : Type 0 where
    pub resolves : (scope : SearchScope) → Returns (ports.resolve scope)
    pub releases : (scope : SearchScope) → Returns (ports.snapshot_for scope)
    pub lexical :
        (query : Text) (scope : SearchScope) → stops (lexical_search ops ports query scope) ≡ false
    pub vector :
        (query : Text) (scope : SearchScope) → stops (vector_search ops ports query scope) ≡ false
    pub either :
        (query : Text) (scope : SearchScope)
        → (failed (lexical_search ops ports query scope)
            && failed (vector_search ops ports query scope))
          ≡ false
    pub scores : (query : Text) (cs : List (Candidate F)) → stops (ports.score query cs) ≡ false
    pub embeds : (texts : List Text) → interrupted (ports.embed texts) ≡ false
    pub clusters :
        (allowed : List Text) (vectors : Dict V)
        → interrupted (ports.cluster allowed vectors) ≡ false
    pub labels : Labels ops ports ports.labeler
    pub finds : (ids : List Text) → Returns (ports.get_by_ids ids)
    pub faithful : IsFaithful ports.get_by_ids
    pub builds : (evidence : List Evidence) → Returns (ports.build evidence)
    pub positive : 1 ≤ ports.config.rrf_k

  module _ (working : IsWorking) where
    arrange-Returns :
        (request : SearchRequest) (scores : Dict F) (evidence : List Evidence)
        (warnings : List Warning) (grouping : Option SanitizedGrouping)
        → Returns (arrange ops ports request scores evidence warnings grouping)
    unfolding arrange
    arrange-Returns request scores evidence warnings none = (_, refl)
    arrange-Returns request scores evidence warnings (some grouping) =
        bind-Returns (build_groups ops ports request scores grouping warnings) _
          (build_groups-Returns ops ports request scores grouping warnings working.labels)
          (λ built made. (_, refl))

    organize-Returns :
        (request : SearchRequest) (scores : Dict F) (evidence : List Evidence)
        (warnings : List Warning)
        → Returns (organize ops ports request scores evidence warnings)
    unfolding organize
    organize-Returns request scores evidence warnings =
        if-Returns (is_empty evidence) (_, refl)
          (bind-Returns (cluster ops ports (ids_of evidence) evidence warnings) _
            (cluster-Returns ops ports (ids_of evidence) evidence warnings working.embeds
              working.clusters)
            (λ outcome made.
              if-Returns outcome.embeddings_unavailable (_, refl)
                (arrange-Returns request scores evidence outcome.warnings outcome.grouping)))

    hydrated-Returns :
        (request : SearchRequest) (scope : SearchScope) (scores : Dict F)
        (candidates : List (Candidate F)) (warnings : List Warning)
        → Returns (hydrated ops ports request scope scores candidates warnings)
    unfolding hydrated
    hydrated-Returns request scope scores candidates warnings =
        let ids = candidate_ids candidates in
        let wanted = candidate_ids (unique_candidates candidates) in
        let (records, found) = working.finds wanted in
        let (h, gated, _) =
          hydrate-partition ports.get_by_ids candidates scope none (some ids) records found
            (working.faithful wanted records found) in
        if-Returns (is_empty candidates) (_, refl)
          (bind-Returns (hydrate ports.get_by_ids candidates scope none (some ids)) _ (h, gated)
            (λ got run.
              organize-Returns request scores
                (take (min ports.config.final_top_k request.page_size)
                  (found_in (by_evidence_id (surviving got.evidence)) ids))
                (gate_warnings got warnings)))

    draft-Returns :
        (request : SearchRequest) (scope : SearchScope) → Returns (draft ops ports request scope)
    unfolding draft
    draft-Returns request scope =
        let (recalled, (run, (l, v))) =
          recall-failed ops ports request.query scope working.positive []
            (working.lexical request.query scope) (working.vector request.query scope) in
        bind-Returns_of (λ (r : RecallOutcome F). (r.lexical_failed && r.vector_failed) ≡ false)
          (recall ops ports request.query scope []) _
          (recalled, (run, rw (l, v) (working.either request.query scope)))
          (λ r alive. rw alive (
            if-Returns (is_empty r.candidates) (_, refl)
              (bind-Returns (relevance ops ports request.query r.candidates r.warnings) _
                (relevance-Returns ops ports request.query r.candidates r.warnings
                  (working.scores request.query r.candidates))
                (λ judged made.
                  let gated =
                    apply_relevance_gate ops judged.scored judged.warnings
                      ports.config.min_rerank_score judged.judged in
                  hydrated-Returns request scope r.scores gated.0 gated.1))))

    respond-Returns :
        (request : SearchRequest) (request_id : Text) (scope : SearchScope) (release : ReleaseInfo)
        (d : Draft F)
        → Returns (respond ops ports request request_id scope release d)
    unfolding respond
    respond-Returns request request_id scope release d =
        bind-Returns (ports.build d.evidence) _ (working.builds d.evidence)
          (λ overview built. (_, refl))

    execute-Returns :
        (request : SearchRequest) (request_id : Text)
        → is_thematic request.mode ≡ true
        → Returns (execute ops ports request request_id)
    unfolding execute
    execute-Returns request request_id m = rw m (
        bind-Returns (ports.resolve request.scope) _ (working.resolves request.scope)
          (λ scope resolved.
            bind-Returns (ports.snapshot_for scope) _ (working.releases scope) (λ release released.
              bind-Returns (draft ops ports request scope) _ (draft-Returns request scope)
                (λ d drafted. respond-Returns request request_id scope release d))))

    -- When its collaborators work, every thematic request is answered, also when one channel, the
    -- relevance stage, the embeddings, the clusterer or the labeler fails. Each evidence quotes
    -- the record that the repository returns for a candidate that the recall found, the relevance
    -- gate kept and the evidence gate accepts in the resolved scope. The
    -- evidence is, but for its order, the first `final_top_k` and at most `page_size` of what the
    -- evidence gate accepts and no label calls irrelevant, in the order of the relevance gate.
    -- Either there is evidence, nothing is reported missing, the identifiers of the groups, group by
    -- group, are those of the evidence in the same order, and none stands twice; or there are no
    -- groups, and it is reported that no evidence is relevant, where there is none, or that it
    -- could not be clustered.
    pub execute-IsThematicAnswer :
        (request : SearchRequest) (request_id : Text)
        → is_thematic request.mode ≡ true
        → (response : SearchResponse F) × ((execute ops ports request request_id ≡ ok response)
            × IsThematicAnswer ops ports request response)
    execute-IsThematicAnswer request request_id m =
        let (response, run) = execute-Returns request request_id m in
        (
          response,
          (
            run,
            execute-IsThematicAnswer_of_ok ops ports request request_id response working.faithful m
                run,
          ),
        )
