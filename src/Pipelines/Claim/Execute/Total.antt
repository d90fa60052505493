-- ===== src/Pipelines/Claim/Execute/Total.antt =====
-- A claim request is answered when its collaborators work, although the reranker, the classifier
-- and one channel may fail.
use marx_engels_insight_matc.Base.{
  ◌≤◌, ◌≡◌, refl, Text, codes, is_empty, is_some, keep, Bool, true, false, none, some, List, [],
  ◌∷◌, ◌++◌, map, if◌then◌else◌,
}
use marx_engels_insight_matc.Base.Dict.{Dict, index_by, index_by-some}
use marx_engels_insight_matc.Base.Unique.{contains}
use marx_engels_insight_matc.Pipelines.Claim.Classification.{Answer}
use marx_engels_insight_matc.Contracts.{
  SearchScope, SearchRequest, SearchResponse, Candidate, Evidence, ReleaseInfo, Warning,
}
use marx_engels_insight_matc.Errors.{Result, ok, raise, ◌>>=◌}
use marx_engels_insight_matc.Errors.Laws.{Returns, if-Returns, bind-Returns}
use marx_engels_insight_matc.Retrieval.Floats.{FloatOps}
use marx_engels_insight_matc.Evidence.Service.{hydrate, unique_candidates}
use marx_engels_insight_matc.Evidence.Service.Laws.{IsFaithful, candidate_ids, hydrate-partition}
use marx_engels_insight_matc.Pipelines.Claim.Display.{apply_page_size}
use marx_engels_insight_matc.Pipelines.Claim.Display.Groups.{groups_from_evidence-IsGrouping}
use marx_engels_insight_matc.Pipelines.Claim.Recall.{Recalled}
use marx_engels_insight_matc.Pipelines.Claim.Recall.Laws.{blocks, must_stop, returns}
use marx_engels_insight_matc.Pipelines.Claim.Fusion.{fuse_candidates}
use marx_engels_insight_matc.Pipelines.Claim.Fusion.Laws.{fuse_candidates-IsFused}
use marx_engels_insight_matc.Pipelines.Claim.Pipeline.{
  reranked, rerank_warning, classifier_warning, unclassified, answered, ClaimPorts, Classified,
  PayloadItem, is_claim, vector_recall, recall, rerank, classify, load_authority_records, payload,
}
use marx_engels_insight_matc.Pipelines.Claim.Execute.{arrange, selection, answer, execute}
use marx_engels_insight_matc.Pipelines.Claim.Execute.Laws.{
  IsClaimAnswer, execute-IsClaimAnswer_of_ok,
}

module _ {F V : Type 0} (ops : FloatOps F) (ports : ClaimPorts F V) where
  -- Collaborators that work: the scope, the release, the repository and the overview answer; a
  -- channel, the reranker and the classifier may fail, with no authoritative error.
  pub record IsWorking : Type 0 where
    pub resolves : (scope : SearchScope) → Returns (ports.resolve scope)
    pub releases : (scope : SearchScope) → Returns (ports.snapshot_for scope)
    pub recalls :
        (query : Text) (scope : SearchScope)
        → must_stop
            (ports.search_lexical query scope ports.lexical_top_k)
            (vector_recall ops ports query scope)
            []
          ≡ false
    pub reranks : (query : Text) (cs : List (Candidate F)) → blocks (ports.rerank query cs) ≡ false
    pub classifies :
        (task query : Text) (items : List PayloadItem)
        → blocks (ports.generate_structured task query items) ≡ false
    pub finds : (ids : List Text) → Returns (ports.get_by_ids ids)
    pub faithful : IsFaithful ports.get_by_ids
    pub overviews : (ids : List Text) → Returns (ports.overview_for ids)
    pub positive : 1 ≤ ports.rank_constant

  module _ (working : IsWorking) where
    recall-Returns :
        (query : Text) (scope : SearchScope) → Returns (recall ops ports query scope [])
    unfolding recall
    recall-Returns query scope =
        let (r, (run, _)) =
          returns [] (ports.search_lexical query scope ports.lexical_top_k)
            (vector_recall ops ports query scope) (working.recalls query scope) in
        (r, run)

    rerank-Returns :
        (query : Text) (fused : List (Candidate F)) (warnings : List Warning)
        → Returns (rerank ops ports query fused warnings)
    unfolding rerank
    rerank-Returns query [] warnings = (_, refl)
    rerank-Returns query (c ∷ cs) warnings =
        at_result (ports.rerank query (c ∷ cs)) (working.reranks query (c ∷ cs))
      where
        at_result :
            (m : Result (List (Candidate F)))
            → blocks m ≡ false
            → Returns (reranked ops ports (c ∷ cs) warnings m)
        at_result (ok items) h = (_, refl)
        at_result (raise e) h =
            (record { ordered = c ∷ cs; warnings = warnings ++ rerank_warning ∷ [] }, rw h refl)

    arrange-Returns :
        (classified : Bool) (selected : List (Candidate F)) (es : List Evidence)
        → Returns (arrange classified selected (index_by (λ (e : Evidence). e.evidence_id) es))
    arrange-Returns true selected es =
        let (g, (run, _)) =
          groups_from_evidence-IsGrouping (index_by (λ (e : Evidence). e.evidence_id) es) selected
            (λ i e h. (index_by-some (λ (e : Evidence). e.evidence_id) i e es h).0) in
        (g, run)
    arrange-Returns false selected es = (_, refl)

    load-Returns :
        (ids : List Text)
        → Returns (ports.get_by_ids ids)
        → Returns (load_authority_records ports.get_by_ids ids)
    unfolding load_authority_records
    load-Returns ids (records, found) =
        ((λ i. if contains i ids then records i else none), rw found refl)

    answered-Returns :
        (candidates : List (Candidate F)) (classifiable : List Text) (warnings : List Warning)
        (m : Result (Dict Answer))
        → blocks m ≡ false
        → Returns (answered ops ports candidates classifiable warnings m)
    answered-Returns candidates classifiable warnings (ok raw) h = (_, refl)
    answered-Returns candidates classifiable warnings (raise e) h =
        (unclassified ops ports candidates (warnings ++ classifier_warning ∷ []), rw h refl)

    classify-Returns :
        (query : Text) (candidates : List (Candidate F)) (warnings : List Warning)
        → Returns (classify ops ports query candidates warnings)
    unfolding classify load_authority_records
    classify-Returns query [] warnings = (_, refl)
    classify-Returns query (c ∷ cs) warnings =
        let ids = map (λ (d : Candidate F). d.evidence_id) (c ∷ cs) in
        bind-Returns (load_authority_records ports.get_by_ids ids) _
          (load-Returns ids (working.finds ids))
          (λ records run.
            let classifiable =
              keep (λ (d : Candidate F). is_some (records d.evidence_id)) (c ∷ cs) in
            let items = payload ops ports records classifiable in
            if-Returns (is_empty classifiable) (unclassified ops ports (c ∷ cs) warnings, refl)
              (answered-Returns (c ∷ cs) (map (λ (d : Candidate F). d.evidence_id) classifiable)
                warnings (ports.generate_structured (codes "classify_claim_support") query items)
                (working.classifies (codes "classify_claim_support") query items)))

    answer-Returns :
        (request : SearchRequest) (request_id : Text) (scope : SearchScope) (release : ReleaseInfo)
        (allowed : List Text) (c : Classified F)
        → Returns (answer ops ports request request_id scope release allowed c)
    unfolding answer
    answer-Returns request request_id scope release allowed c =
        let selected = selection ops ports c request.options.include_counter_evidence in
        let wanted = candidate_ids (unique_candidates selected) in
        let (records, found) = working.finds wanted in
        let (h, hydrated, _) =
          hydrate-partition ports.get_by_ids selected scope none (some allowed) records found
            (working.faithful wanted records found) in
        bind-Returns (hydrate ports.get_by_ids selected scope none (some allowed)) _ (h, hydrated)
          (λ got run.
            let surviving = index_by (λ (e : Evidence). e.evidence_id) got.evidence in
            bind-Returns (arrange c.classified selected surviving) _
              (arrange-Returns c.classified selected got.evidence)
              (λ g grouped.
                let page = apply_page_size g.groups g.evidence request.page_size in
                let shown = map (λ (e : Evidence). e.evidence_id) page.evidence in
                bind-Returns (ports.overview_for shown) _ (working.overviews shown)
                  (λ overview viewed. (_, refl))))

    fuse-Returns :
        (lexical vector : List (Candidate F))
        → Returns (fuse_candidates ops lexical vector ports.rank_constant)
    fuse-Returns lexical vector =
        let (out, (run, _)) =
          fuse_candidates-IsFused ops lexical vector ports.rank_constant working.positive in
        (out, run)

    -- the steps after the recall
    steps :
        (request : SearchRequest) (request_id : Text) (scope : SearchScope) (release : ReleaseInfo)
        (recalled : Recalled F)
        → Returns (
            fuse_candidates ops recalled.lexical recalled.vector ports.rank_constant >>= λ fused.
            rerank ops ports request.query fused recalled.warnings >>= λ ranked.
            classify ops ports request.query ranked.ordered ranked.warnings >>= λ c.
            answer ops ports request request_id scope release
              (map (λ (d : Candidate F). d.evidence_id) ranked.ordered)
              c)
    steps request request_id scope release recalled =
        bind-Returns (fuse_candidates ops recalled.lexical recalled.vector ports.rank_constant) _
          (fuse-Returns recalled.lexical recalled.vector)
          (λ fused fusion_run.
            bind-Returns (rerank ops ports request.query fused recalled.warnings) _
              (rerank-Returns request.query fused recalled.warnings)
              (λ ranked rerank_run.
                bind-Returns (classify ops ports request.query ranked.ordered ranked.warnings) _
                  (classify-Returns request.query ranked.ordered ranked.warnings)
                  (λ c classify_run.
                    answer-Returns request request_id scope release
                      (map (λ (d : Candidate F). d.evidence_id) ranked.ordered) c)))

    execute-Returns :
        (request : SearchRequest) (request_id : Text)
        → is_claim request.mode ≡ true
        → Returns (execute ops ports request request_id)
    unfolding execute
    execute-Returns request request_id m = rw m (
        bind-Returns (ports.resolve request.scope) _ (working.resolves request.scope)
          (λ scope resolved.
            bind-Returns (ports.snapshot_for scope) _ (working.releases scope) (λ release released.
              bind-Returns (recall ops ports request.query scope []) _
                (recall-Returns request.query scope)
                (λ recalled recall_run. steps request request_id scope release recalled))))

    -- When its collaborators work, every claim request is answered, also when one channel, the
    -- reranker or the classifier fails. Each evidence quotes the record that the repository
    -- returns for a candidate that passes the gate, in the resolved scope and within the pool that
    -- the reranker was restricted to; but for its label, that candidate is one of this pool.
    -- The evidence is the first `page_size` of the arrangement of all that the gate accepts, and
    -- insufficient support is reported exactly when none of it is labelled direct.
    pub execute-IsClaimAnswer :
        (request : SearchRequest) (request_id : Text)
        → is_claim request.mode ≡ true
        → (response : SearchResponse F) × ((execute ops ports request request_id ≡ ok response)
            × IsClaimAnswer ops ports request response)
    execute-IsClaimAnswer request request_id m =
        let (response, run) = execute-Returns request request_id m in
        (
          response,
          (
            run,
            execute-IsClaimAnswer_of_ok ops ports request request_id response working.faithful m
                run,
          ),
        )
