-- ===== src/Pipelines/Timeline/Execute/Total.antt =====
-- A timeline request is answered when its collaborators work, although one channel, the reranker
-- and the summaries may fail; and what the answer holds.
use marx_engels_insight_matc.Base.{
  ◌≡◌, ◌↔◌, arith, In, not, ◌&&◌, refl, sym, ◌∙◌, Text, min, is_empty, is_some, map, All,
  All-weaken, Bool, true, false, none, some, List, [], if◌then◌else◌,
}
use mathlib.Core.Path.{subst}
use marx_engels_insight_matc.Base.Keep.{In-keep_iff}
use marx_engels_insight_matc.Base.Unique.{contains}
use marx_engels_insight_matc.Pipelines.Thematic.Judgments.{is_irrelevant}
use marx_engels_insight_matc.Contracts.{
  SearchScope, SearchRequest, SearchResponse, Candidate, Evidence, ReleaseInfo, ResultGroup,
  Warning,
}
use marx_engels_insight_matc.Errors.{ok}
use marx_engels_insight_matc.Errors.Laws.{Returns, Meets, bind-Meets}
use marx_engels_insight_matc.Evidence.Service.{EvidenceHydrationResult, hydrate, unique_candidates}
use marx_engels_insight_matc.Evidence.Service.Laws.{
  candidate_ids, Sound, hydrate-Sound, hydrate-partition,
}
use marx_engels_insight_matc.Retrieval.Floats.{FloatOps}
use marx_engels_insight_matc.Pipelines.Timeline.Years.{CharacterDatabase}
use marx_engels_insight_matc.Pipelines.Timeline.Grouping.{Timeline}
use marx_engels_insight_matc.Pipelines.Timeline.Recall.Fused.{combine_channels-Returns}
use marx_engels_insight_matc.Pipelines.Timeline.Ports.{TimelinePorts, Warned, is_timeline}
use marx_engels_insight_matc.Pipelines.Timeline.Execute.{
  relevant, ids_of_candidates, search_lexical, search_semantic, recall, reranked, maybe_rerank,
  maybe_summarize, respond, paged_timeline, answer, execute,
}
use marx_engels_insight_matc.Pipelines.Timeline.Execute.Paged.{
  IsPage, paged_timeline-IsPage, without_summary, IsTimeline-without_summary,
}
use marx_engels_insight_matc.Pipelines.Timeline.Execute.Working.{
  Quoted, IsWorking, SameGroups, maybe_rerank-Returns, maybe_summarize-SameGroups,
}

module _ {F V : Type 0} (ops : FloatOps F) (ports : TimelinePorts F V) (u : CharacterDatabase) where
  -- The timeline that a response shows, without its summaries.
  abbrev pub timeline_of : SearchResponse F → Timeline F
  timeline_of response = record {
    groups = map (without_summary u) response.groups;
    evidence = response.evidence;
  }

  pub record IsShown (request : SearchRequest) (scope : SearchScope) (allowed : List Text)
      (cs : List (Candidate F)) (response : SearchResponse F) : Type 0 where
    pub hydration : EvidenceHydrationResult
    pub hydrated : hydrate ports.get_by_ids cs scope none (some allowed) ≡ ok hydration
    pub page :
        IsPage u
          (Quoted ops ports u scope allowed cs)
          hydration.evidence
          (min ports.final_top_k request.page_size)
          (timeline_of response)
    pub insufficient : is_some response.insufficiency ≡ is_empty response.evidence

  pub record IsTimelineAnswer (request : SearchRequest) (response : SearchResponse F) : Type 0 where
    pub scope : SearchScope
    pub resolved : ports.resolve request.scope ≡ ok scope
    pub pool : Warned F
    pub recalled : recall ops ports request.query scope [] ≡ ok pool
    pub ranked : Warned F
    pub reranked : maybe_rerank ops ports request.query pool.0 pool.1 ≡ ok ranked
    pub selected : List (Candidate F)
    pub relevant_only :
        (c : Candidate F)
        → In c selected ↔ (
            In c ranked.0
            × ((is_irrelevant c.support_label ≡ false)
                × (contains c.evidence_id (ids_of_candidates pool.0) ≡ true)))
    pub shown : IsShown request scope (ids_of_candidates pool.0) selected response

  relevant_iff :
      (allowed : List Text) (cs : List (Candidate F)) (c : Candidate F)
      → In c (relevant allowed cs) ↔ (
          In c cs
          × ((is_irrelevant c.support_label ≡ false) × (contains c.evidence_id allowed ≡ true)))
  unfolding relevant
  relevant_iff allowed cs c =
      let (there, back) =
        In-keep_iff
          (λ (d : Candidate F).
            not (is_irrelevant d.support_label) && contains d.evidence_id allowed)
          c cs in
      (
        λ m. let (k, q) = there m in (k, (ground (arith, q), ground (arith, q))),
        λ (k, (a, b)). back (k, ground (arith, a, b)),
      )

  insufficient_lem : {A : Type 0} (b : Bool) (a : A) → is_some (if b then some a else none) ≡ b
  insufficient_lem true a = refl
  insufficient_lem false a = refl

  module _ (working : IsWorking ops ports u) (request : SearchRequest) where
    hydrate-Quoted :
        (scope : SearchScope) (allowed : List Text) (candidates : List (Candidate F))
        → Meets
            (λ h.
              (hydrate ports.get_by_ids candidates scope none (some allowed) ≡ ok h)
              × All (Quoted ops ports u scope allowed candidates) h.evidence)
            (hydrate ports.get_by_ids candidates scope none (some allowed))
    hydrate-Quoted scope allowed candidates =
        let wanted = candidate_ids (unique_candidates candidates) in
        let (records, found) = working.finds wanted in
        let keyed = working.faithful wanted records found in
        let (h, gated, _) =
          hydrate-partition ports.get_by_ids candidates scope none (some allowed) records found
            keyed in
        (
          h,
          (
            gated,
            (
              gated,
              All-weaken (Sound records scope (some allowed) none candidates)
                  (Quoted ops ports u scope allowed candidates) h.evidence
                  (λ e s. (records, found, s))
                  (hydrate-Sound ports.get_by_ids candidates scope none (some allowed) records found
                    keyed h gated),
            ),
          ),
        )

    module _ (request_id : Text) (scope : SearchScope) (release : ReleaseInfo) (allowed : List Text)
        (candidates : List (Candidate F)) where
      respond-IsShown :
          (h : EvidenceHydrationResult) (t : Timeline F)
          (shown : List (ResultGroup F) × List Warning)
          → hydrate ports.get_by_ids candidates scope none (some allowed) ≡ ok h
          → IsPage u
              (Quoted ops ports u scope allowed candidates)
              h.evidence
              (min ports.final_top_k request.page_size)
              t
          → SameGroups ops ports u t.groups shown
          → Meets
              (IsShown request scope allowed candidates)
              (respond ops ports request request_id scope release t.evidence shown.0 shown.1)
      unfolding respond
      respond-IsShown h t shown hydrated page same =
          bind-Meets (λ o. Unit) (IsShown request scope allowed candidates)
            (ports.overview t.evidence) _
            (let (o, run) = working.overviews t.evidence in (o, (run, tt)))
            (λ overview seen. (
              _,
              (
                refl,
                record {
                  hydration = h;
                  hydrated = hydrated;
                  page =
                      subst
                        (λ groups.
                          IsPage u (Quoted ops ports u scope allowed candidates) h.evidence
                            (min ports.final_top_k request.page_size)
                            (record { groups = groups; evidence = t.evidence }))
                        (sym (same ∙ IsTimeline-without_summary u _ t page.is_timeline)) page;
                  insufficient = insufficient_lem (is_empty t.evidence) _;
                },
              ),
            ))

      answer-IsShown :
          (warnings : List Warning)
          → Meets
              (IsShown request scope allowed candidates)
              (answer ops ports u request request_id scope release allowed candidates warnings)
      unfolding answer
      answer-IsShown warnings =
          let Good : Evidence → Type 0 = Quoted ops ports u scope allowed candidates in
          let Page : EvidenceHydrationResult → Timeline F → Type 0 =
            λ h. IsPage u Good h.evidence (min ports.final_top_k request.page_size) in
          bind-Meets
            (λ (h : EvidenceHydrationResult).
              (hydrate ports.get_by_ids candidates scope none (some allowed) ≡ ok h)
              × All Good h.evidence)
            (IsShown request scope allowed candidates)
            (hydrate ports.get_by_ids candidates scope none (some allowed)) _
            (hydrate-Quoted scope allowed candidates)
            (λ h (hydrated, sound).
              bind-Meets (Page h) (IsShown request scope allowed candidates)
                (paged_timeline ops ports u request.page_size h.evidence) _
                (paged_timeline-IsPage u ops ports Good request.page_size h.evidence
                  (working.dated scope allowed candidates) sound)
                (λ t page.
                  bind-Meets (SameGroups ops ports u t.groups)
                    (IsShown request scope allowed candidates)
                    (if request.options.include_generated_summaries
                      then maybe_summarize ops ports request.query t.groups t.evidence warnings
                      else ok (t.groups, warnings))
                    _
                    (maybe_summarize-SameGroups ops ports u request.query t.groups t.evidence
                      warnings request.options.include_generated_summaries working.summarizes)
                    (λ shown same. respond-IsShown h t shown hydrated page same)))

    recall-Returns : (scope : SearchScope) → Returns (recall ops ports request.query scope [])
    unfolding recall
    recall-Returns scope =
        combine_channels-Returns ops ports.rrf_k ports.fusion_top_k working.positive []
          (search_lexical ops ports request.query scope)
          (search_semantic ops ports request.query scope) (working.lexical request.query scope)
          (working.semantic request.query scope) (working.either request.query scope)

    -- When its collaborators work and dates are read, every timeline request is answered, also
    -- when one channel, the reranker or the summaries fail. Each evidence quotes the record that
    -- the repository returns for a candidate that passes the gate, in the resolved scope and
    -- within the pool of the recall, and that is a reranked candidate of this pool with no label
    -- `irrelevant`. The evidence that the gate accepts makes one timeline, and the answer is the
    -- timeline of its first `final_top_k` and at most `page_size`. But for their summaries the
    -- groups are decades strictly ascending, then disputed, then unknown dates, each group in the
    -- order of dates, volumes and identifiers, and each identifier once. An insufficiency is
    -- reported exactly when there is no evidence.
    pub execute-IsTimelineAnswer :
        (request_id : Text)
        → is_timeline request.mode ≡ true
        → Meets (IsTimelineAnswer request) (execute ops ports u request request_id)
    unfolding execute
    execute-IsTimelineAnswer request_id m =
        let (scope, resolved) = working.resolves request.scope in
        let (release, released) = working.releases scope in
        let (pool, recalled) = recall-Returns scope in
        let (ranked, reranked) =
          maybe_rerank-Returns ops ports u request.query pool.0 pool.1 working.reranks in
        let allowed = ids_of_candidates pool.0 in
        let (response, (answered, shown)) =
          answer-IsShown request_id scope release allowed (relevant allowed ranked.0) ranked.1 in
        (
          response,
          (
            rw (m, resolved, released, recalled, reranked) answered,
            record {
              scope = scope;
              resolved = resolved;
              pool = pool;
              recalled = recalled;
              ranked = ranked;
              reranked = reranked;
              selected = relevant allowed ranked.0;
              relevant_only = relevant_iff allowed ranked.0;
              shown = shown;
            },
          ),
        )
