-- ===== src/Pipelines/Timeline/Execute.antt =====
-- packages/marx_engels/pipelines/timeline.py and timeline_ports.py: `TimelinePipeline.execute`, with
-- the reranking and the summaries.
pub mod Paged
pub mod Working
pub mod Total
use marx_engels_insight_matc.Base.{
  ℕ, min, Text, codes, is_empty, take, keep, Bool, true, false, not, ◌&&◌, Option, none, some, List,
  [], ◌∷◌, ◌++◌, map, if◌then◌else◌,
}
use marx_engels_insight_matc.Base.Dict.{Dict, get, index_by}
use marx_engels_insight_matc.Base.Unique.{contains}
use marx_engels_insight_matc.Contracts.{
  SearchMode, exact, claim, timeline, thematic, SearchScope, SearchRequest, SearchResponse,
  SearchOverview, Candidate, Evidence, ReleaseInfo, ResultGroup, Insufficiency, Warning,
}
use marx_engels_insight_matc.Errors.{Exception, domain, other, Result, ok, raise, ◌>>=◌}
use marx_engels_insight_matc.Evidence.Service.{hydrate}
use marx_engels_insight_matc.Retrieval.Floats.{FloatOps}
use marx_engels_insight_matc.Retrieval.Records.{EvidenceRepository}
use marx_engels_insight_matc.Pipelines.Claim.Recall.{is_cancelled}
use marx_engels_insight_matc.Pipelines.Thematic.Judgments.{is_irrelevant}
use marx_engels_insight_matc.Pipelines.Timeline.Years.{CharacterDatabase}
use marx_engels_insight_matc.Pipelines.Timeline.Grouping.{Timeline, organize_timeline}
use marx_engels_insight_matc.Pipelines.Timeline.Recall.{
  exception_text, or_text, sanitize_reranked, combine_channels,
}
use marx_engels_insight_matc.Pipelines.Timeline.Ports.{
  TimelinePorts, rerank_fallback_warning, rerank_warning, summary_warning, is_timeline,
  empty_insufficiency, Warned,
}

module _ {F : Type 0} where
  -- The filter after the reranking.
  unfoldable pub relevant : List Text → List (Candidate F) → List (Candidate F)
  relevant allowed_ids candidates =
      keep (λ c. not (is_irrelevant c.support_label) && contains c.evidence_id allowed_ids)
        candidates

  abbrev pub ids_of_candidates : List (Candidate F) → List Text
  ids_of_candidates candidates = map (λ c. c.evidence_id) candidates

abbrev found_or : Option Evidence → List Evidence → List Evidence
found_or none later = later
found_or (some e) later = e ∷ later

-- `[by_id[i] for i in ids if i in by_id]`
unfoldable pub members_in : Dict Evidence → List Text → List Evidence
members_in by_id [] = []
members_in by_id (i ∷ ids) = found_or (get i by_id) (members_in by_id ids)

module _ {F V : Type 0} (ops : FloatOps F) (ports : TimelinePorts F V) where
  abbrev pub search_first : SearchScope → List V → Result (List (Candidate F))
  search_first scope [] = raise (other (codes "embedding provider returned no query vector"))
  search_first scope (v ∷ vs) = ports.search_vector v scope ports.vector_top_k

  abbrev pub search_lexical : Text → SearchScope → Result (List (Candidate F))
  search_lexical query scope = ports.search_lexical query scope ports.lexical_top_k

  abbrev pub search_semantic : Text → SearchScope → Result (List (Candidate F))
  search_semantic query scope = ports.embed (query ∷ []) >>= search_first scope

  unfoldable pub recall : Text → SearchScope → List Warning → Result (Warned F)
  unfolding combine_channels
  recall query scope warnings =
      combine_channels ops ports.rrf_k ports.fusion_top_k (search_lexical query scope)
        (search_semantic query scope) warnings

  abbrev pub taken : List (Candidate F) → List Warning → List (Candidate F) → Warned F
  taken candidates warnings sanitized =
      if is_empty sanitized
      then (candidates, warnings ++ rerank_fallback_warning ∷ [])
      else (take ports.rerank_top_k sanitized, warnings)

  abbrev pub reranked :
      List (Candidate F) → List Warning → Result (List (Candidate F)) → Result (Warned F)
  reranked candidates warnings (ok items) = do
    sanitized ← sanitize_reranked items candidates (ids_of_candidates candidates)
    ok (taken candidates warnings sanitized)
  reranked candidates warnings (raise e) =
      if is_cancelled e then raise e else ok (candidates, warnings ++ rerank_warning e ∷ [])

  abbrev pub with_reranker :
      Option (Text → List (Candidate F) → Result (List (Candidate F)))
      → Text
      → List (Candidate F)
      → List Warning
      → Result (Warned F)
  with_reranker none query candidates warnings =
      ok (candidates, warnings ++ rerank_fallback_warning ∷ [])
  with_reranker (some rerank) query candidates warnings =
      reranked candidates warnings (rerank query candidates)

  unfoldable pub maybe_rerank : Text → List (Candidate F) → List Warning → Result (Warned F)
  unfolding sanitize_reranked
  maybe_rerank query candidates warnings =
      if is_empty candidates
      then ok (candidates, warnings)
      else with_reranker ports.reranker query candidates warnings

  -- The group with its summary, and the warnings after it.
  abbrev pub summarized :
      ResultGroup F → List Warning → Result (Option Text) → Result (ResultGroup F × List Warning)
  summarized group warnings (ok summary) = ok (record group { summary = summary }, warnings)
  summarized group warnings (raise e) =
      if is_cancelled e then raise e else ok (group, warnings ++ summary_warning e ∷ [])

  unfoldable pub summary_loop :
      (Text → Text → List Evidence → Result (Option Text))
      → Text
      → Dict Evidence
      → List (ResultGroup F)
      → List Warning
      → Result (List (ResultGroup F) × List Warning)
  unfolding members_in
  summary_loop summarize query by_id [] warnings = ok ([], warnings)
  summary_loop summarize query by_id (group ∷ groups) warnings = do
    shown ←
        summarized group warnings
          (summarize query group.group_id (members_in by_id group.evidence_ids))
    later ← summary_loop summarize query by_id groups shown.1
    ok (shown.0 ∷ later.0, later.1)

  abbrev pub with_summaries :
      Option (Text → Text → List Evidence → Result (Option Text))
      → Text
      → List (ResultGroup F)
      → List Evidence
      → List Warning
      → Result (List (ResultGroup F) × List Warning)
  with_summaries none query groups evidence warnings = ok (groups, warnings)
  with_summaries (some summarize) query groups evidence warnings =
      summary_loop summarize query (index_by (λ (e : Evidence). e.evidence_id) evidence) groups
        warnings

  unfoldable pub maybe_summarize :
      Text
      → List (ResultGroup F)
      → List Evidence
      → List Warning
      → Result (List (ResultGroup F) × List Warning)
  unfolding summary_loop
  maybe_summarize query groups evidence warnings =
      with_summaries ports.summary_provider query groups evidence warnings

  -- `_response`
  unfoldable pub respond :
      SearchRequest
      → Text
      → SearchScope
      → ReleaseInfo
      → List Evidence
      → List (ResultGroup F)
      → List Warning
      → Result (SearchResponse F)
  respond request request_id scope release evidence groups warnings = do
    overview ← ports.overview evidence
    ok (record {
      request_id = request_id;
      mode = timeline;
      query = request.query;
      scope_snapshot = scope;
      release = release;
      overview = overview;
      groups = groups;
      evidence = evidence;
      next_cursor = none;
      insufficiency = if is_empty evidence then some empty_insufficiency else none;
      warnings = warnings;
      classification_notice = none;
    })

  module _ (u : CharacterDatabase) where
    -- The timeline of the page of the evidence that `hydrate` returned.
    unfoldable pub paged_timeline : ℕ → List Evidence → Result (Timeline F)
    unfolding organize_timeline
    paged_timeline page_size evidence = do
      whole ← organize_timeline u {F = F} evidence
      organize_timeline u (take (min ports.final_top_k page_size) whole.evidence)

    -- from the hydration on
    unfoldable pub answer :
        SearchRequest
        → Text
        → SearchScope
        → ReleaseInfo
        → List Text
        → List (Candidate F)
        → List Warning
        → Result (SearchResponse F)
    unfolding hydrate paged_timeline maybe_summarize respond
    answer request request_id scope release allowed_ids candidates warnings = do
      hydration ← hydrate ports.get_by_ids candidates scope none (some allowed_ids)
      t ← paged_timeline request.page_size hydration.evidence
      shown ←
          if request.options.include_generated_summaries
          then maybe_summarize request.query t.groups t.evidence warnings
          else ok (t.groups, warnings)
      respond request request_id scope release t.evidence shown.0 shown.1

    unfoldable pub execute : SearchRequest → Text → Result (SearchResponse F)
    unfolding recall maybe_rerank relevant answer
    execute request request_id =
        if not (is_timeline request.mode)
        then raise (
            domain (codes "INVALID_REQUEST")
              (codes "TimelinePipeline only accepts timeline requests.") false)
        else do
          scope ← ports.resolve request.scope
          release ← ports.release_for scope
          recalled ← recall request.query scope []
          let allowed_ids = ids_of_candidates recalled.0
          ranked ← maybe_rerank request.query recalled.0 recalled.1
          answer request request_id scope release allowed_ids (relevant allowed_ids ranked.0)
              ranked.1
