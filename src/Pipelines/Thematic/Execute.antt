-- ===== src/Pipelines/Thematic/Execute.antt =====
-- packages/marx_engels/pipelines/thematic.py: `ThematicPipeline.execute`. What a return passes to
-- `_response` is a `Draft`.
pub mod Drafts
pub mod Complete
pub mod Laws
pub mod Total
use marx_engels_insight_matc.Base.{
  ℕ, ◌-◌, min, Text, codes, is_empty, take, keep, length, Bool, true, false, not, ◌&&◌, Option,
  none, some, List, [], ◌∷◌, ◌++◌, map, if◌then◌else◌,
}
use marx_engels_insight_matc.Base.Dict.{Dict, get, index_by}
use marx_engels_insight_matc.Contracts.{
  SearchMode, exact, claim, timeline, thematic, SearchScope, SearchRequest, SearchResponse,
  SearchOverview, Candidate, Evidence, ReleaseInfo, ResultGroup, Insufficiency, Warning,
}
use marx_engels_insight_matc.Errors.{Exception, domain, Result, ok, raise, ◌>>=◌}
use marx_engels_insight_matc.Evidence.Service.{EvidenceHydrationResult, hydrate}
use marx_engels_insight_matc.Retrieval.Floats.{FloatOps}
use marx_engels_insight_matc.Pipelines.Thematic.Types.{SanitizedGrouping, classification_notice}
use marx_engels_insight_matc.Pipelines.Thematic.Judgments.{is_irrelevant}
use marx_engels_insight_matc.Pipelines.Thematic.Ports.{ThematicPorts, warning, warn_irrelevant}
use marx_engels_insight_matc.Pipelines.Thematic.Recall.{RecallOutcome, recall}
use marx_engels_insight_matc.Pipelines.Thematic.Relevance.{
  Relevance, relevance, apply_relevance_gate,
}
use marx_engels_insight_matc.Pipelines.Thematic.Steps.{
  ClusterOutcome, Built, cluster, group_ids, build_groups,
}

pub record Draft (F : Type 0) : Type 0 where
  pub evidence : List Evidence
  pub groups : List (ResultGroup F)
  pub warnings : List Warning
  pub insufficiency : Option Insufficiency

-- `_EMPTY_INSUFFICIENCY`
abbrev pub empty_insufficiency : Insufficiency
empty_insufficiency = record {
  code = codes "NO_RELEVANT_EVIDENCE";
  message = codes "在当前范围内未找到可组织的思想结构证据。";
  details = [];
}

-- `_CLUSTERING_INSUFFICIENCY`
abbrev pub clustering_insufficiency : Insufficiency
clustering_insufficiency = record {
  code = codes "THEMATIC_CLUSTERING_UNAVAILABLE";
  message = codes "证据向量不可用，无法组织主题结构。";
  details = [];
}

abbrev pub is_thematic : SearchMode → Bool
is_thematic thematic = true
is_thematic exact = false
is_thematic claim = false
is_thematic timeline = false

unfoldable pub recall_unavailable : Exception
recall_unavailable =
    domain (codes "VECTOR_INDEX_UNAVAILABLE")
      (codes "Lexical recall and vector search both failed.") true

abbrev found_or : Option Evidence → List Evidence → List Evidence
found_or none later = later
found_or (some e) later = e ∷ later

-- `[by_id[i] for i in ids if i in by_id]`
unfoldable pub found_in : Dict Evidence → List Text → List Evidence
found_in by_id [] = []
found_in by_id (i ∷ ids) = found_or (get i by_id) (found_in by_id ids)

abbrev pub by_evidence_id : List Evidence → Dict Evidence
by_evidence_id evidence = index_by (λ e. e.evidence_id) evidence

-- What survives the label test after the gate.
unfoldable pub surviving : List Evidence → List Evidence
surviving evidence = keep (λ e. not (is_irrelevant e.support_label)) evidence

unfoldable pub gate_warnings : EvidenceHydrationResult → List Warning → List Warning
unfolding surviving warn_irrelevant
gate_warnings hydration warnings =
    warn_irrelevant
      (if is_empty hydration.exclusions
        then warnings
        else warnings
          ++ warning (codes "EVIDENCE_GATE_PARTIAL")
              (codes "Some recalled candidates were excluded by the evidence gate.")
              (codes "evidence_gate")
            ∷ [])
      (length hydration.evidence - length (surviving hydration.evidence))

module _ {F : Type 0} where
  abbrev pub no_evidence : List Warning → Draft F
  no_evidence warnings = record {
    evidence = [];
    groups = [];
    warnings = warnings;
    insufficiency = some empty_insufficiency;
  }

  abbrev pub not_clustered : List Evidence → List Warning → Draft F
  not_clustered evidence warnings = record {
    evidence = evidence;
    groups = [];
    warnings = warnings;
    insufficiency = some clustering_insufficiency;
  }

module _ {F V : Type 0} (ops : FloatOps F) (ports : ThematicPorts F V) where
  -- from `grouping` on
  unfoldable pub arrange :
      SearchRequest
      → Dict F
      → List Evidence
      → List Warning
      → Option SanitizedGrouping
      → Result (Draft F)
  unfolding build_groups found_in
  arrange request scores evidence warnings none = ok (not_clustered evidence warnings)
  arrange request scores evidence warnings (some grouping) = do
    built ← build_groups ops ports request scores grouping warnings
    ok (record {
      evidence = found_in (by_evidence_id evidence) (group_ids built.groups);
      groups = built.groups;
      warnings = built.warnings;
      insufficiency = none;
    })

  -- from `hydrated_ids` on
  unfoldable pub organize : SearchRequest → Dict F → List Evidence → List Warning → Result (Draft F)
  unfolding cluster arrange
  organize request scores evidence warnings =
      if is_empty evidence then ok (no_evidence warnings) else do
        outcome ←
            cluster ops ports (map (λ (e : Evidence). e.evidence_id) evidence) evidence warnings
        if outcome.embeddings_unavailable
            then ok (not_clustered evidence outcome.warnings)
            else arrange request scores evidence outcome.warnings outcome.grouping

  -- from `allowed_ids` on, with the candidates that passed the relevance gate
  unfoldable pub hydrated :
      SearchRequest → SearchScope → Dict F → List (Candidate F) → List Warning → Result (Draft F)
  unfolding hydrate surviving gate_warnings found_in organize
  hydrated request scope scores candidates warnings =
      if is_empty candidates then ok (no_evidence warnings) else do
        let ids = map (λ (c : Candidate F). c.evidence_id) candidates
        hydration ← hydrate ports.get_by_ids candidates scope none (some ids)
        let ordered = found_in (by_evidence_id (surviving hydration.evidence)) ids
        organize request scores (take (min ports.config.final_top_k request.page_size) ordered)
            (gate_warnings hydration warnings)

  -- from the recall on
  unfoldable pub draft : SearchRequest → SearchScope → Result (Draft F)
  unfolding recall recall_unavailable relevance apply_relevance_gate hydrated
  draft request scope = do
    recalled ← recall ops ports request.query scope []
    if recalled.lexical_failed && recalled.vector_failed
        then raise recall_unavailable
        else if is_empty recalled.candidates
        then ok (no_evidence recalled.warnings)
        else do
          r ← relevance ops ports request.query recalled.candidates recalled.warnings
          let gated =
              apply_relevance_gate ops r.scored r.warnings ports.config.min_rerank_score r.judged
          hydrated request scope recalled.scores gated.0 gated.1

  -- `_response`
  unfoldable pub respond :
      SearchRequest → Text → SearchScope → ReleaseInfo → Draft F → Result (SearchResponse F)
  respond request request_id scope release d = do
    overview ← ports.build d.evidence
    ok (record {
      request_id = request_id;
      mode = thematic;
      query = request.query;
      scope_snapshot = scope;
      release = release;
      overview = overview;
      groups = d.groups;
      evidence = d.evidence;
      next_cursor = none;
      insufficiency = d.insufficiency;
      warnings = d.warnings;
      classification_notice = some classification_notice;
    })

  unfoldable pub execute : SearchRequest → Text → Result (SearchResponse F)
  unfolding draft respond
  execute request request_id =
      if not (is_thematic request.mode)
      then raise (
          domain (codes "INVALID_REQUEST") (codes "ThematicPipeline only accepts thematic mode.")
            false)
      else do
        scope ← ports.resolve request.scope
        release ← ports.snapshot_for scope
        d ← draft request scope
        respond request request_id scope release d
