-- ===== src/Pipelines/Timeline/Ports.antt =====
-- packages/marx_engels/pipelines/timeline.py and timeline_ports.py: the collaborators of
-- `TimelinePipeline` and the warnings it adds.
use marx_engels_insight_matc.Base.{ℕ, Text, codes, Bool, true, false, Option, List, []}
use marx_engels_insight_matc.Contracts.{
  SearchMode, exact, claim, timeline, thematic, SearchScope, SearchOverview, Candidate, Evidence,
  ReleaseInfo, Insufficiency, Warning,
}
use marx_engels_insight_matc.Errors.{Exception, Result}
use marx_engels_insight_matc.Retrieval.Records.{EvidenceRepository}
use marx_engels_insight_matc.Pipelines.Timeline.Recall.{exception_text, or_text}

-- The collaborators; `V` is the type of embeddings.
pub record TimelinePorts (F V : Type 0) : Type 0 where
  pub resolve : SearchScope → Result SearchScope
  pub release_for : SearchScope → Result ReleaseInfo
  pub search_lexical : Text → SearchScope → ℕ → Result (List (Candidate F))
  pub embed : List Text → Result (List V)
  pub search_vector : V → SearchScope → ℕ → Result (List (Candidate F))
  pub reranker : Option (Text → List (Candidate F) → Result (List (Candidate F)))
  pub get_by_ids : EvidenceRepository
  -- of the query, a group's identifier, and the group's evidence
  pub summary_provider : Option (Text → Text → List Evidence → Result (Option Text))
  pub overview : List Evidence → Result SearchOverview
  pub lexical_top_k : ℕ
  pub vector_top_k : ℕ
  pub fusion_top_k : ℕ
  pub rerank_top_k : ℕ
  pub final_top_k : ℕ
  pub rrf_k : ℕ

-- `_RERANK_FALLBACK_WARNING`
abbrev pub rerank_fallback_warning : Warning
rerank_fallback_warning = record {
  code = codes "RERANKER_UNAVAILABLE";
  message =
      codes
        "Relevance reranker is unavailable; using reciprocal-rank fusion as the relevance gate.";
  stage = codes "rerank";
}

abbrev pub rerank_warning : Exception → Warning
rerank_warning e = record {
  code = codes "RERANKER_UNAVAILABLE";
  message = or_text (exception_text e) (codes "Reranker failed; using fusion order.");
  stage = codes "rerank";
}

abbrev pub summary_warning : Exception → Warning
summary_warning e = record {
  code = codes "LLM_UNAVAILABLE";
  message = or_text (exception_text e) (codes "Stage summary unavailable.");
  stage = codes "summarize";
}

abbrev pub is_timeline : SearchMode → Bool
is_timeline timeline = true
is_timeline exact = false
is_timeline claim = false
is_timeline thematic = false

abbrev pub empty_insufficiency : Insufficiency
empty_insufficiency = record {
  code = codes "NO_TIMELINE_EVIDENCE";
  message = codes "在当前范围内未找到可用于时间序列组织的相关证据。";
  details = [];
}

-- Candidates and the warnings after them.
abbrev pub Warned : Type 0 → Type 0
Warned F = List (Candidate F) × List Warning
