-- ===== src/Pipelines/Thematic/Relevance.antt =====
-- packages/marx_engels/pipelines/thematic.py: the relevance step of `ThematicPipeline`, and its gate.
use marx_engels_insight_matc.Base.{
  ◌-◌, Text, codes, keep, length, Bool, true, false, not, List, [], ◌∷◌, ◌++◌, if◌then◌else◌,
}
use marx_engels_insight_matc.Contracts.{Candidate, Warning}
use marx_engels_insight_matc.Errors.{Result, ok, raise}
use marx_engels_insight_matc.Retrieval.Floats.{FloatOps}
use marx_engels_insight_matc.Pipelines.Thematic.Judgments.{
  fails_relevance_gate, apply_relevance_judgments,
}
use marx_engels_insight_matc.Pipelines.Thematic.Ports.{
  ThematicPorts, is_hard, warning, warn_irrelevant,
}

-- The candidates, whether the stage judged them, and the warnings.
pub record Relevance (F : Type 0) : Type 0 where
  pub scored : List (Candidate F)
  pub judged : Bool
  pub warnings : List Warning

-- The candidates after the gate, and the warnings.
unfoldable pub apply_relevance_gate :
    {F : Type 0}
    → FloatOps F
    → List (Candidate F)
    → List Warning
    → F
    → Bool
    → List (Candidate F) × List Warning
unfolding fails_relevance_gate warn_irrelevant
apply_relevance_gate ops candidates warnings min_rerank_score require_judgment =
    let relevant =
      keep
        (λ c. not (
          fails_relevance_gate ops c.support_label c.rerank_score min_rerank_score
            require_judgment))
        candidates in
    (relevant, warn_irrelevant warnings (length candidates - length relevant))

module _ {F V : Type 0} (ops : FloatOps F) (ports : ThematicPorts F V) where
  abbrev pub relevance_of :
      List (Candidate F) → List Warning → Result (List (Candidate F)) → Result (Relevance F)
  relevance_of candidates warnings (ok scored) = ok (record {
    scored = apply_relevance_judgments candidates scored;
    judged = true;
    warnings = warnings;
  })
  relevance_of candidates warnings (raise e) =
      if is_hard e
      then raise e
      else ok (record {
        scored = candidates;
        judged = false;
        warnings =
            warnings
            ++ warning (codes "RERANKER_UNAVAILABLE")
                (codes "Relevance reranking failed; returning fusion ranking.") (codes "relevance")
              ∷ [];
      })

  unfoldable pub relevance : Text → List (Candidate F) → List Warning → Result (Relevance F)
  unfolding apply_relevance_judgments
  relevance query candidates warnings =
      relevance_of candidates warnings (ports.score query candidates)
