-- ===== src/Pipelines/Thematic/Judgments.antt =====
-- packages/marx_engels/pipelines/thematic_grouping.py: which candidates are relevant.
pub mod Laws
use Prim.Native.Nat.{Ordering}
use marx_engels_insight_matc.Base.{
  Text, codes, text_eq, Bool, true, false, not, ◌&&◌, ◌||◌, Option, none, some, is_some, List, [],
  ◌∷◌, ◌++◌, if◌then◌else◌,
}
use marx_engels_insight_matc.Base.Dict.{Dict, get, index_by}
use marx_engels_insight_matc.Base.Unique.{contains, unique_texts}
use marx_engels_insight_matc.Contracts.{Candidate, SupportLabel, irrelevant, same_label}
use marx_engels_insight_matc.Retrieval.Floats.{FloatOps}

unfoldable pub is_irrelevant : Option SupportLabel → Bool
is_irrelevant none = false
is_irrelevant (some label) = same_label label irrelevant

module _ {F : Type 0} where
  -- `rerank_score is not None and rerank_score < min_rerank_score`
  abbrev pub below : FloatOps F → Option F → F → Bool
  below ops none least = false
  below ops (some x) least = elim (ops.compare x least) [ Ordering.lt ↦ true | _ ↦ false ]

  unfoldable pub fails_relevance_gate :
      FloatOps F → Option SupportLabel → Option F → F → Bool → Bool
  unfolding is_irrelevant
  fails_relevance_gate ops support_label rerank_score min_rerank_score require_judgment =
      if is_irrelevant support_label
      then true
      else if below ops rerank_score min_rerank_score
      then true
      else require_judgment && not (is_some support_label) && not (is_some rerank_score)

  -- `original.model_copy(update={…})`
  unfoldable pub judged_candidate : Candidate F → Candidate F → Candidate F
  judged_candidate original judgment = record original {
    support_label = judgment.support_label;
    rerank_score = judgment.rerank_score;
    rank_reasons = unique_texts (original.rank_reasons ++ codes "rerank" ∷ []);
  }

  unfoldable pub judge_loop :
      Dict (Candidate F) → List Text → List (Candidate F) → List (Candidate F)
  unfolding judged_candidate
  judge_loop pool_by_id seen [] = []
  judge_loop pool_by_id seen (j ∷ scored) = elim (get j.evidence_id pool_by_id) [
    | none ↦ judge_loop pool_by_id seen scored
    | some original ↦ elim (contains j.evidence_id seen) [
      | true ↦ judge_loop pool_by_id seen scored
      | false ↦ judged_candidate original j ∷ judge_loop pool_by_id (j.evidence_id ∷ seen) scored
    ]
  ]

  unfoldable pub apply_relevance_judgments :
      List (Candidate F) → List (Candidate F) → List (Candidate F)
  unfolding judge_loop
  apply_relevance_judgments pool scored = judge_loop (index_by (λ c. c.evidence_id) pool) [] scored
