-- ===== src/Pipelines/Claim/Rerank.antt =====
-- packages/marx_engels/pipelines/claim.py: the order of the reranker, restricted to the pool.
pub mod Laws
use marx_engels_insight_matc.Base.{
  ℕ, Text, codes, Bool, true, false, not, Option, none, some, List, [], ◌∷◌, ◌++◌, map, keep,
  if◌then◌else◌,
}
use marx_engels_insight_matc.Base.Dict.{Dict, get, index_by}
use marx_engels_insight_matc.Base.Unique.{contains, unique_texts}
use marx_engels_insight_matc.Contracts.{Candidate, Warning}

abbrev pub unauthorized : Warning
unauthorized = record {
  code = codes "MODEL_UNAUTHORIZED_ID";
  message = codes "Reranker returned an evidence_id outside the candidate pool.";
  stage = codes "rerank";
}

-- The loop's variables: what is ordered, the identifiers seen, the warnings of this loop.
pub record Reranking (F : Type 0) : Type 0 where
  pub ordered : List (Candidate F)
  pub seen : List Text
  pub warnings : List Warning

-- What is returned, and the list of warnings that it appended to.
pub record Restricted (F : Type 0) : Type 0 where
  pub ordered : List (Candidate F)
  pub warnings : List Warning

module _ {F : Type 0} where
  -- `base.model_copy(update={…})`
  unfoldable pub reranked_candidate : Candidate F → Candidate F → Candidate F
  reranked_candidate base item = record base {
    rerank_score = item.rerank_score;
    rank_reasons = unique_texts (base.rank_reasons ++ (item.rank_reasons ++ codes "rerank" ∷ []));
  }

  unfoldable pub rerank_loop :
      Dict (Candidate F) → List Text → List Warning → List (Candidate F) → Reranking F
  unfolding reranked_candidate
  rerank_loop pool seen warnings [] = record { ordered = []; seen = seen; warnings = warnings }
  rerank_loop pool seen warnings (item ∷ reranked) = elim (get item.evidence_id pool) [
    | none ↦ rerank_loop pool seen (warnings ++ unauthorized ∷ []) reranked
    | some base ↦ elim (contains item.evidence_id seen) [
      | true ↦ rerank_loop pool seen warnings reranked
      | false ↦
          let later = rerank_loop pool (item.evidence_id ∷ seen) warnings reranked in
          record later { ordered = reranked_candidate base item ∷ later.ordered }
    ]
  ]

  unfoldable pub restrict_rerank :
      List (Candidate F) → List (Candidate F) → List Warning → Restricted F
  unfolding rerank_loop
  restrict_rerank original reranked warnings =
      let loop = rerank_loop (index_by (λ c. c.evidence_id) original) [] warnings reranked in
      record {
        ordered = loop.ordered ++ keep (λ c. not (contains c.evidence_id loop.seen)) original;
        warnings = loop.warnings;
      }
