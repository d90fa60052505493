-- ===== src/Tests/Retrieval.antt =====
-- Runs of the retrieval units and of the rank fusion.
use marx_engels_insight_matc.Base.{
  ℕ, ◌≡◌, refl, Text, codes, text_eq, concat, All, List, [], ◌∷◌, map, arith,
}
use marx_engels_insight_matc.Base.Dict.{Dict, keys}
use marx_engels_insight_matc.Base.Unique.{contains, Distinct}
use marx_engels_insight_matc.Errors.{ok}
use marx_engels_insight_matc.Retrieval.Units.{
  RetrievalUnitSpec, split_retrieval_unit_texts, retrieval_units_for_passage,
}
use marx_engels_insight_matc.Retrieval.Units.Laws.{IsSplit, split_retrieval_unit_texts-IsSplit}
use marx_engels_insight_matc.Retrieval.Units.Passage.{
  unit_ids, Numbered, retrieval_units_for_passage_lem,
}
use marx_engels_insight_matc.Retrieval.Rrf.{reciprocal_rank_fusion}
use marx_engels_insight_matc.Retrieval.Rrf.Laws.{IsFusion, reciprocal_rank_fusion-IsFusion}
use marx_engels_insight_matc.Tests.Samples.{thousandths}

abbrev passage : Text
passage = codes "Workers unite. You have a world to win."

split_retrieval_unit_texts-IsSplit_example :
    (chunks : List Text) × (split_retrieval_unit_texts passage 16 ≡ ok chunks)
    × IsSplit 16 passage chunks
split_retrieval_unit_texts-IsSplit_example =
    split_retrieval_unit_texts-IsSplit passage 16 (omega arith)

retrieval_units_for_passage_lem_example :
    (units : List RetrievalUnitSpec) × (retrieval_units_for_passage
        (λ t. t)
        (codes "ev-1")
        passage
        16
      ≡ ok units)
    × (concat (map (λ (u : RetrievalUnitSpec). u.search_text) units) ≡ passage)
    × Distinct (unit_ids units)
    × Numbered 1 units
    × All (λ u. (u.evidence_id ≡ codes "ev-1") × (u.search_text_hash ≡ u.search_text)) units
retrieval_units_for_passage_lem_example =
    retrieval_units_for_passage_lem (λ t. t) (codes "ev-1") passage 16 (omega arith)

abbrev rankings : List (List Text)
rankings = (codes "a" ∷ codes "b" ∷ []) ∷ (codes "b" ∷ codes "c" ∷ []) ∷ []

reciprocal_rank_fusion-IsFusion_example :
    (scores : Dict ℕ) × (reciprocal_rank_fusion thousandths rankings 60 ≡ ok scores)
    × IsFusion thousandths 60 rankings scores
reciprocal_rank_fusion-IsFusion_example =
    reciprocal_rank_fusion-IsFusion thousandths rankings 60 (omega arith)

abbrev fused : Dict ℕ
fused = (codes "a", 16) ∷ (codes "b", 32) ∷ (codes "c", 16) ∷ []

fused-Distinct : Distinct (keys fused)
unfolding contains text_eq
fused-Distinct = (refl, (refl, (refl, tt)))
