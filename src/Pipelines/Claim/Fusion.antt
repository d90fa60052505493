-- ===== src/Pipelines/Claim/Fusion.antt =====
-- packages/marx_engels/pipelines/claim.py: the hits of both channels, merged by identifier and
-- put in the order of their fused scores.
pub mod Merging
pub mod Laws
use marx_engels_insight_matc.Base.{
  ℕ, zero, suc, ◌+◌, Text, codes, is_empty, keep, Bool, true, false, not, Option, none, some, List,
  [], ◌∷◌, ◌++◌, map, if◌then◌else◌,
}
use marx_engels_insight_matc.Base.Dict.{Dict, get, put}
use marx_engels_insight_matc.Base.Unique.{unique_texts}
use marx_engels_insight_matc.Contracts.{Candidate}
use marx_engels_insight_matc.Errors.{Result, ok, raise, ◌>>=◌}
use marx_engels_insight_matc.Evidence.Service.{at_key}
use marx_engels_insight_matc.Retrieval.Floats.{FloatOps}
use marx_engels_insight_matc.Retrieval.Rrf.{reciprocal_rank_fusion, stable_score_order}

-- `rank or position`: zero is no rank
abbrev or_position : Option ℕ → ℕ → Option ℕ
or_position none position = some position
or_position (some zero) position = some position
or_position (some (suc n)) position = some (suc n)

-- `hash or other`: an empty text is no hash
abbrev or_hash : Option Text → Option Text → Option Text
or_hash none other = other
or_hash (some []) other = other
or_hash (some (c ∷ s)) other = some (c ∷ s)

module _ {F : Type 0} where
  unfoldable pub lexical_candidate : Candidate F → ℕ → F → Candidate F
  lexical_candidate c rank score = record c {
    channels = unique_texts (c.channels ++ codes "lexical" ∷ []);
    lexical_rank = or_position c.lexical_rank rank;
    fusion_score = some score;
  }

  unfoldable pub vector_candidate : Candidate F → ℕ → F → Candidate F
  vector_candidate c rank score = record c {
    channels = unique_texts (c.channels ++ codes "vector" ∷ []);
    vector_rank = or_position c.vector_rank rank;
    fusion_score = some score;
  }

  unfoldable pub merged_candidate : Candidate F → Candidate F → ℕ → F → Candidate F
  merged_candidate existing c rank score = record existing {
    channels = unique_texts (existing.channels ++ (c.channels ++ codes "vector" ∷ []));
    retrieval_unit_ids = unique_texts (existing.retrieval_unit_ids ++ c.retrieval_unit_ids);
    vector_rank = or_position c.vector_rank rank;
    vector_score = c.vector_score;
    text_hash = or_hash c.text_hash existing.text_hash;
    fusion_score = some score;
  }

  abbrev pub add_vector : Option (Candidate F) → Candidate F → ℕ → F → Candidate F
  add_vector none c rank score = vector_candidate c rank score
  add_vector (some existing) c rank score = merged_candidate existing c rank score

  -- the loops over `enumerate(hits, start=1)`
  unfoldable pub merge_lexical :
      Dict F → ℕ → List (Candidate F) → Dict (Candidate F) → Result (Dict (Candidate F))
  unfolding lexical_candidate
  merge_lexical scores rank [] merged = ok merged
  merge_lexical scores rank (c ∷ cs) merged = do
    score ← at_key (get c.evidence_id scores)
    merge_lexical scores (rank + 1) cs (put c.evidence_id (lexical_candidate c rank score) merged)

  unfoldable pub merge_vector :
      Dict F → ℕ → List (Candidate F) → Dict (Candidate F) → Result (Dict (Candidate F))
  unfolding vector_candidate merged_candidate
  merge_vector scores rank [] merged = ok merged
  merge_vector scores rank (c ∷ cs) merged = do
    score ← at_key (get c.evidence_id scores)
    merge_vector scores (rank + 1) cs
        (put c.evidence_id (add_vector (get c.evidence_id merged) c rank score) merged)

  unfoldable pub merge_by_id :
      List (Candidate F) → List (Candidate F) → Dict F → Result (Dict (Candidate F))
  unfolding merge_lexical merge_vector
  merge_by_id lexical vector scores = do
    merged ← merge_lexical scores 1 lexical []
    merge_vector scores 1 vector merged

  unfoldable pub fused_candidate : Candidate F → F → Candidate F
  fused_candidate c score = record c {
    fusion_score = some score;
    rank_reasons = unique_texts (c.rank_reasons ++ codes "rrf" ∷ []);
  }

  unfoldable pub fused_loop : Dict (Candidate F) → Dict F → List Text → Result (List (Candidate F))
  unfolding fused_candidate
  fused_loop merged scores [] = ok []
  fused_loop merged scores (i ∷ order) = elim (get i merged) [
    | none ↦ fused_loop merged scores order
    | some c ↦ do
      score ← at_key (get i scores)
      later ← fused_loop merged scores order
      ok (fused_candidate c score ∷ later)
  ]

  abbrev pub rankings_of : List (Candidate F) → List (Candidate F) → List (List Text)
  rankings_of lexical vector =
      keep (λ r. not (is_empty r))
        (map (λ c. c.evidence_id) lexical ∷ map (λ c. c.evidence_id) vector ∷ [])

module _ {F : Type 0} (ops : FloatOps F) where
  unfoldable pub fuse_candidates :
      List (Candidate F) → List (Candidate F) → ℕ → Result (List (Candidate F))
  unfolding merge_by_id fused_loop
  fuse_candidates lexical vector rank_constant =
      let rankings = rankings_of lexical vector in
      if is_empty rankings then ok [] else do
        scores ← reciprocal_rank_fusion ops rankings rank_constant
        merged ← merge_by_id lexical vector scores
        fused_loop merged scores (stable_score_order ops scores)
