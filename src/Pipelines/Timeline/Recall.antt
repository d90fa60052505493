-- ===== src/Pipelines/Timeline/Recall.antt =====
-- packages/marx_engels/pipelines/timeline.py: the recall of the timeline pipeline, the fusion of
-- its channels, and what is taken from the reranker.
pub mod Fused
pub mod Laws
use marx_engels_insight_matc.Base.{
  ℕ, Text, codes, is_empty, is_some, keep, take, or_else, Bool, true, false, not, ◌&&◌, ◌||◌,
  Option, none, some, List, [], ◌∷◌, ◌++◌, map, if◌then◌else◌,
}
use marx_engels_insight_matc.Base.Dict.{Dict, get, put, index_by}
use marx_engels_insight_matc.Base.Unique.{contains, unique_texts}
use marx_engels_insight_matc.Contracts.{Candidate, Warning}
use marx_engels_insight_matc.Errors.{Exception, domain, other, cancelled, Result, ok, raise, ◌>>=◌}
use marx_engels_insight_matc.Evidence.Service.{at_key}
use marx_engels_insight_matc.Retrieval.Floats.{FloatOps}
use marx_engels_insight_matc.Retrieval.Rrf.{reciprocal_rank_fusion, stable_score_order}

unfoldable pub authoritative_error_codes : List Text
authoritative_error_codes =
    codes "SQLITE_UNAVAILABLE"
    ∷ codes "RELEASE_MISMATCH"
    ∷ codes "INVALID_SCOPE"
    ∷ codes "CORPUS_NOT_FOUND"
    ∷ codes "STORAGE_NOT_CONFIGURED"
    ∷ []

unfoldable pub is_authoritative : Exception → Bool
unfolding authoritative_error_codes
is_authoritative (domain code message retryable) = contains code authoritative_error_codes
is_authoritative (other message) = false
is_authoritative cancelled = false

-- `str(exc)`
abbrev pub exception_text : Exception → Text
exception_text (domain code message retryable) = message
exception_text (other message) = message
exception_text cancelled = []

-- `text or fallback`
abbrev pub or_text : Text → Text → Text
or_text [] fallback = fallback
or_text (c ∷ s) fallback = c ∷ s

module _ {F : Type 0} where
  unfoldable pub reraise_authoritative : Result (List (Candidate F)) → Result (Unit {0})
  reraise_authoritative (ok hits) = ok tt
  reraise_authoritative (raise e) = if is_authoritative e then raise e else ok tt

  abbrev pub is_channel_failure : Result (List (Candidate F)) → Bool
  is_channel_failure (ok hits) = false
  is_channel_failure (raise e) = true

  -- `_recover_channel`: the hits, and the warnings that it adds
  abbrev pub recovered_hits : Result (List (Candidate F)) → List (Candidate F)
  recovered_hits (ok hits) = hits
  recovered_hits (raise e) = []

  abbrev pub recovery_warnings : Result (List (Candidate F)) → Text → Text → List Warning
  recovery_warnings (ok hits) code stage = []
  recovery_warnings (raise e) code stage =
      record { code = code; message = or_text (exception_text e) code; stage = stage } ∷ []

  -- `existing.model_copy(update={…})`
  unfoldable pub merge_candidate : Candidate F → Candidate F → Candidate F
  merge_candidate existing incoming = record existing {
    channels = unique_texts (existing.channels ++ incoming.channels);
    retrieval_unit_ids = unique_texts (existing.retrieval_unit_ids ++ incoming.retrieval_unit_ids);
    lexical_rank = or_else existing.lexical_rank incoming.lexical_rank;
    lexical_score = or_else existing.lexical_score incoming.lexical_score;
    vector_rank = or_else existing.vector_rank incoming.vector_rank;
    vector_score = or_else existing.vector_score incoming.vector_score;
    text_hash = hash_or existing.text_hash incoming.text_hash;
    support_label = or_else existing.support_label incoming.support_label;
    rank_reasons = unique_texts (existing.rank_reasons ++ incoming.rank_reasons);
  }
    where
      hash_or : Option Text → Option Text → Option Text
      hash_or none incoming = incoming
      hash_or (some []) incoming = incoming
      hash_or (some (c ∷ s)) incoming = some (c ∷ s)

  abbrev pub merged_with : Option (Candidate F) → Candidate F → Candidate F
  merged_with none c = c
  merged_with (some existing) c = merge_candidate existing c

  unfoldable pub merge_loop : Dict (Candidate F) → List (Candidate F) → Dict (Candidate F)
  unfolding merge_candidate
  merge_loop merged [] = merged
  merge_loop merged (c ∷ cs) =
      merge_loop (put c.evidence_id (merged_with (get c.evidence_id merged) c) merged) cs

  unfoldable pub ordered_candidate : Candidate F → F → Candidate F
  ordered_candidate c score = record c {
    fusion_score = some score;
    rank_reasons = unique_texts (c.rank_reasons ++ codes "rrf" ∷ []);
  }

  unfoldable pub order_loop : Dict (Candidate F) → Dict F → List Text → Result (List (Candidate F))
  unfolding ordered_candidate
  order_loop merged scores [] = ok []
  order_loop merged scores (i ∷ order) = do
    c ← at_key (get i merged)
    score ← at_key (get i scores)
    later ← order_loop merged scores order
    ok (ordered_candidate c score ∷ later)

  -- `source.model_copy(update={…})`
  unfoldable pub sanitized_candidate : Candidate F → Candidate F → Candidate F
  sanitized_candidate source item = record source {
    support_label = or_else item.support_label source.support_label;
    rerank_score = item.rerank_score;
    rank_reasons = unique_texts (source.rank_reasons ++ item.rank_reasons);
  }

  unfoldable pub sanitize_loop :
      Dict (Candidate F) → List Text → List Text → List (Candidate F) → Result (List (Candidate F))
  unfolding sanitized_candidate
  sanitize_loop by_id pool_ids seen [] = ok []
  sanitize_loop by_id pool_ids seen (item ∷ reranked) =
      elim (is_empty item.evidence_id
        || not (contains item.evidence_id pool_ids)
        || contains item.evidence_id seen) [
          | true ↦ sanitize_loop by_id pool_ids seen reranked
          | false ↦ do
            source ← at_key (get item.evidence_id by_id)
            later ← sanitize_loop by_id pool_ids (item.evidence_id ∷ seen) reranked
            ok (sanitized_candidate source item ∷ later)
        ]

  unfoldable pub sanitize_reranked :
      List (Candidate F) → List (Candidate F) → List Text → Result (List (Candidate F))
  unfolding sanitize_loop
  sanitize_reranked reranked original pool_ids =
      sanitize_loop (index_by (λ c. c.evidence_id) original) pool_ids [] reranked

unfoldable pub channels_unavailable : Exception
channels_unavailable =
    domain (codes "VECTOR_INDEX_UNAVAILABLE")
      (codes "Lexical and vector recall are unavailable; timeline cannot degrade safely.") true

module _ {F : Type 0} (ops : FloatOps F) where
  abbrev pub scores_of : List (List Text) → ℕ → Result (Dict F)
  scores_of rankings rank_constant =
      if is_empty rankings then ok [] else reciprocal_rank_fusion ops rankings rank_constant

  unfoldable pub fuse_candidates :
      List (Candidate F) → List (Candidate F) → ℕ → Result (List (Candidate F))
  unfolding merge_loop order_loop
  fuse_candidates lexical vector rank_constant = do
    let lexical_ids = map (λ (c : Candidate F). c.evidence_id) lexical
    let vector_ids = map (λ (c : Candidate F). c.evidence_id) vector
    let rankings = keep (λ ranking. not (is_empty ranking)) (lexical_ids ∷ vector_ids ∷ [])
    scores ← scores_of rankings rank_constant
    order_loop (merge_loop [] (lexical ++ vector)) scores (stable_score_order ops scores)

  -- `_recall`, from the results of both channels on: the candidates and the warnings
  unfoldable pub combine_channels :
      ℕ
      → ℕ
      → Result (List (Candidate F))
      → Result (List (Candidate F))
      → List Warning
      → Result (List (Candidate F) × List Warning)
  unfolding reraise_authoritative fuse_candidates channels_unavailable
  combine_channels rank_constant fusion_top_k lexical_result semantic_result warnings = do
    _ ← reraise_authoritative lexical_result
    _ ← reraise_authoritative semantic_result
    let lexical = recovered_hits lexical_result
    let vector = recovered_hits semantic_result
    let warned =
        (warnings
          ++ recovery_warnings lexical_result (codes "LEXICAL_INDEX_UNAVAILABLE")
              (codes "lexical recall"))
        ++ recovery_warnings semantic_result (codes "VECTOR_INDEX_UNAVAILABLE")
            (codes "vector recall")
    if is_channel_failure lexical_result && is_channel_failure semantic_result
        then raise channels_unavailable
        else if is_empty lexical && is_empty vector
        then ok ([], warned)
        else do
          fused ← fuse_candidates lexical vector rank_constant
          ok (take fusion_top_k fused, warned)
