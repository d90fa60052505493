-- ===== src/Pipelines/Thematic/Recall.antt =====
-- packages/marx_engels/pipelines/thematic.py: `_recall`, its two channels one after the other, and
-- `_merge_candidates`.
pub mod Laws
use marx_engels_insight_matc.Base.{
  ℕ, ◌+◌, Text, codes, take, Bool, true, false, Option, none, some, List, [], ◌∷◌, ◌++◌, map,
  if◌then◌else◌,
}
use marx_engels_insight_matc.Base.Dict.{Dict, get, put}
use marx_engels_insight_matc.Base.Unique.{unique_texts}
use marx_engels_insight_matc.Contracts.{SearchScope, Candidate, Warning}
use marx_engels_insight_matc.Errors.{other, Result, ok, raise, ◌>>=◌}
use marx_engels_insight_matc.Evidence.Service.{at_key}
use marx_engels_insight_matc.Retrieval.Floats.{FloatOps}
use marx_engels_insight_matc.Retrieval.Rrf.{reciprocal_rank_fusion, stable_score_order}
use marx_engels_insight_matc.Pipelines.Thematic.Ports.{ThematicPorts, is_hard, warning}
use marx_engels_insight_matc.Pipelines.Timeline.Recall.{order_loop}

-- The hits of a channel, whether it failed, and the warnings after it.
pub record ChannelOutcome (F : Type 0) : Type 0 where
  pub hits : List (Candidate F)
  pub failed : Bool
  pub warnings : List Warning

pub record RecallOutcome (F : Type 0) : Type 0 where
  pub candidates : List (Candidate F)
  pub scores : Dict F
  pub lexical_failed : Bool
  pub vector_failed : Bool
  pub warnings : List Warning

unfoldable pub append_channel : List Text → Text → List Text
append_channel channels channel = unique_texts (channels ++ channel ∷ [])

-- `candidate.text_hash or existing.text_hash`
abbrev hash_or : Option Text → Option Text → Option Text
hash_or none existing = existing
hash_or (some []) existing = existing
hash_or (some (c ∷ s)) existing = some (c ∷ s)

module _ {F : Type 0} where
  -- The `try` of a channel, with the warning of its `except` clauses.
  unfoldable pub recover_channel :
      Warning → List Warning → Result (List (Candidate F)) → Result (ChannelOutcome F)
  recover_channel w warnings (ok hits) =
      ok (record { hits = hits; failed = false; warnings = warnings })
  recover_channel w warnings (raise e) =
      if is_hard e
      then raise e
      else ok (record { hits = []; failed = true; warnings = warnings ++ w ∷ [] })

  -- the loop over `enumerate(lexical, start=1)`
  unfoldable pub lexical_loop : ℕ → Dict (Candidate F) → List (Candidate F) → Dict (Candidate F)
  unfolding append_channel
  lexical_loop rank merged [] = merged
  lexical_loop rank merged (c ∷ cs) =
      lexical_loop (rank + 1)
        (put c.evidence_id
          (record c {
            lexical_rank = some rank;
            channels = append_channel c.channels (codes "lexical");
          })
          merged)
        cs

  abbrev with_vector : ℕ → Candidate F → Option (Candidate F) → Candidate F
  with_vector rank c none = record c {
    vector_rank = some rank;
    channels = append_channel c.channels (codes "vector");
  }
  with_vector rank c (some existing) = record existing {
    vector_rank = some rank;
    vector_score = c.vector_score;
    text_hash = hash_or c.text_hash existing.text_hash;
    channels = append_channel existing.channels (codes "vector");
  }

  -- the loop over `enumerate(vector, start=1)`
  unfoldable pub vector_loop : ℕ → Dict (Candidate F) → List (Candidate F) → Dict (Candidate F)
  unfolding append_channel
  vector_loop rank merged [] = merged
  vector_loop rank merged (c ∷ cs) =
      vector_loop (rank + 1)
        (put c.evidence_id (with_vector rank c (get c.evidence_id merged)) merged) cs

  -- `{candidate.evidence_id: scores[candidate.evidence_id] for candidate in limited}`
  unfoldable pub limited_loop : Dict F → Dict F → List (Candidate F) → Result (Dict F)
  limited_loop scores limited [] = ok limited
  limited_loop scores limited (c ∷ cs) = do
    score ← at_key (get c.evidence_id scores)
    limited_loop scores (put c.evidence_id score limited) cs

module _ {F : Type 0} (ops : FloatOps F) where
  unfoldable pub merge_candidates :
      List (Candidate F) → List (Candidate F) → Dict F → Result (List (Candidate F))
  unfolding lexical_loop vector_loop order_loop
  merge_candidates lexical vector scores =
      order_loop (vector_loop 1 (lexical_loop 1 [] lexical) vector) scores
        (stable_score_order ops scores)

abbrev pub lexical_warning : Warning
lexical_warning =
    warning (codes "LEXICAL_UNAVAILABLE") (codes "Lexical recall failed; continuing without it.")
      (codes "recall")

abbrev pub vector_warning : Warning
vector_warning =
    warning (codes "VECTOR_UNAVAILABLE") (codes "Vector recall failed; continuing without it.")
      (codes "recall")

module _ {F V : Type 0} (ops : FloatOps F) (ports : ThematicPorts F V) where
  unfoldable pub lexical_recall : Text → SearchScope → List Warning → Result (ChannelOutcome F)
  unfolding recover_channel
  lexical_recall query scope warnings =
      recover_channel lexical_warning warnings
        (ports.search_lexical query scope ports.config.lexical_top_k)

  abbrev pub search_first : SearchScope → List V → Result (List (Candidate F))
  search_first scope [] = raise (other (codes "embedding provider returned no query vector"))
  search_first scope (v ∷ vs) = ports.search_vector v scope ports.config.vector_top_k

  unfoldable pub vector_recall : Text → SearchScope → List Warning → Result (ChannelOutcome F)
  unfolding recover_channel
  vector_recall query scope warnings =
      recover_channel vector_warning warnings (ports.embed (query ∷ []) >>= search_first scope)

  unfoldable pub recall : Text → SearchScope → List Warning → Result (RecallOutcome F)
  unfolding lexical_recall vector_recall merge_candidates limited_loop
  recall query scope warnings = do
    lexical ← lexical_recall query scope warnings
    vector ← vector_recall query scope lexical.warnings
    let lexical_ids = map (λ (c : Candidate F). c.evidence_id) lexical.hits
    let vector_ids = map (λ (c : Candidate F). c.evidence_id) vector.hits
    scores ← reciprocal_rank_fusion ops (lexical_ids ∷ vector_ids ∷ []) ports.config.rrf_k
    merged ← merge_candidates ops lexical.hits vector.hits scores
    let limited = take ports.config.fusion_top_k merged
    limited_scores ← limited_loop scores [] limited
    ok (record {
      candidates = limited;
      scores = limited_scores;
      lexical_failed = lexical.failed;
      vector_failed = vector.failed;
      warnings = vector.warnings;
    })
