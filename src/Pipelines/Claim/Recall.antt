-- ===== src/Pipelines/Claim/Recall.antt =====
-- packages/marx_engels/pipelines/claim.py: the two channels of the recall, gathered with their
-- exceptions, and the errors that no fallback may hide. The ports return lists of candidates,
-- so the tests for another payload are left out.
pub mod Laws
use marx_engels_insight_matc.Base.{
  ℕ, Text, codes, is_empty, Bool, true, false, not, ◌&&◌, Option, none, some, List, [], ◌∷◌, ◌++◌,
  if◌then◌else◌,
}
use marx_engels_insight_matc.Base.Unique.{contains}
use marx_engels_insight_matc.Contracts.{Candidate, Warning}
use marx_engels_insight_matc.Errors.{Exception, domain, other, cancelled, Result, ok, raise, ◌>>=◌}

unfoldable pub authoritative_error_codes : List Text
authoritative_error_codes =
    codes "SQLITE_UNAVAILABLE"
    ∷ codes "RELEASE_MISMATCH"
    ∷ codes "INVALID_SCOPE"
    ∷ codes "CORPUS_NOT_FOUND"
    ∷ codes "EVIDENCE_NOT_AVAILABLE"
    ∷ codes "STORAGE_NOT_CONFIGURED"
    ∷ []

-- What `_raise_if_blocking` raises again, and what no `except` clause of the pipeline recovers.
unfoldable pub is_blocking : Exception → Bool
unfolding authoritative_error_codes
is_blocking (domain code message retryable) = contains code authoritative_error_codes
is_blocking (other message) = false
is_blocking cancelled = true

abbrev pub is_cancelled : Exception → Bool
is_cancelled cancelled = true
is_cancelled (domain code message retryable) = false
is_cancelled (other message) = false

module _ {ℓ} {A : Type ℓ} where
  unfoldable pub raise_if_blocking : Result A → Result (Unit {0})
  raise_if_blocking (ok a) = ok tt
  raise_if_blocking (raise e) = if is_blocking e then raise e else ok tt

-- The hits of a channel, whether it failed, and the warnings.
pub record Channel (F : Type 0) : Type 0 where
  pub hits : List (Candidate F)
  pub failed : Bool
  pub warnings : List Warning

abbrev pub channel_warning : Text → Warning
channel_warning code = record {
  code = code;
  message = codes "A retrieval channel failed; continuing with remaining candidates.";
  stage = codes "recall";
}

pub record Recalled (F : Type 0) : Type 0 where
  pub lexical : List (Candidate F)
  pub vector : List (Candidate F)
  pub warnings : List Warning

unfoldable pub channels_unavailable : Exception
channels_unavailable =
    domain (codes "VECTOR_INDEX_UNAVAILABLE") (codes "Claim retrieval channels are unavailable.")
      true

module _ {F : Type 0} where
  unfoldable pub optional_channel : Result (List (Candidate F)) → List Warning → Text → Channel F
  optional_channel (ok hits) warnings code = record {
    hits = hits;
    failed = false;
    warnings = warnings;
  }
  optional_channel (raise e) warnings code =
      if is_cancelled e
      then record { hits = []; failed = false; warnings = warnings }
      else record { hits = []; failed = true; warnings = warnings ++ channel_warning code ∷ [] }

  -- `_recall`, from the results of both channels on
  unfoldable pub combine_channels :
      Result (List (Candidate F)) → Result (List (Candidate F)) → List Warning → Result (Recalled F)
  unfolding raise_if_blocking optional_channel channels_unavailable
  combine_channels lexical_result vector_result warnings = do
    _ ← raise_if_blocking lexical_result
    _ ← raise_if_blocking vector_result
    let lexical = optional_channel lexical_result warnings (codes "LEXICAL_UNAVAILABLE")
    let vector = optional_channel vector_result lexical.warnings (codes "VECTOR_UNAVAILABLE")
    if lexical.failed && vector.failed
        then raise channels_unavailable
        else ok
            (record { lexical = lexical.hits; vector = vector.hits; warnings = vector.warnings })
