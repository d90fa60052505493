-- ===== src/Evidence/Gate.antt =====
-- packages/marx_engels/evidence/service.py: the gate that a candidate must pass.
pub mod Laws
pub mod Reasons
use marx_engels_insight_matc.Base.{
  ℕ, Text, codes, text_eq, strip, is_empty, ltb, Bool, true, false, not, ◌&&◌, ◌||◌, Option, none,
  some, List, [], ◌∷◌, map, if◌then◌else◌, is_some,
}
use marx_engels_insight_matc.Base.Unique.{contains}
use marx_engels_insight_matc.Contracts.{
  SearchScope, Candidate, author_value, content_type_value, content_type_of, date_precision_of,
}
use marx_engels_insight_matc.Retrieval.Records.{AuthoritativeEvidenceRecord, Records}
use marx_engels_insight_matc.Evidence.Matching.{non_overlapping_match_offsets}

pub data EvidenceExclusionReason : Type 0 where
  id_not_found not_verified not_published out_of_scope text_hash_mismatch pages_unavailable :
      EvidenceExclusionReason
  metadata_unavailable model_unauthorized_id exact_query_required exact_query_empty :
      EvidenceExclusionReason
  no_exact_match : EvidenceExclusionReason

abbrev pub verified : Text
verified = codes "verified"

abbrev pub published : Text
published = codes "published"

-- `ids and x not in ids`
outside : Text → List Text → Bool
outside x ids = not (is_empty ids) && not (contains x ids)

unfoldable pub in_scope : AuthoritativeEvidenceRecord → SearchScope → Bool
unfolding outside
in_scope r scope =
    if not (contains r.corpus_id scope.corpus_ids)
    then false
    else if outside r.edition_id scope.edition_ids
    then false
    else if outside r.volume_id scope.volume_ids
    then false
    else if outside r.work_id scope.work_ids
    then false
    else if outside r.author_code (map author_value scope.authors)
    then false
    else is_empty scope.content_types
      || contains r.content_type (map content_type_value scope.content_types)

-- `not text.strip()`
unfoldable pub is_blank : Text → Bool
is_blank t = is_empty (strip t)

unfoldable pub metadata_available : AuthoritativeEvidenceRecord → Bool
metadata_available r =
    if not (text_eq r.corpus_release_status published)
    then false
    else if not (text_eq r.edition_release_status published)
    then false
    else if not (text_eq r.volume_release_status published)
    then false
    else if not (text_eq r.work_release_status published)
    then false
    else if not (text_eq r.work_verification_status verified)
    then false
    else if not (text_eq r.section_verification_status verified)
    then false
    else if is_blank r.verified_text
    then false
    else if is_blank r.author
    then false
    else if is_blank r.work_title
    then false
    else if is_blank r.corpus_name
    then false
    else if is_blank r.edition_label
    then false
    else if ltb r.volume_no 1
    then false
    else is_some (content_type_of r.content_type) && is_some (date_precision_of r.date_precision)

-- `candidate.text_hash != record.text_hash`, where the candidate may have none
abbrev pub hash_differs : Option Text → Text → Bool
hash_differs none t = true
hash_differs (some s) t = not (text_eq s t)

-- the last two tests, on the query of the caller
occurrence_failure : Text → Text → Option EvidenceExclusionReason
occurrence_failure text query =
    if is_empty query
    then some exact_query_empty
    else if is_empty (non_overlapping_match_offsets text query)
    then some no_exact_match
    else none

query_failure : Text → Option Text → Option EvidenceExclusionReason
query_failure text none = some exact_query_required
query_failure text (some query) = occurrence_failure text (strip query)

-- `allowed_pool is not None and evidence_id not in allowed_pool`
abbrev pub unauthorized : Option (List Text) → Text → Bool
unauthorized none i = false
unauthorized (some pool) i = not (contains i pool)

module _ {F : Type 0} where
  unfoldable pub is_exact_candidate : Candidate F → Bool
  is_exact_candidate c = contains (codes "exact") c.channels

  unfoldable pub is_vector_candidate : Candidate F → Bool
  is_vector_candidate c =
      contains (codes "vector") c.channels || is_some c.vector_rank || is_some c.vector_score

  unfoldable pub exact_gate_failure :
      Candidate F → AuthoritativeEvidenceRecord → Option Text → Option EvidenceExclusionReason
  unfolding query_failure occurrence_failure
  exact_gate_failure c r exact_query =
      if not (is_exact_candidate c) then none else query_failure r.verified_text exact_query

  -- the tests on the record that was found
  unfoldable pub record_failure :
      Candidate F
      → AuthoritativeEvidenceRecord
      → SearchScope
      → Option (List Text)
      → Option Text
      → Option EvidenceExclusionReason
  record_failure c r scope allowed_pool exact_query =
      if unauthorized allowed_pool c.evidence_id
      then some model_unauthorized_id
      else if not (text_eq r.verification_status verified)
      then some not_verified
      else if not (text_eq r.release_status published)
      then some not_published
      else if not (in_scope r scope)
      then some out_of_scope
      else if is_vector_candidate c && hash_differs c.text_hash r.text_hash
      then some text_hash_mismatch
      else if not (metadata_available r)
      then some metadata_unavailable
      else exact_gate_failure c r exact_query

  unfoldable pub first_gate_failure :
      Candidate F
      → Records
      → SearchScope
      → Option (List Text)
      → Option Text
      → Option EvidenceExclusionReason
  first_gate_failure c records scope allowed_pool exact_query = elim (records c.evidence_id) [
    | none ↦ some id_not_found
    | some r ↦ record_failure c r scope allowed_pool exact_query
  ]
