-- ===== src/Pipelines/Claim/Pipeline.antt =====
-- packages/marx_engels/pipelines/claim.py: the recall, rerank and classify steps of `ClaimPipeline`.
-- The list of warnings is passed from step to step, and the gather of two coroutines is their two
-- results.

use marx_engels_insight_matc.Base.{
  ℕ, Text, codes, is_empty, is_some, keep, length, Bool, true, false, Option, none, some, List, [],
  ◌∷◌, ◌++◌, map, if◌then◌else◌,
}
use marx_engels_insight_matc.Base.Dict.{Dict}
use marx_engels_insight_matc.Base.Unique.{contains}
use marx_engels_insight_matc.Contracts.{
  SearchMode, exact, claim, timeline, thematic, SearchScope, SearchOverview, Candidate, Evidence,
  ReleaseInfo, Warning, SupportLabel, same_label,
}
use marx_engels_insight_matc.Errors.{Exception, domain, other, cancelled, Result, ok, raise, ◌>>=◌}
use marx_engels_insight_matc.Retrieval.Floats.{FloatOps}
use marx_engels_insight_matc.Retrieval.Records.{
  AuthoritativeEvidenceRecord, Records, EvidenceRepository,
}
use marx_engels_insight_matc.Evidence.Gate.{
  EvidenceExclusionReason, id_not_found, not_verified, not_published, out_of_scope,
  text_hash_mismatch, pages_unavailable, metadata_unavailable, model_unauthorized_id,
  exact_query_required, exact_query_empty, no_exact_match,
}
use marx_engels_insight_matc.Evidence.Service.{EvidenceGateExclusion}
use marx_engels_insight_matc.Pipelines.Claim.Classification.{
  Answer, Labels, parse_classifications, apply_labels,
}
use marx_engels_insight_matc.Pipelines.Claim.Rerank.{Restricted, restrict_rerank}
use marx_engels_insight_matc.Pipelines.Claim.Recall.{Recalled, combine_channels, is_blocking}

-- A candidate of the classifier's payload: identifier, verified text, content type.
abbrev pub PayloadItem : Type 0
PayloadItem = Text × (Text × Text)

-- The collaborators; `V` is the type of embeddings.
pub record ClaimPorts (F V : Type 0) : Type 0 where
  pub resolve : SearchScope → Result SearchScope
  pub snapshot_for : SearchScope → Result ReleaseInfo
  pub search_lexical : Text → SearchScope → ℕ → Result (List (Candidate F))
  pub embed : List Text → Result (List V)
  pub search_vector : V → SearchScope → ℕ → Result (List (Candidate F))
  pub rerank : Text → List (Candidate F) → Result (List (Candidate F))
  pub generate_structured : Text → Text → List PayloadItem → Result (Dict Answer)
  pub get_by_ids : EvidenceRepository
  pub overview_for : List Text → Result SearchOverview
  pub rank_constant : ℕ
  pub lexical_top_k : ℕ
  pub vector_top_k : ℕ

pub record Classified (F : Type 0) : Type 0 where
  pub candidates : List (Candidate F)
  pub classified : Bool
  pub warnings : List Warning

abbrev pub rerank_warning : Warning
rerank_warning = record {
  code = codes "RERANKER_UNAVAILABLE";
  message = codes "Reranker failed; returning reciprocal-rank fusion order.";
  stage = codes "rerank";
}

-- `_classifier_unavailable_warning`
abbrev pub classifier_warning : Warning
classifier_warning = record {
  code = codes "CLASSIFIER_UNAVAILABLE";
  message = codes "Support classifier failed; returning evidence without labels.";
  stage = codes "classify";
}

abbrev pub reason_value : EvidenceExclusionReason → Text
reason_value id_not_found = codes "ID_NOT_FOUND"
reason_value not_verified = codes "NOT_VERIFIED"
reason_value not_published = codes "NOT_PUBLISHED"
reason_value out_of_scope = codes "OUT_OF_SCOPE"
reason_value text_hash_mismatch = codes "TEXT_HASH_MISMATCH"
reason_value pages_unavailable = codes "PAGES_UNAVAILABLE"
reason_value metadata_unavailable = codes "METADATA_UNAVAILABLE"
reason_value model_unauthorized_id = codes "MODEL_UNAUTHORIZED_ID"
reason_value exact_query_required = codes "EXACT_QUERY_REQUIRED"
reason_value exact_query_empty = codes "EXACT_QUERY_EMPTY"
reason_value no_exact_match = codes "NO_EXACT_MATCH"

abbrev pub exclusion_warning : EvidenceGateExclusion → Warning
exclusion_warning x = record {
  code = reason_value x.reason;
  message = codes "Evidence " ++ (x.evidence_id ++ codes " was excluded by the evidence gate.");
  stage = codes "evidence_gate";
}

-- `_load_authority_records`: an unknown error becomes a domain error.
abbrev authority_error : Exception → Exception
authority_error (domain code message retryable) = domain code message retryable
authority_error (other message) =
    domain (codes "SQLITE_UNAVAILABLE") (codes "Authoritative evidence records are unavailable.")
      true
authority_error cancelled = cancelled

abbrev restricted_records : List Text → Result Records → Result Records
restricted_records ids (raise e) = raise (authority_error e)
restricted_records ids (ok records) = ok (λ i. if contains i ids then records i else none)

unfoldable pub load_authority_records : EvidenceRepository → List Text → Result Records
load_authority_records repository evidence_ids =
    restricted_records evidence_ids (repository evidence_ids)

unfoldable pub count_label : SupportLabel → List Evidence → ℕ
count_label label evidence = length (keep (labelled label) evidence)
  where
    is_label : SupportLabel → Option SupportLabel → Bool
    is_label label none = false
    is_label label (some l) = same_label l label

    labelled : SupportLabel → Evidence → Bool
    labelled label e = is_label label e.support_label

abbrev pub is_claim : SearchMode → Bool
is_claim claim = true
is_claim exact = false
is_claim timeline = false
is_claim thematic = false

module _ {F V : Type 0} (ops : FloatOps F) (ports : ClaimPorts F V) where
  abbrev first_embedding : Text → SearchScope → List V → Result (List (Candidate F))
  first_embedding query scope [] = ok []
  first_embedding query scope (v ∷ vs) = ports.search_vector v scope ports.vector_top_k

  unfoldable pub vector_recall : Text → SearchScope → Result (List (Candidate F))
  vector_recall query scope = do
    embeddings ← ports.embed (query ∷ [])
    first_embedding query scope embeddings

  unfoldable pub recall : Text → SearchScope → List Warning → Result (Recalled F)
  unfolding vector_recall combine_channels
  recall query scope warnings =
      combine_channels (ports.search_lexical query scope ports.lexical_top_k)
        (vector_recall query scope) warnings

  abbrev pub reranked :
      List (Candidate F) → List Warning → Result (List (Candidate F)) → Result (Restricted F)
  reranked fused warnings (ok items) = ok (restrict_rerank fused items warnings)
  reranked fused warnings (raise e) =
      if is_blocking e
      then raise e
      else ok (record { ordered = fused; warnings = warnings ++ rerank_warning ∷ [] })

  unfoldable pub rerank : Text → List (Candidate F) → List Warning → Result (Restricted F)
  rerank query fused warnings =
      if is_empty fused
      then ok (record { ordered = []; warnings = warnings })
      else reranked fused warnings (ports.rerank query fused)

  abbrev pub unclassified : List (Candidate F) → List Warning → Classified F
  unclassified candidates warnings = record {
    candidates = candidates;
    classified = false;
    warnings = warnings;
  }

  abbrev pub labelled_with : List (Candidate F) → List Warning → Option Labels → Classified F
  labelled_with candidates warnings none =
      unclassified candidates (warnings ++ classifier_warning ∷ [])
  labelled_with candidates warnings (some labels) = record {
    candidates = apply_labels candidates labels;
    classified = true;
    warnings = warnings;
  }

  abbrev pub answered :
      List (Candidate F) → List Text → List Warning → Result (Dict Answer) → Result (Classified F)
  answered candidates classifiable warnings (raise e) =
      if is_blocking e
      then raise e
      else ok (unclassified candidates (warnings ++ classifier_warning ∷ []))
  answered candidates classifiable warnings (ok raw) =
      ok (labelled_with candidates warnings (parse_classifications raw classifiable))

  abbrev payload_item :
      Text → Option AuthoritativeEvidenceRecord → List PayloadItem → List PayloadItem
  payload_item i none items = items
  payload_item i (some r) items = (i, (r.verified_text, r.content_type)) ∷ items

  unfoldable pub payload : Records → List (Candidate F) → List PayloadItem
  payload records [] = []
  payload records (c ∷ cs) = payload_item c.evidence_id (records c.evidence_id) (payload records cs)

  unfoldable pub classify : Text → List (Candidate F) → List Warning → Result (Classified F)
  unfolding load_authority_records payload
  classify query candidates warnings =
      if is_empty candidates
      then ok (record { candidates = []; classified = true; warnings = warnings })
      else do
        records ← load_authority_records ports.get_by_ids (map (λ c. c.evidence_id) candidates)
        let classifiable = keep (λ c. is_some (records c.evidence_id)) candidates
        if is_empty classifiable
            then ok (unclassified candidates warnings)
            else answered candidates (map (λ c. c.evidence_id) classifiable) warnings (
                ports.generate_structured (codes "classify_claim_support") query
                  (payload records classifiable))
