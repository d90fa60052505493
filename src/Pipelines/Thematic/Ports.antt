-- ===== src/Pipelines/Thematic/Ports.antt =====
-- packages/marx_engels/pipelines/thematic.py and thematic_types.py: the collaborators of
-- `ThematicPipeline`, the warnings it adds, and the count of works and volumes.
use marx_engels_insight_matc.Base.{
  ℕ, ◌==◌, Text, codes, text_eq, is_empty, length, Bool, true, false, ◌||◌, Option, none, some,
  List, [], ◌∷◌, ◌++◌, map, if◌then◌else◌,
}
use marx_engels_insight_matc.Base.Decimal.{to_decimal}
use marx_engels_insight_matc.Base.Dict.{Dict}
use marx_engels_insight_matc.Base.Unique.{contains, unique_texts}
use marx_engels_insight_matc.Contracts.{
  SearchScope, SearchOverview, Candidate, Evidence, ReleaseInfo, Warning,
}
use marx_engels_insight_matc.Errors.{Exception, domain, other, cancelled, Result, ok, ◌>>=◌}
use marx_engels_insight_matc.Retrieval.Records.{
  AuthoritativeEvidenceRecord, Records, EvidenceRepository,
}
use marx_engels_insight_matc.Pipelines.Thematic.Types.{
  ThematicPipelineConfig, ThemeLabel, ClusterAssignment,
}

-- `V` is the type of embeddings.
pub record ThematicPorts (F V : Type 0) : Type 0 where
  pub resolve : SearchScope → Result SearchScope
  pub snapshot_for : SearchScope → Result ReleaseInfo
  pub search_lexical : Text → SearchScope → ℕ → Result (List (Candidate F))
  pub embed : List Text → Result (List V)
  pub search_vector : V → SearchScope → ℕ → Result (List (Candidate F))
  pub get_by_ids : EvidenceRepository
  pub score : Text → List (Candidate F) → Result (List (Candidate F))
  pub cluster : List Text → Dict V → Result (List ClusterAssignment)
  -- of a cluster's identifier, the query, and the cluster's evidence
  pub labeler : Option (Text → Text → List Text → Result (ThemeLabel F))
  pub build : List Evidence → Result SearchOverview
  pub config : ThematicPipelineConfig F

unfoldable pub hard_infra_codes : List Text
hard_infra_codes =
    codes "SQLITE_UNAVAILABLE" ∷ codes "RELEASE_MISMATCH" ∷ codes "STORAGE_NOT_CONFIGURED" ∷ []

-- What the `except` clauses of the recall and the relevance step raise again, or do not catch.
unfoldable pub is_hard : Exception → Bool
unfolding hard_infra_codes
is_hard (domain code message retryable) = contains code hard_infra_codes
is_hard (other message) = false
is_hard cancelled = true

abbrev pub warning : Text → Text → Text → Warning
warning code message stage = record { code = code; message = message; stage = stage }

-- `any(item.code == code for item in warnings)`
unfoldable pub has_code : Text → List Warning → Bool
has_code code [] = false
has_code code (w ∷ warnings) = text_eq w.code code || has_code code warnings

unfoldable pub warn_irrelevant : List Warning → ℕ → List Warning
unfolding has_code
warn_irrelevant warnings dropped =
    if (dropped == 0) || has_code (codes "IRRELEVANT_FILTERED") warnings
    then warnings
    else warnings
      ++ warning (codes "IRRELEVANT_FILTERED")
          (to_decimal dropped
            ++ codes " irrelevant candidate(s) were excluded from thematic grouping.")
          (codes "relevance")
        ∷ []

abbrev counted_field :
    (AuthoritativeEvidenceRecord → Text)
    → Option AuthoritativeEvidenceRecord
    → List Text
    → List Text
counted_field field none later = later
counted_field field (some r) later = field r ∷ later

-- `{records[item.evidence_id].field for item in evidence if item.evidence_id in records}`, with
-- repetitions
unfoldable pub fields_of :
    (AuthoritativeEvidenceRecord → Text) → Records → List Evidence → List Text
fields_of field records [] = []
fields_of field records (e ∷ evidence) =
    counted_field field (records e.evidence_id) (fields_of field records evidence)

-- `CountOverviewProvider.build`
unfoldable pub count_overview : EvidenceRepository → List Evidence → Result SearchOverview
unfolding fields_of
count_overview repository evidence =
    if is_empty evidence
    then ok (record { evidence_count = 0; work_count = 0; volume_count = 0 })
    else do
      records ← repository (map (λ (e : Evidence). e.evidence_id) evidence)
      ok (record {
        evidence_count = length evidence;
        work_count = length (unique_texts (fields_of (λ r. r.work_id) records evidence));
        volume_count = length (unique_texts (fields_of (λ r. r.volume_id) records evidence));
      })
