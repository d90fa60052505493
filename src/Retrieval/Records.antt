-- ===== src/Retrieval/Records.antt =====
-- packages/marx_engels/retrieval_core/records.py, and the port of ports.py that reads them.
use marx_engels_insight_matc.Base.{ℕ, Text, Bool, Option, List}
use marx_engels_insight_matc.Errors.{Result}

pub record AuthoritativeEvidenceRecord : Type 0 where
  pub evidence_id : Text
  pub verified_text : Text
  pub text_hash : Text
  pub verification_status : Text
  pub release_status : Text
  pub content_type : Text
  pub author_code : Text
  pub author : Text
  pub work_title : Text
  pub corpus_id : Text
  pub corpus_name : Text
  pub edition_id : Text
  pub edition_label : Text
  pub volume_id : Text
  pub volume_no : ℕ
  pub work_id : Text
  pub work_date_start : Option Text
  pub work_date_end : Option Text
  pub date_precision : Text
  pub corpus_release_status : Text
  pub edition_release_status : Text
  pub volume_release_status : Text
  pub work_release_status : Text
  pub work_verification_status : Text
  pub section_verification_status : Text
  pub printed_pages : List Text
  pub pdf_pages : List ℕ
  pub page_mapping_statuses : List Text
  pub prev_evidence_id : Option Text
  pub next_evidence_id : Option Text
  pub prev_is_released : Bool
  pub next_is_released : Bool

-- The mapping that `get_by_ids` returns: a missing key is an identifier that was not found.
abbrev pub Records : Type 0
Records = Text → Option AuthoritativeEvidenceRecord

-- `EvidenceRepository.get_by_ids`
abbrev pub EvidenceRepository : Type 0
EvidenceRepository = List Text → Result Records
