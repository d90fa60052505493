-- ===== src/Contracts/Models.antt =====
-- packages/marx_engels/contracts/search.py. A score is a float: `F` is the type of floats.
use marx_engels_insight_matc.Base.{ℕ, Text, is_empty, leb, Bool, not, ◌&&◌, Option, List}
use marx_engels_insight_matc.Contracts.Enums.{
  SearchMode, ContentType, AuthorCode, DatePrecision, SupportLabel,
}

pub record SearchScope : Type 0 where
  pub corpus_ids : List Text
  pub edition_ids : List Text
  pub volume_ids : List Text
  pub work_ids : List Text
  pub authors : List AuthorCode
  pub content_types : List ContentType

pub record SearchOptions : Type 0 where
  pub include_generated_summaries : Bool
  pub include_counter_evidence : Bool

pub data SortOrder : Type 0 where
  relevance document_order : SortOrder

pub record SearchRequest : Type 0 where
  pub query : Text
  pub mode : SearchMode
  pub scope : SearchScope
  pub sort : Option SortOrder
  pub cursor : Option Text
  pub page_size : ℕ
  pub options : SearchOptions

pub record Candidate (F : Type 0) : Type 0 where
  pub evidence_id : Text
  pub retrieval_unit_ids : List Text
  pub channels : List Text
  pub exact_match_count : Option ℕ
  pub lexical_rank : Option ℕ
  pub lexical_score : Option F
  pub vector_rank : Option ℕ
  pub vector_score : Option F
  pub fusion_score : Option F
  pub rerank_score : Option F
  pub support_label : Option SupportLabel
  pub text_hash : Option Text
  pub exclusion_reasons : List Text
  pub rank_reasons : List Text

pub record Evidence : Type 0 where
  pub evidence_id : Text
  pub verified_text : Text
  pub content_type : ContentType
  pub author : Text
  pub work_title : Text
  pub corpus_name : Text
  pub edition_label : Text
  pub volume_no : ℕ
  pub work_date_start : Option Text
  pub work_date_end : Option Text
  pub date_precision : DatePrecision
  pub printed_pages : List Text
  pub pdf_pages : List ℕ
  pub prev_evidence_id : Option Text
  pub next_evidence_id : Option Text
  pub match_type : Text
  pub support_label : Option SupportLabel
  pub rank_reasons : List Text
  pub exact_match_count : Option ℕ
  pub match_offsets : List ℕ

-- The constraints `min_length=1` and `ge=1` that pydantic checks when an `Evidence` is built.
unfoldable pub accepts_evidence : Evidence → Bool
accepts_evidence e = not (is_empty e.verified_text) && leb 1 e.volume_no

pub record ReleaseInfo : Type 0 where
  pub data_version : Text
  pub index_version : Option Text
  pub embedding_model : Option Text
  pub released_at : Option Text

pub record Warning : Type 0 where
  pub code : Text
  pub message : Text
  pub stage : Text

-- `details` is a dictionary of counts in every use.
pub record Insufficiency : Type 0 where
  pub code : Text
  pub message : Text
  pub details : List (Text × ℕ)

pub record SearchOverview : Type 0 where
  pub evidence_count : ℕ
  pub work_count : ℕ
  pub volume_count : ℕ

pub record ResultGroup (F : Type 0) : Type 0 where
  pub group_id : Text
  pub label : Text
  pub group_type : Text
  pub evidence_ids : List Text
  pub summary : Option Text
  pub confidence : Option F
  pub date_start : Option Text
  pub date_end : Option Text
  pub date_precision : Option DatePrecision

pub record SearchResponse (F : Type 0) : Type 0 where
  pub request_id : Text
  pub mode : SearchMode
  pub query : Text
  pub scope_snapshot : SearchScope
  pub release : ReleaseInfo
  pub overview : SearchOverview
  pub groups : List (ResultGroup F)
  pub evidence : List Evidence
  pub next_cursor : Option Text
  pub insufficiency : Option Insufficiency
  pub warnings : List Warning
  pub classification_notice : Option Text
