-- ===== src/Pipelines/Thematic/Types.antt =====
-- packages/marx_engels/pipelines/thematic_types.py
use marx_engels_insight_matc.Base.{ℕ, Text, codes, Option, List}

abbrev pub classification_notice : Text
classification_notice = codes "语义聚类不是唯一权威思想分类"

abbrev pub other_related_group_id : Text
other_related_group_id = codes "other_related"

abbrev pub other_related_label : Text
other_related_label = codes "其他相关"

abbrev pub other_related_group_type : Text
other_related_group_type = codes "other_related"

abbrev pub theme_group_type : Text
theme_group_type = codes "theme"

pub record ThematicPipelineConfig (F : Type 0) : Type 0 where
  pub lexical_top_k : ℕ
  pub vector_top_k : ℕ
  pub fusion_top_k : ℕ
  pub final_top_k : ℕ
  pub rrf_k : ℕ
  pub min_cluster_input : ℕ
  pub min_rerank_score : F

pub record ClusterAssignment : Type 0 where
  pub cluster_id : Text
  pub evidence_ids : List Text

pub record ThemeLabel (F : Type 0) : Type 0 where
  pub cluster_id : Text
  pub label : Text
  pub summary : Option Text
  pub evidence_ids : List Text
  pub confidence : Option F

pub record SanitizedGrouping : Type 0 where
  pub themes : List ClusterAssignment
  pub other_related_ids : List Text
