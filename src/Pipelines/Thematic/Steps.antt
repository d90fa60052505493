-- ===== src/Pipelines/Thematic/Steps.antt =====
-- packages/marx_engels/pipelines/thematic.py: the clustering and grouping steps of
-- `ThematicPipeline`.
pub mod Groups
pub mod Total
use marx_engels_insight_matc.Base.{
  ℕ, ◌+◌, ◌-◌, ◌==◌, ltb, Text, codes, is_some, any, concat, keep, length, Bool, true, false, not,
  ◌&&◌, Option, none, some, List, [], ◌∷◌, ◌++◌, map, if◌then◌else◌,
}
use marx_engels_insight_matc.Base.Dict.{Dict, get, put}
use marx_engels_insight_matc.Contracts.{SearchRequest, Candidate, Evidence, ResultGroup, Warning}
use marx_engels_insight_matc.Errors.{Exception, Result, ok, raise, ◌>>=◌}
use marx_engels_insight_matc.Retrieval.Floats.{FloatOps}
use marx_engels_insight_matc.Pipelines.Claim.Recall.{is_cancelled}
use marx_engels_insight_matc.Pipelines.Thematic.Types.{
  ClusterAssignment, SanitizedGrouping, ThemeLabel,
}
use marx_engels_insight_matc.Pipelines.Thematic.Grouping.{assign_exclusively}
use marx_engels_insight_matc.Pipelines.Thematic.Judgments.{
  fails_relevance_gate, apply_relevance_judgments,
}
use marx_engels_insight_matc.Pipelines.Thematic.Presentation.{
  fallback_theme_label, Presentation, resolve_theme_presentation, sort_theme_clusters,
  theme_result_group, other_related_group,
}
use marx_engels_insight_matc.Pipelines.Thematic.Ports.{
  ThematicPorts, is_hard, warning, has_code, warn_irrelevant,
}

pub record ClusterOutcome : Type 0 where
  pub grouping : Option SanitizedGrouping
  pub embeddings_unavailable : Bool
  pub warnings : List Warning

-- The vectors of the evidence, and the warnings.
pub record Vectors (V : Type 0) : Type 0 where
  pub by_id : Dict V
  pub warnings : List Warning

pub record Built (F : Type 0) : Type 0 where
  pub groups : List (ResultGroup F)
  pub warnings : List Warning

-- The generated label of a theme, where there is one, and the warnings.
pub record Labelled (F : Type 0) : Type 0 where
  pub label : Option (ThemeLabel F)
  pub warnings : List Warning

abbrev pub one_cluster : List Text → List ClusterAssignment
one_cluster allowed_ids =
    record { cluster_id = codes "cluster_01"; evidence_ids = allowed_ids } ∷ []

abbrev labeling_code : Text
labeling_code = codes "LABELING_UNAVAILABLE"

-- `if all(item.code != "LABELING_UNAVAILABLE" for item in warnings): warnings.append(…)`
unfoldable pub warn_labeling : List Warning → List Warning
unfolding has_code
warn_labeling warnings =
    if has_code labeling_code warnings
    then warnings
    else warnings
      ++ warning labeling_code (codes "Theme labeling failed; deterministic labels were used.")
          (codes "labeling")
        ∷ []

module _ {F : Type 0} where
  abbrev pub with_leftover : Option (ResultGroup F) → List (ResultGroup F) → List (ResultGroup F)
  with_leftover none groups = groups
  with_leftover (some g) groups = groups ++ g ∷ []

  -- `[evidence_id for group in groups for evidence_id in group.evidence_ids]`
  abbrev pub group_ids : List (ResultGroup F) → List Text
  group_ids groups = concat (map (λ g. g.evidence_ids) groups)

module _ {F V : Type 0} (ops : FloatOps F) (ports : ThematicPorts F V) where
  -- `{item.evidence_id: vector for item, vector in zip(evidence, vectors, strict=True)}`
  unfoldable pub zip_vectors : Dict V → List Evidence → List V → Dict V
  zip_vectors by_id [] vectors = by_id
  zip_vectors by_id (e ∷ evidence) [] = by_id
  zip_vectors by_id (e ∷ evidence) (v ∷ vectors) =
      zip_vectors (put e.evidence_id v by_id) evidence vectors

  abbrev pub no_vectors : List Warning → Vectors V
  no_vectors warnings = record {
    by_id = [];
    warnings =
        warnings
        ++ warning (codes "EMBEDDING_UNAVAILABLE")
            (codes "Evidence embeddings were unavailable for clustering.") (codes "clustering")
          ∷ [];
  }

  abbrev pub vectors_of : List Evidence → List Warning → Result (List V) → Result (Vectors V)
  vectors_of evidence warnings (ok vectors) =
      if length vectors == length evidence
      then ok (record { by_id = zip_vectors [] evidence vectors; warnings = warnings })
      else ok (no_vectors warnings)
  vectors_of evidence warnings (raise e) =
      if is_cancelled e then raise e else ok (no_vectors warnings)

  unfoldable pub evidence_vectors : List Evidence → List Warning → Result (Vectors V)
  unfolding zip_vectors
  evidence_vectors evidence warnings =
      vectors_of evidence warnings (ports.embed (map (λ (e : Evidence). e.verified_text) evidence))

  abbrev pub grouped : List ClusterAssignment → List Text → List Warning → ClusterOutcome
  grouped assignments allowed_ids warnings = record {
    grouping = some (assign_exclusively assignments allowed_ids);
    embeddings_unavailable = false;
    warnings = warnings;
  }

  abbrev pub clustered :
      List Text → List Warning → Result (List ClusterAssignment) → Result ClusterOutcome
  clustered allowed_ids warnings (ok assignments) = ok (grouped assignments allowed_ids warnings)
  clustered allowed_ids warnings (raise e) =
      if is_cancelled e
      then raise e
      else ok (
          grouped [] allowed_ids (
            warnings
            ++ warning (codes "CLUSTERING_UNAVAILABLE")
                (codes "Clustering failed; evidence is kept in other_related.") (codes "clustering")
              ∷ []))

  unfoldable pub cluster : List Text → List Evidence → List Warning → Result ClusterOutcome
  unfolding evidence_vectors assign_exclusively
  cluster allowed_ids evidence warnings =
      if ltb (length allowed_ids) ports.config.min_cluster_input
      then ok (grouped (one_cluster allowed_ids) allowed_ids warnings)
      else do
        vectors ← evidence_vectors evidence warnings
        if any (λ i. not (is_some (get i vectors.by_id))) allowed_ids
            then ok (record {
              grouping = none;
              embeddings_unavailable = true;
              warnings = vectors.warnings;
            })
            else clustered allowed_ids vectors.warnings (ports.cluster allowed_ids vectors.by_id)

  abbrev pub labelled : List Warning → Result (ThemeLabel F) → Result (Labelled F)
  labelled warnings (ok label) = ok (record { label = some label; warnings = warnings })
  labelled warnings (raise e) =
      if is_cancelled e
      then raise e
      else ok (record { label = none; warnings = warn_labeling warnings })

  abbrev pub asked :
      Option (Text → Text → List Text → Result (ThemeLabel F))
      → SearchRequest
      → ClusterAssignment
      → List Warning
      → Result (Labelled F)
  asked none request c warnings = ok (record { label = none; warnings = warnings })
  asked (some label) request c warnings =
      if request.options.include_generated_summaries
      then labelled warnings (label c.cluster_id request.query c.evidence_ids)
      else ok (record { label = none; warnings = warnings })

  unfoldable pub label_theme :
      SearchRequest → ClusterAssignment → List Warning → Result (Labelled F)
  unfolding warn_labeling
  label_theme request c warnings = asked ports.labeler request c warnings

  abbrev pub presentation : SearchRequest → ℕ → ClusterAssignment → Labelled F → Presentation ops
  presentation request index c l =
      resolve_theme_presentation ops l.label c request.options.include_generated_summaries
        (fallback_theme_label index)

  abbrev pub warned_fallback : Presentation ops → Labelled F → List Warning
  warned_fallback p l =
      if p.used_fallback && is_some l.label then warn_labeling l.warnings else l.warnings

  -- the loop over `enumerate(ordered_themes, start=1)`
  unfoldable pub build_loop :
      SearchRequest → Dict F → ℕ → List ClusterAssignment → List Warning → Result (Built F)
  unfolding label_theme resolve_theme_presentation theme_result_group fallback_theme_label
  build_loop request scores index [] warnings = ok (record { groups = []; warnings = warnings })
  build_loop request scores index (c ∷ themes) warnings = do
    l ← label_theme request c warnings
    let p = presentation request index c l
    later ← build_loop request scores (index + 1) themes (warned_fallback p l)
    ok (record later {
      groups = theme_result_group ops c p.display p.summary p.confidence scores ∷ later.groups;
    })

  unfoldable pub build_groups :
      SearchRequest → Dict F → SanitizedGrouping → List Warning → Result (Built F)
  unfolding build_loop sort_theme_clusters other_related_group
  build_groups request scores grouping warnings = do
    built ← build_loop request scores 1 (sort_theme_clusters ops grouping.themes scores) warnings
    ok (record built {
      groups =
          with_leftover (other_related_group ops grouping.other_related_ids scores) built.groups;
    })
