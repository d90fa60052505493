-- ===== src/Pipelines/Thematic/Steps/Total.antt =====
-- The relevance, clustering and grouping steps return unless they are cancelled or meet a hard
-- error.
use marx_engels_insight_matc.Base.{
  ℕ, ◌+◌, ◌≡◌, refl, Text, is_some, ltb, any, length, ◌==◌, map, not, false, Option, none, some,
  List, [], ◌∷◌,
}
use marx_engels_insight_matc.Base.Dict.{Dict, get}
use marx_engels_insight_matc.Contracts.{SearchRequest, Candidate, Evidence, Warning}
use marx_engels_insight_matc.Errors.{Result, ok, raise}
use marx_engels_insight_matc.Errors.Laws.{Returns, if-Returns, bind-Returns}
use marx_engels_insight_matc.Retrieval.Floats.{FloatOps}
use marx_engels_insight_matc.Pipelines.Claim.Recall.Laws.{interrupted}
use marx_engels_insight_matc.Pipelines.Thematic.Types.{
  ClusterAssignment, SanitizedGrouping, ThemeLabel,
}
use marx_engels_insight_matc.Pipelines.Thematic.Presentation.{sort_theme_clusters}
use marx_engels_insight_matc.Pipelines.Thematic.Ports.{ThematicPorts}
use marx_engels_insight_matc.Pipelines.Thematic.Recall.Laws.{stops}
use marx_engels_insight_matc.Pipelines.Thematic.Relevance.{relevance, relevance_of}
use marx_engels_insight_matc.Pipelines.Thematic.Steps.{
  no_vectors, vectors_of, evidence_vectors, grouped, clustered, cluster, labelled, asked,
  label_theme, presentation, warned_fallback, build_loop, build_groups, warn_labeling,
}

module _ {F V : Type 0} (ops : FloatOps F) (ports : ThematicPorts F V) where
  relevance_of-Returns :
      (candidates : List (Candidate F)) (warnings : List Warning) (m : Result (List (Candidate F)))
      → stops m ≡ false
      → Returns (relevance_of ops ports candidates warnings m)
  relevance_of-Returns candidates warnings (ok scored) h = (_, refl)
  relevance_of-Returns candidates warnings (raise e) h =
      rw h (record { scored = candidates; judged = false; warnings = _ }, refl)

  pub relevance-Returns :
      (query : Text) (candidates : List (Candidate F)) (warnings : List Warning)
      → stops (ports.score query candidates) ≡ false
      → Returns (relevance ops ports query candidates warnings)
  unfolding relevance
  relevance-Returns query candidates warnings h =
      relevance_of-Returns candidates warnings (ports.score query candidates) h

  vectors_of-Returns :
      (evidence : List Evidence) (warnings : List Warning) (m : Result (List V))
      → interrupted m ≡ false
      → Returns (vectors_of ops ports evidence warnings m)
  vectors_of-Returns evidence warnings (ok vectors) h =
      if-Returns (length vectors == length evidence) (_, refl) (_, refl)
  vectors_of-Returns evidence warnings (raise e) h = rw h (no_vectors ops ports warnings, refl)

  clustered-Returns :
      (ids : List Text) (warnings : List Warning) (m : Result (List ClusterAssignment))
      → interrupted m ≡ false
      → Returns (clustered ops ports ids warnings m)
  clustered-Returns ids warnings (ok assignments) h = (_, refl)
  clustered-Returns ids warnings (raise e) h = rw h (grouped ops ports [] ids _, refl)

  pub cluster-Returns :
      (ids : List Text) (evidence : List Evidence) (warnings : List Warning)
      → ((texts : List Text) → interrupted (ports.embed texts) ≡ false)
      → ((allowed : List Text) (vectors : Dict V)
          → interrupted (ports.cluster allowed vectors) ≡ false)
      → Returns (cluster ops ports ids evidence warnings)
  unfolding cluster evidence_vectors
  cluster-Returns ids evidence warnings embeds clusters =
      if-Returns (ltb (length ids) ports.config.min_cluster_input) (_, refl)
        (bind-Returns (evidence_vectors ops ports evidence warnings) _
          (vectors_of-Returns evidence warnings
            (ports.embed (map (λ (e : Evidence). e.verified_text) evidence)) (embeds _))
          (λ vectors made.
            if-Returns (any (λ i. not (is_some (get i vectors.by_id))) ids) (_, refl)
              (clustered-Returns ids vectors.warnings (ports.cluster ids vectors.by_id)
                (clusters ids vectors.by_id))))

  labelled-Returns :
      (warnings : List Warning) (m : Result (ThemeLabel F))
      → interrupted m ≡ false
      → Returns (labelled ops ports warnings m)
  labelled-Returns warnings (ok label) h = (_, refl)
  labelled-Returns warnings (raise e) h =
      rw h (record { label = none; warnings = warn_labeling warnings }, refl)

  -- The labeler, where there is one, is not cancelled.
  abbrev pub Labels : Option (Text → Text → List Text → Result (ThemeLabel F)) → Type 0
  Labels none = Unit
  Labels (some label) =
      (cluster_id query : Text) (ids : List Text) → interrupted (label cluster_id query ids) ≡ false

  asked-Returns :
      (labeler : Option (Text → Text → List Text → Result (ThemeLabel F))) (request : SearchRequest)
      (c : ClusterAssignment) (warnings : List Warning)
      → Labels labeler
      → Returns (asked ops ports labeler request c warnings)
  asked-Returns none request c warnings h = (_, refl)
  asked-Returns (some label) request c warnings h =
      if-Returns request.options.include_generated_summaries
        (labelled-Returns warnings (label c.cluster_id request.query c.evidence_ids)
          (h c.cluster_id request.query c.evidence_ids))
        (_, refl)

  build_loop-Returns :
      (request : SearchRequest) (scores : Dict F) (index : ℕ) (themes : List ClusterAssignment)
      (warnings : List Warning)
      → Labels ports.labeler
      → Returns (build_loop ops ports request scores index themes warnings)
  unfolding build_loop label_theme
  build_loop-Returns request scores index [] warnings h = (_, refl)
  build_loop-Returns request scores index (c ∷ themes) warnings h =
      bind-Returns (label_theme ops ports request c warnings) _
        (asked-Returns ports.labeler request c warnings h)
        (λ l made.
          let warned = warned_fallback ops ports (presentation ops ports request index c l) l in
          bind-Returns (build_loop ops ports request scores (index + 1) themes warned) _
            (build_loop-Returns request scores (index + 1) themes warned h)
            (λ later built. (_, refl)))

  pub build_groups-Returns :
      (request : SearchRequest) (scores : Dict F) (grouping : SanitizedGrouping)
      (warnings : List Warning)
      → Labels ports.labeler
      → Returns (build_groups ops ports request scores grouping warnings)
  unfolding build_groups
  build_groups-Returns request scores grouping warnings h =
      let sorted = sort_theme_clusters ops grouping.themes scores in
      bind-Returns (build_loop ops ports request scores 1 sorted warnings) _
        (build_loop-Returns request scores 1 sorted warnings h) (λ built made. (_, refl))
