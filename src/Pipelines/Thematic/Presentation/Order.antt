-- ===== src/Pipelines/Thematic/Presentation/Order.antt =====
-- The order of the members of a group and of the themes, and what a theme is shown with.
use marx_engels_insight_matc.Base.{
  ◌≡◌, ◌≢◌, refl, Text, strip, is_empty, All, Bool, true, false, not, ◌||◌, Option, none, some,
  List, [], map, arith, ◌⊎◌, inl, inr, Bool-cases,
}
use marx_engels_insight_matc.Base.Compare.{
  IsOrder, compare_text-IsOrder, compare_nat-IsOrder, lexicographic-IsOrder, descending-IsOrder,
  by_key-IsOrder,
}
use marx_engels_insight_matc.Base.Dict.{Dict, get}
use marx_engels_insight_matc.Base.Sort.{
  Ascending, sort_by-Ascending, count-sort_by, count-sort_texts,
}
use marx_engels_insight_matc.Base.Unique.{count, Distinct}
use marx_engels_insight_matc.Pipelines.Thematic.Types.{ClusterAssignment, ThemeLabel}
use marx_engels_insight_matc.Pipelines.Thematic.Presentation.{
  cited_evidence_ids_are_valid, looks_like_quotation, sort_key, compare_keys, sort_theme_clusters,
  member_order, order_group_members, in_unit_interval, Presentation, fallback, present_label,
  shown_summary, shown_confidence, resolve_theme_presentation,
}
use marx_engels_insight_matc.Retrieval.Floats.{FloatOps, IsOrdered}
use marx_engels_insight_matc.Retrieval.Rrf.{or_zero}
use marx_engels_insight_matc.Pipelines.Thematic.Presentation.Laws.{
  Citable, cited_evidence_ids_are_valid_iff,
}

module _ {F : Type 0} (ops : FloatOps F) where
  member_order-IsOrder : IsOrdered ops → (scores : Dict F) → IsOrder (member_order ops scores)
  member_order-IsOrder o scores =
      by_key-IsOrder (λ (i : Text). (or_zero ops (get i scores), i))
        (lexicographic-IsOrder (descending-IsOrder o) compare_text-IsOrder)

  compare_keys-IsOrder : IsOrdered ops → IsOrder (compare_keys ops)
  compare_keys-IsOrder o = lexicographic-IsOrder (descending-IsOrder o) (
      lexicographic-IsOrder (descending-IsOrder o)
        (lexicographic-IsOrder (descending-IsOrder compare_nat-IsOrder) compare_text-IsOrder))

  pub count-order_group_members :
      (ids : List Text) (scores : Dict F) (i : Text)
      → count i (order_group_members ops ids scores) ≡ count i ids
  unfolding order_group_members
  count-order_group_members ids scores i = count-sort_texts (member_order ops scores) i ids

  -- Where floats are ordered, the members of a group are those of the cluster, each as often, in
  -- ascending order of the key `(-score, evidence_id)`.
  pub order_group_members_lem :
      (ids : List Text) (scores : Dict F)
      → IsOrdered ops
      → Ascending (member_order ops scores) (order_group_members ops ids scores)
        × ((i : Text) → count i (order_group_members ops ids scores) ≡ count i ids)
  unfolding order_group_members
  order_group_members_lem ids scores o =
      (sort_by-Ascending (member_order-IsOrder o scores) ids, count-order_group_members ids scores)

  -- Where floats are ordered, the themes are put in ascending order of `(-maximum, -mean, -size, cluster_id)`, and none
  -- is lost or repeated.
  pub sort_theme_clusters_lem :
      (themes : List ClusterAssignment) (scores : Dict F)
      → IsOrdered ops
      → Ascending
          (λ a b. compare_keys ops (sort_key ops scores a) (sort_key ops scores b))
          (sort_theme_clusters ops themes scores)
        × ((i : Text)
            → count i (
                map
                  (λ (t : ClusterAssignment). t.cluster_id)
                  (sort_theme_clusters ops themes scores))
              ≡ count i (map (λ (t : ClusterAssignment). t.cluster_id) themes))
  unfolding sort_theme_clusters
  sort_theme_clusters_lem themes scores o = (
    sort_by-Ascending (by_key-IsOrder (sort_key ops scores) (compare_keys-IsOrder o)) themes,
    λ i.
        count-sort_by (λ (t : ClusterAssignment). t.cluster_id)
          (λ a b. compare_keys ops (sort_key ops scores a) (sort_key ops scores b)) i themes,
  )

  -- What may be shown of a generated label.
  pub record IsShown (label : ThemeLabel F) (cluster : ClusterAssignment) (p : Presentation ops)
      : Type 0 where
    pub display : p.display ≡ strip label.label
    pub not_blank : p.display ≢ []
    pub no_quotation : looks_like_quotation p.display ≡ false
    pub cited : All (Citable cluster.evidence_ids) label.evidence_ids
    pub once : Distinct label.evidence_ids
    pub some_cited : label.evidence_ids ≢ []
    pub summary : p.summary ≡ shown_summary ops label.summary
    pub confidence : (x : F) → p.confidence ≡ some x → in_unit_interval ops x ≡ true

  shown_confidence-in_unit_interval :
      (o : Option F) (x : F) → shown_confidence ops o ≡ some x → in_unit_interval ops x ≡ true
  shown_confidence-in_unit_interval none x h = cc
  shown_confidence-in_unit_interval (some y) x h = elim (Bool-cases (in_unit_interval ops y)) [
    | inl inside ↦ ground arith
    | inr outside ↦ absurd (ground arith)
  ]

  present_label-IsShown :
      (label : ThemeLabel F) (cluster : ClusterAssignment) (fallback_label : Text)
      → (present_label ops label cluster fallback_label ≡ fallback ops fallback_label)
        ⊎ ((present_label ops label cluster fallback_label).used_fallback ≡ false)
          × IsShown label cluster (present_label ops label cluster fallback_label)
  unfolding present_label
  present_label-IsShown label cluster fallback_label =
      elim (Bool-cases (
        is_empty (strip label.label)
        || looks_like_quotation (strip label.label)
        || not (cited_evidence_ids_are_valid label.evidence_ids cluster.evidence_ids))) [
          | inl bad ↦ inl (rw bad)
          | inr good ↦
              let (some_cited, once, cited) =
                (cited_evidence_ids_are_valid_iff cluster.evidence_ids label.evidence_ids).0
                  (ground arith) in
              rw good (
                inr (
                  refl,
                  record {
                    display = refl;
                    not_blank = ground arith;
                    no_quotation = ground arith;
                    cited = cited;
                    once = once;
                    some_cited = some_cited;
                    summary = refl;
                    confidence = shown_confidence-in_unit_interval label.confidence;
                  },
                ))
        ]

  -- A theme is shown with the fallback label, no summary and no confidence; or it is shown with
  -- the generated label, and then summaries were asked for, the label is neither blank nor a
  -- quotation, it cites evidence of this cluster only, without repetition, and a confidence
  -- that is shown is between 0 and 1.
  pub resolve_theme_presentation_lem :
      (label : Option (ThemeLabel F)) (cluster : ClusterAssignment) (include : Bool)
      (fallback_label : Text)
      → (resolve_theme_presentation ops label cluster include fallback_label
          ≡ fallback ops fallback_label)
        ⊎ ((include ≡ true)
            × ((l : ThemeLabel F) × (label ≡ some l)
                × IsShown l cluster
                    (resolve_theme_presentation ops label cluster include fallback_label)))
  unfolding resolve_theme_presentation
  resolve_theme_presentation_lem none cluster false fallback_label = inl refl
  resolve_theme_presentation_lem none cluster true fallback_label = inl refl
  resolve_theme_presentation_lem (some l) cluster false fallback_label = inl refl
  resolve_theme_presentation_lem (some l) cluster true fallback_label =
      choose (present_label-IsShown l cluster fallback_label)
    where
      choose :
          (present_label ops l cluster fallback_label ≡ fallback ops fallback_label)
            ⊎ ((present_label ops l cluster fallback_label).used_fallback ≡ false)
              × IsShown l cluster (present_label ops l cluster fallback_label)
          → (present_label ops l cluster fallback_label ≡ fallback ops fallback_label)
            ⊎ ((true ≡ true)
                × ((m : ThemeLabel F) × (some l ≡ some m)
                    × IsShown m cluster (present_label ops l cluster fallback_label)))
      choose (inl e) = inl e
      choose (inr (u, h)) = inr (refl, (l, refl, h))
