-- ===== src/Pipelines/Thematic/Presentation.antt =====
-- packages/marx_engels/pipelines/thematic_grouping.py: the order of themes and of their members,
-- and the label, summary and confidence that a theme is shown with.
pub mod Laws
pub mod Order
use Prim.Native.Nat.{Ordering}
use marx_engels_insight_matc.Base.{
  ℕ, Text, codes, text_eq, strip, is_empty, ltb, leb, length, Bool, true, false, not, ◌&&◌, ◌||◌,
  Option, none, some, List, [], ◌∷◌, ◌++◌, map, if◌then◌else◌,
}
use marx_engels_insight_matc.Base.Compare.{compare_text, compare_nat, lexicographic, descending}
use marx_engels_insight_matc.Base.Decimal.{to_decimal, last_code}
use marx_engels_insight_matc.Base.Dict.{Dict, get}
use marx_engels_insight_matc.Base.Sort.{sort_by}
use marx_engels_insight_matc.Base.Unique.{contains}
use marx_engels_insight_matc.Contracts.{ResultGroup}
use marx_engels_insight_matc.Pipelines.Thematic.Types.{
  ClusterAssignment, ThemeLabel, other_related_group_id, other_related_label,
  other_related_group_type, theme_group_type,
}
use marx_engels_insight_matc.Retrieval.Floats.{FloatOps}
use marx_engels_insight_matc.Retrieval.Rrf.{or_zero}

-- `f"主题 {index}"`
unfoldable pub fallback_theme_label : ℕ → Text
fallback_theme_label index = codes "主题 " ++ to_decimal index

-- the loop, with the set `seen`
valid_from : List Text → List Text → List Text → Bool
valid_from cluster_ids seen [] = true
valid_from cluster_ids seen (i ∷ claimed) =
    let rest = valid_from cluster_ids (i ∷ seen) claimed in
    if is_empty i || not (text_eq (strip i) i)
    then false
    else if not (contains i cluster_ids) || contains i seen
    then false
    else rest

unfoldable pub cited_evidence_ids_are_valid : List Text → List Text → Bool
unfolding valid_from
cited_evidence_ids_are_valid claimed cluster_ids =
    if is_empty claimed then false else valid_from cluster_ids [] claimed

abbrev first_code : Text → ℕ
first_code [] = 0
first_code (c ∷ s) = c

-- " “ 「 and " ” 」
abbrev quotes : List Text
quotes = codes "\"" ∷ codes "“" ∷ codes "「" ∷ []

abbrev closers : List Text
closers = codes "\"" ∷ codes "”" ∷ codes "」" ∷ []

unfoldable pub looks_like_quotation : Text → Bool
looks_like_quotation label =
    let stripped = strip label in
    leb 2 (length stripped)
    && contains (first_code stripped ∷ []) quotes
    && contains (last_code stripped ∷ []) closers

module _ {F : Type 0} (ops : FloatOps F) where
  -- `max(xs)`: the first of the largest
  unfoldable pub max_score : F → List F → F
  max_score best [] = best
  max_score best (x ∷ xs) = max_score (elim (ops.compare x best) [ Ordering.gt ↦ x | _ ↦ best ]) xs

  abbrev maximum : List F → F
  maximum [] = ops.zero
  maximum (x ∷ xs) = max_score x xs

  abbrev mean : List F → F
  mean [] = ops.zero
  mean (x ∷ xs) = ops.divide (ops.sum (x ∷ xs)) (length (x ∷ xs))

  abbrev pub ThemeKey : Type 0
  ThemeKey = F × (F × (ℕ × Text))

  -- The key, in ascending order of `(-maximum, -mean, -len(members), cluster_id)`.
  unfoldable pub sort_key : Dict F → ClusterAssignment → ThemeKey
  unfolding max_score
  sort_key scores cluster =
      let member_scores = map (λ i. or_zero ops (get i scores)) cluster.evidence_ids in
      (
        maximum member_scores,
        (mean member_scores, (length cluster.evidence_ids, cluster.cluster_id)),
      )

  abbrev pub compare_keys : ThemeKey → ThemeKey → Ordering
  compare_keys =
      lexicographic (descending ops.compare) (
        lexicographic (descending ops.compare)
          (lexicographic (descending compare_nat) compare_text))

  unfoldable pub sort_theme_clusters : List ClusterAssignment → Dict F → List ClusterAssignment
  sort_theme_clusters themes scores =
      sort_by (λ a b. compare_keys (sort_key scores a) (sort_key scores b)) themes

  -- the key `(-score, evidence_id)`
  abbrev pub member_order : Dict F → Text → Text → Ordering
  member_order scores i j =
      lexicographic (descending ops.compare) compare_text (or_zero ops (get i scores), i)
        (or_zero ops (get j scores), j)

  unfoldable pub order_group_members : List Text → Dict F → List Text
  order_group_members evidence_ids scores = sort_by (member_order scores) evidence_ids

  -- `0.0 <= confidence <= 1.0`
  unfoldable pub in_unit_interval : F → Bool
  in_unit_interval x =
      (elim (ops.compare ops.zero x) [ Ordering.gt ↦ false | _ ↦ true ])
      && (elim (ops.compare x ops.one) [ Ordering.gt ↦ false | _ ↦ true ])

  -- The display label, the summary, the confidence, and whether the fallback was used.
  pub record Presentation : Type 0 where
    pub display : Text
    pub summary : Option Text
    pub confidence : Option F
    pub used_fallback : Bool

  abbrev pub fallback : Text → Presentation
  fallback label = record {
    display = label;
    summary = none;
    confidence = none;
    used_fallback = true;
  }

  abbrev pub shown_summary : Option Text → Option Text
  shown_summary none = none
  shown_summary (some s) = if is_empty (strip s) then none else some (strip s)

  abbrev pub shown_confidence : Option F → Option F
  shown_confidence none = none
  shown_confidence (some x) = if in_unit_interval x then some x else none

  unfoldable pub present_label : ThemeLabel F → ClusterAssignment → Text → Presentation
  present_label label cluster fallback_label =
      let display = strip label.label in
      if is_empty display
        || looks_like_quotation display
        || not (cited_evidence_ids_are_valid label.evidence_ids cluster.evidence_ids)
      then fallback fallback_label
      else record {
        display = display;
        summary = shown_summary label.summary;
        confidence = shown_confidence label.confidence;
        used_fallback = false;
      }

  abbrev shown_label : Option (ThemeLabel F) → ClusterAssignment → Text → Presentation
  shown_label none cluster fallback_label = fallback fallback_label
  shown_label (some label) cluster fallback_label = present_label label cluster fallback_label

  unfoldable pub resolve_theme_presentation :
      Option (ThemeLabel F) → ClusterAssignment → Bool → Text → Presentation
  unfolding present_label
  resolve_theme_presentation label cluster include_generated_summaries fallback_label =
      if include_generated_summaries
      then shown_label label cluster fallback_label
      else fallback fallback_label

  unfoldable pub theme_result_group :
      ClusterAssignment → Text → Option Text → Option F → Dict F → ResultGroup F
  unfolding order_group_members
  theme_result_group cluster label summary confidence scores = record {
    group_id = cluster.cluster_id;
    label = label;
    group_type = theme_group_type;
    evidence_ids = order_group_members cluster.evidence_ids scores;
    summary = summary;
    confidence = confidence;
    date_start = none;
    date_end = none;
    date_precision = none;
  }

  unfoldable pub other_related_group : List Text → Dict F → Option (ResultGroup F)
  unfolding order_group_members
  other_related_group [] scores = none
  other_related_group (i ∷ ids) scores = some (record {
    group_id = other_related_group_id;
    label = other_related_label;
    group_type = other_related_group_type;
    evidence_ids = order_group_members (i ∷ ids) scores;
    summary = none;
    confidence = none;
    date_start = none;
    date_end = none;
    date_precision = none;
  })
