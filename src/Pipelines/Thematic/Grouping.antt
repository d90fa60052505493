-- ===== src/Pipelines/Thematic/Grouping.antt =====
-- packages/marx_engels/pipelines/thematic_grouping.py: which evidence belongs to which theme.
pub mod Suffixes
pub mod Members
pub mod Exclusive
use marx_engels_insight_matc.Base.{
  ℕ, zero, suc, ◌+◌, Text, codes, text_eq, strip, is_empty, length, keep, Bool, true, false, not,
  ◌&&◌, ◌||◌, Option, none, some, List, [], ◌∷◌, ◌++◌, map, if◌then◌else◌,
}
use marx_engels_insight_matc.Base.Decimal.{to_decimal}
use marx_engels_insight_matc.Base.Unique.{contains, unique_texts}
use marx_engels_insight_matc.Pipelines.Thematic.Types.{
  ClusterAssignment, SanitizedGrouping, other_related_group_id,
}

-- `_unique_keep_order`, and `list(dict.fromkeys(values))`
unfoldable pub unique_keep_order : List Text → List Text
unfolding unique_texts
unique_keep_order = unique_texts

-- `f"{cluster_id}_{suffix}"`
unfoldable pub suffixed : Text → ℕ → Text
suffixed cluster_id suffix = cluster_id ++ (codes "_" ++ to_decimal suffix)

-- The `while` loop, from `suffix` on; `none` only if the fuel runs out.
unfoldable pub dedupe_from : ℕ → Text → List Text → ℕ → Option Text
dedupe_from zero cluster_id seen suffix = none
dedupe_from (suc fuel) cluster_id seen suffix = elim (contains (suffixed cluster_id suffix) seen) [
  | true ↦ dedupe_from fuel cluster_id seen (suffix + 1)
  | false ↦ some (suffixed cluster_id suffix)
]

abbrev pub or_id : Option Text → Text → Text
or_id none t = t
or_id (some s) t = s

-- Of one suffix more than there are names in use, one is free.
unfoldable pub dedupe_cluster_id : Text → List Text → Text
unfolding dedupe_from suffixed
dedupe_cluster_id cluster_id seen =
    or_id (dedupe_from (suc (length seen)) cluster_id seen 2) cluster_id

-- The inner loop: what is allowed and not yet claimed, in order.
unfoldable pub valid_members : List Text → List Text → List Text → List Text
valid_members allowed claimed [] = []
valid_members allowed claimed (i ∷ ids) = elim (not (contains i allowed) || contains i claimed) [
  | true ↦ valid_members allowed claimed ids
  | false ↦ i ∷ valid_members allowed (i ∷ claimed) ids
]

-- The loop over the assignments: the themes, and the set `claimed` at its end.
pub record Claims : Type 0 where
  pub themes : List ClusterAssignment
  pub claimed : List Text

abbrev skipped : Text → Bool
skipped cluster_id = is_empty cluster_id || text_eq cluster_id other_related_group_id

abbrev theme_id : Text → List Text → Text
theme_id cluster_id seen =
    if contains cluster_id seen then dedupe_cluster_id cluster_id seen else cluster_id

unfoldable pub assign_loop : List Text → List Text → List Text → List ClusterAssignment → Claims
unfolding dedupe_cluster_id valid_members
assign_loop allowed claimed seen [] = record { themes = []; claimed = claimed }
assign_loop allowed claimed seen (a ∷ rest) =
    let cluster_id = strip a.cluster_id in
    let valid = valid_members allowed claimed (unique_keep_order a.evidence_ids) in
    elim (skipped cluster_id || is_empty valid) [
      | true ↦ assign_loop allowed claimed seen rest
      | false ↦
          let id = theme_id cluster_id seen in
          let later = assign_loop allowed (valid ++ claimed) (id ∷ seen) rest in
          record later { themes = record { cluster_id = id; evidence_ids = valid } ∷ later.themes }
    ]

unfoldable pub assign_exclusively : List ClusterAssignment → List Text → SanitizedGrouping
unfolding assign_loop unique_keep_order
assign_exclusively assignments allowed_ids =
    let allowed = unique_keep_order allowed_ids in
    let claims = assign_loop allowed [] [] assignments in
    record {
      themes = claims.themes;
      other_related_ids = keep (λ i. not (contains i claims.claimed)) allowed;
    }
