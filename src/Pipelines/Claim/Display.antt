-- ===== src/Pipelines/Claim/Display.antt =====
-- packages/marx_engels/pipelines/claim.py: the candidates that are shown, their groups by
-- support label, and the page.
pub mod ByLabels
pub mod Listing
pub mod Groups
pub mod Selection
pub mod Pages
use Prim.Native.Nat.{Ordering}
use marx_engels_insight_matc.Base.{
  ℕ, Text, codes, is_empty, is_some, take, keep, Bool, true, false, not, ◌&&◌, ◌||◌, Option, none,
  some, List, [], ◌∷◌, ◌++◌, map, if◌then◌else◌,
}
use marx_engels_insight_matc.Base.Compare.{compare_text, lexicographic, descending}
use marx_engels_insight_matc.Base.Dict.{Dict, get}
use marx_engels_insight_matc.Base.Sort.{sort_by}
use marx_engels_insight_matc.Base.Unique.{contains}
use marx_engels_insight_matc.Contracts.{
  Candidate, Evidence, ResultGroup, SupportLabel, direct, indirect, counter, context_only,
  irrelevant, same_label,
}
use marx_engels_insight_matc.Errors.{Result, ok, raise, other, ◌>>=◌}
use marx_engels_insight_matc.Retrieval.Floats.{FloatOps}

-- `label not in _HYDRATABLE_LABELS`, and the counter evidence that was not asked for
abbrev pub displayed : Bool → Option SupportLabel → Bool
displayed include_counter none = false
displayed include_counter (some direct) = true
displayed include_counter (some indirect) = true
displayed include_counter (some counter) = include_counter
displayed include_counter (some context_only) = true
displayed include_counter (some irrelevant) = false

module _ {F : Type 0} (ops : FloatOps F) where
  unfoldable pub present_score : Option F → F
  present_score none = ops.negative_infinity
  present_score (some x) = x

  abbrev pub DisplayKey : Type 0
  DisplayKey = F × (F × (F × Text))

  unfoldable pub group_sort_key : Candidate F → DisplayKey
  unfolding present_score
  group_sort_key c = (
    present_score c.rerank_score,
    (present_score c.fusion_score, (present_score c.vector_score, c.evidence_id)),
  )

  -- The scores stand negated in the key: a greater score comes first.
  abbrev pub compare_display_keys : DisplayKey → DisplayKey → Ordering
  compare_display_keys =
      lexicographic (descending ops.compare) (
        lexicographic (descending ops.compare)
          (lexicographic (descending ops.compare) compare_text))

  abbrev pub display_order : Candidate F → Candidate F → Ordering
  display_order a b = compare_display_keys (group_sort_key a) (group_sort_key b)

  unfoldable pub select_loop : Bool → List (Candidate F) → List (Candidate F)
  select_loop include_counter [] = []
  select_loop include_counter (c ∷ cs) =
      if displayed include_counter c.support_label
      then c ∷ select_loop include_counter cs
      else select_loop include_counter cs

  unfoldable pub select_for_display : List (Candidate F) → Bool → List (Candidate F)
  unfolding select_loop group_sort_key
  select_for_display candidates include_counter =
      select_loop include_counter (sort_by display_order candidates)

-- A row of `_GROUP_SPECS`.
pub record GroupSpec : Type 0 where
  pub support : SupportLabel
  pub group_id : Text
  pub label : Text
  pub group_type : Text

abbrev spec : SupportLabel → Text → Text → Text → GroupSpec
spec support group_id label group_type = record {
  support = support;
  group_id = group_id;
  label = label;
  group_type = group_type;
}

unfoldable pub group_specs : List GroupSpec
group_specs =
    spec direct (codes "direct") (codes "直接支撑") (codes "support")
    ∷ spec indirect (codes "indirect") (codes "间接相关") (codes "support")
    ∷ spec context_only (codes "context_only") (codes "相关背景") (codes "context")
    ∷ spec counter (codes "counter") (codes "相反或限制材料") (codes "counter")
    ∷ []

-- The dictionary `by_label`.
abbrev pub ByLabel : Type 0
ByLabel = List (SupportLabel × List Text)

unfoldable pub empty_by_label : ByLabel
unfolding group_specs
empty_by_label = map (λ s. (s.support, [])) group_specs

-- `by_label[label].append(i)`, for a label that is there
unfoldable pub append_to : SupportLabel → Text → ByLabel → ByLabel
append_to label i [] = []
append_to label i ((l, ids) ∷ rest) =
    if same_label label l then (l, ids ++ i ∷ []) ∷ rest else (l, ids) ∷ append_to label i rest

unfoldable pub ids_of : SupportLabel → ByLabel → List Text
ids_of label [] = []
ids_of label ((l, ids) ∷ rest) = if same_label label l then ids else ids_of label rest

unfoldable pub has_label : SupportLabel → ByLabel → Bool
has_label label [] = false
has_label label ((l, ids) ∷ rest) = same_label label l || has_label label rest

pub record Grouped (F : Type 0) : Type 0 where
  pub groups : List (ResultGroup F)
  pub evidence : List Evidence

abbrev pub place : Dict Evidence → Option SupportLabel → Text → ByLabel → ByLabel
place surviving none i by_label = by_label
place surviving (some label) i by_label =
    if not (has_label label by_label)
    then by_label
    else if not (is_some (get i surviving))
    then by_label
    else append_to label i by_label

-- `surviving[evidence_id] for evidence_id in evidence_ids`
unfoldable pub look_up : Dict Evidence → List Text → Result (List Evidence)
look_up surviving [] = ok []
look_up surviving (i ∷ ids) = elim (get i surviving) [
  | none ↦ raise (other (codes "KeyError"))
  | some e ↦ do later ← look_up surviving ids; ok (e ∷ later)
]

module _ {F : Type 0} where
  unfoldable pub label_loop : Dict Evidence → ByLabel → List (Candidate F) → ByLabel
  unfolding append_to has_label
  label_loop surviving by_label [] = by_label
  label_loop surviving by_label (c ∷ cs) =
      label_loop surviving (place surviving c.support_label c.evidence_id by_label) cs

  abbrev pub spec_group : GroupSpec → List Text → ResultGroup F
  spec_group s ids = record {
    group_id = s.group_id;
    label = s.label;
    group_type = s.group_type;
    evidence_ids = ids;
    summary = none;
    confidence = none;
    date_start = none;
    date_end = none;
    date_precision = none;
  }

  abbrev pub add_group : List Text → GroupSpec → List (ResultGroup F) → List (ResultGroup F)
  add_group ids s later = if is_empty ids then later else spec_group s ids ∷ later

  unfoldable pub spec_loop : Dict Evidence → ByLabel → List GroupSpec → Result (Grouped F)
  unfolding ids_of look_up
  spec_loop surviving by_label [] = ok (record { groups = []; evidence = [] })
  spec_loop surviving by_label (s ∷ specs) = do
    let ids = ids_of s.support by_label
    shown ← look_up surviving ids
    later ← spec_loop surviving by_label specs
    ok (record { groups = add_group ids s later.groups; evidence = shown ++ later.evidence })

  unfoldable pub groups_from_evidence : List (Candidate F) → Dict Evidence → Result (Grouped F)
  unfolding label_loop spec_loop empty_by_label
  groups_from_evidence selected surviving =
      spec_loop surviving (label_loop surviving empty_by_label selected) group_specs

  unfoldable pub trim_loop : List Text → List (ResultGroup F) → List (ResultGroup F)
  trim_loop allowed [] = []
  trim_loop allowed (g ∷ groups) =
      let ids = keep (λ i. contains i allowed) g.evidence_ids in
      if is_empty ids
      then trim_loop allowed groups
      else record g { evidence_ids = ids } ∷ trim_loop allowed groups

  unfoldable pub apply_page_size : List (ResultGroup F) → List Evidence → ℕ → Grouped F
  unfolding trim_loop
  apply_page_size groups evidence page_size =
      let paged = take page_size evidence in
      record {
        groups = trim_loop (map (λ (e : Evidence). e.evidence_id) paged) groups;
        evidence = paged;
      }
