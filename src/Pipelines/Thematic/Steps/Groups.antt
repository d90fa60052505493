-- ===== src/Pipelines/Thematic/Steps/Groups.antt =====
-- What the clustering and the groups make of the evidence: each identifier in one group.
use marx_engels_insight_matc.Base.{
  inl, inr, ℕ, ◌+◌, ◌≡◌, refl, ap, ◌∙◌, Text, Option, none, some, is_some, ltb, any, length, not,
  List, [], ◌∷◌, ◌++◌, if◌then◌else◌, arith,
}
use marx_engels_insight_matc.Base.Dict.{Dict, get}
use marx_engels_insight_matc.Base.Sort.{count-concat-sort_by}
use marx_engels_insight_matc.Base.Unique.{contains, count, count-append}
use marx_engels_insight_matc.Contracts.{SearchRequest, Evidence, ResultGroup, Warning}
use marx_engels_insight_matc.Errors.{Result, ok, raise}
use marx_engels_insight_matc.Errors.Laws.{bind-ok, if-ok, of_ok, ok-ne-raise}
use marx_engels_insight_matc.Retrieval.Floats.{FloatOps}
use marx_engels_insight_matc.Pipelines.Claim.Recall.{is_cancelled}
use marx_engels_insight_matc.Pipelines.Thematic.Types.{ClusterAssignment, SanitizedGrouping}
use marx_engels_insight_matc.Pipelines.Thematic.Grouping.Members.{
  members, assign_exclusively-partition,
}
use marx_engels_insight_matc.Pipelines.Thematic.Presentation.{
  order_group_members, theme_result_group, other_related_group, sort_theme_clusters, sort_key,
  compare_keys,
}
use marx_engels_insight_matc.Pipelines.Thematic.Presentation.Order.{count-order_group_members}
use marx_engels_insight_matc.Pipelines.Thematic.Ports.{ThematicPorts}
use marx_engels_insight_matc.Pipelines.Thematic.Steps.{
  ClusterOutcome, Built, evidence_vectors, one_cluster, presentation, warned_fallback, build_loop,
  with_leftover, group_ids, build_groups, cluster, clustered, label_theme,
}

-- How often an identifier stands in a grouping.
abbrev pub occurrences : Text → SanitizedGrouping → ℕ
occurrences i g = count i (members g.themes) + count i g.other_related_ids

-- Each identifier of the list stands once, and no other one stands.
abbrev pub IsExclusive : List Text → Option SanitizedGrouping → Type 0
IsExclusive ids none = Unit
IsExclusive ids (some g) = (i : Text) → occurrences i g ≡ (if contains i ids then 1 else 0)

module _ {F V : Type 0} (ops : FloatOps F) (ports : ThematicPorts F V) where
  abbrev HasExclusive : List Text → ClusterOutcome → Type 0
  HasExclusive ids o = IsExclusive ids o.grouping

  clustered-HasExclusive :
      (ids : List Text) (warnings : List Warning) (m : Result (List ClusterAssignment))
      (o : ClusterOutcome)
      → clustered ops ports ids warnings m ≡ ok o
      → HasExclusive ids o
  clustered-HasExclusive ids warnings (ok assignments) o run =
      of_ok (HasExclusive ids) o (assign_exclusively-partition assignments ids) run
  clustered-HasExclusive ids warnings (raise e) o run = elim (if-ok (is_cancelled e) run) [
    | inl (c, raised) ↦ absurd (ok-ne-raise o e raised refl)
    | inr (c, made) ↦ of_ok (HasExclusive ids) o (assign_exclusively-partition [] ids) made
  ]

  pub cluster-IsExclusive :
      (ids : List Text) (evidence : List Evidence) (warnings : List Warning) (o : ClusterOutcome)
      → cluster ops ports ids evidence warnings ≡ ok o
      → IsExclusive ids o.grouping
  unfolding cluster
  cluster-IsExclusive ids evidence warnings o run =
      elim (if-ok (ltb (length ids) ports.config.min_cluster_input) run) [
        | inl (few, made) ↦
            of_ok (HasExclusive ids) o (assign_exclusively-partition (one_cluster ids) ids) made
        | inr (many, rest) ↦
            let (vectors, (embedded, r)) =
              bind-ok (evidence_vectors ops ports evidence warnings) _ rest in
            elim (if-ok (any (λ i. not (is_some (get i vectors.by_id))) ids) r) [
              | inl (missing, made) ↦ of_ok (HasExclusive ids) o tt made
              | inr (all_found, made) ↦
                  clustered-HasExclusive ids vectors.warnings (ports.cluster ids vectors.by_id) o
                    made
            ]
      ]

  abbrev Lists : List ClusterAssignment → Built F → Type 0
  Lists themes b = (i : Text) → count i (group_ids b.groups) ≡ count i (members themes)

  build_loop-Lists :
      (request : SearchRequest) (scores : Dict F) (index : ℕ) (themes : List ClusterAssignment)
      (warnings : List Warning) (b : Built F)
      → build_loop ops ports request scores index themes warnings ≡ ok b
      → Lists themes b
  unfolding build_loop theme_result_group
  build_loop-Lists request scores index [] warnings b run = of_ok (Lists []) b (λ i. refl) run
  build_loop-Lists request scores index (c ∷ themes) warnings b run =
      let (l, (labelled, r)) = bind-ok (label_theme ops ports request c warnings) _ run in
      let warned = warned_fallback ops ports (presentation ops ports request index c l) l in
      let (later, (built, made)) =
        bind-ok (build_loop ops ports request scores (index + 1) themes warned) _ r in
      of_ok (Lists (c ∷ themes)) b
        (λ i. omega (
          arith,
          build_loop-Lists request scores (index + 1) themes warned later built i,
          count-order_group_members ops c.evidence_ids scores i,
          count-append i (order_group_members ops c.evidence_ids scores) (group_ids later.groups),
          count-append i c.evidence_ids (members themes),
        ))
        made

  count-group_ids-append :
      (i : Text) (groups : List (ResultGroup F)) (g : ResultGroup F)
      → count i (group_ids (groups ++ g ∷ [])) ≡ count i (group_ids groups) + count i g.evidence_ids
  unfolding count
  count-group_ids-append i [] g = omega (arith, count-append i g.evidence_ids [])
  count-group_ids-append i (h ∷ groups) g = omega (
    arith,
    count-group_ids-append i groups g,
    count-append i h.evidence_ids (group_ids (groups ++ g ∷ [])),
    count-append i h.evidence_ids (group_ids groups),
  )

  count-with_leftover :
      (i : Text) (ids : List Text) (scores : Dict F) (groups : List (ResultGroup F))
      → count i (group_ids (with_leftover (other_related_group ops ids scores) groups))
        ≡ count i (group_ids groups) + count i ids
  unfolding other_related_group count
  count-with_leftover i [] scores groups = omega arith
  count-with_leftover i (j ∷ ids) scores groups =
      count-group_ids-append i groups _
      ∙ ap (λ n. count i (group_ids groups) + n) (count-order_group_members ops (j ∷ ids) scores i)

  count-sorted :
      (i : Text) (themes : List ClusterAssignment) (scores : Dict F)
      → count i (members (sort_theme_clusters ops themes scores)) ≡ count i (members themes)
  unfolding sort_theme_clusters
  count-sorted i themes scores =
      count-concat-sort_by (λ (t : ClusterAssignment). t.evidence_ids)
        (λ a b. compare_keys ops (sort_key ops scores a) (sort_key ops scores b)) i themes

  pub build_groups_lem :
      (request : SearchRequest) (scores : Dict F) (grouping : SanitizedGrouping)
      (warnings : List Warning) (b : Built F)
      → build_groups ops ports request scores grouping warnings ≡ ok b
      → (i : Text) → count i (group_ids b.groups) ≡ occurrences i grouping
  unfolding build_groups
  build_groups_lem request scores grouping warnings b run =
      let sorted = sort_theme_clusters ops grouping.themes scores in
      let (built, (looped, made)) =
        bind-ok (build_loop ops ports request scores 1 sorted warnings) _ run in
      of_ok (λ (b : Built F). (i : Text) → count i (group_ids b.groups) ≡ occurrences i grouping) b
        (λ i. omega (
          arith,
          count-with_leftover i grouping.other_related_ids scores built.groups,
          build_loop-Lists request scores 1 sorted warnings built looped i,
          count-sorted i grouping.themes scores,
        ))
        made
