-- ===== src/Tests/Thematic.antt =====
-- Runs of the grouping, the judgments and the presentation of themes.
use marx_engels_insight_matc.Base.{
  ℕ, ◌+◌, ◌≡◌, ◌⊎◌, Text, codes, All, true, false, ◌&&◌, none, some, List, [], ◌∷◌, if◌then◌else◌,
}
use marx_engels_insight_matc.Base.Dict.{Dict}
use marx_engels_insight_matc.Base.Unique.{contains, count, Distinct}
use marx_engels_insight_matc.Contracts.{Candidate, direct}
use marx_engels_insight_matc.Pipelines.Thematic.Types.{ClusterAssignment, ThemeLabel}
use marx_engels_insight_matc.Pipelines.Thematic.Grouping.{
  assign_exclusively, dedupe_cluster_id, suffixed,
}
use marx_engels_insight_matc.Pipelines.Thematic.Grouping.Members.{
  members, assign_exclusively-partition,
}
use marx_engels_insight_matc.Pipelines.Thematic.Grouping.Exclusive.{
  theme_ids, IsTheme, assign_exclusively-Distinct,
}
use marx_engels_insight_matc.Pipelines.Thematic.Grouping.Suffixes.{dedupe_cluster_id-new}
use marx_engels_insight_matc.Pipelines.Thematic.Judgments.{apply_relevance_judgments}
use marx_engels_insight_matc.Pipelines.Thematic.Judgments.Laws.{
  ids, Judged, apply_relevance_judgments_lem,
}
use marx_engels_insight_matc.Pipelines.Thematic.Presentation.{fallback, resolve_theme_presentation}
use marx_engels_insight_matc.Pipelines.Thematic.Presentation.Order.{
  IsShown, resolve_theme_presentation_lem,
}
use marx_engels_insight_matc.Tests.Samples.{thousandths, candidate}

abbrev cluster : Text → List Text → ClusterAssignment
cluster id members = record { cluster_id = id; evidence_ids = members }

abbrev clusters : List ClusterAssignment
clusters =
    cluster (codes "labour") (codes "a" ∷ codes "b" ∷ codes "z" ∷ [])
    ∷ cluster (codes "labour") (codes "b" ∷ codes "c" ∷ [])
    ∷ []

abbrev pool_ids : List Text
pool_ids = codes "a" ∷ codes "b" ∷ codes "c" ∷ codes "d" ∷ []

assign_exclusively-partition_example :
    count (codes "b") (members (assign_exclusively clusters pool_ids).themes)
      + count (codes "b") (assign_exclusively clusters pool_ids).other_related_ids
    ≡ (if contains (codes "b") pool_ids then 1 else 0)
assign_exclusively-partition_example = assign_exclusively-partition clusters pool_ids (codes "b")

assign_exclusively-Distinct_example :
    Distinct (theme_ids (assign_exclusively clusters pool_ids).themes)
    × All IsTheme (assign_exclusively clusters pool_ids).themes
assign_exclusively-Distinct_example = assign_exclusively-Distinct clusters pool_ids

abbrev in_use : List Text
in_use = codes "labour" ∷ codes "labour_2" ∷ []

dedupe_cluster_id-new_example :
    (k : ℕ) × (dedupe_cluster_id (codes "labour") in_use ≡ suffixed (codes "labour") k)
    × (contains (dedupe_cluster_id (codes "labour") in_use) in_use ≡ false)
dedupe_cluster_id-new_example = dedupe_cluster_id-new (codes "labour") in_use

abbrev pool : List (Candidate ℕ)
pool = candidate (codes "a") none none ∷ candidate (codes "b") none none ∷ []

abbrev scored : List (Candidate ℕ)
scored =
    candidate (codes "b") (some direct) (some 800)
    ∷ candidate (codes "y") (some direct) (some 900)
    ∷ []

apply_relevance_judgments_lem_example :
    ((i : Text)
      → count i (ids (apply_relevance_judgments pool scored))
        ≡ (if contains i (ids pool) && contains i (ids scored) then 1 else 0))
    × All (Judged pool scored) (apply_relevance_judgments pool scored)
apply_relevance_judgments_lem_example = apply_relevance_judgments_lem pool scored

abbrev scores : Dict ℕ
scores = (codes "b", 700) ∷ (codes "c", 900) ∷ []

abbrev label : ThemeLabel ℕ
label = record {
  cluster_id = codes "labour";
  label = codes " Labour ";
  summary = some (codes "On labour.");
  evidence_ids = codes "a" ∷ [];
  confidence = some 900;
}

abbrev labour : ClusterAssignment
labour = cluster (codes "labour") (codes "a" ∷ codes "b" ∷ [])

resolve_theme_presentation_lem_example :
    (resolve_theme_presentation thousandths (some label) labour true (codes "Theme 1")
      ≡ fallback thousandths (codes "Theme 1"))
    ⊎ ((true ≡ true)
        × ((l : ThemeLabel ℕ) × (some label ≡ some l)
            × IsShown thousandths l labour (
                resolve_theme_presentation thousandths (some label) labour true (codes "Theme 1"))))
resolve_theme_presentation_lem_example =
    resolve_theme_presentation_lem thousandths (some label) labour true (codes "Theme 1")
