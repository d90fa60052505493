-- ===== src/Tests/Claim.antt =====
-- Runs of the claim pipeline's steps.
use marx_engels_insight_matc.Base.{
  ℕ, ◌≡◌, ◌≢◌, ◌≤◌, ◌↔◌, In, refl, Text, codes, text_eq, All, take, length, min, false, none, some,
  List, [], ◌∷◌, ◌++◌, map,
}
use marx_engels_insight_matc.Base.Dict.{Dict, index_by, index_by-some}
use marx_engels_insight_matc.Base.Unique.{contains, count, Distinct}
use marx_engels_insight_matc.Contracts.{
  Candidate, Evidence, ResultGroup, direct, counter, irrelevant, year,
}
use marx_engels_insight_matc.Errors.{ok}
use marx_engels_insight_matc.Pipelines.Claim.Classification.{
  text, object, Answer, array, parse_classifications,
}
use marx_engels_insight_matc.Pipelines.Claim.Classification.Laws.{
  IsClassification, parse_classifications_iff,
}
use marx_engels_insight_matc.Pipelines.Claim.Rerank.{restrict_rerank}
use marx_engels_insight_matc.Pipelines.Claim.Rerank.Laws.{preferred, refused, restrict_rerank_lem}
use marx_engels_insight_matc.Pipelines.Claim.Display.{
  Grouped, select_for_display, groups_from_evidence, apply_page_size,
}
use marx_engels_insight_matc.Pipelines.Claim.Display.Selection.{
  ids, Shown, IsRanked, select_for_display_lem,
}
use marx_engels_insight_matc.Pipelines.Claim.Display.Pages.{grouped_ids, apply_page_size_lem}
use marx_engels_insight_matc.Pipelines.Claim.Display.Listing.{Keyed}
use marx_engels_insight_matc.Pipelines.Claim.Display.Groups.{
  IsGrouping, groups_from_evidence-IsGrouping,
}
use marx_engels_insight_matc.Tests.Samples.{thousandths, thousandths-IsOrdered, candidate, evidence}

abbrev labelled : List (Candidate ℕ)
labelled =
    candidate (codes "a") (some direct) (some 300)
    ∷ candidate (codes "b") (some counter) (some 900)
    ∷ candidate (codes "c") (some irrelevant) none
    ∷ candidate (codes "d") (some direct) (some 500)
    ∷ []

abbrev survivors : List Evidence
survivors = evidence (codes "a") none year ∷ evidence (codes "b") none year ∷ []

abbrev surviving : Dict Evidence
surviving = index_by (λ (e : Evidence). e.evidence_id) survivors

surviving-Keyed : Keyed surviving
surviving-Keyed i e h = (index_by-some (λ (e : Evidence). e.evidence_id) i e survivors h).0

groups_from_evidence-IsGrouping_example :
    (g : Grouped ℕ) × ((groups_from_evidence labelled surviving ≡ ok g)
      × IsGrouping surviving labelled g)
groups_from_evidence-IsGrouping_example =
    groups_from_evidence-IsGrouping surviving labelled surviving-Keyed

select_for_display_lem_example :
    let selected = select_for_display thousandths labelled false in
    IsRanked thousandths selected
    × (((c : Candidate ℕ) → In c selected ↔ (In c labelled × Shown false c.support_label))
        × ((i : Text) → count i (ids thousandths selected) ≤ count i (ids thousandths labelled)))
select_for_display_lem_example =
    select_for_display_lem thousandths labelled false thousandths-IsOrdered

abbrev two_groups : List (ResultGroup ℕ)
two_groups =
    group (codes "direct") (codes "a" ∷ codes "d" ∷ [])
    ∷ group (codes "counter") (codes "b" ∷ [])
    ∷ []
  where
    group : Text → List Text → ResultGroup ℕ
    group id members = record {
      group_id = id;
      label = id;
      group_type = id;
      evidence_ids = members;
      summary = none;
      confidence = none;
      date_start = none;
      date_end = none;
      date_precision = none;
    }

abbrev listed : List Evidence
listed =
    evidence (codes "a") none year
    ∷ evidence (codes "d") none year
    ∷ evidence (codes "b") none year
    ∷ []

abbrev listed_ids : List Evidence → List Text
listed_ids = map (λ (e : Evidence). e.evidence_id)

listed-Distinct : Distinct (listed_ids listed)
unfolding contains text_eq
listed-Distinct = (refl, (refl, (refl, tt)))

apply_page_size_lem_example :
    let page = apply_page_size two_groups listed 2 in
    (grouped_ids page.groups ≡ listed_ids page.evidence)
    × (All (λ (g : ResultGroup ℕ). g.evidence_ids ≢ []) page.groups
        × ((page.evidence ≡ take 2 listed) × (length page.evidence ≡ min 2 (length listed))))
apply_page_size_lem_example = apply_page_size_lem two_groups listed 2 refl listed-Distinct

abbrev answer : Dict Answer
answer =
    (
      codes "classifications",
      array (
          object (
            (codes "evidence_id", text (codes "a"))
            ∷ (codes "support_label", text (codes "direct"))
            ∷ [])
          ∷ []),
    )
    ∷ []

parse_classifications_iff_example :
    (parse_classifications answer (codes "a" ∷ []) ≡ some ((codes "a", direct) ∷ []))
    ↔ IsClassification answer (codes "a" ∷ []) ((codes "a", direct) ∷ [])
parse_classifications_iff_example =
    parse_classifications_iff answer (codes "a" ∷ []) ((codes "a", direct) ∷ [])

labelled-Distinct : Distinct (map (λ (c : Candidate ℕ). c.evidence_id) labelled)
unfolding contains text_eq
labelled-Distinct = (refl, (refl, (refl, (refl, tt))))

abbrev reranked : List (Candidate ℕ)
reranked =
    candidate (codes "d") none (some 700)
    ∷ candidate (codes "z") none (some 600)
    ∷ candidate (codes "d") none none
    ∷ []

restrict_rerank_lem_example :
    let pool = index_by (λ (c : Candidate ℕ). c.evidence_id) labelled in
    let result = restrict_rerank labelled reranked [] in
    ((i : Text)
      → count i (map (λ (c : Candidate ℕ). c.evidence_id) result.ordered)
        ≡ count i (map (λ (c : Candidate ℕ). c.evidence_id) labelled))
    × (((rest : List Text) × (map (λ (c : Candidate ℕ). c.evidence_id) result.ordered
            ≡ map (λ (c : Candidate ℕ). c.evidence_id) (preferred pool [] reranked) ++ rest))
        × (result.warnings ≡ [] ++ refused pool reranked))
restrict_rerank_lem_example = restrict_rerank_lem labelled reranked [] labelled-Distinct
