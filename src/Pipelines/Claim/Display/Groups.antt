-- ===== src/Pipelines/Claim/Display/Groups.antt =====
-- The groups of the evidence that survives the gate.
use marx_engels_insight_matc.Base.{
  ℕ, ◌+◌, ◌≡◌, ◌≢◌, refl, ap, sym, ◌∙◌, Text, text_eq, is_some, keep, concat, All, Bool, true, ◌&&◌,
  Option, none, some, List, [], ◌∷◌, ◌++◌, map, if◌then◌else◌, arith, inl, inr, Bool-cases,
}
use mathlib.Core.Path.{subst}
use marx_engels_insight_matc.Base.Dict.{Dict, get}
use marx_engels_insight_matc.Base.Unique.{count, count-append}
use marx_engels_insight_matc.Contracts.{
  Candidate, Evidence, ResultGroup, SupportLabel, direct, indirect, counter, context_only,
  irrelevant,
}
use marx_engels_insight_matc.Errors.{ok}
use marx_engels_insight_matc.Pipelines.Claim.Display.{
  displayed, GroupSpec, group_specs, empty_by_label, ids_of, has_label, Grouped, label_loop,
  groups_from_evidence,
}
use marx_engels_insight_matc.Pipelines.Claim.Display.Pages.{ids, grouped_ids}
use marx_engels_insight_matc.Pipelines.Claim.Display.ByLabels.{labelled, wanted, ids_of-label_loop}
use marx_engels_insight_matc.Pipelines.Claim.Display.Listing.{
  Keyed, Survive, groups_of, groups_of-grouped_ids, groups_of-inhabited, spec_loop-IsGrouped,
}

-- A label of the table is exactly one of its labels.
one_label :
    (o : Option SupportLabel) (q : Bool) (n : ℕ)
    → (if labelled direct o && q then n else 0)
        + ((if labelled indirect o && q then n else 0)
            + ((if labelled context_only o && q then n else 0)
                + (if labelled counter o && q then n else 0)))
      ≡ (if displayed true o && q then n else 0)
unfolding text_eq
one_label none q n = refl
one_label (some direct) q n = ground arith
one_label (some indirect) q n = ground arith
one_label (some counter) q n = ground arith
one_label (some context_only) q n = ground arith
one_label (some irrelevant) q n = ground arith

module _ (surviving : Dict Evidence) where
  module _ {F : Type 0} where
    wanted-Survive :
        (l : SupportLabel) (cs : List (Candidate F)) → Survive surviving (wanted surviving l cs)
    wanted-Survive l [] = tt
    wanted-Survive l (c ∷ cs) =
        elim (Bool-cases (labelled l c.support_label && is_some (get c.evidence_id surviving))) [
          | inl y ↦ rw y (ground (arith, y), wanted-Survive l cs)
          | inr n ↦ rw n (wanted-Survive l cs)
        ]

    -- A label of the table, and evidence that survives.
    abbrev pub placed : Candidate F → Bool
    placed c = displayed true c.support_label && is_some (get c.evidence_id surviving)

    abbrev placed_ids : List (Candidate F) → List Text
    placed_ids cs = map (λ (c : Candidate F). c.evidence_id) (keep placed cs)

    count-keep_cons :
        (i : Text) (p : Candidate F → Bool) (c : Candidate F) (cs : List (Candidate F))
        → count i (map (λ (d : Candidate F). d.evidence_id) (keep p (c ∷ cs)))
          ≡ (if p c then if text_eq i c.evidence_id then 1 else 0 else 0)
            + count i (map (λ (d : Candidate F). d.evidence_id) (keep p cs))
    unfolding count
    count-keep_cons i p c cs = ground arith

    count-wanted :
        (i : Text) (cs : List (Candidate F))
        → count i (wanted surviving direct cs)
            + (count i (wanted surviving indirect cs)
                + (count i (wanted surviving context_only cs)
                    + count i (wanted surviving counter cs)))
          ≡ count i (placed_ids cs)
    unfolding count
    count-wanted i [] = refl
    count-wanted i (c ∷ cs) =
        let q = is_some (get c.evidence_id surviving) in
        let kept = λ (l : SupportLabel) (d : Candidate F).
          labelled l d.support_label && is_some (get d.evidence_id surviving) in
        omega (
          arith,
          count-keep_cons i (kept direct) c cs,
          count-keep_cons i (kept indirect) c cs,
          count-keep_cons i (kept context_only) c cs,
          count-keep_cons i (kept counter) c cs,
          count-keep_cons i placed c cs,
          one_label c.support_label q (if text_eq i c.evidence_id then 1 else 0),
          count-wanted i cs,
        )

    counted :
        (i : Text) (cs : List (Candidate F))
        → count i (concat (map (λ (s : GroupSpec). wanted surviving s.support cs) group_specs))
          ≡ count i (wanted surviving direct cs)
            + (count i (wanted surviving indirect cs)
                + (count i (wanted surviving context_only cs)
                    + count i (wanted surviving counter cs)))
    unfolding group_specs count
    counted i cs =
        let w = λ (l : SupportLabel). wanted surviving l cs in
        omega (
          arith,
          count-append i (w direct) (w indirect ++ (w context_only ++ (w counter ++ []))),
          count-append i (w indirect) (w context_only ++ (w counter ++ [])),
          count-append i (w context_only) (w counter ++ []),
          count-append i (w counter) [],
        )

    -- What the grouping returns.
    pub record IsGrouping (selected : List (Candidate F)) (g : Grouped F) : Type 0 where
      pub groups : g.groups ≡ groups_of (λ l. wanted surviving l selected) group_specs
      pub inhabited : All (λ (h : ResultGroup F). h.evidence_ids ≢ []) g.groups
      pub listed : grouped_ids g.groups ≡ ids g.evidence
      pub once : (i : Text) → count i (ids g.evidence) ≡ count i (placed_ids selected)

    table :
        (selected : List (Candidate F))
        → All
            (λ (s : GroupSpec).
              (ids_of s.support (label_loop surviving empty_by_label selected)
                ≡ wanted surviving s.support selected)
              × Survive surviving (wanted surviving s.support selected))
            group_specs
    unfolding group_specs empty_by_label has_label ids_of text_eq
    table selected = (
      (
        ids_of-label_loop surviving direct empty_by_label selected refl,
        wanted-Survive direct selected,
      ),
      (
        (
          ids_of-label_loop surviving indirect empty_by_label selected refl,
          wanted-Survive indirect selected,
        ),
        (
          (
            ids_of-label_loop surviving context_only empty_by_label selected refl,
            wanted-Survive context_only selected,
          ),
          (
            (
              ids_of-label_loop surviving counter empty_by_label selected refl,
              wanted-Survive counter selected,
            ),
            tt,
          ),
        ),
      ),
    )

    -- When every surviving evidence stands under its own identifier, the grouping returns. There is one group for each row of the table that has a
    -- candidate, in the order of the table; it lists, in the order of selection, the candidates
    -- of its label whose evidence survives. The groups list the evidence that is returned, in
    -- its order, and every selected candidate with a label of the table whose evidence survives
    -- stands there as often as it is selected.
    pub groups_from_evidence-IsGrouping :
        (selected : List (Candidate F))
        → Keyed surviving
        → (g : Grouped F) × ((groups_from_evidence selected surviving ≡ ok g)
            × IsGrouping selected g)
    unfolding groups_from_evidence
    groups_from_evidence-IsGrouping selected keyed =
        let members = λ (l : SupportLabel). wanted surviving l selected in
        let (g, (run, grouped)) =
          spec_loop-IsGrouped surviving members (label_loop surviving empty_by_label selected)
            group_specs keyed (table selected) in
        let listed = ap grouped_ids grouped.groups ∙ groups_of-grouped_ids F members group_specs in
        (
          g,
          (
            run,
            record {
              groups = grouped.groups;
              inhabited =
                  subst (All (λ (h : ResultGroup F). h.evidence_ids ≢ [])) (sym grouped.groups)
                    (groups_of-inhabited F members group_specs);
              listed = listed ∙ sym grouped.evidence;
              once = λ i.
                  ap (count i) grouped.evidence ∙ (counted i selected ∙ count-wanted i selected);
            },
          ),
        )
