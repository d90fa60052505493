-- ===== src/Pipelines/Thematic/Execute/Drafts.antt =====
-- What every draft of a thematic response is: on one page, and in the order of its groups.
use marx_engels_insight_matc.Base.{
  ◌∙◌, false, is_empty, text_eq_refl, ℕ, ◌≤◌, ◌≡◌, ◌⊎◌, refl, ap, sym, Text, length, length-map,
  All, All-at, true, none, some, List, [], ◌∷◌, map, if◌then◌else◌, arith, inl, inr, Option-cases,
}
use mathlib.Core.Path.{subst}
use marx_engels_insight_matc.Base.Dict.{Dict, get, index_by-some, is_some-index_by}
use marx_engels_insight_matc.Base.Pigeonhole.{length-le_of_Distinct}
use marx_engels_insight_matc.Base.Unique.{
  contains, count, count-present, Distinct, Distinct-of_count,
}
use marx_engels_insight_matc.Contracts.{Insufficiency, Evidence, ResultGroup, Warning}
use marx_engels_insight_matc.Pipelines.Thematic.Steps.{group_ids}
use marx_engels_insight_matc.Pipelines.Claim.Fusion.Merging.{All-of-contains}
use marx_engels_insight_matc.Pipelines.Thematic.Execute.{
  empty_insufficiency, clustering_insufficiency, Draft, found_in, by_evidence_id, no_evidence,
  not_clustered,
}

abbrev pub ids_of : List Evidence → List Text
ids_of evidence = map (λ e. e.evidence_id) evidence

contains_head : (i : Text) (ids : List Text) → contains i (i ∷ ids) ≡ true
unfolding contains
contains_head i ids = ground (arith, text_eq_refl i)

contains_tail : (j i : Text) (ids : List Text) → contains j ids ≡ true → contains j (i ∷ ids) ≡ true
unfolding contains
contains_tail j i ids h = ground arith

found_in-step :
    (d : Dict Evidence) (i : Text) (ids : List Text) (e : Evidence)
    → get i d ≡ some e
    → found_in d (i ∷ ids) ≡ e ∷ found_in d ids
unfolding found_in
found_in-step d i ids e h = rw h refl

-- What is looked up under the identifiers of the list has these identifiers.
pub found_in-ids :
    (evidence : List Evidence) (ids : List Text)
    → ((i : Text) → contains i ids ≡ true → contains i (ids_of evidence) ≡ true)
    → ids_of (found_in (by_evidence_id evidence) ids) ≡ ids
unfolding found_in
found_in-ids evidence [] h = refl
found_in-ids evidence (i ∷ ids) h = elim (Option-cases (get i (by_evidence_id evidence))) [
  | inl n ↦ absurd (
      ground (
        arith,
        n,
        is_some-index_by (λ (e : Evidence). e.evidence_id) i evidence,
        h i (contains_head i ids),
      ))
  | inr (e, y) ↦
      let named = (index_by-some (λ (e : Evidence). e.evidence_id) i e evidence y).0 in
      let rest = found_in-ids evidence ids (λ j k. h j (contains_tail j i ids k)) in
      cc (ap ids_of (found_in-step (by_evidence_id evidence) i ids e y), named, rest)
]

-- Lists of the same identifiers are both empty or both not.
nonempty_of_ids :
    (old new : List Evidence)
    → is_empty old ≡ false
    → ((i : Text) → count i (ids_of new) ≡ (if contains i (ids_of old) then 1 else 0))
    → is_empty new ≡ false
unfolding count
nonempty_of_ids [] new h same = absurd (cc)
nonempty_of_ids (e ∷ old) (f ∷ new) h same = refl
nonempty_of_ids (e ∷ old) [] h same =
    absurd (ground (arith, same e.evidence_id, contains_head e.evidence_id (ids_of old)))

-- What is reported where the evidence is not grouped.
abbrev pub missing : List Evidence → Insufficiency
missing evidence = if is_empty evidence then empty_insufficiency else clustering_insufficiency

module _ (P : Evidence → Type 0) where
  pub found_in-All :
      (evidence : List Evidence) (ids : List Text)
      → All P evidence
      → All P (found_in (by_evidence_id evidence) ids)
  unfolding found_in
  found_in-All evidence [] h = tt
  found_in-All evidence (i ∷ ids) h = elim (Option-cases (get i (by_evidence_id evidence))) [
    | inl n ↦ rw (n, found_in) (found_in-All evidence ids h)
    | inr (e, y) ↦
        rw (y, found_in)
          (
            All-at P e evidence h
                (index_by-some (λ (e : Evidence). e.evidence_id) i e evidence y).1,
            found_in-All evidence ids h,
          )
  ]

  -- Either there is evidence, in the order of the groups, each identifier once, and nothing is
  -- reported missing; or there are no groups, and it is reported what is missing.
  pub record IsDraft {F : Type 0} (limit : ℕ) (d : Draft F) : Type 0 where
    pub sound : All P d.evidence
    pub paged : length d.evidence ≤ limit
    pub arranged :
        ((d.insufficiency ≡ none)
          × (is_empty d.evidence ≡ false)
          × (group_ids d.groups ≡ ids_of d.evidence)
          × Distinct (ids_of d.evidence))
        ⊎ (d.insufficiency ≡ some (missing d.evidence)) × (d.groups ≡ [])

  pub no_evidence-IsDraft :
      {F : Type 0} (limit : ℕ) (warnings : List Warning)
      → IsDraft limit (no_evidence {F = F} warnings)
  no_evidence-IsDraft limit warnings = record {
    sound = tt;
    paged = omega arith;
    arranged = inr (refl, refl);
  }

  pub not_clustered-IsDraft :
      {F : Type 0} (limit : ℕ) (evidence : List Evidence) (warnings : List Warning)
      → All P evidence
      → length evidence ≤ limit
      → is_empty evidence ≡ false
      → IsDraft limit (not_clustered {F = F} evidence warnings)
  not_clustered-IsDraft limit evidence warnings sound paged something = record {
    sound = sound;
    paged = paged;
    arranged = inr (rw something refl, refl);
  }

  -- The evidence in the order of groups that hold each of its identifiers once.
  pub grouped-IsDraft :
      {F : Type 0} (limit : ℕ) (evidence : List Evidence) (groups : List (ResultGroup F))
      (warnings : List Warning)
      → All P evidence
      → length evidence ≤ limit
      → is_empty evidence ≡ false
      → ((i : Text) → count i (group_ids groups) ≡ (if contains i (ids_of evidence) then 1 else 0))
      → IsDraft limit (record {
        evidence = found_in (by_evidence_id evidence) (group_ids groups);
        groups = groups;
        warnings = warnings;
        insufficiency = none;
      })
  grouped-IsDraft limit evidence groups warnings sound paged something counted =
      let ids = group_ids groups in
      let known : (i : Text) → contains i ids ≡ true → contains i (ids_of evidence) ≡ true =
        λ i h. ground (arith, counted i, count-present i ids) in
      let same = found_in-ids evidence ids known in
      let once : Distinct ids = Distinct-of_count ids (λ i. ground (arith, counted i)) in
      record {
        sound = found_in-All evidence ids sound;
        paged = omega (
          arith,
          ap length same,
          length-map (λ (e : Evidence). e.evidence_id) (found_in (by_evidence_id evidence) ids),
          length-map (λ (e : Evidence). e.evidence_id) evidence,
          length-le_of_Distinct ids (ids_of evidence) once (All-of-contains ids known),
        );
        arranged = inl (
          refl,
          nonempty_of_ids evidence (found_in (by_evidence_id evidence) ids) something
              (λ i. ap (count i) same ∙ counted i),
          sym same,
          subst Distinct (sym same) once,
        );
      }
