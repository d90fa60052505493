-- ===== src/Ingestion/Registry/Steps.antt =====
-- Every sequence of operations of packages/marx_engels/ingestion/id_registry.py keeps its
-- invariant.
use mathlib.Core.Path.{subst}
use marx_engels_insight_matc.Base.{
  Text, codes, ℕ, List, [], ◌∷◌, ◌++◌, Bool, true, false, ◌≡◌, refl, sym, ◌∙◌, inl, inr, Bool-cases,
  Option-cases, if◌then◌else◌,
}
use marx_engels_insight_matc.Base.Strings.{text_eq}
use marx_engels_insight_matc.Base.Decimal.{to_decimal}
use marx_engels_insight_matc.Base.Dict.{get, keys}
use marx_engels_insight_matc.Ingestion.Failures.{done, Outcome, Outcome-done}
use marx_engels_insight_matc.Ingestion.Registry.{
  rejected, is_active, IdRegistry, lookup_passage_key, change, supersede_by, supersede_all,
  reject_passage, saved, page_id, work_id, section_id, evidence_id, part_ids, split_passage,
  merge_passages,
}
use marx_engels_insight_matc.Ingestion.Registry.Items.{get-sorted_items, Distinct-sorted_items}
use marx_engels_insight_matc.Ingestion.Registry.Invariant.{
  IsRegistry, change-IsRegistry, issue-IsRegistry, new-IsRegistry,
}

-- The operations of the registry, and saving it and loading it again.
pub data Step (uuid : ℕ → Text) (r s : IdRegistry) : Type 0 where
  ask_page : (volume : Text) (page : ℕ) → s ≡ (page_id uuid volume page r).1 → Step uuid r s
  ask_work : (key : Text) → s ≡ (work_id uuid key r).1 → Step uuid r s
  ask_section : (key : Text) → s ≡ (section_id uuid key r).1 → Step uuid r s
  ask_evidence :
      (key : Text) (supersedes : List Text)
      → s ≡ (evidence_id uuid key supersedes r).1
      → Step uuid r s
  split :
      (id : Text) (parts ids : List Text)
      → split_passage uuid id parts r ≡ done (ids, s)
      → Step uuid r s
  merge : (ids : List Text) (key : Text) → s ≡ (merge_passages uuid ids key r).1 → Step uuid r s
  reject : (id : Text) → reject_passage id r ≡ done s → Step uuid r s
  save_and_load : s ≡ saved r → Step uuid r s

pub data Reach (uuid : ℕ → Text) (r : IdRegistry) : IdRegistry → Type 0 where
  here : Reach uuid r r
  next : {s t : IdRegistry} → Reach uuid r s → Step uuid s t → Reach uuid r t

abbrev pub empty : IdRegistry
empty = record { pages = []; works = []; sections = []; passages = []; issued = 0 }

module _ (uuid : ℕ → Text) where
  page_id-IsRegistry :
      (volume : Text) (page : ℕ) (r : IdRegistry)
      → IsRegistry uuid r
      → IsRegistry uuid (page_id uuid volume page r).1
  unfolding page_id
  page_id-IsRegistry volume page r h =
      elim (Option-cases (get (volume ++ (codes "|" ++ to_decimal page)) r.pages)) [
        | inl absent ↦ rw (absent, page_id) (issue-IsRegistry uuid r _ r.works r.sections h)
        | inr (old, found) ↦ rw (found, page_id) h
      ]

  work_id-IsRegistry :
      (key : Text) (r : IdRegistry) → IsRegistry uuid r → IsRegistry uuid (work_id uuid key r).1
  unfolding work_id
  work_id-IsRegistry key r h = elim (Option-cases (get key r.works)) [
    | inl absent ↦ rw (absent, work_id) (issue-IsRegistry uuid r r.pages _ r.sections h)
    | inr (old, found) ↦ rw (found, work_id) h
  ]

  section_id-IsRegistry :
      (key : Text) (r : IdRegistry) → IsRegistry uuid r → IsRegistry uuid (section_id uuid key r).1
  unfolding section_id
  section_id-IsRegistry key r h = elim (Option-cases (get key r.sections)) [
    | inl absent ↦ rw (absent, section_id) (issue-IsRegistry uuid r r.pages r.works _ h)
    | inr (old, found) ↦ rw (found, section_id) h
  ]

  supersede_all-IsRegistry :
      (merged new_key : Text) (ids : List Text) (r : IdRegistry)
      → IsRegistry uuid r
      → IsRegistry uuid (supersede_all merged new_key ids r)
  unfolding supersede_all
  supersede_all-IsRegistry merged new_key [] r h = h
  supersede_all-IsRegistry merged new_key (i ∷ ids) r h =
      elim (Option-cases (lookup_passage_key i r)) [
        | inl absent ↦ rw (absent, supersede_all) (supersede_all-IsRegistry merged new_key ids r h)
        | inr (key, found) ↦ elim (Bool-cases (text_eq key new_key)) [
          | inl same ↦
              rw (found, same, supersede_all) (supersede_all-IsRegistry merged new_key ids r h)
          | inr differs ↦
              rw (found, differs, supersede_all)
                (supersede_all-IsRegistry merged new_key ids
                  (change key (supersede_by (merged ∷ [])) r)
                  (change-IsRegistry uuid key (supersede_by (merged ∷ [])) r (λ p. refl) h))
        ]
      ]

  saved-IsRegistry : (r : IdRegistry) → IsRegistry uuid r → IsRegistry uuid (saved r)
  unfolding saved
  saved-IsRegistry r h = record {
    keyed = Distinct-sorted_items r.passages h.keyed;
    given_before = λ k p g. h.given_before k p (sym (get-sorted_items k r.passages h.keyed) ∙ g);
    unique = λ k j p q g g'.
        h.unique k j p q (sym (get-sorted_items k r.passages h.keyed) ∙ g)
          (sym (get-sorted_items j r.passages h.keyed) ∙ g');
  }

  reject_passage-IsRegistry :
      (id : Text) (r : IdRegistry)
      → IsRegistry uuid r
      → Outcome (IsRegistry uuid) (λ f. Unit {0}) (reject_passage id r)
  unfolding reject_passage
  reject_passage-IsRegistry id r h = elim (Option-cases (lookup_passage_key id r)) [
    | inl absent ↦ rw (absent, reject_passage) tt
    | inr (key, found) ↦
        rw (found, reject_passage)
          (change-IsRegistry uuid key (λ p. record p { status = rejected }) r (λ p. refl) h)
  ]

  module _ (fresh : (m n : ℕ) → uuid m ≡ uuid n → m ≡ n) where
    pub evidence_id-IsRegistry :
        (key : Text) (supersedes : List Text) (r : IdRegistry)
        → IsRegistry uuid r
        → IsRegistry uuid (evidence_id uuid key supersedes r).1
    unfolding evidence_id
    evidence_id-IsRegistry key supersedes r h = elim (Option-cases (get key r.passages)) [
      | inl absent ↦ rw (absent, evidence_id) (new-IsRegistry uuid fresh key _ r refl h)
      | inr (p, found) ↦ elim (Bool-cases (is_active p.status)) [
        | inl old ↦ rw (found, old, evidence_id) h
        | inr gone ↦ rw (found, gone, evidence_id) (new-IsRegistry uuid fresh key _ r refl h)
      ]
    ]

    part_ids-IsRegistry :
        (supersedes parts : List Text) (r : IdRegistry)
        → IsRegistry uuid r
        → IsRegistry uuid (part_ids uuid supersedes parts r).1
    unfolding part_ids
    part_ids-IsRegistry supersedes [] r h = h
    part_ids-IsRegistry supersedes (key ∷ keys) r h =
        part_ids-IsRegistry supersedes keys (evidence_id uuid key supersedes r).1
          (evidence_id-IsRegistry key supersedes r h)

    merge_passages-IsRegistry :
        (ids : List Text) (key : Text) (r : IdRegistry)
        → IsRegistry uuid r
        → IsRegistry uuid (merge_passages uuid ids key r).1
    unfolding merge_passages
    merge_passages-IsRegistry ids key r h =
        supersede_all-IsRegistry (evidence_id uuid key ids r).0 key ids
          (evidence_id uuid key ids r).1 (evidence_id-IsRegistry key ids r h)

    if-IsRegistry :
        (b : Bool) (r s : IdRegistry)
        → IsRegistry uuid r
        → IsRegistry uuid s
        → IsRegistry uuid (if b then r else s)
    if-IsRegistry true r s h k = h
    if-IsRegistry false r s h k = k

    split_passage-IsRegistry :
        (id : Text) (parts : List Text) (r : IdRegistry)
        → IsRegistry uuid r
        → Outcome (λ x. IsRegistry uuid x.1) (λ f. Unit {0}) (split_passage uuid id parts r)
    unfolding split_passage
    split_passage-IsRegistry id parts r h = elim (Option-cases (lookup_passage_key id r)) [
      | inl absent ↦ rw (absent, split_passage) tt
      | inr (key, found) ↦
          let made = part_ids uuid (id ∷ []) parts r in
          let sound = part_ids-IsRegistry (id ∷ []) parts r h in
          rw (found, split_passage)
            (if-IsRegistry _ (change key (supersede_by made.0) made.1) made.1
              (change-IsRegistry uuid key (supersede_by made.0) made.1 (λ p. refl) sound) sound)
    ]

    Step-IsRegistry : (r s : IdRegistry) → Step uuid r s → IsRegistry uuid r → IsRegistry uuid s
    Step-IsRegistry r s (ask_page volume page e) h =
        subst (IsRegistry uuid) (sym e) (page_id-IsRegistry volume page r h)
    Step-IsRegistry r s (ask_work key e) h =
        subst (IsRegistry uuid) (sym e) (work_id-IsRegistry key r h)
    Step-IsRegistry r s (ask_section key e) h =
        subst (IsRegistry uuid) (sym e) (section_id-IsRegistry key r h)
    Step-IsRegistry r s (ask_evidence key supersedes e) h =
        subst (IsRegistry uuid) (sym e) (evidence_id-IsRegistry key supersedes r h)
    Step-IsRegistry r s (split id parts ids e) h =
        Outcome-done (λ (x : List Text × IdRegistry). IsRegistry uuid x.1) (λ f. Unit {0})
          (split_passage uuid id parts r) (ids, s) (split_passage-IsRegistry id parts r h) e
    Step-IsRegistry r s (merge ids key e) h =
        subst (IsRegistry uuid) (sym e) (merge_passages-IsRegistry ids key r h)
    Step-IsRegistry r s (reject id e) h =
        Outcome-done (IsRegistry uuid) (λ f. Unit {0}) (reject_passage id r) s
          (reject_passage-IsRegistry id r h) e
    Step-IsRegistry r s (save_and_load e) h = subst (IsRegistry uuid) (sym e) (saved-IsRegistry r h)

    pub empty-IsRegistry : IsRegistry uuid empty
    unfolding get
    empty-IsRegistry = record {
      keyed = tt;
      given_before = λ k p g. absurd (cc);
      unique = λ k j p q g g' e. absurd (cc);
    }

    pub Reach-IsRegistry :
        (r s : IdRegistry) → IsRegistry uuid r → Reach uuid r s → IsRegistry uuid s
    Reach-IsRegistry r s h here = h
    Reach-IsRegistry r s h (next {s = x} p q) = Step-IsRegistry x s q (Reach-IsRegistry r x h p)
