-- ===== src/Ingestion/Registry.antt =====
-- packages/marx_engels/ingestion/id_registry.py.
pub mod Items
pub mod Invariant
pub mod Steps
pub mod Lookup
pub mod Split
use marx_engels_insight_matc.Base.{
  Text, codes, ℕ, suc, ◌+◌, List, [], ◌∷◌, ◌++◌, Option, none, some, Bool, true, false, not, ◌&&◌,
  ◌||◌, map, if◌then◌else◌,
}
use marx_engels_insight_matc.Base.Strings.{text_eq}
use marx_engels_insight_matc.Base.Unique.{contains}
use marx_engels_insight_matc.Base.Decimal.{to_decimal}
use marx_engels_insight_matc.Base.Dict.{Dict, get, put}
use marx_engels_insight_matc.Base.Compare.{compare_text}
use marx_engels_insight_matc.Base.Sort.{sort_by}
use marx_engels_insight_matc.Ingestion.Failures.{Attempt, done, failed, key_error}

-- `PassageLifecycle` of ingestion/layer_models.py.
pub data PassageLifecycle : Type 0 where
  active superseded rejected : PassageLifecycle

abbrev pub is_active : PassageLifecycle → Bool
is_active active = true
is_active superseded = false
is_active rejected = false

pub record Passage : Type 0 where
  pub id : Text
  pub status : PassageLifecycle
  pub supersedes_id : List Text
  pub superseded_by : List Text

-- `issued` counts the identifiers that `uuid.uuid4` has given.
pub record IdRegistry : Type 0 where
  pub pages : Dict Text
  pub works : Dict Text
  pub sections : Dict Text
  pub passages : Dict Passage
  pub issued : ℕ

unfoldable pub lookup_from : Text → Dict Passage → Option Text
lookup_from evidence_id [] = none
lookup_from evidence_id ((key, record_found) ∷ d) =
    if text_eq record_found.id evidence_id then some key else lookup_from evidence_id d

unfoldable pub lookup_passage_key : Text → IdRegistry → Option Text
unfolding lookup_from
lookup_passage_key evidence_id r = lookup_from evidence_id r.passages

-- The record of a key is changed in place.
unfoldable pub change : Text → (Passage → Passage) → IdRegistry → IdRegistry
change key f r = elim (get key r.passages) [
  | none ↦ r
  | some p ↦ record r { passages = put key (f p) r.passages }
]

abbrev pub supersede_by : List Text → Passage → Passage
supersede_by ids p = record p { status = superseded; superseded_by = ids }

-- The loop of `merge_passages`.
unfoldable pub supersede_all : Text → Text → List Text → IdRegistry → IdRegistry
unfolding change lookup_passage_key
supersede_all merged new_key [] r = r
supersede_all merged new_key (i ∷ ids) r =
    supersede_all merged new_key ids (elim (lookup_passage_key i r) [
      | none ↦ r
      | some key ↦ if text_eq key new_key then r else change key (supersede_by (merged ∷ [])) r
    ])

unfoldable pub reject_passage : Text → IdRegistry → Attempt IdRegistry
unfolding change lookup_passage_key
reject_passage evidence_id r = elim (lookup_passage_key evidence_id r) [
  | none ↦ failed (key_error evidence_id)
  | some key ↦ done (change key (λ p. record p { status = rejected }) r)
]

-- `dict(sorted(d.items()))`: the keys of a dictionary are distinct, so the values do not decide.
unfoldable pub sorted_items {ℓ} : {V : Type ℓ} → Dict V → Dict V
sorted_items d = sort_by (λ a b. compare_text a.0 b.0) d

-- What `save` writes and `load` reads back.
unfoldable pub saved : IdRegistry → IdRegistry
unfolding sorted_items
saved r = record r {
  pages = sorted_items r.pages;
  works = sorted_items r.works;
  sections = sorted_items r.sections;
  passages = sorted_items r.passages;
}

-- `uuid n` is the text of the identifier that the n-th call of `uuid.uuid4` gives.
module _ (uuid : ℕ → Text) where
  unfoldable pub new_prefixed_id : Text → IdRegistry → Text
  new_prefixed_id prefix r = prefix ++ (codes "_" ++ uuid r.issued)

  unfoldable pub page_id : Text → ℕ → IdRegistry → Text × IdRegistry
  unfolding new_prefixed_id
  page_id volume_id pdf_page r =
      let key = volume_id ++ (codes "|" ++ to_decimal pdf_page) in
      let id = new_prefixed_id (codes "page") r in
      elim (get key r.pages) [
        | some old ↦ (old, r)
        | none ↦ (id, record r { pages = put key id r.pages; issued = suc r.issued })
      ]

  unfoldable pub work_id : Text → IdRegistry → Text × IdRegistry
  unfolding new_prefixed_id
  work_id key r =
      let id = new_prefixed_id (codes "work") r in
      elim (get key r.works) [
        | some old ↦ (old, r)
        | none ↦ (id, record r { works = put key id r.works; issued = suc r.issued })
      ]

  unfoldable pub section_id : Text → IdRegistry → Text × IdRegistry
  unfolding new_prefixed_id
  section_id key r =
      let id = new_prefixed_id (codes "sec") r in
      elim (get key r.sections) [
        | some old ↦ (old, r)
        | none ↦ (id, record r { sections = put key id r.sections; issued = suc r.issued })
      ]

  -- The identifier of the active passage of a key, which is made if there is none.
  unfoldable pub evidence_id : Text → List Text → IdRegistry → Text × IdRegistry
  unfolding new_prefixed_id
  evidence_id key supersedes r =
      let id = new_prefixed_id (codes "ev") r in
      let made : IdRegistry = record r {
        passages =
            put key
              (record { id = id; status = active; supersedes_id = supersedes; superseded_by = [] })
              r.passages;
        issued = suc r.issued;
      } in
      elim (get key r.passages) [
        | none ↦ (id, made)
        | some p ↦ if is_active p.status then (p.id, r) else (id, made)
      ]

  -- The list comprehension of `split_passage`.
  unfoldable pub part_ids : List Text → List Text → IdRegistry → List Text × IdRegistry
  unfolding evidence_id
  part_ids supersedes [] r = ([], r)
  part_ids supersedes (key ∷ keys) r =
      let (id, r') = evidence_id key supersedes r in
      let (ids, r'') = part_ids supersedes keys r' in (id ∷ ids, r'')

  -- The record of the source is changed through a reference that was taken before the parts. The
  -- reference is that of the registry unless a part took the key of a source that is not active.
  unfoldable pub split_passage : Text → List Text → IdRegistry → Attempt (List Text × IdRegistry)
  unfolding change lookup_passage_key part_ids
  split_passage passage_id part_keys r = elim (lookup_passage_key passage_id r) [
    | none ↦ failed (key_error passage_id)
    | some source_key ↦
        let (new_ids, parts) = part_ids (passage_id ∷ []) part_keys r in
        let kept : Bool = elim (get source_key r.passages) [
          | none ↦ false
          | some p ↦ is_active p.status || not (contains source_key part_keys)
        ] in
        done (new_ids, if kept then change source_key (supersede_by new_ids) parts else parts)
  ]

  unfoldable pub merge_passages : List Text → Text → IdRegistry → Text × IdRegistry
  unfolding evidence_id supersede_all
  merge_passages evidence_ids new_key r =
      let (merged, r') = evidence_id new_key evidence_ids r in
      (merged, supersede_all merged new_key evidence_ids r')
