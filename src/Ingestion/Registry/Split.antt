-- ===== src/Ingestion/Registry/Split.antt =====
-- `split_passage` of packages/marx_engels/ingestion/id_registry.py.
use marx_engels_insight_matc.Base.{
  Text, codes, ℕ, List, [], ◌∷◌, some, true, false, ◌≡◌, refl, sym, ◌∙◌, inl, inr, Bool-cases,
  Option-cases, arith,
}
use marx_engels_insight_matc.Base.Strings.{text_eq, text_eq_iff, text_eq_refl}
use marx_engels_insight_matc.Base.Unique.{contains}
use marx_engels_insight_matc.Base.Dict.{get, get-put}
use marx_engels_insight_matc.Ingestion.Failures.{done}
use marx_engels_insight_matc.Ingestion.Registry.{
  active, is_active, Passage, IdRegistry, lookup_passage_key, change, supersede_by, new_prefixed_id,
  evidence_id, part_ids, split_passage,
}
use marx_engels_insight_matc.Ingestion.Registry.Steps.{Reach, empty}
use marx_engels_insight_matc.Ingestion.Registry.Lookup.{lookup_passage_key_iff}

-- The active passage of the key has the identifier.
abbrev pub IsActive : IdRegistry → Text → Text → Type 0
IsActive r key id =
    (p : Passage) × (get key r.passages ≡ some p) × (p.id ≡ id) × (is_active p.status ≡ true)

-- The identifiers are those of the active passages of the keys, one by one.
abbrev pub AreActive : IdRegistry → List Text → List Text → Type 0
AreActive r [] [] = Unit
AreActive r [] (i ∷ ids) = ⊥
AreActive r (k ∷ keys) [] = ⊥
AreActive r (k ∷ keys) (i ∷ ids) = IsActive r k i × AreActive r keys ids

module _ (uuid : ℕ → Text) (supersedes : List Text) where
  abbrev made : IdRegistry → Passage
  made r = record {
    id = new_prefixed_id uuid (codes "ev") r;
    status = active;
    supersedes_id = supersedes;
    superseded_by = [];
  }

  evidence_id-IsActive :
      (key : Text) (r : IdRegistry)
      → IsActive (evidence_id uuid key supersedes r).1 key (evidence_id uuid key supersedes r).0
  unfolding evidence_id
  evidence_id-IsActive key r = elim (Option-cases (get key r.passages)) [
    | inl absent ↦
        rw (absent, evidence_id)
          (
            made r,
            ground (arith, get-put key key (made r) r.passages, text_eq_refl key),
            refl,
            refl,
          )
    | inr (p, found) ↦ elim (Bool-cases (is_active p.status)) [
      | inl old ↦ rw (found, old, evidence_id) (p, found, refl, old)
      | inr gone ↦
          rw (found, gone, evidence_id)
            (
              made r,
              ground (arith, get-put key key (made r) r.passages, text_eq_refl key),
              refl,
              refl,
            )
    ]
  ]

  -- The passages of other keys stay as they are.
  evidence_id_others :
      (key : Text) (r : IdRegistry) (k : Text)
      → text_eq k key ≡ false
      → get k (evidence_id uuid key supersedes r).1.passages ≡ get k r.passages
  unfolding evidence_id
  evidence_id_others key r k h = elim (Option-cases (get key r.passages)) [
    | inl absent ↦ rw (absent, evidence_id) (get-put key k _ r.passages ∙ ground arith)
    | inr (p, found) ↦ elim (Bool-cases (is_active p.status)) [
      | inl old ↦ rw (found, old, evidence_id) refl
      | inr gone ↦ rw (found, gone, evidence_id) (get-put key k _ r.passages ∙ ground arith)
    ]
  ]

  -- An active passage stays as it is.
  evidence_id_keeps :
      (key : Text) (r : IdRegistry) (k : Text) (p : Passage)
      → get k r.passages ≡ some p
      → is_active p.status ≡ true
      → get k (evidence_id uuid key supersedes r).1.passages ≡ some p
  unfolding evidence_id
  evidence_id_keeps key r k p g a = elim (Bool-cases (text_eq k key)) [
    | inr differs ↦ evidence_id_others key r k differs ∙ g
    | inl same ↦ unchanged ((text_eq_iff k key).0 same)
  ]
    where
      unchanged : k ≡ key → get k (evidence_id uuid key supersedes r).1.passages ≡ some p
      unchanged e =
          let found : get key r.passages ≡ some p = (λ i. get (sym e i) r.passages) ∙ g in
          rw (found, a, evidence_id) g

  part_ids_keeps :
      (keys : List Text) (r : IdRegistry) (k : Text) (p : Passage)
      → get k r.passages ≡ some p
      → is_active p.status ≡ true
      → get k (part_ids uuid supersedes keys r).1.passages ≡ some p
  unfolding part_ids
  part_ids_keeps [] r k p g a = g
  part_ids_keeps (key ∷ keys) r k p g a =
      part_ids_keeps keys (evidence_id uuid key supersedes r).1 k p
        (evidence_id_keeps key r k p g a) a

  part_ids_others :
      (keys : List Text) (r : IdRegistry) (k : Text)
      → contains k keys ≡ false
      → get k (part_ids uuid supersedes keys r).1.passages ≡ get k r.passages
  unfolding part_ids contains
  part_ids_others [] r k h = refl
  part_ids_others (key ∷ keys) r k h =
      part_ids_others keys (evidence_id uuid key supersedes r).1 k (ground arith)
      ∙ evidence_id_others key r k (ground arith)

  part_ids-AreActive :
      (keys : List Text) (r : IdRegistry)
      → AreActive (part_ids uuid supersedes keys r).1 keys (part_ids uuid supersedes keys r).0
  unfolding part_ids
  part_ids-AreActive [] r = tt
  part_ids-AreActive (key ∷ keys) r =
      let r' = (evidence_id uuid key supersedes r).1 in
      let (p, g, e, a) = evidence_id-IsActive key r in
      ((p, part_ids_keeps keys r' key p g a, e, a), part_ids-AreActive keys r')

change-others :
    (key : Text) (f : Passage → Passage) (r : IdRegistry) (k : Text)
    → text_eq k key ≡ false
    → get k (change key f r).passages ≡ get k r.passages
unfolding change
change-others key f r k h = elim (Option-cases (get key r.passages)) [
  | inl absent ↦ rw (absent, change) refl
  | inr (p, found) ↦ rw (found, change) (get-put key k (f p) r.passages ∙ ground arith)
]

change_self :
    (key : Text) (f : Passage → Passage) (r : IdRegistry) (p : Passage)
    → get key r.passages ≡ some p
    → get key (change key f r).passages ≡ some (f p)
unfolding change
change_self key f r p found =
    rw (found, change) (get-put key key (f p) r.passages ∙ ground (arith, text_eq_refl key))

change-AreActive :
    (key : Text) (f : Passage → Passage) (r : IdRegistry) (keys ids : List Text)
    → contains key keys ≡ false
    → AreActive r keys ids
    → AreActive (change key f r) keys ids
unfolding contains
change-AreActive key f r [] [] h a = tt
change-AreActive key f r [] (i ∷ ids) h a = absurd a
change-AreActive key f r (k ∷ keys) [] h a = absurd a
change-AreActive key f r (k ∷ keys) (i ∷ ids) h ((p, g, e, s), rest) =
    let differs : text_eq k key ≡ false = ground (arith, text_eq_iff k key, text_eq_iff key k) in
    (
      (p, change-others key f r k differs ∙ g, e, s),
      change-AreActive key f r keys ids (ground arith) rest,
    )

-- In a registry that any sequence of operations has made from an empty one, with fresh random
-- identifiers, split an active passage into parts whose keys are not its own. The split returns
-- one identifier for each part, that of the active passage of the part's key; the passage is
-- superseded by them, and keeps its identifier and what it supersedes; and the passages of all
-- other keys are as they were.
pub split_passage_lem :
    (uuid : ℕ → Text) (r : IdRegistry) (key : Text) (p : Passage) (parts : List Text)
    → ((m n : ℕ) → uuid m ≡ uuid n → m ≡ n)
    → Reach uuid empty r
    → get key r.passages ≡ some p
    → is_active p.status ≡ true
    → contains key parts ≡ false
    → (ids : List Text) × (s : IdRegistry) × (split_passage uuid p.id parts r ≡ done (ids, s))
      × AreActive s parts ids
      × (get key s.passages ≡ some (supersede_by ids p))
      × ((k : Text)
          → text_eq k key ≡ false
          → contains k parts ≡ false
          → get k s.passages ≡ get k r.passages)
unfolding split_passage
split_passage_lem uuid r key p parts fresh reach g a new =
    let found : lookup_passage_key p.id r ≡ some key =
      (lookup_passage_key_iff uuid r fresh reach p.id key).1 (p, g, refl) in
    let (ids, made) = part_ids uuid (p.id ∷ []) parts r in
    let kept : get key made.passages ≡ some p =
      part_ids_others uuid (p.id ∷ []) parts r key new ∙ g in
    (
      ids,
      change key (supersede_by ids) made,
      rw (found, g, a, split_passage) refl,
      change-AreActive key (supersede_by ids) made parts ids new
          (part_ids-AreActive uuid (p.id ∷ []) parts r),
      change_self key (supersede_by ids) made p kept,
      λ k h h'.
          change-others key (supersede_by ids) made k h
          ∙ part_ids_others uuid (p.id ∷ []) parts r k h',
    )
