-- ===== src/Ingestion/Registry/Invariant.antt =====
-- The identifiers of packages/marx_engels/ingestion/id_registry.py are not given twice.
use marx_engels_insight_matc.Base.{
  Text, codes, ℕ, suc, ◌<◌, ◌++◌, some, false, ◌≡◌, ◌≢◌, refl, sym, ap, ◌∙◌, ◌⊎◌, inl, inr,
  Bool-cases, Option-cases, arith,
}
use marx_engels_insight_matc.Base.Strings.{text_eq, text_eq_iff}
use marx_engels_insight_matc.Base.Unique.{Distinct}
use marx_engels_insight_matc.Base.Dict.{Dict, get, put, keys, get-put, Distinct-keys-put}
use marx_engels_insight_matc.Ingestion.Registry.{Passage, IdRegistry, change}

-- What is read after a write: the new passage under its key, and the old ones elsewhere.
pub read_after :
    (k key : Text) (q new : Passage) (d : Dict Passage)
    → get k (put key new d) ≡ some q
    → ((k ≡ key) × (q ≡ new)) ⊎ ((text_eq k key ≡ false) × (get k d ≡ some q))
read_after k key q new d h = elim (Bool-cases (text_eq k key)) [
  | inl same ↦ inl ((text_eq_iff k key).0 same, ground (arith, get-put key k new d))
  | inr differs ↦ inr (differs, ground (arith, get-put key k new d))
]

module _ (uuid : ℕ → Text) where
  abbrev pub ev : ℕ → Text
  ev n = codes "ev" ++ (codes "_" ++ uuid n)

  -- A key stands once, an identifier was given before, and no two keys have the same one.
  pub record IsRegistry (r : IdRegistry) : Type 0 where
    pub keyed : Distinct (keys r.passages)
    pub given_before :
        (k : Text) (p : Passage)
        → get k r.passages ≡ some p
        → (n : ℕ) × (n < r.issued) × (p.id ≡ ev n)
    pub unique :
        (k j : Text) (p q : Passage)
        → get k r.passages ≡ some p
        → get j r.passages ≡ some q
        → p.id ≡ q.id
        → k ≡ j

  old_passage :
      (key : Text) (f : Passage → Passage) (p : Passage) (d : Dict Passage)
      → ((x : Passage) → (f x).id ≡ x.id)
      → get key d ≡ some p
      → (k : Text) (q : Passage) → get k (put key (f p) d) ≡ some q
      → (x : Passage) × (get k d ≡ some x) × (q.id ≡ x.id)
  old_passage key f p d same found k q g = elim (read_after k key q (f p) d g) [
    | inl (at_key, new) ↦
        (p, (λ i. get (at_key i) d) ∙ found, ap (λ (x : Passage). x.id) new ∙ same p)
    | inr (elsewhere, old) ↦ (q, old, refl)
  ]

  -- A passage that is there is changed, and keeps its identifier.
  pub change-IsRegistry :
      (key : Text) (f : Passage → Passage) (r : IdRegistry)
      → ((p : Passage) → (f p).id ≡ p.id)
      → IsRegistry r
      → IsRegistry (change key f r)
  unfolding change
  change-IsRegistry key f r same h = elim (Option-cases (get key r.passages)) [
    | inl absent ↦ rw (absent, change) h
    | inr (p, found) ↦
        rw (found, change)
          (record {
            keyed = Distinct-keys-put key (f p) r.passages h.keyed;
            given_before = λ k q g.
                let (x, old, e) = old_passage key f p r.passages same found k q g in
                let (n, lt, made) = h.given_before k x old in (n, lt, e ∙ made);
            unique = λ k j q s g g' e.
                let (x, old, a) = old_passage key f p r.passages same found k q g in
                let (y, old', b) = old_passage key f p r.passages same found j s g' in
                h.unique k j x y old old' (sym a ∙ (e ∙ b));
          })
  ]

  -- More identifiers may have been given.
  pub issue-IsRegistry :
      (r : IdRegistry) (pages works sections : Dict Text)
      → IsRegistry r
      → IsRegistry (record {
        pages = pages;
        works = works;
        sections = sections;
        passages = r.passages;
        issued = suc r.issued;
      })
  issue-IsRegistry r pages works sections h = record {
    keyed = h.keyed;
    given_before = λ k q g. let (n, lt, made) = h.given_before k q g in (n, omega arith, made);
    unique = h.unique;
  }

  module _ (fresh : (m n : ℕ) → uuid m ≡ uuid n → m ≡ n) where
    not_given_before :
        (r : IdRegistry) (k : Text) (q : Passage)
        → IsRegistry r
        → get k r.passages ≡ some q
        → q.id ≢ ev r.issued
    not_given_before r k q h g e =
        let (n, lt, made) = h.given_before k q g in
        let same : uuid n ≡ uuid r.issued = let e' = sym made ∙ e in cc in
        absurd (omega (arith, fresh n r.issued same))

    pub new-IsRegistry :
        (key : Text) (p : Passage) (r : IdRegistry)
        → p.id ≡ ev r.issued
        → IsRegistry r
        → IsRegistry (record r { passages = put key p r.passages; issued = suc r.issued })
    new-IsRegistry key p r new h = record {
      keyed = Distinct-keys-put key p r.passages h.keyed;
      given_before = λ k q g. elim (read_after k key q p r.passages g) [
        | inl (at_key, is_new) ↦ (r.issued, omega arith, ap (λ (x : Passage). x.id) is_new ∙ new)
        | inr (elsewhere, old) ↦
            let (n, lt, made) = h.given_before k q old in (n, omega arith, made)
      ];
      unique = λ k j q s g g' e. elim (read_after k key q p r.passages g) [
        | inl (at_key, is_new) ↦ elim (read_after j key s p r.passages g') [
          | inl (at_key', is_new') ↦ at_key ∙ sym at_key'
          | inr (elsewhere, old) ↦
              absurd
                (not_given_before r j s h old (sym e ∙ (ap (λ (x : Passage). x.id) is_new ∙ new)))
        ]
        | inr (elsewhere, old) ↦ elim (read_after j key s p r.passages g') [
          | inl (at_key', is_new') ↦
              absurd (not_given_before r k q h old (e ∙ (ap (λ (x : Passage). x.id) is_new' ∙ new)))
          | inr (elsewhere', old') ↦ h.unique k j q s old old' e
        ]
      ];
    }
