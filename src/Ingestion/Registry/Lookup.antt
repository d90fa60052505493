-- ===== src/Ingestion/Registry/Lookup.antt =====
-- `lookup_passage_key` of packages/marx_engels/ingestion/id_registry.py is the inverse of the
-- table of passages.
use marx_engels_insight_matc.Base.{
  Text, ℕ, [], ◌∷◌, some, false, ◌≡◌, ◌↔◌, sym, ap, ◌∙◌, inl, inr, Bool-cases, arith,
}
use marx_engels_insight_matc.Base.Strings.{text_eq, text_eq_iff, text_eq_refl}
use marx_engels_insight_matc.Base.Unique.{contains, Distinct}
use marx_engels_insight_matc.Base.Dict.{Dict, get, keys, contains-keys}
use marx_engels_insight_matc.Ingestion.Registry.{
  Passage, IdRegistry, lookup_from, lookup_passage_key,
}
use marx_engels_insight_matc.Ingestion.Registry.Invariant.{IsRegistry}
use marx_engels_insight_matc.Ingestion.Registry.Steps.{
  Reach, empty, empty-IsRegistry, Reach-IsRegistry,
}

-- What stands later under another key stands there.
get_later :
    (j k : Text) (q p : Passage) (d : Dict Passage)
    → contains j (keys d) ≡ false
    → get k d ≡ some p
    → (text_eq k j ≡ false) × (get k ((j, q) ∷ d) ≡ some p)
unfolding get
get_later j k q p d h g = elim (Bool-cases (text_eq k j)) [
  | inr differs ↦ (differs, ground arith)
  | inl same ↦
      let e : k ≡ j = (text_eq_iff k j).0 same in
      let here : get j d ≡ some p = (λ i. get (sym e i) d) ∙ g in
      absurd (ground (arith, contains-keys j d))
]

lookup_from-get :
    (k : Text) (p : Passage) (d : Dict Passage)
    → Distinct (keys d)
    → ((j : Text) (q : Passage) → get j d ≡ some q → q.id ≡ p.id → j ≡ k)
    → get k d ≡ some p
    → lookup_from p.id d ≡ some k
unfolding get lookup_from
lookup_from-get k p [] d u h = absurd (cc)
lookup_from-get k p ((j, q) ∷ d) (new, distinct) u h = elim (Bool-cases (text_eq q.id p.id)) [
  | inl same ↦
      rw (same, lookup_from)
        (ap (λ (x : Text). some x)
          (u j q (ground (arith, text_eq_refl j)) ((text_eq_iff q.id p.id).0 same)))
  | inr differs ↦
      let here : get k d ≡ some p = ground (arith, text_eq_refl p.id) in
      rw (differs, lookup_from)
        (lookup_from-get k p d distinct (λ i x g e. u i x (get_later j i q x d new g).1 e) here)
]

lookup_from-some :
    (i k : Text) (d : Dict Passage)
    → Distinct (keys d)
    → lookup_from i d ≡ some k
    → (p : Passage) × (get k d ≡ some p) × (p.id ≡ i)
unfolding lookup_from get
lookup_from-some i k [] d h = absurd (cc)
lookup_from-some i k ((j, q) ∷ d) (new, distinct) h = elim (Bool-cases (text_eq q.id i)) [
  | inl same ↦ (q, ground (arith, text_eq_refl j, text_eq_refl k), (text_eq_iff q.id i).0 same)
  | inr differs ↦
      let (p, g, e) = lookup_from-some i k d distinct (ground arith) in
      (p, (get_later j k q p d new g).1, e)
]

-- In a registry that any sequence of operations has made from an empty one, with fresh random
-- identifiers, the key that is looked up for an identifier is the one under which a passage with
-- that identifier stands, and each passage is found by its identifier.
pub lookup_passage_key_iff :
    (uuid : ℕ → Text) (r : IdRegistry)
    → ((m n : ℕ) → uuid m ≡ uuid n → m ≡ n)
    → Reach uuid empty r
    → (i k : Text)
    → (lookup_passage_key i r ≡ some k) ↔ ((p : Passage) × (get k r.passages ≡ some p) × (p.id ≡ i))
unfolding lookup_passage_key
lookup_passage_key_iff uuid r fresh reach i k =
    let h : IsRegistry uuid r =
      Reach-IsRegistry uuid fresh empty r (empty-IsRegistry uuid fresh) reach in
    (
      lookup_from-some i k r.passages h.keyed,
      λ (p, g, e).
          (λ t. lookup_from (sym e t) r.passages)
          ∙ lookup_from-get k p r.passages h.keyed (λ j q g' e'. h.unique j k q p g' g e') g,
    )
