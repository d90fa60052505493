-- ===== src/Ingestion/Registry/Items.antt =====
-- The sorted dictionaries that packages/marx_engels/ingestion/id_registry.py saves.
use Prim.Native.Nat.{Ordering}
use marx_engels_insight_matc.Base.{Text, [], ◌∷◌, ◌≡◌, refl, false, arith}
use marx_engels_insight_matc.Base.Strings.{text_eq_iff}
use marx_engels_insight_matc.Base.Unique.{
  contains, Distinct, count-Distinct, count-absent, count-present, Distinct-of_count,
}
use marx_engels_insight_matc.Base.Compare.{compare_text}
use marx_engels_insight_matc.Base.Dict.{Dict, get, keys}
use marx_engels_insight_matc.Base.Sort.{insert_by, sort_by, count-sort_by}
use marx_engels_insight_matc.Ingestion.Registry.{sorted_items}

module _ {V : Type 0} where
  key_order : Text × V → Text × V → Ordering
  key_order a b = compare_text a.0 b.0

  -- A new item may stand anywhere.
  get-insert_by :
      (k : Text) (cmp : Text × V → Text × V → Ordering) (x : Text × V) (d : Dict V)
      → contains x.0 (keys d) ≡ false
      → get k (insert_by cmp x d) ≡ get k (x ∷ d)
  unfolding get insert_by contains
  get-insert_by k cmp x [] h = refl
  get-insert_by k cmp x (y ∷ d) h =
      ground
        (arith, get-insert_by k cmp x d, text_eq_iff k x.0, text_eq_iff k y.0, text_eq_iff x.0 y.0)

  contains-sort_by :
      (k : Text) (cmp : Text × V → Text × V → Ordering) (d : Dict V)
      → contains k (keys d) ≡ false
      → contains k (keys (sort_by cmp d)) ≡ false
  contains-sort_by k cmp d h = ground (
    arith,
    count-sort_by (λ (e : Text × V). e.0) cmp k d,
    count-absent k (keys d),
    count-present k (keys (sort_by cmp d)),
  )

  get-sort_by :
      (k : Text) (cmp : Text × V → Text × V → Ordering) (d : Dict V)
      → Distinct (keys d)
      → get k (sort_by cmp d) ≡ get k d
  unfolding get sort_by
  get-sort_by k cmp [] h = refl
  get-sort_by k cmp (x ∷ d) h = ground (
    arith,
    get-insert_by k cmp x (sort_by cmp d),
    contains-sort_by x.0 cmp d,
    get-sort_by k cmp d,
  )

  -- Sorting the items changes no value.
  pub get-sorted_items :
      (k : Text) (d : Dict V) → Distinct (keys d) → get k (sorted_items d) ≡ get k d
  unfolding sorted_items
  get-sorted_items k d = get-sort_by k (λ a b. compare_text a.0 b.0) d

  pub Distinct-sorted_items : (d : Dict V) → Distinct (keys d) → Distinct (keys (sorted_items d))
  unfolding sorted_items
  Distinct-sorted_items d h =
      Distinct-of_count (keys (sort_by (λ a b. compare_text a.0 b.0) d)) (λ i. ground (
        arith,
        count-sort_by (λ (e : Text × V). e.0) (λ a b. compare_text a.0 b.0) i d,
        count-Distinct i (keys d) h,
      ))
