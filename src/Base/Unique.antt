-- ===== src/Base/Unique.antt =====
-- Collections of identifiers: membership, occurrences, first occurrences.
use marx_engels_insight_matc.Base.Tests.{if◌then◌else◌, Bool-cases}
use marx_engels_insight_matc.Base.Lists.{All, In, All-In, All-at}
use marx_engels_insight_matc.Base.Strings.{Text, text_eq, text_eq_iff, text_eq_refl}
use Prim.Native.Nat.{ℕ, ◌+◌, ◌≤◌}
use mathlib.Core.Path.{◌≡◌, refl, ap, sym, ◌∙◌}
use mathlib.Core.Logic.{inl, inr}
use mathlib.Core.Bool.{Bool, true, false, ◌||◌}
use mathlib.Core.List.{List, [], ◌∷◌, ◌++◌, map}
use native.Mathlib.Omega.{arith}

-- `i in ids`
unfoldable pub contains : Text → List Text → Bool
contains i [] = false
contains i (j ∷ ids) = text_eq i j || contains i ids

unfoldable pub count : Text → List Text → ℕ
count i [] = 0
count i (j ∷ ids) = (if text_eq i j then 1 else 0) + count i ids

-- No identifier occurs twice.
abbrev pub Distinct : List Text → Type 0
Distinct [] = Unit
Distinct (i ∷ ids) = (contains i ids ≡ false) × Distinct ids

pub contains-append :
    (i : Text) (xs ys : List Text) → contains i (xs ++ ys) ≡ (contains i xs || contains i ys)
unfolding contains
contains-append i [] ys = refl
contains-append i (x ∷ xs) ys = ground (arith, contains-append i xs ys)

pub count-append : (i : Text) (xs ys : List Text) → count i (xs ++ ys) ≡ count i xs + count i ys
unfolding count
count-append i [] ys = omega arith
count-append i (x ∷ xs) ys = omega (arith, count-append i xs ys)

-- An absent identifier has no occurrence.
pub count-absent : (i : Text) (xs : List Text) → contains i xs ≡ false → count i xs ≡ 0
unfolding contains count
count-absent i [] h = refl
count-absent i (x ∷ xs) h = ground (arith, count-absent i xs)

pub count-present : (i : Text) (xs : List Text) → contains i xs ≡ true → 1 ≤ count i xs
unfolding contains count
count-present i [] h = absurd (cc)
count-present i (x ∷ xs) h = ground (arith, count-present i xs)

-- In a list with no repetition an identifier occurs as often as it is present.
pub count-Distinct :
    (i : Text) (xs : List Text) → Distinct xs → count i xs ≡ (if contains i xs then 1 else 0)
unfolding contains count
count-Distinct i [] d = refl
count-Distinct i (x ∷ xs) d =
    ground (arith, count-Distinct i xs d.1, text_eq_iff i x, count-absent i xs)

-- At most one occurrence of each identifier is no repetition.
pub Distinct-of_count : (xs : List Text) → ((i : Text) → count i xs ≤ 1) → Distinct xs
unfolding contains count
Distinct-of_count [] h = tt
Distinct-of_count (x ∷ xs) h = (
  ground (arith, h x, text_eq_refl x, count-present x xs),
  Distinct-of_count xs (λ i. omega (arith, h i)),
)

module _ {ℓ} {A : Type ℓ} (name : A → Text) where
  -- The loop that keeps what is not in the set `seen` and adds it there.
  unfoldable pub unique_from : List Text → List A → List A
  unique_from seen [] = []
  unique_from seen (x ∷ xs) = elim (contains (name x) seen) [
    | true ↦ unique_from seen xs
    | false ↦ x ∷ unique_from (name x ∷ seen) xs
  ]

  -- The first element of each name, in order.
  unfoldable pub unique_by : List A → List A
  unfolding unique_from
  unique_by = unique_from []

  count-unique_from :
      (i : Text) (seen : List Text) (xs : List A)
      → count i (map name (unique_from seen xs))
        ≡ (if contains i seen then 0 else if contains i (map name xs) then 1 else 0)
  unfolding unique_from count contains
  count-unique_from i seen [] = ground arith
  count-unique_from i seen (x ∷ xs) = ground (
    arith,
    text_eq_iff i (name x),
    text_eq_refl i,
    count-unique_from i seen xs,
    count-unique_from i (name x ∷ seen) xs,
  )

  -- Each name that stands in the list stands once in the list of first elements.
  pub count-unique_by :
      (i : Text) (xs : List A)
      → count i (map name (unique_by xs)) ≡ (if contains i (map name xs) then 1 else 0)
  unfolding unique_by contains
  count-unique_by i xs = count-unique_from i [] xs

  pub Distinct-unique_by : (xs : List A) → Distinct (map name (unique_by xs))
  Distinct-unique_by xs =
      Distinct-of_count (map name (unique_by xs)) (λ i. ground (arith, count-unique_by i xs))

  pub contains-unique_by :
      (i : Text) (xs : List A) → contains i (map name (unique_by xs)) ≡ contains i (map name xs)
  contains-unique_by i xs = ground (
    arith,
    count-unique_by i xs,
    count-absent i (map name (unique_by xs)),
    count-present i (map name (unique_by xs)),
  )

  -- What holds of every element holds of every element that is kept.
  All-unique_from {κ} :
      (P : A → Type κ) (seen : List Text) (xs : List A) → All P xs → All P (unique_from seen xs)
  unfolding unique_from
  All-unique_from P seen [] h = tt
  All-unique_from P seen (x ∷ xs) h = elim (Bool-cases (contains (name x) seen)) [
    | inl old ↦ rw (old, unique_from) (All-unique_from P seen xs h.1)
    | inr new ↦ rw (new, unique_from) (h.0, All-unique_from P (name x ∷ seen) xs h.1)
  ]

  pub All-unique_by {κ} : (P : A → Type κ) (xs : List A) → All P xs → All P (unique_by xs)
  unfolding unique_by
  All-unique_by P = All-unique_from P []

  fresh :
      (x : A) (seen : List Text) (xs : List A)
      → contains (name x) (map name xs) ≡ false
      → All (λ y. contains (name y) seen ≡ false) xs
      → All (λ y. contains (name y) (name x ∷ seen) ≡ false) xs
  unfolding contains
  fresh x seen [] a h = tt
  fresh x seen (y ∷ ys) a h = (
    ground (arith, text_eq_iff (name x) (name y), text_eq_iff (name y) (name x), h.0),
    fresh x seen ys (ground arith) h.1,
  )

  unique_from_new :
      (seen : List Text) (xs : List A)
      → Distinct (map name xs)
      → All (λ y. contains (name y) seen ≡ false) xs
      → unique_from seen xs ≡ xs
  unfolding unique_from
  unique_from_new seen [] d new = refl
  unique_from_new seen (x ∷ xs) d new =
      ground (arith, new.0, unique_from_new (name x ∷ seen) xs d.1 (fresh x seen xs d.0 new.1))

  none_seen : (xs : List A) → All (λ y. contains (name y) [] ≡ false) xs
  unfolding contains
  none_seen [] = tt
  none_seen (x ∷ xs) = (refl, none_seen xs)

  -- A list whose names are distinct stays as it is.
  pub unique_by_of_Distinct : (xs : List A) → Distinct (map name xs) → unique_by xs ≡ xs
  unfolding unique_by
  unique_by_of_Distinct xs d = unique_from_new [] xs d (none_seen xs)

module _ {A : Type 0} (name : A → Text) where
  -- What is kept was there.
  pub unique_by-In : (x : A) (xs : List A) → In x (unique_by name xs) → In x xs
  unique_by-In x xs =
      All-at (λ y. In y xs) x (unique_by name xs) (All-unique_by name (λ y. In y xs) xs (All-In xs))

-- `list(dict.fromkeys(values))`
unfoldable pub unique_texts : List Text → List Text
unfolding unique_by
unique_texts = unique_by (λ value. value)

pub map_same : (xs : List Text) → map (λ x. x) xs ≡ xs
map_same [] = refl
map_same (x ∷ xs) = ap (◌∷◌ x) (map_same xs)

pub count-unique_texts :
    (i : Text) (xs : List Text) → count i (unique_texts xs) ≡ (if contains i xs then 1 else 0)
unfolding unique_texts
count-unique_texts i xs =
    ap (count i) (sym (map_same (unique_texts xs)))
    ∙ (count-unique_by (λ (x : Text). x) i xs
        ∙ ap (λ ys. if contains i ys then 1 else 0) (map_same xs))

pub contains-unique_texts :
    (i : Text) (xs : List Text) → contains i (unique_texts xs) ≡ contains i xs
contains-unique_texts i xs = ground (
  arith,
  count-unique_texts i xs,
  count-absent i (unique_texts xs),
  count-present i (unique_texts xs),
)

pub Distinct-unique_texts : (xs : List Text) → Distinct (unique_texts xs)
Distinct-unique_texts xs =
    Distinct-of_count (unique_texts xs) (λ i. ground (arith, count-unique_texts i xs))
