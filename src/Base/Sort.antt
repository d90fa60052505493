-- ===== src/Base/Sort.antt =====
-- `sorted(xs, key=…)`: a stable sort by a three-way comparison of keys.
use Prim.Native.Nat.{suc, Ordering}
use mathlib.Core.Path.{◌≡◌, refl, ap, sym, ◌∙◌}
use mathlib.Core.Logic.{inl, inr}
use mathlib.Core.Bool.{true, false}
use mathlib.Core.List.{List, [], ◌∷◌, ◌++◌, map}
use native.Mathlib.Omega.{arith}
use marx_engels_insight_matc.Base.Tests.{if◌then◌else◌, Bool-cases}
use marx_engels_insight_matc.Base.Lists.{length, concat, All}
use marx_engels_insight_matc.Base.Strings.{Text}
use marx_engels_insight_matc.Base.Unique.{count, count-append, map_same}
use marx_engels_insight_matc.Base.Compare.{IsOrder, le_of, le_of_trans, le_of_total}

module _ {ℓ} {A : Type ℓ} where
  -- `x` before the first element that is not smaller
  unfoldable pub insert_by : (A → A → Ordering) → A → List A → List A
  insert_by cmp x [] = x ∷ []
  insert_by cmp x (y ∷ ys) = if le_of cmp x y then x ∷ y ∷ ys else y ∷ insert_by cmp x ys

  unfoldable pub sort_by : (A → A → Ordering) → List A → List A
  unfolding insert_by
  sort_by cmp [] = []
  sort_by cmp (x ∷ xs) = insert_by cmp x (sort_by cmp xs)

  -- Every element stands before all that are not smaller.
  abbrev pub Ascending : (A → A → Ordering) → List A → Type ℓ
  Ascending cmp [] = Unit
  Ascending cmp (x ∷ xs) = All (λ y. le_of cmp x y ≡ true) xs × Ascending cmp xs

  module _ {κ} (P : A → Type κ) (cmp : A → A → Ordering) where
    All-insert_by : (x : A) (xs : List A) → P x → All P xs → All P (insert_by cmp x xs)
    unfolding insert_by
    All-insert_by x [] p h = (p, tt)
    All-insert_by x (y ∷ ys) p h =
        elim (le_of cmp x y) as (λ b. All P (if b then x ∷ y ∷ ys else y ∷ insert_by cmp x ys)) [
          | true ↦ (p, h)
          | false ↦ (h.0, All-insert_by x ys p h.1)
        ]

    -- What holds of every element holds of every element of the sorted list.
    pub All-sort_by : (xs : List A) → All P xs → All P (sort_by cmp xs)
    unfolding sort_by
    All-sort_by [] h = tt
    All-sort_by (x ∷ xs) h = All-insert_by x (sort_by cmp xs) h.0 (All-sort_by xs h.1)

    All-of_insert_by : (x : A) (xs : List A) → All P (insert_by cmp x xs) → P x × All P xs
    unfolding insert_by
    All-of_insert_by x [] h = h
    All-of_insert_by x (y ∷ ys) h =
        elim (le_of cmp x y)
            as (λ b.
              All P (if b then x ∷ y ∷ ys else y ∷ insert_by cmp x ys) → P x × All P (y ∷ ys)) [
                | true ↦ λ k. k
                | false ↦ λ k. let (p, ps) = All-of_insert_by x ys k.1 in (p, (k.0, ps))
              ]
          h

    -- What holds of every element of the sorted list holds of every element.
    pub All-of_sort_by : (xs : List A) → All P (sort_by cmp xs) → All P xs
    unfolding sort_by
    All-of_sort_by [] h = tt
    All-of_sort_by (x ∷ xs) h =
        let (p, ps) = All-of_insert_by x (sort_by cmp xs) h in (p, All-of_sort_by xs ps)

  module _ {cmp : A → A → Ordering} (o : IsOrder cmp) where
    All-le_trans :
        (x y : A) (ys : List A)
        → le_of cmp x y ≡ true
        → All (λ z. le_of cmp y z ≡ true) ys
        → All (λ z. le_of cmp x z ≡ true) ys
    All-le_trans x y [] h hs = tt
    All-le_trans x y (z ∷ zs) h hs = (le_of_trans o x y z h hs.0, All-le_trans x y zs h hs.1)

    insert_by-Ascending :
        (x : A) (xs : List A) → Ascending cmp xs → Ascending cmp (insert_by cmp x xs)
    unfolding insert_by
    insert_by-Ascending x [] a = (tt, tt)
    insert_by-Ascending x (y ∷ ys) a = elim (Bool-cases (le_of cmp x y)) [
      | inl h ↦ rw h ((h, All-le_trans x y ys h a.0), a)
      | inr h ↦ rw h (
        All-insert_by (λ z. le_of cmp y z ≡ true) cmp x ys (le_of_total o x y h) a.0,
        insert_by-Ascending x ys a.1,
      )
    ]

    pub sort_by-Ascending : (xs : List A) → Ascending cmp (sort_by cmp xs)
    unfolding sort_by
    sort_by-Ascending [] = tt
    sort_by-Ascending (x ∷ xs) = insert_by-Ascending x (sort_by cmp xs) (sort_by-Ascending xs)

  module _ (cmp : A → A → Ordering) where
    length-insert_by : (x : A) (xs : List A) → length (insert_by cmp x xs) ≡ suc (length xs)
    unfolding insert_by
    length-insert_by x [] = refl
    length-insert_by x (y ∷ ys) = ground (arith, length-insert_by x ys)

    pub length-sort_by : (xs : List A) → length (sort_by cmp xs) ≡ length xs
    unfolding sort_by
    length-sort_by [] = refl
    length-sort_by (x ∷ xs) = length-insert_by x (sort_by cmp xs) ∙ ap suc (length-sort_by xs)

  module _ (name : A → Text) (cmp : A → A → Ordering) where
    count-insert_by :
        (i : Text) (x : A) (xs : List A)
        → count i (map name (insert_by cmp x xs)) ≡ count i (name x ∷ map name xs)
    unfolding insert_by count
    count-insert_by i x [] = refl
    count-insert_by i x (y ∷ ys) = ground (arith, count-insert_by i x ys)

    -- Sorting keeps the occurrences of every name.
    pub count-sort_by :
        (i : Text) (xs : List A) → count i (map name (sort_by cmp xs)) ≡ count i (map name xs)
    unfolding sort_by count
    count-sort_by i [] = refl
    count-sort_by i (x ∷ xs) =
        omega (arith, count-insert_by i x (sort_by cmp xs), count-sort_by i xs)

module _ {ℓ} {A : Type ℓ} (names : A → List Text) (cmp : A → A → Ordering) where
  count-concat-insert_by :
      (i : Text) (x : A) (xs : List A)
      → count i (concat (map names (insert_by cmp x xs)))
        ≡ count i (names x ++ concat (map names xs))
  unfolding insert_by
  count-concat-insert_by i x [] = refl
  count-concat-insert_by i x (y ∷ ys) = ground (
    arith,
    count-concat-insert_by i x ys,
    count-append i (names x) (names y ++ concat (map names ys)),
    count-append i (names x) (concat (map names ys)),
    count-append i (names y) (concat (map names ys)),
    count-append i (names y) (concat (map names (insert_by cmp x ys))),
  )

  -- Sorting keeps the occurrences of every name of the elements.
  pub count-concat-sort_by :
      (i : Text) (xs : List A)
      → count i (concat (map names (sort_by cmp xs))) ≡ count i (concat (map names xs))
  unfolding sort_by
  count-concat-sort_by i [] = refl
  count-concat-sort_by i (x ∷ xs) = omega (
    arith,
    count-concat-insert_by i x (sort_by cmp xs),
    count-append i (names x) (concat (map names (sort_by cmp xs))),
    count-append i (names x) (concat (map names xs)),
    count-concat-sort_by i xs,
  )

pub count-sort_texts :
    (cmp : Text → Text → Ordering) (i : Text) (xs : List Text)
    → count i (sort_by cmp xs) ≡ count i xs
count-sort_texts cmp i xs =
    ap (count i) (sym (map_same (sort_by cmp xs)))
    ∙ (count-sort_by (λ (x : Text). x) cmp i xs ∙ ap (count i) (map_same xs))
