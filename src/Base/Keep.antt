-- ===== src/Base/Keep.antt =====
-- What a test keeps of a list, and how it fits with sorting and counting.
use Prim.Native.Nat.{Ordering}
use mathlib.Core.Path.{◌≡◌, refl, ap, sym, ◌∙◌}
use mathlib.Core.Logic.{inl, inr, ◌↔◌}
use mathlib.Core.Bool.{Bool, true, false≢true}
use mathlib.Core.List.{List, [], ◌∷◌, map}
use native.Mathlib.Omega.{arith}
use marx_engels_insight_matc.Base.Tests.{Bool-cases}
use marx_engels_insight_matc.Base.Lists.{keep, All, In}
use marx_engels_insight_matc.Base.Strings.{Text}
use marx_engels_insight_matc.Base.Unique.{count}
use marx_engels_insight_matc.Base.Compare.{le_of}
use marx_engels_insight_matc.Base.Sort.{insert_by, sort_by, Ascending}

module _ {ℓ} {A : Type ℓ} (p : A → Bool) where
  pub All-keep {κ} : (P : A → Type κ) (xs : List A) → All P xs → All P (keep p xs)
  All-keep P [] h = tt
  All-keep P (x ∷ xs) h = elim (Bool-cases (p x)) [
    | inl y ↦ rw y (h.0, All-keep P xs h.1)
    | inr n ↦ rw n (All-keep P xs h.1)
  ]

  -- What is kept passes the test.
  pub keep-All : (xs : List A) → All (λ x. p x ≡ true) (keep p xs)
  keep-All [] = tt
  keep-All (x ∷ xs) = elim (Bool-cases (p x)) [
    | inl y ↦ rw y (y, keep-All xs)
    | inr n ↦ rw n (keep-All xs)
  ]

  pub keep-Ascending :
      (cmp : A → A → Ordering) (xs : List A) → Ascending cmp xs → Ascending cmp (keep p xs)
  keep-Ascending cmp [] h = tt
  keep-Ascending cmp (x ∷ xs) h = elim (Bool-cases (p x)) [
    | inl y ↦ rw y (All-keep (λ z. le_of cmp x z ≡ true) xs h.0, keep-Ascending cmp xs h.1)
    | inr n ↦ rw n (keep-Ascending cmp xs h.1)
  ]

  module _ (name : A → Text) (cmp : A → A → Ordering) where
    count-keep-insert_by :
        (i : Text) (x : A) (xs : List A)
        → count i (map name (keep p (insert_by cmp x xs))) ≡ count i (map name (keep p (x ∷ xs)))
    unfolding insert_by count
    count-keep-insert_by i x [] = refl
    count-keep-insert_by i x (y ∷ ys) = ground (arith, count-keep-insert_by i x ys)

    -- Sorting keeps the occurrences of every name that is kept.
    pub count-keep-sort_by :
        (i : Text) (xs : List A)
        → count i (map name (keep p (sort_by cmp xs))) ≡ count i (map name (keep p xs))
    unfolding sort_by count
    count-keep-sort_by i [] = refl
    count-keep-sort_by i (x ∷ xs) =
        ground (arith, count-keep-insert_by i x (sort_by cmp xs), count-keep-sort_by i xs)

module _ {A : Type 0} (p : A → Bool) where
  pub In-keep_iff : (x : A) (xs : List A) → In x (keep p xs) ↔ (In x xs × (p x ≡ true))
  In-keep_iff x [] = (λ h. absurd h, λ h. absurd h.0)
  In-keep_iff x (y ∷ ys) =
      let (there, back) = In-keep_iff x ys in
      elim (Bool-cases (p y)) [
        | inl hit ↦ rw hit (
          λ h. elim h [
            | inl e ↦ (inl e, ap p e ∙ hit)
            | inr m ↦ let (k, q) = there m in (inr k, q)
          ],
          λ (h, q). elim h [ inl e ↦ inl e | inr m ↦ inr (back (m, q)) ],
        )
        | inr miss ↦ rw miss (
          λ m. let (k, q) = there m in (inr k, q),
          λ (h, q). elim h [
            | inl e ↦ absurd (false≢true (sym miss ∙ (ap p (sym e) ∙ q)))
            | inr m ↦ back (m, q)
          ],
        )
      ]
