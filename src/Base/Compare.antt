-- ===== src/Base/Compare.antt =====
-- Three-way comparison of sort keys: the laws, and the lexicographic order of tuples and texts.
use Prim.Native.Nat.{ℕ, compare, Ordering}
use mathlib.Core.Path.{◌≡◌, refl, ap}
use mathlib.Core.Bool.{Bool, true, false}
use mathlib.Core.List.{[], ◌∷◌}
use native.Mathlib.Omega.{arith}
use marx_engels_insight_matc.Base.Strings.{Text}

abbrev pub flip : Ordering → Ordering
flip Ordering.lt = Ordering.gt
flip Ordering.eq = Ordering.eq
flip Ordering.gt = Ordering.lt

-- The first comparison decides unless it finds its arguments equal.
abbrev pub then_by : Ordering → Ordering → Ordering
then_by Ordering.lt o = Ordering.lt
then_by Ordering.eq o = o
then_by Ordering.gt o = Ordering.gt

-- The laws of a weak order given by a three-way comparison.
pub record IsOrder {ℓ} {A : Type ℓ} (cmp : A → A → Ordering) : Type ℓ where
  pub swap : (a b : A) → cmp b a ≡ flip (cmp a b)
  pub lt_trans : (a b c : A) → cmp a b ≡ Ordering.lt → cmp b c ≡ Ordering.lt → cmp a c ≡ Ordering.lt
  pub eq_left : (a b c : A) → cmp a b ≡ Ordering.eq → cmp a c ≡ cmp b c

abbrev pub compare_nat : ℕ → ℕ → Ordering
compare_nat a b = compare a b

pub compare_nat-IsOrder : IsOrder compare_nat
compare_nat-IsOrder = record {
  swap = λ a b. ground arith;
  lt_trans = λ a b c h k. ground arith;
  eq_left = λ a b c h. ground arith;
}

-- `False < True`
abbrev pub compare_bool : Bool → Bool → Ordering
compare_bool false false = Ordering.eq
compare_bool false true = Ordering.lt
compare_bool true false = Ordering.gt
compare_bool true true = Ordering.eq

pub compare_bool-IsOrder : IsOrder compare_bool
compare_bool-IsOrder = record {
  swap = λ a b. ground arith;
  lt_trans = λ a b c h k. ground arith;
  eq_left = λ a b c h. ground arith;
}

-- `str.__lt__`: by code points, a proper prefix first.
unfoldable pub compare_text : Text → Text → Ordering
compare_text [] [] = Ordering.eq
compare_text [] (d ∷ t) = Ordering.lt
compare_text (c ∷ s) [] = Ordering.gt
compare_text (c ∷ s) (d ∷ t) = then_by (compare c d) (compare_text s t)

compare_text-swap : (s t : Text) → compare_text t s ≡ flip (compare_text s t)
unfolding compare_text
compare_text-swap [] [] = refl
compare_text-swap [] (d ∷ t) = refl
compare_text-swap (c ∷ s) [] = refl
compare_text-swap (c ∷ s) (d ∷ t) = ground (arith, compare_text-swap s t)

pub compare_text-eq : (s t : Text) → compare_text s t ≡ Ordering.eq → s ≡ t
unfolding compare_text
compare_text-eq [] [] h = refl
compare_text-eq [] (d ∷ t) h = cc
compare_text-eq (c ∷ s) [] h = cc
compare_text-eq (c ∷ s) (d ∷ t) h = ground (arith, compare_text-eq s t)

compare_text_trans :
    (s t u : Text)
    → compare_text s t ≡ Ordering.lt
    → compare_text t u ≡ Ordering.lt
    → compare_text s u ≡ Ordering.lt
unfolding compare_text
compare_text_trans [] [] u h k = cc
compare_text_trans [] (d ∷ t) [] h k = cc
compare_text_trans [] (d ∷ t) (e ∷ u) h k = refl
compare_text_trans (c ∷ s) [] u h k = cc
compare_text_trans (c ∷ s) (d ∷ t) [] h k = cc
compare_text_trans (c ∷ s) (d ∷ t) (e ∷ u) h k = ground (arith, compare_text_trans s t u)

pub compare_text-IsOrder : IsOrder compare_text
compare_text-IsOrder = record {
  swap = compare_text-swap;
  lt_trans = compare_text_trans;
  eq_left = λ a b c h. ap (λ t. compare_text t c) (compare_text-eq a b h);
}

-- Tuples compare by their first components, then by the rest.
abbrev pub lexicographic {ℓ κ} :
    {A : Type ℓ} {B : Type κ} → (A → A → Ordering) → (B → B → Ordering) → A × B → A × B → Ordering
lexicographic f g p q = then_by (f p.0 q.0) (g p.1 q.1)

module _ {ℓ κ} {A : Type ℓ} {B : Type κ} {f : A → A → Ordering} {g : B → B → Ordering} where
  pub lexicographic-IsOrder : IsOrder f → IsOrder g → IsOrder (lexicographic f g)
  lexicographic-IsOrder hf hg = record {
    swap = λ p q. ground (arith, hf.swap p.0 q.0, hg.swap p.1 q.1);
    lt_trans = λ p q r h k. ground (
      arith,
      hf.lt_trans p.0 q.0 r.0,
      hg.lt_trans p.1 q.1 r.1,
      hf.eq_left p.0 q.0 r.0,
      hf.eq_left r.0 q.0 p.0,
      hf.swap p.0 r.0,
      hf.swap q.0 r.0,
      hf.swap p.0 q.0,
    );
    eq_left = λ p q r h. ground (arith, hf.eq_left p.0 q.0 r.0, hg.eq_left p.1 q.1 r.1);
  }

-- Python's `-x` as a key: the order of `x` read backwards.
abbrev pub descending {ℓ} : {A : Type ℓ} → (A → A → Ordering) → A → A → Ordering
descending cmp a b = cmp b a

pub descending-IsOrder {ℓ} :
    {A : Type ℓ} {cmp : A → A → Ordering} → IsOrder cmp → IsOrder (descending cmp)
descending-IsOrder {cmp = cmp} h = record {
  swap = λ a b. h.swap b a;
  lt_trans = λ a b c p q. h.lt_trans c b a q p;
  eq_left =
      λ a b c p. ground (arith, h.eq_left b a c p, h.swap c a, h.swap c b, h.swap a c, h.swap b c);
}

-- `not b < a`
abbrev pub le_of {ℓ} : {A : Type ℓ} → (A → A → Ordering) → A → A → Bool
le_of cmp a b = elim (cmp a b) [ Ordering.gt ↦ false | _ ↦ true ]

module _ {ℓ} {A : Type ℓ} {cmp : A → A → Ordering} (o : IsOrder cmp) where
  pub le_of_trans : (a b c : A) → le_of cmp a b ≡ true → le_of cmp b c ≡ true → le_of cmp a c ≡ true
  le_of_trans a b c h k = ground (
    arith,
    o.lt_trans a b c,
    o.eq_left a b c,
    o.eq_left c b a,
    o.swap a c,
    o.swap b c,
    o.swap a b,
  )

  pub le_of_total : (a b : A) → le_of cmp a b ≡ false → le_of cmp b a ≡ true
  le_of_total a b h = ground (arith, o.swap a b)

-- Comparison by a key keeps the laws of an order.
pub by_key-IsOrder {ℓ κ} :
    {A : Type ℓ} {K : Type κ} {cmp : K → K → Ordering} (key : A → K)
    → IsOrder cmp
    → IsOrder (λ (a b : A). cmp (key a) (key b))
by_key-IsOrder key o = record {
  swap = λ a b. o.swap (key a) (key b);
  lt_trans = λ a b c. o.lt_trans (key a) (key b) (key c);
  eq_left = λ a b c. o.eq_left (key a) (key b) (key c);
}
