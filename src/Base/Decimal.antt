-- ===== src/Base/Decimal.antt =====
-- `str(n)` and `int(s)` for numbers without a sign, in decimal digits.
use Prim.Native.Nat.{ℕ, zero, suc, ◌+◌, ◌-◌, ◌*◌, ◌/◌, ◌%◌, ◌≤◌, ◌<◌}
use mathlib.Core.Path.{◌≡◌, refl, ap, sym, ◌∙◌}
use mathlib.Core.Logic.{◌≢◌, inl, inr}
use mathlib.Core.List.{[], ◌∷◌, ◌++◌}
use native.Mathlib.Omega.{arith}
use marx_engels_insight_matc.Base.Tests.{ltb, if◌then◌else◌, Bool-cases}
use marx_engels_insight_matc.Base.Lists.{length, All, All-append}
use marx_engels_insight_matc.Base.Strings.{Text}

-- The digits in front of `acc`; more fuel than digits.
digits_of : ℕ → ℕ → Text → Text
digits_of zero n acc = acc
digits_of (suc fuel) n acc =
    let rest = digits_of fuel (n / 10) ((48 + n % 10) ∷ acc) in
    if ltb n 10 then (48 + n) ∷ acc else rest

unfoldable pub to_decimal : ℕ → Text
unfolding digits_of
to_decimal n = digits_of (suc n) n []

-- The value of a text of digits, with the value read so far.
unfoldable pub of_digits : ℕ → Text → ℕ
of_digits value [] = value
of_digits value (c ∷ s) = of_digits (value * 10 + (c - 48)) s

of_digits-digits_of :
    (fuel n : ℕ) (acc : Text) → n < fuel → of_digits 0 (digits_of fuel n acc) ≡ of_digits n acc
unfolding digits_of of_digits
of_digits-digits_of zero n acc h = absurd (omega arith)
of_digits-digits_of (suc fuel) n acc h = elim (Bool-cases (ltb n 10)) [
  | inl small ↦ rw small (ap (λ k. of_digits k acc) (omega arith))
  | inr large ↦ rw large (
      of_digits-digits_of fuel (n / 10) ((48 + n % 10) ∷ acc) (ground arith)
      ∙ ap (λ k. of_digits k acc) (omega arith))
]

-- Reading what was printed gives the number back.
pub of_digits-to_decimal : (n : ℕ) → of_digits 0 (to_decimal n) ≡ n
unfolding to_decimal of_digits
of_digits-to_decimal n = of_digits-digits_of (suc n) n [] (omega arith)

pub to_decimal-injective : (m n : ℕ) → to_decimal m ≡ to_decimal n → m ≡ n
to_decimal-injective m n h =
    sym (of_digits-to_decimal m) ∙ (ap (of_digits 0) h ∙ of_digits-to_decimal n)

All-digits_of :
    (fuel n : ℕ) (acc : Text) → All (λ c. c ≤ 57) acc → All (λ c. c ≤ 57) (digits_of fuel n acc)
unfolding digits_of
All-digits_of zero n acc h = h
All-digits_of (suc fuel) n acc h = elim (Bool-cases (ltb n 10)) [
  | inl small ↦ rw small (ground arith, h)
  | inr large ↦ rw large (All-digits_of fuel (n / 10) ((48 + n % 10) ∷ acc) (omega arith, h))
]

-- Every character of a printed number is a digit or stands before the digits.
pub All-to_decimal : (n : ℕ) → All (λ c. c ≤ 57) (to_decimal n)
unfolding to_decimal
All-to_decimal n = All-digits_of (suc n) n [] tt

-- `n` zeros
abbrev pub zeros : ℕ → Text
zeros zero = []
zeros (suc n) = 48 ∷ zeros n

-- `f"{n:0{width}d}"`
unfoldable pub padded : ℕ → ℕ → Text
unfolding to_decimal
padded width n = zeros (width - length (to_decimal n)) ++ to_decimal n

of_digits-zeros : (k : ℕ) (s : Text) → of_digits 0 (zeros k ++ s) ≡ of_digits 0 s
unfolding of_digits
of_digits-zeros zero s = refl
of_digits-zeros (suc k) s = of_digits-zeros k s

pub padded-injective : (w m n : ℕ) → padded w m ≡ padded w n → m ≡ n
padded-injective w m n h = sym (of_digits-padded m) ∙ (ap (of_digits 0) h ∙ of_digits-padded n)
  where
    of_digits-padded : (k : ℕ) → of_digits 0 (padded w k) ≡ k
    of_digits-padded k = unfold padded in of_digits-zeros _ (to_decimal k) ∙ of_digits-to_decimal k

All-zeros : (k : ℕ) → All (λ c. c ≤ 57) (zeros k)
All-zeros zero = tt
All-zeros (suc k) = (omega arith, All-zeros k)

pub All-padded : (w n : ℕ) → All (λ c. c ≤ 57) (padded w n)
unfolding padded
All-padded w n =
    All-append (λ c. c ≤ 57) (zeros (w - length (to_decimal n))) (to_decimal n) (All-zeros _)
      (All-to_decimal n)

-- The last character; 0 for the empty text.
abbrev pub last_code : Text → ℕ
last_code [] = 0
last_code (c ∷ []) = c
last_code (c ∷ d ∷ s) = last_code (d ∷ s)

pub last_code-append : (s t : Text) → t ≢ [] → last_code (s ++ t) ≡ last_code t
last_code-append [] t h = refl
last_code-append (c ∷ []) [] h = absurd (h refl)
last_code-append (c ∷ []) (d ∷ t) h = refl
last_code-append (c ∷ d ∷ s) t h = last_code-append (d ∷ s) t h

last_code-digits_of :
    (fuel n c : ℕ) (acc : Text)
    → (digits_of fuel n (c ∷ acc) ≢ [])
      × (last_code (digits_of fuel n (c ∷ acc)) ≡ last_code (c ∷ acc))
unfolding digits_of
last_code-digits_of zero n c acc = (λ e. cc, refl)
last_code-digits_of (suc fuel) n c acc = elim (Bool-cases (ltb n 10)) [
  | inl small ↦ rw small ((λ e. cc), refl)
  | inr large ↦ rw large (last_code-digits_of fuel (n / 10) (48 + n % 10) (c ∷ acc))
]

-- A number is printed as one digit at least, and its last character is a digit.
pub last_code-to_decimal : (n : ℕ) → (to_decimal n ≢ []) × (last_code (to_decimal n) ≤ 57)
unfolding to_decimal digits_of
last_code-to_decimal n = elim (Bool-cases (ltb n 10)) [
  | inl small ↦ rw small ((λ e. cc), ground arith)
  | inr large ↦
      let (some_digit, e) = last_code-digits_of n (n / 10) (48 + n % 10) [] in
      rw large (some_digit, omega (arith, e))
]
