-- ===== src/Base/Pigeonhole.antt =====
-- Distinct names that all stand in a list are no more than the list holds.
use mathlib.Core.Path.{◌≡◌}
use mathlib.Core.Bool.{true, false}
use mathlib.Core.List.{List, [], ◌∷◌}
use native.Mathlib.Omega.{arith}
use Prim.Native.Nat.{◌+◌, ◌≤◌}
use marx_engels_insight_matc.Base.Tests.{if◌then◌else◌}
use marx_engels_insight_matc.Base.Lists.{length, All}
use marx_engels_insight_matc.Base.Strings.{Text, text_eq, text_eq_iff}
use marx_engels_insight_matc.Base.Unique.{contains, Distinct}

-- The list without the first occurrence of a name.
without : Text → List Text → List Text
without i [] = []
without i (j ∷ ids) = if text_eq i j then ids else j ∷ without i ids

length-without :
    (i : Text) (ids : List Text) → contains i ids ≡ true → length (without i ids) + 1 ≡ length ids
unfolding without contains
length-without i [] h = absurd (cc)
length-without i (j ∷ ids) h = ground (arith, length-without i ids)

contains-without :
    (i j : Text) (ids : List Text)
    → text_eq j i ≡ false
    → contains j ids ≡ true
    → contains j (without i ids) ≡ true
unfolding without contains
contains-without i j [] n h = absurd (cc)
contains-without i j (k ∷ ids) n h =
    ground (arith, contains-without i j ids, text_eq_iff i k, text_eq_iff j i, text_eq_iff j k)

All-without :
    (i : Text) (xs seen : List Text)
    → contains i xs ≡ false
    → All (λ x. contains x seen ≡ true) xs
    → All (λ x. contains x (without i seen) ≡ true) xs
unfolding contains
All-without i [] seen n h = tt
All-without i (x ∷ xs) seen n h = (
  contains-without i x seen (ground (arith, text_eq_iff i x, text_eq_iff x i)) h.0,
  All-without i xs seen (ground arith) h.1,
)

pub length-le_of_Distinct :
    (xs seen : List Text)
    → Distinct xs
    → All (λ x. contains x seen ≡ true) xs
    → length xs ≤ length seen
length-le_of_Distinct [] seen d h = omega arith
length-le_of_Distinct (x ∷ xs) seen d h = omega (
  arith,
  length-without x seen h.0,
  length-le_of_Distinct xs (without x seen) d.1 (All-without x xs seen d.0 h.1),
)
