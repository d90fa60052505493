-- ===== src/Pipelines/Thematic/Grouping/Suffixes.antt =====
-- `_dedupe_cluster_id` ends, with a name that is not in use.
use mathlib.Core.List.{append_cancel_left}
use marx_engels_insight_matc.Base.{
  ℕ, zero, suc, ◌+◌, ◌<◌, ◌≡◌, refl, Text, codes, text_eq_iff, length, All, true, false, none, some,
  List, [], ◌∷◌, ◌++◌, arith, Option-cases, Bool-cases, inl, inr,
}
use marx_engels_insight_matc.Base.Decimal.{to_decimal, to_decimal-injective}
use marx_engels_insight_matc.Base.Pigeonhole.{length-le_of_Distinct}
use marx_engels_insight_matc.Base.Unique.{contains, Distinct}
use marx_engels_insight_matc.Pipelines.Thematic.Grouping.{suffixed, dedupe_from, dedupe_cluster_id}

module _ (cluster_id : Text) where
  suffixed-injective : (i j : ℕ) → suffixed cluster_id i ≡ suffixed cluster_id j → i ≡ j
  unfolding suffixed
  suffixed-injective i j h = to_decimal-injective i j (
      append_cancel_left (codes "_") (to_decimal i) (to_decimal j)
        (append_cancel_left cluster_id (codes "_" ++ to_decimal i) (codes "_" ++ to_decimal j) h))

  -- The names that the loop tries.
  tried : ℕ → ℕ → List Text
  tried zero suffix = []
  tried (suc n) suffix = suffixed cluster_id suffix ∷ tried n (suffix + 1)

  length-tried : (n suffix : ℕ) → length (tried n suffix) ≡ n
  unfolding tried
  length-tried zero suffix = refl
  length-tried (suc n) suffix = omega (arith, length-tried n (suffix + 1))

  tried_new :
      (i n suffix : ℕ) → i < suffix → contains (suffixed cluster_id i) (tried n suffix) ≡ false
  unfolding tried contains
  tried_new i zero suffix h = refl
  tried_new i (suc n) suffix h = ground (
    arith,
    tried_new i n (suffix + 1) (omega arith),
    text_eq_iff (suffixed cluster_id i) (suffixed cluster_id suffix),
    suffixed-injective i suffix,
  )

  Distinct-tried : (n suffix : ℕ) → Distinct (tried n suffix)
  unfolding tried
  Distinct-tried zero suffix = tt
  Distinct-tried (suc n) suffix =
      (tried_new suffix n (suffix + 1) (omega arith), Distinct-tried n (suffix + 1))

  module _ (seen : List Text) where
    dedupe_from-none :
        (fuel suffix : ℕ)
        → dedupe_from fuel cluster_id seen suffix ≡ none
        → All (λ x. contains x seen ≡ true) (tried fuel suffix)
    unfolding dedupe_from tried
    dedupe_from-none zero suffix h = tt
    dedupe_from-none (suc fuel) suffix h =
        (ground arith, dedupe_from-none fuel (suffix + 1) (ground arith))

    dedupe_from-some :
        (fuel suffix : ℕ) (x : Text)
        → dedupe_from fuel cluster_id seen suffix ≡ some x
        → (k : ℕ) × (x ≡ suffixed cluster_id k) × (contains x seen ≡ false)
    unfolding dedupe_from
    dedupe_from-some zero suffix x h = absurd (cc)
    dedupe_from-some (suc fuel) suffix x h =
        elim (Bool-cases (contains (suffixed cluster_id suffix) seen)) [
          | inl y ↦ dedupe_from-some fuel (suffix + 1) x (ground arith)
          | inr n ↦ (suffix, ground arith, ground arith)
        ]

    -- The new identifier is the old one with a numeric suffix, and is not in use.
    pub dedupe_cluster_id-new :
        (k : ℕ) × (dedupe_cluster_id cluster_id seen ≡ suffixed cluster_id k)
        × (contains (dedupe_cluster_id cluster_id seen) seen ≡ false)
    unfolding dedupe_cluster_id
    dedupe_cluster_id-new =
        elim (Option-cases (dedupe_from (suc (length seen)) cluster_id seen 2)) [
          | inl n ↦ absurd (
              omega (
                arith,
                length-tried (suc (length seen)) 2,
                length-le_of_Distinct (tried (suc (length seen)) 2) seen
                    (Distinct-tried (suc (length seen)) 2)
                    (dedupe_from-none (suc (length seen)) 2 n),
              ))
          | inr (x, y) ↦
              let (k, e, new) = dedupe_from-some (suc (length seen)) 2 x y in (k, rw y e, rw y new)
        ]
