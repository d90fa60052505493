-- ===== src/Pipelines/Timeline/Grouping/Order.antt =====
-- The order of the sorted bucket keys: decades strictly ascending, then the disputed dates, then
-- the unknown ones.
use marx_engels_insight_matc.Base.{
  ℕ, ◌≤◌, ◌≡◌, refl, All, All-append, keep, is_some, ltb, Bool, true, false, none, List, [], ◌∷◌,
  ◌++◌, if◌then◌else◌, arith,
}
use marx_engels_insight_matc.Base.Compare.{le_of, compare_nat-IsOrder, by_key-IsOrder}
use marx_engels_insight_matc.Base.Sort.{sort_by, Ascending, sort_by-Ascending, All-sort_by}
use marx_engels_insight_matc.Contracts.{Evidence}
use marx_engels_insight_matc.Pipelines.Timeline.Years.{
  Bucket, calendar, disputed_bucket, unknown_bucket,
}
use marx_engels_insight_matc.Pipelines.Timeline.Grouping.{
  bucket_eq, Buckets, find_bucket, is_calendar, bucket_keys, present_key, sorted_bucket_keys,
  by_decade, decade_of,
}
use marx_engels_insight_matc.Pipelines.Timeline.Grouping.Buckets.{
  bucket_eq_iff, KeysDistinct, sum, sum-sort_by,
}

-- The group of the first key stands before the group of the second.
abbrev pub precedes : Bucket → Bucket → Bool
precedes (calendar a) (calendar b) = ltb a b
precedes (calendar a) disputed_bucket = true
precedes (calendar a) unknown_bucket = true
precedes disputed_bucket (calendar b) = false
precedes disputed_bucket disputed_bucket = false
precedes disputed_bucket unknown_bucket = true
precedes unknown_bucket b = false

abbrev pub Chronological : List Bucket → Type 0
Chronological [] = Unit
Chronological (k ∷ ks) = All (λ j. precedes k j ≡ true) ks × Chronological ks

abbrev one : Bucket → Bucket → ℕ
one k j = if bucket_eq k j then 1 else 0

absent : (k : Bucket) (ks : List Bucket) → sum (one k) ks ≡ 0 → All (λ j. bucket_eq k j ≡ false) ks
unfolding sum
absent k [] h = tt
absent k (j ∷ ks) h = (ground arith, absent k ks (omega (arith, h)))

lt_of_le :
    (a b : ℕ)
    → le_of by_decade (calendar a) (calendar b) ≡ true
    → bucket_eq (calendar a) (calendar b) ≡ false
    → ltb a b ≡ true
lt_of_le a b h n = ground arith

-- Calendar keys, none twice and no decade after a greater one, are chronological.
abbrev Calendar : List Bucket → Type 0
Calendar ks = All (λ k. is_calendar k ≡ true) ks

strict_head :
    (a : ℕ) (ks : List Bucket)
    → Calendar ks
    → All (λ j. le_of by_decade (calendar a) j ≡ true) ks
    → All (λ j. bucket_eq (calendar a) j ≡ false) ks
    → All (λ j. precedes (calendar a) j ≡ true) ks
strict_head a [] c h n = tt
strict_head a (calendar b ∷ ks) c h n = (lt_of_le a b h.0 n.0, strict_head a ks c.1 h.1 n.1)
strict_head a (disputed_bucket ∷ ks) c h n = absurd (ground arith)
strict_head a (unknown_bucket ∷ ks) c h n = absurd (ground arith)

strict :
    (ks : List Bucket)
    → Calendar ks
    → Ascending by_decade ks
    → ((k : Bucket) → sum (one k) ks ≤ 1)
    → Chronological ks
unfolding sum
strict [] c a n = tt
strict (calendar d ∷ ks) c a n = (
  strict_head d ks c.1 a.0 (
      absent (calendar d) ks
        (ground (arith, n (calendar d), bucket_eq_iff (calendar d) (calendar d)))),
  strict ks c.1 a.1 (λ k. omega (arith, n k)),
)
strict (disputed_bucket ∷ ks) c a n = absurd (ground arith)
strict (unknown_bucket ∷ ks) c a n = absurd (ground arith)

keep-Calendar : (ks : List Bucket) → Calendar (keep is_calendar ks)
keep-Calendar [] = tt
keep-Calendar (calendar d ∷ ks) = (refl, keep-Calendar ks)
keep-Calendar (disputed_bucket ∷ ks) = keep-Calendar ks
keep-Calendar (unknown_bucket ∷ ks) = keep-Calendar ks

-- The keys that stand in the buckets are there once.
keys_below :
    (k j : Bucket) (members : List Evidence) (buckets : Buckets)
    → bucket_eq k j ≡ false
    → find_bucket k ((j, members) ∷ buckets) ≡ find_bucket k buckets
unfolding find_bucket
keys_below k j members buckets n = ground arith

sum-one_absent :
    (k : Bucket) (buckets : Buckets)
    → find_bucket k buckets ≡ none
    → sum (one k) (bucket_keys buckets) ≡ 0
unfolding sum find_bucket
sum-one_absent k [] h = refl
sum-one_absent k ((j, members) ∷ buckets) h = ground (arith, sum-one_absent k buckets)

sum-one_keys :
    (k : Bucket) (buckets : Buckets) → KeysDistinct buckets → sum (one k) (bucket_keys buckets) ≤ 1
unfolding sum
sum-one_keys k [] d = omega arith
sum-one_keys k ((j, members) ∷ buckets) d =
    ground (arith, d.0, bucket_eq_iff k j, sum-one_keys k buckets d.1, sum-one_absent k buckets)

sum-keep : (k : Bucket) (ks : List Bucket) → sum (one k) (keep is_calendar ks) ≤ sum (one k) ks
unfolding sum
sum-keep k [] = omega arith
sum-keep k (calendar d ∷ ks) = omega (arith, sum-keep k ks)
sum-keep k (disputed_bucket ∷ ks) = omega (arith, sum-keep k ks)
sum-keep k (unknown_bucket ∷ ks) = omega (arith, sum-keep k ks)

Chronological-append :
    (ks js : List Bucket)
    → Calendar ks
    → Chronological ks
    → Chronological js
    → All (λ j. is_calendar j ≡ false) js
    → Chronological (ks ++ js)
Chronological-append [] js c h k n = k
Chronological-append (calendar d ∷ ks) js c h k n = (
  All-append (λ j. precedes (calendar d) j ≡ true) ks js h.0 (before d js n),
  Chronological-append ks js c.1 h.1 k n,
)
  where
    before :
        (a : ℕ) (xs : List Bucket)
        → All (λ j. is_calendar j ≡ false) xs
        → All (λ j. precedes (calendar a) j ≡ true) xs
    before a [] n = tt
    before a (calendar b ∷ xs) n = absurd (ground arith)
    before a (disputed_bucket ∷ xs) n = (refl, before a xs n.1)
    before a (unknown_bucket ∷ xs) n = (refl, before a xs n.1)
Chronological-append (disputed_bucket ∷ ks) js c h k n = absurd (ground arith)
Chronological-append (unknown_bucket ∷ ks) js c h k n = absurd (ground arith)

abbrev undated : Buckets → List Bucket
undated buckets = present_key disputed_bucket buckets ++ present_key unknown_bucket buckets

undated_lem :
    (d u : Bool)
    → let ks =
        (if d then disputed_bucket ∷ [] else []) ++ (if u then unknown_bucket ∷ [] else []) in
      Chronological ks × All (λ j. is_calendar j ≡ false) ks
undated_lem false false = (tt, tt)
undated_lem false true = ((tt, tt), (refl, tt))
undated_lem true false = ((tt, tt), (refl, tt))
undated_lem true true = (((refl, tt), (tt, tt)), (refl, (refl, tt)))

pub sorted_bucket_keys-Chronological :
    (buckets : Buckets) → KeysDistinct buckets → Chronological (sorted_bucket_keys buckets)
unfolding sorted_bucket_keys
sorted_bucket_keys-Chronological buckets d =
    let ks = keep is_calendar (bucket_keys buckets) in
    let (ordered, none_calendar) =
      undated_lem (is_some (find_bucket disputed_bucket buckets))
        (is_some (find_bucket unknown_bucket buckets)) in
    let c =
      All-sort_by (λ k. is_calendar k ≡ true) by_decade ks (keep-Calendar (bucket_keys buckets)) in
    Chronological-append (sort_by by_decade ks) (undated buckets) c
      (strict (sort_by by_decade ks) c
        (sort_by-Ascending (by_key-IsOrder decade_of compare_nat-IsOrder) ks)
        (λ k. omega (
          arith,
          sum-sort_by (one k) by_decade ks,
          sum-keep k (bucket_keys buckets),
          sum-one_keys k buckets d,
        )))
      ordered none_calendar
