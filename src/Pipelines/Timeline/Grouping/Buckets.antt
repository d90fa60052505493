-- ===== src/Pipelines/Timeline/Grouping/Buckets.antt =====
-- The dictionary of buckets: what is found after an append, and what all buckets hold.
use marx_engels_insight_matc.Base.{
  ℕ, ◌+◌, ◌≡◌, refl, ap, ◌∙◌, Text, All, keep, is_some, true, Option, none, some, List, [], ◌∷◌,
  ◌++◌, map, if◌then◌else◌, arith, ◌↔◌,
}
use Prim.Native.Nat.{Ordering}
use marx_engels_insight_matc.Base.Sort.{insert_by, sort_by}
use marx_engels_insight_matc.Base.Unique.{count, count-append}
use marx_engels_insight_matc.Contracts.{Evidence}
use marx_engels_insight_matc.Pipelines.Timeline.Years.{
  Bucket, calendar, disputed_bucket, unknown_bucket,
}
use marx_engels_insight_matc.Pipelines.Timeline.Grouping.{
  bucket_eq, Buckets, add_to_bucket, find_bucket, is_calendar, bucket_keys, present_key,
  sorted_bucket_keys, by_decade,
}

pub bucket_eq_iff : (a b : Bucket) → (bucket_eq a b ≡ true) ↔ (a ≡ b)
bucket_eq_iff (calendar a) (calendar b) = ground arith
bucket_eq_iff (calendar a) disputed_bucket = ground arith
bucket_eq_iff (calendar a) unknown_bucket = ground arith
bucket_eq_iff disputed_bucket (calendar b) = ground arith
bucket_eq_iff disputed_bucket disputed_bucket = ground arith
bucket_eq_iff disputed_bucket unknown_bucket = ground arith
bucket_eq_iff unknown_bucket (calendar b) = ground arith
bucket_eq_iff unknown_bucket disputed_bucket = ground arith
bucket_eq_iff unknown_bucket unknown_bucket = ground arith

-- A bucket with more members at its end; a bucket with none is not there.
abbrev pub appended : Option (List Evidence) → List Evidence → Option (List Evidence)
appended none [] = none
appended none (e ∷ es) = some (e ∷ es)
appended (some members) es = some (members ++ es)

pub find_bucket-add_to_bucket :
    (k key : Bucket) (item : Evidence) (buckets : Buckets)
    → find_bucket k (add_to_bucket key item buckets) ≡ (
        if bucket_eq k key
        then appended (find_bucket k buckets) (item ∷ [])
        else find_bucket k buckets)
unfolding find_bucket add_to_bucket
find_bucket-add_to_bucket k key item [] = refl
find_bucket-add_to_bucket k key item ((j, members) ∷ buckets) = ground (
  arith,
  bucket_eq_iff key j,
  bucket_eq_iff k j,
  bucket_eq_iff k key,
  find_bucket-add_to_bucket k key item buckets,
)

-- No key stands twice.
abbrev pub KeysDistinct : Buckets → Type 0
KeysDistinct [] = Unit
KeysDistinct ((k, members) ∷ buckets) = (find_bucket k buckets ≡ none) × KeysDistinct buckets

pub KeysDistinct-add_to_bucket :
    (key : Bucket) (item : Evidence) (buckets : Buckets)
    → KeysDistinct buckets
    → KeysDistinct (add_to_bucket key item buckets)
unfolding find_bucket add_to_bucket
KeysDistinct-add_to_bucket key item [] d = (refl, tt)
KeysDistinct-add_to_bucket key item ((j, members) ∷ buckets) d = ground (
  arith,
  d.0,
  d.1,
  bucket_eq_iff key j,
  bucket_eq_iff j key,
  find_bucket-add_to_bucket j key item buckets,
  KeysDistinct-add_to_bucket key item buckets,
)

abbrev pub ids : List Evidence → List Text
ids = map (λ (e : Evidence). e.evidence_id)

-- The occurrences of an identifier in all buckets.
unfoldable pub total : Text → Buckets → ℕ
total i [] = 0
total i ((k, members) ∷ buckets) = count i (ids members) + total i buckets

map-append : (xs ys : List Evidence) → ids (xs ++ ys) ≡ ids xs ++ ids ys
map-append [] ys = refl
map-append (x ∷ xs) ys = ap (◌∷◌ x.evidence_id) (map-append xs ys)

pub count-ids-append :
    (i : Text) (xs ys : List Evidence)
    → count i (ids (xs ++ ys)) ≡ count i (ids xs) + count i (ids ys)
count-ids-append i xs ys = ap (count i) (map-append xs ys) ∙ count-append i (ids xs) (ids ys)

pub total-add_to_bucket :
    (i : Text) (key : Bucket) (item : Evidence) (buckets : Buckets)
    → total i (add_to_bucket key item buckets) ≡ count i (ids (item ∷ [])) + total i buckets
unfolding total add_to_bucket
total-add_to_bucket i key item [] = refl
total-add_to_bucket i key item ((j, members) ∷ buckets) =
    ground (arith, count-ids-append i members (item ∷ []), total-add_to_bucket i key item buckets)

-- The sum of a weight over keys.
unfoldable pub sum : (Bucket → ℕ) → List Bucket → ℕ
sum w [] = 0
sum w (k ∷ ks) = w k + sum w ks

pub sum-append : (w : Bucket → ℕ) (xs ys : List Bucket) → sum w (xs ++ ys) ≡ sum w xs + sum w ys
unfolding sum
sum-append w [] ys = omega arith
sum-append w (x ∷ xs) ys = omega (arith, sum-append w xs ys)

sum-same : (v w : Bucket → ℕ) (ks : List Bucket) → All (λ k. v k ≡ w k) ks → sum v ks ≡ sum w ks
unfolding sum
sum-same v w [] h = refl
sum-same v w (k ∷ ks) h = omega (arith, h.0, sum-same v w ks h.1)

module _ (w : Bucket → ℕ) (cmp : Bucket → Bucket → Ordering) where
  sum-insert_by : (x : Bucket) (xs : List Bucket) → sum w (insert_by cmp x xs) ≡ w x + sum w xs
  unfolding insert_by sum
  sum-insert_by x [] = refl
  sum-insert_by x (y ∷ ys) = ground (arith, sum-insert_by x ys)

  pub sum-sort_by : (xs : List Bucket) → sum w (sort_by cmp xs) ≡ sum w xs
  unfolding sort_by sum
  sum-sort_by [] = refl
  sum-sort_by (x ∷ xs) = omega (arith, sum-insert_by x (sort_by cmp xs), sum-sort_by xs)

-- The weight of a key that is there.
abbrev one_of : (Bucket → ℕ) → Bucket → Buckets → ℕ
one_of w k buckets = if is_some (find_bucket k buckets) then w k else 0

sum-bucket_keys :
    (w : Bucket → ℕ) (buckets : Buckets)
    → KeysDistinct buckets
    → sum w (bucket_keys buckets)
      ≡ sum w (keep is_calendar (bucket_keys buckets))
        + (one_of w disputed_bucket buckets + one_of w unknown_bucket buckets)
unfolding sum find_bucket
sum-bucket_keys w [] d = refl
sum-bucket_keys w ((calendar n, members) ∷ buckets) d = omega (arith, sum-bucket_keys w buckets d.1)
sum-bucket_keys w ((disputed_bucket, members) ∷ buckets) d =
    ground (arith, d.0, sum-bucket_keys w buckets d.1)
sum-bucket_keys w ((unknown_bucket, members) ∷ buckets) d =
    ground (arith, d.0, sum-bucket_keys w buckets d.1)

sum-present_key :
    (w : Bucket → ℕ) (k : Bucket) (buckets : Buckets)
    → sum w (present_key k buckets) ≡ one_of w k buckets
unfolding sum
sum-present_key w k buckets = ground arith

-- The sorted keys are the keys.
pub sum-sorted_bucket_keys :
    (w : Bucket → ℕ) (buckets : Buckets)
    → KeysDistinct buckets
    → sum w (sorted_bucket_keys buckets) ≡ sum w (bucket_keys buckets)
unfolding sorted_bucket_keys
sum-sorted_bucket_keys w buckets d = omega (
  arith,
  sum-bucket_keys w buckets d,
  sum-append w (sort_by by_decade (keep is_calendar (bucket_keys buckets)))
      (present_key disputed_bucket buckets ++ present_key unknown_bucket buckets),
  sum-append w (present_key disputed_bucket buckets) (present_key unknown_bucket buckets),
  sum-present_key w disputed_bucket buckets,
  sum-present_key w unknown_bucket buckets,
  sum-sort_by w by_decade (keep is_calendar (bucket_keys buckets)),
)

abbrev pub weight : Text → Option (List Evidence) → ℕ
weight i none = 0
weight i (some members) = count i (ids members)

module _ (i : Text) where
  others :
      (k : Bucket) (members : List Evidence) (buckets : Buckets)
      → find_bucket k buckets ≡ none
      → (whole : Buckets)
      → All
          (λ j. weight i (find_bucket j ((k, members) ∷ whole)) ≡ weight i (find_bucket j whole))
          (bucket_keys buckets)
  unfolding find_bucket
  others k members [] h whole = tt
  others k members ((j, m) ∷ buckets) h whole = (
    ground (arith, bucket_eq_iff k j, bucket_eq_iff j k, bucket_eq_iff j j),
    others k members buckets (ground (arith, bucket_eq_iff k j)) whole,
  )

  -- What is found under the keys is what all buckets hold.
  pub sum-weight :
      (buckets : Buckets)
      → KeysDistinct buckets
      → sum (λ k. weight i (find_bucket k buckets)) (bucket_keys buckets) ≡ total i buckets
  unfolding sum total find_bucket
  sum-weight [] d = refl
  sum-weight ((k, members) ∷ buckets) d = ground (
    arith,
    bucket_eq_iff k k,
    sum-weight buckets d.1,
    sum-same (λ j. weight i (find_bucket j ((k, members) ∷ buckets)))
        (λ j. weight i (find_bucket j buckets)) (bucket_keys buckets)
        (others k members buckets d.0 buckets),
  )
