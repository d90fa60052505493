-- ===== src/Pipelines/Timeline/Grouping.antt =====
-- packages/marx_engels/pipelines/timeline_grouping.py: evidence in calendar decades, then the
-- disputed, then the unknown dates.
pub mod Buckets
pub mod Order
pub mod Loops
pub mod Laws
use Prim.Native.Nat.{Ordering}
use marx_engels_insight_matc.Base.{
  ℕ, zero, suc, ◌+◌, ◌-◌, Text, codes, length, keep, any, all, is_some, Bool, true, false, not,
  ◌&&◌, ◌||◌, Option, none, some, List, [], ◌∷◌, ◌++◌, map, ◌==◌, if◌then◌else◌,
}
use marx_engels_insight_matc.Base.Compare.{compare_bool, compare_nat, compare_text, lexicographic}
use marx_engels_insight_matc.Base.Decimal.{to_decimal}
use marx_engels_insight_matc.Base.Sort.{sort_by}
use marx_engels_insight_matc.Base.Unique.{unique_by}
use marx_engels_insight_matc.Contracts.{
  Evidence, ResultGroup, DatePrecision, approximate, year, disputed, unknown,
}
use marx_engels_insight_matc.Errors.{Result, ok, raise, other, ◌>>=◌}
use marx_engels_insight_matc.Pipelines.Timeline.Years.{
  CharacterDatabase, Bucket, calendar, disputed_bucket, unknown_bucket, bucket_key,
}

abbrev pub bucket_eq : Bucket → Bucket → Bool
bucket_eq (calendar a) (calendar b) = a == b
bucket_eq (calendar a) disputed_bucket = false
bucket_eq (calendar a) unknown_bucket = false
bucket_eq disputed_bucket (calendar b) = false
bucket_eq disputed_bucket disputed_bucket = true
bucket_eq disputed_bucket unknown_bucket = false
bucket_eq unknown_bucket (calendar b) = false
bucket_eq unknown_bucket disputed_bucket = false
bucket_eq unknown_bucket unknown_bucket = true

-- The dictionary `buckets`, in insertion order.
abbrev pub Buckets : Type 0
Buckets = List (Bucket × List Evidence)

-- `buckets.setdefault(key, []).append(item)`
unfoldable pub add_to_bucket : Bucket → Evidence → Buckets → Buckets
add_to_bucket key item [] = (key, item ∷ []) ∷ []
add_to_bucket key item ((k, members) ∷ buckets) =
    if bucket_eq key k
    then (k, members ++ item ∷ []) ∷ buckets
    else (k, members) ∷ add_to_bucket key item buckets

unfoldable pub find_bucket : Bucket → Buckets → Option (List Evidence)
find_bucket key [] = none
find_bucket key ((k, members) ∷ buckets) =
    if bucket_eq key k then some members else find_bucket key buckets

-- `_unique_evidence`
unfoldable pub unique_evidence : List Evidence → List Evidence
unfolding unique_by
unique_evidence = unique_by (λ e. e.evidence_id)

abbrev pub is_calendar : Bucket → Bool
is_calendar (calendar d) = true
is_calendar disputed_bucket = false
is_calendar unknown_bucket = false

-- `key[1] or 0`
abbrev pub decade_of : Bucket → ℕ
decade_of (calendar d) = d
decade_of disputed_bucket = 0
decade_of unknown_bucket = 0

abbrev pub bucket_keys : Buckets → List Bucket
bucket_keys buckets = map (λ b. b.0) buckets

abbrev pub by_decade : Bucket → Bucket → Ordering
by_decade a b = compare_nat (decade_of a) (decade_of b)

abbrev pub present_key : Bucket → Buckets → List Bucket
present_key key buckets = if is_some (find_bucket key buckets) then key ∷ [] else []

unfoldable pub sorted_bucket_keys : Buckets → List Bucket
unfolding find_bucket
sorted_bucket_keys buckets =
    sort_by by_decade (keep is_calendar (bucket_keys buckets))
    ++ (present_key disputed_bucket buckets ++ present_key unknown_bucket buckets)

abbrev is_none : Option Text → Bool
is_none none = true
is_none (some t) = false

abbrev or_empty : Option Text → Text
or_empty none = []
or_empty (some t) = t

abbrev pub EvidenceKey : Type 0
EvidenceKey = Bool × (Text × (Bool × (Text × (ℕ × Text))))

abbrev pub evidence_key : Evidence → EvidenceKey
evidence_key e = (
  is_none e.work_date_start,
  (
    or_empty e.work_date_start,
    (is_none e.work_date_end, (or_empty e.work_date_end, (e.volume_no, e.evidence_id))),
  ),
)

abbrev pub compare_evidence_keys : EvidenceKey → EvidenceKey → Ordering
compare_evidence_keys = lexicographic compare_bool (
    lexicographic compare_text (
      lexicographic compare_bool
        (lexicographic compare_text (lexicographic compare_nat compare_text))))

abbrev pub evidence_order : Evidence → Evidence → Ordering
evidence_order a b = compare_evidence_keys (evidence_key a) (evidence_key b)

unfoldable pub sort_within_bucket : List Evidence → List Evidence
sort_within_bucket = sort_by evidence_order

abbrev pub is_approximate : Evidence → Bool
is_approximate e = elim e.date_precision [ approximate ↦ true | _ ↦ false ]

-- `f"{n:04d}"`
zeros : ℕ → Text
zeros zero = []
zeros (suc n) = 48 ∷ zeros n

unfoldable pub four_digits : ℕ → Text
unfolding zeros
four_digits n = zeros (4 - length (to_decimal n)) ++ to_decimal n

-- The groups, and the evidence in their order.
pub record Timeline (F : Type 0) : Type 0 where
  pub groups : List (ResultGroup F)
  pub evidence : List Evidence

module _ {F : Type 0} where
  abbrev pub dateless : Text → Text → List Text → DatePrecision → ResultGroup F
  dateless id label evidence_ids precision = record {
    group_id = id;
    label = label;
    group_type = id;
    evidence_ids = evidence_ids;
    summary = none;
    confidence = none;
    date_start = none;
    date_end = none;
    date_precision = some precision;
  }

  unfoldable pub to_group : Bucket → List Evidence → ResultGroup F
  unfolding four_digits
  to_group (calendar decade) members = record {
    group_id = codes "decade_" ++ to_decimal decade;
    label =
        if any is_approximate members
        then codes "约" ++ (to_decimal decade ++ codes "年代")
        else to_decimal decade ++ codes "年代";
    group_type = codes "calendar_bucket";
    evidence_ids = map (λ e. e.evidence_id) members;
    summary = none;
    confidence = none;
    date_start = some (four_digits decade);
    date_end = some (four_digits (decade + 9));
    date_precision = some (if all is_approximate members then approximate else year);
  }
  to_group disputed_bucket members =
      dateless (codes "disputed") (codes "年代争议") (map (λ e. e.evidence_id) members) disputed
  to_group unknown_bucket members =
      dateless (codes "unknown") (codes "时间待考") (map (λ e. e.evidence_id) members) unknown

abbrev pub found : Option (List Evidence) → Result (List Evidence)
found none = raise (other (codes "KeyError"))
found (some members) = ok members

module _ {F : Type 0} where
  -- the second loop, over the sorted keys
  unfoldable pub group_loop : Buckets → List Bucket → Result (Timeline F)
  unfolding sort_within_bucket to_group
  group_loop buckets [] = ok (record { groups = []; evidence = [] })
  group_loop buckets (key ∷ keys) = do
    bucket ← found (find_bucket key buckets)
    let members = sort_within_bucket bucket
    later ← group_loop buckets keys
    ok (record {
      groups = to_group key members ∷ later.groups;
      evidence = members ++ later.evidence;
    })

module _ (u : CharacterDatabase) where
  -- the first loop
  unfoldable pub bucket_loop : Buckets → List Evidence → Result Buckets
  unfolding add_to_bucket
  bucket_loop buckets [] = ok buckets
  bucket_loop buckets (item ∷ rest) = do
    key ← bucket_key u item
    bucket_loop (add_to_bucket key item buckets) rest

  module _ {F : Type 0} where
    unfoldable pub organize_timeline : List Evidence → Result (Timeline F)
    unfolding unique_evidence bucket_loop sorted_bucket_keys group_loop
    organize_timeline evidence = do
      buckets ← bucket_loop [] (unique_evidence evidence)
      group_loop buckets (sorted_bucket_keys buckets)
