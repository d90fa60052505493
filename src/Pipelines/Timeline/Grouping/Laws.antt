-- ===== src/Pipelines/Timeline/Grouping/Laws.antt =====
-- What `organize_timeline` returns: a chronological partition of the evidence.
use marx_engels_insight_matc.Base.{
  ◌≡◌, ◌≢◌, refl, ap, ◌∙◌, Text, All, All-weaken, concat, keep, is_some, true, Option, none, some,
  List, [], ◌∷◌, map, if◌then◌else◌, arith,
}
use mathlib.Core.Path.{fun_ext}
use marx_engels_insight_matc.Base.Compare.{
  IsOrder, compare_bool-IsOrder, compare_text-IsOrder, compare_nat-IsOrder, lexicographic-IsOrder,
  by_key-IsOrder,
}
use marx_engels_insight_matc.Base.Sort.{Ascending, sort_by-Ascending, count-sort_by}
use marx_engels_insight_matc.Base.Unique.{contains, count, count-unique_by, All-unique_by}
use marx_engels_insight_matc.Contracts.{Evidence}
use marx_engels_insight_matc.Errors.{ok}
use marx_engels_insight_matc.Pipelines.Timeline.Years.{CharacterDatabase, Bucket}
use marx_engels_insight_matc.Pipelines.Timeline.Grouping.{
  Buckets, find_bucket, unique_evidence, sorted_bucket_keys, evidence_key, evidence_order,
  sort_within_bucket, to_group, Timeline, group_loop, organize_timeline,
}
use marx_engels_insight_matc.Pipelines.Timeline.Grouping.Buckets.{
  appended, ids, total, count-ids-append, sum, sum-sorted_bucket_keys, weight, sum-weight,
}
use marx_engels_insight_matc.Pipelines.Timeline.Grouping.Order.{
  Chronological, sorted_bucket_keys-Chronological,
}
use marx_engels_insight_matc.Pipelines.Timeline.Grouping.Loops.{
  IsDated, in_bucket, members_of, Filled, bucket_loop-Filled, or_nil, bucket_members,
  group_loop_lem, sorted_bucket_keys-Present,
}

evidence_order-IsOrder : IsOrder evidence_order
evidence_order-IsOrder = by_key-IsOrder evidence_key (
    lexicographic-IsOrder compare_bool-IsOrder (
      lexicographic-IsOrder compare_text-IsOrder (
        lexicographic-IsOrder compare_bool-IsOrder (
          lexicographic-IsOrder compare_text-IsOrder
            (lexicographic-IsOrder compare_nat-IsOrder compare_text-IsOrder)))))

sort_within_bucket-Ascending :
    (xs : List Evidence) → Ascending evidence_order (sort_within_bucket xs)
unfolding sort_within_bucket
sort_within_bucket-Ascending xs = sort_by-Ascending evidence_order-IsOrder xs

count-sort_within_bucket :
    (i : Text) (xs : List Evidence) → count i (ids (sort_within_bucket xs)) ≡ count i (ids xs)
unfolding sort_within_bucket
count-sort_within_bucket i xs = count-sort_by (λ (e : Evidence). e.evidence_id) evidence_order i xs

count-bucket_members :
    (i : Text) (buckets : Buckets) (ks : List Bucket)
    → count i (ids (concat (map (bucket_members buckets) ks)))
      ≡ sum (λ k. weight i (find_bucket k buckets)) ks
unfolding sum count
count-bucket_members i buckets [] = refl
count-bucket_members i buckets (k ∷ ks) = omega (
  arith,
  count-ids-append i (bucket_members buckets k) (concat (map (bucket_members buckets) ks)),
  count-bucket_members i buckets ks,
  count-sort_within_bucket i (or_nil (find_bucket k buckets)),
  held (find_bucket k buckets),
)
  where
    held : (o : Option (List Evidence)) → count i (ids (or_nil o)) ≡ weight i o
    held none = refl
    held (some m) = refl

All-always : {P : Bucket → Type 0} (ks : List Bucket) → ((k : Bucket) → P k) → All P ks
All-always [] h = tt
All-always (k ∷ ks) h = (h k, All-always ks h)

module _ (u : CharacterDatabase) (evidence : List Evidence) (buckets : Buckets) where
  members_found :
      (k : Bucket)
      → find_bucket k buckets ≡ appended none (keep (in_bucket u k) (unique_evidence evidence))
      → bucket_members buckets k ≡ members_of u evidence k
  members_found k f =
      ap sort_within_bucket
        (ap or_nil f ∙ all_members (keep (in_bucket u k) (unique_evidence evidence)))
    where
      all_members : (xs : List Evidence) → or_nil (appended none xs) ≡ xs
      all_members [] = refl
      all_members (x ∷ xs) = refl

  inhabited_of_found :
      (k : Bucket)
      → find_bucket k buckets ≡ appended none (keep (in_bucket u k) (unique_evidence evidence))
      → is_some (find_bucket k buckets) ≡ true
      → keep (in_bucket u k) (unique_evidence evidence) ≢ []
  inhabited_of_found k f h e = absurd (ground (arith, f, e, h))

module _ {F : Type 0} (u : CharacterDatabase) where
  -- A chronological partition of the evidence into groups.
  pub record IsTimeline (given : List Evidence) (t : Timeline F) : Type 0 where
    pub keys : List Bucket
    pub chronological : Chronological keys
    pub groups : t.groups ≡ map (λ k. to_group k (members_of u given k)) keys
    pub evidence : t.evidence ≡ concat (map (members_of u given) keys)
    pub ordered : All (λ k. Ascending evidence_order (members_of u given k)) keys
    pub inhabited : All (λ k. keep (in_bucket u k) (unique_evidence given) ≢ []) keys
    pub once : (i : Text) → count i (ids t.evidence) ≡ (if contains i (ids given) then 1 else 0)

  module _ (evidence : List Evidence) (buckets : Buckets) where
    timeline_of_buckets :
        Filled u [] (unique_evidence evidence) buckets
        → (t : Timeline F) × ((group_loop buckets (sorted_bucket_keys buckets) ≡ ok t)
            × IsTimeline evidence t)
    unfolding find_bucket total unique_evidence
    timeline_of_buckets filled =
        let keys = sorted_bucket_keys buckets in
        let present = sorted_bucket_keys-Present buckets in
        let same : bucket_members buckets ≡ members_of u evidence =
          fun_ext (λ k. members_found u evidence buckets k (filled.found k)) in
        (
          record {
            groups = map (λ k. to_group k (bucket_members buckets k)) keys;
            evidence = concat (map (bucket_members buckets) keys);
          },
          (
            group_loop_lem buckets keys present,
            record {
              keys = keys;
              chronological = sorted_bucket_keys-Chronological buckets filled.distinct;
              groups = ap (λ m. map (λ k. to_group k (m k)) keys) same;
              evidence = ap (λ m. concat (map m keys)) same;
              ordered = All-always keys (λ k.
                  sort_within_bucket-Ascending (keep (in_bucket u k) (unique_evidence evidence)));
              inhabited =
                  All-weaken (λ k. is_some (find_bucket k buckets) ≡ true)
                    (λ k. keep (in_bucket u k) (unique_evidence evidence) ≢ []) keys
                    (λ k h. inhabited_of_found u evidence buckets k (filled.found k) h) present;
              once = λ i. omega (
                arith,
                count-bucket_members i buckets keys,
                sum-sorted_bucket_keys (λ k. weight i (find_bucket k buckets)) buckets
                    filled.distinct,
                sum-weight i buckets filled.distinct,
                filled.counted i,
                count-unique_by (λ (e : Evidence). e.evidence_id) i evidence,
              );
            },
          ),
        )

  pub organize_timeline-IsTimeline :
      (evidence : List Evidence)
      → All (IsDated u) evidence
      → (t : Timeline F) × ((organize_timeline u evidence ≡ ok t) × IsTimeline evidence t)
  unfolding organize_timeline unique_evidence
  organize_timeline-IsTimeline evidence dated =
      let (buckets, (run, filled)) =
        bucket_loop-Filled u [] (unique_evidence evidence) tt
          (All-unique_by (λ (e : Evidence). e.evidence_id) (IsDated u) evidence dated) in
      let (t, (grouped, is_timeline)) = timeline_of_buckets evidence buckets filled in
      (t, (rw run grouped, is_timeline))
