-- ===== src/Pipelines/Timeline/Grouping/Loops.antt =====
-- The two loops of `organize_timeline`: what the buckets hold, and what is made of them.
use marx_engels_insight_matc.Base.{
  append_nil, append_cons, ◌+◌, ◌≡◌, refl, ap, sym, Text, All, All-weaken, All-append, concat, keep,
  is_some, Bool, true, false, Option, none, some, List, [], ◌∷◌, ◌++◌, map, arith, inl, inr,
  Bool-cases,
}
use marx_engels_insight_matc.Base.Sort.{sort_by, All-sort_by}
use marx_engels_insight_matc.Base.Unique.{count}
use marx_engels_insight_matc.Contracts.{Evidence}
use marx_engels_insight_matc.Errors.{Result, ok, raise}
use marx_engels_insight_matc.Pipelines.Timeline.Years.{
  CharacterDatabase, Bucket, calendar, disputed_bucket, unknown_bucket, bucket_key,
}
use marx_engels_insight_matc.Pipelines.Timeline.Grouping.{
  bucket_eq, Buckets, add_to_bucket, find_bucket, unique_evidence, is_calendar, bucket_keys,
  present_key, sorted_bucket_keys, by_decade, sort_within_bucket, to_group, group_loop, bucket_loop,
}
use marx_engels_insight_matc.Pipelines.Timeline.Grouping.Buckets.{
  bucket_eq_iff, appended, find_bucket-add_to_bucket, KeysDistinct, KeysDistinct-add_to_bucket, ids,
  total, total-add_to_bucket,
}

abbrev is_key : Bucket → Result Bucket → Bool
is_key k (ok j) = bucket_eq k j
is_key k (raise e) = false

module _ (u : CharacterDatabase) where
  -- The dates of an evidence are read.
  abbrev pub IsDated : Evidence → Type 0
  IsDated e = (k : Bucket) × (bucket_key u e ≡ ok k)

  abbrev pub in_bucket : Bucket → Evidence → Bool
  in_bucket k e = is_key k (bucket_key u e)

  -- The members of a group, by definition: the evidence of its bucket, each once, in order.
  abbrev pub members_of : List Evidence → Bucket → List Evidence
  members_of evidence k = sort_within_bucket (keep (in_bucket k) (unique_evidence evidence))

  appended_cons :
      (o : Option (List Evidence)) (e : Evidence) (es : List Evidence)
      → appended (appended o (e ∷ [])) es ≡ appended o (e ∷ es)
  appended_cons none e es = refl
  appended_cons (some members) e es = ap some (append_cons members e es)

  appended_nil : (o : Option (List Evidence)) → appended o [] ≡ o
  appended_nil none = refl
  appended_nil (some members) = ap some (append_nil members)

  -- What the first loop leaves in the buckets.
  pub record Filled (old : Buckets) (items : List Evidence) (new : Buckets) : Type 0 where
    pub distinct : KeysDistinct new
    pub found :
        (k : Bucket) → find_bucket k new ≡ appended (find_bucket k old) (keep (in_bucket k) items)
    pub counted : (i : Text) → total i new ≡ count i (ids items) + total i old

  pub bucket_loop-Filled :
      (old : Buckets) (items : List Evidence)
      → KeysDistinct old
      → All IsDated items
      → (new : Buckets) × ((bucket_loop u old items ≡ ok new) × Filled old items new)
  unfolding bucket_loop count
  bucket_loop-Filled old [] d h = (
    old,
    (
      refl,
      record {
        distinct = d;
        found = λ k. sym (appended_nil (find_bucket k old));
        counted = λ i. omega arith;
      },
    ),
  )
  bucket_loop-Filled old (e ∷ es) d h =
      let (key, read) = h.0 in
      let next = add_to_bucket key e old in
      let (new, (run, filled)) =
        bucket_loop-Filled next es (KeysDistinct-add_to_bucket key e old d) h.1 in
      (
        new,
        (
          rw read run,
          record {
            distinct = filled.distinct;
            found = λ k. ground (
              arith,
              read,
              filled.found k,
              find_bucket-add_to_bucket k key e old,
              appended_cons (find_bucket k old) e (keep (in_bucket k) es),
            );
            counted = λ i. omega (arith, filled.counted i, total-add_to_bucket i key e old);
          },
        ),
      )

abbrev pub or_nil : Option (List Evidence) → List Evidence
or_nil none = []
or_nil (some members) = members

abbrev pub bucket_members : Buckets → Bucket → List Evidence
bucket_members buckets k = sort_within_bucket (or_nil (find_bucket k buckets))

abbrev pub Present : Buckets → List Bucket → Type 0
Present buckets = All (λ k. is_some (find_bucket k buckets) ≡ true)

module _ {F : Type 0} where
  pub group_loop_lem :
      (buckets : Buckets) (ks : List Bucket)
      → Present buckets ks
      → group_loop {F = F} buckets ks
        ≡ ok (record {
          groups = map (λ k. to_group k (bucket_members buckets k)) ks;
          evidence = concat (map (bucket_members buckets) ks);
        })
  unfolding group_loop
  group_loop_lem buckets [] p = refl
  group_loop_lem buckets (k ∷ ks) p =
      step (find_bucket k buckets) refl p.0 (group_loop_lem buckets ks p.1)
    where
      step :
          (o : Option (List Evidence))
          → o ≡ find_bucket k buckets
          → is_some o ≡ true
          → group_loop {F = F} buckets ks
            ≡ ok (record {
              groups = map (λ k. to_group k (bucket_members buckets k)) ks;
              evidence = concat (map (bucket_members buckets) ks);
            })
          → group_loop {F = F} buckets (k ∷ ks)
            ≡ ok (record {
              groups = map (λ k. to_group k (bucket_members buckets k)) (k ∷ ks);
              evidence = concat (map (bucket_members buckets) (k ∷ ks));
            })
      step none e h later = absurd (ground arith)
      step (some m) e h later = rw (sym e, later) refl

bucket_keys-Present : (buckets : Buckets) → Present buckets (bucket_keys buckets)
unfolding find_bucket
bucket_keys-Present [] = tt
bucket_keys-Present ((k, members) ∷ buckets) = (
  ground (arith, bucket_eq_iff k k),
  All-weaken (λ j. is_some (find_bucket j buckets) ≡ true)
      (λ j. is_some (find_bucket j ((k, members) ∷ buckets)) ≡ true) (bucket_keys buckets)
      (λ j h. ground arith) (bucket_keys-Present buckets),
)

keep-Present :
    (buckets : Buckets) (ks : List Bucket)
    → Present buckets ks
    → Present buckets (keep is_calendar ks)
keep-Present buckets [] h = tt
keep-Present buckets (calendar d ∷ ks) h = (h.0, keep-Present buckets ks h.1)
keep-Present buckets (disputed_bucket ∷ ks) h = keep-Present buckets ks h.1
keep-Present buckets (unknown_bucket ∷ ks) h = keep-Present buckets ks h.1

present_key-Present : (k : Bucket) (buckets : Buckets) → Present buckets (present_key k buckets)
present_key-Present k buckets = elim (Bool-cases (is_some (find_bucket k buckets))) [
  | inl h ↦ rw h (h, tt)
  | inr h ↦ rw h tt
]

pub sorted_bucket_keys-Present : (buckets : Buckets) → Present buckets (sorted_bucket_keys buckets)
unfolding sorted_bucket_keys
sorted_bucket_keys-Present buckets =
    let P : Bucket → Type 0 = λ k. is_some (find_bucket k buckets) ≡ true in
    All-append P (sort_by by_decade (keep is_calendar (bucket_keys buckets)))
      (present_key disputed_bucket buckets ++ present_key unknown_bucket buckets)
      (All-sort_by P by_decade (keep is_calendar (bucket_keys buckets))
        (keep-Present buckets (bucket_keys buckets) (bucket_keys-Present buckets)))
      (All-append P (present_key disputed_bucket buckets) (present_key unknown_bucket buckets)
        (present_key-Present disputed_bucket buckets) (present_key-Present unknown_bucket buckets))
