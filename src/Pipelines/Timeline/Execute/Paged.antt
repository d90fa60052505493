-- ===== src/Pipelines/Timeline/Execute/Paged.antt =====
-- The page of a timeline: a timeline of the evidence on the page.
use marx_engels_insight_matc.Base.{
  ℕ, ◌≤◌, ◌≡◌, refl, ap, sym, ◌∙◌, min, take, length, length-take, length-map, concat, All,
  All-take, All-append, All-weaken, none, List, [], ◌∷◌, map, arith,
}
use mathlib.Core.Path.{subst}
use marx_engels_insight_matc.Base.Keep.{All-keep}
use marx_engels_insight_matc.Base.Pigeonhole.{length-le_of_Distinct}
use marx_engels_insight_matc.Base.Sort.{All-sort_by}
use marx_engels_insight_matc.Base.Unique.{count-present, Distinct-of_count, All-unique_by}
use marx_engels_insight_matc.Contracts.{Evidence, ResultGroup}
use marx_engels_insight_matc.Errors.Laws.{Meets, bind-Meets}
use marx_engels_insight_matc.Retrieval.Floats.{FloatOps}
use marx_engels_insight_matc.Pipelines.Claim.Fusion.Merging.{All-of-contains}
use marx_engels_insight_matc.Pipelines.Timeline.Years.{
  CharacterDatabase, Bucket, calendar, disputed_bucket, unknown_bucket,
}
use marx_engels_insight_matc.Pipelines.Timeline.Grouping.{
  unique_evidence, evidence_order, sort_within_bucket, to_group, Timeline, organize_timeline,
}
use marx_engels_insight_matc.Pipelines.Timeline.Grouping.Buckets.{ids}
use marx_engels_insight_matc.Pipelines.Timeline.Grouping.Loops.{IsDated, in_bucket, members_of}
use marx_engels_insight_matc.Pipelines.Timeline.Grouping.Laws.{
  IsTimeline, organize_timeline-IsTimeline,
}
use marx_engels_insight_matc.Pipelines.Timeline.Ports.{TimelinePorts}
use marx_engels_insight_matc.Pipelines.Timeline.Execute.{paged_timeline}

All-concat :
    {K : Type 0} (P : Evidence → Type 0) (f : K → List Evidence) (ks : List K)
    → ((k : K) → All P (f k))
    → All P (concat (map f ks))
All-concat P f [] h = tt
All-concat P f (k ∷ ks) h = All-append P (f k) (concat (map f ks)) (h k) (All-concat P f ks h)

module _ {F : Type 0} (u : CharacterDatabase) where
  -- A timeline shows only what it was given.
  IsTimeline-All :
      (P : Evidence → Type 0) (given : List Evidence) (t : Timeline F)
      → IsTimeline u given t
      → All P given
      → All P t.evidence
  unfolding sort_within_bucket unique_evidence
  IsTimeline-All P given t is h = subst (All P) (sym is.evidence) (
      All-concat P (members_of u given) is.keys (λ k.
        All-sort_by P evidence_order _ (
          All-keep (in_bucket u k) P _
            (All-unique_by (λ (e : Evidence). e.evidence_id) P given h))))

  -- A timeline is not longer than what it was given.
  IsTimeline-length :
      (given : List Evidence) (t : Timeline F)
      → IsTimeline u given t
      → length t.evidence ≤ length given
  IsTimeline-length given t is = omega (
    arith,
    length-map (λ (e : Evidence). e.evidence_id) t.evidence,
    length-map (λ (e : Evidence). e.evidence_id) given,
    length-le_of_Distinct (ids t.evidence) (ids given)
        (Distinct-of_count (ids t.evidence) (λ i. ground (arith, is.once i)))
        (All-of-contains (ids t.evidence)
          (λ i h. ground (arith, is.once i, count-present i (ids t.evidence)))),
  )

  -- The timeline of the first `limit` of the whole timeline of the evidence; what it shows
  -- satisfies `P`.
  pub record IsPage (P : Evidence → Type 0) (evidence : List Evidence) (limit : ℕ) (t : Timeline F)
      : Type 0 where
    pub whole : Timeline F
    pub is_whole : IsTimeline u evidence whole
    pub is_timeline : IsTimeline u (take limit whole.evidence) t
    pub sound : All P t.evidence
    pub paged : length t.evidence ≤ limit

  abbrev Organized : (Evidence → Type 0) → List Evidence → Timeline F → Type 0
  Organized P evidence t = IsTimeline u evidence t × All P t.evidence

  organize-Meets :
      (P : Evidence → Type 0) (evidence : List Evidence)
      → ((e : Evidence) → P e → IsDated u e)
      → All P evidence
      → Meets (Organized P evidence) (organize_timeline u evidence)
  organize-Meets P evidence dated sound =
      let (t, (run, is)) =
        organize_timeline-IsTimeline u evidence (All-weaken P (IsDated u) evidence dated sound) in
      (t, (run, (is, IsTimeline-All P evidence t is sound)))

  module _ {V : Type 0} (ops : FloatOps F) (ports : TimelinePorts F V) where
    pub paged_timeline-IsPage :
        (P : Evidence → Type 0) (page_size : ℕ) (evidence : List Evidence)
        → ((e : Evidence) → P e → IsDated u e)
        → All P evidence
        → Meets
            (IsPage P evidence (min ports.final_top_k page_size))
            (paged_timeline ops ports u page_size evidence)
    unfolding paged_timeline
    paged_timeline-IsPage P page_size evidence dated sound =
        let limit = min ports.final_top_k page_size in
        bind-Meets (Organized P evidence) (IsPage P evidence limit) (organize_timeline u evidence) _
          (organize-Meets P evidence dated sound)
          (λ whole (is, shown).
            let (t, (run, (is', shown'))) =
              organize-Meets P (take limit whole.evidence) dated
                (All-take P limit whole.evidence shown) in
            (
              t,
              (
                run,
                record {
                  whole = whole;
                  is_whole = is;
                  is_timeline = is';
                  sound = shown';
                  paged = omega (
                    arith,
                    IsTimeline-length (take limit whole.evidence) t is',
                    length-take limit whole.evidence,
                  );
                },
              ),
            ))

  abbrev pub without_summary : ResultGroup F → ResultGroup F
  without_summary g = record g { summary = none }

  to_group-without_summary :
      (k : Bucket) (members : List Evidence)
      → without_summary (to_group k members) ≡ to_group k members
  unfolding to_group
  to_group-without_summary (calendar decade) members = refl
  to_group-without_summary disputed_bucket members = refl
  to_group-without_summary unknown_bucket members = refl

  -- The groups of a timeline have no summaries.
  pub IsTimeline-without_summary :
      (given : List Evidence) (t : Timeline F)
      → IsTimeline u given t
      → map without_summary t.groups ≡ t.groups
  IsTimeline-without_summary given t is =
      ap (map without_summary) is.groups ∙ (each is.keys ∙ sym is.groups)
    where
      each :
          (ks : List Bucket)
          → map without_summary (map (λ k. to_group k (members_of u given k)) ks)
            ≡ map (λ k. to_group k (members_of u given k)) ks
      each [] = refl
      each (k ∷ ks) = cc (to_group-without_summary k (members_of u given k), each ks)
