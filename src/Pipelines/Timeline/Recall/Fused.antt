-- ===== src/Pipelines/Timeline/Recall/Fused.antt =====
-- The fusion of the timeline's channels returns: what it looks up is there.
use marx_engels_insight_matc.Base.{
  ℕ, ◌≤◌, ◌≡◌, refl, Text, is_empty, is_some, All, Bool, true, false, ◌&&◌, ◌||◌, Option, none,
  some, List, [], ◌∷◌, ◌++◌, arith, inl, inr, Option-cases, Bool-cases,
}
use marx_engels_insight_matc.Base.Dict.{Dict, get, put, get-put, keys, contains-keys}
use marx_engels_insight_matc.Base.Unique.{contains, count-present, count-absent}
use marx_engels_insight_matc.Contracts.{Candidate, Warning}
use marx_engels_insight_matc.Errors.{Result, ok, raise}
use marx_engels_insight_matc.Errors.Laws.{Returns, bind-Returns, if-Returns}
use marx_engels_insight_matc.Retrieval.Floats.{FloatOps}
use marx_engels_insight_matc.Retrieval.Rrf.{stable_score_order}
use marx_engels_insight_matc.Retrieval.Rrf.Laws.{
  IsFusion, reciprocal_rank_fusion-IsFusion, count-stable_score_order,
}
use marx_engels_insight_matc.Pipelines.Claim.Fusion.{rankings_of}
use marx_engels_insight_matc.Pipelines.Claim.Fusion.Merging.{
  ids, Keyed, Merged, put-Keyed, All-of-contains,
}
use marx_engels_insight_matc.Pipelines.Claim.Fusion.Laws.{nil_of_empty, no_scores, counted}
use marx_engels_insight_matc.Pipelines.Timeline.Recall.{
  is_authoritative, reraise_authoritative, is_channel_failure, merge_candidate, merged_with,
  merge_loop, ordered_candidate, order_loop, scores_of, fuse_candidates, combine_channels,
}

module _ {F : Type 0} where
  pub put-Merged :
      (c x : Candidate F) (cs : List (Candidate F)) (old new : Dict (Candidate F))
      → Merged (put c.evidence_id x old) cs new
      → Merged old (c ∷ cs) new
  unfolding contains
  put-Merged c x cs old new m = record {
    keyed = m.keyed;
    held = λ i. ground (arith, m.held i, get-put c.evidence_id i x old);
  }

  merged_with-id :
      (c : Candidate F) (o : Option (Candidate F)) (old : Dict (Candidate F))
      → Keyed old
      → get c.evidence_id old ≡ o
      → (merged_with o c).evidence_id ≡ c.evidence_id
  unfolding merge_candidate
  merged_with-id c none old keyed h = refl
  merged_with-id c (some existing) old keyed h = keyed c.evidence_id existing h

  merge_loop-Merged :
      (cs : List (Candidate F)) (old : Dict (Candidate F))
      → Keyed old
      → Merged old cs (merge_loop old cs)
  unfolding merge_loop contains
  merge_loop-Merged [] old keyed = record { keyed = keyed; held = λ i. ground arith }
  merge_loop-Merged (c ∷ cs) old keyed =
      let x = merged_with (get c.evidence_id old) c in
      put-Merged c x cs old _ (
        merge_loop-Merged cs (put c.evidence_id x old) (
          put-Keyed c.evidence_id x old (merged_with-id c (get c.evidence_id old) old keyed refl)
            keyed))

  -- What the loop over the order reads is there, so it returns, in the order.
  pub order_loop-ids :
      (merged : Dict (Candidate F)) (scores : Dict F) (order : List Text)
      → Keyed merged
      → All (λ i. is_some (get i merged) ≡ true) order
      → All (λ i. is_some (get i scores) ≡ true) order
      → (out : List (Candidate F)) × ((order_loop merged scores order ≡ ok out) × (ids out ≡ order))
  unfolding order_loop ordered_candidate
  order_loop-ids merged scores [] keyed m s = ([], (refl, refl))
  order_loop-ids merged scores (i ∷ order) keyed m s =
      let (out, (run, named)) = order_loop-ids merged scores order keyed m.1 s.1 in
      elim (Option-cases (get i merged)) [
        | inl n ↦ absurd (ground (arith, n, m.0))
        | inr (c, y) ↦ elim (Option-cases (get i scores)) [
          | inl n ↦ absurd (ground (arith, n, s.0))
          | inr (score, z) ↦
              (ordered_candidate c score ∷ out, (rw (y, z, run) refl, cc (keyed i c y, named)))
        ]
      ]

contains-ids-append :
    {F : Type 0} (i : Text) (xs ys : List (Candidate F))
    → contains i (ids (xs ++ ys)) ≡ (contains i (ids xs) || contains i (ids ys))
unfolding contains
contains-ids-append i [] ys = refl
contains-ids-append i (x ∷ xs) ys = ground (arith, contains-ids-append i xs ys)

module _ {F : Type 0} (ops : FloatOps F) (lexical vector : List (Candidate F)) (k : ℕ)
    (positive : 1 ≤ k) where
  scores_of-IsFusion :
      (scores : Dict F) × ((scores_of ops (rankings_of lexical vector) k ≡ ok scores)
        × IsFusion ops k (rankings_of lexical vector) scores)
  scores_of-IsFusion = elim (Bool-cases (is_empty (rankings_of lexical vector))) [
    | inl none_ranked ↦ (
      [],
      (
        rw none_ranked refl,
        no_scores ops k (rankings_of lexical vector)
            (nil_of_empty (rankings_of lexical vector) none_ranked),
      ),
    )
    | inr ranked ↦
        let (scores, run, fusion) =
          reciprocal_rank_fusion-IsFusion ops (rankings_of lexical vector) k positive in
        (scores, (rw ranked run, fusion))
  ]

  channels-Merged : Merged [] (lexical ++ vector) (merge_loop [] (lexical ++ vector))
  unfolding get
  channels-Merged = merge_loop-Merged (lexical ++ vector) [] (λ i c h. absurd (cc))

  pub fuse_candidates-Returns : Returns (fuse_candidates ops lexical vector k)
  unfolding fuse_candidates get
  fuse_candidates-Returns =
      let (scores, (scored, fusion)) = scores_of-IsFusion in
      let order = stable_score_order ops scores in
      let (out, (run, named)) =
        order_loop-ids (merge_loop [] (lexical ++ vector)) scores order channels-Merged.keyed
          (All-of-contains order (λ i h. ground (
            arith,
            h,
            channels-Merged.held i,
            contains-ids-append i lexical vector,
            counted ops lexical vector k scores fusion i,
            count-present i order,
          )))
          (All-of-contains order (λ i h. ground (
            arith,
            h,
            count-stable_score_order ops i scores,
            count-present i order,
            count-absent i (keys scores),
            contains-keys i scores,
          ))) in
      (out, rw scored run)

-- What is raised again.
abbrev pub blocks : {A : Type 0} → Result A → Bool
blocks (ok a) = false
blocks (raise e) = is_authoritative e

module _ {F : Type 0} (ops : FloatOps F) (k n : ℕ) (positive : 1 ≤ k)
    (warnings : List Warning) where
  -- The recall returns when no channel raised an authoritative error and one of them answered.
  pub combine_channels-Returns :
      (l v : Result (List (Candidate F)))
      → blocks l ≡ false
      → blocks v ≡ false
      → (is_channel_failure l && is_channel_failure v) ≡ false
      → Returns (combine_channels ops k n l v warnings)
  unfolding combine_channels reraise_authoritative
  combine_channels-Returns (ok l) (ok v) a b h =
      if-Returns (is_empty l && is_empty v) (_, refl)
        (bind-Returns (fuse_candidates ops l v k) _ (fuse_candidates-Returns ops l v k positive)
          (λ fused made. (_, refl)))
  combine_channels-Returns (ok l) (raise e) a b h = rw b (
      if-Returns (is_empty l && true) (_, refl)
        (bind-Returns (fuse_candidates ops l [] k) _ (fuse_candidates-Returns ops l [] k positive)
          (λ fused made. (_, refl))))
  combine_channels-Returns (raise e) (ok v) a b h = rw a (
      if-Returns (is_empty v) (_, refl)
        (bind-Returns (fuse_candidates ops [] v k) _ (fuse_candidates-Returns ops [] v k positive)
          (λ fused made. (_, refl))))
  combine_channels-Returns (raise e) (raise d) a b h = absurd (cc)
