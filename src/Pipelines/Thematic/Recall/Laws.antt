-- ===== src/Pipelines/Thematic/Recall/Laws.antt =====
-- The recall of a theme returns: the merge and the limited scores look up only what is there.
use marx_engels_insight_matc.Base.{
  ℕ, zero, suc, ◌+◌, ◌≤◌, ◌≡◌, refl, sym, Text, is_some, take, All, Bool, true, false, Option, none,
  some, List, [], ◌∷◌, ◌++◌, arith, inl, inr, Option-cases,
}
use mathlib.Core.Path.{subst}
use marx_engels_insight_matc.Base.Dict.{Dict, get, put, keys, contains-keys}
use marx_engels_insight_matc.Base.Unique.{contains, contains-append, count-present, count-absent}
use marx_engels_insight_matc.Contracts.{SearchScope, Candidate, Warning}
use marx_engels_insight_matc.Errors.{Result, ok, raise, ◌>>=◌}
use marx_engels_insight_matc.Errors.Laws.{Returns}
use marx_engels_insight_matc.Retrieval.Floats.{FloatOps}
use marx_engels_insight_matc.Retrieval.Rrf.{stable_score_order}
use marx_engels_insight_matc.Retrieval.Rrf.Laws.{
  IsFusion, reciprocal_rank_fusion-IsFusion, count-stable_score_order,
}
use marx_engels_insight_matc.Pipelines.Claim.Fusion.Merging.{
  ids, Keyed, Merged, put-Keyed, All-of-contains,
}
use marx_engels_insight_matc.Pipelines.Timeline.Recall.Fused.{put-Merged, order_loop-ids}
use marx_engels_insight_matc.Pipelines.Thematic.Ports.{ThematicPorts, is_hard}
use marx_engels_insight_matc.Pipelines.Thematic.Recall.{
  ChannelOutcome, RecallOutcome, recover_channel, with_vector, lexical_loop, vector_loop,
  limited_loop, merge_candidates, search_first, lexical_warning, vector_warning, lexical_recall,
  vector_recall, recall,
}

module _ {F : Type 0} where
  lexical_loop-Merged :
      (rank : ℕ) (cs : List (Candidate F)) (old : Dict (Candidate F))
      → Keyed old
      → Merged old cs (lexical_loop rank old cs)
  unfolding lexical_loop contains
  lexical_loop-Merged rank [] old keyed = record { keyed = keyed; held = λ i. ground arith }
  lexical_loop-Merged rank (c ∷ cs) old keyed =
      put-Merged c _ cs old _
        (lexical_loop-Merged (rank + 1) cs _ (put-Keyed c.evidence_id _ old refl keyed))

  with_vector-id :
      (rank : ℕ) (c : Candidate F) (o : Option (Candidate F)) (old : Dict (Candidate F))
      → Keyed old
      → get c.evidence_id old ≡ o
      → (with_vector rank c o).evidence_id ≡ c.evidence_id
  with_vector-id rank c none old keyed h = refl
  with_vector-id rank c (some existing) old keyed h = keyed c.evidence_id existing h

  vector_loop-Merged :
      (rank : ℕ) (cs : List (Candidate F)) (old : Dict (Candidate F))
      → Keyed old
      → Merged old cs (vector_loop rank old cs)
  unfolding vector_loop contains
  vector_loop-Merged rank [] old keyed = record { keyed = keyed; held = λ i. ground arith }
  vector_loop-Merged rank (c ∷ cs) old keyed = put-Merged c _ cs old _ (
      vector_loop-Merged (rank + 1) cs _ (
        put-Keyed c.evidence_id _ old (with_vector-id rank c (get c.evidence_id old) old keyed refl)
          keyed))

  limited_loop-Returns :
      (scores limited : Dict F) (cs : List (Candidate F))
      → All (λ i. is_some (get i scores) ≡ true) (ids cs)
      → Returns (limited_loop scores limited cs)
  unfolding limited_loop
  limited_loop-Returns scores limited [] s = (limited, refl)
  limited_loop-Returns scores limited (c ∷ cs) s = elim (Option-cases (get c.evidence_id scores)) [
    | inl n ↦ absurd (ground (arith, n, s.0))
    | inr (score, y) ↦ rw y (limited_loop-Returns scores (put c.evidence_id score limited) cs s.1)
  ]

module _ {F : Type 0} (ops : FloatOps F) (lexical vector : List (Candidate F)) where
  abbrev first : Dict (Candidate F)
  first = lexical_loop 1 [] lexical

  first-Merged : Merged [] lexical first
  unfolding get
  first-Merged = lexical_loop-Merged 1 lexical [] (λ i c h. absurd (cc))

  second-Merged : Merged first vector (vector_loop 1 first vector)
  second-Merged = vector_loop-Merged 1 vector first first-Merged.keyed

  ordered-scored :
      (scores : Dict F) (i : Text)
      → contains i (stable_score_order ops scores) ≡ true
      → is_some (get i scores) ≡ true
  ordered-scored scores i h = ground (
    arith,
    h,
    count-stable_score_order ops i scores,
    count-present i (stable_score_order ops scores),
    count-absent i (keys scores),
    contains-keys i scores,
  )

  module _ (k : ℕ) (scores : Dict F)
      (fusion : IsFusion ops k (ids lexical ∷ ids vector ∷ []) scores) where
    ordered-merged :
        (i : Text)
        → contains i (stable_score_order ops scores) ≡ true
        → is_some (get i (vector_loop 1 first vector)) ≡ true
    unfolding contains
    ordered-merged i h = ground (
      arith,
      ordered-scored scores i h,
      contains-keys i scores,
      fusion.ranked i,
      contains-append i (ids lexical) (ids vector ++ []),
      contains-append i (ids vector) [],
      first-Merged.held i,
      second-Merged.held i,
    )

    -- Every candidate of either channel stands in the stable order of the fused scores.
    merge_candidates-ids :
        (out : List (Candidate F)) × ((merge_candidates ops lexical vector scores ≡ ok out)
          × (ids out ≡ stable_score_order ops scores))
    unfolding merge_candidates
    merge_candidates-ids =
        order_loop-ids (vector_loop 1 first vector) scores (stable_score_order ops scores)
          second-Merged.keyed (All-of-contains (stable_score_order ops scores) ordered-merged)
          (All-of-contains (stable_score_order ops scores) (ordered-scored scores))

-- What a recovery raises again.
abbrev pub stops : {A : Type 0} → Result A → Bool
stops (ok a) = false
stops (raise e) = is_hard e

abbrev pub failed : {A : Type 0} → Result A → Bool
failed (ok a) = false
failed (raise e) = true

recover_channel-failed :
    {F : Type 0} (w : Warning) (warnings : List Warning) (m : Result (List (Candidate F)))
    → stops m ≡ false
    → (o : ChannelOutcome F) × ((recover_channel w warnings m ≡ ok o) × (o.failed ≡ failed m))
unfolding recover_channel
recover_channel-failed w warnings (ok hits) h = (_, (refl, refl))
recover_channel-failed w warnings (raise e) h =
    (record { hits = []; failed = true; warnings = warnings ++ w ∷ [] }, (rw h refl, refl))

take-ids :
    {F : Type 0} (P : Text → Type 0) (n : ℕ) (cs : List (Candidate F))
    → All P (ids cs)
    → All P (ids (take n cs))
take-ids P zero cs h = tt
take-ids P (suc n) [] h = tt
take-ids P (suc n) (c ∷ cs) h = (h.0, take-ids P n cs h.1)

module _ {F V : Type 0} (ops : FloatOps F) (ports : ThematicPorts F V) (query : Text)
    (scope : SearchScope) where
  abbrev pub lexical_search : Result (List (Candidate F))
  lexical_search = ports.search_lexical query scope ports.config.lexical_top_k

  abbrev pub vector_search : Result (List (Candidate F))
  vector_search = ports.embed (query ∷ []) >>= search_first ops ports scope

  -- With a positive rank constant and channels that raise no hard error the recall returns, and
  -- it reports as failed exactly the channels that raised.
  pub recall-failed :
      1 ≤ ports.config.rrf_k
      → (warnings : List Warning) → stops lexical_search ≡ false
      → stops vector_search ≡ false
      → (r : RecallOutcome F) × ((recall ops ports query scope warnings ≡ ok r)
          × ((r.lexical_failed ≡ failed lexical_search) × (r.vector_failed ≡ failed vector_search)))
  unfolding recall lexical_recall vector_recall
  recall-failed positive warnings l v =
      let (lexical, (lexical_run, lexical_failed)) =
        recover_channel-failed lexical_warning warnings lexical_search l in
      let (vector, (vector_run, vector_failed)) =
        recover_channel-failed vector_warning lexical.warnings vector_search v in
      let (scores, fused, fusion) =
        reciprocal_rank_fusion-IsFusion ops (ids lexical.hits ∷ ids vector.hits ∷ [])
          ports.config.rrf_k positive in
      let (merged, (merge_run, named)) =
        merge_candidates-ids ops lexical.hits vector.hits ports.config.rrf_k scores fusion in
      let order = stable_score_order ops scores in
      let limited = take ports.config.fusion_top_k merged in
      let (limited_scores, limited_run) = limited_loop-Returns scores [] limited (
        take-ids (λ i. is_some (get i scores) ≡ true) ports.config.fusion_top_k merged
          (subst (All (λ i. is_some (get i scores) ≡ true)) (sym named)
            (All-of-contains order (ordered-scored ops lexical.hits vector.hits scores)))) in
      (
        record {
          candidates = limited;
          scores = limited_scores;
          lexical_failed = lexical.failed;
          vector_failed = vector.failed;
          warnings = vector.warnings;
        },
        (
          rw (lexical_run, vector_run, fused, merge_run, limited_run) refl,
          (lexical_failed, vector_failed),
        ),
      )
