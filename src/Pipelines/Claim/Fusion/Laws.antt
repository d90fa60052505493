-- ===== src/Pipelines/Claim/Fusion/Laws.antt =====
-- Fusion of the channels: every candidate of either channel stands once, in the order of the
-- fused scores.
use marx_engels_insight_matc.Base.{
  ℕ, ◌≤◌, ◌≡◌, refl, ap, sym, ◌∙◌, Text, is_empty, is_some, keep, concat, append_nil, true, not,
  ◌||◌, none, List, [], ◌∷◌, ◌++◌, if◌then◌else◌, arith, inl, inr, Bool-cases,
}
use marx_engels_insight_matc.Base.Dict.{Dict, get, keys, contains-keys}
use marx_engels_insight_matc.Base.Sort.{sort_by, count-sort_by}
use marx_engels_insight_matc.Base.Unique.{
  contains, count, count-Distinct, contains-append, count-present, count-absent,
}
use marx_engels_insight_matc.Contracts.{Candidate}
use marx_engels_insight_matc.Errors.{ok}
use marx_engels_insight_matc.Retrieval.Floats.{FloatOps}
use marx_engels_insight_matc.Retrieval.Rrf.{stable_score_order, score_order}
use marx_engels_insight_matc.Retrieval.Rrf.Laws.{
  score_of, IsFusion, reciprocal_rank_fusion-IsFusion,
}
use marx_engels_insight_matc.Pipelines.Claim.Fusion.{
  merge_by_id, fused_loop, rankings_of, fuse_candidates,
}
use marx_engels_insight_matc.Pipelines.Claim.Fusion.Merging.{
  ids, merge_lexical-Merged, merge_vector-Merged, fused_loop-ids, All-of-contains,
}

module _ {F : Type 0} (lexical vector : List (Candidate F)) where
  pub contains-rankings_of :
      (i : Text)
      → contains i (concat (rankings_of lexical vector))
        ≡ (contains i (ids lexical) || contains i (ids vector))
  unfolding contains
  contains-rankings_of i = each (ids lexical) (ids vector)
    where
      each :
          (xs ys : List Text)
          → contains i (concat (keep (λ r. not (is_empty r)) (xs ∷ ys ∷ [])))
            ≡ (contains i xs || contains i ys)
      each [] [] = refl
      each [] (y ∷ ys) = ap (contains i) (append_nil (y ∷ ys))
      each (x ∷ xs) [] = ground (arith, ap (contains i) (append_nil (x ∷ xs)))
      each (x ∷ xs) (y ∷ ys) =
          ground (arith, contains-append i xs (y ∷ ys ++ []), ap (contains i) (append_nil (y ∷ ys)))

pub nil_of_empty : (xss : List (List Text)) → is_empty xss ≡ true → xss ≡ []
nil_of_empty [] h = refl
nil_of_empty (xs ∷ xss) h = cc

module _ {F : Type 0} (ops : FloatOps F) where
  pub no_scores : (k : ℕ) (rankings : List (List Text)) → rankings ≡ [] → IsFusion ops k rankings []
  unfolding get contains
  no_scores k rankings e = record {
    distinct = tt;
    ranked = λ i. ap (λ r. contains i (concat r)) (sym e);
    score = λ i. ap (λ r. score_of ops i k r none) (sym e);
  }

  count-stable_score_order :
      (i : Text) (scores : Dict F) → count i (stable_score_order ops scores) ≡ count i (keys scores)
  unfolding stable_score_order
  count-stable_score_order i scores =
      count-sort_by (λ (e : Text × F). e.0) (score_order ops) i scores

  -- What fusion returns.
  pub record IsFused (lexical vector : List (Candidate F)) (k : ℕ) (out : List (Candidate F))
      : Type 0 where
    pub scores : Dict F
    pub fusion : IsFusion ops k (rankings_of lexical vector) scores
    pub order : ids out ≡ stable_score_order ops scores
    pub once :
        (i : Text)
        → count i (ids out) ≡ (if contains i (ids lexical) || contains i (ids vector) then 1 else 0)

  pub counted :
      (lexical vector : List (Candidate F)) (k : ℕ) (scores : Dict F)
      → IsFusion ops k (rankings_of lexical vector) scores
      → (i : Text)
      → count i (stable_score_order ops scores)
        ≡ (if contains i (ids lexical) || contains i (ids vector) then 1 else 0)
  counted lexical vector k scores fusion i = ground (
    arith,
    count-stable_score_order i scores,
    count-Distinct i (keys scores) fusion.distinct,
    fusion.ranked i,
    contains-rankings_of lexical vector i,
  )

  fused :
      (lexical vector : List (Candidate F)) (k : ℕ) (scores : Dict F)
      → IsFusion ops k (rankings_of lexical vector) scores
      → (merged : Dict (Candidate F)) × ((merge_by_id lexical vector scores ≡ ok merged)
          × ((out : List (Candidate F)) × ((fused_loop merged scores (stable_score_order ops scores)
                  ≡ ok out)
                × (ids out ≡ stable_score_order ops scores))))
  unfolding merge_by_id get
  fused lexical vector k scores fusion =
      let known = λ (i : Text) (h : contains i (ids lexical) || contains i (ids vector) ≡ true).
        scored i (ground (arith, h, fusion.ranked i, contains-rankings_of lexical vector i)) in
      let (first, (run, m)) =
        merge_lexical-Merged scores 1 lexical [] (λ i c h. absurd (cc))
          (All-of-contains (ids lexical) (λ i h. known i (ground (arith, h)))) in
      let (merged, (run', m')) =
        merge_vector-Merged scores 1 vector first m.keyed
          (All-of-contains (ids vector) (λ i h. known i (ground (arith, h)))) in
      let order = stable_score_order ops scores in
      (
        merged,
        (
          rw run run',
          fused_loop-ids merged scores order m'.keyed
              (All-of-contains order (λ i h. ground (
                arith,
                h,
                m'.held i,
                m.held i,
                counted lexical vector k scores fusion i,
                count-present i order,
              )))
              (All-of-contains order (λ i h. scored i (
                ground (
                  arith,
                  h,
                  count-stable_score_order i scores,
                  count-present i order,
                  count-absent i (keys scores),
                )))),
        ),
      )
    where
      scored : (i : Text) → contains i (keys scores) ≡ true → is_some (get i scores) ≡ true
      scored i h = sym (contains-keys i scores) ∙ h

  -- With a positive rank constant the fusion of both channels returns. Every candidate of
  -- either channel stands once and no other, in the stable order of the scores that
  -- reciprocal-rank fusion gives to the channels that are not empty.
  pub fuse_candidates-IsFused :
      (lexical vector : List (Candidate F)) (k : ℕ)
      → 1 ≤ k
      → (out : List (Candidate F)) × ((fuse_candidates ops lexical vector k ≡ ok out)
          × IsFused lexical vector k out)
  unfolding fuse_candidates stable_score_order sort_by count
  fuse_candidates-IsFused lexical vector k l =
      elim (Bool-cases (is_empty (rankings_of lexical vector))) [
        | inl none_ranked ↦
            let fusion =
              no_scores k (rankings_of lexical vector)
                (nil_of_empty (rankings_of lexical vector) none_ranked) in
            (
              [],
              (
                rw none_ranked refl,
                record {
                  scores = [];
                  fusion = fusion;
                  order = refl;
                  once = counted lexical vector k [] fusion;
                },
              ),
            )
        | inr ranked ↦
            let (scores, run, fusion) =
              reciprocal_rank_fusion-IsFusion ops (rankings_of lexical vector) k l in
            let (merged, (merging, (out, (looped, order)))) =
              fused lexical vector k scores fusion in
            (
              out,
              (
                rw (ranked, run, merging) looped,
                record {
                  scores = scores;
                  fusion = fusion;
                  order = order;
                  once = λ i. ap (count i) order ∙ counted lexical vector k scores fusion i;
                },
              ),
            )
      ]
