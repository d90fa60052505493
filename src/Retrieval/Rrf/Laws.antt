-- ===== src/Retrieval/Rrf/Laws.antt =====
-- Fused scores: one entry for each document that is ranked, with the sum of the contributions
-- of its ranks; the order lists each document once, by falling score.
use marx_engels_insight_matc.Base.{
  ℕ, ◌+◌, ◌≤◌, ◌≡◌, refl, ◌∙◌, ap, Text, text_eq, text_eq_iff, ◌||◌, Option, none, some, List, [],
  ◌∷◌, concat, is_some, if◌then◌else◌, arith,
}
use marx_engels_insight_matc.Base.Compare.{
  compare_text-IsOrder, lexicographic-IsOrder, descending-IsOrder, IsOrder,
}
use marx_engels_insight_matc.Base.Dict.{
  Dict, get, put, keys, get-put, contains-keys, Distinct-keys-put,
}
use marx_engels_insight_matc.Base.Sort.{sort_by, Ascending, sort_by-Ascending, count-sort_by}
use marx_engels_insight_matc.Base.Unique.{
  contains, count, Distinct, count-Distinct, contains-append,
}
use marx_engels_insight_matc.Errors.{ok}
use marx_engels_insight_matc.Retrieval.Floats.{FloatOps, IsOrdered}
use marx_engels_insight_matc.Retrieval.Rrf.{
  or_zero, fuse_ranking, fuse_rankings, reciprocal_rank_fusion, score_order, stable_score_order,
}

module _ {F : Type 0} (ops : FloatOps F) where
  -- One contribution more: a document without a score starts from zero.
  abbrev contribute : Option F → F → Option F
  contribute o x = some (ops.add (or_zero ops o) x)

  -- The score of a document after the ranks of one ranking, from `rank` on.
  abbrev rank_score : Text → ℕ → ℕ → List Text → Option F → Option F
  rank_score i k rank [] o = o
  rank_score i k rank (j ∷ ids) o =
      rank_score i k (rank + 1) ids
        (if text_eq i j then contribute o (ops.reciprocal (k + rank)) else o)

  -- The score of a document: each of its ranks, ranking after ranking, adds `1 / (k + rank)`.
  abbrev pub score_of : Text → ℕ → List (List Text) → Option F → Option F
  score_of i k [] o = o
  score_of i k (ranking ∷ rankings) o = score_of i k rankings (rank_score i k 1 ranking o)

  get-fuse_ranking :
      (i : Text) (k rank : ℕ) (ids : List Text) (scores : Dict F)
      → get i (fuse_ranking ops k rank ids scores) ≡ rank_score i k rank ids (get i scores)
  unfolding fuse_ranking
  get-fuse_ranking i k rank [] scores = refl
  get-fuse_ranking i k rank (j ∷ ids) scores =
      let score = ops.add (or_zero ops (get j scores)) (ops.reciprocal (k + rank)) in
      get-fuse_ranking i k (rank + 1) ids (put j score scores)
      ∙ ap (rank_score i k (rank + 1) ids)
          (ground (arith, get-put j i score scores, text_eq_iff i j))

  get-fuse_rankings :
      (i : Text) (k : ℕ) (rankings : List (List Text)) (scores : Dict F)
      → get i (fuse_rankings ops k rankings scores) ≡ score_of i k rankings (get i scores)
  unfolding fuse_rankings
  get-fuse_rankings i k [] scores = refl
  get-fuse_rankings i k (ranking ∷ rankings) scores =
      get-fuse_rankings i k rankings (fuse_ranking ops k 1 ranking scores)
      ∙ ap (score_of i k rankings) (get-fuse_ranking i k 1 ranking scores)

  is_some-rank_score :
      (i : Text) (k rank : ℕ) (ids : List Text) (o : Option F)
      → is_some (rank_score i k rank ids o) ≡ (contains i ids || is_some o)
  unfolding contains
  is_some-rank_score i k rank [] o = refl
  is_some-rank_score i k rank (j ∷ ids) o = ground (
    arith,
    is_some-rank_score i k (rank + 1) ids o,
    is_some-rank_score i k (rank + 1) ids (contribute o (ops.reciprocal (k + rank))),
  )

  is_some-score_of :
      (i : Text) (k : ℕ) (rankings : List (List Text)) (o : Option F)
      → is_some (score_of i k rankings o) ≡ (contains i (concat rankings) || is_some o)
  unfolding contains
  is_some-score_of i k [] o = refl
  is_some-score_of i k (ranking ∷ rankings) o = ground (
    arith,
    is_some-score_of i k rankings (rank_score i k 1 ranking o),
    is_some-rank_score i k 1 ranking o,
    contains-append i ranking (concat rankings),
  )

  Distinct-fuse_ranking :
      (k rank : ℕ) (ids : List Text) (scores : Dict F)
      → Distinct (keys scores)
      → Distinct (keys (fuse_ranking ops k rank ids scores))
  unfolding fuse_ranking
  Distinct-fuse_ranking k rank [] scores d = d
  Distinct-fuse_ranking k rank (j ∷ ids) scores d =
      let score = ops.add (or_zero ops (get j scores)) (ops.reciprocal (k + rank)) in
      Distinct-fuse_ranking k (rank + 1) ids (put j score scores)
        (Distinct-keys-put j score scores d)

  Distinct-fuse_rankings :
      (k : ℕ) (rankings : List (List Text)) (scores : Dict F)
      → Distinct (keys scores)
      → Distinct (keys (fuse_rankings ops k rankings scores))
  unfolding fuse_rankings
  Distinct-fuse_rankings k [] scores d = d
  Distinct-fuse_rankings k (ranking ∷ rankings) scores d =
      Distinct-fuse_rankings k rankings (fuse_ranking ops k 1 ranking scores)
        (Distinct-fuse_ranking k 1 ranking scores d)

  -- What fusion returns: one entry for each ranked document and no other, holding the sum of
  -- the contributions of its ranks.
  pub record IsFusion (k : ℕ) (rankings : List (List Text)) (scores : Dict F) : Type 0 where
    pub distinct : Distinct (keys scores)
    pub ranked : (i : Text) → contains i (keys scores) ≡ contains i (concat rankings)
    pub score : (i : Text) → get i scores ≡ score_of i k rankings none

  -- With a positive rank constant the fusion returns, with one entry for each document that some
  -- ranking lists and no other, and its score is the sum, from zero, of `1 / (k + rank)` over
  -- its ranks in the order of the rankings.
  pub reciprocal_rank_fusion-IsFusion :
      (rankings : List (List Text)) (k : ℕ)
      → 1 ≤ k
      → (scores : Dict F) × (reciprocal_rank_fusion ops rankings k ≡ ok scores)
        × IsFusion k rankings scores
  unfolding reciprocal_rank_fusion get
  reciprocal_rank_fusion-IsFusion rankings k h = (
    fuse_rankings ops k rankings [],
    ground arith,
    record {
      distinct = Distinct-fuse_rankings k rankings [] tt;
      ranked = λ i. ground (
        arith,
        contains-keys i (fuse_rankings ops k rankings []),
        get-fuse_rankings i k rankings [],
        is_some-score_of i k rankings none,
      );
      score = λ i. get-fuse_rankings i k rankings [];
    },
  )

  score_order-IsOrder : IsOrdered ops → IsOrder (score_order ops)
  score_order-IsOrder o =
      let pairs = lexicographic-IsOrder (descending-IsOrder o) compare_text-IsOrder in
      record {
        swap = λ p q. pairs.swap (p.1, p.0) (q.1, q.0);
        lt_trans = λ p q r. pairs.lt_trans (p.1, p.0) (q.1, q.0) (r.1, r.0);
        eq_left = λ p q r. pairs.eq_left (p.1, p.0) (q.1, q.0) (r.1, r.0);
      }

  pub count-stable_score_order :
      (i : Text) (scores : Dict F) → count i (stable_score_order ops scores) ≡ count i (keys scores)
  unfolding stable_score_order
  count-stable_score_order i scores =
      count-sort_by (λ (e : Text × F). e.0) (score_order ops) i scores

  -- Where floats are ordered and no document has two scores, the stable order lists each document
  -- of the scores once, as the names of the entries in
  -- ascending order of the key `(-score, document_id)`.
  pub stable_score_order_sorted :
      (scores : Dict F)
      → IsOrdered ops
      → Distinct (keys scores)
      → (entries : Dict F) × (stable_score_order ops scores ≡ keys entries)
        × Ascending (score_order ops) entries
        × ((i : Text)
            → count i (stable_score_order ops scores) ≡ (if contains i (keys scores) then 1 else 0))
  unfolding stable_score_order
  stable_score_order_sorted scores o d = (
    sort_by (score_order ops) scores,
    refl,
    sort_by-Ascending (score_order-IsOrder o) scores,
    λ i.
        count-sort_by (λ (e : Text × F). e.0) (score_order ops) i scores
        ∙ count-Distinct i (keys scores) d,
  )
