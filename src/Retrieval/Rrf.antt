-- ===== src/Retrieval/Rrf.antt =====
-- packages/marx_engels/retrieval_core/rrf.py: reciprocal-rank fusion and the stable order.
pub mod Laws
use Prim.Native.Nat.{Ordering}
use marx_engels_insight_matc.Base.{
  ℕ, ◌+◌, Text, codes, ◌==◌, Option, none, some, List, [], ◌∷◌, map, if◌then◌else◌,
}
use marx_engels_insight_matc.Base.Compare.{compare_text, lexicographic, descending}
use marx_engels_insight_matc.Base.Dict.{Dict, get, put}
use marx_engels_insight_matc.Base.Sort.{sort_by}
use marx_engels_insight_matc.Errors.{Result, ok, raise, other}
use marx_engels_insight_matc.Retrieval.Floats.{FloatOps}

module _ {F : Type 0} (ops : FloatOps F) where
  abbrev pub or_zero : Option F → F
  or_zero none = ops.zero
  or_zero (some x) = x

  -- the inner loop, over `enumerate(ranking, start=1)`
  unfoldable pub fuse_ranking : ℕ → ℕ → List Text → Dict F → Dict F
  fuse_ranking rank_constant rank [] scores = scores
  fuse_ranking rank_constant rank (i ∷ ids) scores =
      fuse_ranking rank_constant (rank + 1) ids
        (put i (ops.add (or_zero (get i scores)) (ops.reciprocal (rank_constant + rank))) scores)

  unfoldable pub fuse_rankings : ℕ → List (List Text) → Dict F → Dict F
  unfolding fuse_ranking
  fuse_rankings rank_constant [] scores = scores
  fuse_rankings rank_constant (ranking ∷ rankings) scores =
      fuse_rankings rank_constant rankings (fuse_ranking rank_constant 1 ranking scores)

  unfoldable pub reciprocal_rank_fusion : List (List Text) → ℕ → Result (Dict F)
  unfolding fuse_rankings
  reciprocal_rank_fusion rankings rank_constant =
      if rank_constant == 0
      then raise (other (codes "rank_constant must be positive"))
      else ok (fuse_rankings rank_constant rankings [])

  -- the key `(-score, document_id)` of an item
  abbrev pub score_order : Text × F → Text × F → Ordering
  score_order p q = lexicographic (descending ops.compare) compare_text (p.1, p.0) (q.1, q.0)

  unfoldable pub stable_score_order : Dict F → List Text
  stable_score_order scores = map (λ e. e.0) (sort_by score_order scores)
