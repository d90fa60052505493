-- ===== src/Pipelines/Timeline/Recall/Laws.antt =====
-- What is taken from the reranker of the timeline: the candidates of the pool, each once.
use marx_engels_insight_matc.Base.{
  ◌≡◌, refl, Text, text_eq_iff, is_empty, is_some, not, ◌&&◌, ◌||◌, some, List, [], ◌∷◌, map,
  if◌then◌else◌, arith, inl, inr, Bool-cases, Option-cases,
}
use marx_engels_insight_matc.Base.Dict.{Dict, get, index_by, index_by-some, is_some-index_by}
use marx_engels_insight_matc.Base.Unique.{contains, count}
use marx_engels_insight_matc.Contracts.{Candidate}
use marx_engels_insight_matc.Errors.{ok}
use marx_engels_insight_matc.Pipelines.Timeline.Recall.{
  sanitized_candidate, sanitize_loop, sanitize_reranked,
}

module _ {F : Type 0} where
  abbrev pub ids : List (Candidate F) → List Text
  ids cs = map (λ c. c.evidence_id) cs

  abbrev Keyed : Dict (Candidate F) → Type 0
  Keyed d = (i : Text) (c : Candidate F) → get i d ≡ some c → c.evidence_id ≡ i

  abbrev Sanitized : Dict (Candidate F) → List Text → List Text → List (Candidate F) → Type 0
  Sanitized by_id pool seen reranked =
      (out : List (Candidate F)) × ((sanitize_loop by_id pool seen reranked ≡ ok out)
        × ((i : Text)
            → count i (ids out) ≡ (
                if not (is_empty i)
                  && contains i pool
                  && not (contains i seen)
                  && contains i (ids reranked)
                then 1
                else 0)))

  sanitize_loop-Sanitized :
      (by_id : Dict (Candidate F)) (pool seen : List Text) (reranked : List (Candidate F))
      → Keyed by_id
      → ((i : Text) → is_some (get i by_id) ≡ contains i pool)
      → Sanitized by_id pool seen reranked
  unfolding sanitize_loop count contains
  sanitize_loop-Sanitized by_id pool seen [] keyed known = ([], (refl, λ i. ground arith))
  sanitize_loop-Sanitized by_id pool seen (item ∷ reranked) keyed known =
      elim (Bool-cases (
        is_empty item.evidence_id
        || not (contains item.evidence_id pool)
        || contains item.evidence_id seen)) [
          | inl skip ↦
              let (out, (run, counted)) =
                sanitize_loop-Sanitized by_id pool seen reranked keyed known in
              (
                out,
                (
                  rw (skip, sanitize_loop) run,
                  λ i. ground (arith, skip, counted i, text_eq_iff i item.evidence_id),
                ),
              )
          | inr take ↦ elim (Option-cases (get item.evidence_id by_id)) [
            | inl n ↦ absurd (ground (arith, n, take, known item.evidence_id))
            | inr (source, y) ↦
                let (out, (run, counted)) =
                  sanitize_loop-Sanitized by_id pool (item.evidence_id ∷ seen) reranked keyed
                    known in
                (
                  sanitized_candidate source item ∷ out,
                  (
                    rw (take, sanitize_loop) (rw (y, run) refl),
                    λ i. ground (
                      arith,
                      take,
                      counted i,
                      text_eq_iff i item.evidence_id,
                      keyed item.evidence_id source y,
                    ),
                  ),
                )
          ]
        ]

  -- With the identifiers of the pool the sanitising returns. Each identifier that the pool and
  -- the reranker share stands once, unless it is empty, and no other stands there.
  pub sanitize_reranked_lem :
      (reranked original : List (Candidate F))
      → (out : List (Candidate F)) × ((sanitize_reranked reranked original (ids original) ≡ ok out)
          × ((i : Text)
              → count i (ids out) ≡ (
                  if not (is_empty i) && contains i (ids original) && contains i (ids reranked)
                  then 1
                  else 0)))
  unfolding sanitize_reranked contains
  sanitize_reranked_lem reranked original =
      let name = λ (c : Candidate F). c.evidence_id in
      let (out, (run, counted)) =
        sanitize_loop-Sanitized (index_by name original) (ids original) [] reranked
          (λ i c h. (index_by-some name i c original h).0)
          (λ i. is_some-index_by name i original) in
      (out, (run, λ i. ground (arith, counted i)))
