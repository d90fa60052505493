-- ===== src/Pipelines/Claim/Rerank/Laws.antt =====
-- A reranker may only reorder the pool: no candidate is added, lost or repeated.
use marx_engels_insight_matc.Base.{
  ◌≡◌, refl, ap, sym, append_nil, ◌∙◌, Text, text_eq_iff, not, ◌&&◌, ◌||◌, some, is_some, List, [],
  ◌∷◌, ◌++◌, map, keep, if◌then◌else◌, arith, Bool-cases, Option-cases, inl, inr, append_cons,
}
use marx_engels_insight_matc.Base.Dict.{Dict, get, index_by, index_by-some, is_some-index_by}
use marx_engels_insight_matc.Base.Unique.{
  unique_from, contains, count, count-append, Distinct, count-Distinct,
}
use marx_engels_insight_matc.Contracts.{Candidate, Warning}
use marx_engels_insight_matc.Pipelines.Claim.Rerank.{unauthorized, rerank_loop, restrict_rerank}

cons_path :
    {i j : Text} {xs ys : List Text} → i ≡ j → xs ≡ ys → ◌≡◌ {A = List Text} (i ∷ xs) (j ∷ ys)
cons_path e h = λ t. e t ∷ h t

module _ {F : Type 0} where
  abbrev pub ids : List (Candidate F) → List Text
  ids cs = map (λ c. c.evidence_id) cs

  abbrev Keyed : Dict (Candidate F) → Type 0
  Keyed d = (i : Text) (c : Candidate F) → get i d ≡ some c → c.evidence_id ≡ i

  -- One warning for each item outside the pool.
  abbrev pub refused : Dict (Candidate F) → List (Candidate F) → List Warning
  refused pool [] = []
  refused pool (item ∷ reranked) =
      if is_some (get item.evidence_id pool)
      then refused pool reranked
      else unauthorized ∷ refused pool reranked

  rerank_loop-warnings :
      (pool : Dict (Candidate F)) (seen : List Text) (warnings : List Warning)
      (reranked : List (Candidate F))
      → (rerank_loop pool seen warnings reranked).warnings ≡ warnings ++ refused pool reranked
  unfolding rerank_loop
  rerank_loop-warnings pool seen warnings [] = sym (append_nil warnings)
  rerank_loop-warnings pool seen warnings (item ∷ reranked) =
      elim (Option-cases (get item.evidence_id pool)) [
        | inl n ↦
            rw (n, rerank_loop)
              (rerank_loop-warnings pool seen (warnings ++ unauthorized ∷ []) reranked
                ∙ append_cons warnings unauthorized (refused pool reranked))
        | inr (b, y) ↦ elim (Bool-cases (contains item.evidence_id seen)) [
          | inl old ↦ rw (y, old, rerank_loop) (rerank_loop-warnings pool seen warnings reranked)
          | inr new ↦
              rw (y, new, rerank_loop)
                (rerank_loop-warnings pool (item.evidence_id ∷ seen) warnings reranked)
        ]
      ]

  -- The items of the pool that the reranker returns, each once, in its order.
  abbrev pub preferred : Dict (Candidate F) → List Text → List (Candidate F) → List (Candidate F)
  preferred pool seen reranked =
      unique_from (λ (c : Candidate F). c.evidence_id) seen
        (keep (λ (c : Candidate F). is_some (get c.evidence_id pool)) reranked)

  rerank_loop-ids :
      (pool : Dict (Candidate F)) (seen : List Text) (warnings : List Warning)
      (reranked : List (Candidate F))
      → Keyed pool
      → ids (rerank_loop pool seen warnings reranked).ordered ≡ ids (preferred pool seen reranked)
  unfolding rerank_loop unique_from
  rerank_loop-ids pool seen warnings [] keyed = refl
  rerank_loop-ids pool seen warnings (item ∷ reranked) keyed =
      elim (Option-cases (get item.evidence_id pool)) [
        | inl n ↦
            rw (n, rerank_loop)
              (rerank_loop-ids pool seen (warnings ++ unauthorized ∷ []) reranked keyed)
        | inr (b, y) ↦ elim (Bool-cases (contains item.evidence_id seen)) [
          | inl old ↦
              rw (y, old, rerank_loop, unique_from)
                (rerank_loop-ids pool seen warnings reranked keyed)
          | inr new ↦
              rw (y, new, rerank_loop, unique_from)
                (cons_path (keyed item.evidence_id b y)
                  (rerank_loop-ids pool (item.evidence_id ∷ seen) warnings reranked keyed))
        ]
      ]

  count-rerank_loop :
      (i : Text) (pool : Dict (Candidate F)) (seen : List Text) (warnings : List Warning)
      (reranked : List (Candidate F))
      → Keyed pool
      → (count i (ids (rerank_loop pool seen warnings reranked).ordered) ≡ (
          if is_some (get i pool) && not (contains i seen) && contains i (ids reranked)
          then 1
          else 0))
        × (contains i (rerank_loop pool seen warnings reranked).seen
            ≡ (contains i seen || (is_some (get i pool) && contains i (ids reranked))))
  unfolding rerank_loop count contains
  count-rerank_loop i pool seen warnings [] keyed = (ground arith, ground arith)
  count-rerank_loop i pool seen warnings (item ∷ reranked) keyed =
      elim (Option-cases (get item.evidence_id pool)) [
        | inl n ↦
            let (c, s) =
              count-rerank_loop i pool seen (warnings ++ unauthorized ∷ []) reranked keyed in
            (
              ground (arith, n, c, text_eq_iff i item.evidence_id),
              ground (arith, n, s, text_eq_iff i item.evidence_id),
            )
        | inr (b, y) ↦
            let (c, s) = count-rerank_loop i pool seen warnings reranked keyed in
            let (c', s') =
              count-rerank_loop i pool (item.evidence_id ∷ seen) warnings reranked keyed in
            (
              ground (arith, y, c, c', text_eq_iff i item.evidence_id, keyed item.evidence_id b y),
              ground (arith, y, s, s', text_eq_iff i item.evidence_id),
            )
      ]

  count-keep_unseen :
      (i : Text) (seen : List Text) (cs : List (Candidate F))
      → count i (ids (keep (λ c. not (contains c.evidence_id seen)) cs))
        ≡ (if contains i seen then 0 else count i (ids cs))
  unfolding count
  count-keep_unseen i seen [] = ground arith
  count-keep_unseen i seen (c ∷ cs) =
      ground (arith, text_eq_iff i c.evidence_id, count-keep_unseen i seen cs)

  ids-append : (xs ys : List (Candidate F)) → ids (xs ++ ys) ≡ ids xs ++ ids ys
  ids-append [] ys = refl
  ids-append (x ∷ xs) ys = ap (◌∷◌ x.evidence_id) (ids-append xs ys)

  pool-Keyed : (original : List (Candidate F)) → Keyed (index_by (λ c. c.evidence_id) original)
  pool-Keyed original i c h = (index_by-some (λ (c : Candidate F). c.evidence_id) i c original h).0

  -- When the pool has no identifier twice, the result has each identifier of the pool exactly
  -- once and no other. It starts with the items of the pool that the reranker returned, in its
  -- order without repetition, and every item from outside adds one warning.
  pub restrict_rerank_lem :
      (original reranked : List (Candidate F)) (warnings : List Warning)
      → Distinct (ids original)
      → let pool = index_by (λ (c : Candidate F). c.evidence_id) original in
        let result = restrict_rerank original reranked warnings in
        ((i : Text) → count i (ids result.ordered) ≡ count i (ids original))
        × (((rest : List Text) × (ids result.ordered ≡ ids (preferred pool [] reranked) ++ rest))
            × (result.warnings ≡ warnings ++ refused pool reranked))
  unfolding restrict_rerank contains
  restrict_rerank_lem original reranked warnings d =
      let pool = index_by (λ (c : Candidate F). c.evidence_id) original in
      let loop = rerank_loop pool [] warnings reranked in
      let unseen = keep (λ (c : Candidate F). not (contains c.evidence_id loop.seen)) original in
      let split = ids-append loop.ordered unseen in
      (
        λ i.
            let (c, s) = count-rerank_loop i pool [] warnings reranked (pool-Keyed original) in
            ap (count i) split
            ∙ (count-append i (ids loop.ordered) (ids unseen)
                ∙ ground (
                  arith,
                  c,
                  s,
                  count-keep_unseen i loop.seen original,
                  count-Distinct i (ids original) d,
                  is_some-index_by (λ (c : Candidate F). c.evidence_id) i original,
                )),
        (
          (
            ids unseen,
            split
                ∙ ap (λ xs. xs ++ ids unseen)
                    (rerank_loop-ids pool [] warnings reranked (pool-Keyed original)),
          ),
          rerank_loop-warnings pool [] warnings reranked,
        ),
      )
