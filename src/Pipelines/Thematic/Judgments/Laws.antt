-- ===== src/Pipelines/Thematic/Judgments/Laws.antt =====
-- The judgments of a reranker reorder and label the pool: they add no candidate, repeat none,
-- and change nothing of a candidate but its label, score and reasons.
use marx_engels_insight_matc.Base.{
  ◌≡◌, refl, Text, codes, text_eq_iff, true, false, not, ◌&&◌, some, is_some, List, [], ◌∷◌, ◌++◌,
  map, if◌then◌else◌, arith, All, In, All-weaken, Option-cases, inl, inr,
}
use marx_engels_insight_matc.Base.Dict.{Dict, get, index_by, index_by-some, is_some-index_by}
use marx_engels_insight_matc.Base.Unique.{contains, count, unique_texts}
use marx_engels_insight_matc.Contracts.{Candidate}
use marx_engels_insight_matc.Pipelines.Thematic.Judgments.{
  judged_candidate, judge_loop, apply_relevance_judgments,
}

module _ {F : Type 0} where
  abbrev pub ids : List (Candidate F) → List Text
  ids cs = map (λ c. c.evidence_id) cs

  -- Every candidate stands under its own identifier.
  abbrev Keyed : Dict (Candidate F) → Type 0
  Keyed d = (i : Text) (c : Candidate F) → get i d ≡ some c → c.evidence_id ≡ i

  count-judge_loop :
      (i : Text) (d : Dict (Candidate F)) (seen : List Text) (scored : List (Candidate F))
      → Keyed d
      → count i (ids (judge_loop d seen scored))
        ≡ (if is_some (get i d) && not (contains i seen) && contains i (ids scored) then 1 else 0)
  unfolding judge_loop count contains
  count-judge_loop i d seen [] keyed = ground arith
  count-judge_loop i d seen (j ∷ scored) keyed = elim (Option-cases (get j.evidence_id d)) [
    | inl n ↦ ground (arith, count-judge_loop i d seen scored keyed, text_eq_iff i j.evidence_id)
    | inr (c, y) ↦ ground (
      arith,
      count-judge_loop i d seen scored keyed,
      count-judge_loop i d (j.evidence_id ∷ seen) scored keyed,
      text_eq_iff i j.evidence_id,
      keyed j.evidence_id c y,
    )
  ]

  -- `c` is `original` with the label, the score and one more reason of `judgment`.
  pub record IsJudged (original judgment c : Candidate F) : Type 0 where
    pub same_id : original.evidence_id ≡ judgment.evidence_id
    pub evidence_id : c.evidence_id ≡ original.evidence_id
    pub channels : c.channels ≡ original.channels
    pub retrieval_unit_ids : c.retrieval_unit_ids ≡ original.retrieval_unit_ids
    pub exact_match_count : c.exact_match_count ≡ original.exact_match_count
    pub lexical_score : c.lexical_score ≡ original.lexical_score
    pub exclusion_reasons : c.exclusion_reasons ≡ original.exclusion_reasons
    pub text_hash : c.text_hash ≡ original.text_hash
    pub vector_rank : c.vector_rank ≡ original.vector_rank
    pub vector_score : c.vector_score ≡ original.vector_score
    pub lexical_rank : c.lexical_rank ≡ original.lexical_rank
    pub fusion_score : c.fusion_score ≡ original.fusion_score
    pub support_label : c.support_label ≡ judgment.support_label
    pub rerank_score : c.rerank_score ≡ judgment.rerank_score
    pub rank_reasons : c.rank_reasons ≡ unique_texts (original.rank_reasons ++ codes "rerank" ∷ [])

  abbrev pub Judged : List (Candidate F) → List (Candidate F) → Candidate F → Type 0
  Judged pool scored c =
      (original : Candidate F) × (judgment : Candidate F) × In original pool
      × In judgment scored
      × IsJudged original judgment c

  Judged-later :
      (pool scored : List (Candidate F)) (j : Candidate F) (cs : List (Candidate F))
      → All (Judged pool scored) cs
      → All (Judged pool (j ∷ scored)) cs
  Judged-later pool scored j cs =
      All-weaken (Judged pool scored) (Judged pool (j ∷ scored)) cs
        (λ c (o, k, m, n, h). (o, k, m, inr n, h))

  module _ (pool : List (Candidate F)) (d : Dict (Candidate F))
      (found : (i : Text) (c : Candidate F)
        → get i d ≡ some c
        → (c.evidence_id ≡ i) × In c pool) where
    judge_loop-Judged :
        (seen : List Text) (scored : List (Candidate F))
        → All (Judged pool scored) (judge_loop d seen scored)
    unfolding judge_loop
    judge_loop-Judged seen [] = tt
    judge_loop-Judged seen (j ∷ scored) = elim (Option-cases (get j.evidence_id d)) [
      | inl n ↦
          rw (n, judge_loop)
            (Judged-later pool scored j (judge_loop d seen scored) (judge_loop-Judged seen scored))
      | inr (c, y) ↦
          let (key, member) = found j.evidence_id c y in
          rw (y, judge_loop)
            (rest c y key member (judge_loop-Judged seen scored)
              (judge_loop-Judged (j.evidence_id ∷ seen) scored))
    ]
      where
        rest :
            (c : Candidate F)
            → get j.evidence_id d ≡ some c
            → c.evidence_id ≡ j.evidence_id
            → In c pool
            → All (Judged pool scored) (judge_loop d seen scored)
            → All (Judged pool scored) (judge_loop d (j.evidence_id ∷ seen) scored)
            → All
                (Judged pool (j ∷ scored))
                (elim (contains j.evidence_id seen) as (λ b. List (Candidate F)) [
                  | true ↦ judge_loop d seen scored
                  | false ↦ judged_candidate c j ∷ judge_loop d (j.evidence_id ∷ seen) scored
                ])
        rest c y key member old new =
            elim (contains j.evidence_id seen)
              as (λ b. All (Judged pool (j ∷ scored)) (elim b as (λ b. List (Candidate F)) [
                | true ↦ judge_loop d seen scored
                | false ↦ judged_candidate c j ∷ judge_loop d (j.evidence_id ∷ seen) scored
              ])) [
                | true ↦ Judged-later pool scored j (judge_loop d seen scored) old
                | false ↦ (
                  (
                    c,
                    j,
                    member,
                    inl refl,
                    record {
                      same_id = key;
                      evidence_id = refl;
                      channels = refl;
                      retrieval_unit_ids = refl;
                      exact_match_count = refl;
                      lexical_score = refl;
                      exclusion_reasons = refl;
                      text_hash = refl;
                      vector_rank = refl;
                      vector_score = refl;
                      lexical_rank = refl;
                      fusion_score = refl;
                      support_label = refl;
                      rerank_score = refl;
                      rank_reasons = refl;
                    },
                  ),
                  Judged-later pool scored j (judge_loop d (j.evidence_id ∷ seen) scored) new,
                )
              ]

  -- The judged candidates are exactly the identifiers that the pool and the reranker share, each
  -- once, and each is the pool's candidate with the label, the score and one more reason.
  pub apply_relevance_judgments_lem :
      (pool scored : List (Candidate F))
      → ((i : Text)
          → count i (ids (apply_relevance_judgments pool scored))
            ≡ (if contains i (ids pool) && contains i (ids scored) then 1 else 0))
        × All (Judged pool scored) (apply_relevance_judgments pool scored)
  unfolding apply_relevance_judgments contains
  apply_relevance_judgments_lem pool scored =
      let d = index_by (λ (c : Candidate F). c.evidence_id) pool in
      let found = λ (i : Text) (c : Candidate F).
        index_by-some (λ (e : Candidate F). e.evidence_id) i c pool in
      (
        λ i. ground (
          arith,
          count-judge_loop i d [] scored (λ j c y. (found j c y).0),
          is_some-index_by (λ (e : Candidate F). e.evidence_id) i pool,
        ),
        judge_loop-Judged pool d found [] scored,
      )
