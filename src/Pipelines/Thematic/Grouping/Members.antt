-- ===== src/Pipelines/Thematic/Grouping/Members.antt =====
-- What the loop of `assign_exclusively` claims: each identifier at most once, and only allowed
-- ones.
use marx_engels_insight_matc.Base.{
  ◌+◌, ◌≤◌, ◌≡◌, refl, Text, text_eq_iff, strip, is_empty, concat, keep, Bool, false, not, ◌&&◌,
  ◌||◌, List, [], ◌∷◌, ◌++◌, map, if◌then◌else◌, arith, Bool-cases, inl, inr,
}
use marx_engels_insight_matc.Base.Unique.{
  contains, count, count-append, contains-append, count-absent, count-present, count-unique_texts,
  contains-unique_texts,
}
use marx_engels_insight_matc.Pipelines.Thematic.Types.{ClusterAssignment}
use marx_engels_insight_matc.Pipelines.Thematic.Grouping.{
  unique_keep_order, valid_members, Claims, skipped, theme_id, assign_loop, assign_exclusively,
}

-- The members of all themes.
abbrev pub members : List ClusterAssignment → List Text
members themes = concat (map (λ t. t.evidence_ids) themes)

module _ (allowed : List Text) where
  -- An identifier is taken exactly when it is listed, allowed and not claimed.
  count-valid_members :
      (i : Text) (claimed ids : List Text)
      → count i (valid_members allowed claimed ids)
        ≡ (if contains i allowed && not (contains i claimed) && contains i ids then 1 else 0)
  unfolding valid_members contains count
  count-valid_members i claimed [] = ground arith
  count-valid_members i claimed (j ∷ ids) = ground (
    arith,
    count-valid_members i claimed ids,
    count-valid_members i (j ∷ claimed) ids,
    text_eq_iff i j,
  )

  claims_once :
      (i : Text) (claimed ids : List Text)
      → count i claimed ≤ 1
      → count i (valid_members allowed claimed ids ++ claimed) ≤ 1
  claims_once i claimed ids h = ground (
    arith,
    count-append i (valid_members allowed claimed ids) claimed,
    count-valid_members i claimed ids,
    count-present i claimed,
    count-absent i claimed,
  )

  claims_allowed :
      (i : Text) (claimed ids : List Text)
      → contains i allowed ≡ false
      → contains i claimed ≡ false
      → contains i (valid_members allowed claimed ids ++ claimed) ≡ false
  claims_allowed i claimed ids n c = ground (
    arith,
    contains-append i (valid_members allowed claimed ids) claimed,
    count-valid_members i claimed ids,
    count-present i (valid_members allowed claimed ids),
  )

  record Accounts (claimed : List Text) (claims : Claims) : Type 0 where
    counted :
        (i : Text) → count i (members claims.themes) + count i claimed ≡ count i claims.claimed
    once : (i : Text) → count i claimed ≤ 1 → count i claims.claimed ≤ 1
    permitted :
        (i : Text)
        → contains i allowed ≡ false
        → contains i claimed ≡ false
        → contains i claims.claimed ≡ false

  assign_loop-Accounts :
      (claimed seen : List Text) (rest : List ClusterAssignment)
      → Accounts claimed (assign_loop allowed claimed seen rest)
  unfolding assign_loop count
  assign_loop-Accounts claimed seen [] = record {
    counted = λ i. omega arith;
    once = λ i h. h;
    permitted = λ i a c. c;
  }
  assign_loop-Accounts claimed seen (a ∷ rest) =
      let valid = valid_members allowed claimed (unique_keep_order a.evidence_ids) in
      elim (Bool-cases (skipped (strip a.cluster_id) || is_empty valid)) [
        | inl skip ↦ rw (skip, assign_loop) (assign_loop-Accounts claimed seen rest)
        | inr take ↦
            let id = theme_id (strip a.cluster_id) seen in
            let h = assign_loop-Accounts (valid ++ claimed) (id ∷ seen) rest in
            rw (take, assign_loop)
              (record {
                counted = λ i. omega (
                  arith,
                  h.counted i,
                  count-append i valid claimed,
                  count-append i valid
                      (members (assign_loop allowed (valid ++ claimed) (id ∷ seen) rest).themes),
                );
                once = λ i o. h.once i (claims_once i claimed (unique_keep_order a.evidence_ids) o);
                permitted = λ i n c.
                    h.permitted i n
                      (claims_allowed i claimed (unique_keep_order a.evidence_ids) n c);
              })
      ]

-- What a test keeps of a list without repetition.
count-keep :
    (i : Text) (p : Text → Bool) (ids : List Text)
    → count i (keep p ids) ≡ (if p i then count i ids else 0)
unfolding count
count-keep i p [] = ground arith
count-keep i p (j ∷ ids) = ground (arith, text_eq_iff i j, count-keep i p ids)

-- Grouping is exclusive and complete: each identifier that is allowed stands exactly once, in
-- one theme or in the rest, and no other identifier stands anywhere.
pub assign_exclusively-partition :
    (assignments : List ClusterAssignment) (allowed_ids : List Text) (i : Text)
    → count i (members (assign_exclusively assignments allowed_ids).themes)
        + count i (assign_exclusively assignments allowed_ids).other_related_ids
      ≡ (if contains i allowed_ids then 1 else 0)
unfolding assign_exclusively unique_keep_order count contains
assign_exclusively-partition assignments allowed_ids i =
    let allowed = unique_keep_order allowed_ids in
    ground (
      arith,
      total,
      once,
      outside,
      count-keep i (λ j. not (contains j claims.claimed)) allowed,
      count-unique_texts i allowed_ids,
      contains-unique_texts i allowed_ids,
      count-present i claims.claimed,
      count-absent i claims.claimed,
    )
  where
    claims : Claims
    claims = assign_loop (unique_keep_order allowed_ids) [] [] assignments

    h : Accounts (unique_keep_order allowed_ids) [] claims
    h = assign_loop-Accounts (unique_keep_order allowed_ids) [] [] assignments

    total : count i (members claims.themes) ≡ count i claims.claimed
    total = omega (arith, h.counted i)

    once : count i claims.claimed ≤ 1
    once = h.once i (omega arith)

    outside : contains i (unique_keep_order allowed_ids) ≡ false → contains i claims.claimed ≡ false
    outside n = h.permitted i n refl
