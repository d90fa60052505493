-- ===== src/Pipelines/Claim/Display/Selection.antt =====
-- What is selected for display: the labelled candidates, in the order of their scores.
use Prim.Native.Nat.{Ordering}
use marx_engels_insight_matc.Base.{
  ◌≡◌, ◌≢◌, ◌≤◌, ◌⊎◌, ◌↔◌, refl, ap, arith, inl, inr, Text, All, All-In, All-at, All-weaken, In,
  Bool, true, Option, none, some, List, [], ◌∷◌, keep, map, if◌then◌else◌,
}
use marx_engels_insight_matc.Base.Compare.{
  then_by, le_of, IsOrder, compare_text, compare_text-IsOrder, lexicographic-IsOrder,
  descending-IsOrder, by_key-IsOrder,
}
use marx_engels_insight_matc.Base.Keep.{In-keep_iff, keep-Ascending, count-keep-sort_by}
use marx_engels_insight_matc.Base.Sort.{
  sort_by, Ascending, sort_by-Ascending, All-sort_by, All-of_sort_by,
}
use marx_engels_insight_matc.Base.Unique.{count}
use marx_engels_insight_matc.Contracts.{
  Candidate, SupportLabel, direct, indirect, counter, context_only, irrelevant,
}
use marx_engels_insight_matc.Pipelines.Claim.Display.{
  displayed, present_score, group_sort_key, display_order, select_loop, select_for_display,
}
use marx_engels_insight_matc.Retrieval.Floats.{FloatOps, IsOrdered}

-- The label is one that is shown: not irrelevant, and counter only where it was asked for.
abbrev pub Shown : Bool → Option SupportLabel → Type 0
Shown include label =
    (label ≡ some direct)
    ⊎ ((label ≡ some indirect)
        ⊎ ((label ≡ some context_only) ⊎ ((label ≡ some counter) × (include ≡ true))))

displayed_iff :
    (include : Bool) (label : Option SupportLabel)
    → (displayed include label ≡ true) ↔ Shown include label
displayed_iff include none = (λ h. ground arith, λ h. ground arith)
displayed_iff include (some direct) = (λ h. inl refl, λ h. refl)
displayed_iff include (some indirect) = (λ h. inr (inl refl), λ h. refl)
displayed_iff include (some counter) = (λ h. inr (inr (inr (refl, h))), λ h. ground arith)
displayed_iff include (some context_only) = (λ h. inr (inr (inl refl)), λ h. refl)
displayed_iff include (some irrelevant) = (λ h. ground arith, λ h. ground arith)

-- The four comparisons of a key, one after the other.
le_cases :
    (o p q t : Ordering)
    → le_of (λ (a b : Unit {0}). then_by o (then_by p (then_by q t))) tt tt ≡ true
    → (o ≡ Ordering.lt)
      ⊎ ((o ≡ Ordering.eq)
          × ((p ≡ Ordering.lt)
              ⊎ ((p ≡ Ordering.eq)
                  × ((q ≡ Ordering.lt) ⊎ ((q ≡ Ordering.eq) × (t ≢ Ordering.gt))))))
le_cases Ordering.lt p q t h = inl refl
le_cases Ordering.gt p q t h = absurd (ground (arith, h))
le_cases Ordering.eq Ordering.lt q t h = inr (refl, inl refl)
le_cases Ordering.eq Ordering.gt q t h = absurd (ground (arith, h))
le_cases Ordering.eq Ordering.eq Ordering.lt t h = inr (refl, inr (refl, inl refl))
le_cases Ordering.eq Ordering.eq Ordering.gt t h = absurd (ground (arith, h))
le_cases Ordering.eq Ordering.eq Ordering.eq t h =
    inr (refl, inr (refl, inr (refl, λ e. absurd (ground (arith, h, e)))))

module _ {F : Type 0} (ops : FloatOps F) where
  abbrev pub ids : List (Candidate F) → List Text
  ids = map (λ (c : Candidate F). c.evidence_id)

  -- A score that is missing is the least.
  abbrev value : Option F → F
  value none = ops.negative_infinity
  value (some x) = x

  abbrev Less : Option F → Option F → Type 0
  Less x y = ops.compare (value x) (value y) ≡ Ordering.lt

  abbrev Level : Option F → Option F → Type 0
  Level x y = ops.compare (value x) (value y) ≡ Ordering.eq

  -- `c` has the greater rerank score; with the same, the greater fusion score, then the greater
  -- vector score; with the same three, `d` has not the smaller identifier.
  abbrev pub Precedes : Candidate F → Candidate F → Type 0
  Precedes c d =
      Less d.rerank_score c.rerank_score
      ⊎ (Level d.rerank_score c.rerank_score
          × (Less d.fusion_score c.fusion_score
              ⊎ (Level d.fusion_score c.fusion_score
                  × (Less d.vector_score c.vector_score
                      ⊎ (Level d.vector_score c.vector_score
                          × (compare_text c.evidence_id d.evidence_id ≢ Ordering.gt))))))

  -- Every candidate precedes all that stand after it.
  abbrev pub IsRanked : List (Candidate F) → Type 0
  IsRanked [] = Unit
  IsRanked (c ∷ cs) = All (Precedes c) cs × IsRanked cs

  Precedes-of_le : (c d : Candidate F) → le_of (display_order ops) c d ≡ true → Precedes c d
  unfolding group_sort_key present_score
  Precedes-of_le c d h =
      le_cases (ops.compare (value d.rerank_score) (value c.rerank_score))
        (ops.compare (value d.fusion_score) (value c.fusion_score))
        (ops.compare (value d.vector_score) (value c.vector_score))
        (compare_text c.evidence_id d.evidence_id) h

  IsRanked-of_Ascending : (cs : List (Candidate F)) → Ascending (display_order ops) cs → IsRanked cs
  IsRanked-of_Ascending [] h = tt
  IsRanked-of_Ascending (c ∷ cs) h = (
    All-weaken (λ d. le_of (display_order ops) c d ≡ true) (Precedes c) cs (Precedes-of_le c) h.0,
    IsRanked-of_Ascending cs h.1,
  )

  display_order-IsOrder : IsOrdered ops → IsOrder (display_order ops)
  display_order-IsOrder o = by_key-IsOrder (group_sort_key ops) (
      lexicographic-IsOrder (descending-IsOrder o) (
        lexicographic-IsOrder (descending-IsOrder o)
          (lexicographic-IsOrder (descending-IsOrder o) compare_text-IsOrder)))

  abbrev shown : Bool → Candidate F → Bool
  shown include c = displayed include c.support_label

  select_loop-keep :
      (include : Bool) (cs : List (Candidate F))
      → select_loop ops include cs ≡ keep (shown include) cs
  unfolding select_loop
  select_loop-keep include [] = refl
  select_loop-keep include (c ∷ cs) =
      ap (λ later. if shown include c then c ∷ later else later) (select_loop-keep include cs)

  In-sort_by_iff :
      (c : Candidate F) (cs : List (Candidate F)) → In c (sort_by (display_order ops) cs) ↔ In c cs
  In-sort_by_iff c cs =
      let sorted = sort_by (display_order ops) cs in
      (
        All-at (λ d. In d cs) c sorted
            (All-sort_by (λ d. In d cs) (display_order ops) cs (All-In cs)),
        All-at (λ d. In d sorted) c cs
            (All-of_sort_by (λ d. In d sorted) (display_order ops) cs (All-In sorted)),
      )

  count-keep_le :
      (i : Text) (p : Candidate F → Bool) (cs : List (Candidate F))
      → count i (ids (keep p cs)) ≤ count i (ids cs)
  unfolding count
  count-keep_le i p [] = ground arith
  count-keep_le i p (c ∷ cs) = ground (arith, count-keep_le i p cs)

  -- Where floats are ordered, the selection has exactly the candidates whose label is shown, none
  -- more often than it is given. They descend by rerank score, then by fusion score, then by
  -- vector score, a missing score being the least, and ascend by identifier where all are equal.
  pub select_for_display_lem :
      (candidates : List (Candidate F)) (include : Bool)
      → IsOrdered ops
      → IsRanked (select_for_display ops candidates include)
        × (((c : Candidate F)
              → In c (select_for_display ops candidates include)
                ↔ (In c candidates × Shown include c.support_label))
            × ((i : Text)
                → count i (ids (select_for_display ops candidates include))
                  ≤ count i (ids candidates)))
  unfolding select_for_display
  select_for_display_lem candidates include o =
      let sorted = sort_by (display_order ops) candidates in
      rw (select_loop-keep include sorted) (
        IsRanked-of_Ascending (keep (shown include) sorted) (
            keep-Ascending (shown include) (display_order ops) sorted
              (sort_by-Ascending (display_order-IsOrder o) candidates)),
        (
          λ c.
              let (there, back) = In-keep_iff (shown include) c sorted in
              let (given, kept) = In-sort_by_iff c candidates in
              let (shows, passes) = displayed_iff include c.support_label in
              (λ m. let (k, q) = there m in (given k, shows q), λ (k, s). back (kept k, passes s)),
          λ i.
              let same =
                count-keep-sort_by (shown include) (λ (c : Candidate F). c.evidence_id)
                  (display_order ops) i candidates in
              let less = count-keep_le i (shown include) candidates in omega (arith, same, less),
        ),
      )
