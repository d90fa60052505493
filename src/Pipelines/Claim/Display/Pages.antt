-- ===== src/Pipelines/Claim/Display/Pages.antt =====
-- Cutting a result to a page: the groups list what the page shows, in its order, and no group
-- is empty.
use marx_engels_insight_matc.Base.{
  ℕ, zero, suc, ◌≡◌, ◌≢◌, refl, ap, sym, ◌∙◌, Text, text_eq_iff, text_eq_refl, is_empty, take,
  length, keep, concat, min, length-take, All, Bool, true, false, List, [], ◌∷◌, ◌++◌, map, arith,
  inl, inr, Bool-cases,
}
use marx_engels_insight_matc.Base.Unique.{contains, Distinct}
use marx_engels_insight_matc.Contracts.{Evidence, ResultGroup}
use marx_engels_insight_matc.Pipelines.Claim.Display.{trim_loop, apply_page_size}

abbrev pub ids : List Evidence → List Text
ids = map (λ (e : Evidence). e.evidence_id)

-- The evidence identifiers of all groups.
abbrev pub grouped_ids : {F : Type 0} → List (ResultGroup F) → List Text
grouped_ids groups = concat (map (λ g. g.evidence_ids) groups)

keep-append : (p : Text → Bool) (xs ys : List Text) → keep p (xs ++ ys) ≡ keep p xs ++ keep p ys
keep-append p [] ys = refl
keep-append p (x ∷ xs) ys = ground (arith, keep-append p xs ys)

nil_of_empty : (xs : List Text) → is_empty xs ≡ true → xs ≡ []
nil_of_empty [] h = refl
nil_of_empty (x ∷ xs) h = cc

trim_loop-grouped_ids :
    {F : Type 0} (allowed : List Text) (groups : List (ResultGroup F))
    → grouped_ids (trim_loop allowed groups) ≡ keep (λ i. contains i allowed) (grouped_ids groups)
unfolding trim_loop
trim_loop-grouped_ids allowed [] = refl
trim_loop-grouped_ids allowed (g ∷ groups) = ground (
  arith,
  keep-append (λ i. contains i allowed) g.evidence_ids (grouped_ids groups),
  trim_loop-grouped_ids allowed groups,
  nil_of_empty (keep (λ i. contains i allowed) g.evidence_ids),
)

trim_loop-inhabited :
    {F : Type 0} (allowed : List Text) (groups : List (ResultGroup F))
    → All (λ (g : ResultGroup F). g.evidence_ids ≢ []) (trim_loop allowed groups)
unfolding trim_loop
trim_loop-inhabited allowed [] = tt
trim_loop-inhabited allowed (g ∷ groups) =
    elim (Bool-cases (is_empty (keep (λ i. contains i allowed) g.evidence_ids))) [
      | inl none ↦ rw none (trim_loop-inhabited allowed groups)
      | inr shown ↦ rw shown ((λ e. ground (arith, e, shown)), trim_loop-inhabited allowed groups)
    ]

keep_none :
    (x : Text) (allowed xs : List Text)
    → contains x xs ≡ false
    → keep (λ i. contains i (x ∷ allowed)) xs ≡ keep (λ i. contains i allowed) xs
unfolding contains
keep_none x allowed [] h = refl
keep_none x allowed (y ∷ ys) h =
    ground (arith, text_eq_iff x y, text_eq_iff y x, keep_none x allowed ys)

keep_absent : (xs : List Text) → keep (λ i. contains i []) xs ≡ []
unfolding contains
keep_absent [] = refl
keep_absent (x ∷ xs) = keep_absent xs

-- The elements of a list with no repetition that stand among its first `n` are those.
keep-take :
    (n : ℕ) (xs : List Text) → Distinct xs → keep (λ i. contains i (take n xs)) xs ≡ take n xs
unfolding contains
keep-take zero xs d = keep_absent xs
keep-take (suc n) [] d = refl
keep-take (suc n) (x ∷ xs) d =
    ground (arith, text_eq_refl x, keep_none x (take n xs) xs d.0, keep-take n xs d.1)

take-ids : (n : ℕ) (es : List Evidence) → ids (take n es) ≡ take n (ids es)
take-ids zero es = refl
take-ids (suc n) [] = refl
take-ids (suc n) (e ∷ es) = ap (◌∷◌ e.evidence_id) (take-ids n es)

module _ {F : Type 0} where
  -- A page of the result has at most `page_size` evidence, the first ones. When the groups list
  -- the evidence, in its order and none twice, the groups of the page list the evidence of the
  -- page, in its order, and none of them is empty.
  pub apply_page_size_lem :
      (groups : List (ResultGroup F)) (evidence : List Evidence) (page_size : ℕ)
      → grouped_ids groups ≡ ids evidence
      → Distinct (ids evidence)
      → let page = apply_page_size groups evidence page_size in
        (grouped_ids page.groups ≡ ids page.evidence)
        × (All (λ (g : ResultGroup F). g.evidence_ids ≢ []) page.groups
            × ((page.evidence ≡ take page_size evidence)
                × (length page.evidence ≡ min page_size (length evidence))))
  unfolding apply_page_size
  apply_page_size_lem groups evidence page_size same once =
      let allowed = ids (take page_size evidence) in
      (
        trim_loop-grouped_ids allowed groups
            ∙ (ap (keep (λ i. contains i allowed)) same
                ∙ (ap (λ a. keep (λ i. contains i a) (ids evidence)) (take-ids page_size evidence)
                    ∙ (keep-take page_size (ids evidence) once
                        ∙ sym (take-ids page_size evidence)))),
        (trim_loop-inhabited allowed groups, (refl, length-take page_size evidence)),
      )
