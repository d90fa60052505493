-- ===== src/Ingestion/Mapping/Pages.antt =====
-- Pages of chunks and pages of the volume: `original_page_for` of
-- packages/marx_engels/ingestion/models.py over mappings that cover the volume.
use marx_engels_insight_matc.Base.{
  ℕ, ◌+◌, ◌-◌, ◌≤◌, All-at, In, true, ◌≡◌, refl, sym, ap, ◌∙◌, List, [], ◌∷◌, none, inl, inr,
  Bool-cases, arith,
}
use marx_engels_insight_matc.Ingestion.Failures.{done}
use marx_engels_insight_matc.Ingestion.Mapping.{
  PageRangeMapping, original_page_for, assert_complete_coverage,
}
use marx_engels_insight_matc.Ingestion.Mapping.Ranges.{holds, holders, IsRange}
use marx_engels_insight_matc.Ingestion.Mapping.Coverage.{assert_complete_coverage_iff}

holders-In :
    (p : ℕ) (m : PageRangeMapping) (ms : List PageRangeMapping)
    → In m ms
    → holds p m ≡ true
    → 1 ≤ holders p ms
unfolding holders
holders-In p m [] i h = absurd i
holders-In p m (y ∷ ys) (inl e) h = let h' : holds p y ≡ true = rw (sym e) h in ground (arith, h')
holders-In p m (y ∷ ys) (inr i) h = omega (arith, holders-In p m ys i h)

holder :
    (p : ℕ) (ms : List PageRangeMapping)
    → 1 ≤ holders p ms
    → (m : PageRangeMapping) × In m ms × (holds p m ≡ true)
unfolding holders
holder p [] h = absurd (omega arith)
holder p (m ∷ ms) h = elim (Bool-cases (holds p m)) [
  | inl y ↦ (m, inl refl, y)
  | inr n ↦ let (x, i, y) = holder p ms (ground arith) in (x, inr i, y)
]

holder_unique :
    (p : ℕ) (m x : PageRangeMapping) (ms : List PageRangeMapping)
    → holders p ms ≤ 1
    → In m ms
    → In x ms
    → holds p m ≡ true
    → holds p x ≡ true
    → x ≡ m
unfolding holders
holder_unique p m x [] h i j q q' = absurd i
holder_unique p m x (y ∷ ys) h (inl e) (inl e') q q' = e' ∙ sym e
holder_unique p m x (y ∷ ys) h (inl e) (inr i) q q' =
    let at_head : holds p y ≡ true = rw (sym e) q in absurd (ground (arith, holders-In p x ys i q'))
holder_unique p m x (y ∷ ys) h (inr i) (inl e) q q' =
    let at_head : holds p y ≡ true = rw (sym e) q' in absurd (ground (arith, holders-In p m ys i q))
holder_unique p m x (y ∷ ys) h (inr i) (inr j) q q' = holder_unique p m x ys (omega arith) i j q q'

original_page_for-holds :
    (m : PageRangeMapping) (c p : ℕ)
    → IsRange m
    → original_page_for m c ≡ done p
    → (holds p m ≡ true) × (c + m.offset ≡ p)
unfolding original_page_for
original_page_for-holds m c p r h = ground arith

original_page_for-of_holds :
    (m : PageRangeMapping) (p : ℕ)
    → IsRange m
    → holds p m ≡ true
    → original_page_for m (p - m.offset) ≡ done p
unfolding original_page_for
original_page_for-of_holds m p r h = ground arith

-- When the check accepts the chunks, every page of the volume is a page of a chunk, and of one
-- only: some chunk of the list sends one of its pages to it, and any chunk of the list that
-- sends a page to it is that chunk, and the page is that page.
pub original_page_for_unique :
    (page_count : ℕ) (ms : List PageRangeMapping) (p : ℕ)
    → assert_complete_coverage page_count ms ≡ none
    → 1 ≤ p
    → p ≤ page_count
    → (m : PageRangeMapping) × (c : ℕ) × In m ms
      × (original_page_for m c ≡ done p)
      × ((x : PageRangeMapping) (d : ℕ)
          → In x ms
          → original_page_for x d ≡ done p
          → (x ≡ m) × (d ≡ c))
original_page_for_unique n ms p a h k =
    let (le, rs, d, cover) = (assert_complete_coverage_iff n ms).0 a in
    let one : holders p ms ≡ 1 = ground (arith, cover p) in
    let (m, i, q) = holder p ms (omega arith) in
    let r : IsRange m = All-at IsRange m ms rs i in
    (
      m,
      p - m.offset,
      i,
      original_page_for-of_holds m p r q,
      λ x d j e.
          let (q', s) = original_page_for-holds x d p (All-at IsRange x ms rs j) e in
          let same : x ≡ m = holder_unique p m x ms (omega arith) i j q q' in
          (same, omega (arith, ap (λ (y : PageRangeMapping). y.offset) same)),
    )

-- When the check accepts the chunks, a page of a chunk is a page of the volume.
pub original_page_for_bounds :
    (page_count : ℕ) (ms : List PageRangeMapping) (m : PageRangeMapping) (c p : ℕ)
    → assert_complete_coverage page_count ms ≡ none
    → In m ms
    → original_page_for m c ≡ done p
    → (1 ≤ p) × (p ≤ page_count)
original_page_for_bounds n ms m c p a i e =
    let (le, rs, d, cover) = (assert_complete_coverage_iff n ms).0 a in
    let (q, s) = original_page_for-holds m c p (All-at IsRange m ms rs i) e in
    ground (arith, cover p, holders-In p m ms i q)
