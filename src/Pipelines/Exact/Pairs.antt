-- ===== src/Pipelines/Exact/Pairs.antt =====
-- Lists that are put together, sorted as pairs, and taken apart again.
use Prim.Native.Nat.{Ordering}
use marx_engels_insight_matc.Base.{◌≡◌, refl, ap, All, true, List, [], ◌∷◌, map, arith}
use marx_engels_insight_matc.Base.Compare.{le_of}
use marx_engels_insight_matc.Base.Sort.{Ascending}
use marx_engels_insight_matc.Contracts.{Evidence}
use marx_engels_insight_matc.Errors.{ok}
use marx_engels_insight_matc.Retrieval.Records.{AuthoritativeEvidenceRecord}
use marx_engels_insight_matc.Pipelines.Exact.{zip_strict}

module _ {ℓ κ} {A : Type ℓ} {B : Type κ} (f : A → B) where
  pub All-of-map {ι} : (P : B → Type ι) (xs : List A) → All P (map f xs) → All (λ x. P (f x)) xs
  All-of-map P [] h = tt
  All-of-map P (x ∷ xs) h = (h.0, All-of-map P xs h.1)

  pub All-to-map {ι} : (P : B → Type ι) (xs : List A) → All (λ x. P (f x)) xs → All P (map f xs)
  All-to-map P [] h = tt
  All-to-map P (x ∷ xs) h = (h.0, All-to-map P xs h.1)

  pub Ascending-map :
      (cmp : B → B → Ordering) (xs : List A)
      → Ascending (λ x y. cmp (f x) (f y)) xs
      → Ascending cmp (map f xs)
  Ascending-map cmp [] h = tt
  Ascending-map cmp (x ∷ xs) h =
      (All-to-map (λ y. le_of cmp (f x) y ≡ true) xs h.0, Ascending-map cmp xs h.1)

  pub map-map {ι} :
      {C : Type ι} (g : B → C) (xs : List A) → map g (map f xs) ≡ map (λ x. g (f x)) xs
  map-map g [] = refl
  map-map g (x ∷ xs) = ap (◌∷◌ (g (f x))) (map-map g xs)

abbrev pub Pair : Type 0
Pair = Evidence × AuthoritativeEvidenceRecord

abbrev pub Zipped : List Evidence → List AuthoritativeEvidenceRecord → Type 0
Zipped es rs =
    (ps : List Pair) × ((zip_strict es rs ≡ ok ps)
      × ((map (λ (p : Pair). p.0) ps ≡ es) × (map (λ (p : Pair). p.1) ps ≡ rs)))

-- Lists with the same identifiers are put together without an error.
pub zip_strict-Zipped :
    (es : List Evidence) (rs : List AuthoritativeEvidenceRecord)
    → map (λ (r : AuthoritativeEvidenceRecord). r.evidence_id) rs
      ≡ map (λ (e : Evidence). e.evidence_id) es
    → Zipped es rs
unfolding zip_strict
zip_strict-Zipped [] [] h = ([], (refl, (refl, refl)))
zip_strict-Zipped [] (r ∷ rs) h = absurd (cc)
zip_strict-Zipped (e ∷ es) [] h = absurd (cc)
zip_strict-Zipped (e ∷ es) (r ∷ rs) h =
    let (ps, (run, (firsts, seconds))) = zip_strict-Zipped es rs (ground (arith, h)) in
    ((e, r) ∷ ps, (rw run refl, (ap (◌∷◌ e) firsts, ap (◌∷◌ r) seconds)))
