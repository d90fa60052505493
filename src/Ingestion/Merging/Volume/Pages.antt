-- ===== src/Ingestion/Merging/Volume/Pages.antt =====
-- How many pages have a number, and what the loop over the pages of a chunk makes of it.
use marx_engels_insight_matc.Base.{
  ℕ, zero, suc, ◌+◌, ◌==◌, ltb, leb, ◌≡◌, refl, ap, keep, map, Bool, false, not, ◌&&◌, ◌||◌, List,
  [], ◌∷◌, ◌++◌, if◌then◌else◌, arith,
}
use marx_engels_insight_matc.Ingestion.Merging.Volume.{
  RawPageRecord, has_page, mark_duplicate, recover_page, Merge, page_loop, page_range,
}

-- `n in numbers`
unfoldable pub listed : ℕ → List ℕ → Bool
listed n [] = false
listed n (m ∷ numbers) = (n == m) || listed n numbers

pub listed-append : (n : ℕ) (xs ys : List ℕ) → listed n (xs ++ ys) ≡ (listed n xs || listed n ys)
unfolding listed
listed-append n [] ys = refl
listed-append n (x ∷ xs) ys = ground (arith, listed-append n xs ys)

pub listed-page_range :
    (n start count : ℕ) → listed n (page_range start count) ≡ (leb start n && ltb n (start + count))
unfolding listed page_range
listed-page_range n start zero = ground arith
listed-page_range n start (suc count) = ground (arith, listed-page_range n (start + 1) count)

pub listed-keep : (n : ℕ) (p : ℕ → Bool) (xs : List ℕ) → listed n (keep p xs) ≡ (p n && listed n xs)
unfolding listed
listed-keep n p [] = ground arith
listed-keep n p (x ∷ xs) =
    let same : n ≡ x → p n ≡ p x = λ e. ap p e in ground (arith, same, listed-keep n p xs)

module _ {B : Type 0} where
  -- How many pages have the number.
  unfoldable pub copies : ℕ → List (RawPageRecord B) → ℕ
  copies n [] = 0
  copies n (p ∷ pages) = (if n == p.pdf_page then 1 else 0) + copies n pages

  pub copies-append :
      (n : ℕ) (xs ys : List (RawPageRecord B)) → copies n (xs ++ ys) ≡ copies n xs + copies n ys
  unfolding copies
  copies-append n [] ys = omega arith
  copies-append n (x ∷ xs) ys = omega (arith, copies-append n xs ys)

  pub has_page-copies :
      (n : ℕ) (pages : List (RawPageRecord B)) → has_page n pages ≡ ltb 0 (copies n pages)
  unfolding has_page copies
  has_page-copies n [] = ground arith
  has_page-copies n (p ∷ pages) = ground (arith, has_page-copies n pages)

  -- A page that is there is marked, another one is added.
  copies-recover_page :
      (n : ℕ) (page : RawPageRecord B) (recovered : List (RawPageRecord B))
      → copies n (recover_page page recovered)
        ≡ copies n recovered + (if (n == page.pdf_page) && not (has_page n recovered) then 1 else 0)
  unfolding copies recover_page mark_duplicate has_page
  copies-recover_page n page [] = ground arith
  copies-recover_page n page (p ∷ recovered) = ground (arith, copies-recover_page n page recovered)

  -- The state after `total n` pages of each number `n`.
  pub record Seen (total : ℕ → ℕ) (m : Merge B) : Type 0 where
    pub once : (n : ℕ) → copies n m.recovered ≡ (if ltb 0 (total n) then 1 else 0)
    pub repeated : (n : ℕ) → listed n m.duplicates ≡ ltb 1 (total n)

  pub Seen-same :
      (total all : ℕ → ℕ) (m : Merge B) → ((n : ℕ) → all n ≡ total n) → Seen total m → Seen all m
  Seen-same total all m e s = record {
    once = λ n. ground (arith, s.once n, e n);
    repeated = λ n. ground (arith, s.repeated n, e n);
  }

  abbrev add_page : RawPageRecord B → Merge B → Merge B
  add_page page m = record m {
    recovered = recover_page page m.recovered;
    duplicates =
        if has_page page.pdf_page m.recovered
        then m.duplicates ++ page.pdf_page ∷ []
        else m.duplicates;
  }

  add_page-Seen :
      (total : ℕ → ℕ) (page : RawPageRecord B) (m : Merge B)
      → Seen total m
      → Seen (λ n. total n + (if n == page.pdf_page then 1 else 0)) (add_page page m)
  unfolding listed
  add_page-Seen total page m s = record {
    once = λ n.
        ground
          (arith, s.once n, copies-recover_page n page m.recovered, has_page-copies n m.recovered);
    repeated = λ n.
        let same : n ≡ page.pdf_page → total n ≡ total page.pdf_page = λ e. ap total e in
        ground (
          arith,
          same,
          s.repeated n,
          s.once page.pdf_page,
          has_page-copies page.pdf_page m.recovered,
          listed-append n m.duplicates (page.pdf_page ∷ []),
        );
  }

  pub page_loop-Seen :
      (total : ℕ → ℕ) (pages : List (RawPageRecord B)) (m : Merge B)
      → Seen total m
      → Seen (λ n. total n + copies n pages) (page_loop pages m)
  unfolding page_loop copies
  page_loop-Seen total [] m s = Seen-same total _ m (λ n. omega arith) s
  page_loop-Seen total (page ∷ pages) m s =
      let step = λ (n : ℕ). total n + (if n == page.pdf_page then 1 else 0) in
      Seen-same (λ n. step n + copies n pages) _ (page_loop pages (add_page page m))
        (λ n. omega arith)
        (page_loop-Seen step pages (add_page page m) (add_page-Seen total page m s))

  pub copies-missing :
      (n : ℕ) (p : ℕ → Bool) (record_of : ℕ → RawPageRecord B)
      → ((k : ℕ) → (record_of k).pdf_page ≡ k)
      → (start count : ℕ)
      → copies n (map record_of (keep p (page_range start count)))
        ≡ (if p n && leb start n && ltb n (start + count) then 1 else 0)
  unfolding copies page_range
  copies-missing n p record_of named start zero = ground arith
  copies-missing n p record_of named start (suc count) =
      let same : n ≡ start → p n ≡ p start = λ e. ap p e in
      ground (arith, same, named start, copies-missing n p record_of named (start + 1) count)
