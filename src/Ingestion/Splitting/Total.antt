-- ===== src/Ingestion/Splitting/Total.antt =====
-- `materialize_chunks` of packages/marx_engels/ingestion/splitting.py returns when the PDF library
-- works and no single page is too large.
use mathlib.Core.Path.{subst}
use marx_engels_insight_matc.Base.{
  Text, ℕ, zero, suc, ◌+◌, ◌≤◌, max, leb, ◌==◌, All, is_some, Option, none, true, ◌&&◌, ◌≡◌, refl,
  List, [], ◌∷◌, some, inl, inr, Bool-cases, arith,
}
use marx_engels_insight_matc.Corpus.Ids.{chunk_id}
use marx_engels_insight_matc.Ingestion.Failures.{
  Failure, Attempt, done, failed, Outcome, and_then-Outcome, Outcome-of_if,
}
use marx_engels_insight_matc.Ingestion.Mapping.{
  PageRangeMapping, is_sha256, is_valid, mapping_from_range,
}
use marx_engels_insight_matc.Ingestion.Splitting.{
  PlannedRange, MaterializedChunk, Budget, SourcePdf, OutputDir, shrunk_end, fit_loop, fit_end_page,
  proposed_end, materialize_loop, read_mappings, reused_or_cut, reuse_existing_chunks, split_source,
  materialize_chunks,
}
use marx_engels_insight_matc.Ingestion.Splitting.Planning.{IsPlan, plan_page_ranges-IsPlan}
use marx_engels_insight_matc.Ingestion.Splitting.Materialized.{shrunk_end_bounds}

-- No failure.
abbrev Never : Failure → Type 0
Never f = ⊥

returned :
    {A : Type 0} (P : A → Type 0) (m : Attempt A) → Outcome P Never m → (a : A) × (m ≡ done a)
returned P (done a) h = (a, refl)
returned P (failed f) h = absurd h

-- A file that opens and whose pages the library writes in any range, each page within the
-- budget, and hashes that are hashes.
pub record Works (budget : Budget) (pdf : SourcePdf) : Type 0 where
  pub opened : pdf.opens ≡ true
  pub writes :
      (s e : ℕ) → 1 ≤ s → s ≤ e → e ≤ pdf.page_total → (size : ℕ) × (pdf.written s e ≡ some size)
  pub page_fits :
      (s size : ℕ)
      → 1 ≤ s
      → s ≤ pdf.page_total
      → pdf.written s s ≡ some size
      → size ≤ budget.max_bytes
  pub hashes : (s e : ℕ) → is_sha256 (pdf.pages_sha256 s e) ≡ true
  pub hash : is_sha256 pdf.file_sha256 ≡ true
  pub pages : 1 ≤ budget.max_pages

mapping_from_range_total :
    (i : Text) (v : ℕ) (source digest : Text) (s e : ℕ)
    → 1 ≤ v
    → v ≤ 10
    → is_sha256 source ≡ true
    → is_sha256 digest ≡ true
    → 1 ≤ s
    → s ≤ e
    → Outcome (λ m. Unit {0}) Never (mapping_from_range i v source digest s e)
unfolding mapping_from_range is_valid
mapping_from_range_total i v source digest s e a b c d f g = ground arith

module _ (budget : Budget) (pdf : SourcePdf) (works : Works budget pdf) where
  abbrev Reaches : ℕ → ℕ × ℕ → Type 0
  Reaches s fit = s ≤ fit.0

  fit_loop_total :
      (fuel s e : ℕ)
      → 1 ≤ s
      → s ≤ e
      → e ≤ pdf.page_total
      → e + 1 ≤ fuel + s
      → Outcome (Reaches s) Never (fit_loop budget pdf fuel s e)
  unfolding fit_loop
  fit_loop_total zero s e a b c f = absurd (omega arith)
  fit_loop_total (suc fuel) s e a b c f =
      let (size, w) = works.writes s e a b c in
      let e' = shrunk_end budget pdf s e size in
      let h = shrunk_end_bounds budget pdf s e size in
      rw (w, fit_loop)
        (Outcome-of_if (Reaches s) Never (leb size budget.max_bytes) _ _ (λ t. b)
          (λ t.
            Outcome-of_if (Reaches s) Never (e == s) _ _
              (λ u.
                let same : e ≡ s = ground arith in
                let le : size ≤ budget.max_bytes =
                  works.page_fits s size a (omega arith)
                    (subst (λ k. pdf.written s k ≡ some size) same w) in
                absurd (ground arith))
              (λ u.
                fit_loop_total fuel s e' a (omega (arith, h)) (omega (arith, h))
                  (ground (arith, h)))))

  fit_end_page_total :
      (s p : ℕ)
      → 1 ≤ s
      → s ≤ p
      → s ≤ pdf.page_total
      → Outcome (Reaches s) Never (fit_end_page budget pdf s p)
  unfolding fit_end_page
  fit_end_page_total s p a b c =
      fit_loop_total _ s _ a (omega (arith, works.pages)) (omega arith) (omega arith)

  module _ (v : ℕ) (source : Text) (n : ℕ) where
    proposed_end-le :
        (s : ℕ) (planned : List PlannedRange)
        → s ≤ n
        → All (λ r. r.start_page ≤ r.end_page) planned
        → s ≤ proposed_end budget pdf n s planned
    unfolding proposed_end
    proposed_end-le s [] h a = omega (arith, works.pages)
    proposed_end-le s (r ∷ rs) h a = ground (arith, proposed_end-le s rs h a.1)

    materialize_loop_total :
        (fuel : ℕ) (planned : List PlannedRange) (s : ℕ)
        → 1 ≤ v
        → v ≤ 10
        → is_sha256 source ≡ true
        → n ≤ pdf.page_total
        → All (λ r. r.start_page ≤ r.end_page) planned
        → 1 ≤ s
        → n + 1 ≤ fuel + s
        → Outcome (λ cs. Unit {0}) Never (materialize_loop budget pdf v source n fuel planned s)
    unfolding materialize_loop
    materialize_loop_total zero planned s a b c d k h f = ground arith
    materialize_loop_total (suc fuel) planned s a b c d k h f = elim (Bool-cases (leb s n)) [
      | inr stop ↦ rw (stop, materialize_loop) tt
      | inl more ↦
          rw (more, materialize_loop)
            (let s≤n : s ≤ n = ground arith in
              let p = proposed_end budget pdf n s planned in
              and_then-Outcome (Reaches s) (λ cs. Unit {0}) Never (fit_end_page budget pdf s p) _
                (fit_end_page_total s p h (proposed_end-le s planned s≤n k) (omega arith))
                (λ fit q reaches.
                  let i = chunk_id v s fit.0 source in
                  let digest = pdf.pages_sha256 s fit.0 in
                  and_then-Outcome (λ m. Unit {0}) (λ cs. Unit {0}) Never
                    (mapping_from_range i v source digest s fit.0) _
                    (mapping_from_range_total i v source digest s fit.0 a b c (works.hashes s fit.0)
                      h reaches)
                    (λ m q' u.
                      and_then-Outcome (λ cs. Unit {0}) (λ cs. Unit {0}) Never
                        (materialize_loop budget pdf v source n fuel planned (fit.0 + 1)) _
                        (materialize_loop_total fuel planned (fit.0 + 1) a b c d k (omega arith)
                          (omega (arith, reaches)))
                        (λ cs run u. tt))))
    ]

    plan_ends :
        (w e : ℕ) (rs : List PlannedRange)
        → IsPlan w e n rs
        → All (λ r. r.start_page ≤ r.end_page) rs
    plan_ends w e [] p = tt
    plan_ends w e (r ∷ rs) (a, b, c, d, p) = (omega arith, plan_ends w (r.end_page + 1) rs p)

    split_source_total :
        (planned : List PlannedRange)
        → 1 ≤ v
        → v ≤ 10
        → is_sha256 source ≡ true
        → 1 ≤ n
        → n ≤ pdf.page_total
        → All (λ r. r.start_page ≤ r.end_page) planned
        → Outcome (λ cs. Unit {0}) Never (split_source budget pdf v source n planned)
    unfolding split_source
    split_source_total planned a b c h d k =
        Outcome-of_if (λ cs. Unit {0}) Never
          (leb pdf.file_size budget.max_bytes && leb n budget.max_pages) _ _
          (λ fits.
            and_then-Outcome (λ m. Unit {0}) (λ cs. Unit {0}) Never
              (mapping_from_range (chunk_id v 1 n source) v source pdf.file_sha256 1 n) _
              (mapping_from_range_total _ v source _ 1 n a b c works.hash (omega arith) h)
              (λ m q u. tt))
          (λ cut.
            Outcome-of_if (λ cs. Unit {0}) Never pdf.opens _ _
              (λ opens. materialize_loop_total n planned 1 a b c d k (omega arith) (omega arith))
              (λ shut. absurd (ground (arith, works.opened))))

    read_mappings_total :
        (files : List (Option PageRangeMapping))
        → All (λ file. is_some file ≡ true) files
        → Outcome (λ ms. Unit {0}) Never (read_mappings files)
    unfolding read_mappings
    read_mappings_total [] h = tt
    read_mappings_total (none ∷ files) h = absurd (ground (arith, h.0))
    read_mappings_total (some m ∷ files) h =
        and_then-Outcome (λ ms. Unit {0}) (λ ms. Unit {0}) Never (read_mappings files) _
          (read_mappings_total files h.1) (λ ms q u. tt)

    reused_or_cut_total :
        (o : Option (List MaterializedChunk))
        → 1 ≤ v
        → v ≤ 10
        → is_sha256 source ≡ true
        → 1 ≤ n
        → n ≤ pdf.page_total
        → Outcome (λ cs. Unit {0}) Never (reused_or_cut budget pdf v source n o)
    reused_or_cut_total (some cs) a b c h d = tt
    reused_or_cut_total none a b c h d =
        let (ranges, plan, tiles) = (plan_page_ranges-IsPlan budget n pdf.file_size).1 h in
        rw plan
          (split_source_total ranges a b c h d (plan_ends (max 1 budget.max_pages) 1 ranges tiles))

    -- A volume of 1 to 10 with a page and a well-formed hash is cut into chunks, or those of the
    -- output folder are reused, when every mapping file of that folder is a valid mapping, the
    -- file opens, the PDF library reads all of its pages and writes any range of them, no page
    -- alone exceeds the budget of bytes, the budget allows a page, and the hashes of the files
    -- are well formed.
    pub materialize_chunks_total :
        (dir : OutputDir)
        → All (λ file. is_some file ≡ true) dir.mapping_files
        → 1 ≤ v
        → v ≤ 10
        → is_sha256 source ≡ true
        → 1 ≤ n
        → n ≤ pdf.page_total
        → (chunks : List MaterializedChunk) × (materialize_chunks budget pdf v source n dir
            ≡ done chunks)
    unfolding materialize_chunks reuse_existing_chunks
    materialize_chunks_total dir valid a b c h d =
        returned (λ cs. Unit {0}) (materialize_chunks budget pdf v source n dir)
          (and_then-Outcome (λ o. Unit {0}) (λ cs. Unit {0}) Never
            (reuse_existing_chunks budget pdf v source n dir) _
            (and_then-Outcome (λ ms. Unit {0}) (λ o. Unit {0}) Never
              (read_mappings dir.mapping_files) _ (read_mappings_total dir.mapping_files valid)
              (λ ms q u. tt))
            (λ o q u. reused_or_cut_total o a b c h d))
