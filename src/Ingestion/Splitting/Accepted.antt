-- ===== src/Ingestion/Splitting/Accepted.antt =====
-- `materialize_chunks` of packages/marx_engels/ingestion/splitting.py, reused or cut anew, against
-- `assert_complete_coverage` of ingestion/mapping.py.
use marx_engels_insight_matc.Base.{
  Text, ℕ, ◌+◌, ◌≤◌, max, ltb, ltb→lt, leb, ◌==◌, any, All, All-map, All-weaken, Bool, true, false,
  not, ◌&&◌, ◌||◌, ◌≡◌, ◌≢◌, refl, sym, ◌∙◌, List, [], ◌∷◌, none, some, Option, map, inl, inr,
  Bool-cases, Option-cases, arith,
}
use marx_engels_insight_matc.Base.Strings.{text_eq, text_eq_iff}
use marx_engels_insight_matc.Base.Sort.{sort_by, All-sort_by}
use marx_engels_insight_matc.Corpus.Ids.{chunk_id}
use marx_engels_insight_matc.Ingestion.Failures.{
  done, failed, Outcome, and_then-Outcome, Outcome-of_if, Outcome-done, Outcome-failed,
  Outcome-weaken, out_of_fuel,
}
use marx_engels_insight_matc.Ingestion.Mapping.{
  PageRangeMapping, mapping_from_range, assert_complete_coverage, start_order,
}
use marx_engels_insight_matc.Ingestion.Mapping.Ranges.{IsRange}
use marx_engels_insight_matc.Ingestion.Mapping.Coverage.{assert_complete_coverage-sort_by}
use marx_engels_insight_matc.Ingestion.Splitting.{
  PlannedRange, MaterializedChunk, Budget, SourcePdf, OutputDir, materialize_loop, reuse_loop,
  reuse_mappings, read_mappings, reused_or_cut, reuse_existing_chunks, split_source,
  materialize_chunks,
}
use marx_engels_insight_matc.Ingestion.Splitting.Planning.{IsPlan, plan_page_ranges-IsPlan}
use marx_engels_insight_matc.Ingestion.Splitting.Tiles.{Named, accepted_of_Tiles}
use marx_engels_insight_matc.Ingestion.Splitting.Materialized.{
  Raised, IsChunk, IsCut, MapsRange, mapping_from_range-MapsRange, materialize_loop-IsCut,
}

module _ (budget : Budget) (pdf : SourcePdf) (v : ℕ) (source : Text) (n : ℕ) where
  -- A chunk of this volume and this source within the budget.
  abbrev pub IsBudgeted : MaterializedChunk → Type 0
  IsBudgeted c =
      (c.mapping.volume_number ≡ v)
      × (c.mapping.source_sha256 ≡ source)
      × (c.size_bytes ≤ budget.max_bytes)
      × (c.mapping.chunk_page_count ≤ max 1 budget.max_pages)

  abbrev pub AreComplete : List MaterializedChunk → Type 0
  AreComplete cs = (assert_complete_coverage n (map (λ c. c.mapping) cs) ≡ none) × All IsBudgeted cs

  AreComplete-of_IsCut :
      (cs : List MaterializedChunk) → 1 ≤ n → IsCut budget pdf v source n 1 cs → AreComplete cs
  AreComplete-of_IsCut cs h (each, tiles) = (
    accepted_of_Tiles v source n (map (λ c. c.mapping) cs) h
        (All-map IsRange (λ (c : MaterializedChunk). c.mapping) cs
          (All-weaken (IsChunk budget pdf v source n) _ cs (λ c k. k.0) each))
        (All-map (Named v source) (λ (c : MaterializedChunk). c.mapping) cs
          (All-weaken (IsChunk budget pdf v source n) _ cs (λ c k. k.1) each))
        tiles,
    All-weaken (IsChunk budget pdf v source n) IsBudgeted cs (λ c k. (k.2, k.3, k.4, k.5)) each,
  )

  -- The mapping is one of this volume and this source.
  abbrev IsOurs : PageRangeMapping → Type 0
  IsOurs m = (m.volume_number ≡ v) × (m.source_sha256 ≡ source)

  abbrev is_foreign : PageRangeMapping → Bool
  is_foreign m = not (text_eq m.source_sha256 source) || not (m.volume_number == v)

  All-of_none_foreign : (ms : List PageRangeMapping) → any is_foreign ms ≡ false → All IsOurs ms
  All-of_none_foreign [] h = tt
  All-of_none_foreign (m ∷ ms) h =
      (ground (arith, text_eq_iff m.source_sha256 source), All-of_none_foreign ms (ground arith))

  abbrev Reuses : List PageRangeMapping → Option (List MaterializedChunk) → Type 0
  Reuses ms none = Unit
  Reuses ms (some cs) = (map (λ c. c.mapping) cs ≡ ms) × All IsBudgeted cs

  reuse_loop-Reuses :
      (dir : OutputDir) (ms : List PageRangeMapping)
      → All IsOurs ms
      → Reuses ms (reuse_loop budget pdf v source n dir ms)
  unfolding reuse_loop
  reuse_loop-Reuses dir [] a = (refl, tt)
  reuse_loop-Reuses dir (m ∷ ms) a =
      elim (Option-cases (dir.chunk_file m.original_start_page m.original_end_page)) [
        | inl missing ↦ rw (missing, reuse_loop) tt
        | inr ((digest, size), found) ↦
            rw (found, reuse_loop) (ground (arith, reuse_loop-Reuses dir ms a.1))
      ]

  abbrev AreReused : Option (List MaterializedChunk) → Type 0
  AreReused none = Unit
  AreReused (some cs) = AreComplete cs

  AreReused-of_Reuses :
      (ms : List PageRangeMapping) (o : Option (List MaterializedChunk))
      → assert_complete_coverage n ms ≡ none
      → Reuses ms o
      → AreReused o
  AreReused-of_Reuses ms none a r = tt
  AreReused-of_Reuses ms (some cs) a (same, each) = (rw same a, each)

  reuse_mappings-AreReused :
      (dir : OutputDir) (ms : List PageRangeMapping)
      → AreReused (reuse_mappings budget pdf v source n dir ms)
  unfolding reuse_mappings
  reuse_mappings-AreReused dir [] = tt
  reuse_mappings-AreReused dir (m ∷ ms) = elim (Bool-cases (any is_foreign (m ∷ ms))) [
    | inl found ↦ rw (found, reuse_mappings) tt
    | inr ours ↦ elim (Option-cases (assert_complete_coverage n (m ∷ ms))) [
      | inr (f, refused) ↦ rw (ours, refused, reuse_mappings) tt
      | inl passes ↦
          let ordered = sort_by start_order (m ∷ ms) in
          rw (ours, passes, reuse_mappings)
            (AreReused-of_Reuses ordered (reuse_loop budget pdf v source n dir ordered)
              (assert_complete_coverage-sort_by n (m ∷ ms) passes)
              (reuse_loop-Reuses dir ordered
                (All-sort_by IsOurs start_order (m ∷ ms) (All-of_none_foreign (m ∷ ms) ours))))
    ]
  ]

  read_mappings-Outcome :
      (files : List (Option PageRangeMapping))
      → Outcome (λ ms. Unit {0}) Raised (read_mappings files)
  unfolding read_mappings
  read_mappings-Outcome [] = tt
  read_mappings-Outcome (none ∷ files) = λ x. cc
  read_mappings-Outcome (some m ∷ files) =
      and_then-Outcome (λ ms. Unit {0}) (λ ms. Unit {0}) Raised (read_mappings files) _
        (read_mappings-Outcome files) (λ ms q u. tt)

  reuse_existing_chunks-AreReused :
      (dir : OutputDir) → Outcome AreReused Raised (reuse_existing_chunks budget pdf v source n dir)
  unfolding reuse_existing_chunks
  reuse_existing_chunks-AreReused dir =
      and_then-Outcome (λ ms. Unit {0}) AreReused Raised (read_mappings dir.mapping_files) _
        (read_mappings-Outcome dir.mapping_files) (λ ms q u. reuse_mappings-AreReused dir ms)

  pub plan_bound :
      (w e : ℕ) (rs : List PlannedRange) → IsPlan w e n rs → All (λ r. r.end_page ≤ n) rs
  plan_bound w e [] p = tt
  plan_bound w e (r ∷ rs) (a, b, c, d, p) = (c, plan_bound w (r.end_page + 1) rs p)

  single_chunk :
      (m : PageRangeMapping)
      → 1 ≤ n
      → leb pdf.file_size budget.max_bytes && leb n budget.max_pages ≡ true
      → MapsRange (chunk_id v 1 n source) v source 1 n m
      → IsCut budget pdf v source n 1 (record { mapping = m; size_bytes = pdf.file_size } ∷ [])
  single_chunk m h fits (r, i, u, w, f, l) = (
    ((r, i ∙ (λ k. chunk_id v (sym f k) (sym l k) source), u, w, ground arith, ground arith), tt),
    (f, omega (arith, l), omega (arith, l)),
  )

  split_source-AreComplete :
      (planned : List PlannedRange)
      → 1 ≤ n
      → All (λ r. r.end_page ≤ n) planned
      → Outcome AreComplete Raised (split_source budget pdf v source n planned)
  unfolding split_source
  split_source-AreComplete planned h b =
      let id = chunk_id v 1 n source in
      Outcome-of_if AreComplete Raised
        (leb pdf.file_size budget.max_bytes && leb n budget.max_pages) _ _
        (λ fits.
          and_then-Outcome (MapsRange id v source 1 n) AreComplete Raised
            (mapping_from_range id v source pdf.file_sha256 1 n) _
            (mapping_from_range-MapsRange id v source pdf.file_sha256 1 n)
            (λ m q maps.
              AreComplete-of_IsCut (record { mapping = m; size_bytes = pdf.file_size } ∷ []) h
                (single_chunk m h fits maps)))
        (λ cut.
          Outcome-of_if AreComplete Raised pdf.opens _ _
            (λ opens.
              Outcome-weaken (IsCut budget pdf v source n 1) Raised AreComplete
                (materialize_loop budget pdf v source n n planned 1)
                (λ cs. AreComplete-of_IsCut cs h)
                (materialize_loop-IsCut budget pdf v source n n planned 1 b (omega arith)
                  (omega arith)))
            (λ shut x. cc))

  reused_or_cut-AreComplete :
      (o : Option (List MaterializedChunk))
      → AreReused o
      → Outcome AreComplete Raised (reused_or_cut budget pdf v source n o)
  reused_or_cut-AreComplete (some cs) kept = kept
  reused_or_cut-AreComplete none h =
      let planned = plan_page_ranges-IsPlan budget n pdf.file_size in
      elim (Bool-cases (ltb n 1)) [
        | inl empty ↦ rw (planned.0 (ltb→lt n 1 empty)) (λ x. cc)
        | inr some_page ↦
            let (ranges, plan, tiles) = planned.1 (ground arith) in
            rw plan (
              split_source-AreComplete ranges (ground arith)
                (plan_bound (max 1 budget.max_pages) 1 ranges tiles))
      ]

  materialize_chunks-AreComplete :
      (dir : OutputDir) → Outcome AreComplete Raised (materialize_chunks budget pdf v source n dir)
  unfolding materialize_chunks
  materialize_chunks-AreComplete dir =
      and_then-Outcome AreReused AreComplete Raised
        (reuse_existing_chunks budget pdf v source n dir) _ (reuse_existing_chunks-AreReused dir)
        (λ o q reused. reused_or_cut-AreComplete o reused)

  -- The chunks that are cut, or found in the output folder and reused, are accepted by the check
  -- of complete coverage, belong to the volume and the source, and keep the budget of bytes and
  -- of pages (one page where the budget allows none).
  pub materialize_chunks_accepted :
      (dir : OutputDir) (chunks : List MaterializedChunk)
      → materialize_chunks budget pdf v source n dir ≡ done chunks
      → (assert_complete_coverage n (map (λ c. c.mapping) chunks) ≡ none) × All IsBudgeted chunks
  materialize_chunks_accepted dir cs h =
      Outcome-done AreComplete Raised (materialize_chunks budget pdf v source n dir) cs
        (materialize_chunks-AreComplete dir) h

  -- The loops end with the fuel that they are given.
  pub materialize_chunks_fuel :
      (dir : OutputDir) → materialize_chunks budget pdf v source n dir ≢ failed out_of_fuel
  materialize_chunks_fuel dir h =
      Outcome-failed AreComplete Raised (materialize_chunks budget pdf v source n dir) out_of_fuel
        (materialize_chunks-AreComplete dir) h refl
