-- ===== src/Ingestion/Merging/Volume/Laws.antt =====
-- What the merging of a volume returns: each page once, and what is missing or came again.
use marx_engels_insight_matc.Base.{
  ℕ, ◌+◌, ltb, leb, ◌≡◌, refl, ap, Text, keep, map, not, ◌&&◌, ◌||◌, Option, List, [], ◌∷◌, ◌++◌,
  if◌then◌else◌, arith,
}
use marx_engels_insight_matc.Base.Sort.{sort_by}
use marx_engels_insight_matc.Ingestion.Failures.{Attempt, done, failed, and_then}
use marx_engels_insight_matc.Ingestion.Runs.{ExtractionChunk}
use marx_engels_insight_matc.Ingestion.Merging.Volume.{
  RawPageRecord, has_page, Merge, page_loop, chunk_order, start_chunk, chunk_loop, page_range,
  expected_pages, VolumeRecord, MergedVolume, missing_record, finish_volume, volume_id_of,
  source_sha, merge_volume,
}
use marx_engels_insight_matc.Ingestion.Merging.Volume.Pages.{
  listed, listed-page_range, listed-keep, copies, copies-append, has_page-copies, Seen, Seen-same,
  page_loop-Seen, copies-missing,
}

value_of : {A : Type 0} → A → Attempt A → A
value_of d (done a) = a
value_of d (failed f) = d

done_injective : {A : Type 0} (a b : A) → done a ≡ done b → a ≡ b
unfolding value_of
done_injective a b h = ap (value_of a) h

-- What returned had a first call that returned.
and_then-inversion :
    {A C : Type 0} {c : C} (first : Attempt A) (next : A → Attempt C)
    → and_then first next ≡ done c
    → (a : A) × ((first ≡ done a) × (next a ≡ done c))
and_then-inversion (done a) next h = (a, (refl, h))
and_then-inversion (failed f) next h = cc

module _ {B : Type 0} where
  -- The pages of the chunks one after the other, by definition.
  unfoldable pub all_pages :
      (ExtractionChunk → Attempt (List (RawPageRecord B)))
      → List ExtractionChunk
      → Attempt (List (RawPageRecord B))
  all_pages pages_of [] = done []
  all_pages pages_of (chunk ∷ chunks) =
      and_then (pages_of chunk)
        (λ pages. and_then (all_pages pages_of chunks) (λ later. done (pages ++ later)))

  abbrev nothing : Merge B
  nothing = record { recovered = []; duplicates = []; out_of_order = []; previous_end = 0 }

  nothing-Seen : Seen (λ n. 0) nothing
  unfolding copies listed
  nothing-Seen = record { once = λ n. ground arith; repeated = λ n. ground arith }

  chunk_loop-Seen :
      (pages_of : ExtractionChunk → Attempt (List (RawPageRecord B)))
      (chunks : List ExtractionChunk) (total : ℕ → ℕ) (m : Merge B)
      (parsed : List (RawPageRecord B))
      → Seen total m
      → all_pages pages_of chunks ≡ done parsed
      → (out : Merge B) × ((chunk_loop pages_of chunks m ≡ done out)
          × Seen (λ n. total n + copies n parsed) out)
  unfolding chunk_loop all_pages copies
  chunk_loop-Seen pages_of [] total m parsed s h = (
    m,
    (refl, Seen-same total _ m (λ n. omega (arith, ap (copies n) (done_injective [] parsed h))) s),
  )
  chunk_loop-Seen pages_of (chunk ∷ chunks) total m parsed s h =
      let (pages, (read, r)) = and_then-inversion (pages_of chunk) _ h in
      let (later, (rest, made)) = and_then-inversion (all_pages pages_of chunks) _ r in
      let started = start_chunk chunk m in
      let step = λ (n : ℕ). total n + copies n pages in
      let (out, (run, seen)) =
        chunk_loop-Seen pages_of chunks step (page_loop pages started) later
          (page_loop-Seen total pages started (record { once = s.once; repeated = s.repeated }))
          rest in
      (
        out,
        (
          rw read run,
          Seen-same (λ n. step n + copies n later) _ out
              (λ n. omega (
                arith,
                copies-append n pages later,
                ap (copies n) (done_injective (pages ++ later) parsed made),
              ))
              seen,
        ),
      )

  -- The pages of a merged volume, given all pages that its chunks hold.
  pub record IsMerged (expected : ℕ) (parsed : List (RawPageRecord B)) (v : MergedVolume B)
      : Type 0 where
    pub pages :
        (n : ℕ)
        → copies n v.pages ≡ (if has_page n parsed || (leb 1 n && leb n expected) then 1 else 0)
    pub missing :
        (n : ℕ) → listed n v.missing ≡ (leb 1 n && leb n expected && not (has_page n parsed))
    pub duplicates : (n : ℕ) → listed n v.duplicates ≡ ltb 1 (copies n parsed)

  finish_volume-IsMerged :
      (run_id : Text) (volume : Option VolumeRecord) (volume_number : ℕ) (fallback : Text)
      (chunks : List ExtractionChunk) (parsed : List (RawPageRecord B)) (m : Merge B)
      → Seen (λ n. 0 + copies n parsed) m
      → IsMerged
          (expected_pages volume chunks)
          parsed
          (finish_volume run_id volume volume_number fallback chunks m)
  unfolding finish_volume missing_record
  finish_volume-IsMerged run_id volume volume_number fallback chunks parsed m seen =
      let expected = expected_pages volume chunks in
      let absent = λ (n : ℕ). not (has_page n m.recovered) in
      let filled : ℕ → RawPageRecord B =
        missing_record (volume_id_of volume fallback) volume_number run_id
          (source_sha volume (sort_by chunk_order chunks)) in
      record {
        pages = λ n. ground (
          arith,
          seen.once n,
          has_page-copies n m.recovered,
          has_page-copies n parsed,
          copies-append n m.recovered (map filled (keep absent (page_range 1 expected))),
          copies-missing n absent filled (λ k. refl) 1 expected,
        );
        missing = λ n. ground (
          arith,
          seen.once n,
          has_page-copies n m.recovered,
          has_page-copies n parsed,
          listed-keep n absent (page_range 1 expected),
          listed-page_range n 1 expected,
        );
        duplicates = λ n. ground (arith, seen.repeated n);
      }

  -- When every chunk is read, the volume is merged. Each page that a chunk holds and each page up
  -- to the expected number stands exactly once, and no other. Reported as missing are exactly
  -- the expected pages that no chunk holds, and as duplicates those that came more than once.
  pub merge_volume_lem :
      (pages_of : ExtractionChunk → Attempt (List (RawPageRecord B))) (run_id : Text)
      (volume : Option VolumeRecord) (volume_number : ℕ) (fallback : Text)
      (chunks : List ExtractionChunk) (parsed : List (RawPageRecord B))
      → all_pages pages_of (sort_by chunk_order chunks) ≡ done parsed
      → (v : MergedVolume B) × ((merge_volume pages_of run_id volume volume_number fallback chunks
            ≡ done v)
          × IsMerged (expected_pages volume chunks) parsed v)
  unfolding merge_volume
  merge_volume_lem pages_of run_id volume volume_number fallback chunks parsed h =
      let (m, (run, seen)) =
        chunk_loop-Seen pages_of (sort_by chunk_order chunks) (λ n. 0) nothing parsed nothing-Seen
          h in
      (
        finish_volume run_id volume volume_number fallback chunks m,
        (
          rw run refl,
          finish_volume-IsMerged run_id volume volume_number fallback chunks parsed m seen,
        ),
      )
