-- ===== src/Retrieval/Units/Passage.antt =====
-- The retrieval units of a passage: numbered from one, with distinct identifiers.
use mathlib.Core.List.{append_cancel_left}
use marx_engels_insight_matc.Base.{
  ℕ, ◌+◌, ◌≤◌, ◌<◌, ◌≡◌, refl, ap, Text, codes, text_eq_iff, false, List, [], ◌∷◌, ◌++◌, map,
  concat, All, arith,
}
use marx_engels_insight_matc.Base.Decimal.{to_decimal, to_decimal-injective}
use marx_engels_insight_matc.Base.Unique.{Distinct, contains}
use marx_engels_insight_matc.Errors.{ok}
use marx_engels_insight_matc.Retrieval.Units.{
  RetrievalUnitSpec, retrieval_unit_id, units_from, retrieval_units_for_passage,
}
use marx_engels_insight_matc.Retrieval.Units.Laws.{split_retrieval_unit_texts-IsSplit}

retrieval_unit_id-injective :
    (evidence_id : Text) (i j : ℕ)
    → retrieval_unit_id evidence_id i ≡ retrieval_unit_id evidence_id j
    → i ≡ j
unfolding retrieval_unit_id
retrieval_unit_id-injective e i j h = to_decimal-injective i j (
    append_cancel_left (codes "_") (to_decimal i) (to_decimal j) (
      append_cancel_left e (codes "_" ++ to_decimal i) (codes "_" ++ to_decimal j) (
        append_cancel_left (codes "ru_") (e ++ (codes "_" ++ to_decimal i))
          (e ++ (codes "_" ++ to_decimal j)) h)))

abbrev pub unit_ids : List RetrievalUnitSpec → List Text
unit_ids units = map (λ u. u.retrieval_unit_id) units

-- Unit `k` of the rest has number `index + k`.
abbrev pub Numbered : ℕ → List RetrievalUnitSpec → Type 0
Numbered index [] = Unit
Numbered index (u ∷ units) = (u.order_no ≡ index) × Numbered (index + 1) units

module _ (text_hash : Text → Text) (evidence_id : Text) where
  unit_id_new :
      (i index : ℕ) (chunks : List Text)
      → i < index
      → contains
          (retrieval_unit_id evidence_id i)
          (unit_ids (units_from text_hash evidence_id index chunks))
        ≡ false
  unfolding units_from contains
  unit_id_new i index [] h = refl
  unit_id_new i index (chunk ∷ chunks) h = ground (
    arith,
    unit_id_new i (index + 1) chunks (omega arith),
    text_eq_iff (retrieval_unit_id evidence_id i) (retrieval_unit_id evidence_id index),
    retrieval_unit_id-injective evidence_id i index,
  )

  Distinct-units_from :
      (index : ℕ) (chunks : List Text)
      → Distinct (unit_ids (units_from text_hash evidence_id index chunks))
  unfolding units_from
  Distinct-units_from index [] = tt
  Distinct-units_from index (chunk ∷ chunks) =
      (unit_id_new index (index + 1) chunks (omega arith), Distinct-units_from (index + 1) chunks)

  texts-units_from :
      (index : ℕ) (chunks : List Text)
      → map
          (λ (u : RetrievalUnitSpec). u.search_text)
          (units_from text_hash evidence_id index chunks)
        ≡ chunks
  unfolding units_from
  texts-units_from index [] = refl
  texts-units_from index (chunk ∷ chunks) = ap (◌∷◌ chunk) (texts-units_from (index + 1) chunks)

  Numbered-units_from :
      (index : ℕ) (chunks : List Text)
      → Numbered index (units_from text_hash evidence_id index chunks)
        × All
            (λ u. (u.evidence_id ≡ evidence_id) × (u.search_text_hash ≡ text_hash u.search_text))
            (units_from text_hash evidence_id index chunks)
  unfolding units_from
  Numbered-units_from index [] = (tt, tt)
  Numbered-units_from index (chunk ∷ chunks) =
      let (n, h) = Numbered-units_from (index + 1) chunks in ((refl, n), ((refl, refl), h))

  -- With a limit of at least one, a passage has retrieval units whose texts put together are
  -- the passage; their identifiers are distinct, they are numbered 1, 2, and so on, and each
  -- names the passage and carries the hash of its own text.
  pub retrieval_units_for_passage_lem :
      (text : Text) (char_limit : ℕ)
      → 1 ≤ char_limit
      → (units : List RetrievalUnitSpec) × (retrieval_units_for_passage text_hash evidence_id text
            char_limit
          ≡ ok units)
        × (concat (map (λ (u : RetrievalUnitSpec). u.search_text) units) ≡ text)
        × Distinct (unit_ids units)
        × Numbered 1 units
        × All
            (λ u. (u.evidence_id ≡ evidence_id) × (u.search_text_hash ≡ text_hash u.search_text))
            units
  unfolding retrieval_units_for_passage
  retrieval_units_for_passage_lem text char_limit l =
      let (chunks, e, split) = split_retrieval_unit_texts-IsSplit text char_limit l in
      let (n, h) = Numbered-units_from 1 chunks in
      (
        units_from text_hash evidence_id 1 chunks,
        rw e,
        rw (texts-units_from 1 chunks) split.whole,
        Distinct-units_from 1 chunks,
        n,
        h,
      )
