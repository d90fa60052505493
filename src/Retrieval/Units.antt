-- ===== src/Retrieval/Units.antt =====
-- packages/marx_engels/retrieval_core/units.py: a passage is cut into retrieval units at
-- sentence ends. `sha256_bytes` of the standard library's hashlib is a parameter.
pub mod Breaks
pub mod Laws
pub mod Passage
use marx_engels_insight_matc.Base.{
  ℕ, zero, suc, ◌+◌, ◌/◌, Text, codes, ltb, leb, ◌==◌, max, length, take, drop, is_empty, Option,
  none, some, true, false, List, [], ◌∷◌, ◌++◌, if◌then◌else◌,
}
use marx_engels_insight_matc.Base.Decimal.{to_decimal}
use marx_engels_insight_matc.Errors.{Result, ok, raise, other, ◌>>=◌}

abbrev pub default_retrieval_unit_char_limit : ℕ
default_retrieval_unit_char_limit = 1800

pub record RetrievalUnitSpec : Type 0 where
  pub retrieval_unit_id : Text
  pub evidence_id : Text
  pub order_no : ℕ
  pub search_text : Text
  pub search_text_hash : Text

unfoldable pub retrieval_unit_id : Text → ℕ → Text
retrieval_unit_id evidence_id order_no =
    codes "ru_" ++ (evidence_id ++ (codes "_" ++ to_decimal order_no))

-- `text.rfind(c)` of one character; `none` is -1.
unfoldable pub rfind : ℕ → Text → Option ℕ
rfind c [] = none
rfind c (d ∷ s) = elim (rfind c s) [
  | some i ↦ some (suc i)
  | none ↦ if d == c then some 0 else none
]

-- `max` of two indices, where -1 is below every index.
abbrev pub max_index : Option ℕ → Option ℕ → Option ℕ
max_index none o = o
max_index (some i) none = some i
max_index (some i) (some j) = some (max i j)

-- 。 ！ ？ and the line feed
unfoldable pub last_break : Text → Option ℕ
unfolding rfind
last_break window =
    max_index (rfind 0x3002 window)
      (max_index (rfind 0xff01 window) (max_index (rfind 0xff1f window) (rfind 10 window)))

-- How much of a text longer than the limit the next unit takes.
unfoldable pub cut_of : ℕ → Option ℕ → ℕ
cut_of limit none = limit
cut_of limit (some cut) = if ltb cut (limit / 3) then limit else cut + 1

-- The `while remaining` loop; `none` only if the fuel runs out.
unfoldable pub split_loop : ℕ → ℕ → Text → Option (List Text)
split_loop zero limit remaining = none
split_loop (suc fuel) limit [] = some []
split_loop (suc fuel) limit (c ∷ s) = elim (leb (length (c ∷ s)) limit) [
  | true ↦ some ((c ∷ s) ∷ [])
  | false ↦
      let cut = cut_of limit (last_break (take limit (c ∷ s))) in
      elim (split_loop fuel limit (drop cut (c ∷ s))) [
        | none ↦ none
        | some chunks ↦ some (take cut (c ∷ s) ∷ chunks)
      ]
]

abbrev or_nil : Option (List Text) → List Text
or_nil none = []
or_nil (some xs) = xs

-- A unit takes a character at least, so a round for each character and one more are enough.
unfoldable pub split_retrieval_unit_texts : Text → ℕ → Result (List Text)
unfolding split_loop cut_of last_break
split_retrieval_unit_texts text char_limit =
    if is_empty text
    then ok []
    else if ltb char_limit 1
    then raise (other (codes "char_limit must be >= 1"))
    else if leb (length text) char_limit
    then ok (text ∷ [])
    else ok (or_nil (split_loop (suc (length text)) char_limit text))

module _ (text_hash : Text → Text) where
  -- the comprehension over `enumerate(chunks, start=1)`
  units_from : Text → ℕ → List Text → List RetrievalUnitSpec
  units_from evidence_id index [] = []
  units_from evidence_id index (chunk ∷ chunks) =
      record {
        retrieval_unit_id = retrieval_unit_id evidence_id index;
        evidence_id = evidence_id;
        order_no = index;
        search_text = chunk;
        search_text_hash = text_hash chunk;
      }
      ∷ units_from evidence_id (index + 1) chunks

  unfoldable pub retrieval_units_for_passage : Text → Text → ℕ → Result (List RetrievalUnitSpec)
  unfolding units_from split_retrieval_unit_texts
  retrieval_units_for_passage evidence_id text char_limit = do
    chunks ← split_retrieval_unit_texts text char_limit
    ok (units_from evidence_id 1 chunks)
