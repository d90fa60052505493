-- ===== src/Evidence/Matching.antt =====
-- packages/marx_engels/evidence/matching.py: the offsets of the occurrences of a query.
pub mod Laws
use marx_engels_insight_matc.Base.{
  ℕ, zero, suc, ◌+◌, Text, starts_with, is_empty, length, drop, Option, none, some, List, [], ◌∷◌,
  if◌then◌else◌, Bool, true, false,
}

-- The first index, counted from `i`, at which `query` occurs in the rest `s` of a text.
find_from : Text → Text → ℕ → Option ℕ
find_from query [] i = if is_empty query then some i else none
find_from query (c ∷ s) i = if starts_with query (c ∷ s) then some i else find_from query s (suc i)

-- `text.find(query, start)`; `none` is -1.
unfoldable pub find : Text → Text → ℕ → Option ℕ
unfolding find_from
find text query start = find_from query (drop start text) start

-- The `while True` loop, from `start`; `none` only if the fuel runs out.
unfoldable pub match_loop : ℕ → Text → Text → ℕ → Option (List ℕ)
match_loop zero text query start = none
match_loop (suc fuel) text query start = elim (find text query start) [
  | none ↦ some []
  | some index ↦ elim (match_loop fuel text query (index + length query)) [
    | none ↦ none
    | some rest ↦ some (index ∷ rest)
  ]
]

abbrev or_nil : Option (List ℕ) → List ℕ
or_nil none = []
or_nil (some xs) = xs

-- A match takes a character at least, so a round for each character and one more are enough.
unfoldable pub non_overlapping_match_offsets : Text → Text → List ℕ
unfolding match_loop find
non_overlapping_match_offsets text query =
    if is_empty query then [] else or_nil (match_loop (suc (length text)) text query 0)
