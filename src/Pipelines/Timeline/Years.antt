-- ===== src/Pipelines/Timeline/Years.antt =====
-- packages/marx_engels/pipelines/timeline_grouping.py: the year of a date text, and the bucket
-- of an evidence. The character database behind `str.isdigit` and `int` is a parameter.
pub mod Laws
use marx_engels_insight_matc.Base.{
  ℕ, ◌+◌, ◌*◌, ◌/◌, ◌≤◌, ◌≡◌, Text, codes, strip, take, length, is_empty, all, ◌==◌, ltb, Bool,
  true, false, not, ◌&&◌, ◌||◌, Option, none, some, [], ◌∷◌, if◌then◌else◌,
}
use marx_engels_insight_matc.Contracts.{Evidence, DatePrecision, disputed, unknown}
use marx_engels_insight_matc.Errors.{Result, ok, raise, other, ◌>>=◌}

-- `str.isdigit` of one character, and the value that `int` reads it as: superscripts are digits
-- that `int` refuses.
pub record CharacterDatabase : Type 0 where
  pub is_digit : ℕ → Bool
  pub decimal : ℕ → Option ℕ

-- The decimal digits of ASCII.
pub record ReadsAscii (u : CharacterDatabase) : Type 0 where
  pub is_digit : (d : ℕ) → d ≤ 9 → u.is_digit (48 + d) ≡ true
  pub decimal : (d : ℕ) → d ≤ 9 → u.decimal (48 + d) ≡ some d

pub data Bucket : Type 0 where
  calendar : ℕ → Bucket
  disputed_bucket unknown_bucket : Bucket

unfoldable pub known_precision : DatePrecision → Bool
known_precision disputed = false
known_precision unknown = false
known_precision p = true

module _ (u : CharacterDatabase) where
  -- `int(digits)`, with the value read so far
  unfoldable pub int_from : ℕ → Text → Result ℕ
  int_from value [] = ok value
  int_from value (c ∷ s) = elim (u.decimal c) [
    | none ↦ raise (other (codes "ValueError"))
    | some d ↦ int_from (value * 10 + d) s
  ]

  -- `digits.isdigit()`
  abbrev pub is_digits : Text → Bool
  is_digits s = not (is_empty s) && all u.is_digit s

  unfoldable pub parse_year : Option Text → Result (Option ℕ)
  unfolding int_from
  parse_year none = ok none
  parse_year (some value) =
      let digits = take 4 (strip value) in
      if not (length digits == 4) || not (is_digits digits)
      then ok none
      else do y ← int_from 0 digits; if ltb y 1 then ok none else ok (some y)

  -- `_parse_year(start) or _parse_year(end)`
  year_or : Option ℕ → Option Text → Result (Option ℕ)
  year_or (some y) end = ok (some y)
  year_or none end = parse_year end

  abbrev decade_bucket : Option ℕ → Bucket
  decade_bucket none = unknown_bucket
  decade_bucket (some y) = calendar (y / 10 * 10)

  unfoldable pub dated_bucket : Evidence → Result Bucket
  unfolding parse_year year_or
  dated_bucket e = do
    start ← parse_year e.work_date_start
    found ← year_or start e.work_date_end
    ok (decade_bucket found)

  abbrev pub precision_bucket : DatePrecision → Result Bucket → Result Bucket
  precision_bucket disputed dated = ok disputed_bucket
  precision_bucket unknown dated = ok unknown_bucket
  precision_bucket p dated = if not (known_precision p) then ok unknown_bucket else dated

  unfoldable pub bucket_key : Evidence → Result Bucket
  unfolding dated_bucket known_precision
  bucket_key e = precision_bucket e.date_precision (dated_bucket e)
