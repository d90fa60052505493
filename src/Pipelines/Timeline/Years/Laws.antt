-- ===== src/Pipelines/Timeline/Years/Laws.antt =====
-- Every date is read where each character that `isdigit` accepts is a decimal digit.
use marx_engels_insight_matc.Base.{
  ℕ, ◌+◌, ◌*◌, ◌≡◌, refl, Text, strip, take, length, ltb, all, is_some, ◌==◌, not, ◌||◌, true,
  Option, none, some, [], ◌∷◌, arith, inl, inr, Bool-cases, Option-cases,
}
use marx_engels_insight_matc.Contracts.{
  Evidence, DatePrecision, day, month, year, range, approximate, disputed, unknown,
}
use marx_engels_insight_matc.Errors.{Result}
use marx_engels_insight_matc.Errors.Laws.{Returns, if-Returns, bind-Returns}
use marx_engels_insight_matc.Pipelines.Timeline.Years.{
  CharacterDatabase, Bucket, int_from, is_digits, known_precision, parse_year, year_or,
  dated_bucket, precision_bucket, bucket_key,
}

module _ (u : CharacterDatabase)
    (decimal : (c : ℕ) → u.is_digit c ≡ true → is_some (u.decimal c) ≡ true) where
  int_from-Returns : (value : ℕ) (s : Text) → all u.is_digit s ≡ true → Returns (int_from u value s)
  unfolding int_from
  int_from-Returns value [] h = (value, refl)
  int_from-Returns value (c ∷ s) h = elim (Option-cases (u.decimal c)) [
    | inl n ↦ absurd (ground (arith, h, n, decimal c))
    | inr (d, y) ↦ rw (y, int_from) (int_from-Returns (value * 10 + d) s (ground (arith, h)))
  ]

  parse_year-Returns : (o : Option Text) → Returns (parse_year u o)
  unfolding parse_year
  parse_year-Returns none = (none, refl)
  parse_year-Returns (some value) =
      let digits = take 4 (strip value) in
      elim (Bool-cases (not (length digits == 4) || not (is_digits u digits))) [
        | inl c ↦ rw c (none, refl)
        | inr n ↦ rw n (
            bind-Returns (int_from u 0 digits) _ (int_from-Returns 0 digits (ground (arith, n)))
              (λ y made. if-Returns (ltb y 1) (none, refl) (some y, refl)))
      ]

  year_or-Returns : (o : Option ℕ) (end : Option Text) → Returns (year_or u o end)
  unfolding year_or parse_year
  year_or-Returns none end = parse_year-Returns end
  year_or-Returns (some y) end = (some y, refl)

  dated_bucket-Returns : (e : Evidence) → Returns (dated_bucket u e)
  unfolding dated_bucket
  dated_bucket-Returns e =
      bind-Returns (parse_year u e.work_date_start) _ (parse_year-Returns e.work_date_start)
        (λ start read.
          bind-Returns (year_or u start e.work_date_end) _ (year_or-Returns start e.work_date_end)
            (λ found made. (_, refl)))

  precision_bucket-Returns :
      (p : DatePrecision) (m : Result Bucket) → Returns m → Returns (precision_bucket u p m)
  unfolding known_precision
  precision_bucket-Returns disputed m h = (_, refl)
  precision_bucket-Returns unknown m h = (_, refl)
  precision_bucket-Returns day m h = h
  precision_bucket-Returns month m h = h
  precision_bucket-Returns year m h = h
  precision_bucket-Returns range m h = h
  precision_bucket-Returns approximate m h = h

  pub bucket_key-Returns : (e : Evidence) → Returns (bucket_key u e)
  unfolding bucket_key
  bucket_key-Returns e =
      precision_bucket-Returns e.date_precision (dated_bucket u e) (dated_bucket-Returns e)
