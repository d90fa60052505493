-- ===== src/Retrieval/Units/Laws.antt =====
-- The units of a passage put together are the passage; each is within the limit, and each but
-- the last fills the limit or ends with a sentence end.
use marx_engels_insight_matc.Base.{
  ℕ, zero, suc, ◌≤◌, ◌<◌, ◌≡◌, refl, ap, ◌∙◌, Text, leb, length, take, drop, some, true, List, [],
  ◌∷◌, ◌++◌, concat, All, arith, ◌⊎◌, inl, inr, Bool-cases, take-append-drop, length-take,
  length-drop,
}
use mathlib.Core.List.{append-nil}
use marx_engels_insight_matc.Errors.{ok}
use marx_engels_insight_matc.Retrieval.Units.{
  last_break, cut_of, split_loop, split_retrieval_unit_texts,
}
use marx_engels_insight_matc.Retrieval.Units.Breaks.{
  EndsWithBreak, Cut, cut_of-Cut, last_break-BreakAt,
}

-- A unit of a text: not empty, within the limit.
abbrev pub IsUnit : ℕ → Text → Type 0
IsUnit limit chunk = (1 ≤ length chunk) × (length chunk ≤ limit)

-- Each unit but the last fills the limit or ends with a sentence end.
abbrev pub Breaks : ℕ → List Text → Type 0
Breaks limit [] = Unit
Breaks limit (x ∷ []) = Unit
Breaks limit (x ∷ y ∷ rest) = ((length x ≡ limit) ⊎ EndsWithBreak x) × Breaks limit (y ∷ rest)

pub record IsSplit (limit : ℕ) (text : Text) (chunks : List Text) : Type 0 where
  pub whole : concat chunks ≡ text
  pub units : All (IsUnit limit) chunks
  pub breaks : Breaks limit chunks

Breaks-cons :
    (limit : ℕ) (x : Text) (rest : List Text)
    → (length x ≡ limit) ⊎ EndsWithBreak x
    → Breaks limit rest
    → Breaks limit (x ∷ rest)
Breaks-cons limit x [] e b = tt
Breaks-cons limit x (y ∷ rest) e b = (e, b)

split_loop-IsSplit :
    (fuel limit : ℕ) (s : Text)
    → 1 ≤ limit
    → length s < fuel
    → (chunks : List Text) × (split_loop fuel limit s ≡ some chunks) × IsSplit limit s chunks
unfolding split_loop
split_loop-IsSplit zero limit s l h = absurd (omega arith)
split_loop-IsSplit (suc fuel) limit [] l h =
    ([], refl, record { whole = refl; units = tt; breaks = tt })
split_loop-IsSplit (suc fuel) limit (c ∷ s) l h = elim (Bool-cases (leb (length (c ∷ s)) limit)) [
  | inl short ↦ (
    (c ∷ s) ∷ [],
    rw (short, split_loop),
    record { whole = append-nil (c ∷ s); units = (((omega arith), ground arith), tt); breaks = tt },
  )
  | inr long ↦
      let cut = cut_of limit (last_break (take limit (c ∷ s))) in
      let is_cut : Cut limit (c ∷ s) cut =
        cut_of-Cut limit (c ∷ s) (last_break (take limit (c ∷ s))) l
          (last_break-BreakAt (take limit (c ∷ s))) in
      let over : limit < length (c ∷ s) = ground arith in
      let (chunks, e, rest) =
        split_loop-IsSplit fuel limit (drop cut (c ∷ s)) l
          (omega (arith, is_cut.positive, length-drop cut (c ∷ s))) in
      let size : length (take cut (c ∷ s)) ≡ cut =
        omega (arith, is_cut.within, length-take cut (c ∷ s)) in
      (
        take cut (c ∷ s) ∷ chunks,
        rw (long, split_loop, e),
        record {
          whole = ap (λ t. take cut (c ∷ s) ++ t) rest.whole ∙ take-append-drop cut (c ∷ s);
          units = ((omega (arith, is_cut.positive), omega (arith, is_cut.within)), rest.units);
          breaks =
              Breaks-cons limit (take cut (c ∷ s)) chunks (fills cut size is_cut.ends) rest.breaks;
        },
      )
]
  where
    fills :
        (cut : ℕ)
        → length (take cut (c ∷ s)) ≡ cut
        → (cut ≡ limit) ⊎ EndsWithBreak (take cut (c ∷ s))
        → (length (take cut (c ∷ s)) ≡ limit) ⊎ EndsWithBreak (take cut (c ∷ s))
    fills cut size (inl e) = inl (size ∙ e)
    fills cut size (inr b) = inr b

-- With a limit of at least one, a passage is split: the units put together are the passage,
-- each has at least one character and at most `char_limit`, and each but the last has
-- `char_limit` characters or ends with a sentence end.
pub split_retrieval_unit_texts-IsSplit :
    (text : Text) (char_limit : ℕ)
    → 1 ≤ char_limit
    → (chunks : List Text) × (split_retrieval_unit_texts text char_limit ≡ ok chunks)
      × IsSplit char_limit text chunks
unfolding split_retrieval_unit_texts
split_retrieval_unit_texts-IsSplit [] char_limit l =
    ([], refl, record { whole = refl; units = tt; breaks = tt })
split_retrieval_unit_texts-IsSplit (c ∷ s) char_limit l =
    elim (Bool-cases (leb (length (c ∷ s)) char_limit)) [
      | inl short ↦ ((c ∷ s) ∷ [], ground arith, one short)
      | inr long ↦
          let (chunks, e, split) =
            split_loop-IsSplit (suc (length (c ∷ s))) char_limit (c ∷ s) l (omega arith) in
          (chunks, ground (arith, e), split)
    ]
  where
    one : leb (length (c ∷ s)) char_limit ≡ true → IsSplit char_limit (c ∷ s) ((c ∷ s) ∷ [])
    one short = record {
      whole = append-nil (c ∷ s);
      units = ((omega arith, ground arith), tt);
      breaks = tt;
    }
