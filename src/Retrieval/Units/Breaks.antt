-- ===== src/Retrieval/Units/Breaks.antt =====
-- Where one round of the splitting loop cuts: at the limit, or behind a sentence end.
use marx_engels_insight_matc.Base.{
  ℕ, zero, suc, ◌+◌, ◌/◌, ◌≤◌, ◌<◌, ◌≡◌, refl, ap, ◌∙◌, sym, Text, ltb, leb, ◌==◌, length, take,
  Option, none, some, true, ◌||◌, [], ◌∷◌, ◌++◌, arith, Bool, ◌⊎◌, inl, inr, Bool-cases,
  Option-cases, length-take,
}
use marx_engels_insight_matc.Retrieval.Units.{rfind, max_index, last_break, cut_of}

abbrev pub is_break : ℕ → Bool
is_break c = (c == 0x3002) || (c == 0xff01) || (c == 0xff1f) || (c == 10)

-- The last character of the text is a sentence end.
abbrev pub EndsWithBreak : Text → Type 0
EndsWithBreak t = (front : Text) × (c : ℕ) × (t ≡ front ++ c ∷ []) × (is_break c ≡ true)

-- At index `i` of the text stands a sentence end.
abbrev pub BreakAt : Text → ℕ → Type 0
BreakAt t i =
    (i < length t) × ((c : ℕ) × (take (suc i) t ≡ take i t ++ c ∷ []) × (is_break c ≡ true))

rfind-some : (c : ℕ) (s : Text) (i : ℕ) → is_break c ≡ true → rfind c s ≡ some i → BreakAt s i
unfolding rfind
rfind-some c [] i b h = absurd (cc)
rfind-some c (d ∷ s) zero b h = elim (Option-cases (rfind c s)) [
  | inl n ↦ (omega arith, (d, refl, ground arith))
  | inr (j, y) ↦ absurd (ground arith)
]
rfind-some c (d ∷ s) (suc i) b h = elim (Option-cases (rfind c s)) [
  | inl n ↦ absurd (ground arith)
  | inr (j, y) ↦
      let (l, (e, at, k)) = rfind-some c s i b (ground arith) in
      (omega arith, (e, ap (◌∷◌ d) at, k))
]

max_index-some :
    (Q : ℕ → Type 0) (o p : Option ℕ)
    → ((i : ℕ) → o ≡ some i → Q i)
    → ((i : ℕ) → p ≡ some i → Q i)
    → (i : ℕ) → max_index o p ≡ some i
    → Q i
max_index-some Q none p f g i h = g i h
max_index-some Q (some a) none f g i h = f i h
max_index-some Q (some a) (some b) f g i h = elim (Bool-cases (leb a b)) [
  | inl l ↦ g i (ground arith)
  | inr l ↦ f i (ground arith)
]

pub last_break-BreakAt : (w : Text) (i : ℕ) → last_break w ≡ some i → BreakAt w i
unfolding last_break
last_break-BreakAt w =
    let at = λ (c : ℕ) (b : is_break c ≡ true) (i : ℕ). rfind-some c w i b in
    let feed =
      max_index-some (BreakAt w) (rfind 0xff1f w) (rfind 10 w) (at 0xff1f refl) (at 10 refl) in
    let marks =
      max_index-some (BreakAt w) (rfind 0xff01 w) (max_index (rfind 0xff1f w) (rfind 10 w))
        (at 0xff01 refl) feed in
    max_index-some (BreakAt w) (rfind 0x3002 w)
      (max_index (rfind 0xff01 w) (max_index (rfind 0xff1f w) (rfind 10 w))) (at 0x3002 refl) marks

take-take : (m n : ℕ) (s : Text) → m ≤ n → take m (take n s) ≡ take m s
take-take zero n s h = refl
take-take (suc m) zero s h = absurd (omega arith)
take-take (suc m) (suc n) [] h = refl
take-take (suc m) (suc n) (c ∷ s) h = ap (◌∷◌ c) (take-take m n s (omega arith))

-- What one round takes from a text that is longer than the limit.
pub record Cut (limit : ℕ) (s : Text) (cut : ℕ) : Type 0 where
  pub positive : 1 ≤ cut
  pub within : cut ≤ limit
  pub ends : (cut ≡ limit) ⊎ EndsWithBreak (take cut s)

pub cut_of-Cut :
    (limit : ℕ) (s : Text) (o : Option ℕ)
    → 1 ≤ limit
    → ((i : ℕ) → o ≡ some i → BreakAt (take limit s) i)
    → Cut limit s (cut_of limit o)
unfolding cut_of
cut_of-Cut limit s none l at = record { positive = l; within = omega arith; ends = inl refl }
cut_of-Cut limit s (some i) l at = elim (Bool-cases (ltb i (limit / 3))) [
  | inl early ↦ rw early (record { positive = l; within = omega arith; ends = inl refl })
  | inr late ↦
      let (inside, (c, e, b)) = at i refl in
      let room : i + 1 ≤ limit = omega (arith, length-take limit s) in
      rw late (record {
        positive = omega arith;
        within = room;
        ends = inr (take i (take limit s), c, whole i room e, b);
      })
]
  where
    whole :
        (i : ℕ) {front : Text}
        → i + 1 ≤ limit
        → take (suc i) (take limit s) ≡ front
        → take (i + 1) s ≡ front
    whole i room e =
        let next : i + 1 ≡ suc i = omega arith in
        rw next (sym (take-take (suc i) limit s (omega arith)) ∙ e)
