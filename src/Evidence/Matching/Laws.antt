-- ===== src/Evidence/Matching/Laws.antt =====
-- The offsets are the leftmost, non-overlapping occurrences, all of them.
use marx_engels_insight_matc.Base.{
  ℕ, zero, suc, ◌+◌, ◌≤◌, ◌<◌, ◌≡◌, ◌≢◌, refl, Text, starts_with, is_empty, length, drop, take,
  none, some, List, [], ◌∷◌, true, false, arith, ◌↔◌, Option-cases, Bool-cases, ◌-◌, length-take,
  length-drop, inl, inr, drop-nil, drop-drop, ap,
}
use marx_engels_insight_matc.Evidence.Matching.{
  find_from, find, match_loop, non_overlapping_match_offsets,
}

-- `query` stands in `text` at index `i`.
abbrev pub MatchesAt : Text → Text → ℕ → Type 0
MatchesAt text query i = take (length query) (drop i text) ≡ query

-- The leftmost non-overlapping occurrences from `start` on, and no others.
abbrev pub Leftmost : Text → Text → ℕ → List ℕ → Type 0
Leftmost text query start [] = (j : ℕ) → start ≤ j → ¬ MatchesAt text query j
Leftmost text query start (i ∷ rest) =
    (start ≤ i)
    × MatchesAt text query i
    × ((j : ℕ) → start ≤ j → j < i → ¬ MatchesAt text query j)
    × Leftmost text query (i + length query) rest

starts_with_iff : (q s : Text) → (starts_with q s ≡ true) ↔ (take (length q) s ≡ q)
unfolding starts_with
starts_with_iff [] s = (λ _. refl, λ _. refl)
starts_with_iff (c ∷ q) [] = (λ h. cc, λ h. cc)
starts_with_iff (c ∷ q) (d ∷ s) =
    (λ h. ground (arith, starts_with_iff q s), λ h. ground (arith, starts_with_iff q s))

find_from-none :
    (q s : Text) (i : ℕ) → find_from q s i ≡ none → (m : ℕ) → take (length q) (drop m s) ≢ q
unfolding find_from
find_from-none [] [] i h m = cc
find_from-none (c ∷ q) [] i h m = rw drop-nil (λ e. cc)
find_from-none q (d ∷ s) i h zero = ground (arith, starts_with_iff q (d ∷ s))
find_from-none q (d ∷ s) i h (suc m) = find_from-none q s (suc i) (ground arith) m

find_from-some :
    (q s : Text) (i j : ℕ)
    → find_from q s i ≡ some j
    → (k : ℕ) × (j ≡ i + k)
      × (take (length q) (drop k s) ≡ q)
      × ((m : ℕ) → m < k → take (length q) (drop m s) ≢ q)
unfolding find_from
find_from-some [] [] i j h = (0, ground arith, refl, λ m l. absurd (omega arith))
find_from-some (c ∷ q) [] i j h = absurd (cc)
find_from-some q (d ∷ s) i j h = elim (Bool-cases (starts_with q (d ∷ s))) [
  | inl y ↦ (0, ground arith, (starts_with_iff q (d ∷ s)).0 y, λ m l. absurd (omega arith))
  | inr n ↦
      let (k, e, hit, before) = find_from-some q s (suc i) j (ground arith) in
      (suc k, omega arith, hit, first q d s k n before)
]
  where
    first :
        (q : Text) (d : ℕ) (s : Text) (k : ℕ)
        → starts_with q (d ∷ s) ≡ false
        → ((m : ℕ) → m < k → take (length q) (drop m s) ≢ q)
        → (m : ℕ) → m < suc k
        → take (length q) (drop m (d ∷ s)) ≢ q
    first q d s k n before zero l = ground (arith, starts_with_iff q (d ∷ s))
    first q d s k n before (suc m) l = before m (omega arith)

-- `find` returns the first index from `start` on at which the query stands.
pub find-some :
    (text q : Text) (start i : ℕ)
    → find text q start ≡ some i
    → (start ≤ i) × MatchesAt text q i × ((j : ℕ) → start ≤ j → j < i → ¬ MatchesAt text q j)
unfolding find
find-some text q start i h =
    let (k, e, hit, before) = find_from-some q (drop start text) start i h in
    (omega arith, shift k e hit, λ j l l' at. before (j - start) (omega arith) (back j l at))
  where
    shift :
        (k : ℕ)
        → i ≡ start + k
        → take (length q) (drop k (drop start text)) ≡ q
        → MatchesAt text q i
    shift k e hit = rw (drop-drop k start text, ← e) at hit

    back :
        (j : ℕ)
        → start ≤ j
        → MatchesAt text q j
        → take (length q) (drop (j - start) (drop start text)) ≡ q
    back j l at =
        let e : start + (j - start) ≡ j = omega arith in rw (drop-drop (j - start) start text, e) at

pub find-none :
    (text q : Text) (start : ℕ)
    → find text q start ≡ none
    → (j : ℕ) → start ≤ j
    → ¬ MatchesAt text q j
unfolding find
find-none text q start h j l at =
    let e : start + (j - start) ≡ j = omega arith in
    find_from-none q (drop start text) start h (j - start)
      (rw (drop-drop (j - start) start text, e) at)

-- A query that stands at an index ends inside the text.
MatchesAt-bound : (text q : Text) (i : ℕ) → q ≢ [] → MatchesAt text q i → i + length q ≤ length text
MatchesAt-bound text [] i ne at = absurd (ne refl)
MatchesAt-bound text (c ∷ q) i ne at =
    omega (arith, ap length at, length-take (length (c ∷ q)) (drop i text), length-drop i text)

-- With more fuel than characters are left the loop ends, with the leftmost occurrences.
match_loop-Leftmost :
    (fuel : ℕ) (text q : Text) (start : ℕ)
    → q ≢ []
    → length text - start < fuel
    → (xs : List ℕ) × (match_loop fuel text q start ≡ some xs) × Leftmost text q start xs
unfolding match_loop
match_loop-Leftmost zero text q start ne l = absurd (omega arith)
match_loop-Leftmost (suc fuel) text q start ne l = elim (Option-cases (find text q start)) [
  | inl n ↦ ([], rw (n, match_loop), find-none text q start n)
  | inr (i, y) ↦
      let (from, at, before) = find-some text q start i y in
      let (xs, e, rest) =
        match_loop-Leftmost fuel text q (i + length q) ne
          (omega (arith, MatchesAt-bound text q i ne at, positive q ne)) in
      (i ∷ xs, rw (y, match_loop, e), (from, at, before, rest))
]
  where
    positive : (q : Text) → q ≢ [] → 0 < length q
    positive [] ne = absurd (ne refl)
    positive (c ∷ q) ne = omega arith

-- For a query that is not empty, the offsets are exactly its leftmost non-overlapping
-- occurrences: each is an occurrence, the next one is searched from its end, and nothing
-- before, between or behind them is an occurrence.
pub non_overlapping_match_offsets-Leftmost :
    (text query : Text)
    → query ≢ []
    → Leftmost text query 0 (non_overlapping_match_offsets text query)
unfolding non_overlapping_match_offsets
non_overlapping_match_offsets-Leftmost text [] ne = absurd (ne refl)
non_overlapping_match_offsets-Leftmost text (c ∷ q) ne =
    let (xs, e, l) = match_loop-Leftmost (suc (length text)) text (c ∷ q) 0 ne (omega arith) in
    rw e l

Leftmost-nonempty :
    (text q : Text) (xs : List ℕ)
    → Leftmost text q 0 xs
    → (is_empty xs ≡ false) ↔ ((i : ℕ) × MatchesAt text q i)
Leftmost-nonempty text q [] l = (λ h. absurd (cc), λ o. absurd (l o.0 (omega arith) o.1))
Leftmost-nonempty text q (i ∷ rest) l = (λ _. (i, l.1), λ _. refl)

-- There is an offset exactly when the query is not empty and stands somewhere in the text.
pub non_overlapping_match_offsets-nonempty_iff :
    (text query : Text)
    → (is_empty (non_overlapping_match_offsets text query) ≡ false)
      ↔ ((query ≢ []) × ((i : ℕ) × MatchesAt text query i))
non_overlapping_match_offsets-nonempty_iff text [] =
    (λ h. absurd (unfold non_overlapping_match_offsets in cc h), λ o. absurd (o.0 refl))
non_overlapping_match_offsets-nonempty_iff text (c ∷ q) =
    let both =
      Leftmost-nonempty text (c ∷ q) (non_overlapping_match_offsets text (c ∷ q))
        (non_overlapping_match_offsets-Leftmost text (c ∷ q) (λ e. cc)) in
    (λ h. (λ e. cc, both.0 h), λ o. both.1 o.1)
