-- ===== src/Base/Dict.antt =====
-- Python's `dict` with string keys, as the list of its items in insertion order.
use mathlib.Core.Path.{◌≡◌, refl, ap, sym, ◌∙◌}
use mathlib.Core.Logic.{◌⊎◌, inl, inr}
use mathlib.Core.Bool.{◌||◌}
use mathlib.Core.Option.{Option, none, some}
use mathlib.Core.List.{List, [], ◌∷◌, map}
use native.Mathlib.Omega.{arith}
use marx_engels_insight_matc.Base.Tests.{if◌then◌else◌, is_some, Bool-cases}
use marx_engels_insight_matc.Base.Lists.{In}
use marx_engels_insight_matc.Base.Strings.{Text, text_eq, text_eq_iff}
use marx_engels_insight_matc.Base.Unique.{contains, Distinct}

abbrev pub Dict {ℓ} : Type ℓ → Type ℓ
Dict V = List (Text × V)

module _ {ℓ} {V : Type ℓ} where
  -- `d.get(k)`
  unfoldable pub get : Text → Dict V → Option V
  get k [] = none
  get k ((j, v) ∷ d) = if text_eq k j then some v else get k d

  -- `d[k] = v`: an old key keeps its place
  unfoldable pub put : Text → V → Dict V → Dict V
  put k v [] = (k, v) ∷ []
  put k v ((j, w) ∷ d) = if text_eq k j then (j, v) ∷ d else (j, w) ∷ put k v d

  abbrev pub keys : Dict V → List Text
  keys d = map (λ e. e.0) d

  -- What is read after a write.
  pub get-put :
      (k j : Text) (v : V) (d : Dict V)
      → get j (put k v d) ≡ (if text_eq j k then some v else get j d)
  unfolding get put
  get-put k j v [] = refl
  get-put k j v ((i, w) ∷ d) =
      ground (arith, text_eq_iff k i, text_eq_iff j i, text_eq_iff j k, get-put k j v d)

  pub contains-keys : (k : Text) (d : Dict V) → contains k (keys d) ≡ is_some (get k d)
  unfolding get contains
  contains-keys k [] = refl
  contains-keys k ((j, v) ∷ d) = ground (arith, contains-keys k d)

  pub contains-keys-put :
      (k j : Text) (v : V) (d : Dict V)
      → contains j (keys (put k v d)) ≡ (text_eq j k || contains j (keys d))
  contains-keys-put k j v d =
      ground (arith, contains-keys j (put k v d), contains-keys j d, get-put k j v d)

  pub Distinct-keys-put :
      (k : Text) (v : V) (d : Dict V) → Distinct (keys d) → Distinct (keys (put k v d))
  unfolding put contains
  Distinct-keys-put k v [] h = (refl, tt)
  Distinct-keys-put k v ((j, w) ∷ d) h = ground (
    arith,
    h.0,
    h.1,
    contains-keys-put k j v d,
    Distinct-keys-put k v d,
    text_eq_iff k j,
    text_eq_iff j k,
  )

module _ {A : Type 0} (name : A → Text) where
  index_from : Dict A → List A → Dict A
  index_from d [] = d
  index_from d (x ∷ xs) = index_from (put (name x) x d) xs

  -- `{name(x): x for x in xs}`: the last one of a name stays.
  unfoldable pub index_by : List A → Dict A
  unfolding index_from
  index_by = index_from []

  index_from-some :
      (i : Text) (x : A) (d : Dict A) (xs : List A)
      → get i (index_from d xs) ≡ some x
      → ((name x ≡ i) × In x xs) ⊎ (get i d ≡ some x)
  unfolding index_from
  index_from-some i x d [] h = inr h
  index_from-some i x d (y ∷ ys) h =
      later (index_from-some i x (put (name y) y d) ys h) (get-put (name y) i y d)
    where
      later :
          ((name x ≡ i) × In x ys) ⊎ (get i (put (name y) y d) ≡ some x)
          → get i (put (name y) y d) ≡ (if text_eq i (name y) then some y else get i d)
          → ((name x ≡ i) × In x (y ∷ ys)) ⊎ (get i d ≡ some x)
      later (inl (n, m)) e = inl (n, inr m)
      later (inr g) e = elim (Bool-cases (text_eq i (name y))) [
        | inl same ↦
            let is_y : y ≡ x = ground arith in
            inl (ap name (sym is_y) ∙ sym ((text_eq_iff i (name y)).0 same), inl (sym is_y))
        | inr other ↦ inr (ground arith)
      ]

  -- What is found under a name is an element of that name.
  pub index_by-some :
      (i : Text) (x : A) (xs : List A) → get i (index_by xs) ≡ some x → (name x ≡ i) × In x xs
  unfolding index_by get
  index_by-some i x xs h = found (index_from-some i x [] xs h)
    where
      found : ((name x ≡ i) × In x xs) ⊎ (get i [] ≡ some x) → (name x ≡ i) × In x xs
      found (inl p) = p
      found (inr e) = absurd (cc)

  is_some-index_from :
      (i : Text) (d : Dict A) (xs : List A)
      → is_some (get i (index_from d xs)) ≡ (contains i (map name xs) || is_some (get i d))
  unfolding index_from contains
  is_some-index_from i d [] = refl
  is_some-index_from i d (y ∷ ys) =
      ground (arith, is_some-index_from i (put (name y) y d) ys, get-put (name y) i y d)

  -- A name is found exactly when an element has it.
  pub is_some-index_by :
      (i : Text) (xs : List A) → is_some (get i (index_by xs)) ≡ contains i (map name xs)
  unfolding index_by get
  is_some-index_by i xs = ground (arith, is_some-index_from i [] xs)
