-- ===== src/Errors/Laws.antt =====
-- Coroutines that return: what follows from a result, and conditions on it.
use mathlib.Core.Path.{subst}
use marx_engels_insight_matc.Base.{
  ◌≡◌, ◌⊎◌, refl, ap, sym, Bool, true, false, if◌then◌else◌, inl, inr,
}
use marx_engels_insight_matc.Errors.{Exception, Result, ok, raise, ◌>>=◌}

-- A block that returned had a first step that returned.
pub bind-ok :
    {A B : Type 0} {y : B} (first : Result A) (rest : A → Result B)
    → (first >>= rest) ≡ ok y
    → (x : A) × ((first ≡ ok x) × (rest x ≡ ok y))
bind-ok (raise e) rest h = cc
bind-ok (ok x) rest h = (x, (refl, h))

value_of : {A : Type 0} → A → Result A → A
value_of d (ok a) = a
value_of d (raise e) = d

pub ok_injective : {A : Type 0} (a b : A) → ok a ≡ ok b → a ≡ b
unfolding value_of
ok_injective a b h = ap (value_of a) h

pub Result-cases :
    {A : Type 0} (m : Result A) → ((e : Exception) × (m ≡ raise e)) ⊎ ((a : A) × (m ≡ ok a))
Result-cases (raise e) = inl (e, refl)
Result-cases (ok a) = inr (a, refl)

pub ok-ne-raise : {A : Type 0} {m : Result A} (a : A) (e : Exception) → m ≡ ok a → m ≡ raise e → ⊥
ok-ne-raise a e h k = cc

-- A test that returned did so in one of its branches.
pub if-ok :
    {A : Type 0} {x y : Result A} {a : A} (b : Bool)
    → (if b then x else y) ≡ ok a
    → ((b ≡ true) × (x ≡ ok a)) ⊎ ((b ≡ false) × (y ≡ ok a))
if-ok true h = inl (refl, h)
if-ok false h = inr (refl, h)

module _ {A : Type 0} (P : A → Type 0) where
  -- What holds of the value that is returned holds of the value of the call.
  pub of_ok : {a : A} (b : A) → P a → ok a ≡ ok b → P b
  of_ok {a} b h e = subst P (ok_injective a b e) h

-- A call that returns.
abbrev pub Returns : {A : Type 0} → Result A → Type 0
Returns {A} m = (a : A) × (m ≡ ok a)

pub if-Returns :
    {A : Type 0} (b : Bool) {x y : Result A} → Returns x → Returns y → Returns (if b then x else y)
if-Returns true r q = r
if-Returns false r q = q

pub bind-Returns :
    {A B : Type 0} (first : Result A) (rest : A → Result B)
    → Returns first
    → ((a : A) → first ≡ ok a → Returns (rest a))
    → Returns (first >>= rest)
bind-Returns (ok a) rest r next = next a refl
bind-Returns (raise e) rest (a, h) next = absurd (cc)

-- Also where something is known of the value that the first step returns.
pub bind-Returns_of :
    {A B : Type 0} (Q : A → Type 0) (first : Result A) (rest : A → Result B)
    → (a : A) × ((first ≡ ok a) × Q a)
    → ((a : A) → Q a → Returns (rest a))
    → Returns (first >>= rest)
bind-Returns_of Q (ok a) rest (b, (e, q)) next = next a (subst Q (ok_injective b a (sym e)) q)
bind-Returns_of Q (raise e) rest (a, (h, q)) next = absurd (cc)

-- A call that returns a value of which `P` holds.
abbrev pub Meets : {A : Type 0} → (A → Type 0) → Result A → Type 0
Meets {A} P m = (a : A) × ((m ≡ ok a) × P a)

pub bind-Meets :
    {A B : Type 0} (P : A → Type 0) (R : B → Type 0) (first : Result A) (rest : A → Result B)
    → Meets P first
    → ((a : A) → P a → Meets R (rest a))
    → Meets R (first >>= rest)
bind-Meets P R (ok a) rest (b, (e, p)) next = next a (subst P (ok_injective b a (sym e)) p)
bind-Meets P R (raise e) rest (a, (h, p)) next = absurd (cc)
