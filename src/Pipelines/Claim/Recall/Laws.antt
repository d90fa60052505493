-- ===== src/Pipelines/Claim/Recall/Laws.antt =====
-- The recall goes on with one channel, and never hides an authoritative error.
use marx_engels_insight_matc.Base.{
  ◌≡◌, ◌⊎◌, refl, ap, sym, ◌∙◌, Text, codes, Bool, true, false, ◌&&◌, ◌||◌, List, [], ◌∷◌, ◌++◌,
  arith, inl, inr, Bool-cases, append_nil,
}
use marx_engels_insight_matc.Contracts.{Candidate, Warning}
use marx_engels_insight_matc.Errors.{Exception, domain, other, cancelled, Result, ok, raise}
use marx_engels_insight_matc.Pipelines.Claim.Recall.{
  is_blocking, is_cancelled, raise_if_blocking, channel_warning, optional_channel, Recalled,
  channels_unavailable, combine_channels,
}

-- The channel raised an error that must not be hidden.
abbrev pub blocks : {A : Type 0} → Result A → Bool
blocks (ok a) = false
blocks (raise e) = is_blocking e

abbrev pub fails : {A : Type 0} → Result A → Bool
fails (ok a) = false
fails (raise e) = true

abbrev pub hits_of : {A : Type 0} → Result (List A) → List A
hits_of (ok hits) = hits
hits_of (raise e) = []

-- The warning that a failed channel leaves.
abbrev pub warning_of : {A : Type 0} → Result A → Text → List Warning
warning_of (ok a) code = []
warning_of (raise e) code = channel_warning code ∷ []

not_cancelled : (e : Exception) → is_blocking e ≡ false → is_cancelled e ≡ false
unfolding is_blocking
not_cancelled (domain code message retryable) h = refl
not_cancelled (other message) h = refl
not_cancelled cancelled h = cc

-- What no `except Exception` catches.
abbrev pub interrupted : {A : Type 0} → Result A → Bool
interrupted (ok a) = false
interrupted (raise e) = is_cancelled e

module _ {F : Type 0} (lexical_result vector_result : Result (List (Candidate F)))
    (warnings : List Warning) where
  -- What the recall returns.
  pub record IsRecalled (r : Recalled F) : Type 0 where
    pub lexical : r.lexical ≡ hits_of lexical_result
    pub vector : r.vector ≡ hits_of vector_result
    pub warned :
        r.warnings
        ≡ (warnings ++ warning_of lexical_result (codes "LEXICAL_UNAVAILABLE"))
          ++ warning_of vector_result (codes "VECTOR_UNAVAILABLE")

  -- The recall must stop: a channel raised an authoritative error or was cancelled, or both
  -- channels failed.
  abbrev pub must_stop : Bool
  must_stop =
      blocks lexical_result || blocks vector_result || (fails lexical_result && fails vector_result)

abbrev pub Returns :
    {F : Type 0} → Result (List (Candidate F)) → Result (List (Candidate F)) → List Warning → Type 0
Returns {F} l v ws = (r : Recalled F) × ((combine_channels l v ws ≡ ok r) × IsRecalled l v ws r)

module _ {F : Type 0} (ws : List Warning) where
  pub returns : (l v : Result (List (Candidate F))) → must_stop l v ws ≡ false → Returns l v ws
  unfolding combine_channels raise_if_blocking optional_channel
  returns (ok l) (ok v) h = (
    record { lexical = l; vector = v; warnings = ws },
    (
      refl,
      record {
        lexical = refl;
        vector = refl;
        warned = sym (append_nil (ws ++ []) ∙ append_nil ws);
      },
    ),
  )
  returns (ok l) (raise e) h =
      let b : is_blocking e ≡ false = ground (arith, h) in
      (
        record {
          lexical = l;
          vector = [];
          warnings = ws ++ channel_warning (codes "VECTOR_UNAVAILABLE") ∷ [];
        },
        (
          rw (b, not_cancelled e b) refl,
          record {
            lexical = refl;
            vector = refl;
            warned =
                ap (λ w. w ++ channel_warning (codes "VECTOR_UNAVAILABLE") ∷ [])
                  (sym (append_nil ws));
          },
        ),
      )
  returns (raise e) (ok v) h =
      let b : is_blocking e ≡ false = ground (arith, h) in
      (
        record {
          lexical = [];
          vector = v;
          warnings = ws ++ channel_warning (codes "LEXICAL_UNAVAILABLE") ∷ [];
        },
        (
          rw (b, not_cancelled e b) refl,
          record {
            lexical = refl;
            vector = refl;
            warned = sym (append_nil (ws ++ channel_warning (codes "LEXICAL_UNAVAILABLE") ∷ []));
          },
        ),
      )
  returns (raise e) (raise d) h = absurd (ground (arith, h))

  -- The error is a channel's own, or, where neither has an authoritative one, that of the recall.
  abbrev pub Stops : (l v : Result (List (Candidate F))) → Type 0
  Stops l v =
      (e : Exception) × ((combine_channels l v ws ≡ raise e)
        × ((l ≡ raise e)
            ⊎ ((v ≡ raise e)
                ⊎ ((blocks l ≡ false) × ((blocks v ≡ false) × (e ≡ channels_unavailable))))))

  stops : (l v : Result (List (Candidate F))) → must_stop l v ws ≡ true → Stops l v
  unfolding combine_channels raise_if_blocking optional_channel
  stops (ok l) (ok v) h = absurd (cc)
  stops (ok l) (raise e) h =
      let b : is_blocking e ≡ true = ground (arith, h) in (e, (rw b refl, inr (inl refl)))
  stops (raise e) (ok v) h =
      let b : is_blocking e ≡ true = ground (arith, h) in (e, (rw b refl, inl refl))
  stops (raise e) (raise d) h = elim (Bool-cases (is_blocking e)) [
    | inl b ↦ (e, (rw b refl, inl refl))
    | inr n ↦ elim (Bool-cases (is_blocking d)) [
      | inl b ↦ (d, (rw (n, b) refl, inr (inl refl)))
      | inr m ↦ (
        channels_unavailable,
        (rw (n, m, not_cancelled e n, not_cancelled d m) refl, inr (inr (n, (m, refl)))),
      )
    ]
  ]

module _ {F : Type 0} where
  -- Either neither channel raised an authoritative error or was cancelled, and one of them
  -- answered: the recall then returns the hits of the channels that answered, and one more
  -- warning for the channel that failed. Or it raises: an error that a channel raised, or, where
  -- both failed with no authoritative error, that neither channel is available.
  pub combine_channels_lem :
      (lexical_result vector_result : Result (List (Candidate F))) (warnings : List Warning)
      → ((must_stop lexical_result vector_result warnings ≡ false)
          × Returns lexical_result vector_result warnings)
        ⊎ ((must_stop lexical_result vector_result warnings ≡ true)
            × Stops warnings lexical_result vector_result)
  combine_channels_lem l v ws = elim (Bool-cases (must_stop l v ws)) [
    | inl stop ↦ inr (stop, stops ws l v stop)
    | inr go ↦ inl (go, returns ws l v go)
  ]
