-- ===== src/Errors.antt =====
-- packages/marx_engels/errors.py, and the effects of a coroutine: it returns or raises.
pub mod Laws
use marx_engels_insight_matc.Base.{Text, codes, Bool, false, ◌++◌}

-- `domain` is a `DomainError` with its code, message and `retryable`; `other` is any other
-- `Exception` with its text; `cancelled` is `asyncio.CancelledError`, which no
-- `except Exception` catches. The `details` of a `DomainError` are not modelled.
pub data Exception : Type 0 where
  domain : Text → Text → Bool → Exception
  other : Text → Exception
  cancelled : Exception

pub data Result {ℓ} (A : Type ℓ) : Type ℓ where
  ok : A → Result A
  raise : Exception → Result A

infixl 5 ◌>>=◌
-- `await`: what was raised is raised again.
abbrev pub ◌>>=◌ {ℓ κ} :
    {Value : Type ℓ} {Next : Type κ} → Result Value → (Value → Result Next) → Result Next
raise e >>= rest = raise e
ok value >>= rest = rest value

-- `PipelineNotImplementedError(mode)`
unfoldable pub pipeline_not_implemented : Text → Exception
pipeline_not_implemented mode =
    domain (codes "PIPELINE_NOT_IMPLEMENTED")
      (codes "The "
        ++ (mode
            ++ codes
                " pipeline is not available in this runtime. Semantic retrieval is not connected and will not fall back to synthetic data."))
      false
