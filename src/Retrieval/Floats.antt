-- ===== src/Retrieval/Floats.antt =====
-- The floats of the scores: the operations that the program uses, and the order of floats that
-- are no NaN.
use Prim.Native.Nat.{Ordering}
use marx_engels_insight_matc.Base.{ℕ, List}
use marx_engels_insight_matc.Base.Compare.{IsOrder}

pub record FloatOps (F : Type 0) : Type 0 where
  pub zero : F
  pub one : F
  pub add : F → F → F
  -- `1.0 / n`
  pub reciprocal : ℕ → F
  -- `sum(xs)`
  pub sum : List F → F
  -- `x / n`
  pub divide : F → ℕ → F
  -- `float("-inf")`
  pub negative_infinity : F
  pub compare : F → F → Ordering

abbrev pub IsOrdered : {F : Type 0} → FloatOps F → Type 0
IsOrdered ops = IsOrder ops.compare
