-- ===== src/Ingestion/Failures.antt =====
-- The exceptions of packages/marx_engels/ingestion, by class, and what a call that may raise
-- them gives.
use mathlib.Core.Path.{subst}
use marx_engels_insight_matc.Base.{Text, ℕ, Bool, true, false, ◌≡◌, refl, if◌then◌else◌}

-- `PageMappingError`, one constructor for each `raise`, with what its message names.
pub data PageMappingError : Type 0 where
  invalid_range : ℕ → ℕ → PageMappingError
  no_pages : PageMappingError
  no_mappings : PageMappingError
  duplicate_id : Text → PageMappingError
  overlapping : ℕ → PageMappingError
  gap_before : ℕ → PageMappingError
  inverted : Text → PageMappingError
  count_mismatch : Text → PageMappingError
  offset_mismatch : Text → PageMappingError
  start_mismatch : Text → PageMappingError
  coverage_ended : ℕ → ℕ → PageMappingError

-- `PdfSplitError`; `oversized_page` is its subclass `OversizedPageError`.
pub data PdfSplitError : Type 0 where
  empty_pdf : PdfSplitError
  unreadable : PdfSplitError
  empty_window : PdfSplitError
  window_too_long : ℕ → ℕ → PdfSplitError
  window_out_of_range : ℕ → ℕ → PdfSplitError
  window_too_large : ℕ → PdfSplitError
  oversized_page : ℕ → ℕ → PdfSplitError

-- `writer` is any exception of the PDF library while it writes a chunk; `out_of_fuel` stands for
-- no exception of the source.
pub data Failure : Type 0 where
  page_mapping : PageMappingError → Failure
  pdf_split : PdfSplitError → Failure
  value_error : Text → Failure
  validation_error : Failure
  key_error : Text → Failure
  writer : Failure
  out_of_fuel : Failure

pub data Attempt {ℓ} (A : Type ℓ) : Type ℓ where
  done : A → Attempt A
  failed : Failure → Attempt A

-- What follows a call is not run when the call raises.
abbrev pub and_then {ℓ κ} : {A : Type ℓ} {B : Type κ} → Attempt A → (A → Attempt B) → Attempt B
and_then (done a) next = next a
and_then (failed f) next = failed f

-- What a call gives: `P` of the value that it returns, or `Q` of the failure that it raises.
abbrev pub Outcome {ℓ κ} : {A : Type ℓ} → (A → Type κ) → (Failure → Type κ) → Attempt A → Type κ
Outcome P Q (done a) = P a
Outcome P Q (failed f) = Q f

module _ {A B : Type 0} (P : A → Type 0) (R : B → Type 0) (Q : Failure → Type 0) where
  -- The outcome of a call and of what follows it.
  pub and_then-Outcome :
      (first : Attempt A) (next : A → Attempt B)
      → Outcome P Q first
      → ((a : A) → first ≡ done a → P a → Outcome R Q (next a))
      → Outcome R Q (and_then first next)
  and_then-Outcome (done a) next p k = k a refl p
  and_then-Outcome (failed f) next q k = q

module _ {A : Type 0} (P : A → Type 0) (Q : Failure → Type 0) where
  pub Outcome-of_if :
      (b : Bool) (x y : Attempt A)
      → (b ≡ true → Outcome P Q x)
      → (b ≡ false → Outcome P Q y)
      → Outcome P Q (if b then x else y)
  Outcome-of_if true x y h k = h refl
  Outcome-of_if false x y h k = k refl

  pub Outcome-done : (m : Attempt A) (a : A) → Outcome P Q m → m ≡ done a → P a
  Outcome-done m a h e = subst (Outcome P Q) e h

  pub Outcome-failed : (m : Attempt A) (f : Failure) → Outcome P Q m → m ≡ failed f → Q f
  Outcome-failed m f h e = subst (Outcome P Q) e h

  pub Outcome-weaken :
      (R : A → Type 0) (m : Attempt A) → ((a : A) → P a → R a) → Outcome P Q m → Outcome R Q m
  Outcome-weaken R (done a) k h = k a h
  Outcome-weaken R (failed f) k h = h
