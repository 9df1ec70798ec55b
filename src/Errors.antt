-- ===== src/Errors.antt =====
-- Go's errors as values: what the operator tests of an API error, and the text that it prints.
use multiprox.Prelude.{String, Bool, true, false}
use multiprox.Text.Strings.{◌+++◌}

-- the status reasons that the operator or client-go tests for
pub data Reason : Type 0 where
  not_found conflict other : Reason

pub record Error : Type 0 where
  pub reason : Reason
  pub text : String

pub data Result {ℓ} (A : Type ℓ) : Type ℓ where
  ok : A → Result A
  err : Error → Result A

-- `errors.New` and a `fmt.Errorf` that wraps nothing
abbrev pub failure : String → Error
failure text = record { reason = Reason.other; text = text }

-- `fmt.Errorf("context: %w", e)`
abbrev pub wrapped : String → Error → Error
wrapped context e = record e { text = context +++ ": " +++ e.text }

abbrev pub is_not_found : Error → Bool
is_not_found e = elim e.reason [ Reason.not_found ↦ true | _ ↦ false ]

abbrev pub is_conflict : Error → Bool
is_conflict e = elim e.reason [ Reason.conflict ↦ true | _ ↦ false ]
