-- ===== src/Outcome.antt =====
-- `Outcome`, `CorridorError` and `fail` of packages/types/src/index.ts, with the causes that the
-- engine attaches to an error and reads back, and `CheckResult` of packages/engine/src/gate.ts.
use corridor_in_a_box.Base.{◌≡◌, ◌≢◌, String, Bool, true, false, Option, List}
use corridor_in_a_box.Types.{ErrorCode}
use corridor_in_a_box.Anchor.{TransactionStatus}

pub record CheckResult : Type 0 where
  pub name : String
  pub passed : Bool
  pub code : Option ErrorCode

-- `cause?: unknown`: nothing, an anchor's status, another error (by its code), the report of a dry
-- run, or a value that was thrown.
pub data Cause : Type 0 where
  nothing thrown : Cause
  a_status : TransactionStatus → Cause
  an_error : ErrorCode → Cause
  dry_run : List CheckResult → Cause

pub record CorridorError : Type 0 where
  pub code : ErrorCode
  pub retryable : Bool
  pub cause : Cause

pub data Outcome {ℓ} (A : Type ℓ) : Type ℓ where
  ok : A → Outcome A
  err : CorridorError → Outcome A

-- `fail(code, message)`: `retryable` is false unless the caller says so.
abbrev pub refusal : ErrorCode → CorridorError
refusal code = record { code = code; retryable = false; cause = nothing }

abbrev pub fail {ℓ} : {A : Type ℓ} → ErrorCode → Outcome A
fail code = err (refusal code)

abbrev pub fail_retryable {ℓ} : {A : Type ℓ} → ErrorCode → Outcome A
fail_retryable code = err (record { code = code; retryable = true; cause = nothing })

abbrev pub is_ok {ℓ} : {A : Type ℓ} → Outcome A → Bool
is_ok (ok a) = true
is_ok (err e) = false

infixl 5 ◌>>=◌
abbrev pub ◌>>=◌ {ℓ κ} : {A : Type ℓ} {B : Type κ} → Outcome A → (A → Outcome B) → Outcome B
ok a >>= f = f a
err e >>= f = err e

pub err-ne-ok {ℓ} : {A : Type ℓ} {e : CorridorError} {a : A} → err e ≢ ok a
err-ne-ok h = cc

pub unwrap {ℓ} : {A : Type ℓ} {a b : A} → ok a ≡ ok b → a ≡ b
unwrap h = cc
