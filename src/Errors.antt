-- ===== src/Errors.antt =====
-- intake/errors.py: the safe error envelope. Also the other exceptions that the services see, and
-- the result of a call that may raise.
use ai_oas.Base.{ℕ, String, Bool, true, false, Option, none, List, []}

pub record ErrorDetail : Type 0 where
  pub location : String
  pub issue_code : String

pub record IntakeError : Type 0 where
  pub status_code : ℕ
  pub code : String
  pub message : String
  pub retryable : Bool
  pub details : List ErrorDetail
  pub delivery_id : Option ℕ
  pub current_versions : List (String × ℕ)

-- `IntakeError(status, code, message)`
abbrev pub intake_error : ℕ → String → String → IntakeError
intake_error status code message = record {
  status_code = status;
  code = code;
  message = message;
  retryable = false;
  details = [];
  delivery_id = none;
  current_versions = [];
}

-- `operational`, `integrity` and `database` are SQLAlchemy's `OperationalError`, `IntegrityError`
-- and any other `SQLAlchemyError`; `unexpected` is an exception of code that was passed in.
pub data Exc : Type 0 where
  intake : IntakeError → Exc
  operational integrity database runtime value unexpected : Exc

pub data Result (A : Type 0) : Type 0 where
  ok : A → Result A
  err : Exc → Result A

abbrev pub and_then : {A B : Type 0} → Result A → (A → Result B) → Result B
and_then (ok a) f = f a
and_then (err e) f = err e

abbrev pub dependency_unavailable : IntakeError
dependency_unavailable =
    let e : IntakeError =
      intake_error 503 "DEPENDENCY_UNAVAILABLE" "A required dependency is unavailable." in
    record e { retryable = true }

abbrev pub internal_error : IntakeError
internal_error = intake_error 500 "INTERNAL_ERROR" "The request could not be completed safely."

-- The `except` clauses that end `execute` and `verify`.
abbrev pub as_intake : Exc → IntakeError
as_intake (intake e) = e
as_intake operational = dependency_unavailable
as_intake integrity = internal_error
as_intake database = internal_error
as_intake runtime = internal_error
as_intake value = internal_error
as_intake unexpected = internal_error
