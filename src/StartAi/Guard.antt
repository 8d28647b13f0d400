-- ===== src/StartAi/Guard.antt =====
-- start_ai/service.py: `_existing_operation_guard`, over the attempts of the operation, and the
-- test of a generated credential.
use ai_oas.Base.{
  ℕ, String, Text, Bool, Option, none, some, List, [], ◌∷◌, ◌&&◌, ◌||◌, not, leb, ◌==◌, is_just,
  is_some, length, select, any_of, all_of, if◌then◌else◌,
}
use ai_oas.Models.{LogicalOperation, IntegrationAttempt, is_succeeded, is_active, is_failed}

-- `bool(rows)`
abbrev pub nonempty {ℓ} : {A : Type ℓ} → List A → Bool
nonempty [] = Bool.false
nonempty (x ∷ xs) = Bool.true

abbrev pub names_success : Option ℕ → IntegrationAttempt → Bool
names_success id attempt = is_just id attempt.id && is_succeeded attempt.state

abbrev pub active_attempt_exists : String × String
active_attempt_exists =
    ("ACTIVE_ATTEMPT_EXISTS", "An active attempt already exists for this operation.")

abbrev pub already_succeeded : String × String
already_succeeded =
    ("LOGICAL_OPERATION_ALREADY_SUCCEEDED", "The logical operation has already succeeded.")

abbrev pub retry_not_allowed : String × String
retry_not_allowed = ("RETRY_NOT_ALLOWED", "A separate retry command is required.")

unfoldable pub existing_operation_guard :
    LogicalOperation → List IntegrationAttempt → Option (String × String)
existing_operation_guard operation attempts =
    let succeeded = select (λ a. is_succeeded a.state) attempts in
    let active = select (λ a. is_active a.state) attempts in
    if not (nonempty attempts)
    then none
    else if is_some operation.succeeded_attempt_id
        && not (any_of (names_success operation.succeeded_attempt_id) attempts)
    then none
    else if nonempty succeeded && nonempty active
    then none
    else if nonempty active
    then some active_attempt_exists
    else if is_some operation.succeeded_attempt_id || nonempty succeeded
    then some already_succeeded
    else if all_of (λ a. is_failed a.state) attempts
    then some retry_not_allowed
    else none

abbrev credential_char : ℕ → Bool
credential_char c =
    leb b'A' c && leb c b'Z'
    || leb b'a' c && leb c b'z'
    || leb b'0' c && leb c b'9'
    || c == b'_'
    || c == b'-'

-- `^[A-Za-z0-9_-]{43,256}$`
unfoldable pub opaque_credential : Text → Bool
opaque_credential t = leb 43 (length t) && leb (length t) 256 && all_of credential_char t
