-- ===== src/Models/Execution.antt =====
-- db/models/ai_execution.py: logical operations, integration attempts, callback credentials. The
-- CHECK constraints are tests on a row, the unique constraints tests on a row beside the others.
use ai_oas.Base.{
  ℕ, String, Text, Bool, true, false, Option, none, some, [], ◌∷◌, ◌&&◌, ◌||◌, not, ltb, leb, ◌==◌,
  str_eq, text_eq, is_none, is_some, length, all_of, any_of, codes,
}

-- `char_length(trim(s)) > 0`
unfoldable pub not_blank : String → Bool
not_blank s = any_of (λ c. not (c == 32)) (codes s)

abbrev hex_digit : ℕ → Bool
hex_digit c = leb b'0' c && leb c b'9' || leb b'a' c && leb c b'f'

-- `^[0-9a-f]{64}$`
unfoldable pub hash_valid : Text → Bool
hash_valid t = length t == 64 && all_of hex_digit t

abbrev pub ai_interpretation : String
ai_interpretation = "AIInterpretation"

pub record LogicalOperation : Type 0 where
  pub id : ℕ
  pub service_request_id : ℕ
  pub operation_kind : String
  pub input_hash : Text
  pub configuration_hash : Text
  pub prompt_version : String
  pub result_schema_version : String
  pub provider_name : String
  pub model_name : String
  pub adapter_name : String
  pub adapter_version : String
  pub version : ℕ
  pub succeeded_attempt_id : Option ℕ

unfoldable pub LogicalOperation_checks : LogicalOperation → Bool
LogicalOperation_checks o =
    str_eq o.operation_kind ai_interpretation
    && hash_valid o.input_hash
    && hash_valid o.configuration_hash
    && ltb 0 o.version
    && not_blank o.prompt_version
    && not_blank o.result_schema_version
    && not_blank o.provider_name
    && not_blank o.model_name
    && not_blank o.adapter_name
    && not_blank o.adapter_version

-- uq_logical_operations_ai_identity
unfoldable pub same_identity : LogicalOperation → LogicalOperation → Bool
same_identity a b =
    a.service_request_id == b.service_request_id
    && text_eq a.input_hash b.input_hash
    && text_eq a.configuration_hash b.configuration_hash

pub data AttemptState : Type 0 where
  pending running succeeded retryable_failure terminal_failure : AttemptState

abbrev pub is_pending : AttemptState → Bool
is_pending pending = true
is_pending _ = false

abbrev pub is_running : AttemptState → Bool
is_running running = true
is_running _ = false

abbrev pub is_succeeded : AttemptState → Bool
is_succeeded succeeded = true
is_succeeded _ = false

-- `state in ("Pending", "Running")`
abbrev pub is_active : AttemptState → Bool
is_active pending = true
is_active running = true
is_active _ = false

-- `state in ("RetryableFailure", "TerminalFailure")`
abbrev pub is_failed : AttemptState → Bool
is_failed retryable_failure = true
is_failed terminal_failure = true
is_failed _ = false

pub record IntegrationAttempt : Type 0 where
  pub id : ℕ
  pub logical_operation_id : ℕ
  pub service_request_id : ℕ
  pub operation_kind : String
  pub attempt_number : ℕ
  pub state : AttemptState
  pub version : ℕ
  pub adapter_name : String
  pub adapter_version : String
  pub assigned_workflow_service : String
  pub workflow_environment : String
  pub callback_authorization_deadline : ℕ
  pub created_at : ℕ
  pub started_at : Option ℕ
  pub completed_at : Option ℕ
  pub result_hash : Option Text
  pub sanitized_error_code : Option Text

abbrev upper : ℕ → Bool
upper c = leb b'A' c && leb c b'Z'

abbrev error_code_char : ℕ → Bool
error_code_char c = upper c || leb b'0' c && leb c b'9' || c == b'_'

-- `^[A-Z][A-Z0-9_]{0,99}$`
unfoldable pub error_code_valid : Text → Bool
error_code_valid [] = false
error_code_valid (c ∷ t) = upper c && all_of error_code_char t && leb (length t) 99

-- `x IS NULL OR p(x)`
abbrev null_or {ℓ} : {A : Type ℓ} → (A → Bool) → Option A → Bool
null_or p none = true
null_or p (some a) = p a

-- state_fields_consistent
unfoldable pub attempt_state_fields :
    AttemptState → Option ℕ → Option ℕ → Option Text → Option Text → Bool
attempt_state_fields pending started completed result error =
    is_none started && is_none completed && is_none result && is_none error
attempt_state_fields running started completed result error =
    is_some started && is_none completed && is_none result && is_none error
attempt_state_fields succeeded started completed result error =
    is_some started && is_some completed && is_some result && is_none error
attempt_state_fields _ started completed result error =
    is_some completed && is_none result && is_some error

unfoldable pub IntegrationAttempt_checks : IntegrationAttempt → Bool
IntegrationAttempt_checks a =
    str_eq a.operation_kind ai_interpretation
    && leb 1 a.attempt_number
    && leb a.attempt_number 3
    && ltb 0 a.version
    && ltb a.created_at a.callback_authorization_deadline
    && null_or hash_valid a.result_hash
    && null_or error_code_valid a.sanitized_error_code
    && attempt_state_fields a.state a.started_at a.completed_at a.result_hash a.sanitized_error_code
    && not_blank a.adapter_name
    && not_blank a.adapter_version
    && not_blank a.assigned_workflow_service
    && not_blank a.workflow_environment

-- uq_integration_attempts_operation_attempt, uq_integration_attempts_one_active and
-- uq_integration_attempts_one_succeeded
unfoldable pub attempts_clash : IntegrationAttempt → IntegrationAttempt → Bool
attempts_clash a b =
    a.logical_operation_id == b.logical_operation_id
    && (a.attempt_number == b.attempt_number
        || is_active a.state && is_active b.state
        || is_succeeded a.state && is_succeeded b.state)

pub data CredentialState : Type 0 where
  active consumed replaced revoked : CredentialState

abbrev pub is_active_credential : CredentialState → Bool
is_active_credential active = true
is_active_credential _ = false

pub record AttemptCallbackCredential : Type 0 where
  pub id : ℕ
  pub integration_attempt_id : ℕ
  pub operation_kind : String
  pub workflow_service_identity : String
  pub workflow_environment : String
  pub credential_version : ℕ
  pub credential_hash : Text
  pub state : CredentialState
  pub issued_at : ℕ
  pub expires_at : ℕ
  pub consumed_at : Option ℕ
  pub replaced_at : Option ℕ
  pub revoked_at : Option ℕ
  pub replacement_credential_id : Option ℕ

-- state_fields_consistent
unfoldable pub credential_state_fields :
    CredentialState → Option ℕ → Option ℕ → Option ℕ → Option ℕ → Bool
credential_state_fields active consumed_at replaced_at revoked_at replacement =
    is_none consumed_at && is_none replaced_at && is_none revoked_at && is_none replacement
credential_state_fields consumed consumed_at replaced_at revoked_at replacement =
    is_some consumed_at && is_none replaced_at && is_none revoked_at && is_none replacement
credential_state_fields replaced consumed_at replaced_at revoked_at replacement =
    is_none consumed_at && is_some replaced_at && is_none revoked_at && is_some replacement
credential_state_fields revoked consumed_at replaced_at revoked_at replacement =
    is_none consumed_at && is_none replaced_at && is_some revoked_at && is_none replacement

abbrev is_not : Option ℕ → ℕ → Bool
is_not none n = true
is_not (some m) n = not (m == n)

unfoldable pub AttemptCallbackCredential_checks : AttemptCallbackCredential → Bool
AttemptCallbackCredential_checks c =
    str_eq c.operation_kind ai_interpretation
    && ltb 0 c.credential_version
    && hash_valid c.credential_hash
    && ltb c.issued_at c.expires_at
    && not_blank c.workflow_service_identity
    && not_blank c.workflow_environment
    && is_not c.replacement_credential_id c.id
    && credential_state_fields c.state c.consumed_at c.replaced_at c.revoked_at
        c.replacement_credential_id

-- uq_attempt_callback_credentials_attempt_credential_version, ..._credential_hash and
-- ..._one_active
unfoldable pub credentials_clash : AttemptCallbackCredential → AttemptCallbackCredential → Bool
credentials_clash a b =
    a.integration_attempt_id == b.integration_attempt_id
      && (a.credential_version == b.credential_version
          || is_active_credential a.state && is_active_credential b.state)
    || text_eq a.credential_hash b.credential_hash
