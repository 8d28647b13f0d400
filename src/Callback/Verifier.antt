-- ===== src/Callback/Verifier.antt =====
-- attempt_callback_auth/verifier.py and the context of models.py: whether a callback is authorized,
-- inside a transaction of the caller.
use ai_oas.Base.{
  ℕ, String, Text, Bool, false, Option, none, some, List, [], ◌∷◌, ◌&&◌, ◌||◌, not, ltb, leb, ◌==◌,
  str_eq, text_eq, is_none, is_some, length, select, all_of, maximum, find_first, if◌then◌else◌,
}
use ai_oas.Errors.{
  Exc, intake, runtime, unexpected, Result, ok, err, and_then, intake_error, internal_error,
}
use ai_oas.Platform.{Platform}
use ai_oas.Models.{
  ServiceRequest, LogicalOperation, IntegrationAttempt, AttemptCallbackCredential, is_running,
  is_active, is_succeeded, is_active_credential,
}
use ai_oas.Session.{
  Session, Transaction, Tx, pure, gets, lift, ◌>>=◌, ◌>>◌, raise_if, rethrow, query, func_now,
}
use ai_oas.Identity.{AuthenticatedWorkflowService}
use ai_oas.Outcome.{safe_exception}
use ai_oas.StartAi.Service.{aware_time}
use ai_oas.StartAi.Guard.{nonempty}
use ai_oas.Callback.Headers.{callback_forbidden, is_ascii}
use ai_oas.Callback.History.{versions_of, versions_broken, valid_history}

-- `_session` and `_transaction` are kept by their identity.
pub record VerifiedAttemptCallbackContext : Type 0 where
  pub machine_identity_id : ℕ
  pub stable_service_id : String
  pub workflow_environment : String
  pub integration_attempt_id : ℕ
  pub integration_attempt_version : ℕ
  pub logical_operation_id : ℕ
  pub service_request_id : ℕ
  pub operation_kind : String
  pub callback_credential_id : ℕ
  pub callback_credential_version : ℕ
  pub callback_credential_expires_at : ℕ
  pub session : ℕ
  pub transaction : ℕ

-- `credential_hash` compared with the digest of a credential, which must be ASCII to have one
unfoldable pub matching_callback_credentials :
    Platform → List AttemptCallbackCredential → Text → Result (List AttemptCallbackCredential)
unfolding is_ascii
matching_callback_credentials p credentials supplied =
    if is_ascii supplied
    then ok
        (select (λ c. text_eq c.credential_hash (p.sha256 (p.encode_ascii supplied))) credentials)
    else err unexpected

abbrev attempt_not_found : Exc
attempt_not_found =
    intake (intake_error 404 "ATTEMPT_NOT_FOUND" "The requested attempt was not found.")

abbrev pub assigned_to : AuthenticatedWorkflowService → IntegrationAttempt → Bool
assigned_to machine attempt =
    str_eq attempt.assigned_workflow_service machine.stable_service_id
    && str_eq attempt.workflow_environment machine.environment

abbrev pub required : {A : Type 0} → Option A → Result A
required none = err runtime
required (some a) = ok a

unfoldable pub admitted_attempt :
    AuthenticatedWorkflowService → Option IntegrationAttempt → Result IntegrationAttempt
admitted_attempt machine none = err attempt_not_found
admitted_attempt machine (some attempt) =
    if assigned_to machine attempt then ok attempt else err attempt_not_found

abbrev contradicts : IntegrationAttempt → IntegrationAttempt → Bool
contradicts attempt row =
    not (row.id == attempt.id) && (is_active row.state || is_succeeded row.state)

-- `_validate_graph` does not raise
unfoldable pub graph_consistent :
    IntegrationAttempt → LogicalOperation → ServiceRequest → List IntegrationAttempt → String → Bool
graph_consistent attempt operation service_request siblings kind =
    str_eq attempt.operation_kind kind
    && str_eq operation.operation_kind kind
    && str_eq attempt.operation_kind operation.operation_kind
    && str_eq attempt.adapter_name operation.adapter_name
    && str_eq attempt.adapter_version operation.adapter_version
    && operation.service_request_id == service_request.id
    && operation.service_request_id == attempt.service_request_id
    && length (select (λ a. a.id == attempt.id) siblings) == 1
    && not (nonempty (select (contradicts attempt) siblings))
    && is_none operation.succeeded_attempt_id

unfoldable pub running_fields : IntegrationAttempt → Bool
running_fields attempt =
    ltb 0 attempt.version
    && is_some attempt.started_at
    && is_none attempt.completed_at
    && is_none attempt.result_hash
    && is_none attempt.sanitized_error_code

unfoldable pub scope_consistent :
    AuthenticatedWorkflowService → IntegrationAttempt → String → AttemptCallbackCredential → Bool
scope_consistent machine attempt kind current =
    current.integration_attempt_id == attempt.id
    && str_eq current.operation_kind kind
    && str_eq current.workflow_service_identity attempt.assigned_workflow_service
    && str_eq current.workflow_environment attempt.workflow_environment
    && str_eq current.workflow_service_identity machine.stable_service_id
    && str_eq current.workflow_environment machine.environment
    && current.expires_at == attempt.callback_authorization_deadline
    && is_none current.consumed_at
    && is_none current.replaced_at
    && is_none current.revoked_at
    && is_none current.replacement_credential_id

unfoldable pub history_consistent :
    IntegrationAttempt
    → String
    → List AttemptCallbackCredential
    → ℕ
    → AttemptCallbackCredential
    → AttemptCallbackCredential
    → Bool
unfolding valid_history
history_consistent attempt kind rows now current h =
    h.id == current.id
    || valid_history rows h
      && str_eq h.operation_kind kind
      && str_eq h.workflow_service_identity attempt.assigned_workflow_service
      && str_eq h.workflow_environment attempt.workflow_environment
      && h.expires_at == attempt.callback_authorization_deadline
      && leb h.issued_at now

-- the single active credential
unfoldable pub single_active : List AttemptCallbackCredential → Result AttemptCallbackCredential
single_active [] = err (intake callback_forbidden)
single_active (c ∷ []) = ok c
single_active (c ∷ _ ∷ _) = err runtime

-- `len(matches) != 1 or matches[0].id != current.id` does not hold
unfoldable pub only_match : AttemptCallbackCredential → List AttemptCallbackCredential → Bool
only_match current (m ∷ []) = m.id == current.id
only_match current _ = false

module _ (machine : AuthenticatedWorkflowService) (attempt : IntegrationAttempt)
    (operation : LogicalOperation) (service_request : ServiceRequest) where
  abbrev pub context : ℕ → ℕ → AttemptCallbackCredential → VerifiedAttemptCallbackContext
  context session transaction current = record {
    machine_identity_id = machine.machine_identity_id;
    stable_service_id = machine.stable_service_id;
    workflow_environment = machine.environment;
    integration_attempt_id = attempt.id;
    integration_attempt_version = attempt.version;
    logical_operation_id = operation.id;
    service_request_id = service_request.id;
    operation_kind = "AIInterpretation";
    callback_credential_id = current.id;
    callback_credential_version = current.credential_version;
    callback_credential_expires_at = current.expires_at;
    session = session;
    transaction = transaction;
  }

  -- the last test, of the supplied credential against every row
  unfoldable pub matched :
      Platform
      → Text
      → ℕ
      → ℕ
      → List AttemptCallbackCredential
      → AttemptCallbackCredential
      → Tx VerifiedAttemptCallbackContext
  matched p supplied session transaction credentials current = do
    matches ← lift (matching_callback_credentials p credentials supplied)
    raise_if (not (only_match current matches)) (intake callback_forbidden)
    pure (context session transaction current)

module _ (machine : AuthenticatedWorkflowService) (kind : String)
    (attempt : IntegrationAttempt) where
  -- from the versions to the comparison with the supplied credential
  unfoldable pub judge_current :
      List AttemptCallbackCredential
      → ℕ
      → AttemptCallbackCredential
      → Result AttemptCallbackCredential
  unfolding versions_broken scope_consistent history_consistent
  judge_current credentials now current =
      let versions = versions_of credentials in
      if versions_broken versions
      then err runtime
      else if not (current.credential_version == maximum versions)
      then err runtime
      else if not (scope_consistent machine attempt kind current)
      then err runtime
      else if not (leb current.issued_at now) || leb current.expires_at now
      then err (intake callback_forbidden)
      else if not (all_of (history_consistent attempt kind credentials now current) credentials)
      then err runtime
      else ok current

  -- what `_verify_in_transaction` decides once the rows and the time are read
  unfoldable pub judge :
      LogicalOperation
      → ServiceRequest
      → List IntegrationAttempt
      → List AttemptCallbackCredential
      → ℕ
      → Result AttemptCallbackCredential
  unfolding graph_consistent running_fields single_active judge_current
  judge operation service_request siblings credentials now =
      if not (graph_consistent attempt operation service_request siblings kind)
      then err runtime
      else if not (is_running attempt.state)
      then err (intake callback_forbidden)
      else if not (running_fields attempt)
      then err runtime
      else and_then (single_active (select (λ c. is_active_credential c.state) credentials))
          (judge_current credentials now)

-- `_verify_in_transaction`
unfoldable pub verify_in_transaction :
    Platform
    → AuthenticatedWorkflowService
    → ℕ
    → Text
    → String
    → ℕ
    → Tx VerifiedAttemptCallbackContext
verify_in_transaction p machine attempt_id supplied kind transaction = do
  found ← query (λ d. find_first (λ a. a.id == attempt_id) d.integration_attempts)
  attempt ← lift (admitted_attempt machine found)
  frozen ← query (λ d. find_first (λ o. o.id == attempt.logical_operation_id) d.logical_operations)
  operation ← lift (required frozen)
  owner ← query (λ d. find_first (λ r. r.id == attempt.service_request_id) d.service_requests)
  service_request ← lift (required owner)
  siblings ←
      query (λ d. select (λ a. a.logical_operation_id == operation.id) d.integration_attempts)
  credentials ←
      query (λ d. select (λ c. c.integration_attempt_id == attempt.id) d.callback_credentials)
  clock ← func_now
  now ← lift (aware_time clock)
  current ← lift (judge machine kind attempt operation service_request siblings credentials now)
  session ← gets (λ s. s.identity)
  matched machine attempt operation service_request p supplied session transaction credentials
      current

bound_transaction : Option Transaction → Result ℕ
bound_transaction none = err (intake internal_error)
bound_transaction (some t) =
    if t.origin_begin && t.is_active then ok t.number else err (intake internal_error)

-- `verify`
unfoldable pub verify :
    Platform → AuthenticatedWorkflowService → ℕ → Text → String → Tx VerifiedAttemptCallbackContext
unfolding bound_transaction
verify p machine attempt_id supplied kind = do
  outer ← gets (λ s. s.transaction)
  transaction ← lift (bound_transaction outer)
  rethrow safe_exception (verify_in_transaction p machine attempt_id supplied kind transaction)

-- `assert_transaction_bound`; the transaction of the context is active if it is the session's.
unfoldable pub assert_transaction_bound :
    VerifiedAttemptCallbackContext → Session → Result (Unit {0})
assert_transaction_bound context s = bound s.transaction
  where
    bound : Option Transaction → Result (Unit {0})
    bound none = err runtime
    bound (some t) =
        if s.identity == context.session && t.number == context.transaction && t.is_active
        then ok tt
        else err runtime
