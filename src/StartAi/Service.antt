-- ===== src/StartAi/Service.antt =====
-- start_ai/service.py: `StartAiInterpretationService`.
use ai_oas.Base.{
  ℕ, String, Text, false, Option, none, some, [], ◌∷◌, ◌&&◌, not, ◌==◌, ◌+◌, text_eq, find_first,
  select, if◌then◌else◌,
}
use ai_oas.Errors.{intake, runtime, value, Result, ok, err, dependency_unavailable}
use ai_oas.Platform.{Platform}
use ai_oas.Models.{
  ServiceRequest, LogicalOperation, CommandIdempotencyScope, CommandIdempotencyScope_valid,
  is_triage_pending,
}
use ai_oas.Session.{
  Tx, pure, raise, lift, ◌>>=◌, ◌>>◌, raise_if, rethrow, query, func_now, uuid4, in_transaction,
}
use ai_oas.Rows.{
  update_request, insert_operation, insert_attempt, insert_credential, insert_audit, insert_outbox,
}
use ai_oas.Identity.{AuthenticatedWorkflowService, Settings, seconds}
use ai_oas.Idempotency.Service.{
  NewCommandReservation, Resolution, new_reservation, completed_replay, reserve,
}
use ai_oas.Idempotency.Completion.{complete}
use ai_oas.Outcome.{CommandOutcome, fresh_outcome, complete_guard, replay_outcome, safe_exception}
use ai_oas.StartAi.Hashing.{ai_input_hash, ai_configuration_hash}
use ai_oas.StartAi.Guard.{existing_operation_guard, opaque_credential}
use ai_oas.StartAi.Rows.{
  new_operation, new_attempt, new_credential, request_audit, attempt_audit, attempt_outbox,
  started_snapshot,
}

-- what calling the credential generator does
pub data Generated : Type 0 where
  raised not_text : Generated
  text : Text → Generated

abbrev pub route_template : String
route_template = "/api/v1/service-requests/{request_id}/commands/start-ai-interpretation"

abbrev pub command_scope : AuthenticatedWorkflowService → ℕ → CommandIdempotencyScope
command_scope machine request_id = record {
  actor_class = "MachineService";
  actor_id = machine.machine_identity_id;
  command_intent = "StartAiInterpretation";
  route_template = route_template;
  target_type = "ServiceRequest";
  target_id = request_id;
}

-- `OPAQUE_CREDENTIAL.fullmatch(plaintext)`, a failure being a missing dependency
unfoldable pub usable_credential : Generated → Result Text
usable_credential raised = err (intake dependency_unavailable)
usable_credential not_text = err (intake dependency_unavailable)
usable_credential (text t) =
    if opaque_credential t then ok t else err (intake dependency_unavailable)

abbrev pub aware_time : Option ℕ → Result ℕ
aware_time none = err runtime
aware_time (some t) = ok t

-- the tuple that `_execute_new` returns
abbrev pub Executed : Type 0
Executed = CommandOutcome × Option Text

abbrev pub without_plaintext : Tx CommandOutcome → Tx Executed
without_plaintext m = do outcome ← m; pure (outcome, none)

module _ (p : Platform) (settings : Settings) (machine : AuthenticatedWorkflowService)
    (generated : Generated) (reservation : NewCommandReservation) (request_id : ℕ)
    (correlation_id : ℕ) where
  -- from the audit events to the end of `_execute_new`
  unfoldable pub record_evidence : ℕ → ℕ → ℕ → ℕ → ℕ → Text → Tx Executed
  record_evidence request_version operation_id attempt_id credential_id deadline plaintext = do
    request_audit_id ← uuid4 p
    attempt_audit_id ← uuid4 p
    insert_audit (
        request_audit p settings machine reservation request_audit_id request_id request_version
          operation_id attempt_id correlation_id)
    insert_audit (
        attempt_audit p settings machine reservation attempt_audit_id request_id request_version
          operation_id attempt_id correlation_id)
    outbox_id ← uuid4 p
    insert_outbox (
        attempt_outbox p settings machine reservation outbox_id attempt_audit_id request_id
          operation_id attempt_id correlation_id)
    completed ←
        complete p reservation 202
          (started_snapshot p request_id request_version operation_id attempt_id credential_id
            deadline)
          (some (record {
            callback_credential_id = credential_id;
            callback_credential_version = 1;
            callback_credential_expires_at = deadline;
          }))
          none
    pure (fresh_outcome 202 completed, some plaintext)

  -- the version of the request, the operation, the attempt and the credential
  unfoldable pub open_operation : ServiceRequest → Text → Text → Tx Executed
  open_operation service_request input_digest configuration_digest = do
    clock ← func_now
    database_now ← lift (aware_time clock)
    let deadline = database_now + seconds settings.ai_callback_authorization_seconds
    plaintext ← lift (usable_credential generated)
    operation_id ← uuid4 p
    attempt_id ← uuid4 p
    credential_id ← uuid4 p
    let request_version = service_request.version + 1
    update_request (record service_request { version = request_version })
    insert_operation
        (new_operation p settings machine operation_id request_id input_digest configuration_digest)
    insert_attempt
        (new_attempt p settings machine attempt_id operation_id request_id deadline database_now)
    insert_credential
        (new_credential p settings machine credential_id attempt_id plaintext deadline database_now)
    record_evidence request_version operation_id attempt_id credential_id deadline plaintext

  unfoldable pub refuse_existing : Option (String × String) → Tx Executed
  refuse_existing none = raise runtime
  refuse_existing (some (code, message)) =
      without_plaintext (complete_guard p reservation 409 code message [])

  -- the operation of the same request, input and configuration
  unfoldable pub with_operation :
      ServiceRequest → Text → Text → Option LogicalOperation → Tx Executed
  with_operation service_request input_digest configuration_digest (some operation) = do
    attempts ←
        query (λ d. select (λ a. a.logical_operation_id == operation.id) d.integration_attempts)
    refuse_existing (existing_operation_guard operation attempts)
  with_operation service_request input_digest configuration_digest none =
      open_operation service_request input_digest configuration_digest

  unfoldable pub admitted_request : ServiceRequest → Tx Executed
  admitted_request service_request = do
    let input_digest = ai_input_hash p service_request
    let configuration_digest = ai_configuration_hash p settings
    operation ← query (λ d.
        find_first
          (λ o.
            o.service_request_id == request_id
            && text_eq o.input_hash input_digest
            && text_eq o.configuration_hash configuration_digest)
          d.logical_operations)
    with_operation service_request input_digest configuration_digest operation

  unfoldable pub with_request : ℕ → Option ServiceRequest → Tx Executed
  with_request expected_request_version none = without_plaintext (
      complete_guard p reservation 404 "RESOURCE_NOT_FOUND" "The requested resource was not found."
        [])
  with_request expected_request_version (some service_request) =
      if not (service_request.version == expected_request_version)
      then without_plaintext (
          complete_guard p reservation 409 "CONCURRENCY_CONFLICT"
            "The resource version does not match the current version."
            (("service_request", service_request.version) ∷ []))
      else if not (is_triage_pending service_request.status)
      then without_plaintext (
          complete_guard p reservation 409 "INVALID_STATE_TRANSITION"
            "The command is not valid for the current resource state." [])
      else admitted_request service_request

  -- `_execute_new`
  unfoldable pub execute_new : ℕ → Tx Executed
  execute_new expected_request_version = do
    found ← query (λ d. find_first (λ r. r.id == request_id) d.service_requests)
    with_request expected_request_version found

-- `isinstance(resolution, CompletedCommandReplay)`
unfoldable pub resolve :
    Platform
    → Settings
    → AuthenticatedWorkflowService
    → Generated
    → ℕ
    → ℕ
    → ℕ
    → Resolution
    → Tx Executed
resolve p settings machine generated request_id expected correlation_id (completed_replay c) =
    pure (replay_outcome c, none)
resolve p settings machine generated request_id expected correlation_id (new_reservation r) =
    execute_new p settings machine generated r request_id correlation_id expected

abbrev pub with_plaintext : Executed → CommandOutcome
with_plaintext (outcome, none) = outcome
with_plaintext (outcome, some plaintext) = record outcome {
  is_replay = false;
  callback_plaintext = some plaintext;
}

unfoldable pub transaction_body :
    Platform
    → Settings
    → AuthenticatedWorkflowService
    → Generated
    → ℕ
    → ℕ
    → Text
    → Text
    → ℕ
    → Tx Executed
transaction_body p settings machine generated request_id expected raw_key body_hash correlation_id =
    do
      raise_if (not (CommandIdempotencyScope_valid (command_scope machine request_id))) value
      resolution ← reserve p (command_scope machine request_id) raw_key body_hash correlation_id
      resolve p settings machine generated request_id expected correlation_id resolution

unfoldable pub execute :
    Platform
    → Settings
    → AuthenticatedWorkflowService
    → Generated
    → ℕ
    → ℕ
    → Text
    → Text
    → ℕ
    → Tx CommandOutcome
execute p settings machine generated request_id expected raw_key body_hash correlation_id =
    rethrow safe_exception do
      executed ← in_transaction (
          transaction_body p settings machine generated request_id expected raw_key body_hash
            correlation_id)
      pure (with_plaintext executed)
