-- ===== src/AttemptStart/Service.antt =====
-- attempt_start/service.py: `AttemptStartService`.
use ai_oas.Base.{
  ℕ, String, Text, Option, none, some, [], ◌∷◌, not, ◌==◌, find_first, select, if◌then◌else◌,
}
use ai_oas.Errors.{runtime, value}
use ai_oas.Platform.{Platform}
use ai_oas.Models.{IntegrationAttempt, CommandIdempotencyScope, CommandIdempotencyScope_valid}
use ai_oas.Session.{
  Tx, pure, raise, lift, ◌>>=◌, ◌>>◌, raise_if, rethrow, query, func_now, uuid4, in_transaction,
}
use ai_oas.Rows.{update_attempt, insert_audit, insert_outbox}
use ai_oas.Identity.{AuthenticatedWorkflowService}
use ai_oas.Idempotency.Service.{
  NewCommandReservation, Resolution, new_reservation, completed_replay, reserve,
}
use ai_oas.Idempotency.Completion.{complete}
use ai_oas.Outcome.{CommandOutcome, fresh_outcome, complete_guard, replay_outcome, safe_exception}
use ai_oas.StartAi.Service.{aware_time}
use ai_oas.Callback.Verifier.{assigned_to, required}
use ai_oas.AttemptStart.Rows.{claimed, claim_audit, claim_outbox, claim_snapshot}
use ai_oas.AttemptStart.Verdict.{Verdict, refused, inconsistent, eligible, verdict}

abbrev route_template : String
route_template = "/api/v1/integration-attempts/{attempt_id}/commands/start"

abbrev pub command_scope : AuthenticatedWorkflowService → ℕ → CommandIdempotencyScope
command_scope machine attempt_id = record {
  actor_class = "MachineService";
  actor_id = machine.machine_identity_id;
  command_intent = "StartIntegrationAttempt";
  route_template = route_template;
  target_type = "IntegrationAttempt";
  target_id = attempt_id;
}

module _ (p : Platform) (machine : AuthenticatedWorkflowService)
    (reservation : NewCommandReservation) (attempt_id : ℕ) (correlation_id : ℕ) where
  -- the audit event, the outbox message and the completion
  unfoldable pub record_claim : IntegrationAttempt → ℕ → ℕ → ℕ → Tx CommandOutcome
  record_claim attempt request_id operation_id database_now = do
    audit_id ← uuid4 p
    insert_audit
        (claim_audit p reservation attempt request_id operation_id correlation_id machine audit_id)
    outbox_id ← uuid4 p
    insert_outbox (
        claim_outbox p reservation attempt request_id operation_id correlation_id outbox_id
          audit_id)
    completed ←
        complete p reservation 200 (claim_snapshot p attempt request_id operation_id database_now)
          none none
    pure (fresh_outcome 200 completed)

  unfoldable pub claim : IntegrationAttempt → ℕ → ℕ → ℕ → ℕ → Tx CommandOutcome
  claim attempt expected_attempt_version request_id operation_id database_now = do
    update_attempt (claimed attempt expected_attempt_version database_now)
    record_claim (claimed attempt expected_attempt_version database_now) request_id operation_id
        database_now

  unfoldable pub follow : IntegrationAttempt → ℕ → ℕ → ℕ → ℕ → Verdict → Tx CommandOutcome
  follow attempt expected request_id operation_id database_now (refused code message) =
      complete_guard p reservation 409 code message []
  follow attempt expected request_id operation_id database_now inconsistent = raise runtime
  follow attempt expected request_id operation_id database_now (eligible credential) =
      claim attempt expected request_id operation_id database_now

  -- the rows of the attempt, in the order of the locks, and the verdict on them
  unfoldable pub load : IntegrationAttempt → ℕ → Tx CommandOutcome
  load attempt expected = do
    found ← query (λ d. find_first (λ o. o.id == attempt.logical_operation_id) d.logical_operations)
    operation ← lift (required found)
    owner ← query (λ d. find_first (λ r. r.id == attempt.service_request_id) d.service_requests)
    service_request ← lift (required owner)
    siblings ←
        query (λ d. select (λ a. a.logical_operation_id == operation.id) d.integration_attempts)
    rows ← query (λ d. select (λ c. c.integration_attempt_id == attempt.id) d.callback_credentials)
    clock ← func_now
    database_now ← lift (aware_time clock)
    follow attempt expected service_request.id operation.id database_now
        (verdict machine attempt rows database_now p operation service_request siblings)

  unfoldable pub with_attempt : ℕ → Option IntegrationAttempt → Tx CommandOutcome
  with_attempt expected none =
      complete_guard p reservation 404 "ATTEMPT_NOT_FOUND" "The requested attempt was not found." []
  with_attempt expected (some attempt) =
      if not (assigned_to machine attempt)
      then complete_guard p reservation 404 "ATTEMPT_NOT_FOUND"
          "The requested attempt was not found." []
      else if not (attempt.version == expected)
      then complete_guard p reservation 409 "CONCURRENCY_CONFLICT"
          "The resource version does not match the current version."
          (("integration_attempt", attempt.version) ∷ [])
      else load attempt expected

  -- `_execute_new`
  unfoldable pub execute_new : ℕ → Tx CommandOutcome
  execute_new expected = do
    found ← query (λ d. find_first (λ a. a.id == attempt_id) d.integration_attempts)
    with_attempt expected found

unfoldable pub resolve :
    Platform → AuthenticatedWorkflowService → ℕ → ℕ → ℕ → Resolution → Tx CommandOutcome
resolve p machine attempt_id expected correlation_id (completed_replay c) = pure (replay_outcome c)
resolve p machine attempt_id expected correlation_id (new_reservation r) =
    execute_new p machine r attempt_id correlation_id expected

unfoldable pub transaction_body :
    Platform → AuthenticatedWorkflowService → ℕ → ℕ → Text → Text → ℕ → Tx CommandOutcome
transaction_body p machine attempt_id expected raw_key body_hash correlation_id = do
  raise_if (not (CommandIdempotencyScope_valid (command_scope machine attempt_id))) value
  resolution ← reserve p (command_scope machine attempt_id) raw_key body_hash correlation_id
  resolve p machine attempt_id expected correlation_id resolution

unfoldable pub execute :
    Platform → AuthenticatedWorkflowService → ℕ → ℕ → Text → Text → ℕ → Tx CommandOutcome
execute p machine attempt_id expected raw_key body_hash correlation_id = rethrow safe_exception do
  outcome ←
      in_transaction
        (transaction_body p machine attempt_id expected raw_key body_hash correlation_id)
  pure outcome
