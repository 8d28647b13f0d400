-- ===== src/Tests/AttemptStart.antt =====
-- Starting the attempt that an interpretation opened, and its theorems there.
use ai_oas.Session.Reason.{Ends}
use ai_oas.Session.Statements.{On}
use ai_oas.Idempotency.Service.{NewCommandReservation}
use ai_oas.AttemptStart.Claimed.{claim-Runs}
use ai_oas.Base.{find_first, ◌==◌, some}
use ai_oas.Models.{IntegrationAttempt, AttemptState, LogicalOperation, AttemptCallbackCredential}
use ai_oas.StartAi.Hashing.{ai_input_hash}
use ai_oas.Base.{[], ◌∷◌}
use ai_oas.Base.{◌↔◌, none, ◌≡◌, refl}
use ai_oas.Errors.{err, Exc, intake, IntakeError, dependency_unavailable, Result, ok}
use ai_oas.Session.{Session}
use ai_oas.Session.Committing.{ByOthers}
use ai_oas.Outcome.{CommandOutcome}
use ai_oas.Outcome.Command.{Recorded, replay_of}
use ai_oas.Idempotency.Service.{idempotency_conflict, in_scope}
use ai_oas.Callback.History.{versions_broken, valid_history}
use ai_oas.AttemptStart.Rows.{claimed, claim_audit, claim_outbox, claim_snapshot}
use ai_oas.AttemptStart.Verdict.{eligible, verdict, active_verdict, credential_verdict}
use ai_oas.AttemptStart.Eligible.{Claimable, verdict-eligible}
use ai_oas.StartAi.Rows.{new_operation, new_credential}
use ai_oas.AttemptStart.Service.{
  command_scope, record_claim, claim, follow, load, with_attempt, execute_new, resolve,
  transaction_body, execute,
}
use ai_oas.AttemptStart.Commands.{start_again, start_error, start-Recorded, start_other_body}
use ai_oas.Rows.{update_attempt, accepts_attempt_update}
use ai_oas.Tests.StartAi.{started}
use ai_oas.Tests.Toy.{
  credential_text, toy, settings, request, machine, requests_db, session_on, key, body_hash,
  other_hash, outcome_of, lost, later,
}

-- the claim of the attempt 1003 that `started` opened
unfoldable pub claimed_run : Result CommandOutcome × Session
unfolding started in_scope execute transaction_body resolve execute_new with_attempt load follow
    claim record_claim verdict active_verdict credential_verdict claimed claim_audit claim_outbox
    claim_snapshot update_attempt accepts_attempt_update versions_broken valid_history
claimed_run = execute toy machine 1003 1 key body_hash 11 (later started.1.committed)

claimed_status : (outcome_of claimed_run.0).logical_http_status ≡ 200
unfolding claimed_run
claimed_status = refl

start_again_example :
    ((execute toy machine 1003 1 key body_hash 12 (session_on claimed_run.1.committed)).0
      ≡ ok (replay_of (outcome_of claimed_run.0)))
    × ((execute toy machine 1003 1 key body_hash 12
          (session_on claimed_run.1.committed)).1.committed
        ≡ claimed_run.1.committed)
unfolding claimed_run
start_again_example =
    start_again toy machine 1003 1 1 key body_hash 11 12 (later started.1.committed)
      (session_on claimed_run.1.committed) (outcome_of claimed_run.0) refl refl refl refl refl

start-Recorded_example :
    Recorded toy
      (command_scope machine 1003)
      key
      body_hash
      (outcome_of claimed_run.0)
      claimed_run.1.committed
unfolding claimed_run
start-Recorded_example =
    start-Recorded toy machine 1003 1 key body_hash 11 (later started.1.committed)
      (outcome_of claimed_run.0) refl

-- a connection that is lost at the first statement
start_error_example :
    ((x : IntakeError) × (Exc.intake dependency_unavailable ≡ intake x))
    × ByOthers
        (λ d. d)
        requests_db
        (execute toy machine 1003 1 key body_hash 11 (lost (session_on requests_db))).1.committed
unfolding claimed_run
start_error_example =
    start_error toy machine 1003 1 key body_hash 11 (lost (session_on requests_db))
      (intake dependency_unavailable) refl

start_other_body_example :
    ((execute toy machine 1003 1 key other_hash 11 (session_on claimed_run.1.committed)).0
      ≡ err (intake idempotency_conflict))
    × ((execute toy machine 1003 1 key other_hash 11
          (session_on claimed_run.1.committed)).1.committed
        ≡ claimed_run.1.committed)
unfolding claimed_run
start_other_body_example =
    start_other_body toy machine 1003 1 1 key body_hash other_hash 11 (later started.1.committed)
      (session_on claimed_run.1.committed) (outcome_of claimed_run.0) refl refl refl refl refl refl

-- The rows of the attempt that `started` opened.
abbrev pending_attempt : IntegrationAttempt
pending_attempt = record {
  id = 3;
  logical_operation_id = 2;
  service_request_id = 1;
  operation_kind = "AIInterpretation";
  attempt_number = 1;
  state = AttemptState.pending;
  version = 1;
  adapter_name = "adapter";
  adapter_version = "1.0";
  assigned_workflow_service = "workflow";
  workflow_environment = "test";
  callback_authorization_deadline = 500;
  created_at = 100;
  started_at = none;
  completed_at = none;
  result_hash = none;
  sanitized_error_code = none;
}

abbrev opened_operation : LogicalOperation
unfolding new_operation ai_input_hash
opened_operation = new_operation toy settings machine 2 1 (ai_input_hash toy request) body_hash

abbrev issued : AttemptCallbackCredential
unfolding new_credential
issued = new_credential toy settings machine 4 3 credential_text 500 100

verdict-eligible_example :
    verdict machine pending_attempt
        (issued ∷ [])
        200
        toy
        opened_operation
        request
        (pending_attempt ∷ [])
      ≡ eligible issued
    ↔ Claimable toy machine pending_attempt
        (issued ∷ [])
        200
        opened_operation
        request
        (pending_attempt ∷ [])
        issued
verdict-eligible_example =
    verdict-eligible toy machine pending_attempt (issued ∷ []) 200 opened_operation request
      (pending_attempt ∷ []) issued

-- and the claim is possible there
verdict_issued :
    verdict machine pending_attempt
      (issued ∷ [])
      200
      toy
      opened_operation
      request
      (pending_attempt ∷ [])
    ≡ eligible issued
unfolding verdict active_verdict credential_verdict opened_operation issued valid_history
    versions_broken
verdict_issued = refl

abbrev reservation : NewCommandReservation
reservation = record {
  record_id = 50;
  command_id = 51;
  correlation_id = 11;
  session = 5;
  outer_transaction = 0;
}

claim-Runs_example :
    Ends
      (On (λ d. find_first (λ x. x.id == 3) d.integration_attempts ≡ some pending_attempt))
      (claim toy machine reservation 3 11 pending_attempt 1 1 2 200)
      (λ o s.
        find_first (λ x. x.id == 3) s.working.integration_attempts
        ≡ some (record pending_attempt {
          state = AttemptState.running;
          version = 2;
          started_at = some 200;
        }))
claim-Runs_example = claim-Runs toy machine reservation 3 11 pending_attempt 1 200 1 2
