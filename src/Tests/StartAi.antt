-- ===== src/Tests/StartAi.antt =====
-- Starting an interpretation at a concrete request, and its theorems there.
use ai_oas.Base.{◌≡◌, refl}
use ai_oas.Errors.{err, Exc, intake, IntakeError, dependency_unavailable, Result, ok}
use ai_oas.Models.{
  CommandIdempotencyScope_valid, attempt_state_fields, callback_authorization_consistent,
  command_status_fields, credential_state_fields, not_blank, secret_delivery_consistent,
}
use ai_oas.Session.{Session, begin_nested, close, commit, in_transaction}
use ai_oas.Session.Committing.{ByOthers}
use ai_oas.Rows.{
  update_request, accepts_operation, insert_operation, accepts_attempt, insert_attempt,
  accepts_credential, insert_credential, accepts_audit, insert_audit, accepts_outbox, insert_outbox,
}
use ai_oas.Outcome.{CommandOutcome}
use ai_oas.Outcome.Command.{Recorded, replay_of}
use ai_oas.Idempotency.Snapshots.{inspect, is_forbidden}
use ai_oas.Idempotency.Service.{
  idempotency_conflict, reserve, reserve_new, after_insert, insert_reservation, try_insert, settle,
  insert_command, accepts_command, command_clash, resolve_existing,
}
use ai_oas.Idempotency.Completion.{complete, complete_found, write_completion, update_command}
use ai_oas.StartAi.Hashing.{ai_input_hash, ai_configuration_hash}
use ai_oas.StartAi.Guard.{opaque_credential}
use ai_oas.StartAi.Rows.{
  new_operation, new_attempt, new_credential, request_audit, attempt_audit, attempt_outbox,
  started_snapshot,
}
use ai_oas.StartAi.Service.{
  text, raised, usable_credential, command_scope, record_evidence, open_operation, with_operation,
  admitted_request, with_request, execute_new, resolve, transaction_body, execute,
}
use ai_oas.StartAi.Commands.{execute_again, execute_error, execute-Recorded, execute_other_body}
use ai_oas.Tests.Toy.{
  toy, settings, machine, requests_db, session_on, key, body_hash, other_hash, credential_text,
  outcome_of,
}

-- an accepted command
unfoldable pub started : Result CommandOutcome × Session
unfolding CommandIdempotencyScope_valid opaque_credential ai_input_hash ai_configuration_hash
    execute transaction_body resolve execute_new with_request admitted_request with_operation
    open_operation record_evidence usable_credential reserve resolve_existing reserve_new
    insert_reservation after_insert try_insert settle insert_command accepts_command command_clash
    complete complete_found write_completion update_command update_request insert_operation
    insert_attempt insert_credential insert_audit insert_outbox accepts_operation accepts_attempt
    accepts_credential accepts_audit accepts_outbox command_status_fields secret_delivery_consistent
    callback_authorization_consistent not_blank attempt_state_fields credential_state_fields inspect
    is_forbidden in_transaction close commit begin_nested started_snapshot new_operation new_attempt
    new_credential request_audit attempt_audit attempt_outbox
started =
    execute toy settings machine (text credential_text) 1 1 key body_hash 9 (session_on requests_db)

started_status : (outcome_of started.0).logical_http_status ≡ 202
unfolding started
started_status = refl

-- the same command sent again, with another generated credential
execute_again_example :
    ((execute toy settings machine raised 1 1 key body_hash 10 (session_on started.1.committed)).0
      ≡ ok (replay_of (outcome_of started.0)))
    × ((execute toy settings machine raised 1 1 key body_hash 10
          (session_on started.1.committed)).1.committed
        ≡ started.1.committed)
unfolding started
execute_again_example =
    execute_again toy settings settings machine (text credential_text) raised 1 1 1 key body_hash 9
      10 (session_on requests_db) (session_on started.1.committed) (outcome_of started.0) refl refl
      refl refl refl

execute-Recorded_example :
    Recorded toy (command_scope machine 1) key body_hash (outcome_of started.0) started.1.committed
unfolding started
execute-Recorded_example =
    execute-Recorded toy settings machine (text credential_text) 1 1 key body_hash 9
      (session_on requests_db) (outcome_of started.0) refl

-- a generator that raises
execute_error_example :
    ((x : IntakeError) × (Exc.intake dependency_unavailable ≡ intake x))
    × ByOthers
        (λ d. d)
        requests_db
        (execute toy settings machine raised 1 1 key body_hash 9
          (session_on requests_db)).1.committed
unfolding started
execute_error_example =
    execute_error toy settings machine raised 1 1 key body_hash 9 (session_on requests_db)
      (intake dependency_unavailable) refl

execute_other_body_example :
    ((execute toy settings machine
        (text credential_text)
        1
        1
        key
        other_hash
        9
        (session_on started.1.committed)).0
      ≡ err (intake idempotency_conflict))
    × ((execute toy settings machine
          (text credential_text)
          1
          1
          key
          other_hash
          9
          (session_on started.1.committed)).1.committed
        ≡ started.1.committed)
unfolding started
execute_other_body_example =
    execute_other_body toy settings machine (text credential_text) 1 1 1 key body_hash other_hash 9
      (session_on requests_db) (session_on started.1.committed) (outcome_of started.0) refl refl
      refl refl refl refl
