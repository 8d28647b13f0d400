-- ===== src/StartAi/Isolation.antt =====
-- Starting an interpretation keeps every property that does not look at the working database.
use ai_oas.Base.{ℕ, String, Text, Option, none, some, not, List}
use ai_oas.Errors.{value}
use ai_oas.Platform.{Platform}
use ai_oas.Models.{ServiceRequest, LogicalOperation, CommandIdempotencyScope_valid}
use ai_oas.Session.{Session, raise_if, query}
use ai_oas.Session.Reason.{Keeps, Keeps-bind, Keeps-raise, Keeps-pure, Keeps-raise_if, keeps_rules}
use ai_oas.Session.Statements.{IsStable, Keeps-query, Keeps-func_now, Keeps-uuid4}
use ai_oas.Session.Committing.{IgnoresWorking}
use ai_oas.Rows.Keep.{KeptByRows, row_rules}
use ai_oas.Identity.{AuthenticatedWorkflowService, Settings}
use ai_oas.Idempotency.Service.{
  NewCommandReservation, Resolution, new_reservation, completed_replay, reserve,
}
use ai_oas.Idempotency.Isolation.{IgnoresWorking-kept, Keeps-complete, Keeps-reserve}
use ai_oas.Outcome.{complete_guard}
use ai_oas.StartAi.Guard.{existing_operation_guard}
use ai_oas.StartAi.Service.{
  Generated, record_evidence, open_operation, refuse_existing, with_operation, admitted_request,
  with_request, execute_new, resolve, transaction_body, command_scope,
}

module _ (P : Session → Type 0) (ignores : IgnoresWorking P) (p : Platform) (settings : Settings)
    (machine : AuthenticatedWorkflowService) (generated : Generated) (request_id : ℕ)
    (correlation_id : ℕ) where
  abbrev stable : IsStable P
  stable = ignores.stable

  abbrev kept : KeptByRows P
  kept = IgnoresWorking-kept P ignores

  module _ (reservation : NewCommandReservation) where
    Keeps-complete_guard :
        (status : ℕ) (code message : String) (versions : List (String × ℕ))
        → Keeps P (complete_guard p reservation status code message versions)
    unfolding complete_guard
    Keeps-complete_guard status code message versions =
        search (keeps_rules, Keeps-complete, ignores)

    Keeps-record_evidence :
        (version operation_id attempt_id credential_id deadline : ℕ) (plaintext : Text)
        → Keeps P (
            record_evidence p settings machine generated reservation request_id correlation_id
              version operation_id attempt_id credential_id deadline plaintext)
    unfolding record_evidence
    Keeps-record_evidence version operation_id attempt_id credential_id deadline plaintext =
        search (keeps_rules, row_rules, Keeps-complete, Keeps-uuid4, ignores, kept, stable) depth 20

    Keeps-open_operation :
        (r : ServiceRequest) (input configuration : Text)
        → Keeps P (
            open_operation p settings machine generated reservation request_id correlation_id r
              input configuration)
    unfolding open_operation
    Keeps-open_operation r input configuration =
        search
          (
            keeps_rules, row_rules, Keeps-record_evidence, Keeps-uuid4, Keeps-func_now, ignores,
            kept, stable,
          )
          depth 30

    Keeps-refuse_existing :
        (guard : Option (String × String))
        → Keeps P (
            refuse_existing p settings machine generated reservation request_id correlation_id
              guard)
    unfolding refuse_existing
    Keeps-refuse_existing none = Keeps-raise _
    Keeps-refuse_existing (some (code, message)) =
        search (keeps_rules, Keeps-complete_guard) depth 6

    Keeps-with_operation :
        (r : ServiceRequest) (input configuration : Text) (o : Option LogicalOperation)
        → Keeps P (
            with_operation p settings machine generated reservation request_id correlation_id r
              input configuration o)
    unfolding with_operation
    Keeps-with_operation r input configuration none = Keeps-open_operation r input configuration
    Keeps-with_operation r input configuration (some o) =
        Keeps-bind (query _) _ (Keeps-query P stable _)
          λ attempts. Keeps-refuse_existing (existing_operation_guard o attempts)

    Keeps-admitted_request :
        (r : ServiceRequest)
        → Keeps P
            (admitted_request p settings machine generated reservation request_id correlation_id r)
    unfolding admitted_request
    Keeps-admitted_request r =
        Keeps-bind (query _) _ (Keeps-query P stable _) λ o. Keeps-with_operation r _ _ o

    Keeps-with_request :
        (expected : ℕ) (r : Option ServiceRequest)
        → Keeps P (
            with_request p settings machine generated reservation request_id correlation_id expected
              r)
    unfolding with_request
    Keeps-with_request expected none = search (keeps_rules, Keeps-complete_guard) depth 6
    Keeps-with_request expected (some r) =
        search (keeps_rules, Keeps-complete_guard, Keeps-admitted_request) depth 12

    Keeps-execute_new :
        (expected : ℕ)
        → Keeps P (
            execute_new p settings machine generated reservation request_id correlation_id expected)
    unfolding execute_new
    Keeps-execute_new expected =
        Keeps-bind (query _) _ (Keeps-query P stable _) λ r. Keeps-with_request expected r

  Keeps-resolve :
      (expected : ℕ) (r : Resolution)
      → Keeps P (resolve p settings machine generated request_id expected correlation_id r)
  unfolding resolve
  Keeps-resolve expected (completed_replay c) = Keeps-pure _
  Keeps-resolve expected (new_reservation r) = Keeps-execute_new r expected

  pub Keeps-transaction_body :
      (expected : ℕ) (raw_key body_hash : Text)
      → Keeps P (
          transaction_body p settings machine generated request_id expected raw_key body_hash
            correlation_id)
  unfolding transaction_body
  Keeps-transaction_body expected raw_key body_hash =
      Keeps-bind
        (raise_if (not (CommandIdempotencyScope_valid (command_scope machine request_id))) value) _
        (Keeps-raise_if _ _)
        λ _.
          Keeps-bind (reserve p (command_scope machine request_id) raw_key body_hash correlation_id)
            _
            (Keeps-reserve P ignores p (command_scope machine request_id) raw_key body_hash
              correlation_id)
            (Keeps-resolve expected)
