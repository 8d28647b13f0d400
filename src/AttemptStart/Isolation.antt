-- ===== src/AttemptStart/Isolation.antt =====
-- Starting an attempt keeps every property that does not look at the working database.
use ai_oas.Base.{ℕ, String, Text, Option, none, some, List, not}
use ai_oas.Errors.{value}
use ai_oas.Platform.{Platform}
use ai_oas.Models.{IntegrationAttempt, CommandIdempotencyScope_valid}
use ai_oas.Session.{Session, raise_if, query}
use ai_oas.Session.Reason.{Keeps, Keeps-bind, Keeps-raise, Keeps-pure, Keeps-raise_if, keeps_rules}
use ai_oas.Session.Statements.{IsStable, Keeps-query, Keeps-func_now, Keeps-uuid4}
use ai_oas.Session.Committing.{IgnoresWorking}
use ai_oas.Rows.Keep.{KeptByRows, row_rules}
use ai_oas.Identity.{AuthenticatedWorkflowService}
use ai_oas.Idempotency.Service.{
  NewCommandReservation, Resolution, new_reservation, completed_replay, reserve,
}
use ai_oas.Idempotency.Isolation.{IgnoresWorking-kept, Keeps-complete, Keeps-reserve}
use ai_oas.Outcome.{complete_guard}
use ai_oas.AttemptStart.Verdict.{Verdict, refused, inconsistent, eligible}
use ai_oas.AttemptStart.Service.{
  command_scope, record_claim, claim, follow, load, with_attempt, execute_new, resolve,
  transaction_body,
}

module _ (P : Session → Type 0) (ignores : IgnoresWorking P) (p : Platform)
    (machine : AuthenticatedWorkflowService) (attempt_id : ℕ) (correlation_id : ℕ) where
  abbrev stable : IsStable P
  stable = ignores.stable

  abbrev kept : KeptByRows P
  kept = IgnoresWorking-kept P ignores

  module _ (reservation : NewCommandReservation) where
    Keeps-complete_guard :
        (status : ℕ) (code message : String) (versions : List (String × ℕ))
        → Keeps P (complete_guard p reservation status code message versions)
    unfolding complete_guard
    Keeps-complete_guard status code message versions =
        search (keeps_rules, Keeps-complete, ignores)

    Keeps-record_claim :
        (attempt : IntegrationAttempt) (request_id operation_id now : ℕ)
        → Keeps P (
            record_claim p machine reservation attempt_id correlation_id attempt request_id
              operation_id now)
    unfolding record_claim
    Keeps-record_claim attempt request_id operation_id now =
        search (keeps_rules, row_rules, Keeps-complete, Keeps-uuid4, ignores, kept, stable) depth 20

    Keeps-claim :
        (attempt : IntegrationAttempt) (expected request_id operation_id now : ℕ)
        → Keeps P (
            claim p machine reservation attempt_id correlation_id attempt expected request_id
              operation_id now)
    unfolding claim
    Keeps-claim attempt expected request_id operation_id now =
        search (keeps_rules, row_rules, Keeps-record_claim, kept) depth 20

    Keeps-follow :
        (attempt : IntegrationAttempt) (expected request_id operation_id now : ℕ) (v : Verdict)
        → Keeps P (
            follow p machine reservation attempt_id correlation_id attempt expected request_id
              operation_id now v)
    unfolding follow
    Keeps-follow attempt expected request_id operation_id now (refused code message) =
        Keeps-complete_guard _ _ _ _
    Keeps-follow attempt expected request_id operation_id now inconsistent = Keeps-raise _
    Keeps-follow attempt expected request_id operation_id now (eligible credential) =
        Keeps-claim attempt expected request_id operation_id now

    Keeps-load :
        (attempt : IntegrationAttempt) (expected : ℕ)
        → Keeps P (load p machine reservation attempt_id correlation_id attempt expected)
    unfolding load
    Keeps-load attempt expected =
        search (keeps_rules, Keeps-query, Keeps-func_now, Keeps-follow, stable) depth 30

    Keeps-with_attempt :
        (expected : ℕ) (found : Option IntegrationAttempt)
        → Keeps P (with_attempt p machine reservation attempt_id correlation_id expected found)
    unfolding with_attempt
    Keeps-with_attempt expected none = Keeps-complete_guard _ _ _ _
    Keeps-with_attempt expected (some attempt) =
        search (keeps_rules, Keeps-complete_guard, Keeps-load) depth 12

    Keeps-execute_new :
        (expected : ℕ)
        → Keeps P (execute_new p machine reservation attempt_id correlation_id expected)
    unfolding execute_new
    Keeps-execute_new expected =
        Keeps-bind (query _) _ (Keeps-query P stable _) λ found. Keeps-with_attempt expected found

  Keeps-resolve :
      (expected : ℕ) (r : Resolution)
      → Keeps P (resolve p machine attempt_id expected correlation_id r)
  unfolding resolve
  Keeps-resolve expected (completed_replay c) = Keeps-pure _
  Keeps-resolve expected (new_reservation r) = Keeps-execute_new r expected

  pub Keeps-transaction_body :
      (expected : ℕ) (raw_key body_hash : Text)
      → Keeps P (transaction_body p machine attempt_id expected raw_key body_hash correlation_id)
  unfolding transaction_body
  Keeps-transaction_body expected raw_key body_hash =
      Keeps-bind
        (raise_if (not (CommandIdempotencyScope_valid (command_scope machine attempt_id))) value) _
        (Keeps-raise_if _ _)
        λ _.
          Keeps-bind (reserve p (command_scope machine attempt_id) raw_key body_hash correlation_id)
            _
            (Keeps-reserve P ignores p (command_scope machine attempt_id) raw_key body_hash
              correlation_id)
            (Keeps-resolve expected)
