-- ===== src/AttemptStart/Replayed.antt =====
-- A start that returned has a completed record, with the outcome that it returned.
use ai_oas.Base.{ℕ, String, Text, not, Option, none, some, List, [], ◌==◌}
use ai_oas.Errors.{runtime}
use ai_oas.Platform.{Platform}
use ai_oas.Models.{CommandIdempotencyScope, IntegrationAttempt}
use ai_oas.Session.{Session, lift, query, func_now, uuid4}
use ai_oas.Session.Reason.{Ends, Ends-bind, Ends-seq, Ends-if, Ends-raise, Keeps-lift}
use ai_oas.Session.Statements.{On, Keeps-query, Keeps-func_now, Keeps-uuid4}
use ai_oas.Rows.{update_attempt, insert_audit, insert_outbox}
use ai_oas.Rows.Keep.{KeptByRows, Keeps-update_attempt, Keeps-insert_audit, Keeps-insert_outbox}
use ai_oas.Identity.{AuthenticatedWorkflowService}
use ai_oas.Idempotency.Service.{NewCommandReservation}
use ai_oas.Idempotency.Completion.{complete}
use ai_oas.Idempotency.Replay.{Replayable, Reserved, Reserved-kept}
use ai_oas.Idempotency.Completed.{complete-Replayable}
use ai_oas.Outcome.{CommandOutcome, complete_guard, error_snapshot}
use ai_oas.StartAi.Service.{aware_time}
use ai_oas.Callback.Verifier.{assigned_to, required}
use ai_oas.AttemptStart.Verdict.{Verdict, refused, inconsistent, eligible}
use ai_oas.AttemptStart.Service.{record_claim, claim, follow, load, with_attempt, execute_new}

module _ (scope : CommandIdempotencyScope) (digest body_hash : Text) (p : Platform)
    (machine : AuthenticatedWorkflowService) (reservation : NewCommandReservation) (attempt_id : ℕ)
    (correlation_id : ℕ) where
  abbrev Before : Session → Type 0
  Before = On (Reserved scope digest body_hash reservation)

  abbrev After : CommandOutcome → Session → Type 0
  After o s =
      Replayable scope digest body_hash o.logical_http_status o.command_id o.safe_snapshot s.working

  abbrev kept : KeptByRows Before
  kept = Reserved-kept scope digest body_hash reservation

  complete_guard-After :
      (status : ℕ) (code message : String) (versions : List (String × ℕ))
      → Ends Before (complete_guard p reservation status code message versions) After
  unfolding complete_guard
  complete_guard-After status code message versions =
      Ends-seq _ (complete p reservation status (error_snapshot code message versions) none none) _
        (complete-Replayable scope digest body_hash reservation p status
          (error_snapshot code message versions) none none)
        λ c. record { at = λ s h. h }

  record_claim-After :
      (attempt : IntegrationAttempt) (request_id operation_id now : ℕ)
      → Ends Before
          (record_claim p machine reservation attempt_id correlation_id attempt request_id
            operation_id now)
          After
  unfolding record_claim
  record_claim-After attempt request_id operation_id now =
      Ends-bind (uuid4 p) _ (Keeps-uuid4 Before kept.stable p) λ audit_id.
        Ends-bind (insert_audit _) _ (Keeps-insert_audit Before kept _) λ _.
          Ends-bind (uuid4 p) _ (Keeps-uuid4 Before kept.stable p) λ outbox_id.
            Ends-bind (insert_outbox _) _ (Keeps-insert_outbox Before kept _) λ _.
              Ends-seq _ (complete p reservation 200 _ none none) _
                (complete-Replayable scope digest body_hash reservation p 200 _ none none)
                λ c. record { at = λ s h. h }

  claim-After :
      (attempt : IntegrationAttempt) (expected request_id operation_id now : ℕ)
      → Ends Before
          (claim p machine reservation attempt_id correlation_id attempt expected request_id
            operation_id now)
          After
  unfolding claim
  claim-After attempt expected request_id operation_id now =
      Ends-bind (update_attempt _) _ (Keeps-update_attempt Before kept _)
        λ _. record_claim-After _ request_id operation_id now

  follow-After :
      (attempt : IntegrationAttempt) (expected request_id operation_id now : ℕ) (v : Verdict)
      → Ends Before
          (follow p machine reservation attempt_id correlation_id attempt expected request_id
            operation_id now v)
          After
  unfolding follow
  follow-After attempt expected request_id operation_id now (refused code message) =
      complete_guard-After 409 code message []
  follow-After attempt expected request_id operation_id now inconsistent = Ends-raise runtime
  follow-After attempt expected request_id operation_id now (eligible credential) =
      claim-After attempt expected request_id operation_id now

  load-After :
      (attempt : IntegrationAttempt) (expected : ℕ)
      → Ends Before (load p machine reservation attempt_id correlation_id attempt expected) After
  unfolding load
  load-After attempt expected = Ends-bind (query _) _ (Keeps-query Before kept.stable _) λ found.
      Ends-bind (lift (required found)) _ (Keeps-lift _) λ operation.
        Ends-bind (query _) _ (Keeps-query Before kept.stable _) λ owner.
          Ends-bind (lift (required owner)) _ (Keeps-lift _) λ service_request.
            Ends-bind (query _) _ (Keeps-query Before kept.stable _) λ siblings.
              Ends-bind (query _) _ (Keeps-query Before kept.stable _) λ rows.
                Ends-bind func_now _ (Keeps-func_now Before kept.stable) λ clock.
                  Ends-bind (lift (aware_time clock)) _ (Keeps-lift _)
                    λ now. follow-After attempt expected service_request.id operation.id now _

  with_attempt-After :
      (expected : ℕ) (found : Option IntegrationAttempt)
      → Ends Before
          (with_attempt p machine reservation attempt_id correlation_id expected found)
          After
  unfolding with_attempt
  with_attempt-After expected none = complete_guard-After 404 _ _ _
  with_attempt-After expected (some a) =
      Ends-if (not (assigned_to machine a)) _ _ (complete_guard-After 404 _ _ _) (
        Ends-if (not (a.version == expected)) _ _ (complete_guard-After 409 _ _ _)
          (load-After a expected))

  pub execute_new-After :
      (expected : ℕ)
      → Ends Before (execute_new p machine reservation attempt_id correlation_id expected) After
  unfolding execute_new
  execute_new-After expected =
      Ends-bind (query _) _ (Keeps-query Before kept.stable _)
        λ found. with_attempt-After expected found
