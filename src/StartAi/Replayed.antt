-- ===== src/StartAi/Replayed.antt =====
-- A command that returned has a completed record, with the outcome that it returned.
use ai_oas.Base.{ℕ, String, Text, not, Option, none, some, List, [], ◌==◌}
use ai_oas.Errors.{runtime}
use ai_oas.Platform.{Platform}
use ai_oas.Models.{CommandIdempotencyScope, ServiceRequest, LogicalOperation, is_triage_pending}
use ai_oas.Session.{Session, lift, query, func_now, uuid4}
use ai_oas.Session.Reason.{Ends, Ends-bind, Ends-seq, Ends-if, Ends-raise, Keeps-lift}
use ai_oas.Session.Statements.{On, Keeps-query, Keeps-func_now, Keeps-uuid4}
use ai_oas.Rows.{
  update_request, insert_operation, insert_attempt, insert_credential, insert_audit, insert_outbox,
}
use ai_oas.Rows.Keep.{
  KeptByRows, Keeps-update_request, Keeps-insert_operation, Keeps-insert_attempt,
  Keeps-insert_credential, Keeps-insert_audit, Keeps-insert_outbox,
}
use ai_oas.StartAi.Guard.{existing_operation_guard}
use ai_oas.Identity.{AuthenticatedWorkflowService, Settings}
use ai_oas.Idempotency.Service.{NewCommandReservation}
use ai_oas.Idempotency.Completion.{complete}
use ai_oas.Idempotency.Replay.{Replayable, Reserved, Reserved-kept}
use ai_oas.Idempotency.Completed.{complete-Replayable}
use ai_oas.Outcome.{CommandOutcome, complete_guard, error_snapshot}
use ai_oas.StartAi.Service.{
  Generated, without_plaintext, record_evidence, open_operation, refuse_existing, with_operation,
  admitted_request, with_request, execute_new, aware_time, usable_credential,
}

module _ (scope : CommandIdempotencyScope) (digest body_hash : Text) (p : Platform)
    (settings : Settings) (machine : AuthenticatedWorkflowService) (generated : Generated)
    (reservation : NewCommandReservation) (request_id : ℕ) (correlation_id : ℕ) where
  abbrev Before : Session → Type 0
  Before = On (Reserved scope digest body_hash reservation)

  abbrev After : CommandOutcome → Session → Type 0
  After o s =
      Replayable scope digest body_hash o.logical_http_status o.command_id o.safe_snapshot s.working

  complete_guard-After :
      (status : ℕ) (code message : String) (versions : List (String × ℕ))
      → Ends Before (complete_guard p reservation status code message versions) After
  unfolding complete_guard
  complete_guard-After status code message versions =
      Ends-seq _ (complete p reservation status (error_snapshot code message versions) none none) _
        (complete-Replayable scope digest body_hash reservation p status
          (error_snapshot code message versions) none none)
        λ c. record { at = λ s h. h }

  abbrev kept : KeptByRows Before
  kept = Reserved-kept scope digest body_hash reservation

  record_evidence-After :
      (version operation_id attempt_id credential_id deadline : ℕ) (plaintext : Text)
      → Ends Before
          (record_evidence p settings machine generated reservation request_id correlation_id
            version operation_id attempt_id credential_id deadline plaintext)
          (λ x s. After x.0 s)
  unfolding record_evidence
  record_evidence-After version operation_id attempt_id credential_id deadline plaintext =
      Ends-bind (uuid4 p) _ (Keeps-uuid4 Before kept.stable p) λ request_audit_id.
        Ends-bind (uuid4 p) _ (Keeps-uuid4 Before kept.stable p) λ attempt_audit_id.
          Ends-bind (insert_audit _) _ (Keeps-insert_audit Before kept _) λ _.
            Ends-bind (insert_audit _) _ (Keeps-insert_audit Before kept _) λ _.
              Ends-bind (uuid4 p) _ (Keeps-uuid4 Before kept.stable p) λ outbox_id.
                Ends-bind (insert_outbox _) _ (Keeps-insert_outbox Before kept _) λ _.
                  Ends-seq _ (complete p reservation 202 _ _ none) _
                    (complete-Replayable scope digest body_hash reservation p 202 _ _ none)
                    λ c. record { at = λ s h. h }

  open_operation-After :
      (r : ServiceRequest) (input configuration : Text)
      → Ends Before
          (open_operation p settings machine generated reservation request_id correlation_id r input
            configuration)
          (λ x s. After x.0 s)
  unfolding open_operation
  open_operation-After r input configuration =
      Ends-bind func_now _ (Keeps-func_now Before kept.stable) λ clock.
        Ends-bind (lift (aware_time clock)) _ (Keeps-lift _) λ now.
          Ends-bind (lift (usable_credential generated)) _ (Keeps-lift _) λ plaintext.
            Ends-bind (uuid4 p) _ (Keeps-uuid4 Before kept.stable p) λ operation_id.
              Ends-bind (uuid4 p) _ (Keeps-uuid4 Before kept.stable p) λ attempt_id.
                Ends-bind (uuid4 p) _ (Keeps-uuid4 Before kept.stable p) λ credential_id.
                  Ends-bind (update_request _) _ (Keeps-update_request Before kept _) λ _.
                    Ends-bind (insert_operation _) _ (Keeps-insert_operation Before kept _) λ _.
                      Ends-bind (insert_attempt _) _ (Keeps-insert_attempt Before kept _) λ _.
                        Ends-bind (insert_credential _) _ (Keeps-insert_credential Before kept _)
                          λ _. record_evidence-After _ _ _ _ _ _

  without_plaintext-After :
      (status : ℕ) (code message : String) (versions : List (String × ℕ))
      → Ends Before
          (without_plaintext (complete_guard p reservation status code message versions))
          (λ x s. After x.0 s)
  without_plaintext-After status code message versions =
      Ends-seq After (complete_guard p reservation status code message versions) _
        (complete_guard-After status code message versions) λ o. record { at = λ s h. h }

  refuse_existing-After :
      (guard : Option (String × String))
      → Ends Before
          (refuse_existing p settings machine generated reservation request_id correlation_id guard)
          (λ x s. After x.0 s)
  unfolding refuse_existing
  refuse_existing-After none = Ends-raise runtime
  refuse_existing-After (some (code, message)) = without_plaintext-After 409 code message []

  with_operation-After :
      (r : ServiceRequest) (input configuration : Text) (o : Option LogicalOperation)
      → Ends Before
          (with_operation p settings machine generated reservation request_id correlation_id r input
            configuration o)
          (λ x s. After x.0 s)
  unfolding with_operation
  with_operation-After r input configuration none = open_operation-After r input configuration
  with_operation-After r input configuration (some o) =
      Ends-bind (query _) _ (Keeps-query Before kept.stable _)
        λ attempts. refuse_existing-After (existing_operation_guard o attempts)

  admitted_request-After :
      (r : ServiceRequest)
      → Ends Before
          (admitted_request p settings machine generated reservation request_id correlation_id r)
          (λ x s. After x.0 s)
  unfolding admitted_request
  admitted_request-After r =
      Ends-bind (query _) _ (Keeps-query Before kept.stable _) λ o. with_operation-After r _ _ o

  with_request-After :
      (expected : ℕ) (r : Option ServiceRequest)
      → Ends Before
          (with_request p settings machine generated reservation request_id correlation_id expected
            r)
          (λ x s. After x.0 s)
  unfolding with_request
  with_request-After expected none = without_plaintext-After 404 _ _ _
  with_request-After expected (some r) =
      Ends-if (not (r.version == expected)) _ _ (without_plaintext-After 409 _ _ _) (
        Ends-if (not (is_triage_pending r.status)) _ _ (without_plaintext-After 409 _ _ _)
          (admitted_request-After r))

  pub execute_new-After :
      (expected : ℕ)
      → Ends Before
          (execute_new p settings machine generated reservation request_id correlation_id expected)
          (λ x s. After x.0 s)
  unfolding execute_new
  execute_new-After expected =
      Ends-bind (query _) _ (Keeps-query Before kept.stable _) λ r. with_request-After expected r
