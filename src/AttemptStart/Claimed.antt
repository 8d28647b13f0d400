-- ===== src/AttemptStart/Claimed.antt =====
-- What a claim that is accepted changes: the attempt runs.
use ai_oas.Base.{
  ℕ, ◌+◌, ◌≡◌, refl, subst, sym, none, some, List, [], ◌∷◌, ◌==◌, find_first, update_where, arith,
}
use ai_oas.Platform.{Platform}
use ai_oas.Models.{AttemptState, IntegrationAttempt, AuditEvent, OutboxMessage}
use ai_oas.Tables.{Db}
use ai_oas.Session.{Session, uuid4}
use ai_oas.Session.Reason.{Keeps, Ends, Ends-bind, Ends-seq, Ends-weaken}
use ai_oas.Session.Statements.{On, On-IsStable, Keeps-uuid4, Keeps-write, Ends-write}
use ai_oas.Rows.{
  update_attempt, accepts_attempt_update, replace_attempt, insert_audit, accepts_audit, add_audit,
  insert_outbox, accepts_outbox, add_outbox,
}
use ai_oas.Identity.{AuthenticatedWorkflowService}
use ai_oas.Idempotency.Service.{NewCommandReservation}
use ai_oas.Idempotency.Completion.{complete}
use ai_oas.Idempotency.Apart.{KeptByCommands, Keeps-complete_apart}
use ai_oas.AttemptStart.Rows.{claimed}
use ai_oas.AttemptStart.Service.{record_claim, claim}

found_replaced :
    (r a : IntegrationAttempt) (rows : List IntegrationAttempt)
    → r.id ≡ a.id
    → find_first (λ x. x.id == a.id) rows ≡ some a
    → find_first (λ x. x.id == a.id) (update_where (λ x. x.id == r.id) (λ _. r) rows) ≡ some r
found_replaced r a [] e h = cc
found_replaced r a (x ∷ rows) e h = ground (arith, found_replaced r a rows, e)

module _ (p : Platform) (machine : AuthenticatedWorkflowService)
    (reservation : NewCommandReservation) (attempt_id : ℕ) (correlation_id : ℕ)
    (attempt : IntegrationAttempt) (expected now : ℕ) where
  -- The table has the attempt, running since the time of the claim, with the next version.
  abbrev pub Runs : Db → Type 0
  Runs d =
      find_first (λ x. x.id == attempt.id) d.integration_attempts
      ≡ some (record attempt {
        state = AttemptState.running;
        version = expected + 1;
        started_at = some now;
      })

  Keeps-insert_audit-Runs : (a : AuditEvent) → Keeps (On Runs) (insert_audit a)
  unfolding insert_audit
  Keeps-insert_audit-Runs a =
      Keeps-write (On Runs) (On-IsStable Runs) (accepts_audit a) (add_audit a) (λ s h. h)

  Keeps-insert_outbox-Runs : (m : OutboxMessage) → Keeps (On Runs) (insert_outbox m)
  unfolding insert_outbox
  Keeps-insert_outbox-Runs m =
      Keeps-write (On Runs) (On-IsStable Runs) (accepts_outbox m) (add_outbox m) (λ s h. h)

  Runs-kept : KeptByCommands (On Runs)
  Runs-kept = record { stable = On-IsStable Runs; commands = λ s l h. h }

  record_claim-Runs :
      (a : IntegrationAttempt) (request_id operation_id : ℕ)
      → Ends
          (On Runs)
          (record_claim p machine reservation attempt_id correlation_id a request_id operation_id
            now)
          (λ o s. Runs s.working)
  unfolding record_claim
  record_claim-Runs a request_id operation_id =
      Ends-bind (uuid4 p) _ (Keeps-uuid4 (On Runs) (On-IsStable Runs) p) λ audit_id.
        Ends-bind (insert_audit _) _ (Keeps-insert_audit-Runs _) λ _.
          Ends-bind (uuid4 p) _ (Keeps-uuid4 (On Runs) (On-IsStable Runs) p) λ outbox_id.
            Ends-bind (insert_outbox _) _ (Keeps-insert_outbox-Runs _) λ _.
              Ends-bind (complete p reservation 200 _ none none) _
                (Keeps-complete_apart (On Runs) Runs-kept p reservation 200 _ none none)
                λ c. record { at = λ s h. h }

  update_attempt-Runs :
      Ends
        (On (λ d. find_first (λ x. x.id == attempt.id) d.integration_attempts ≡ some attempt))
        (update_attempt (claimed attempt expected now))
        (λ _ s. Runs s.working)
  unfolding update_attempt claimed
  update_attempt-Runs =
      Ends-weaken _ _ _
        (Ends-write
          (On (λ d. find_first (λ x. x.id == attempt.id) d.integration_attempts ≡ some attempt))
          (On-IsStable _) (accepts_attempt_update (claimed attempt expected now))
          (replace_attempt (claimed attempt expected now)))
        (λ _ s w.
          let (u, before, _, e) = w in
          subst (λ (t : Session). Runs t.working) (sym e)
            (found_replaced (claimed attempt expected now) attempt _ refl before))

  -- A claim that returns leaves its attempt running, started at the time of the claim, with the
  -- version after the expected one and every other field as it was, if the attempt was the row of
  -- its id before.
  pub claim-Runs :
      (request_id operation_id : ℕ)
      → Ends
          (On (λ d. find_first (λ x. x.id == attempt.id) d.integration_attempts ≡ some attempt))
          (claim p machine reservation attempt_id correlation_id attempt expected request_id
            operation_id now)
          (λ o s. Runs s.working)
  unfolding claim
  claim-Runs request_id operation_id =
      Ends-seq (λ _ s. Runs s.working) (update_attempt (claimed attempt expected now)) _
        update_attempt-Runs
        λ _. record_claim-Runs (claimed attempt expected now) request_id operation_id
