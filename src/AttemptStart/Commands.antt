-- ===== src/AttemptStart/Commands.antt =====
-- What starting an attempt promises a caller: a repeated command is replayed, and a failed one
-- leaves nothing behind.
use ai_oas.Base.{text_eq, false, ℕ, Text, ◌≡◌, refl, true, []}
use ai_oas.Errors.{IntakeError, Exc, intake, ok, err}
use ai_oas.Platform.{Platform}
use ai_oas.Models.{CommandIdempotencyScope_valid, hash_valid}
use ai_oas.Session.{Session}
use ai_oas.Session.Reason.{Ends}
use ai_oas.Session.Committing.{ByOthers, Uncommitted, Uncommitted-ignores}
use ai_oas.Identity.{AuthenticatedWorkflowService}
use ai_oas.Idempotency.Keys.{key_usable}
use ai_oas.Idempotency.Service.{idempotency_conflict, Resolution, new_reservation, completed_replay}
use ai_oas.Idempotency.Replay.{Resolves, digest_of}
use ai_oas.Outcome.{CommandOutcome, replay_outcome}
use ai_oas.Outcome.Command.{
  Recorded, replay_of, command_error, command-Recorded, command-again, command_other_body,
}
use ai_oas.AttemptStart.Service.{command_scope, resolve, transaction_body, execute}
use ai_oas.AttemptStart.Replayed.{execute_new-After}
use ai_oas.AttemptStart.Isolation.{Keeps-transaction_body}

module _ (p : Platform) (machine : AuthenticatedWorkflowService) (attempt_id expected : ℕ)
    (raw_key body_hash : Text) (correlation_id : ℕ) where
  -- Starting an attempt raises only IntakeErrors, and then this session has committed nothing: the
  -- database has what it had before and what other sessions committed meanwhile.
  pub start_error :
      (s : Session) (e : Exc)
      → (execute p machine attempt_id expected raw_key body_hash correlation_id s).0 ≡ err e
      → ((x : IntakeError) × (e ≡ intake x))
        × ByOthers s.peer s.committed
            (execute p machine attempt_id expected raw_key body_hash correlation_id s).1.committed
  unfolding execute transaction_body
  start_error s e h =
      command_error p (command_scope machine attempt_id) raw_key body_hash correlation_id
        (resolve p machine attempt_id expected correlation_id) (λ o. o) s e
        (Keeps-transaction_body (Uncommitted s.peer s.committed)
          (Uncommitted-ignores s.peer s.committed) p machine attempt_id correlation_id expected
          raw_key body_hash)
        h

  resolve-Recorded :
      (r : Resolution)
      → Ends
          (Resolves (command_scope machine attempt_id) (digest_of p raw_key) body_hash r)
          (resolve p machine attempt_id expected correlation_id r)
          (λ o t. Recorded p (command_scope machine attempt_id) raw_key body_hash o t.working)
  unfolding resolve replay_outcome
  resolve-Recorded (completed_replay c) = record { at = λ s h. h }
  resolve-Recorded (new_reservation r) =
      execute_new-After (command_scope machine attempt_id) (digest_of p raw_key) body_hash p machine
        r attempt_id correlation_id expected

  -- Starting an attempt that returned an outcome, accepted or refused, has committed a record of it
  -- under the key, the actor, the attempt and the body.
  pub start-Recorded :
      (s : Session) (o : CommandOutcome)
      → (execute p machine attempt_id expected raw_key body_hash correlation_id s).0 ≡ ok o
      → Recorded p
          (command_scope machine attempt_id)
          raw_key
          body_hash
          o
          (execute p machine attempt_id expected raw_key body_hash correlation_id s).1.committed
  unfolding execute transaction_body
  start-Recorded s o h =
      command-Recorded p (command_scope machine attempt_id) raw_key body_hash correlation_id
        (resolve p machine attempt_id expected correlation_id) (λ o. o) resolve-Recorded s o h

-- A start that returned an outcome is replayed when it is sent again, from any session that reads
-- what the first has committed and meets no database failure: the same status, command and
-- snapshot, marked as a replay, and nothing more is committed. So a claim does not happen twice.
pub start_again :
    (p : Platform) (machine : AuthenticatedWorkflowService) (attempt_id expected again_expected : ℕ)
    (raw_key body_hash : Text) (correlation_id again_correlation_id : ℕ) (s u : Session)
    (o : CommandOutcome)
    → (execute p machine attempt_id expected raw_key body_hash correlation_id s).0 ≡ ok o
    → u.committed
      ≡ (execute p machine attempt_id expected raw_key body_hash correlation_id s).1.committed
    → u.faults ≡ []
    → hash_valid body_hash ≡ true
    → key_usable raw_key ≡ true
    → let again =
        execute p machine attempt_id again_expected raw_key body_hash again_correlation_id u in
      (again.0 ≡ ok (replay_of o)) × (again.1.committed ≡ u.committed)
unfolding execute transaction_body resolve CommandIdempotencyScope_valid
start_again p machine attempt_id expected again_expected raw_key body_hash correlation_id
      again_correlation_id s u o h seen none_fail hash key =
    command-again p (command_scope machine attempt_id) raw_key body_hash again_correlation_id
      (resolve p machine attempt_id again_expected again_correlation_id) (λ o. o)
      (λ c t. (_, refl, refl)) o u
      (rw seen
        (start-Recorded p machine attempt_id expected raw_key body_hash correlation_id s o h))
      none_fail refl hash key

-- A key that a start of an attempt has used is refused for another body: COMMAND_IDEMPOTENCY_CONFLICT
-- with status 409, whatever the first outcome was, and nothing is committed, if the database does
-- not fail.
pub start_other_body :
    (p : Platform) (machine : AuthenticatedWorkflowService) (attempt_id expected other_expected : ℕ)
    (raw_key body_hash other_hash : Text) (correlation_id : ℕ) (s u : Session) (o : CommandOutcome)
    → (execute p machine attempt_id expected raw_key body_hash correlation_id s).0 ≡ ok o
    → u.committed
      ≡ (execute p machine attempt_id expected raw_key body_hash correlation_id s).1.committed
    → text_eq body_hash other_hash ≡ false
    → u.faults ≡ []
    → hash_valid other_hash ≡ true
    → key_usable raw_key ≡ true
    → let other = execute p machine attempt_id other_expected raw_key other_hash correlation_id u in
      (other.0 ≡ err (intake idempotency_conflict)) × (other.1.committed ≡ u.committed)
unfolding execute transaction_body CommandIdempotencyScope_valid
start_other_body p machine attempt_id expected other_expected raw_key body_hash other_hash
      correlation_id s u o h seen differs none_fail hash key =
    command_other_body p (command_scope machine attempt_id) raw_key other_hash correlation_id
      (resolve p machine attempt_id other_expected correlation_id) (λ x. x) body_hash o u
      (rw seen
        (start-Recorded p machine attempt_id expected raw_key body_hash correlation_id s o h))
      differs none_fail refl hash key
