-- ===== src/StartAi/Commands.antt =====
-- What starting an interpretation promises a caller: a repeated command is replayed, and a failed
-- one leaves nothing behind.
use ai_oas.Base.{text_eq, false, ℕ, Text, ◌≡◌, refl, true, none, some, []}
use ai_oas.Errors.{IntakeError, Exc, intake, ok, err}
use ai_oas.Platform.{Platform}
use ai_oas.Models.{CommandIdempotencyScope_valid, not_blank, hash_valid}
use ai_oas.Session.{Session}
use ai_oas.Session.Reason.{Ends, Ends-weaken}
use ai_oas.Session.Committing.{ByOthers, Uncommitted, Uncommitted-ignores}
use ai_oas.Identity.{AuthenticatedWorkflowService, Settings}
use ai_oas.Idempotency.Keys.{key_usable}
use ai_oas.Idempotency.Service.{idempotency_conflict, Resolution, new_reservation, completed_replay}
use ai_oas.Idempotency.Replay.{Resolves, digest_of}
use ai_oas.Outcome.{CommandOutcome, replay_outcome}
use ai_oas.Outcome.Command.{
  Recorded, replay_of, command_error, command-Recorded, command-again, command_other_body,
}
use ai_oas.StartAi.Service.{
  Generated, Executed, with_plaintext, command_scope, execute_new, resolve, transaction_body,
  execute,
}
use ai_oas.StartAi.Replayed.{execute_new-After}
use ai_oas.StartAi.Isolation.{Keeps-transaction_body}

module _ (p : Platform) (settings : Settings) (machine : AuthenticatedWorkflowService)
    (generated : Generated) (request_id expected : ℕ) (raw_key body_hash : Text)
    (correlation_id : ℕ) where
  -- Starting an interpretation raises only IntakeErrors, and then this session has committed
  -- nothing: the database has what it had before and what other sessions committed meanwhile.
  pub execute_error :
      (s : Session) (e : Exc)
      → (execute p settings machine generated request_id expected raw_key body_hash correlation_id
          s).0
        ≡ err e
      → ((x : IntakeError) × (e ≡ intake x))
        × ByOthers s.peer s.committed
            (execute p settings machine generated request_id expected raw_key body_hash
              correlation_id s).1.committed
  unfolding execute transaction_body
  execute_error s e h =
      command_error p (command_scope machine request_id) raw_key body_hash correlation_id
        (resolve p settings machine generated request_id expected correlation_id) with_plaintext s e
        (Keeps-transaction_body (Uncommitted s.peer s.committed)
          (Uncommitted-ignores s.peer s.committed) p settings machine generated request_id
          correlation_id expected raw_key body_hash)
        h

  resolve-Recorded :
      (r : Resolution)
      → Ends
          (Resolves (command_scope machine request_id) (digest_of p raw_key) body_hash r)
          (resolve p settings machine generated request_id expected correlation_id r)
          (λ x t.
            Recorded p
              (command_scope machine request_id)
              raw_key
              body_hash
              (with_plaintext x)
              t.working)
  unfolding resolve replay_outcome
  resolve-Recorded (completed_replay c) = record { at = λ s h. h }
  resolve-Recorded (new_reservation r) =
      Ends-weaken (execute_new p settings machine generated r request_id correlation_id expected) _
        _
        (execute_new-After (command_scope machine request_id) (digest_of p raw_key) body_hash p
          settings machine generated r request_id correlation_id expected)
        plaintext_apart
    where
      plaintext_apart :
          (x : Executed) (t : Session)
          → Recorded p (command_scope machine request_id) raw_key body_hash x.0 t.working
          → Recorded p
              (command_scope machine request_id)
              raw_key
              body_hash
              (with_plaintext x)
              t.working
      plaintext_apart (o, none) t h = h
      plaintext_apart (o, some plaintext) t h = h

  -- Starting an interpretation that returned an outcome, accepted or refused, has committed a record of it
  -- under the key, the actor, the request and the body.
  pub execute-Recorded :
      (s : Session) (o : CommandOutcome)
      → (execute p settings machine generated request_id expected raw_key body_hash correlation_id
          s).0
        ≡ ok o
      → Recorded p
          (command_scope machine request_id)
          raw_key
          body_hash
          o
          (execute p settings machine generated request_id expected raw_key body_hash correlation_id
            s).1.committed
  unfolding execute transaction_body
  execute-Recorded s o h =
      command-Recorded p (command_scope machine request_id) raw_key body_hash correlation_id
        (resolve p settings machine generated request_id expected correlation_id) with_plaintext
        resolve-Recorded s o h

-- A command that returned an outcome is replayed when it is sent again, from any session that reads
-- what the first has committed and meets no database failure: the same status, command and snapshot,
-- marked as a replay, without the credential, and nothing more is committed. The credential that
-- the second call generates, its settings and its correlation have no part in it.
pub execute_again :
    (p : Platform) (settings again_settings : Settings) (machine : AuthenticatedWorkflowService)
    (generated again_generated : Generated) (request_id expected again_expected : ℕ)
    (raw_key body_hash : Text) (correlation_id again_correlation_id : ℕ) (s u : Session)
    (o : CommandOutcome)
    → (execute p settings machine generated request_id expected raw_key body_hash correlation_id
        s).0
      ≡ ok o
    → u.committed
      ≡ (execute p settings machine generated request_id expected raw_key body_hash correlation_id
          s).1.committed
    → u.faults ≡ []
    → hash_valid body_hash ≡ true
    → key_usable raw_key ≡ true
    → let again =
        execute p again_settings machine again_generated request_id again_expected raw_key body_hash
          again_correlation_id u in
      (again.0 ≡ ok (replay_of o)) × (again.1.committed ≡ u.committed)
unfolding execute transaction_body resolve CommandIdempotencyScope_valid not_blank
execute_again p settings again_settings machine generated again_generated request_id expected
      again_expected raw_key body_hash correlation_id again_correlation_id s u o h seen none_fail
      hash key =
    command-again p (command_scope machine request_id) raw_key body_hash again_correlation_id
      (resolve p again_settings machine again_generated request_id again_expected
        again_correlation_id)
      with_plaintext (λ c t. (_, refl, refl)) o u
      (rw seen (
        execute-Recorded p settings machine generated request_id expected raw_key body_hash
          correlation_id s o h))
      none_fail refl hash key

-- A key that a start of an interpretation has used is refused for another body: COMMAND_IDEMPOTENCY_CONFLICT
-- with status 409, whatever the first outcome was, and nothing is committed, if the database does
-- not fail.
pub execute_other_body :
    (p : Platform) (settings : Settings) (machine : AuthenticatedWorkflowService)
    (generated : Generated) (request_id expected other_expected : ℕ)
    (raw_key body_hash other_hash : Text) (correlation_id : ℕ) (s u : Session) (o : CommandOutcome)
    → (execute p settings machine generated request_id expected raw_key body_hash correlation_id
        s).0
      ≡ ok o
    → u.committed
      ≡ (execute p settings machine generated request_id expected raw_key body_hash correlation_id
          s).1.committed
    → text_eq body_hash other_hash ≡ false
    → u.faults ≡ []
    → hash_valid other_hash ≡ true
    → key_usable raw_key ≡ true
    → let other =
        execute p settings machine generated request_id other_expected raw_key other_hash
          correlation_id u in
      (other.0 ≡ err (intake idempotency_conflict)) × (other.1.committed ≡ u.committed)
unfolding execute transaction_body CommandIdempotencyScope_valid
execute_other_body p settings machine generated request_id expected other_expected raw_key body_hash
      other_hash correlation_id s u o h seen differs none_fail hash key =
    command_other_body p (command_scope machine request_id) raw_key other_hash correlation_id
      (resolve p settings machine generated request_id other_expected correlation_id) with_plaintext
      body_hash o u
      (rw seen (
        execute-Recorded p settings machine generated request_id expected raw_key body_hash
          correlation_id s o h))
      differs none_fail refl hash key
