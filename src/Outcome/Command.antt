-- ===== src/Outcome/Command.antt =====
-- `execute` of start_ai/service.py and of attempt_start/service.py, for any work that follows the
-- reservation: a transaction around `reserve`, and exceptions made safe.
use ai_oas.Base.{text_eq, false, ℕ, Text, ◌≡◌, refl, sym, subst, true, not, none, [], arith}
use ai_oas.Errors.{IntakeError, Exc, intake, value, Result, ok, err}
use ai_oas.Platform.{Platform}
use ai_oas.Models.{CommandIdempotencyScope, CommandIdempotencyScope_valid, hash_valid}
use ai_oas.Tables.{Db}
use ai_oas.Session.{
  Session, Tx, pure, continue, handle, ◌>>=◌, ◌>>◌, raise_if, rethrow, in_transaction, begun, close,
  commit, statement, answer,
}
use ai_oas.Session.Reason.{
  Keeps, Ends, Ends-bind, Ends-seq, Ends-rethrow, Keeps-raise_if, WhenOk-at,
}
use ai_oas.Session.Statements.{On}
use ai_oas.Session.Committing.{in_transaction-Ends, in_transaction_error, ByOthers, Uncommitted}
use ai_oas.Idempotency.Keys.{key_usable}
use ai_oas.Idempotency.Service.{
  idempotency_conflict, CompletedCommandReplay, Resolution, completed_replay, reserve,
}
use ai_oas.Idempotency.Replay.{Replayable, Resolves, reserve-Resolves, digest_of}
use ai_oas.Idempotency.Again.{classify-again, reserve-again, classify_other_body, reserve_refused}
use ai_oas.Outcome.{CommandOutcome, replay_outcome, safe_exception}

-- The committed record of the key has the result `o`.
abbrev pub Recorded :
    Platform → CommandIdempotencyScope → Text → Text → CommandOutcome → Db → Type 0
Recorded p scope raw_key body_hash o d =
    Replayable scope (digest_of p raw_key) body_hash o.logical_http_status o.command_id
      o.safe_snapshot d

abbrev pub replay_of : CommandOutcome → CommandOutcome
replay_of o = record o { is_replay = true; callback_plaintext = none }

returned_error :
    {A B : Type 0} (f : Exc → Exc) (g : A → B) (r : Result A × Session) (e : Exc)
    → (handle f (continue r.0 (λ a. pure (g a)) r.1)).0 ≡ err e
    → (x : Exc) × (r.0 ≡ err x)
      × (e ≡ f x)
      × ((handle f (continue r.0 (λ a. pure (g a)) r.1)).1 ≡ r.1)
returned_error f g (ok a, s) e h = cc
returned_error f g (err x, s) e h = (x, refl, cc, refl)

module _ {A : Type 0} (p : Platform) (scope : CommandIdempotencyScope) (raw_key body_hash : Text)
    (correlation_id : ℕ) (work : Resolution → Tx A) (outcome : A → CommandOutcome) where
  abbrev pub command_body : Tx A
  command_body = do
    raise_if (not (CommandIdempotencyScope_valid scope)) value
    resolution ← reserve p scope raw_key body_hash correlation_id
    work resolution

  abbrev pub command : Tx CommandOutcome
  command = rethrow safe_exception do a ← in_transaction command_body; pure (outcome a)

  -- A command that raises, raises an IntakeError and commits nothing.
  pub command_error :
      (s : Session) (e : Exc)
      → Keeps (Uncommitted s.peer s.committed) command_body
      → (command s).0 ≡ err e
      → ((x : IntakeError) × (e ≡ intake x)) × ByOthers s.peer s.committed (command s).1.committed
  command_error s e k h =
      let (x, raised, safe, same) =
        returned_error safe_exception outcome (in_transaction command_body s) e h in
      (
        (_, safe),
        subst (λ (t : Session). ByOthers s.peer s.committed t.committed) (sym same)
            (in_transaction_error command_body s x k raised),
      )

  -- A command that returns has a record of its outcome.
  pub command-Recorded :
      ((r : Resolution)
        → Ends
            (Resolves scope (digest_of p raw_key) body_hash r)
            (work r)
            (λ a t. Recorded p scope raw_key body_hash (outcome a) t.working))
      → (s : Session) (o : CommandOutcome) → (command s).0 ≡ ok o
      → Recorded p scope raw_key body_hash o (command s).1.committed
  command-Recorded recorded s o h =
      WhenOk-at (λ x t. Recorded p scope raw_key body_hash x t.committed) (command s) o h
        (ended.at s tt)
    where
      body-Ends :
          Ends
            (On (λ d. Unit {0}))
            command_body
            (λ a t. Recorded p scope raw_key body_hash (outcome a) t.working)
      body-Ends =
          Ends-bind (raise_if (not (CommandIdempotencyScope_valid scope)) value) _
            (Keeps-raise_if _ _)
            λ _.
              Ends-seq (Resolves scope (digest_of p raw_key) body_hash)
                (reserve p scope raw_key body_hash correlation_id) work
                (reserve-Resolves p scope raw_key body_hash correlation_id) recorded

      ended : Ends (λ s. Unit {0}) command (λ x t. Recorded p scope raw_key body_hash x t.committed)
      ended = Ends-rethrow safe_exception _ _ (
          Ends-seq (λ a t. Recorded p scope raw_key body_hash (outcome a) t.committed)
            (in_transaction command_body) _
            (in_transaction-Ends (λ a d. Recorded p scope raw_key body_hash (outcome a) d)
              (On (λ d. Unit {0})) command_body (λ s. tt) body-Ends)
            λ a. record { at = λ s h. h })

  -- A command whose key is recorded is answered from the record, and commits no change.
  pub command-again :
      ((c : CompletedCommandReplay) (s : Session)
        → (a : A) × (work (completed_replay c) s ≡ (ok a, s)) × (outcome a ≡ replay_outcome c))
      → (o : CommandOutcome) (u : Session) → Recorded p scope raw_key body_hash o u.committed
      → u.faults ≡ []
      → CommandIdempotencyScope_valid scope ≡ true
      → hash_valid body_hash ≡ true
      → key_usable raw_key ≡ true
      → ((command u).0 ≡ ok (replay_of o)) × ((command u).1.committed ≡ u.committed)
  unfolding in_transaction close commit statement answer replay_outcome
  command-again works o u r none_fail valid hash key =
      let (c, classified, status_eq, command_eq, snapshot_eq) =
        classify-again scope (digest_of p raw_key) body_hash o.logical_http_status o.command_id
          o.safe_snapshot (begun u) r in
      let (a, worked, replayed_as) = works c (begun u) in
      let reserved =
        reserve-again p scope raw_key body_hash correlation_id (begun u) r.row c
          (_, refl, refl, refl) none_fail hash key r.found classified in
      answered c a status_eq command_eq snapshot_eq worked replayed_as reserved
    where
      answered :
          (c : CompletedCommandReplay) (a : A)
          → c.logical_http_status ≡ o.logical_http_status
          → c.command_id ≡ o.command_id
          → c.safe_response_snapshot ≡ o.safe_snapshot
          → work (completed_replay c) (begun u) ≡ (ok a, begun u)
          → outcome a ≡ replay_outcome c
          → reserve p scope raw_key body_hash correlation_id (begun u)
            ≡ (ok (completed_replay c), begun u)
          → ((command u).0 ≡ ok (replay_of o)) × ((command u).1.committed ≡ u.committed)
      answered c a status_eq command_eq snapshot_eq worked replayed_as reserved =
          let returned : command_body (begun u) ≡ (ok a, begun u) = ground arith in
          ground (arith, returned)

  -- A command whose key is recorded with another body is refused, and commits no change.
  pub command_other_body :
      (recorded_hash : Text) (o : CommandOutcome) (u : Session)
      → Recorded p scope raw_key recorded_hash o u.committed
      → text_eq recorded_hash body_hash ≡ false
      → u.faults ≡ []
      → CommandIdempotencyScope_valid scope ≡ true
      → hash_valid body_hash ≡ true
      → key_usable raw_key ≡ true
      → ((command u).0 ≡ err (intake idempotency_conflict))
        × ((command u).1.committed ≡ u.committed)
  unfolding in_transaction close
  command_other_body recorded_hash o u r differs none_fail valid hash key =
      let refused =
        reserve_refused p scope raw_key body_hash correlation_id (begun u) r.row
          (intake idempotency_conflict) (_, refl, refl, refl) none_fail hash key r.found
          (classify_other_body scope (digest_of p raw_key) recorded_hash body_hash
            o.logical_http_status o.command_id o.safe_snapshot (begun u) r differs) in
      let raised : command_body (begun u) ≡ (err (intake idempotency_conflict), begun u) =
        ground arith in
      ground (arith, raised)
