-- ===== src/Idempotency/Isolation.antt =====
-- Reserving and completing keep every property that does not look at the working database.
use ai_oas.Base.{ℕ, Text, Bool, true, false, Option, none, some, not}
use ai_oas.Errors.{
  Result, ok, err, intake, operational, integrity, database, runtime, value, unexpected,
}
use ai_oas.Json.{Json}
use ai_oas.Platform.{Platform}
use ai_oas.Models.{CommandIdempotencyScope, CommandIdempotencyRecord, hash_valid}
use ai_oas.Session.{Session, gets, lift, raise_if, rethrow, uuid4, interleave, release}
use ai_oas.Session.Reason.{Keeps, Keeps-bind, Keeps-lift, Keeps-gets, Keeps-raise_if, Keeps-rethrow}
use ai_oas.Session.Statements.{Keeps-query, Keeps-uuid4, Keeps-write}
use ai_oas.Session.Committing.{IgnoresWorking}
use ai_oas.Idempotency.Apart.{Keeps-complete_apart}
use ai_oas.Rows.Keep.{KeptByRows}
use ai_oas.Idempotency.Keys.{command_key_digest}
use ai_oas.Idempotency.Service.{
  NewCommandReservation, SecretDeliveryMetadata, CallbackAuthorizationMetadata, dependency_error,
  require_outer_transaction, find, settle, insert_command, accepts_command, add_command, try_insert,
  race_lost, resolve_winner, after_insert, insert_reservation, resolve_existing, reserve,
  processing_record,
}
use ai_oas.Idempotency.Completion.{complete}

module _ (P : Session → Type 0) (ignores : IgnoresWorking P) where
  pub IgnoresWorking-kept : KeptByRows P
  IgnoresWorking-kept = record { stable = ignores.stable; moved = λ s d e h. ignores.working s d h }

  Keeps-find : (scope : CommandIdempotencyScope) (digest : Text) → Keeps P (find scope digest)
  unfolding find
  Keeps-find scope digest = Keeps-query P ignores.stable _

  Keeps-insert_command : (r : CommandIdempotencyRecord) → Keeps P (insert_command r)
  unfolding insert_command
  Keeps-insert_command r =
      Keeps-write P ignores.stable (accepts_command r) (add_command r)
        (λ s h. ignores.working s _ h)

  released : (before : Session) (x : Result (Unit {0}) × Session) → P x.1 → P (release before x).1
  released before (ok a, s) h = h
  released before (err e, s) h = ignores.working s _ h

  settled : (x : Result (Unit {0}) × Session) → P x.1 → P (settle x).1
  unfolding settle
  settled (ok _, s) h = h
  settled (err integrity, s) h = h
  settled (err (intake e), s) h = h
  settled (err operational, s) h = h
  settled (err database, s) h = h
  settled (err runtime, s) h = h
  settled (err value, s) h = h
  settled (err unexpected, s) h = h

  Keeps-try_insert : (r : CommandIdempotencyRecord) → Keeps P (try_insert r)
  unfolding try_insert
  Keeps-try_insert r = record {
    at = λ s h. settled _ (released s (insert_command r s) ((Keeps-insert_command r).at s h));
  }

  Keeps-interleave : Keeps P interleave
  Keeps-interleave = record { at = λ s h. ignores.others s h }

  module _ (scope : CommandIdempotencyScope) (digest body_hash : Text) where
    Keeps-race_lost : Keeps P (race_lost scope digest body_hash)
    unfolding race_lost
    Keeps-race_lost =
        Keeps-bind (rethrow dependency_error (find scope digest)) _
          (Keeps-rethrow dependency_error (find scope digest) (Keeps-find scope digest))
          λ w. Keeps-lift (resolve_winner w body_hash)

    Keeps-after_insert :
        (outer : ℕ) (r : CommandIdempotencyRecord) (b : Bool)
        → Keeps P (after_insert scope digest body_hash outer r b)
    unfolding after_insert
    Keeps-after_insert outer r true = record { at = λ s h. h }
    Keeps-after_insert outer r false = Keeps-race_lost

    Keeps-insert_reservation :
        (outer : ℕ) (r : CommandIdempotencyRecord)
        → Keeps P (insert_reservation scope digest body_hash outer r)
    unfolding insert_reservation
    Keeps-insert_reservation outer r =
        Keeps-bind interleave _ Keeps-interleave
          λ _. Keeps-bind (try_insert r) _ (Keeps-try_insert r) (Keeps-after_insert outer r)

    Keeps-resolve_existing :
        (p : Platform) (correlation_id outer : ℕ) (e : Option CommandIdempotencyRecord)
        → Keeps P (resolve_existing p scope digest body_hash correlation_id outer e)
    unfolding resolve_existing
    Keeps-resolve_existing p correlation_id outer (some r) = record { at = λ s h. h }
    Keeps-resolve_existing p correlation_id outer none =
        Keeps-bind (uuid4 p) _ (Keeps-uuid4 P ignores.stable p) λ id.
          Keeps-bind (uuid4 p) _ (Keeps-uuid4 P ignores.stable p) λ command_id.
            Keeps-bind (gets (λ s. s.now)) _ (Keeps-gets (λ s. s.now)) λ now.
              Keeps-insert_reservation outer
                (processing_record scope digest body_hash id command_id correlation_id now)

  pub Keeps-reserve :
      (p : Platform) (scope : CommandIdempotencyScope) (raw_key body_hash : Text)
      (correlation_id : ℕ)
      → Keeps P (reserve p scope raw_key body_hash correlation_id)
  unfolding reserve
  Keeps-reserve p scope raw_key body_hash correlation_id =
      Keeps-bind require_outer_transaction _ (record { at = λ s h. h })
        λ outer.
          Keeps-bind (raise_if (not (hash_valid body_hash)) value) _
            (Keeps-raise_if (not (hash_valid body_hash)) value)
            λ _.
              Keeps-bind (lift (command_key_digest p raw_key)) _
                (Keeps-lift (command_key_digest p raw_key))
                λ digest.
                  Keeps-bind (rethrow dependency_error (find scope digest)) _
                    (Keeps-rethrow dependency_error (find scope digest) (Keeps-find scope digest))
                    (Keeps-resolve_existing scope digest body_hash p correlation_id outer)

  pub Keeps-complete :
      (p : Platform) (reservation : NewCommandReservation) (status : ℕ) (snapshot : Json)
      (secret : Option SecretDeliveryMetadata)
      (authorization : Option CallbackAuthorizationMetadata)
      → Keeps P (complete p reservation status snapshot secret authorization)
  Keeps-complete =
      Keeps-complete_apart P
        (record { stable = ignores.stable; commands = λ s l h. ignores.working s _ h })
