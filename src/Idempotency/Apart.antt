-- ===== src/Idempotency/Apart.antt =====
-- Completing a command keeps every property that does not look at the command records.
use ai_oas.Base.{List, ℕ, Option, not}
use ai_oas.Errors.{value}
use ai_oas.Json.{Json}
use ai_oas.Platform.{Platform}
use ai_oas.Models.{CommandIdempotencyRecord}
use ai_oas.Session.{Session, gets, lift, raise_if, rethrow, query, func_now}
use ai_oas.Session.Reason.{Keeps, Keeps-bind, Keeps-lift, Keeps-gets, Keeps-raise_if, Keeps-rethrow}
use ai_oas.Session.Statements.{IsStable, Keeps-query, Keeps-func_now, Keeps-write}
use ai_oas.Idempotency.Snapshots.{validate_safe_snapshot}
use ai_oas.Idempotency.Service.{
  NewCommandReservation, SecretDeliveryMetadata, CallbackAuthorizationMetadata, dependency_error,
  require_outer_transaction,
}
use ai_oas.Idempotency.Completion.{
  owns, status_ok, eligible, clocked, update_command, accepts_completion, replace_command,
  completed_record, complete_found, complete,
}

-- A property that does not look at the command records.
pub record KeptByCommands (P : Session → Type 0) : Type 0 where
  pub stable : IsStable P
  pub commands :
      (s : Session) (l : List CommandIdempotencyRecord)
      → P s
      → P (record s { working = let d = s.working in record d { command_records = l } })

module _ (P : Session → Type 0) (ignores : KeptByCommands P) where
  Keeps-complete_found :
      (status : ℕ) (snapshot : Json) (secret : Option SecretDeliveryMetadata)
      (authorization : Option CallbackAuthorizationMetadata)
      (found : Option CommandIdempotencyRecord)
      → Keeps P (complete_found status snapshot secret authorization found)
  unfolding complete_found
  Keeps-complete_found status snapshot secret authorization found =
      Keeps-bind (lift (eligible found)) _ (Keeps-lift (eligible found)) λ row.
        Keeps-bind (rethrow dependency_error func_now) _
          (Keeps-rethrow dependency_error func_now (Keeps-func_now P ignores.stable))
          λ clock. Keeps-bind (lift (clocked clock)) _ (Keeps-lift (clocked clock)) λ now.
            let r : CommandIdempotencyRecord =
              completed_record status snapshot now secret authorization row in
            Keeps-bind (rethrow dependency_error (update_command r)) _
              (Keeps-rethrow dependency_error (update_command r) (
                Keeps-write P ignores.stable (accepts_completion r) (replace_command r)
                  (λ s h. ignores.commands s _ h)))
              λ _. Keeps-lift _

  pub Keeps-complete_apart :
      (p : Platform) (reservation : NewCommandReservation) (status : ℕ) (snapshot : Json)
      (secret : Option SecretDeliveryMetadata)
      (authorization : Option CallbackAuthorizationMetadata)
      → Keeps P (complete p reservation status snapshot secret authorization)
  unfolding complete
  Keeps-complete_apart p reservation status snapshot secret authorization =
      Keeps-bind require_outer_transaction _ (record { at = λ s h. h })
        λ outer. Keeps-bind (gets (λ s. s.identity)) _ (Keeps-gets (λ s. s.identity)) λ session.
          Keeps-bind (raise_if (not (owns reservation session outer)) value) _
            (Keeps-raise_if (not (owns reservation session outer)) value)
            λ _.
              Keeps-bind (raise_if (not (status_ok status)) value) _
                (Keeps-raise_if (not (status_ok status)) value)
                λ _.
                  Keeps-bind (lift (validate_safe_snapshot p snapshot)) _
                    (Keeps-lift (validate_safe_snapshot p snapshot))
                    λ kept.
                      Keeps-bind (rethrow dependency_error (query _)) _
                        (Keeps-rethrow dependency_error (query _) (Keeps-query P ignores.stable _))
                        (Keeps-complete_found status kept secret authorization)
