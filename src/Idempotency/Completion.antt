-- ===== src/Idempotency/Completion.antt =====
-- command_idempotency/service.py: `complete`.
use ai_oas.Base.{
  ℕ, Bool, true, false, any_of, Option, none, some, ◌&&◌, not, leb, ◌==◌, find_first, update_where,
  if◌then◌else◌,
}
use ai_oas.Errors.{intake, value, Result, ok, err, dependency_unavailable}
use ai_oas.Json.{Json}
use ai_oas.Platform.{Platform}
use ai_oas.Models.{
  CommandIdempotencyRecord, completed, CommandIdempotencyRecord_checks, plaintext_issued,
}
use ai_oas.Tables.{Db}
use ai_oas.Session.{Tx, gets, lift, ◌>>=◌, ◌>>◌, raise_if, rethrow, query, write, func_now}
use ai_oas.Idempotency.Snapshots.{validate_safe_snapshot}
use ai_oas.Idempotency.Service.{
  NewCommandReservation, SecretDeliveryMetadata, CallbackAuthorizationMetadata,
  CompletedCommandReplay, dependency_error, require_outer_transaction, is_completed, result_of,
}

-- the reservation belongs to this session and to its active outer transaction
unfoldable pub owns : NewCommandReservation → ℕ → ℕ → Bool
owns reservation session outer =
    reservation.session == session && reservation.outer_transaction == outer

abbrev with_secret :
    Option SecretDeliveryMetadata → CommandIdempotencyRecord → CommandIdempotencyRecord
with_secret none r = r
with_secret (some m) r = record r {
  callback_credential_id = some m.callback_credential_id;
  callback_credential_version = some m.callback_credential_version;
  callback_credential_expires_at = some m.callback_credential_expires_at;
  secret_delivery_receipt = some plaintext_issued;
}

abbrev with_authorization :
    Option CallbackAuthorizationMetadata → CommandIdempotencyRecord → CommandIdempotencyRecord
with_authorization none r = r
with_authorization (some m) r = record r {
  callback_authorization_credential_id = some m.callback_credential_id;
  callback_authorization_credential_version = some m.callback_credential_version;
}

abbrev pub completed_record :
    ℕ
    → Json
    → ℕ
    → Option SecretDeliveryMetadata
    → Option CallbackAuthorizationMetadata
    → CommandIdempotencyRecord
    → CommandIdempotencyRecord
completed_record status snapshot now secret authorization r = with_authorization authorization (
    with_secret secret (record r {
      status = completed;
      logical_http_status = some status;
      safe_response_snapshot = some snapshot;
      completed_at = some now;
    }))

-- The record of the reservation, if its status is still "Processing".
abbrev pub eligible : Option CommandIdempotencyRecord → Result CommandIdempotencyRecord
eligible none = err value
eligible (some r) = if is_completed r.status then err value else ok r

abbrev pub clocked : Option ℕ → Result ℕ
clocked none = err (intake dependency_unavailable)
clocked (some t) = ok t

abbrev pub replace_command : CommandIdempotencyRecord → Db → Db
replace_command r d = record d {
  command_records = update_where (λ x. x.id == r.id) (λ _. r) d.command_records;
}

-- the foreign keys to attempt_callback_credentials
unfoldable pub credential_exists : Option ℕ → Db → Bool
credential_exists none d = true
credential_exists (some id) d = any_of (λ c. c.id == id) d.callback_credentials

unfoldable pub accepts_completion : CommandIdempotencyRecord → Db → Bool
unfolding CommandIdempotencyRecord_checks credential_exists
accepts_completion r d =
    CommandIdempotencyRecord_checks r
    && credential_exists r.callback_credential_id d
    && credential_exists r.callback_authorization_credential_id d

unfoldable pub update_command : CommandIdempotencyRecord → Tx (Unit {0})
unfolding write accepts_completion
update_command r = write (accepts_completion r) (replace_command r)

-- `complete` from the assignments to the record on
unfoldable pub write_completion :
    ℕ
    → Json
    → Option SecretDeliveryMetadata
    → Option CallbackAuthorizationMetadata
    → CommandIdempotencyRecord
    → ℕ
    → Tx CompletedCommandReplay
unfolding update_command result_of
write_completion status snapshot secret authorization row now = do
  rethrow dependency_error
      (update_command (completed_record status snapshot now secret authorization row))
  lift (result_of (completed_record status snapshot now secret authorization row) false)

-- `complete` from the look-up of the record on
unfoldable pub complete_found :
    ℕ
    → Json
    → Option SecretDeliveryMetadata
    → Option CallbackAuthorizationMetadata
    → Option CommandIdempotencyRecord
    → Tx CompletedCommandReplay
unfolding func_now write_completion
complete_found status snapshot secret authorization found = do
  row ← lift (eligible found)
  clock ← rethrow dependency_error func_now
  now ← lift (clocked clock)
  write_completion status snapshot secret authorization row now

abbrev pub status_ok : ℕ → Bool
status_ok status = leb 200 status && leb status 599

unfoldable pub complete :
    Platform
    → NewCommandReservation
    → ℕ
    → Json
    → Option SecretDeliveryMetadata
    → Option CallbackAuthorizationMetadata
    → Tx CompletedCommandReplay
unfolding require_outer_transaction owns validate_safe_snapshot query complete_found
complete p reservation status safe_response_snapshot secret authorization = do
  outer ← require_outer_transaction
  session ← gets (λ s. s.identity)
  raise_if (not (owns reservation session outer)) value
  raise_if (not (status_ok status)) value
  snapshot ← lift (validate_safe_snapshot p safe_response_snapshot)
  found ←
      rethrow dependency_error
        (query (λ d. find_first (λ r. r.id == reservation.record_id) d.command_records))
  complete_found status snapshot secret authorization found
