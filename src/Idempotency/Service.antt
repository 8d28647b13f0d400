-- ===== src/Idempotency/Service.antt =====
-- command_idempotency/service.py: `CommandIdempotencyService` and the results of models.py.
use ai_oas.Base.{
  ℕ, Text, Bool, true, false, Option, none, some, ◌∷◌, ◌&&◌, ◌||◌, not, ◌==◌, str_eq, text_eq,
  find_first, any_of, if◌then◌else◌,
}
use ai_oas.Errors.{
  IntakeError, intake_error, Exc, intake, operational, integrity, database, runtime, value, Result,
  ok, err, dependency_unavailable, internal_error,
}
use ai_oas.Json.{Json}
use ai_oas.Platform.{Platform}
use ai_oas.Models.{
  CommandIdempotencyScope, CommandIdempotencyRecord, CommandStatus, processing, completed,
  CommandIdempotencyRecord_checks, same_scope_key, is_plaintext_issued, hash_valid,
}
use ai_oas.Tables.{Db}
use ai_oas.Session.{
  Session, Transaction, Tx, pure, gets, lift, ◌>>=◌, ◌>>◌, raise_if, rethrow, query, write, uuid4,
  interleave, begin_nested,
}
use ai_oas.Idempotency.Keys.{command_key_digest}

-- `_session` and `_outer_transaction` are kept by their identity.
pub record NewCommandReservation : Type 0 where
  pub record_id : ℕ
  pub command_id : ℕ
  pub correlation_id : ℕ
  pub session : ℕ
  pub outer_transaction : ℕ

pub record SecretDeliveryMetadata : Type 0 where
  pub callback_credential_id : ℕ
  pub callback_credential_version : ℕ
  pub callback_credential_expires_at : ℕ

pub record CallbackAuthorizationMetadata : Type 0 where
  pub callback_credential_id : ℕ
  pub callback_credential_version : ℕ

-- `credential_delivery` is "AlreadyIssued" or None.
pub record CompletedCommandReplay : Type 0 where
  pub record_id : ℕ
  pub command_id : ℕ
  pub original_correlation_id : ℕ
  pub logical_http_status : ℕ
  pub safe_response_snapshot : Json
  pub completed_at : ℕ
  pub callback_credential_id : Option ℕ
  pub callback_credential_version : Option ℕ
  pub callback_credential_expires_at : Option ℕ
  pub callback_authorization_credential_id : Option ℕ
  pub callback_authorization_credential_version : Option ℕ
  pub already_issued : Bool

pub data Resolution : Type 0 where
  new_reservation : NewCommandReservation → Resolution
  completed_replay : CompletedCommandReplay → Resolution

-- `except SQLAlchemyError: raise self._dependency_error()`
abbrev pub dependency_error : Exc → Exc
dependency_error operational = intake dependency_unavailable
dependency_error integrity = intake dependency_unavailable
dependency_error database = intake dependency_unavailable
dependency_error e = e

owned : Option Transaction → Result ℕ
owned none = err runtime
owned (some t) = if t.is_active && t.origin_begin then ok t.number else err runtime

unfoldable pub require_outer_transaction : Tx ℕ
unfolding owned
require_outer_transaction s = (owned s.transaction, s)

-- the `where` of `_find`
unfoldable pub in_scope : CommandIdempotencyScope → Text → CommandIdempotencyRecord → Bool
in_scope scope digest r =
    str_eq r.actor_class scope.actor_class
    && r.actor_id == scope.actor_id
    && str_eq r.command_intent scope.command_intent
    && str_eq r.route_template scope.route_template
    && str_eq r.target_type scope.target_type
    && r.target_id == scope.target_id
    && text_eq r.idempotency_key_digest digest

unfoldable pub find : CommandIdempotencyScope → Text → Tx (Option CommandIdempotencyRecord)
unfolding query
find scope digest = query (λ d. find_first (in_scope scope digest) d.command_records)

abbrev pub build_result : CommandIdempotencyRecord → Bool → ℕ → Json → ℕ → CompletedCommandReplay
build_result r is_replay status snapshot completed_at = record {
  record_id = r.id;
  command_id = r.command_id;
  original_correlation_id = r.correlation_id;
  logical_http_status = status;
  safe_response_snapshot = snapshot;
  completed_at = completed_at;
  callback_credential_id = r.callback_credential_id;
  callback_credential_version = r.callback_credential_version;
  callback_credential_expires_at = r.callback_credential_expires_at;
  callback_authorization_credential_id = r.callback_authorization_credential_id;
  callback_authorization_credential_version = r.callback_authorization_credential_version;
  already_issued = is_replay && is_plaintext_issued r.secret_delivery_receipt;
}

present :
    Option ℕ
    → Option Json
    → Option ℕ
    → (ℕ → Json → ℕ → CompletedCommandReplay)
    → Result CompletedCommandReplay
present (some status) (some snapshot) (some completed_at) k = ok (k status snapshot completed_at)
present _ _ _ k = err value

-- `_result`; the model refuses a record without a status, a snapshot or a time.
unfoldable pub result_of : CommandIdempotencyRecord → Bool → Result CompletedCommandReplay
unfolding present
result_of r is_replay =
    present r.logical_http_status r.safe_response_snapshot r.completed_at (build_result r is_replay)

abbrev pub idempotency_conflict : IntakeError
idempotency_conflict =
    intake_error 409 "COMMAND_IDEMPOTENCY_CONFLICT"
      "The idempotency key was already used for a different command."

abbrev pub is_completed : CommandStatus → Bool
is_completed completed = true
is_completed processing = false

unfoldable pub classify : CommandIdempotencyRecord → Text → Result CompletedCommandReplay
unfolding result_of
classify r body_hash =
    if text_eq r.canonical_body_hash body_hash
    then if is_completed r.status then result_of r true else err (intake internal_error)
    else err (intake idempotency_conflict)

abbrev pub replayed : Result CompletedCommandReplay → Result Resolution
replayed (ok c) = ok (completed_replay c)
replayed (err e) = err e

abbrev pub processing_record :
    CommandIdempotencyScope → Text → Text → ℕ → ℕ → ℕ → ℕ → CommandIdempotencyRecord
processing_record scope key_digest body_hash id command_id correlation_id now = record {
  id = id;
  actor_class = scope.actor_class;
  actor_id = scope.actor_id;
  command_intent = scope.command_intent;
  route_template = scope.route_template;
  target_type = scope.target_type;
  target_id = scope.target_id;
  idempotency_key_digest = key_digest;
  canonical_body_hash = body_hash;
  status = processing;
  command_id = command_id;
  correlation_id = correlation_id;
  logical_http_status = none;
  safe_response_snapshot = none;
  completed_at = none;
  callback_credential_id = none;
  callback_credential_version = none;
  callback_credential_expires_at = none;
  secret_delivery_receipt = none;
  callback_authorization_credential_id = none;
  callback_authorization_credential_version = none;
  created_at = now;
}

-- The primary key and the unique constraints of the table.
unfoldable pub command_clash : CommandIdempotencyRecord → CommandIdempotencyRecord → Bool
unfolding same_scope_key
command_clash a b = a.id == b.id || a.command_id == b.command_id || same_scope_key a b

unfoldable pub accepts_command : CommandIdempotencyRecord → Db → Bool
unfolding CommandIdempotencyRecord_checks command_clash
accepts_command r d =
    CommandIdempotencyRecord_checks r && not (any_of (command_clash r) d.command_records)

abbrev pub add_command : CommandIdempotencyRecord → Db → Db
add_command r d = record d { command_records = r ∷ d.command_records }

unfoldable pub insert_command : CommandIdempotencyRecord → Tx (Unit {0})
unfolding write accepts_command
insert_command r = write (accepts_command r) (add_command r)

-- `except IntegrityError` is answered by `false`; any other database error is a dependency error.
unfoldable pub settle : Result (Unit {0}) × Session → Result Bool × Session
settle (ok _, s) = (ok true, s)
settle (err integrity, s) = (ok false, s)
settle (err e, s) = (err (dependency_error e), s)

unfoldable pub try_insert : CommandIdempotencyRecord → Tx Bool
unfolding settle begin_nested insert_command
try_insert r s = settle (begin_nested (insert_command r) s)

unfoldable pub resolve_winner : Option CommandIdempotencyRecord → Text → Result Resolution
unfolding classify
resolve_winner none body_hash = err (intake dependency_unavailable)
resolve_winner (some winner) body_hash = replayed (classify winner body_hash)

unfoldable pub race_lost : CommandIdempotencyScope → Text → Text → Tx Resolution
unfolding find resolve_winner
race_lost scope key_digest body_hash = do
  winner ← rethrow dependency_error (find scope key_digest)
  lift (resolve_winner winner body_hash)

abbrev pub reservation_of : CommandIdempotencyRecord → ℕ → ℕ → NewCommandReservation
reservation_of r session outer = record {
  record_id = r.id;
  command_id = r.command_id;
  correlation_id = r.correlation_id;
  session = session;
  outer_transaction = outer;
}

-- what follows the savepoint: the new reservation, or the record of the winner
unfoldable pub after_insert :
    CommandIdempotencyScope → Text → Text → ℕ → CommandIdempotencyRecord → Bool → Tx Resolution
unfolding race_lost
after_insert scope key_digest body_hash outer r true = do
  session ← gets (λ s. s.identity)
  pure (new_reservation (reservation_of r session outer))
after_insert scope key_digest body_hash outer r false = race_lost scope key_digest body_hash

unfoldable pub insert_reservation :
    CommandIdempotencyScope → Text → Text → ℕ → CommandIdempotencyRecord → Tx Resolution
unfolding interleave try_insert after_insert
insert_reservation scope key_digest body_hash outer r = do
  interleave
  inserted ← try_insert r
  after_insert scope key_digest body_hash outer r inserted

unfoldable pub reserve_new :
    Platform → CommandIdempotencyScope → Text → Text → ℕ → ℕ → Tx Resolution
unfolding uuid4 insert_reservation
reserve_new p scope key_digest body_hash correlation_id outer = do
  id ← uuid4 p
  command_id ← uuid4 p
  now ← gets (λ s. s.now)
  insert_reservation scope key_digest body_hash outer
      (processing_record scope key_digest body_hash id command_id correlation_id now)

unfoldable pub resolve_existing :
    Platform
    → CommandIdempotencyScope
    → Text
    → Text
    → ℕ
    → ℕ
    → Option CommandIdempotencyRecord
    → Tx Resolution
unfolding classify reserve_new
resolve_existing p scope key_digest body_hash correlation_id outer (some existing) =
    lift (replayed (classify existing body_hash))
resolve_existing p scope key_digest body_hash correlation_id outer none =
    reserve_new p scope key_digest body_hash correlation_id outer

unfoldable pub reserve : Platform → CommandIdempotencyScope → Text → Text → ℕ → Tx Resolution
unfolding require_outer_transaction hash_valid command_key_digest find resolve_existing
reserve p scope raw_key body_hash correlation_id = do
  outer ← require_outer_transaction
  raise_if (not (hash_valid body_hash)) value
  key_digest ← lift (command_key_digest p raw_key)
  existing ← rethrow dependency_error (find scope key_digest)
  resolve_existing p scope key_digest body_hash correlation_id outer existing
