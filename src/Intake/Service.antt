-- ===== src/Intake/Service.antt =====
-- intake/service.py: `_reservation`, `_create_replay`, `_create_conflict` and `process_valid`.
use ai_oas.Base.{ℕ, String, Text, Option, none, some, [], ◌∷◌, text_eq, find_first, if◌then◌else◌}
use ai_oas.Json.{Json, str, num, obj, end, field, entry}
use ai_oas.Errors.{
  Result, ok, err, intake, integrity, runtime, value, unexpected, IntakeError, intake_error,
}
use ai_oas.Platform.{Platform}
use ai_oas.Models.{InboundDelivery, ProcessingStatus, IntakeOutcome, AcceptedIntakeKey}
use ai_oas.Session.{Session, Tx, pure, raise, lift, gets, query, uuid4, in_transaction, ◌>>=◌, ◌>>◌}
use ai_oas.Intake.Payload.{IntakeRequest, canonical_payload_hash}
use ai_oas.Intake.Rows.{insert_delivery}
use ai_oas.Intake.New.{
  IntakeServiceResult, intake_scope, in_intake_scope, new_event, flush_event, create_new,
}

unfoldable pub reservation : Text → Tx (Option AcceptedIntakeKey)
unfolding query
reservation key_digest = query (λ d. find_first (in_intake_scope key_digest) d.accepted_intake_keys)

abbrev pub conflict_error : ℕ → IntakeError
conflict_error delivery_id =
    let e : IntakeError =
      intake_error 409 "IDEMPOTENCY_CONFLICT"
        "The idempotency key was already accepted for a different request." in
    record e { delivery_id = some delivery_id }

module _ (p : Platform) where
  abbrev pub parsed : Option ℕ → Result ℕ
  parsed none = err value
  parsed (some u) = ok u

  -- `uuid.UUID(snapshot[name])`
  abbrev pub as_uuid : Option Json → Result ℕ
  as_uuid (some (str s)) = parsed (p.uuid_parse s)
  as_uuid _ = err unexpected

  -- `int(snapshot[name])` of a number, the only value that is written there
  abbrev pub as_int : Option Json → Result ℕ
  as_int (some (num n)) = ok n
  as_int _ = err unexpected

  abbrev pub replay_delivery : AcceptedIntakeKey → ℕ → String → ℕ → ℕ → ℕ → ℕ → InboundDelivery
  replay_delivery key correlation_id schema_version delivery_id request_id original_delivery_id
        completed_at =
      record {
        id = delivery_id;
        scope = intake_scope;
        idempotency_key_digest = key.idempotency_key_digest;
        processing_status = ProcessingStatus.accepted;
        schema_version = schema_version;
        version = 1;
        correlation_id = correlation_id;
        canonical_payload_hash = some key.canonical_payload_hash;
        raw_body_fingerprint = none;
        intake_outcome = some IntakeOutcome.idempotent_replay;
        original_delivery_id = some original_delivery_id;
        created_request_id = none;
        logical_result_request_id = some request_id;
        accepted_intake_key_id = some key.id;
        sanitized_issues = none;
        sanitized_error_code = none;
        completed_at = some completed_at;
      }

  abbrev pub replay_payload : ℕ → ℕ → ℕ → Json
  replay_payload delivery_id original_delivery_id request_id = obj (
      field "delivery_id" (str (p.uuid_str delivery_id)) (
        field "original_delivery_id" (str (p.uuid_str original_delivery_id)) (
          field "intake_outcome" (str "IdempotentReplay")
            (field "service_request_id" (str (p.uuid_str request_id)) end))))

  -- the rows of a replay, and the version that its response names
  unfoldable pub store_replay : AcceptedIntakeKey → ℕ → String → ℕ → ℕ → ℕ → Tx ℕ
  unfolding entry new_event insert_delivery flush_event
  store_replay key correlation_id schema_version delivery_id request_id original_delivery_id = do
    completed_at ← gets (λ s. p.utc_now s.drawn)
    event ←
        new_event p "inbound_delivery.accepted" "InboundDelivery" delivery_id delivery_id
          correlation_id "IdempotentReplay" []
          (replay_payload delivery_id original_delivery_id request_id)
    request_version ← lift (as_int (entry "service_request_version" key.safe_response_snapshot))
    insert_delivery (
        replay_delivery key correlation_id schema_version delivery_id request_id
          original_delivery_id completed_at)
    flush_event p event
    pure request_version

  abbrev pub replay_result : ℕ → ℕ → ℕ → ℕ → ℕ → IntakeServiceResult
  replay_result correlation_id delivery_id request_id original_delivery_id request_version =
      record {
        status_code = 200;
        correlation_id = correlation_id;
        delivery_id = delivery_id;
        service_request_id = request_id;
        intake_outcome = IntakeOutcome.idempotent_replay;
        original_delivery_id = some original_delivery_id;
        inbound_delivery = 1;
        service_request = request_version;
        location = none;
      }

  unfoldable pub create_replay : AcceptedIntakeKey → ℕ → String → Tx IntakeServiceResult
  unfolding uuid4 entry store_replay
  create_replay key correlation_id schema_version = do
    delivery_id ← uuid4 p
    request_id ← lift (as_uuid (entry "service_request_id" key.safe_response_snapshot))
    original_delivery_id ← lift (as_uuid (entry "original_delivery_id" key.safe_response_snapshot))
    request_version ←
        store_replay key correlation_id schema_version delivery_id request_id original_delivery_id
    pure (replay_result correlation_id delivery_id request_id original_delivery_id request_version)

  abbrev pub rejected_delivery :
      Text → ℕ → String → ℕ → Option Text → IntakeOutcome → String → ℕ → InboundDelivery
  rejected_delivery key_digest correlation_id schema_version delivery_id fingerprint outcome
        error_code completed_at =
      record {
        id = delivery_id;
        scope = intake_scope;
        idempotency_key_digest = key_digest;
        processing_status = ProcessingStatus.rejected;
        schema_version = schema_version;
        version = 1;
        correlation_id = correlation_id;
        canonical_payload_hash = none;
        raw_body_fingerprint = fingerprint;
        intake_outcome = some outcome;
        original_delivery_id = none;
        created_request_id = none;
        logical_result_request_id = none;
        accepted_intake_key_id = none;
        sanitized_issues = none;
        sanitized_error_code = some error_code;
        completed_at = some completed_at;
      }

  abbrev pub rejected_payload : ℕ → String → Json
  rejected_payload delivery_id outcome = obj (
      field "delivery_id" (str (p.uuid_str delivery_id)) (field "intake_outcome" (str outcome) end))

  unfoldable pub create_conflict : AcceptedIntakeKey → ℕ → String → Option Text → Tx ℕ
  unfolding uuid4 new_event insert_delivery flush_event
  create_conflict key correlation_id schema_version fingerprint = do
    delivery_id ← uuid4 p
    completed_at ← gets (λ s. p.utc_now s.drawn)
    let delivery =
        rejected_delivery key.idempotency_key_digest correlation_id schema_version delivery_id
          fingerprint IntakeOutcome.idempotency_conflict "IDEMPOTENCY_CONFLICT" completed_at
    event ←
        new_event p "inbound_delivery.rejected" "InboundDelivery" delivery_id delivery_id
          correlation_id "IdempotencyConflict" ("IDEMPOTENCY_CONFLICT" ∷ [])
          (rejected_payload delivery_id "IdempotencyConflict")
    insert_delivery (record delivery {
      original_delivery_id = some key.original_delivery_id;
      accepted_intake_key_id = some key.id;
    })
    flush_event p event
    pure delivery_id

  -- How a transaction that looks for the key ends: without one, with a replay, with the
  -- delivery of a conflict, or with the delivery of a rejected payload.
  pub data Found : Type 0 where
    absent : Found
    replayed : IntakeServiceResult → Found
    conflict : ℕ → Found
    rejected : ℕ → Found

  unfoldable pub answer_key : AcceptedIntakeKey → Text → ℕ → String → Tx Found
  unfolding create_replay create_conflict
  answer_key key payload_hash correlation_id schema_version =
      if text_eq key.canonical_payload_hash payload_hash
      then (create_replay key correlation_id schema_version >>= λ r. pure (replayed r))
      else (create_conflict key correlation_id schema_version none >>= λ id. pure (conflict id))

  unfoldable pub answer_found : Option AcceptedIntakeKey → Tx Found → Text → ℕ → String → Tx Found
  unfolding answer_key
  answer_found none missing payload_hash correlation_id schema_version = missing
  answer_found (some key) missing payload_hash correlation_id schema_version =
      answer_key key payload_hash correlation_id schema_version

  -- one `with self.session_factory() as session, session.begin()` that answers a known key
  unfoldable pub answer_known : Text → Tx Found → Text → ℕ → String → Tx Found
  unfolding in_transaction reservation answer_found
  answer_known key_digest missing payload_hash correlation_id schema_version = in_transaction (do
    found ← reservation key_digest
    answer_found found missing payload_hash correlation_id schema_version)

  -- A known key is returned or raised; without one the call goes on.
  abbrev pub settled : Found → Tx IntakeServiceResult → Tx IntakeServiceResult
  settled absent next = next
  settled (replayed r) next = pure r
  settled (conflict id) next = raise (intake (conflict_error id))
  settled (rejected id) next = raise runtime

  abbrev pub handle_race :
      Result IntakeServiceResult × Session
      → Tx IntakeServiceResult
      → Result IntakeServiceResult × Session
  handle_race (ok r, s) next = (ok r, s)
  handle_race (err integrity, s) next = next s
  handle_race (err e, s) next = (err e, s)

  -- `try: return self._create_new(...)`, then the look-up after an `IntegrityError`
  unfoldable pub create_or_resolve : IntakeRequest → Text → Text → ℕ → Tx IntakeServiceResult
  unfolding create_new answer_known
  create_or_resolve payload key_digest payload_hash correlation_id s =
      handle_race (create_new p payload key_digest payload_hash correlation_id s) (
        answer_known key_digest (raise integrity) payload_hash correlation_id payload.schema_version
        >>= λ found. settled found (raise runtime))

  unfoldable pub process_valid : IntakeRequest → Text → ℕ → Tx IntakeServiceResult
  unfolding canonical_payload_hash answer_known create_or_resolve
  process_valid payload key_digest correlation_id = do
    let payload_hash = canonical_payload_hash p payload
    found ← answer_known key_digest (pure absent) payload_hash correlation_id payload.schema_version
    settled found (create_or_resolve payload key_digest payload_hash correlation_id)
