-- ===== src/Intake/New.antt =====
-- intake/service.py: `_create_new` and `_add_event`. `datetime.now(UTC)` is a function of the
-- platform.
use ai_oas.Base.{ℕ, String, Text, Bool, ◌&&◌, Option, none, some, List, [], str_eq, text_eq}
use ai_oas.Json.{Json, str, num, obj, end, field}
use ai_oas.Errors.{integrity}
use ai_oas.Platform.{Platform}
use ai_oas.Models.{
  ServiceRequest, ServiceRequestStatus, InboundDelivery, ProcessingStatus, IntakeOutcome, Contact,
  AcceptedIntakeKey, AuditEvent, OutboxMessage, PublicationState,
}
use ai_oas.Session.{Tx, pure, gets, raise_if, uuid4, interleave, in_transaction, ◌>>=◌, ◌>>◌}
use ai_oas.Rows.{insert_audit, insert_outbox}
use ai_oas.Intake.Payload.{IntakeRequest}
use ai_oas.Intake.Rows.{
  insert_intake_key, insert_contact, insert_delivery, update_delivery, insert_request, key_refers,
}
use ai_oas.Base.{not}

abbrev pub intake_scope : String
intake_scope = "public-service-request-intake"

-- `IntakeServiceResult` with its `IntakeResponse`; `location` is the request that the URL names.
pub record IntakeServiceResult : Type 0 where
  pub status_code : ℕ
  pub correlation_id : ℕ
  pub delivery_id : ℕ
  pub service_request_id : ℕ
  pub intake_outcome : IntakeOutcome
  pub original_delivery_id : Option ℕ
  pub inbound_delivery : ℕ
  pub service_request : ℕ
  pub location : Option ℕ

abbrev pub in_intake_scope : Text → AcceptedIntakeKey → Bool
in_intake_scope key_digest k =
    str_eq k.scope intake_scope && text_eq k.idempotency_key_digest key_digest

module _ (p : Platform) where
  -- The two rows of `_add_event`, before they are flushed.
  unfoldable pub new_event :
      String → String → ℕ → ℕ → ℕ → String → List String → Json → Tx (AuditEvent × OutboxMessage)
  unfolding uuid4
  new_event event_name aggregate_type aggregate_id delivery_id correlation_id outcome reason_codes
        payload =
      do
        audit_id ← uuid4 p
        outbox_id ← uuid4 p
        pure (
          record {
            id = audit_id;
            schema_version = "1.0";
            event_name = event_name;
            aggregate_type = aggregate_type;
            aggregate_id = aggregate_id;
            aggregate_version = 1;
            actor_type = "Customer";
            actor_reference_id = delivery_id;
            outcome = outcome;
            correlation_id = correlation_id;
            causation_id = none;
            command_id = none;
            reason_codes = reason_codes;
            safe_metadata = obj end;
          },
          record {
            id = outbox_id;
            event_type = event_name;
            schema_version = "1.0";
            aggregate_type = aggregate_type;
            aggregate_id = aggregate_id;
            aggregate_version = 1;
            audit_event_id = audit_id;
            correlation_id = correlation_id;
            causation_id = none;
            payload = payload;
            publication_state = PublicationState.pending;
          },
        )

  unfoldable pub flush_event : AuditEvent × OutboxMessage → Tx (Unit {0})
  unfolding insert_audit insert_outbox
  flush_event (audit, message) = do insert_audit audit; insert_outbox message

  abbrev pub snapshot_of : ℕ → ℕ → Json
  snapshot_of delivery_id request_id = obj (
      field "original_delivery_id" (str (p.uuid_str delivery_id)) (
        field "service_request_id" (str (p.uuid_str request_id)) (
          field "service_request_status" (str "TriagePending") (
            field "inbound_delivery_version" (num 1)
              (field "service_request_version" (num 1) end)))))

  abbrev pub new_key : Text → Text → ℕ → ℕ → ℕ → AcceptedIntakeKey
  new_key key_digest payload_hash delivery_id request_id reservation_id = record {
    id = reservation_id;
    scope = intake_scope;
    idempotency_key_digest = key_digest;
    canonical_payload_hash = payload_hash;
    original_delivery_id = delivery_id;
    request_id = request_id;
    original_http_status = 201;
    safe_response_snapshot = snapshot_of delivery_id request_id;
  }

  abbrev pub contact_of : IntakeRequest → ℕ → Contact
  contact_of payload contact_id = record {
    id = contact_id;
    display_label = payload.contact.display_name;
    normalized_email = payload.contact.email;
    normalized_phone = payload.contact.phone;
    preferred_channel = payload.contact.preferred_channel;
    version = 1;
  }

  abbrev pub new_delivery : IntakeRequest → Text → Text → ℕ → ℕ → ℕ → InboundDelivery
  new_delivery payload key_digest payload_hash correlation_id delivery_id completed_at = record {
    id = delivery_id;
    scope = intake_scope;
    idempotency_key_digest = key_digest;
    processing_status = ProcessingStatus.accepted;
    schema_version = payload.schema_version;
    version = 1;
    correlation_id = correlation_id;
    canonical_payload_hash = some payload_hash;
    raw_body_fingerprint = none;
    intake_outcome = some IntakeOutcome.new_intake;
    original_delivery_id = none;
    created_request_id = none;
    logical_result_request_id = none;
    accepted_intake_key_id = none;
    sanitized_issues = none;
    sanitized_error_code = none;
    completed_at = some completed_at;
  }

  abbrev pub request_of : IntakeRequest → ℕ → ℕ → ℕ → ServiceRequest
  request_of payload delivery_id request_id contact_id = record {
    id = request_id;
    originating_delivery_id = delivery_id;
    contact_id = contact_id;
    normalized_request_description = payload.service_request.description;
    status = ServiceRequestStatus.triage_pending;
    version = 1;
    category = none;
    priority = none;
    current_queue = none;
    location_context = payload.service_request.location_context;
    timing_preference = payload.service_request.timing_preference;
    current_interpretation_id = none;
  }

  abbrev pub accepted_payload : ℕ → ℕ → Json
  accepted_payload delivery_id request_id = obj (
      field "delivery_id" (str (p.uuid_str delivery_id)) (
        field "intake_outcome" (str "New") (
          field "service_request_id" (str (p.uuid_str request_id))
            (field "service_request_status" (str "TriagePending") end))))

  abbrev pub created_payload : ℕ → ℕ → Json
  created_payload delivery_id request_id = obj (
      field "delivery_id" (str (p.uuid_str delivery_id)) (
        field "service_request_id" (str (p.uuid_str request_id))
          (field "service_request_status" (str "TriagePending") end)))

  -- the end of the `with` of `_create_new`, and the deferred foreign keys at its commit
  unfoldable pub new_evidence : AcceptedIntakeKey → InboundDelivery → ℕ → Tx (Unit {0})
  unfolding update_delivery new_event flush_event key_refers
  new_evidence key delivery correlation_id = do
    accepted ←
        new_event "inbound_delivery.accepted" "InboundDelivery" delivery.id delivery.id
          correlation_id "New" [] (accepted_payload delivery.id key.request_id)
    created ←
        new_event "service_request.created" "ServiceRequest" key.request_id delivery.id
          correlation_id "Created" [] (created_payload delivery.id key.request_id)
    update_delivery (record delivery {
      created_request_id = some key.request_id;
      logical_result_request_id = some key.request_id;
      accepted_intake_key_id = some key.id;
    })
    flush_event accepted
    flush_event created
    d ← gets (λ s. s.working)
    raise_if (not (key_refers key d)) integrity

  -- what stands in the `with` of `_create_new`
  unfoldable pub new_body : IntakeRequest → Text → Text → ℕ → ℕ → ℕ → ℕ → ℕ → Tx (Unit {0})
  unfolding interleave insert_intake_key insert_contact insert_delivery insert_request new_evidence
  new_body payload key_digest payload_hash correlation_id delivery_id request_id contact_id
        reservation_id =
      do
        interleave
        insert_intake_key (new_key key_digest payload_hash delivery_id request_id reservation_id)
        insert_contact (contact_of payload contact_id)
        completed_at ← gets (λ s. p.utc_now s.drawn)
        insert_delivery
            (new_delivery payload key_digest payload_hash correlation_id delivery_id completed_at)
        insert_request (request_of payload delivery_id request_id contact_id)
        new_evidence (new_key key_digest payload_hash delivery_id request_id reservation_id)
            (new_delivery payload key_digest payload_hash correlation_id delivery_id completed_at)
            correlation_id

  abbrev pub new_result : ℕ → ℕ → ℕ → IntakeServiceResult
  new_result correlation_id delivery_id request_id = record {
    status_code = 201;
    correlation_id = correlation_id;
    delivery_id = delivery_id;
    service_request_id = request_id;
    intake_outcome = IntakeOutcome.new_intake;
    original_delivery_id = none;
    inbound_delivery = 1;
    service_request = 1;
    location = some request_id;
  }

  -- `_create_new` after it has drawn its identifiers
  unfoldable pub create_with :
      IntakeRequest → Text → Text → ℕ → ℕ → ℕ → ℕ → ℕ → Tx IntakeServiceResult
  unfolding in_transaction new_body
  create_with payload key_digest payload_hash correlation_id delivery_id request_id contact_id
        reservation_id =
      in_transaction (
        new_body payload key_digest payload_hash correlation_id delivery_id request_id contact_id
          reservation_id)
      >>= λ _. pure (new_result correlation_id delivery_id request_id)

  unfoldable pub create_new : IntakeRequest → Text → Text → ℕ → Tx IntakeServiceResult
  unfolding uuid4 create_with
  create_new payload key_digest payload_hash correlation_id = do
    delivery_id ← uuid4 p
    request_id ← uuid4 p
    contact_id ← uuid4 p
    reservation_id ← uuid4 p
    create_with payload key_digest payload_hash correlation_id delivery_id request_id contact_id
        reservation_id
