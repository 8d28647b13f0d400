-- ===== src/Models/Intake.antt =====
-- db/models/intake.py: deliveries, contacts and accepted intake keys.
use ai_oas.Base.{ℕ, String, Text, Bool, Option, ◌&&◌, ◌||◌, leb, ◌==◌, str_eq, text_eq}
use ai_oas.Json.{Json}

pub data ProcessingStatus : Type 0 where
  received accepted rejected processing_failure : ProcessingStatus

pub data IntakeOutcome : Type 0 where
  new_intake idempotent_replay invalid idempotency_conflict : IntakeOutcome

pub record InboundDelivery : Type 0 where
  pub id : ℕ
  pub scope : String
  pub idempotency_key_digest : Text
  pub processing_status : ProcessingStatus
  pub schema_version : String
  pub version : ℕ
  pub correlation_id : ℕ
  pub canonical_payload_hash : Option Text
  pub raw_body_fingerprint : Option Text
  pub intake_outcome : Option IntakeOutcome
  pub original_delivery_id : Option ℕ
  pub created_request_id : Option ℕ
  pub logical_result_request_id : Option ℕ
  pub accepted_intake_key_id : Option ℕ
  pub sanitized_issues : Option Json
  pub sanitized_error_code : Option String
  pub completed_at : Option ℕ

pub record Contact : Type 0 where
  pub id : ℕ
  pub display_label : String
  pub normalized_email : Option String
  pub normalized_phone : Option String
  pub preferred_channel : Option String
  pub version : ℕ

pub record AcceptedIntakeKey : Type 0 where
  pub id : ℕ
  pub scope : String
  pub idempotency_key_digest : Text
  pub canonical_payload_hash : Text
  pub original_delivery_id : ℕ
  pub request_id : ℕ
  pub original_http_status : ℕ
  pub safe_response_snapshot : Json

-- original_http_status_valid
abbrev pub AcceptedIntakeKey_checks : AcceptedIntakeKey → Bool
AcceptedIntakeKey_checks k = leb 100 k.original_http_status && leb k.original_http_status 599

-- The unique constraints of `AcceptedIntakeKey`.
abbrev pub intake_keys_clash : AcceptedIntakeKey → AcceptedIntakeKey → Bool
intake_keys_clash a b =
    str_eq a.scope b.scope && text_eq a.idempotency_key_digest b.idempotency_key_digest
    || (a.original_delivery_id == b.original_delivery_id || a.request_id == b.request_id)
