-- ===== src/Models/Evidence.antt =====
-- db/models/evidence.py: audit events and the transactional outbox
use ai_oas.Base.{ℕ, String, Option, List}
use ai_oas.Json.{Json}

pub record AuditEvent : Type 0 where
  pub id : ℕ
  pub schema_version : String
  pub event_name : String
  pub aggregate_type : String
  pub aggregate_id : ℕ
  pub aggregate_version : ℕ
  pub actor_type : String
  pub actor_reference_id : ℕ
  pub outcome : String
  pub correlation_id : ℕ
  pub causation_id : Option ℕ
  pub command_id : Option ℕ
  pub reason_codes : List String
  pub safe_metadata : Json

pub data PublicationState : Type 0 where
  pending publishing published dead_letter : PublicationState

pub record OutboxMessage : Type 0 where
  pub id : ℕ
  pub event_type : String
  pub schema_version : String
  pub aggregate_type : String
  pub aggregate_id : ℕ
  pub aggregate_version : ℕ
  pub audit_event_id : ℕ
  pub correlation_id : ℕ
  pub causation_id : Option ℕ
  pub payload : Json
  pub publication_state : PublicationState
