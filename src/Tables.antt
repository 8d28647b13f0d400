-- ===== src/Tables.antt =====
-- The database: a list of rows for each table, newest first.
use ai_oas.Base.{List, []}
use ai_oas.Models.{
  ServiceRequest, LogicalOperation, IntegrationAttempt, AttemptCallbackCredential,
  CommandIdempotencyRecord, AuditEvent, OutboxMessage, MachineIdentity, MachineCredentialVersion,
  MachineRequestNonce, InboundDelivery, Contact, AcceptedIntakeKey, ApplicationActor,
  ApplicationActorRoleAssignment,
}

pub record Db : Type 0 where
  pub service_requests : List ServiceRequest
  pub logical_operations : List LogicalOperation
  pub integration_attempts : List IntegrationAttempt
  pub callback_credentials : List AttemptCallbackCredential
  pub command_records : List CommandIdempotencyRecord
  pub audit_events : List AuditEvent
  pub outbox_messages : List OutboxMessage
  pub machine_identities : List MachineIdentity
  pub machine_credentials : List MachineCredentialVersion
  pub machine_nonces : List MachineRequestNonce
  pub inbound_deliveries : List InboundDelivery
  pub contacts : List Contact
  pub accepted_intake_keys : List AcceptedIntakeKey
  pub application_actors : List ApplicationActor
  pub role_assignments : List ApplicationActorRoleAssignment

abbrev pub empty_db : Db
empty_db = record {
  service_requests = [];
  logical_operations = [];
  integration_attempts = [];
  callback_credentials = [];
  command_records = [];
  audit_events = [];
  outbox_messages = [];
  machine_identities = [];
  machine_credentials = [];
  machine_nonces = [];
  inbound_deliveries = [];
  contacts = [];
  accepted_intake_keys = [];
  application_actors = [];
  role_assignments = [];
}
