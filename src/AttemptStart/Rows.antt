-- ===== src/AttemptStart/Rows.antt =====
-- attempt_start/service.py: the rows and the snapshot that `_execute_new` writes.
use ai_oas.Base.{ℕ, some, [], ◌+◌}
use ai_oas.Json.{Json, num, str, obj, end, field}
use ai_oas.Platform.{Platform}
use ai_oas.Models.{IntegrationAttempt, AuditEvent, OutboxMessage, AttemptState, PublicationState}
use ai_oas.Identity.{AuthenticatedWorkflowService}
use ai_oas.Idempotency.Service.{NewCommandReservation}

-- the attempt, claimed
unfoldable pub claimed : IntegrationAttempt → ℕ → ℕ → IntegrationAttempt
claimed attempt expected_attempt_version database_now = record attempt {
  state = AttemptState.running;
  version = expected_attempt_version + 1;
  started_at = some database_now;
}

module _ (p : Platform) (reservation : NewCommandReservation) (attempt : IntegrationAttempt)
    (request_id : ℕ) (operation_id : ℕ) (correlation_id : ℕ) where
  unfoldable pub claim_audit : AuthenticatedWorkflowService → ℕ → AuditEvent
  claim_audit machine audit_id = record {
    id = audit_id;
    schema_version = "1.0";
    event_name = "integration_attempt.started";
    aggregate_type = "IntegrationAttempt";
    aggregate_id = attempt.id;
    aggregate_version = attempt.version;
    actor_type = "WorkflowService";
    actor_reference_id = machine.machine_identity_id;
    outcome = "Running";
    correlation_id = correlation_id;
    causation_id = some reservation.command_id;
    command_id = some reservation.command_id;
    reason_codes = [];
    safe_metadata = obj (
        field "service_request_id" (str (p.uuid_str request_id)) (
          field "logical_operation_id" (str (p.uuid_str operation_id)) (
            field "integration_attempt_id" (str (p.uuid_str attempt.id)) (
              field "attempt_number" (num attempt.attempt_number) (
                field "operation_kind" (str attempt.operation_kind) (
                  field "adapter_name" (str attempt.adapter_name) (
                    field "adapter_version" (str attempt.adapter_version) (
                      field "previous_state" (str "Pending") (
                        field "new_state" (str "Running") (
                          field "assigned_workflow_service" (str attempt.assigned_workflow_service)
                            (field "workflow_environment" (str attempt.workflow_environment)
                              end)))))))))));
  }

  unfoldable pub claim_outbox : ℕ → ℕ → OutboxMessage
  claim_outbox outbox_id audit_id = record {
    id = outbox_id;
    event_type = "integration_attempt.started";
    schema_version = "1.0";
    aggregate_type = "IntegrationAttempt";
    aggregate_id = attempt.id;
    aggregate_version = attempt.version;
    audit_event_id = audit_id;
    correlation_id = correlation_id;
    causation_id = some reservation.command_id;
    payload = obj (
        field "integration_attempt_id" (str (p.uuid_str attempt.id)) (
          field "attempt_number" (num attempt.attempt_number) (
            field "operation_kind" (str attempt.operation_kind) (
              field "service_request_id" (str (p.uuid_str request_id)) (
                field "logical_operation_id" (str (p.uuid_str operation_id)) (
                  field "adapter_name" (str attempt.adapter_name) (
                    field "adapter_version" (str attempt.adapter_version) (
                      field "state" (str "Running") (
                        field "assigned_workflow_service" (str attempt.assigned_workflow_service) (
                          field "workflow_environment" (str attempt.workflow_environment)
                            end))))))))));
    publication_state = PublicationState.pending;
  }

-- the snapshot of the 200 response
unfoldable pub claim_snapshot : Platform → IntegrationAttempt → ℕ → ℕ → ℕ → Json
claim_snapshot p attempt request_id operation_id database_now = obj (
    field "result"
      (obj (
        field "service_request_id" (str (p.uuid_str request_id)) (
          field "logical_operation_id" (str (p.uuid_str operation_id)) (
            field "integration_attempt_id" (str (p.uuid_str attempt.id)) (
              field "attempt_number" (num attempt.attempt_number) (
                field "operation_kind" (str attempt.operation_kind) (
                  field "attempt_state" (str "Running") (
                    field "started_at" (str (p.isoformat database_now)) (
                      field "adapter_name" (str attempt.adapter_name)
                        (field "adapter_version" (str attempt.adapter_version) end))))))))))
      (field "versions" (obj (field "integration_attempt" (num attempt.version) end)) end))
