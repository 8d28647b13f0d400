-- ===== src/StartAi/Rows.antt =====
-- start_ai/service.py: the rows and the snapshot that `_execute_new` writes.
use ai_oas.Base.{ℕ, Text, none, some, []}
use ai_oas.Json.{Json, num, str, obj, end, field}
use ai_oas.Platform.{Platform}
use ai_oas.Models.{
  LogicalOperation, IntegrationAttempt, AttemptCallbackCredential, AuditEvent, OutboxMessage,
  AttemptState, CredentialState, PublicationState, ai_interpretation,
}
use ai_oas.Identity.{AuthenticatedWorkflowService, Settings}
use ai_oas.Idempotency.Service.{NewCommandReservation}
use ai_oas.StartAi.Hashing.{callback_credential_hash}

module _ (p : Platform) (settings : Settings) (machine : AuthenticatedWorkflowService) where
  unfoldable pub new_operation : ℕ → ℕ → Text → Text → LogicalOperation
  new_operation operation_id request_id input_digest configuration_digest = record {
    id = operation_id;
    service_request_id = request_id;
    operation_kind = ai_interpretation;
    input_hash = input_digest;
    configuration_hash = configuration_digest;
    prompt_version = settings.ai_interpretation_prompt_version;
    result_schema_version = settings.ai_interpretation_result_schema_version;
    provider_name = settings.ai_provider_name;
    model_name = settings.ai_model_name;
    adapter_name = settings.ai_adapter_name;
    adapter_version = settings.ai_adapter_version;
    version = 1;
    succeeded_attempt_id = none;
  }

  unfoldable pub new_attempt : ℕ → ℕ → ℕ → ℕ → ℕ → IntegrationAttempt
  new_attempt attempt_id operation_id request_id callback_deadline created_at = record {
    id = attempt_id;
    logical_operation_id = operation_id;
    service_request_id = request_id;
    operation_kind = ai_interpretation;
    attempt_number = 1;
    state = AttemptState.pending;
    version = 1;
    adapter_name = settings.ai_adapter_name;
    adapter_version = settings.ai_adapter_version;
    assigned_workflow_service = machine.stable_service_id;
    workflow_environment = machine.environment;
    callback_authorization_deadline = callback_deadline;
    created_at = created_at;
    started_at = none;
    completed_at = none;
    result_hash = none;
    sanitized_error_code = none;
  }

  unfoldable pub new_credential : ℕ → ℕ → Text → ℕ → ℕ → AttemptCallbackCredential
  unfolding callback_credential_hash
  new_credential credential_id attempt_id plaintext callback_deadline issued_at = record {
    id = credential_id;
    integration_attempt_id = attempt_id;
    operation_kind = ai_interpretation;
    workflow_service_identity = machine.stable_service_id;
    workflow_environment = machine.environment;
    credential_version = 1;
    credential_hash = callback_credential_hash p plaintext;
    state = CredentialState.active;
    issued_at = issued_at;
    expires_at = callback_deadline;
    consumed_at = none;
    replaced_at = none;
    revoked_at = none;
    replacement_credential_id = none;
  }

  unfoldable pub request_audit : NewCommandReservation → ℕ → ℕ → ℕ → ℕ → ℕ → ℕ → AuditEvent
  request_audit reservation audit_id request_id request_version operation_id attempt_id
        correlation_id =
      record {
        id = audit_id;
        schema_version = "1.0";
        event_name = "service_request.ai_interpretation_started";
        aggregate_type = "ServiceRequest";
        aggregate_id = request_id;
        aggregate_version = request_version;
        actor_type = "WorkflowService";
        actor_reference_id = machine.machine_identity_id;
        outcome = "Started";
        correlation_id = correlation_id;
        causation_id = some reservation.command_id;
        command_id = some reservation.command_id;
        reason_codes = [];
        safe_metadata = obj (
            field "logical_operation_id" (str (p.uuid_str operation_id)) (
              field "integration_attempt_id" (str (p.uuid_str attempt_id)) (
                field "attempt_number" (num 1) (
                  field "prompt_version" (str settings.ai_interpretation_prompt_version) (
                    field "result_schema_version"
                      (str settings.ai_interpretation_result_schema_version)
                      (field "adapter_name" (str settings.ai_adapter_name)
                        (field "adapter_version" (str settings.ai_adapter_version) end)))))));
      }

  unfoldable pub attempt_audit : NewCommandReservation → ℕ → ℕ → ℕ → ℕ → ℕ → ℕ → AuditEvent
  attempt_audit reservation audit_id request_id request_version operation_id attempt_id
        correlation_id =
      record {
        id = audit_id;
        schema_version = "1.0";
        event_name = "integration_attempt.created";
        aggregate_type = "IntegrationAttempt";
        aggregate_id = attempt_id;
        aggregate_version = 1;
        actor_type = "WorkflowService";
        actor_reference_id = machine.machine_identity_id;
        outcome = "Pending";
        correlation_id = correlation_id;
        causation_id = some reservation.command_id;
        command_id = some reservation.command_id;
        reason_codes = [];
        safe_metadata = obj (
            field "service_request_id" (str (p.uuid_str request_id)) (
              field "logical_operation_id" (str (p.uuid_str operation_id)) (
                field "integration_attempt_id" (str (p.uuid_str attempt_id)) (
                  field "attempt_number" (num 1) (
                    field "operation_kind" (str ai_interpretation) (
                      field "state" (str "Pending") (
                        field "service_request_version" (num request_version) (
                          field "logical_operation_version" (num 1)
                            (field "integration_attempt_version" (num 1) end)))))))));
      }

  unfoldable pub attempt_outbox : NewCommandReservation → ℕ → ℕ → ℕ → ℕ → ℕ → ℕ → OutboxMessage
  attempt_outbox reservation outbox_id audit_id request_id operation_id attempt_id correlation_id =
      record {
        id = outbox_id;
        event_type = "integration_attempt.created";
        schema_version = "1.0";
        aggregate_type = "IntegrationAttempt";
        aggregate_id = attempt_id;
        aggregate_version = 1;
        audit_event_id = audit_id;
        correlation_id = correlation_id;
        causation_id = some reservation.command_id;
        payload = obj (
            field "integration_attempt_id" (str (p.uuid_str attempt_id)) (
              field "attempt_number" (num 1) (
                field "operation_kind" (str ai_interpretation) (
                  field "service_request_id" (str (p.uuid_str request_id)) (
                    field "logical_operation_id" (str (p.uuid_str operation_id)) (
                      field "adapter_name" (str settings.ai_adapter_name) (
                        field "adapter_version" (str settings.ai_adapter_version) (
                          field "state" (str "Pending") (
                            field "assigned_workflow_service" (str machine.stable_service_id)
                              (field "workflow_environment" (str machine.environment) end))))))))));
        publication_state = PublicationState.pending;
      }

-- the snapshot of the 202 response
unfoldable pub started_snapshot : Platform → ℕ → ℕ → ℕ → ℕ → ℕ → ℕ → Json
started_snapshot p request_id request_version operation_id attempt_id credential_id deadline = obj (
    field "result"
      (obj (
        field "service_request_id" (str (p.uuid_str request_id)) (
          field "logical_operation_id" (str (p.uuid_str operation_id)) (
            field "integration_attempt_id" (str (p.uuid_str attempt_id)) (
              field "attempt_number" (num 1) (
                field "attempt_state" (str "Pending") (
                  field "callback_credential_id" (str (p.uuid_str credential_id)) (
                    field "callback_credential_version" (num 1) (
                      field "callback_credential_expires_at" (str (p.isoformat deadline))
                        end)))))))))
      (field "versions"
        (obj (
          field "service_request" (num request_version)
            (field "logical_operation" (num 1) (field "integration_attempt" (num 1) end))))
        end))
