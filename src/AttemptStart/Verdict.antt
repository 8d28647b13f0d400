-- ===== src/AttemptStart/Verdict.antt =====
-- attempt_start/service.py: what `_execute_new` decides from the rows that it has locked.
use ai_oas.Base.{
  ℕ, String, Bool, List, [], ◌∷◌, ◌&&◌, ◌||◌, not, ltb, leb, ◌==◌, str_eq, text_eq, is_none,
  is_some, length, select, any_of, all_of, maximum, if◌then◌else◌,
}
use ai_oas.Platform.{Platform}
use ai_oas.Models.{
  ServiceRequest, LogicalOperation, IntegrationAttempt, AttemptCallbackCredential,
  ai_interpretation, is_pending, is_active, is_succeeded, is_active_credential, is_triage_pending,
}
use ai_oas.Identity.{AuthenticatedWorkflowService}
use ai_oas.StartAi.Guard.{nonempty, names_success, already_succeeded}
use ai_oas.StartAi.Hashing.{ai_input_hash}
use ai_oas.Callback.History.{versions_of, versions_broken, valid_history}

-- A refusal is recorded as a 409 with this code and message; `inconsistent` is a RuntimeError.
pub data Verdict : Type 0 where
  refused : String → String → Verdict
  inconsistent : Verdict
  eligible : AttemptCallbackCredential → Verdict

abbrev pub invalid_transition : String → Verdict
invalid_transition message = refused "INVALID_STATE_TRANSITION" message

-- ownership and lifecycle structure
unfoldable pub structure_consistent : IntegrationAttempt → LogicalOperation → ServiceRequest → Bool
structure_consistent attempt operation service_request =
    str_eq attempt.operation_kind ai_interpretation
    && str_eq operation.operation_kind ai_interpretation
    && str_eq attempt.operation_kind operation.operation_kind
    && str_eq attempt.adapter_name operation.adapter_name
    && str_eq attempt.adapter_version operation.adapter_version
    && is_none attempt.started_at
    && is_none attempt.completed_at
    && is_none attempt.result_hash
    && is_none attempt.sanitized_error_code
    && operation.service_request_id == service_request.id
    && operation.service_request_id == attempt.service_request_id

-- one target among the siblings, and no other active one
unfoldable pub alone : IntegrationAttempt → List IntegrationAttempt → Bool
alone attempt siblings =
    length (select (λ a. a.id == attempt.id) siblings) == 1
    && not (nonempty (select (λ a. not (a.id == attempt.id) && is_active a.state) siblings))

unfoldable pub credential_in_scope :
    AuthenticatedWorkflowService → IntegrationAttempt → AttemptCallbackCredential → Bool
credential_in_scope machine attempt c =
    c.integration_attempt_id == attempt.id
    && str_eq c.operation_kind ai_interpretation
    && str_eq c.workflow_service_identity attempt.assigned_workflow_service
    && str_eq c.workflow_environment attempt.workflow_environment
    && str_eq c.workflow_service_identity machine.stable_service_id
    && str_eq c.workflow_environment machine.environment
    && ltb 0 c.credential_version
    && is_active_credential c.state
    && c.expires_at == attempt.callback_authorization_deadline
    && is_none c.consumed_at
    && is_none c.replaced_at
    && is_none c.revoked_at
    && is_none c.replacement_credential_id

unfoldable pub historical_in_scope :
    IntegrationAttempt
    → List AttemptCallbackCredential
    → AttemptCallbackCredential
    → AttemptCallbackCredential
    → Bool
unfolding valid_history
historical_in_scope attempt rows credential h =
    h.id == credential.id
    || valid_history rows h
      && h.integration_attempt_id == attempt.id
      && str_eq h.operation_kind ai_interpretation
      && str_eq h.workflow_service_identity attempt.assigned_workflow_service
      && str_eq h.workflow_environment attempt.workflow_environment
      && h.expires_at == attempt.callback_authorization_deadline

module _ (machine : AuthenticatedWorkflowService) (attempt : IntegrationAttempt)
    (rows : List AttemptCallbackCredential) (database_now : ℕ) where
  -- from the version of the active credential to its expiry
  unfoldable pub credential_verdict : AttemptCallbackCredential → Verdict
  unfolding historical_in_scope credential_in_scope
  credential_verdict credential =
      if not (credential.credential_version == maximum (versions_of rows))
      then inconsistent
      else if not (all_of (historical_in_scope attempt rows credential) rows)
      then inconsistent
      else if not (credential_in_scope machine attempt credential)
      then inconsistent
      else if leb credential.expires_at database_now
      then invalid_transition "The attempt callback authorization has expired."
      else eligible credential

  -- the active credentials must be a single one
  unfoldable pub active_verdict : List AttemptCallbackCredential → Verdict
  unfolding versions_broken credential_verdict
  active_verdict (credential ∷ []) =
      if versions_broken (versions_of rows) then inconsistent else credential_verdict credential
  active_verdict _ = inconsistent

  unfoldable pub verdict :
      Platform → LogicalOperation → ServiceRequest → List IntegrationAttempt → Verdict
  unfolding structure_consistent alone active_verdict
  verdict p operation service_request siblings =
      if not (is_pending attempt.state)
      then invalid_transition "The command is not valid for the current attempt state."
      else if not (structure_consistent attempt operation service_request)
      then inconsistent
      else if not (alone attempt siblings)
      then inconsistent
      else if is_some operation.succeeded_attempt_id
      then (if any_of (names_success operation.succeeded_attempt_id) siblings
          then refused already_succeeded.0 already_succeeded.1
          else inconsistent)
      else if nonempty (select (λ a. is_succeeded a.state) siblings)
      then inconsistent
      else if not (is_triage_pending service_request.status)
          || not (text_eq (ai_input_hash p service_request) operation.input_hash)
      then invalid_transition "The attempt owner is no longer eligible for this command."
      else active_verdict (select (λ c. is_active_credential c.state) rows)
