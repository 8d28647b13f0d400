-- ===== src/AttemptStart/Conditions.antt =====
-- The conditions of a claim on the attempt and on the credentials of its attempt, each with the test of
-- the code that decides it.
use ai_oas.Base.{
  ℕ, ◌<◌, ◌≡◌, ◌≢◌, ◌∙◌, sym, ◌↔◌, ◌⊎◌, refl, eq_iff, Bool, true, false, not, ◌&&◌, none, List, [],
  ◌∷◌, ◌==◌, ==_iff, select, arith,
}
use ai_oas.Models.{
  ServiceRequest, ServiceRequestStatus, LogicalOperation, IntegrationAttempt, AttemptState,
  AttemptCallbackCredential, CredentialState, active, is_active, is_pending, is_succeeded,
  is_active_credential, is_triage_pending,
}
use ai_oas.Identity.{AuthenticatedWorkflowService}
use ai_oas.StartAi.Guard.{nonempty}
use ai_oas.Tested.{
  Decides, both, is_none-Decides, ltb-Decides, Nowhere, OnlyOne, select-one, select-Nowhere,
}
use ai_oas.AttemptStart.Verdict.{structure_consistent, alone, credential_in_scope}

pub pending-Decides : (s : AttemptState) → Decides (is_pending s) (s ≡ AttemptState.pending)
pending-Decides s = ground arith

active-Decides :
    (s : AttemptState)
    → Decides (is_active s) ((s ≡ AttemptState.pending) ⊎ (s ≡ AttemptState.running))
active-Decides s = ground arith

pub succeeded-Decides : (s : AttemptState) → Decides (is_succeeded s) (s ≡ AttemptState.succeeded)
succeeded-Decides s = ground arith

pub credential-Decides : (s : CredentialState) → Decides (is_active_credential s) (s ≡ active)
credential-Decides s = ground arith

pub triage-Decides :
    (s : ServiceRequestStatus)
    → Decides (is_triage_pending s) (s ≡ ServiceRequestStatus.triage_pending)
triage-Decides s = ground arith

-- The attempt has not begun, and it, its operation and its request belong together.
pub record Matches (attempt : IntegrationAttempt) (operation : LogicalOperation)
    (service_request : ServiceRequest) : Type 0 where
  pub kind : attempt.operation_kind ≡ "AIInterpretation"
  pub operation_kind : operation.operation_kind ≡ "AIInterpretation"
  pub adapter : attempt.adapter_name ≡ operation.adapter_name
  pub adapter_version : attempt.adapter_version ≡ operation.adapter_version
  pub not_started : attempt.started_at ≡ none
  pub not_completed : attempt.completed_at ≡ none
  pub no_result : attempt.result_hash ≡ none
  pub no_error : attempt.sanitized_error_code ≡ none
  pub of_request : operation.service_request_id ≡ service_request.id
  pub one_request : operation.service_request_id ≡ attempt.service_request_id

pub structure-Matches :
    (attempt : IntegrationAttempt) (operation : LogicalOperation) (service_request : ServiceRequest)
    → Decides
        (structure_consistent attempt operation service_request)
        (Matches attempt operation service_request)
unfolding structure_consistent
structure-Matches attempt operation service_request =
    let tests =
      both
        (both
          (both
            (both
              (both
                (both
                  (both
                    (both
                      (both
                        (both (eq_iff attempt.operation_kind "AIInterpretation")
                          (eq_iff operation.operation_kind "AIInterpretation"))
                        (eq_iff attempt.operation_kind operation.operation_kind))
                      (eq_iff attempt.adapter_name operation.adapter_name))
                    (eq_iff attempt.adapter_version operation.adapter_version))
                  (is_none-Decides attempt.started_at))
                (is_none-Decides attempt.completed_at))
              (is_none-Decides attempt.result_hash))
            (is_none-Decides attempt.sanitized_error_code))
          (==_iff operation.service_request_id service_request.id))
        (==_iff operation.service_request_id attempt.service_request_id) in
    (
      λ h.
          let ((((((((((k, o), _), n), v), s), c), r), e), q), u) = tests.0 h in
          record {
            kind = k;
            operation_kind = o;
            adapter = n;
            adapter_version = v;
            not_started = s;
            not_completed = c;
            no_result = r;
            no_error = e;
            of_request = q;
            one_request = u;
          },
      λ w. tests.1 (
        (
          (
            (
              (
                (
                  (
                    (((w.kind, w.operation_kind), w.kind ∙ sym w.operation_kind), w.adapter),
                    w.adapter_version,
                  ),
                  w.not_started,
                ),
                w.not_completed,
              ),
              w.no_result,
            ),
            w.no_error,
          ),
          w.of_request,
        ),
        w.one_request,
      ),
    )

-- One row is the attempt, and no other one waits or runs.
abbrev pub Alone : IntegrationAttempt → List IntegrationAttempt → Type 0
Alone attempt siblings =
    ((a : IntegrationAttempt) × OnlyOne (λ x. x.id ≡ attempt.id) siblings a)
    × Nowhere
        (λ x.
          (x.id ≢ attempt.id)
          × ((x.state ≡ AttemptState.pending) ⊎ (x.state ≡ AttemptState.running)))
        siblings

-- a test that fails
differs : (a b : ℕ) → Decides (not (a == b)) (a ≢ b)
differs a b = ground arith

-- no row is let through
pub select-empty :
    {A : Type 0} (P : A → Type 0) (q : A → Bool)
    → ((x : A) → Decides (q x) (P x))
    → (l : List A) → (nonempty (select q l) ≡ false) ↔ Nowhere P l
select-empty {A = A} P q d l =
    by_rows (select q l) (select-Nowhere P q (λ x. (d x).0) (λ x. (d x).1) l)
  where
    by_rows : (r : List A) → (r ≡ []) ↔ Nowhere P l → (nonempty r ≡ false) ↔ Nowhere P l
    by_rows [] k = (λ h. k.0 refl, λ w. refl)
    by_rows (x ∷ r) k =
        (λ h. absurd (ground arith), λ w. let e = k.1 w in absurd (ground (arith, e)))

negated : {P : Type 0} (b : Bool) → (b ≡ false) ↔ P → Decides (not b) P
negated true k = (λ h. absurd (ground arith), λ w. let e = k.1 w in ground (arith, e))
negated false k = (λ h. k.0 refl, λ w. refl)

pub alone-Alone :
    (attempt : IntegrationAttempt) (siblings : List IntegrationAttempt)
    → Decides (alone attempt siblings) (Alone attempt siblings)
unfolding alone
alone-Alone attempt siblings =
    both
      (select-one (λ x. x.id ≡ attempt.id) (λ x. x.id == attempt.id) (λ x. ==_iff x.id attempt.id)
        siblings)
      (negated _ (
        select-empty _ (λ x. not (x.id == attempt.id) && is_active x.state)
          (λ x. both (differs x.id attempt.id) (active-Decides x.state)) siblings))

-- The credential is an active one of the attempt and of the machine, and has its deadline.
pub record InScope (machine : AuthenticatedWorkflowService) (attempt : IntegrationAttempt)
    (c : AttemptCallbackCredential) : Type 0 where
  pub of_attempt : c.integration_attempt_id ≡ attempt.id
  pub kind : c.operation_kind ≡ "AIInterpretation"
  pub assigned : c.workflow_service_identity ≡ attempt.assigned_workflow_service
  pub environment : c.workflow_environment ≡ attempt.workflow_environment
  pub of_machine : c.workflow_service_identity ≡ machine.stable_service_id
  pub machine_environment : c.workflow_environment ≡ machine.environment
  pub numbered : 0 < c.credential_version
  pub is_active_now : c.state ≡ active
  pub deadline : c.expires_at ≡ attempt.callback_authorization_deadline
  pub not_consumed : c.consumed_at ≡ none
  pub not_replaced : c.replaced_at ≡ none
  pub not_revoked : c.revoked_at ≡ none
  pub no_replacement : c.replacement_credential_id ≡ none

pub scope-InScope :
    (machine : AuthenticatedWorkflowService) (attempt : IntegrationAttempt)
    (c : AttemptCallbackCredential)
    → Decides (credential_in_scope machine attempt c) (InScope machine attempt c)
unfolding credential_in_scope
scope-InScope machine attempt c =
    let tests =
      both
        (both
          (both
            (both
              (both
                (both
                  (both
                    (both
                      (both
                        (both
                          (both
                            (both (==_iff c.integration_attempt_id attempt.id)
                              (eq_iff c.operation_kind "AIInterpretation"))
                            (eq_iff c.workflow_service_identity attempt.assigned_workflow_service))
                          (eq_iff c.workflow_environment attempt.workflow_environment))
                        (eq_iff c.workflow_service_identity machine.stable_service_id))
                      (eq_iff c.workflow_environment machine.environment))
                    (ltb-Decides 0 c.credential_version))
                  (credential-Decides c.state))
                (==_iff c.expires_at attempt.callback_authorization_deadline))
              (is_none-Decides c.consumed_at))
            (is_none-Decides c.replaced_at))
          (is_none-Decides c.revoked_at))
        (is_none-Decides c.replacement_credential_id) in
    (
      λ h.
          let ((((((((((((a, k), s), e), m), n), v), t), d), u), r), w), x) = tests.0 h in
          record {
            of_attempt = a;
            kind = k;
            assigned = s;
            environment = e;
            of_machine = m;
            machine_environment = n;
            numbered = v;
            is_active_now = t;
            deadline = d;
            not_consumed = u;
            not_replaced = r;
            not_revoked = w;
            no_replacement = x;
          },
      λ w. tests.1 (
        (
          (
            (
              (
                (
                  (
                    (
                      ((((w.of_attempt, w.kind), w.assigned), w.environment), w.of_machine),
                      w.machine_environment,
                    ),
                    w.numbered,
                  ),
                  w.is_active_now,
                ),
                w.deadline,
              ),
              w.not_consumed,
            ),
            w.not_replaced,
          ),
          w.not_revoked,
        ),
        w.no_replacement,
      ),
    )
