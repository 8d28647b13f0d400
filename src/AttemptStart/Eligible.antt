-- ===== src/AttemptStart/Eligible.antt =====
-- When a pending attempt may be claimed.
use ai_oas.Base.{
  ℕ, ◌≡◌, ◌<◌, ◌↔◌, Option, none, List, [], ◌∷◌, eq_of_text_eq, text_eq, text_eq_refl, subst, refl,
  ◌⊎◌, true, false, some, all_of, select, is_some, leb, arith,
}
use ai_oas.Platform.{Platform}
use ai_oas.Models.{
  ServiceRequest, ServiceRequestStatus, LogicalOperation, IntegrationAttempt, AttemptState,
  AttemptCallbackCredential, active, is_active_credential, is_succeeded,
}
use ai_oas.Identity.{AuthenticatedWorkflowService}
use ai_oas.StartAi.Guard.{nonempty}
use ai_oas.StartAi.Hashing.{ai_input_hash}
use ai_oas.Tested.{Decides, OnlyOne, Nowhere, Everywhere, all_of-Everywhere, select-OnlyOne}
use ai_oas.AttemptStart.Verdict.{eligible, verdict, historical_in_scope}
use ai_oas.AttemptStart.Checks.{Checks, verdict-Checks, Checks-verdict}
use ai_oas.AttemptStart.Conditions.{
  Matches, structure-Matches, Alone, alone-Alone, InScope, scope-InScope, select-empty,
  pending-Decides, succeeded-Decides, credential-Decides, triage-Decides,
}
use ai_oas.AttemptStart.Histories.{
  Numbered, versions-Numbered, Newest, maximum-Newest, Historical, history-Historical,
}

-- The conditions of a claim. The attempt is pending, matches its operation and its request, and no
-- sibling is active or has succeeded. The request waits for triage and has the input that the
-- operation was opened for. One credential is active; it has the highest version, is in scope and has
-- not expired, and every other one has ended in the scope of the attempt.
pub record Claimable (p : Platform) (machine : AuthenticatedWorkflowService)
    (attempt : IntegrationAttempt) (rows : List AttemptCallbackCredential) (now : ℕ)
    (operation : LogicalOperation) (service_request : ServiceRequest)
    (siblings : List IntegrationAttempt) (credential : AttemptCallbackCredential) : Type 0 where
  pub waits : attempt.state ≡ AttemptState.pending
  pub matching : Matches attempt operation service_request
  pub no_active_sibling : Alone attempt siblings
  pub not_succeeded : operation.succeeded_attempt_id ≡ none
  pub no_success : Nowhere (λ a. a.state ≡ AttemptState.succeeded) siblings
  pub owner_waits : service_request.status ≡ ServiceRequestStatus.triage_pending
  pub same_input : ai_input_hash p service_request ≡ operation.input_hash
  pub only_active : OnlyOne (λ c. c.state ≡ active) rows credential
  pub numbered : Numbered rows
  pub newest : Newest rows credential
  pub history : Everywhere (λ h. (h.id ≡ credential.id) ⊎ Historical attempt rows h) rows
  pub scope : InScope machine attempt credential
  pub unexpired : now < credential.expires_at

unset : {A : Type 0} (o : Option A) → (is_some o ≡ false) ↔ (o ≡ none)
unset none = (λ h. refl, λ h. refl)
unset (some a) = (λ h. absurd (ground arith), λ h. absurd (ground arith))

after : (a b : ℕ) → (leb a b ≡ false) ↔ (b < a)
after a b = ground arith

module _ (p : Platform) (machine : AuthenticatedWorkflowService) (attempt : IntegrationAttempt)
    (rows : List AttemptCallbackCredential) (now : ℕ) (operation : LogicalOperation)
    (service_request : ServiceRequest) (siblings : List IntegrationAttempt)
    (credential : AttemptCallbackCredential) where
  only_row :
      (select (λ c. is_active_credential c.state) rows ≡ credential ∷ [])
      ↔ OnlyOne (λ c. c.state ≡ active) rows credential
  only_row =
      select-OnlyOne (λ c. c.state ≡ active) (λ c. is_active_credential c.state)
        (λ c. (credential-Decides c.state).0) (λ c. (credential-Decides c.state).1) credential rows

  no_success_row :
      (nonempty (select (λ a. is_succeeded a.state) siblings) ≡ false)
      ↔ Nowhere (λ a. a.state ≡ AttemptState.succeeded) siblings
  no_success_row =
      select-empty (λ a. a.state ≡ AttemptState.succeeded) (λ a. is_succeeded a.state)
        (λ a. succeeded-Decides a.state) siblings

  histories :
      Decides
        (all_of (historical_in_scope attempt rows credential) rows)
        (Everywhere (λ h. (h.id ≡ credential.id) ⊎ Historical attempt rows h) rows)
  histories =
      all_of-Everywhere _ (historical_in_scope attempt rows credential)
        (λ h. history-Historical attempt rows credential h) rows

  Checks-Claimable :
      Checks p machine attempt rows now operation service_request siblings credential
      → Claimable p machine attempt rows now operation service_request siblings credential
  Checks-Claimable h =
      let only = only_row.0 h.only_active in
      record {
        waits = (pending-Decides attempt.state).0 h.is_pending_attempt;
        matching = (structure-Matches attempt operation service_request).0 h.consistent;
        no_active_sibling = (alone-Alone attempt siblings).0 h.no_active_sibling;
        not_succeeded = (unset operation.succeeded_attempt_id).0 h.not_succeeded;
        no_success = no_success_row.0 h.no_success;
        owner_waits = (triage-Decides service_request.status).0 h.owner_waits;
        same_input = eq_of_text_eq _ _ h.same_input;
        only_active = only;
        numbered = (versions-Numbered rows).0 h.versions;
        newest = (maximum-Newest _ rows credential only).0 h.newest;
        history = histories.0 h.history;
        scope = (scope-InScope machine attempt credential).0 h.scope;
        unexpired = (after credential.expires_at now).0 h.unexpired;
      }

  Claimable-Checks :
      Claimable p machine attempt rows now operation service_request siblings credential
      → Checks p machine attempt rows now operation service_request siblings credential
  Claimable-Checks h = record {
    is_pending_attempt = (pending-Decides attempt.state).1 h.waits;
    consistent = (structure-Matches attempt operation service_request).1 h.matching;
    no_active_sibling = (alone-Alone attempt siblings).1 h.no_active_sibling;
    not_succeeded = (unset operation.succeeded_attempt_id).1 h.not_succeeded;
    no_success = no_success_row.1 h.no_success;
    owner_waits = (triage-Decides service_request.status).1 h.owner_waits;
    same_input =
        subst (λ t. text_eq (ai_input_hash p service_request) t ≡ true) h.same_input
          (text_eq_refl (ai_input_hash p service_request));
    only_active = only_row.1 h.only_active;
    versions = (versions-Numbered rows).1 h.numbered;
    newest = (maximum-Newest _ rows credential h.only_active).1 h.newest;
    history = histories.1 h.history;
    scope = (scope-InScope machine attempt credential).1 h.scope;
    unexpired = (after credential.expires_at now).1 h.unexpired;
  }

  -- The rows let an attempt be claimed with a credential exactly when the attempt is pending, matches
  -- its operation and its request, has no sibling that is active or has succeeded, its request waits
  -- for triage with the input of the operation, and the credential is the only active one, the
  -- newest, in scope and not expired, beside a consistent history.
  pub verdict-eligible :
      verdict machine attempt rows now p operation service_request siblings ≡ eligible credential
      ↔ Claimable p machine attempt rows now operation service_request siblings credential
  verdict-eligible = (
    λ h.
        Checks-Claimable (
          verdict-Checks p machine attempt rows now operation service_request siblings credential
            h),
    λ h.
        Checks-verdict p machine attempt rows now operation service_request siblings credential
          (Claimable-Checks h),
  )
