-- ===== src/AttemptStart/Checks.antt =====
-- The tests that let a pending attempt be claimed.
use ai_oas.Base.{
  ℕ, String, ◌≡◌, refl, subst, ap, Bool, true, false, not, List, [], ◌∷◌, ◌||◌, leb, ◌==◌, text_eq,
  is_some, any_of, all_of, select, maximum, arith, if◌then◌else◌,
}
use ai_oas.Platform.{Platform}
use ai_oas.Models.{
  ServiceRequest, LogicalOperation, IntegrationAttempt, AttemptCallbackCredential, is_pending,
  is_active_credential, is_succeeded, is_triage_pending,
}
use ai_oas.Identity.{AuthenticatedWorkflowService}
use ai_oas.StartAi.Guard.{nonempty, names_success, already_succeeded}
use ai_oas.StartAi.Hashing.{ai_input_hash}
use ai_oas.Callback.History.{versions_of, versions_broken}
use ai_oas.AttemptStart.Verdict.{
  Verdict, refused, inconsistent, eligible, structure_consistent, alone, credential_in_scope,
  historical_in_scope, credential_verdict, active_verdict, verdict,
}

-- the results of the tests of `verdict`
pub record Checks (p : Platform) (machine : AuthenticatedWorkflowService)
    (attempt : IntegrationAttempt) (rows : List AttemptCallbackCredential) (now : ℕ)
    (operation : LogicalOperation) (service_request : ServiceRequest)
    (siblings : List IntegrationAttempt) (credential : AttemptCallbackCredential) : Type 0 where
  pub is_pending_attempt : is_pending attempt.state ≡ true
  pub consistent : structure_consistent attempt operation service_request ≡ true
  pub no_active_sibling : alone attempt siblings ≡ true
  pub not_succeeded : is_some operation.succeeded_attempt_id ≡ false
  pub no_success : nonempty (select (λ a. is_succeeded a.state) siblings) ≡ false
  pub owner_waits : is_triage_pending service_request.status ≡ true
  pub same_input : text_eq (ai_input_hash p service_request) operation.input_hash ≡ true
  pub only_active : select (λ c. is_active_credential c.state) rows ≡ credential ∷ []
  pub versions : versions_broken (versions_of rows) ≡ false
  pub newest : (credential.credential_version == maximum (versions_of rows)) ≡ true
  pub history : all_of (historical_in_scope attempt rows credential) rows ≡ true
  pub scope : credential_in_scope machine attempt credential ≡ true
  pub unexpired : leb credential.expires_at now ≡ false

-- A test that must hold, and one that must not.
unless-eligible :
    (b : Bool) (v w : Verdict) {c : AttemptCallbackCredential}
    → (¬ v ≡ eligible c)
    → (if not b then v else w) ≡ eligible c
    → (b ≡ true) × (w ≡ eligible c)
unless-eligible true v w other h = (refl, h)
unless-eligible false v w other h = absurd (other h)

when-eligible :
    (b : Bool) (v w : Verdict) {c : AttemptCallbackCredential}
    → (¬ v ≡ eligible c)
    → (if b then v else w) ≡ eligible c
    → (b ≡ false) × (w ≡ eligible c)
when-eligible false v w other h = (refl, h)
when-eligible true v w other h = absurd (other h)

either-false : (a b : Bool) → (not a || not b) ≡ false → (a ≡ true) × (b ≡ true)
either-false true true h = (refl, refl)
either-false true false h = cc
either-false false b h = cc

refused-eligible :
    (code message : String) (c : AttemptCallbackCredential) → ¬ refused code message ≡ eligible c
refused-eligible code message c h = cc

inconsistent-eligible : (c : AttemptCallbackCredential) → ¬ inconsistent ≡ eligible c
inconsistent-eligible c h = cc

module _ (p : Platform) (machine : AuthenticatedWorkflowService) (attempt : IntegrationAttempt)
    (rows : List AttemptCallbackCredential) (now : ℕ) (operation : LogicalOperation)
    (service_request : ServiceRequest) (siblings : List IntegrationAttempt)
    (credential : AttemptCallbackCredential) where
  eligible-same :
      (c : AttemptCallbackCredential) → eligible c ≡ eligible credential → c ≡ credential
  eligible-same c h = ground arith

  abbrev Accepted : AttemptCallbackCredential → Type 0
  Accepted c =
      ((c.credential_version == maximum (versions_of rows)) ≡ true)
      × (all_of (historical_in_scope attempt rows c) rows ≡ true)
      × (credential_in_scope machine attempt c ≡ true)
      × (leb c.expires_at now ≡ false)

  credential_verdict-Checks :
      (c : AttemptCallbackCredential)
      → credential_verdict machine attempt rows now c ≡ eligible credential
      → (c ≡ credential) × Accepted c
  unfolding credential_verdict
  credential_verdict-Checks c h =
      let broken = inconsistent-eligible credential in
      let (newest, h1) =
        unless-eligible (c.credential_version == maximum (versions_of rows)) _ _ broken h in
      let (history, h2) =
        unless-eligible (all_of (historical_in_scope attempt rows c) rows) _ _ broken h1 in
      let (scope, h3) = unless-eligible (credential_in_scope machine attempt c) _ _ broken h2 in
      let (unexpired, h4) =
        when-eligible (leb c.expires_at now) _ _ (refused-eligible _ _ credential) h3 in
      (eligible-same c h4, (newest, history, scope, unexpired))

  -- what `active_verdict` accepted
  active_verdict-Checks :
      (actives : List AttemptCallbackCredential)
      → active_verdict machine attempt rows now actives ≡ eligible credential
      → (actives ≡ credential ∷ [])
        × (versions_broken (versions_of rows) ≡ false)
        × Accepted credential
  unfolding active_verdict
  active_verdict-Checks [] h = absurd (inconsistent-eligible credential h)
  active_verdict-Checks (c ∷ []) h =
      let (versions, rest) =
        when-eligible (versions_broken (versions_of rows)) _ _ (inconsistent-eligible credential)
          h in
      let (same, accepted) = credential_verdict-Checks c rest in
      (ap (λ x. x ∷ []) same, versions, subst Accepted same accepted)
  active_verdict-Checks (c ∷ d ∷ l) h = absurd (inconsistent-eligible credential h)

  pub verdict-Checks :
      verdict machine attempt rows now p operation service_request siblings ≡ eligible credential
      → Checks p machine attempt rows now operation service_request siblings credential
  unfolding verdict
  verdict-Checks h =
      let broken = inconsistent-eligible credential in
      let (waits, h1) =
        unless-eligible (is_pending attempt.state) _ _ (refused-eligible _ _ credential) h in
      let (consistent, h2) =
        unless-eligible (structure_consistent attempt operation service_request) _ _ broken h1 in
      let (no_sibling, h3) = unless-eligible (alone attempt siblings) _ _ broken h2 in
      let (unsettled, h4) =
        when-eligible (is_some operation.succeeded_attempt_id) _ _
          (succeeded-eligible (any_of (names_success operation.succeeded_attempt_id) siblings))
          h3 in
      let (no_success, h5) =
        when-eligible (nonempty (select (λ a. is_succeeded a.state) siblings)) _ _ broken h4 in
      let (owner, h6) =
        when-eligible
          (not (is_triage_pending service_request.status)
            || not (text_eq (ai_input_hash p service_request) operation.input_hash))
          _ _ (refused-eligible _ _ credential) h5 in
      let (triage, input) = either-false (is_triage_pending service_request.status) _ owner in
      let (only, versions, (newest, history, scope, unexpired)) = active_verdict-Checks _ h6 in
      record {
        is_pending_attempt = waits;
        consistent = consistent;
        no_active_sibling = no_sibling;
        not_succeeded = unsettled;
        no_success = no_success;
        owner_waits = triage;
        same_input = input;
        only_active = only;
        versions = versions;
        newest = newest;
        history = history;
        scope = scope;
        unexpired = unexpired;
      }
    where
      succeeded-eligible :
          (b : Bool)
          → ¬ (if b then refused already_succeeded.0 already_succeeded.1 else inconsistent)
            ≡ eligible credential
      succeeded-eligible true h = refused-eligible _ _ credential h
      succeeded-eligible false h = inconsistent-eligible credential h

  pub Checks-verdict :
      Checks p machine attempt rows now operation service_request siblings credential
      → verdict machine attempt rows now p operation service_request siblings ≡ eligible credential
  unfolding verdict active_verdict credential_verdict
  Checks-verdict h = simp (
    h.is_pending_attempt, h.consistent, h.no_active_sibling, h.not_succeeded, h.no_success,
    h.owner_waits, h.same_input, h.only_active, h.versions, h.newest, h.history, h.scope,
    h.unexpired,
  )
