-- ===== src/Callback/Current.antt =====
-- When `judge` accepts a credential: the credential is current.
use ai_oas.Base.{
  ℕ, String, ◌≡◌, refl, subst, Bool, true, false, not, List, [], ◌∷◌, leb, ◌==◌, str_eq, select,
  maximum, arith, if◌then◌else◌,
}
use ai_oas.Errors.{Exc, Result, ok, err, and_then}
use ai_oas.Models.{
  ServiceRequest, LogicalOperation, IntegrationAttempt, AttemptCallbackCredential, is_running,
  is_active_credential,
}
use ai_oas.Identity.{AuthenticatedWorkflowService}
use ai_oas.Callback.History.{versions_of}
use ai_oas.Callback.Verifier.{
  judge, judge_current, single_active, graph_consistent, running_fields, scope_consistent,
}

and_then-eq-ok :
    {A B : Type 0} (r : Result A) (f : A → Result B) {b : B}
    → and_then r f ≡ ok b
    → (a : A) × (r ≡ ok a) × (f a ≡ ok b)
and_then-eq-ok (ok a) f h = (a, refl, h)
and_then-eq-ok (err e) f h = cc

unless-eq-ok :
    {A : Type 0} (b : Bool) (e : Exc) (r : Result A) {a : A}
    → (if not b then err e else r) ≡ ok a
    → (b ≡ true) × (r ≡ ok a)
unless-eq-ok true e r h = (refl, h)
unless-eq-ok false e r h = cc

-- The verdict of `judge`: the attempt runs, and the credential is its only active one, the one with
-- the highest version, in the scope of the machine and the attempt, and in its time.
pub record Current (machine : AuthenticatedWorkflowService) (attempt : IntegrationAttempt)
    (credentials : List AttemptCallbackCredential) (now : ℕ) (current : AttemptCallbackCredential)
    : Type 0 where
  pub running : is_running attempt.state ≡ true
  pub only_active : select (λ c. is_active_credential c.state) credentials ≡ current ∷ []
  pub newest : (current.credential_version == maximum (versions_of credentials)) ≡ true
  pub of_attempt : (current.integration_attempt_id == attempt.id) ≡ true
  pub of_machine : str_eq current.workflow_service_identity machine.stable_service_id ≡ true
  pub of_environment : str_eq current.workflow_environment machine.environment ≡ true
  pub issued : leb current.issued_at now ≡ true
  pub unexpired : leb current.expires_at now ≡ false

module _ (machine : AuthenticatedWorkflowService) (kind : String)
    (attempt : IntegrationAttempt) where
  single_active-eq-ok :
      (rows : List AttemptCallbackCredential) (c : AttemptCallbackCredential)
      → single_active rows ≡ ok c
      → rows ≡ c ∷ []
  unfolding single_active
  single_active-eq-ok [] c h = cc
  single_active-eq-ok (a ∷ []) c h = ground arith
  single_active-eq-ok (a ∷ b ∷ l) c h = cc

  -- what `judge_current` accepted
  judge_current-eq-ok :
      (credentials : List AttemptCallbackCredential) (now : ℕ)
      (c current : AttemptCallbackCredential)
      → judge_current machine kind attempt credentials now c ≡ ok current
      → (c ≡ current)
        × ((c.credential_version == maximum (versions_of credentials)) ≡ true)
        × (scope_consistent machine attempt kind c ≡ true)
        × (leb c.issued_at now ≡ true)
        × (leb c.expires_at now ≡ false)
  unfolding judge_current
  judge_current-eq-ok credentials now c current h = ground arith

  scope_consistent-true :
      (c : AttemptCallbackCredential)
      → scope_consistent machine attempt kind c ≡ true
      → ((c.integration_attempt_id == attempt.id) ≡ true)
        × (str_eq c.workflow_service_identity machine.stable_service_id ≡ true)
        × (str_eq c.workflow_environment machine.environment ≡ true)
  unfolding scope_consistent
  scope_consistent-true c h = ground arith

  judge-eq-ok :
      (operation : LogicalOperation) (service_request : ServiceRequest)
      (siblings : List IntegrationAttempt) (credentials : List AttemptCallbackCredential) (now : ℕ)
      (current : AttemptCallbackCredential)
      → judge machine kind attempt operation service_request siblings credentials now ≡ ok current
      → (is_running attempt.state ≡ true)
        × (and_then
              (single_active (select (λ c. is_active_credential c.state) credentials))
              (judge_current machine kind attempt credentials now)
            ≡ ok current)
  unfolding judge
  judge-eq-ok operation service_request siblings credentials now current h =
      let (_, graph) =
        unless-eq-ok (graph_consistent attempt operation service_request siblings kind) _ _ h in
      let (runs, lifecycle) = unless-eq-ok (is_running attempt.state) _ _ graph in
      let (_, rest) = unless-eq-ok (running_fields attempt) _ _ lifecycle in (runs, rest)

  -- `judge` accepts a credential only if it is current.
  pub judge-Current :
      (operation : LogicalOperation) (service_request : ServiceRequest)
      (siblings : List IntegrationAttempt) (credentials : List AttemptCallbackCredential) (now : ℕ)
      (current : AttemptCallbackCredential)
      → judge machine kind attempt operation service_request siblings credentials now ≡ ok current
      → Current machine attempt credentials now current
  judge-Current operation service_request siblings credentials now current h =
      let (runs, rest) = judge-eq-ok operation service_request siblings credentials now current h in
      let (c, single, judged) =
        and_then-eq-ok (single_active (select (λ c. is_active_credential c.state) credentials))
          (judge_current machine kind attempt credentials now) rest in
      let (same, newest, scope, issued, unexpired) =
        judge_current-eq-ok credentials now c current judged in
      let (of_attempt, of_machine, of_environment) = scope_consistent-true c scope in
      subst (λ x. Current machine attempt credentials now x) same
        (record {
          running = runs;
          only_active = single_active-eq-ok _ c single;
          newest = newest;
          of_attempt = of_attempt;
          of_machine = of_machine;
          of_environment = of_environment;
          issued = issued;
          unexpired = unexpired;
        })
