-- ===== src/Callback/Authority.antt =====
-- What `verify` promises: it changes nothing, and it authorizes only the holder of the current
-- credential of a running attempt.
use ai_oas.Base.{
  ℕ, String, Text, ◌≡◌, refl, subst, true, false, not, Option, none, some, List, [], ◌∷◌, ◌==◌,
  text_eq, select, find_first, arith,
}
use ai_oas.Errors.{ok}
use ai_oas.Platform.{Platform}
use ai_oas.Models.{ServiceRequest, LogicalOperation, IntegrationAttempt, AttemptCallbackCredential}
use ai_oas.Session.{Session, gets}
use ai_oas.Session.Reason.{Keeps, Ends, WhenOk-at, Ends-bind, Ends-rethrow, Keeps-gets, keeps_rules}
use ai_oas.Session.Reading.{Reads, Ends-read, Ends-clock, Ends-passed, Ends-unless}
use ai_oas.Session.Statements.{IsStable, Keeps-query, Keeps-func_now}
use ai_oas.Tables.{Db}
use ai_oas.Identity.{AuthenticatedWorkflowService}
use ai_oas.Outcome.{safe_exception}
use ai_oas.StartAi.Service.{aware_time}
use ai_oas.Callback.Verifier.{
  VerifiedAttemptCallbackContext, matching_callback_credentials, required, admitted_attempt,
  assigned_to, judge, only_match, matched, verify_in_transaction, verify,
}
use ai_oas.Callback.Current.{Current, judge-Current}

-- What an authorized callback rests on, in the database that the session sees.
pub record Authorized (p : Platform) (machine : AuthenticatedWorkflowService) (attempt_id : ℕ)
    (supplied : Text) (now : ℕ) (authority : VerifiedAttemptCallbackContext) (d : Db) : Type 0 where
  pub attempt : IntegrationAttempt
  pub current : AttemptCallbackCredential
  pub found : find_first (λ a. a.id == attempt_id) d.integration_attempts ≡ some attempt
  pub assigned : assigned_to machine attempt ≡ true
  pub is_current :
      Current machine attempt
        (select (λ c. c.integration_attempt_id == attempt.id) d.callback_credentials)
        now
        current
  pub holder : AttemptCallbackCredential
  pub only_holder :
      select
        (λ c. text_eq c.credential_hash (p.sha256 (p.encode_ascii supplied)))
        (select (λ c. c.integration_attempt_id == attempt.id) d.callback_credentials)
      ≡ holder ∷ []
  pub holder_is_current : (holder.id == current.id) ≡ true
  pub names_attempt : authority.integration_attempt_id ≡ attempt.id
  pub names_credential : authority.callback_credential_id ≡ current.id

module _ (P : Session → Type 0) (stable : IsStable P) (p : Platform)
    (machine : AuthenticatedWorkflowService) (attempt_id : ℕ) (supplied : Text)
    (kind : String) where
  Keeps-matched :
      (attempt : IntegrationAttempt) (operation : LogicalOperation)
      (service_request : ServiceRequest) (session transaction : ℕ)
      (credentials : List AttemptCallbackCredential) (current : AttemptCallbackCredential)
      → Keeps P (
          matched machine attempt operation service_request p supplied session transaction
            credentials current)
  unfolding matched
  Keeps-matched attempt operation service_request session transaction credentials current =
      search (keeps_rules) depth 10

  Keeps-verify_in_transaction :
      (transaction : ℕ)
      → Keeps P (verify_in_transaction p machine attempt_id supplied kind transaction)
  unfolding verify_in_transaction
  Keeps-verify_in_transaction transaction =
      search (keeps_rules, Keeps-query, Keeps-func_now, Keeps-matched, stable) depth 30

  -- Verifying a callback keeps every property of the session that does not look at the coming
  -- faults and the drawn identifiers, whether it authorizes the callback or raises.
  pub Keeps-verify : Keeps P (verify p machine attempt_id supplied kind)
  unfolding verify
  Keeps-verify = search (keeps_rules, Keeps-verify_in_transaction) depth 10

admitted_attempt-eq-ok :
    (machine : AuthenticatedWorkflowService) (found : Option IntegrationAttempt)
    (attempt : IntegrationAttempt)
    → admitted_attempt machine found ≡ ok attempt
    → (found ≡ some attempt) × (assigned_to machine attempt ≡ true)
unfolding admitted_attempt
admitted_attempt-eq-ok machine none attempt h = cc
admitted_attempt-eq-ok machine (some a) attempt h = ground arith

aware_time-eq-ok : (c : Option ℕ) (n : ℕ) → aware_time c ≡ ok n → c ≡ some n
aware_time-eq-ok none n h = cc
aware_time-eq-ok (some m) n h = ground arith

-- The only credential with the supplied digest is the current one.
only_match-hash :
    (p : Platform) (supplied : Text) (rows matches : List AttemptCallbackCredential)
    (current : AttemptCallbackCredential)
    → matching_callback_credentials p rows supplied ≡ ok matches
    → not (only_match current matches) ≡ false
    → (m : AttemptCallbackCredential) × (select
          (λ c. text_eq c.credential_hash (p.sha256 (p.encode_ascii supplied)))
          rows
        ≡ m ∷ [])
      × ((m.id == current.id) ≡ true)
unfolding matching_callback_credentials only_match
only_match-hash p supplied rows [] current e h = cc
only_match-hash p supplied rows (m ∷ []) current e h = (m, ground arith, ground arith)
only_match-hash p supplied rows (m ∷ n ∷ l) current e h = cc

module _ (p : Platform) (machine : AuthenticatedWorkflowService) (attempt_id : ℕ) (supplied : Text)
    (kind : String) (d : Db) (n : ℕ) where
  abbrev Granted : VerifiedAttemptCallbackContext → Session → Type 0
  Granted authority s = Authorized p machine attempt_id supplied n authority d

  matched-Granted :
      (attempt : IntegrationAttempt) (operation : LogicalOperation)
      (service_request : ServiceRequest) (session transaction : ℕ)
      (current : AttemptCallbackCredential)
      → find_first (λ a. a.id == attempt_id) d.integration_attempts ≡ some attempt
      → assigned_to machine attempt ≡ true
      → Current machine attempt
          (select (λ c. c.integration_attempt_id == attempt.id) d.callback_credentials)
          n
          current
      → Ends
          (Reads d n)
          (matched machine attempt operation service_request p supplied session transaction
            (select (λ c. c.integration_attempt_id == attempt.id) d.callback_credentials)
            current)
          Granted
  unfolding matched
  matched-Granted attempt operation service_request session transaction current found assigned is =
      Ends-passed (matching_callback_credentials p _ supplied) _ λ matches e.
        Ends-unless (not (only_match current matches)) _ _ λ f.
          let (m, only, same) = only_match-hash p supplied _ matches current e f in
          record {
            at = λ s h. record {
              attempt = attempt;
              current = current;
              found = found;
              assigned = assigned;
              is_current = is;
              holder = m;
              only_holder = only;
              holder_is_current = same;
              names_attempt = refl;
              names_credential = refl;
            };
          }

  verify_in_transaction-Granted :
      (transaction : ℕ)
      → Ends
          (Reads d n)
          (verify_in_transaction p machine attempt_id supplied kind transaction)
          Granted
  unfolding verify_in_transaction
  verify_in_transaction-Granted transaction = Ends-read d n _ _ (
      Ends-passed
        (admitted_attempt machine (find_first (λ a. a.id == attempt_id) d.integration_attempts)) _
        λ attempt e. Ends-read d n _ _ (
          Ends-passed
            (required (find_first (λ o. o.id == attempt.logical_operation_id) d.logical_operations))
            _
            λ operation _. Ends-read d n _ _ (
              Ends-passed
                (required (find_first (λ r. r.id == attempt.service_request_id) d.service_requests))
                _
                λ service_request _. Ends-read d n _ _ (
                  Ends-read d n _ _ (
                    Ends-clock d n _ λ c time. Ends-passed (aware_time c) _ λ now a.
                      Ends-passed
                        (judge machine kind attempt operation service_request
                          (select (λ a. a.logical_operation_id == operation.id)
                            d.integration_attempts)
                          (select (λ c. c.integration_attempt_id == attempt.id)
                            d.callback_credentials)
                          now)
                        _
                        λ current j. Ends-bind (gets (λ s. s.identity)) _ (Keeps-gets _) λ session.
                          matched-Granted attempt operation service_request session transaction
                            current (admitted_attempt-eq-ok machine _ attempt e).0
                            (admitted_attempt-eq-ok machine _ attempt e).1
                            (subst
                              (λ m.
                                Current machine attempt
                                  (select (λ c. c.integration_attempt_id == attempt.id)
                                    d.callback_credentials)
                                  m current)
                              (time now (aware_time-eq-ok c now a))
                              (judge-Current machine kind attempt operation service_request _ _ now
                                current j)))))))

  verify-Granted : Ends (Reads d n) (verify p machine attempt_id supplied kind) Granted
  unfolding verify
  verify-Granted = Ends-bind (gets (λ s. s.transaction)) _ (Keeps-gets _) λ outer.
      Ends-passed _ _
        λ transaction _. Ends-rethrow safe_exception _ _ (verify_in_transaction-Granted transaction)

-- Verifying a callback authorizes it only if the attempt runs and is assigned to the machine, its
-- only active credential is the newest one, is scoped to the attempt, the machine and the
-- environment, is issued and not expired at the time of the transaction, and is the only credential
-- of the attempt whose hash is the digest of what was supplied.
pub verify-Authorized :
    (p : Platform) (machine : AuthenticatedWorkflowService) (attempt_id : ℕ) (supplied : Text)
    (kind : String) (s : Session) (authority : VerifiedAttemptCallbackContext)
    → (verify p machine attempt_id supplied kind s).0 ≡ ok authority
    → Authorized p machine attempt_id supplied s.now authority s.working
verify-Authorized p machine attempt_id supplied kind s authority h =
    WhenOk-at (Granted p machine attempt_id supplied kind s.working s.now)
      (verify p machine attempt_id supplied kind s) authority h
      ((verify-Granted p machine attempt_id supplied kind s.working s.now).at s (refl, refl))
