-- ===== src/ServiceRequests/Refusing.antt =====
-- How `get_service_request` refuses.
use ai_oas.Base.{ℕ, ◌≡◌, refl, String, Text, Option, none, some, List, [], ◌∷◌}
use ai_oas.Errors.{Exc, intake, Result, ok, err, dependency_unavailable, unexpected}
use ai_oas.Platform.{Platform}
use ai_oas.Models.{ServiceRequest, Contact, ApplicationActor, ApplicationActorRoleAssignment}
use ai_oas.Session.{Session, Tx, rethrow, read_only}
use ai_oas.ServiceRequests.Shown.{get_service_request_unchanged}
use ai_oas.Session.Raising.{
  Fails, Raises, Fails-ok, Fails-err, Raises-bind, Raises-lift, Raises-pure, Raises-rethrow,
  Raises-query, Raised, of_operational, of_integrity, of_database, Raises-uuid4, fails_rules,
  raises_rules,
}
use ai_oas.Session.ReadOnly.{Raises-read_only}
use ai_oas.Auth.Verifier.{
  Jwt, Verified, good, bad, VerifierState, verify, authentication_failure, key_discovery_failure,
  other_exception,
}
use ai_oas.Auth.Verifier.Escaping.{Escaped, verify-Escaped}
use ai_oas.Auth.Human.{
  AuthenticatedHuman, HumanRequest, admitted, read_assignments, human_of, with_token,
  authenticated_human, token_of, required_actor, require_service_request_reader,
  require_service_request_permission, lookup_failure, subject_or_error, authentication_required,
  forbidden,
}
use ai_oas.ServiceRequests.{
  ServiceRequestResponse, one_or_none, query_service_request, read_request, query_failure,
  found_or_missing, parsed_id, parsed_correlation, resolve_request_correlation, with_correlation,
  get_service_request, resource_not_found, invalid_identifier,
}

-- 400, 401, 403, 404 and 503, or the other exception, for a reason.
pub data Refused (reason : Type 0) : Exc → Type 0 where
  bad_identifier : Refused reason (intake invalid_identifier)
  unauthenticated : Refused reason (intake authentication_required)
  not_permitted : Refused reason (intake forbidden)
  missing : Refused reason (intake resource_not_found)
  unavailable : Refused reason (intake dependency_unavailable)
  escaped : reason → Refused reason unexpected

-- pyjwt raises past the verifier, for the token of the request
abbrev pub EscapedRequest : (p : Platform) → Jwt → Text → String → ℕ → HumanRequest → Type 0
EscapedRequest p j issuer audience cache_seconds request =
    (token : Text) × (token_of p request ≡ some token)
    × Escaped j p.is_space issuer audience cache_seconds token

-- what a session raises before its exceptions are replaced
data Inside : Exc → Type 0 where
  of_session : {e : Exc} → Raised e → Inside e
  of_actor : Inside (intake forbidden)

raised : (e : Exc) → Raised e → Inside e
raised e h = of_session h

module _ (reason : Type 0) where
  lookup_failure-Refused : (e : Exc) → Inside e → Refused reason (lookup_failure e)
  lookup_failure-Refused e (of_session of_operational) = unavailable
  lookup_failure-Refused e (of_session of_integrity) = unavailable
  lookup_failure-Refused e (of_session of_database) = unavailable
  lookup_failure-Refused e of_actor = not_permitted

  query_failure-Refused : (e : Exc) → Raised e → Refused reason (query_failure e)
  query_failure-Refused e of_operational = unavailable
  query_failure-Refused e of_integrity = unavailable
  query_failure-Refused e of_database = unavailable

  required_actor-Inside : (o : Option ApplicationActor) → Fails Inside (required_actor o)
  required_actor-Inside none = Fails-err (intake forbidden) of_actor
  required_actor-Inside (some a) = Fails-ok a

  one_or_none-Raised : (l : List (ServiceRequest × Contact)) → Fails Raised (one_or_none l)
  one_or_none-Raised [] = Fails-ok none
  one_or_none-Raised (x ∷ []) = Fails-ok (some x)
  one_or_none-Raised (x ∷ y ∷ l) = Fails-err _ of_database

  human_of-Refused :
      (subject : Text) (rows : ApplicationActor × List ApplicationActorRoleAssignment)
      → Fails (Refused reason) (human_of subject rows)
  unfolding human_of
  human_of-Refused subject (actor, []) = Fails-err (intake forbidden) not_permitted
  human_of-Refused subject (actor, a ∷ []) = search (fails_rules, Fails-err, not_permitted)
  human_of-Refused subject (actor, a ∷ b ∷ l) = Fails-err (intake forbidden) not_permitted

  subject_or_error-Refused :
      (v : Verified Text)
      → (v ≡ bad other_exception → reason)
      → Fails (Refused reason) (subject_or_error v)
  subject_or_error-Refused (good subject) escapes = Fails-ok subject
  subject_or_error-Refused (bad other_exception) escapes =
      Fails-err unexpected (escaped (escapes refl))
  subject_or_error-Refused (bad key_discovery_failure) escapes =
      Fails-err (intake dependency_unavailable) unavailable
  subject_or_error-Refused (bad authentication_failure) escapes =
      Fails-err (intake authentication_required) unauthenticated

  parsed_id-Refused : (o : Option ℕ) → Fails (Refused reason) (parsed_id o)
  parsed_id-Refused none = Fails-err (intake resource_not_found) missing
  parsed_id-Refused (some u) = Fails-ok u

  found_or_missing-Refused :
      (o : Option ServiceRequestResponse) → Fails (Refused reason) (found_or_missing o)
  found_or_missing-Refused none = Fails-err (intake resource_not_found) missing
  found_or_missing-Refused (some r) = Fails-ok r

  permission-Refused :
      (h : AuthenticatedHuman) → Fails (Refused reason) (require_service_request_permission h)
  unfolding require_service_request_permission
  permission-Refused h = search (fails_rules, Fails-err, not_permitted)

  kept_exception : (e : Exc) → Raised e → Raised e
  kept_exception e h = h

  module _ (p : Platform) where
    Raises-read_assignments :
        (subject : Text) (now : ℕ) → Raises Inside (read_assignments subject now)
    unfolding read_assignments
    Raises-read_assignments subject now =
        search (raises_rules, Raises-query, raised, required_actor-Inside) depth 20

    Raises-lookup :
        (subject : Text) (now : ℕ)
        → Raises
            (Refused reason)
            (rethrow lookup_failure (read_only (read_assignments subject now)))
    Raises-lookup subject now =
        Raises-rethrow lookup_failure _ lookup_failure-Refused
          (Raises-read_only _ (Raises-read_assignments subject now))

    Raises-admitted :
        (v : Verified Text)
        → (v ≡ bad other_exception → reason)
        → Raises (Refused reason) (admitted p v)
    unfolding admitted
    Raises-admitted v escapes =
        let subject_rule = subject_or_error-Refused v escapes in
        search (raises_rules, subject_rule, human_of-Refused, Raises-lookup) depth 20

    Raises-query_service_request :
        (id correlation_id : ℕ) → Raises Raised (query_service_request id correlation_id)
    unfolding query_service_request
    Raises-query_service_request id correlation_id =
        search (raises_rules, Raises-read_only, Raises-query, kept_exception, one_or_none-Raised)
          depth 20

    Raises-queried :
        (id correlation_id : ℕ)
        → Raises (Refused reason) (rethrow query_failure (query_service_request id correlation_id))
    Raises-queried id correlation_id =
        Raises-rethrow query_failure _ query_failure-Refused
          (Raises-query_service_request id correlation_id)

    Raises-read_request :
        (request_id : String) (correlation_id : ℕ)
        → Raises (Refused reason) (read_request p request_id correlation_id)
    unfolding read_request
    Raises-read_request request_id correlation_id =
        search (raises_rules, parsed_id-Refused, found_or_missing-Refused, Raises-queried) depth 20

    module _ (j : Jwt) (issuer : Text) (audience : String) (cache_seconds : ℕ) where
      Raises-with_token :
          (o : Option Text) (st : VerifierState j)
          → ((token : Text)
              → o ≡ some token
              → Escaped j p.is_space issuer audience cache_seconds token
              → reason)
          → Raises (Refused reason) (with_token p j issuer audience cache_seconds o st).0
      unfolding with_token
      Raises-with_token none st escapes = record { at = λ s. Fails-err _ unauthenticated }
      Raises-with_token (some token) st escapes =
          Raises-admitted (verify j p.is_space issuer audience cache_seconds token st).0 (λ h.
            escapes token refl
              (verify-Escaped j p.is_space issuer audience cache_seconds token st h))

      -- every other exception has the reason
      abbrev Reasons : HumanRequest → Type 0
      Reasons request =
          (token : Text)
          → token_of p request ≡ some token
          → Escaped j p.is_space issuer audience cache_seconds token
          → reason

      Raises-reader :
          (request : HumanRequest) (st : VerifierState j)
          → Reasons request
          → Raises
              (Refused reason)
              (require_service_request_reader p j issuer audience cache_seconds request st).0
      unfolding require_service_request_reader authenticated_human
      Raises-reader request st escapes =
          Raises-bind _ _ (Raises-with_token (token_of p request) st escapes)
            λ h. Raises-lift _ (permission-Refused h)

      -- the exceptions of a correlation, when it is resolved and when it is drawn
      abbrev RefusesCorrelation : Result (Tx ℕ) → Type 0
      RefusesCorrelation (err e) = Refused reason e
      RefusesCorrelation (ok m) = Raises (Refused reason) m

      parsed_correlation-Refuses : (o : Option ℕ) → RefusesCorrelation (parsed_correlation o)
      parsed_correlation-Refuses none = bad_identifier
      parsed_correlation-Refuses (some u) = Raises-pure u

      resolve_request_correlation-Refuses :
          (header : Option String) → RefusesCorrelation (resolve_request_correlation p none header)
      unfolding resolve_request_correlation
      resolve_request_correlation-Refuses none = Raises-uuid4 p
      resolve_request_correlation-Refuses (some header) =
          parsed_correlation-Refuses (p.uuid_parse header)

      with_correlation-Refused :
          (r : Result (Tx ℕ))
          → RefusesCorrelation r
          → (request_id : String) (request : HumanRequest) (st : VerifierState j) → Reasons request
          → Raises
              (Refused reason)
              (with_correlation p j issuer audience cache_seconds r request_id request st).0
      unfolding with_correlation
      with_correlation-Refused (err e) k request_id request st escapes = record {
        at = λ s. Fails-err e k;
      }
      with_correlation-Refused (ok m) k request_id request st escapes =
          Raises-bind _ _ k λ correlation_id.
            Raises-bind _ _ (Raises-reader request st escapes)
              λ reader. Raises-read_request request_id correlation_id

-- A refused query of a service request raises one of five safe errors, whatever the key discovery, the
-- rows and the database do: a bad correlation (400), no authentication (401), no permission (403), no
-- such request (404), or a missing dependency (503); or pyjwt has raised, for the token of the
-- request or for an item of a fetched document, an exception that the verifier does not catch. Nothing
-- that is committed changes.
pub get_service_request_error :
    (p : Platform) (j : Jwt) (issuer : Text) (audience : String) (cache_seconds : ℕ)
    (correlation_header : Option String) (request_id : String) (request : HumanRequest)
    (st : VerifierState j) (s : Session) (e : Exc)
    → ((get_service_request p j issuer audience cache_seconds correlation_header request_id request
          st).0
        s).0
      ≡ err e
    → Refused (EscapedRequest p j issuer audience cache_seconds request) e
      × (((get_service_request p j issuer audience cache_seconds correlation_header request_id
              request st).0
            s).1.committed
          ≡ s.committed)
unfolding get_service_request
get_service_request_error p j issuer audience cache_seconds correlation_header request_id request st
      s e h =
    (
      ((with_correlation-Refused (EscapedRequest p j issuer audience cache_seconds request) p j
              issuer audience cache_seconds (resolve_request_correlation p none correlation_header)
              (resolve_request_correlation-Refuses
                (EscapedRequest p j issuer audience cache_seconds request) p j issuer audience
                cache_seconds correlation_header)
              request_id request st (λ token named x. (token, named, x))).at
            s).at
          e h,
      get_service_request_unchanged p j issuer audience cache_seconds correlation_header request_id
          request st s,
    )
