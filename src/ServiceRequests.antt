-- ===== src/ServiceRequests.antt =====
-- service_requests/query.py and models.py, api/service_requests.py and api/correlation.py: the
-- protected query of one service request with its contact. `created_at` and `updated_at` of the view
-- are left out, as in the rows.
pub mod Laws
pub mod Shown
pub mod Refusing
use ai_oas.Base.{ℕ, String, Text, Option, none, some, List, [], ◌∷◌, ◌==◌, ◌++◌, select, map}
use ai_oas.Errors.{
  Exc, IntakeError, intake_error, intake, Result, ok, err, operational, integrity, database,
  runtime, value, unexpected, dependency_unavailable, internal_error,
}
use ai_oas.Platform.{Platform}
use ai_oas.Models.{ServiceRequest, ServiceRequestStatus, Contact}
use ai_oas.Tables.{Db}
use ai_oas.Session.{Session, Tx, pure, raise, lift, query, uuid4, rethrow, read_only, ◌>>=◌}
use ai_oas.Auth.Verifier.{Jwt, VerifierState}
use ai_oas.Auth.Human.{AuthenticatedHuman, HumanRequest, require_service_request_reader}

pub record ServiceRequestView : Type 0 where
  pub id : ℕ
  pub status : ServiceRequestStatus
  pub category : Option String
  pub priority : Option String
  pub current_queue : Option String
  pub description : String
  pub location_context : Option String
  pub timing_preference : Option String
  pub version : ℕ

pub record ContactView : Type 0 where
  pub id : ℕ
  pub display_name : String
  pub email : Option String
  pub phone : Option String
  pub preferred_channel : Option String
  pub version : ℕ

-- `active_references` has the current interpretation and two fields that are always null.
pub record ServiceRequestResponse : Type 0 where
  pub correlation_id : ℕ
  pub service_request : ServiceRequestView
  pub contact : ContactView
  pub current_interpretation_id : Option ℕ

abbrev pub response_of : ℕ → ServiceRequest × Contact → ServiceRequestResponse
response_of correlation_id (request, contact) = record {
  correlation_id = correlation_id;
  service_request = record {
    id = request.id;
    status = request.status;
    category = request.category;
    priority = request.priority;
    current_queue = request.current_queue;
    description = request.normalized_request_description;
    location_context = request.location_context;
    timing_preference = request.timing_preference;
    version = request.version;
  };
  contact = record {
    id = contact.id;
    display_name = contact.display_label;
    email = contact.normalized_email;
    phone = contact.normalized_phone;
    preferred_channel = contact.preferred_channel;
    version = contact.version;
  };
  current_interpretation_id = request.current_interpretation_id;
}

-- the rows of the join for some requests
abbrev pub joined : List ServiceRequest → List Contact → List (ServiceRequest × Contact)
joined [] contacts = []
joined (r ∷ rest) contacts =
    map (λ c. (r, c)) (select (λ c. c.id == r.contact_id) contacts) ++ joined rest contacts

abbrev pub join_of : ℕ → Db → List (ServiceRequest × Contact)
join_of request_id d = joined (select (λ r. r.id == request_id) d.service_requests) d.contacts

-- `one_or_none`; two rows are its MultipleResultsFound
abbrev pub one_or_none : {A : Type 0} → List A → Result (Option A)
one_or_none [] = ok none
one_or_none (x ∷ []) = ok (some x)
one_or_none (x ∷ y ∷ rest) = err database

abbrev pub response_if : ℕ → Option (ServiceRequest × Contact) → Option ServiceRequestResponse
response_if correlation_id none = none
response_if correlation_id (some row) = some (response_of correlation_id row)

unfoldable pub query_service_request : ℕ → ℕ → Tx (Option ServiceRequestResponse)
unfolding read_only query
query_service_request request_id correlation_id = do
  row ← read_only (do rows ← query (join_of request_id); lift (one_or_none rows))
  pure (response_if correlation_id row)

-- the `except` clauses of the handler
abbrev pub query_failure : Exc → Exc
query_failure operational = intake dependency_unavailable
query_failure integrity = intake dependency_unavailable
query_failure database = intake dependency_unavailable
query_failure (intake e) = intake internal_error
query_failure runtime = intake internal_error
query_failure value = intake internal_error
query_failure unexpected = intake internal_error

abbrev pub resource_not_found : IntakeError
resource_not_found = intake_error 404 "RESOURCE_NOT_FOUND" "The requested resource was not found."

abbrev pub invalid_identifier : IntakeError
invalid_identifier =
    intake_error 400 "INVALID_TRANSPORT_IDENTIFIER" "X-Correlation-ID must be a UUID."

abbrev pub found_or_missing : Option ServiceRequestResponse → Result ServiceRequestResponse
found_or_missing none = err (intake resource_not_found)
found_or_missing (some response) = ok response

-- `resolve_request_correlation`: the value that the request has already, the header, or a new one
abbrev pub parsed_correlation : Option ℕ → Result (Tx ℕ)
parsed_correlation none = err (intake invalid_identifier)
parsed_correlation (some u) = ok (pure u)

unfoldable pub resolve_request_correlation : Platform → Option ℕ → Option String → Result (Tx ℕ)
unfolding uuid4
resolve_request_correlation p (some existing) header = ok (pure existing)
resolve_request_correlation p none none = ok (uuid4 p)
resolve_request_correlation p none (some header) = parsed_correlation (p.uuid_parse header)

-- `uuid.UUID(request_id)` of the path
abbrev pub parsed_id : Option ℕ → Result ℕ
parsed_id none = err (intake resource_not_found)
parsed_id (some u) = ok u

-- the body of `get_service_request`
unfoldable pub read_request : Platform → String → ℕ → Tx ServiceRequestResponse
unfolding query_service_request
read_request p request_id correlation_id = do
  id ← lift (parsed_id (p.uuid_parse request_id))
  result ← rethrow query_failure (query_service_request id correlation_id)
  lift (found_or_missing result)

module _ (p : Platform) (j : Jwt) (issuer : Text) (audience : String) (cache_seconds : ℕ) where
  unfoldable pub with_correlation :
      Result (Tx ℕ)
      → String
      → HumanRequest
      → VerifierState j
      → Tx ServiceRequestResponse × VerifierState j
  unfolding require_service_request_reader read_request
  with_correlation (err e) request_id request st = (raise e, st)
  with_correlation (ok correlation) request_id request st =
      let (human, next) =
        require_service_request_reader p j issuer audience cache_seconds request st in
      (
        do correlation_id ← correlation; reader ← human; read_request p request_id correlation_id,
        next,
      )

  -- `get_service_request` with its dependencies, in their order
  unfoldable pub get_service_request :
      Option String
      → String
      → HumanRequest
      → VerifierState j
      → Tx ServiceRequestResponse × VerifierState j
  unfolding with_correlation resolve_request_correlation
  get_service_request correlation_header request_id request st =
      with_correlation (resolve_request_correlation p none correlation_header) request_id request st
