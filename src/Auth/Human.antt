-- ===== src/Auth/Human.antt =====
-- auth/dependencies.py and auth/permissions.py: the actor of a request, with the role that is in
-- effect. The bearer token is what FastAPI's `HTTPBearer` made of the header.
use ai_oas.Base.{
  ℕ, String, Text, Bool, true, false, ◌&&◌, ◌||◌, not, Option, none, some, List, [], ◌∷◌, leb, ltb,
  ◌==◌, length, codes, text_eq, find_first, select, if◌then◌else◌,
}
use ai_oas.Errors.{
  unexpected, Exc, IntakeError, intake_error, intake, Result, ok, err, operational, integrity,
  database, dependency_unavailable,
}
use ai_oas.Platform.{Platform}
use ai_oas.Models.{ApplicationActor, ApplicationActorRoleAssignment, is_active_status, role_valid}
use ai_oas.Session.{Tx, pure, raise, lift, gets, query, rethrow, read_only, ◌>>=◌}
use ai_oas.Auth.Verifier.{
  Jwt, Verified, good, bad, authentication_failure, key_discovery_failure, other_exception,
  VerifierState, verify,
}

pub record AuthenticatedHuman : Type 0 where
  pub actor_id : ℕ
  pub supabase_subject : Text
  pub role : String

abbrev pub authentication_required : IntakeError
authentication_required =
    intake_error 401 "AUTHENTICATION_REQUIRED" "Human authentication is required."

abbrev pub forbidden : IntakeError
forbidden = intake_error 403 "FORBIDDEN" "The requested operation is not permitted."

-- `role in SERVICE_REQUEST_READERS`
abbrev pub is_reader : String → Bool
is_reader = role_valid

unfoldable pub require_service_request_permission : AuthenticatedHuman → Result AuthenticatedHuman
require_service_request_permission human =
    if not (is_reader human.role) then err (intake forbidden) else ok human

-- The `Authorization` headers, and the scheme and the credentials of `HTTPBearer`.
pub record HumanRequest : Type 0 where
  pub authorization : List Text
  pub credentials : Option (Text × Text)

abbrev blank : Text → Bool
blank [] = true
blank (c ∷ rest) = false

-- the token, if there is one header with the scheme "bearer"
abbrev bearer_token : Platform → Option (Text × Text) → Option Text
bearer_token p none = none
bearer_token p (some (scheme, token)) =
    if not (text_eq (p.str_lower scheme) (codes "bearer")) || blank token then none else some token

unfoldable pub token_of : Platform → HumanRequest → Option Text
token_of p request =
    if not (length request.authorization == 1) then none else bearer_token p request.credentials

abbrev pub is_actor_of : Text → ApplicationActor → Bool
is_actor_of subject a = text_eq a.supabase_subject subject && is_active_status a.status

abbrev pub before_end : Option ℕ → ℕ → Bool
before_end none now = true
before_end (some effective_to) now = ltb now effective_to

abbrev pub in_effect : ℕ → ℕ → ApplicationActorRoleAssignment → Bool
in_effect actor_id now a =
    a.actor_id == actor_id && (leb a.effective_from now && before_end a.effective_to now)

-- `.limit(2)`
abbrev pub limit_two : {A : Type 0} → List A → List A
limit_two (x ∷ y ∷ rest) = x ∷ y ∷ []
limit_two l = l

abbrev pub required_actor : Option ApplicationActor → Result ApplicationActor
required_actor none = err (intake forbidden)
required_actor (some actor) = ok actor

-- the statements of the session
unfoldable pub read_assignments :
    Text → ℕ → Tx (ApplicationActor × List ApplicationActorRoleAssignment)
unfolding query
read_assignments subject now = do
  found ← query (λ d. find_first (is_actor_of subject) d.application_actors)
  actor ← lift (required_actor found)
  assignments ← query (λ d. limit_two (select (in_effect actor.id now) d.role_assignments))
  pure (actor, assignments)

-- `except SQLAlchemyError`
abbrev pub lookup_failure : Exc → Exc
lookup_failure operational = intake dependency_unavailable
lookup_failure integrity = intake dependency_unavailable
lookup_failure database = intake dependency_unavailable
lookup_failure e = e

unfoldable pub human_of :
    Text → ApplicationActor × List ApplicationActorRoleAssignment → Result AuthenticatedHuman
human_of subject (actor, assignment ∷ []) =
    if not (is_reader assignment.role)
    then err (intake forbidden)
    else ok (record { actor_id = actor.id; supabase_subject = subject; role = assignment.role })
human_of subject (actor, assignments) = err (intake forbidden)

abbrev pub subject_or_error : Verified Text → Result Text
subject_or_error (good subject) = ok subject
subject_or_error (bad key_discovery_failure) = err (intake dependency_unavailable)
subject_or_error (bad other_exception) = err unexpected
subject_or_error (bad authentication_failure) = err (intake authentication_required)

-- from the subject of the token to the human
unfoldable pub admitted : Platform → Verified Text → Tx AuthenticatedHuman
unfolding read_only read_assignments human_of
admitted p verified = do
  subject ← lift (subject_or_error verified)
  now ← gets (λ s. p.utc_now s.drawn)
  rows ← rethrow lookup_failure (read_only (read_assignments subject now))
  lift (human_of subject rows)

module _ (p : Platform) (j : Jwt) (issuer : Text) (audience : String) (cache_seconds : ℕ) where
  unfoldable pub with_token :
      Option Text → VerifierState j → Tx AuthenticatedHuman × VerifierState j
  unfolding verify admitted
  with_token none st = (raise (intake authentication_required), st)
  with_token (some token) st =
      let (verified, next) = verify j p.is_space issuer audience cache_seconds token st in
      (admitted p verified, next)

  -- The verifier is an object of the application: its state is kept apart from the session.
  unfoldable pub authenticated_human :
      HumanRequest → VerifierState j → Tx AuthenticatedHuman × VerifierState j
  unfolding with_token token_of
  authenticated_human request st = with_token (token_of p request) st

  -- `require_service_request_reader`
  unfoldable pub require_service_request_reader :
      HumanRequest → VerifierState j → Tx AuthenticatedHuman × VerifierState j
  unfolding authenticated_human require_service_request_permission
  require_service_request_reader request st =
      let (human, next) = authenticated_human request st in
      (human >>= λ h. lift (require_service_request_permission h), next)
