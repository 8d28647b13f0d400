-- ===== src/Auth/Admitting.antt =====
-- A human that is authenticated, from the header to the rows, whatever the database does; and the
-- exceptions of a refusal.
use ai_oas.Base.{
  ℕ, ◌≡◌, refl, sym, ap, ◌∙◌, String, Text, Option, none, some, List, arith, find_first, select,
}
use ai_oas.Errors.{Result, ok, err}
use ai_oas.Platform.{Platform}
use ai_oas.Models.{ApplicationActor, ApplicationActorRoleAssignment}
use ai_oas.Tables.{Db}
use ai_oas.Session.{Session, begun, read_only, lift, continue, rethrow, ◌>>=◌}
use ai_oas.Session.Reason.{Ends, WhenOk}
use ai_oas.Session.Reading.{Reads, Ends-read, Ends-passed}
use ai_oas.Auth.Verifier.{
  VerifierError, Jwt, Verified, good, bad, VerifierState, verify, authentication_failure,
  key_discovery_failure, other_exception,
}
use ai_oas.Auth.Verifier.Laws.{Cached}
use ai_oas.Auth.Verifier.Accepting.{Accepted, verify-Accepted}
use ai_oas.Auth.Human.{
  AuthenticatedHuman, HumanRequest, in_effect, is_actor_of, limit_two, human_of, admitted,
  read_assignments, required_actor, token_of, with_token, authenticated_human,
  require_service_request_reader, require_service_request_permission, lookup_failure,
}
use ai_oas.Auth.Entitled.{Entitled, judged, judged-Entitled}

abbrev Rows : Type 0
Rows = ApplicationActor × List ApplicationActorRoleAssignment

-- The rows that are read are those of the database.
abbrev Read : Text → ℕ → Db → Rows → Type 0
Read subject now d (actor, assignments) =
    (find_first (is_actor_of subject) d.application_actors ≡ some actor)
    × (assignments ≡ limit_two (select (in_effect actor.id now) d.role_assignments))

required_some :
    (o : Option ApplicationActor) (actor : ApplicationActor)
    → required_actor o ≡ ok actor
    → o ≡ some actor
required_some none actor h = absurd (ground arith)
required_some (some a) actor h = ground arith

read_assignments-Read :
    (subject : Text) (now n : ℕ) (d : Db)
    → Ends (Reads d n) (read_assignments subject now) (λ rows t. Read subject now d rows)
unfolding read_assignments
read_assignments-Read subject now n d =
    Ends-read d n (λ e. find_first (is_actor_of subject) e.application_actors) _
      (Ends-passed (required_actor (find_first (is_actor_of subject) d.application_actors)) _
        λ actor e.
          Ends-read d n (λ x. limit_two (select (in_effect actor.id now) x.role_assignments)) _
            (record { at = λ s h. (required_some _ actor e, refl) }))

admitted_rows :
    (p : Platform) (subject : Text) (s : Session) (human : AuthenticatedHuman)
    → (admitted p (good subject) s).0 ≡ ok human
    → judged subject
        (p.utc_now s.drawn)
        s.committed
        (find_first (is_actor_of subject) s.committed.application_actors)
      ≡ ok human
unfolding admitted read_only
admitted_rows p subject s human h =
    by_read (read_assignments subject (p.utc_now s.drawn) (begun s))
      ((read_assignments-Read subject (p.utc_now s.drawn) s.now s.committed).at (begun s)
        (refl, refl))
      h
  where
    by_read :
        (r : Result Rows × Session)
        → WhenOk (λ rows t. Read subject (p.utc_now s.drawn) s.committed rows) r
        → (((rethrow lookup_failure
                (λ u. (r.0, record r.1 { working = r.1.committed; transaction = none })))
              >>= λ rows. lift (human_of subject rows))
            s).0
          ≡ ok human
        → judged subject
            (p.utc_now s.drawn)
            s.committed
            (find_first (is_actor_of subject) s.committed.application_actors)
          ≡ ok human
    by_read (ok (actor, assignments), t) read e =
        ap (judged subject (p.utc_now s.drawn) s.committed) read.0
        ∙ ap (λ l. human_of subject (actor, l)) (sym read.1)
        ∙ e
    by_read (err x, t) read e = absurd (ground arith)

refused_subject :
    (p : Platform) (s : Session) (human : AuthenticatedHuman) (x : VerifierError)
    → (admitted p (bad x) s).0 ≡ ok human
    → ⊥
unfolding admitted
refused_subject p s human authentication_failure y = ground arith
refused_subject p s human key_discovery_failure y = ground arith
refused_subject p s human other_exception y = ground arith

module _ (p : Platform) (j : Jwt) (issuer : Text) (audience : String) (cache_seconds : ℕ) where
  -- Who an accepted request comes from.
  pub record Authentic (request : HumanRequest) (st next : VerifierState j) (now : ℕ) (d : Db)
      (human : AuthenticatedHuman) : Type 0 where
    pub token : Text
    pub subject : Text
    pub sent : token_of p request ≡ some token
    pub accepted : Accepted j p.is_space issuer audience cache_seconds token subject st next
    pub entitled : Entitled subject now d human

  with_token-Authentic :
      (request : HumanRequest) (st : VerifierState j) (s : Session) (human : AuthenticatedHuman)
      → Cached j st
      → (o : Option Text) → token_of p request ≡ o
      → ((with_token p j issuer audience cache_seconds o st).0 s).0 ≡ ok human
      → Authentic request st
          (with_token p j issuer audience cache_seconds o st).1
          (p.utc_now s.drawn)
          s.committed
          human
  unfolding with_token
  with_token-Authentic request st s human cached none sent h = absurd (ground arith)
  with_token-Authentic request st s human cached (some token) sent h =
      by_subject (verify j p.is_space issuer audience cache_seconds token st).0 refl h
    where
      by_subject :
          (v : Verified Text)
          → (verify j p.is_space issuer audience cache_seconds token st).0 ≡ v
          → (admitted p v s).0 ≡ ok human
          → Authentic request st
              (verify j p.is_space issuer audience cache_seconds token st).1
              (p.utc_now s.drawn)
              s.committed
              human
      by_subject (good subject) e x = record {
        token = token;
        subject = subject;
        sent = sent;
        accepted =
            verify-Accepted j p.is_space issuer audience cache_seconds token subject st cached e;
        entitled =
            judged-Entitled subject (p.utc_now s.drawn) s.committed human _ refl
              (admitted_rows p subject s human x);
      }
      by_subject (bad x) e y = absurd (refused_subject p s human x y)

  permitted_human :
      (m : Result AuthenticatedHuman × Session) (human : AuthenticatedHuman)
      → (continue m.0 (λ h. lift (require_service_request_permission h)) m.1).0 ≡ ok human
      → m.0 ≡ ok human
  unfolding require_service_request_permission
  permitted_human (ok h, t) human e = ground arith
  permitted_human (err x, t) human e = absurd (ground arith)

  -- A service request reader is admitted only for one authorization header with the scheme "bearer",
  -- whose token the verifier accepts, and as the actor that the rows entitle for the subject of the
  -- token. The cache of the verifier must hold the keys of a fetched document, or none.
  pub require_service_request_reader-Authentic :
      (request : HumanRequest) (st : VerifierState j) (s : Session) (human : AuthenticatedHuman)
      → Cached j st
      → ((require_service_request_reader p j issuer audience cache_seconds request st).0 s).0
        ≡ ok human
      → Authentic request st
          (require_service_request_reader p j issuer audience cache_seconds request st).1
          (p.utc_now s.drawn)
          s.committed
          human
  unfolding require_service_request_reader authenticated_human
  require_service_request_reader-Authentic request st s human cached h =
      with_token-Authentic request st s human cached (token_of p request) refl (
        permitted_human ((with_token p j issuer audience cache_seconds (token_of p request) st).0 s)
          human h)
