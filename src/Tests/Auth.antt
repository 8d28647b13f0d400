-- ===== src/Tests/Auth.antt =====
-- A human that reads a service request with a token, and the theorems there.
use ai_oas.Base.{
  ℕ, ◌+◌, ◌*◌, ◌≤◌, ◌≡◌, refl, sym, ◌∙◌, ◌↔◌, ◌==◌, Text, true, none, some, [], ◌∷◌, codes, length,
  inr, inl, text_eq, if◌then◌else◌,
}
use mathlib.Core.List.{Memᴰ}
use mathlib.Core.List.Memᴰ
use ai_oas.Errors.{intake, Result, ok}
use ai_oas.Json.{Json, str, arr, obj, nil, cons, Fields, end, field}
use ai_oas.Models.{Contact, ApplicationActor, ApplicationActorRoleAssignment, ActorStatus}
use ai_oas.Tables.{Db}
use ai_oas.Session.{Session, read_only, query, statement, answer, uuid4}
use ai_oas.Auth.Verifier.{
  Jwt, returned, VerifierState, new_verifier, verify, find_key, reload, load, document_keys, good,
}
use ai_oas.Auth.Verifier.Laws.{Cached, unloaded}
use ai_oas.Auth.Verifier.Accepting.{Accepted, verify-Accepted, verified_all, verified_all-Cached}
use ai_oas.Auth.Verifier.Rotating.{verify-rotated}
use ai_oas.Auth.Human.{
  AuthenticatedHuman, HumanRequest, admitted, authentication_required,
  require_service_request_reader, authenticated_human, with_token, token_of, read_assignments,
  human_of, require_service_request_permission,
}
use ai_oas.Auth.Entitled.{Entitled, admitted-Entitled}
use ai_oas.ServiceRequests.{
  ServiceRequestResponse, response_of, get_service_request, with_correlation,
  resolve_request_correlation, read_request, query_service_request,
}
use ai_oas.ServiceRequests.Shown.{Answered, get_service_request-Answered}
use ai_oas.ServiceRequests.Refusing.{Refused, EscapedRequest, get_service_request_error}
use ai_oas.Tests.Toy.{toy, request, requests_db, session_on}

abbrev header : Fields
header = field "alg" (str "RS256") (field "kid" (str "k1") end)

abbrev key_item : Json
key_item = obj (field "kid" (str "k1") end)

abbrev key_set : Json
key_set = obj (field "keys" (arr (cons key_item nil)) end)

-- Every header names one key, and every signature is good. The first document cannot be fetched.
abbrev jwt : Jwt
jwt = record {
  Key = ℕ;
  unverified_header = λ token. returned header;
  from_dict = λ item. returned 1;
  decode = λ n token key audience issuer. returned (field "sub" (str " human ") end);
  fetch = λ n. if n == 0 then none else some key_set;
  monotonic = λ n. 100 + n;
}

-- the state after the load that failed
abbrev after_failure : VerifierState jwt
after_failure = record { keys = []; loaded_at = 0; ticks = 1; loads = 1; decodes = 0 }

abbrev token : Text
token = codes "header.claims.signature"

first_load_fails :
    (verify jwt toy.is_space [] "authenticated" 300 token (new_verifier jwt)).1 ≡ after_failure
unfolding verify find_key reload load document_keys
first_load_fails = refl

verify-Accepted_example :
    Accepted jwt toy.is_space [] "authenticated" 300 token
      (codes "human")
      after_failure
      (verify jwt toy.is_space [] "authenticated" 300 token after_failure).1
unfolding verify find_key
verify-Accepted_example =
    verify-Accepted jwt toy.is_space [] "authenticated" 300 token (codes "human") after_failure
      (unloaded refl) refl

verified_all-Cached_example :
    Cached jwt
      (verified_all jwt toy.is_space [] "authenticated" 300 (token ∷ token ∷ []) (new_verifier jwt))
    × ((verified_all jwt toy.is_space [] "authenticated" 300
          (token ∷ token ∷ [])
          (new_verifier jwt)).loads
        ≤ 2 * length (token ∷ token ∷ []))
verified_all-Cached_example =
    verified_all-Cached jwt toy.is_space [] "authenticated" 300 (token ∷ token ∷ [])

abbrev actor : ApplicationActor
actor = record {
  id = 70;
  supabase_subject = codes "human";
  display_label = "A human";
  status = ActorStatus.active;
  version = 1;
  disabled_at = none;
  disable_reason = none;
}

abbrev assignment : ApplicationActorRoleAssignment
assignment = record {
  id = 71;
  actor_id = 70;
  role = "OperationsAgent";
  assigned_by_actor_id = 70;
  effective_from = 5;
  effective_to = none;
  revoked_by_actor_id = none;
}

abbrev contact : Contact
contact = record {
  id = 3;
  display_label = "A customer";
  normalized_email = some "customer@example.org";
  normalized_phone = none;
  preferred_channel = none;
  version = 1;
}

abbrev readers_db : Db
readers_db = record requests_db {
  contacts = contact ∷ [];
  application_actors = actor ∷ [];
  role_assignments = assignment ∷ [];
}

abbrev reader : AuthenticatedHuman
reader = record { actor_id = 70; supabase_subject = codes "human"; role = "OperationsAgent" }

the_actor : (a : ApplicationActor) → Memᴰ a (actor ∷ []) → a ≡ actor
the_actor a m = elim (Memᴰ.cases_cons m) [ inl e ↦ e | inr k ↦ absurd (Memᴰ.not-nil k) ]

one_actor :
    (a b : ApplicationActor)
    → Memᴰ a (actor ∷ [])
    → Memᴰ b (actor ∷ [])
    → text_eq a.supabase_subject b.supabase_subject ≡ true
    → a ≡ b
one_actor a b m n h = the_actor a m ∙ sym (the_actor b n)

admitted-Entitled_example :
    ((admitted toy (good (codes "human")) (session_on readers_db)).0 ≡ ok reader)
    ↔ Entitled (codes "human") 1000000 readers_db reader
admitted-Entitled_example =
    admitted-Entitled toy (codes "human") (session_on readers_db) reader refl one_actor

abbrev asked : HumanRequest
asked = record {
  authorization = codes "Bearer header.claims.signature" ∷ [];
  credentials = some (codes "bearer", token);
}

-- The toy platform reads every identifier as 1001.
abbrev here_db : Db
here_db = record readers_db { service_requests = record request { id = 1001 } ∷ [] }

unfoldable shown : Result ServiceRequestResponse × Session
unfolding get_service_request with_correlation resolve_request_correlation
    require_service_request_reader authenticated_human with_token token_of verify find_key reload
    load document_keys admitted read_assignments human_of require_service_request_permission
    read_request query_service_request read_only query statement answer uuid4
shown =
    (get_service_request toy jwt [] "authenticated" 300 none "1001" asked after_failure).0
      (session_on here_db)

get_service_request-Answered_example :
    Answered toy here_db jwt [] "authenticated" 300 "1001" asked after_failure
      (get_service_request toy jwt [] "authenticated" 300 none "1001" asked after_failure).1
      (response_of 1000 (record request { id = 1001 }, contact))
unfolding shown
get_service_request-Answered_example =
    get_service_request-Answered toy jwt [] "authenticated" 300 none "1001" asked after_failure
      (session_on here_db) (response_of 1000 (record request { id = 1001 }, contact))
      (unloaded refl) refl

-- the same request without a header
abbrev anonymous : HumanRequest
anonymous = record { authorization = []; credentials = none }

get_service_request_error_example :
    Refused
      (EscapedRequest toy jwt [] "authenticated" 300 anonymous)
      (intake authentication_required)
    × (((get_service_request toy jwt [] "authenticated" 300 none "1001" anonymous after_failure).0
          (session_on here_db)).1.committed
        ≡ here_db)
unfolding shown
get_service_request_error_example =
    get_service_request_error toy jwt [] "authenticated" 300 none "1001" anonymous after_failure
      (session_on here_db) (intake authentication_required) refl

-- the key of another kid is cached
abbrev other_cached : VerifierState jwt
other_cached = record { keys = ("k0", 9) ∷ []; loaded_at = 100; ticks = 2; loads = 1; decodes = 0 }

verify-rotated_example :
    ((verify jwt toy.is_space [] "authenticated" 300 token other_cached).0 ≡ good (codes "human"))
    × ((verify jwt toy.is_space [] "authenticated" 300 token other_cached).1.keys ≡ ("k1", 1) ∷ [])
    × ((verify jwt toy.is_space [] "authenticated" 300 token other_cached).1.loads ≡ 2)
unfolding verify find_key reload load document_keys
verify-rotated_example =
    verify-rotated jwt "k1" 1 (("k1", 1) ∷ []) toy.is_space [] "authenticated" 300 token
      other_cached (codes "human") refl refl refl refl refl
