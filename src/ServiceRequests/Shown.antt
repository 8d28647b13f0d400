-- ===== src/ServiceRequests/Shown.antt =====
-- What `get_service_request` shows, to whom, and how it refuses.
use ai_oas.Base.{ℕ, ◌≡◌, refl, subst, String, Text, Option, none, some, List, [], ◌∷◌, arith}
use mathlib.Core.List.{Memᴰ}
use ai_oas.Errors.{Result, ok, err}
use ai_oas.Platform.{Platform}
use ai_oas.Models.{ServiceRequest, Contact}
use ai_oas.Tables.{Db}
use ai_oas.Session.{Session, Tx, query, lift, pure, rethrow, read_only, ◌>>=◌, continue, handle}
use ai_oas.Session.Reason.{
  Ends-weaken, Ends-lift, Keeps, Keeps-bind, Keeps-lift, Keeps-pure, Keeps-raise, keeps_rules,
}
use ai_oas.Session.Reading.{Ends-read}
use ai_oas.Session.Statements.{Keeps-query, Keeps-uuid4}
use ai_oas.Session.ReadOnly.{
  Committed, Committed-IsStable, Keeps-read_only, read_only_lem, first_returned,
}
use ai_oas.Auth.Verifier.{Jwt, Verified, VerifierState, verify}
use ai_oas.Auth.Verifier.Laws.{Cached}
use ai_oas.Auth.Human.{
  AuthenticatedHuman, HumanRequest, admitted, read_assignments, with_token, authenticated_human,
  token_of, require_service_request_reader,
}
use ai_oas.Auth.Admitting.{Authentic, require_service_request_reader-Authentic}
use ai_oas.ServiceRequests.{
  ServiceRequestResponse, response_of, response_if, join_of, one_or_none, query_service_request,
  read_request, query_failure, found_or_missing, parsed_id, parsed_correlation,
  resolve_request_correlation, with_correlation, get_service_request,
}
use ai_oas.ServiceRequests.Laws.{Joined, join_of-Joined}

-- The response shows one request of the database with its contact.
pub record Shown (p : Platform) (request_id : String) (d : Db) (response : ServiceRequestResponse)
    : Type 0 where
  pub id : ℕ
  pub parsed : p.uuid_parse request_id ≡ some id
  pub correlation_id : ℕ
  pub row : ServiceRequest × Contact
  pub joined : Joined id d row
  pub shown : response ≡ response_of correlation_id row

only_row :
    (l : List (ServiceRequest × Contact)) (row : ServiceRequest × Contact)
    → one_or_none l ≡ ok (some row)
    → Memᴰ row l
only_row [] row h = absurd (ground arith)
only_row (x ∷ []) row h = Memᴰ.head (ground arith)
only_row (x ∷ y ∷ l) row h = absurd (ground arith)

query_service_request-Joined :
    (request_id correlation_id : ℕ) (s : Session) (response : ServiceRequestResponse)
    → (query_service_request request_id correlation_id s).0 ≡ ok (some response)
    → (row : ServiceRequest × Contact) × Joined request_id s.committed row
      × (response ≡ response_of correlation_id row)
unfolding query_service_request
query_service_request-Joined request_id correlation_id s response h =
    let rows : Tx (Option (ServiceRequest × Contact)) =
      query (join_of request_id) >>= λ rows. lift (one_or_none rows) in
    let (o, read, same) =
      first_returned (read_only rows s) (λ row. pure (response_if correlation_id row))
        (some response) h in
    by_row o
      (read_only_lem rows (λ o'. one_or_none (join_of request_id s.committed) ≡ ok o') s
        (Ends-read s.committed s.now (join_of request_id) _ (
          Ends-weaken (lift (one_or_none (join_of request_id s.committed))) _ _
            (Ends-lift (one_or_none (join_of request_id s.committed))) (λ a t k. k.1)))
        o read)
      same
  where
    by_row :
        (o : Option (ServiceRequest × Contact))
        → one_or_none (join_of request_id s.committed) ≡ ok o
        → (ok (response_if correlation_id o)) ≡ ok (some response)
        → (row : ServiceRequest × Contact) × Joined request_id s.committed row
          × (response ≡ response_of correlation_id row)
    by_row none e f = absurd (ground arith)
    by_row (some row) e f = (
      row,
      join_of-Joined request_id s.committed row (only_row (join_of request_id s.committed) row e),
      ground arith,
    )

module _ (p : Platform) (c : Db) where
  Keeps-admitted : (v : Verified Text) → Keeps (Committed c) (admitted p v)
  unfolding admitted read_assignments
  Keeps-admitted v = search (keeps_rules, Keeps-read_only, Keeps-query, Committed-IsStable) depth 20

  Keeps-read_request :
      (request_id : String) (correlation_id : ℕ)
      → Keeps (Committed c) (read_request p request_id correlation_id)
  unfolding read_request query_service_request
  Keeps-read_request request_id correlation_id =
      search (keeps_rules, Keeps-read_only, Keeps-query, Committed-IsStable) depth 20

  module _ (j : Jwt) (issuer : Text) (audience : String) (cache_seconds : ℕ) where
    Keeps-with_token :
        (o : Option Text) (st : VerifierState j)
        → Keeps (Committed c) (with_token p j issuer audience cache_seconds o st).0
    unfolding with_token
    Keeps-with_token none st = Keeps-raise _
    Keeps-with_token (some token) st =
        Keeps-admitted (verify j p.is_space issuer audience cache_seconds token st).0

    Keeps-reader :
        (request : HumanRequest) (st : VerifierState j)
        → Keeps
            (Committed c)
            (require_service_request_reader p j issuer audience cache_seconds request st).0
    unfolding require_service_request_reader authenticated_human
    Keeps-reader request st =
        Keeps-bind _ _ (Keeps-with_token (token_of p request) st) (λ h. Keeps-lift _)

    -- a correlation that, once it is known, keeps what is committed
    abbrev KeepsCorrelation : Result (Tx ℕ) → Type 0
    KeepsCorrelation (err e) = Unit {0}
    KeepsCorrelation (ok m) = Keeps (Committed c) m

    parsed_correlation-Keeps : (o : Option ℕ) → KeepsCorrelation (parsed_correlation o)
    parsed_correlation-Keeps none = tt
    parsed_correlation-Keeps (some u) = Keeps-pure u

    resolve_request_correlation-Keeps :
        (header : Option String) → KeepsCorrelation (resolve_request_correlation p none header)
    unfolding resolve_request_correlation
    resolve_request_correlation-Keeps none = Keeps-uuid4 (Committed c) (Committed-IsStable c) p
    resolve_request_correlation-Keeps (some header) = parsed_correlation-Keeps (p.uuid_parse header)

    with_correlation-Keeps :
        (r : Result (Tx ℕ))
        → KeepsCorrelation r
        → (request_id : String) (request : HumanRequest) (st : VerifierState j)
        → Keeps
            (Committed c)
            (with_correlation p j issuer audience cache_seconds r request_id request st).0
    unfolding with_correlation
    with_correlation-Keeps (err e) k request_id request st = Keeps-raise e
    with_correlation-Keeps (ok m) k request_id request st = Keeps-bind _ _ k λ correlation_id.
        Keeps-bind _ _ (Keeps-reader request st)
          λ reader. Keeps-read_request request_id correlation_id

    read_request-Shown :
        (request_id : String) (correlation_id : ℕ) (s : Session) (response : ServiceRequestResponse)
        → s.committed ≡ c
        → (read_request p request_id correlation_id s).0 ≡ ok response
        → Shown p request_id c response
    unfolding read_request
    read_request-Shown request_id correlation_id s response same h =
        by_id (p.uuid_parse request_id) refl h
      where
        query_ok :
            (id : ℕ) (r : Result (Option ServiceRequestResponse) × Session)
            → (continue
                (handle query_failure r).0
                (λ o. lift (found_or_missing o))
                (handle query_failure r).1).0
              ≡ ok response
            → r.0 ≡ ok (some response)
        query_ok id (ok none, t) e = absurd (ground arith)
        query_ok id (ok (some x), t) e = ground arith
        query_ok id (err x, t) e = absurd (ground arith)

        by_id :
            (o : Option ℕ)
            → p.uuid_parse request_id ≡ o
            → ((lift (parsed_id o) >>= λ id.
                  rethrow query_failure (query_service_request id correlation_id) >>= λ result.
                  lift (found_or_missing result))
                s).0
              ≡ ok response
            → Shown p request_id c response
        by_id none e x = absurd (ground arith)
        by_id (some id) e x =
            let (row, joined, shown) =
              query_service_request-Joined id correlation_id s response
                (query_ok id (query_service_request id correlation_id s) x) in
            record {
              id = id;
              parsed = e;
              correlation_id = correlation_id;
              row = row;
              joined = subst (λ d. Joined id d row) same joined;
              shown = shown;
            }

    -- Someone who may read service requests, at a moment of the clock, was shown one of them.
    pub record Answered (request_id : String) (request : HumanRequest) (st next : VerifierState j)
        (response : ServiceRequestResponse) : Type 0 where
      pub human : AuthenticatedHuman
      pub drawn : ℕ
      pub authentic :
          Authentic p j issuer audience cache_seconds request st next (p.utc_now drawn) c human
      pub shown : Shown p request_id c response

    with_correlation-Answered :
        (r : Result (Tx ℕ))
        → KeepsCorrelation r
        → (request_id : String) (request : HumanRequest) (st : VerifierState j) (s : Session)
          (response : ServiceRequestResponse)
        → Cached j st
        → s.committed ≡ c
        → ((with_correlation p j issuer audience cache_seconds r request_id request st).0 s).0
          ≡ ok response
        → Answered request_id request st
            (with_correlation p j issuer audience cache_seconds r request_id request st).1
            response
    unfolding with_correlation
    with_correlation-Answered (err e) k request_id request st s response cached same h =
        absurd (ground arith)
    with_correlation-Answered (ok m) k request_id request st s response cached same h =
        let reader =
          (require_service_request_reader p j issuer audience cache_seconds request st).0 in
        let (correlation_id, drawn, rest) =
          first_returned (m s)
            (λ correlation_id. reader >>= λ human. read_request p request_id correlation_id)
            response h in
        let t = (m s).1 in
        let (human, admitted_human, read) =
          first_returned (reader t) (λ human. read_request p request_id correlation_id) response
            rest in
        let here : t.committed ≡ c = k.at s same in
        record {
          human = human;
          drawn = t.drawn;
          authentic =
              subst
                (λ d.
                  Authentic p j issuer audience cache_seconds request st
                    (require_service_request_reader p j issuer audience cache_seconds request st).1
                    (p.utc_now t.drawn) d human)
                here
                (require_service_request_reader-Authentic p j issuer audience cache_seconds request
                  st t human cached admitted_human);
          shown =
              read_request-Shown request_id correlation_id (reader t).1 response
                ((Keeps-reader request st).at t here) read;
        }

module _ (p : Platform) (j : Jwt) (issuer : Text) (audience : String) (cache_seconds : ℕ) where
  -- A service request is shown only to a human that is authenticated by its token and entitled by
  -- the rows, and then the response shows a request of the database with the identifier of the path,
  -- beside the contact that it refers to. The cache of the verifier must hold the keys of a fetched
  -- document, or none.
  pub get_service_request-Answered :
      (correlation_header : Option String) (request_id : String) (request : HumanRequest)
      (st : VerifierState j) (s : Session) (response : ServiceRequestResponse)
      → Cached j st
      → ((get_service_request p j issuer audience cache_seconds correlation_header request_id
            request st).0
          s).0
        ≡ ok response
      → Answered p s.committed j issuer audience cache_seconds request_id request st
          (get_service_request p j issuer audience cache_seconds correlation_header request_id
            request st).1
          response
  unfolding get_service_request
  get_service_request-Answered correlation_header request_id request st s response cached h =
      with_correlation-Answered p s.committed j issuer audience cache_seconds
        (resolve_request_correlation p none correlation_header)
        (resolve_request_correlation-Keeps p s.committed j issuer audience cache_seconds
          correlation_header)
        request_id request st s response cached refl h

  -- Asking for a service request, whatever comes of it, changes nothing that is committed.
  pub get_service_request_unchanged :
      (correlation_header : Option String) (request_id : String) (request : HumanRequest)
      (st : VerifierState j) (s : Session)
      → ((get_service_request p j issuer audience cache_seconds correlation_header request_id
            request st).0
          s).1.committed
        ≡ s.committed
  unfolding get_service_request
  get_service_request_unchanged correlation_header request_id request st s =
      (with_correlation-Keeps p s.committed j issuer audience cache_seconds
          (resolve_request_correlation p none correlation_header)
          (resolve_request_correlation-Keeps p s.committed j issuer audience cache_seconds
            correlation_header)
          request_id request st).at
        s refl
