-- ===== src/Api/Intake/Once.antt =====
-- The same key sent twice to the route: one service request.
use ai_oas.Base.{ℕ, ◌+◌, ◌≡◌, refl, sym, ap, subst, ◌∙◌, String, Text, Option, none, some, arith}
use ai_oas.Json.{Json}
use ai_oas.Errors.{IntakeError, Result, ok, err}
use ai_oas.Platform.{Platform}
use ai_oas.Tables.{Db}
use ai_oas.Session.{Session, continue, pure, uuid4}
use ai_oas.Intake.Payload.{IntakeRequest, canonical_payload_hash}
use ai_oas.Intake.New.{IntakeServiceResult}
use ai_oas.Intake.Service.{process_valid}
use ai_oas.Intake.Rejecting.{process_rejected}
use ai_oas.Intake.Again.{process_valid-same_request}
use ai_oas.ServiceRequests.{resolve_request_correlation, parsed_correlation}
use ai_oas.Api.Transport.{Validation, valid, invalid, validate_json_content_type, idempotency_key}
use ai_oas.Api.Intake.{
  IntakeCall, accepted, Answer, error_response, accepted_response, caught, answer_malformed,
  answer_invalid, answer_validated, answer_body, answer_keyed, after_draw, with_correlation,
  with_key, create_service_request_intake,
}

module _ (p : Platform) (model_validate : Json → Validation IntakeRequest)
    (py_str : Json → String) where
  -- An accepted answer is that of `process_valid` for the payload of the body.
  pub record Processed (call : IntakeCall p.Bytes) (key : Text) (s : Session) (a : Answer × Session)
      (r : IntakeServiceResult) : Type 0 where
    pub parsed : Json
    pub loaded : p.json_loads call.raw_body ≡ some parsed
    pub payload : IntakeRequest
    pub validated : model_validate parsed ≡ valid payload
    pub correlation_id : ℕ
    pub at : Session
    pub committed : at.committed ≡ s.committed
    pub peer : at.peer ≡ s.peer
    pub returned :
        (process_valid p payload (p.sha256 (p.encode_ascii key)) correlation_id at).0 ≡ ok r
    pub left : a.1 ≡ (process_valid p payload (p.sha256 (p.encode_ascii key)) correlation_id at).1

  refused_answer :
      (c : ℕ) (f : ℕ → IntakeError) (m : Result ℕ × Session) (r : IntakeServiceResult)
      → (caught c (continue m.0 (λ id. pure (error_response (f id) c)) m.1)).0.content ≡ accepted r
      → ⊥
  refused_answer c f (ok id, t) r h = ground arith
  refused_answer c f (err e, t) r h = ground arith

  accepted_answer :
      (c : ℕ) (m : Result IntakeServiceResult × Session) (r : IntakeServiceResult)
      → (caught c (continue m.0 (λ x. pure (accepted_response c x)) m.1)).0.content ≡ accepted r
      → (m.0 ≡ ok r) × ((caught c (continue m.0 (λ x. pure (accepted_response c x)) m.1)).1 ≡ m.1)
  accepted_answer c (ok x, t) r h = (ground arith, refl)
  accepted_answer c (err e, t) r h = absurd (ground arith)

  module _ (call : IntakeCall p.Bytes) (key : Text) (s : Session) (r : IntakeServiceResult) (c : ℕ)
      (t : Session) (committed : t.committed ≡ s.committed) (peer : t.peer ≡ s.peer) where
    validated-Processed :
        (parsed : Json)
        → p.json_loads call.raw_body ≡ some parsed
        → (v : Validation IntakeRequest) → model_validate parsed ≡ v
        → (caught c (
            answer_validated p model_validate py_str
              (p.sha256 (p.encode_ascii key))
              c
              parsed
              v
              t)).0.content
          ≡ accepted r
        → Processed call key s
            (caught c (
              answer_validated p model_validate py_str
                (p.sha256 (p.encode_ascii key))
                c
                parsed
                v
                t))
            r
    unfolding answer_validated answer_invalid
    validated-Processed parsed loaded (valid payload) validated h =
        let (returned, left) =
          accepted_answer c (process_valid p payload (p.sha256 (p.encode_ascii key)) c t) r h in
        record {
          parsed = parsed;
          loaded = loaded;
          payload = payload;
          validated = validated;
          correlation_id = c;
          at = t;
          committed = committed;
          peer = peer;
          returned = returned;
          left = left;
        }
    validated-Processed parsed loaded (invalid issues) validated h =
        absurd
          (refused_answer c _ (process_rejected p (p.sha256 (p.encode_ascii key)) c _ _ _ _ t) r h)

    keyed-Processed :
        (caught c (answer_keyed p model_validate py_str call key c t)).0.content ≡ accepted r
        → Processed call key s (caught c (answer_keyed p model_validate py_str call key c t)) r
    unfolding answer_keyed answer_body answer_malformed
    keyed-Processed h = by_type (validate_json_content_type p call.content_type) h
      where
        by_body :
            (o : Option Json)
            → p.json_loads call.raw_body ≡ o
            → (caught c (
                answer_body p model_validate py_str
                  (p.sha256 (p.encode_ascii key))
                  c
                  call.raw_body
                  o
                  t)).0.content
              ≡ accepted r
            → Processed call key s
                (caught c (
                  answer_body p model_validate py_str
                    (p.sha256 (p.encode_ascii key))
                    c
                    call.raw_body
                    o
                    t))
                r
        by_body none e x = absurd (
            refused_answer c _ (process_rejected p (p.sha256 (p.encode_ascii key)) c _ _ _ _ t) r x)
        by_body (some parsed) e x = validated-Processed parsed e (model_validate parsed) refl x

        by_type :
            (v : Result (Unit {0}))
            → (caught c (
                continue v
                  (λ _.
                    answer_body p model_validate py_str
                      (p.sha256 (p.encode_ascii key))
                      c
                      call.raw_body
                      (p.json_loads call.raw_body))
                  t)).0.content
              ≡ accepted r
            → Processed call key s
                (caught c (
                  continue v
                    (λ _.
                      answer_body p model_validate py_str
                        (p.sha256 (p.encode_ascii key))
                        c
                        call.raw_body
                        (p.json_loads call.raw_body))
                    t))
                r
        by_type (ok u) x = by_body (p.json_loads call.raw_body) refl x
        by_type (err e) x = absurd (ground arith)

  module _ (call : IntakeCall p.Bytes) (key : Text) (first : ℕ) (s t : Session)
      (r : IntakeServiceResult) (committed : t.committed ≡ s.committed)
      (peer : t.peer ≡ s.peer) where
    parsed-Processed :
        (o : Option ℕ)
        → (with_correlation p model_validate py_str call key first
            (parsed_correlation o)
            t).0.content
          ≡ accepted r
        → Processed call key s
            (with_correlation p model_validate py_str call key first (parsed_correlation o) t)
            r
    unfolding with_correlation after_draw
    parsed-Processed none h = absurd (ground arith)
    parsed-Processed (some c) h = keyed-Processed call key s r c t committed peer h

    correlated-Processed :
        (header : Option String)
        → (with_correlation p model_validate py_str call key first
            (resolve_request_correlation p none header)
            t).0.content
          ≡ accepted r
        → Processed call key s
            (with_correlation p model_validate py_str call key first
              (resolve_request_correlation p none header)
              t)
            r
    unfolding with_correlation after_draw resolve_request_correlation uuid4
    correlated-Processed none h =
        keyed-Processed call key s r (p.uuid4 t.drawn) (record t { drawn = t.drawn + 1 }) committed
          peer h
    correlated-Processed (some header) h = parsed-Processed (p.uuid_parse header) h

  -- An accepted call has a usable key, and its answer is that of `process_valid`.
  pub record AcceptedCall (call : IntakeCall p.Bytes) (s : Session) (a : Answer × Session)
      (r : IntakeServiceResult) : Type 0 where
    pub key : Text
    pub usable : idempotency_key p call.key_header ≡ ok key
    pub processed : Processed call key s a r

  pub create-AcceptedCall :
      (call : IntakeCall p.Bytes) (s : Session) (r : IntakeServiceResult)
      → (create_service_request_intake p model_validate py_str call s).0.content ≡ accepted r
      → AcceptedCall call s (create_service_request_intake p model_validate py_str call s) r
  unfolding create_service_request_intake with_key
  create-AcceptedCall call s r h = by_key (idempotency_key p call.key_header) refl h
    where
      drawn : Session
      drawn = record s { drawn = s.drawn + 1 }

      by_key :
          (k : Result Text)
          → idempotency_key p call.key_header ≡ k
          → (with_key p model_validate py_str call (p.uuid4 s.drawn) k drawn).0.content ≡ accepted r
          → AcceptedCall call s (with_key p model_validate py_str call (p.uuid4 s.drawn) k drawn) r
      by_key (ok key) e x = record {
        key = key;
        usable = e;
        processed =
            correlated-Processed call key (p.uuid4 s.drawn) s drawn r refl refl
              call.correlation_header x;
      }
      by_key (err e') e x = absurd (ground arith)

  -- The body of the call is JSON that the model accepts as this payload.
  abbrev pub PayloadOf : IntakeCall p.Bytes → IntakeRequest → Type 0
  PayloadOf call payload =
      (parsed : Json) × (p.json_loads call.raw_body ≡ some parsed)
      × (model_validate parsed ≡ valid payload)

  -- If a call with a key made a new request (201), and the accepted keys are still those of then when
  -- a second call has the same key header, and other sessions leave them, an accepted answer to
  -- the second call names the same request with the status 200, and both bodies have a payload of
  -- one hash. The identifier that the platform prints for a UUID must be read as that UUID.
  pub create-same_request :
      ((u : ℕ) → p.uuid_parse (p.uuid_str u) ≡ some u)
      → (call other : IntakeCall p.Bytes) (s t : Session) (r q : IntakeServiceResult)
      → (create_service_request_intake p model_validate py_str call s).0.content ≡ accepted r
      → r.status_code ≡ 201
      → other.key_header ≡ call.key_header
      → t.committed.accepted_intake_keys
        ≡ (create_service_request_intake p model_validate py_str call
            s).1.committed.accepted_intake_keys
      → ((x : Db) → (t.peer x).accepted_intake_keys ≡ x.accepted_intake_keys)
      → (create_service_request_intake p model_validate py_str other t).0.content ≡ accepted q
      → (q.service_request_id ≡ r.service_request_id)
        × (q.status_code ≡ 200)
        × ((payload again : IntakeRequest) × PayloadOf call payload
            × PayloadOf other again
            × (canonical_payload_hash p payload ≡ canonical_payload_hash p again))
  create-same_request law call other s t r q first status same_key keys kept second =
      let a = create-AcceptedCall call s r first in
      let b = create-AcceptedCall other t q second in
      let x = a.processed in
      let y = b.processed in
      let one : b.key ≡ a.key =
        key_eq (sym b.usable ∙ ap (idempotency_key p) same_key ∙ a.usable) in
      let (request, replayed, hashes) =
        process_valid-same_request p law x.payload y.payload (p.sha256 (p.encode_ascii a.key))
          x.correlation_id y.correlation_id x.at y.at r q x.returned status
          (ap (λ d. d.accepted_intake_keys) y.committed
            ∙ keys
            ∙ ap (λ (u : Session). u.committed.accepted_intake_keys) x.left)
          (subst (λ (f : Db → Db). (d : Db) → (f d).accepted_intake_keys ≡ d.accepted_intake_keys)
            (sym y.peer) kept)
          (subst
            (λ k.
              (process_valid p y.payload (p.sha256 (p.encode_ascii k)) y.correlation_id y.at).0
              ≡ ok q)
            one y.returned) in
      (
        request,
        replayed,
        (
          x.payload,
          y.payload,
          (x.parsed, x.loaded, x.validated),
          (y.parsed, y.loaded, y.validated),
          hashes,
        ),
      )
    where
      key_eq : {a b : Text} → ok a ≡ ok b → a ≡ b
      key_eq e = ground arith
