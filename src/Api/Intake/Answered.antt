-- ===== src/Api/Intake/Answered.antt =====
-- The route always answers, soundly.
use ai_oas.Base.{ℕ, ◌+◌, refl, String, Text, Option, none, some, arith}
use ai_oas.Json.{Json}
use ai_oas.Errors.{Exc, Result, ok, err, intake, as_intake}
use ai_oas.Platform.{Platform}
use ai_oas.Session.{Session, continue, uuid4}
use ai_oas.Session.Raising.{Fails, Fails-err, fails_rules}
use ai_oas.Intake.Payload.{IntakeRequest}
use ai_oas.Idempotency.Keys.{missing_key}
use ai_oas.ServiceRequests.{resolve_request_correlation, parsed_correlation, invalid_identifier}
use ai_oas.Api.Transport.{
  Validation, ContentType, unsupported, validate_json_content_type, idempotency_key,
}
use ai_oas.Api.Intake.{
  IntakeCall, caught, answer_body, answer_keyed, after_draw, with_correlation, with_key,
  error_response, create_service_request_intake,
}
use ai_oas.Api.Intake.Answering.{Sound, error_response-Sound, body-Sound}

-- what is refused before anything is written
data Transport : Exc → Type 0 where
  bad_key : Transport (intake missing_key)
  bad_type : (message : String) → Transport (intake (unsupported message))
  bad_correlation : Transport (intake invalid_identifier)

refusal-Sound :
    (c : ℕ) (e : Exc) (t : Session) → Transport e → Sound (error_response (as_intake e) c, t)
refusal-Sound c e t bad_key =
    error_response-Sound c (intake missing_key) t
      (record { status = refl; delivered = λ id h. absurd (ground arith) })
refusal-Sound c e t (bad_type message) =
    error_response-Sound c (intake (unsupported message)) t
      (record { status = refl; delivered = λ id h. absurd (ground arith) })
refusal-Sound c e t bad_correlation =
    error_response-Sound c (intake invalid_identifier) t
      (record { status = refl; delivered = λ id h. absurd (ground arith) })

unsupported-Transport :
    (message : String) → Fails {A = Unit {0}} Transport (err (intake (unsupported message)))
unsupported-Transport message = Fails-err _ (bad_type message)

module _ (p : Platform) (model_validate : Json → Validation IntakeRequest)
    (py_str : Json → String) where
  content_type-Transport : (t : ContentType) → Fails Transport (validate_json_content_type p t)
  unfolding validate_json_content_type
  content_type-Transport t = search (fails_rules, unsupported-Transport) depth 10

  key-Transport : (o : Option Text) → Fails Transport (idempotency_key p o)
  unfolding idempotency_key
  key-Transport none = Fails-err (intake missing_key) bad_key
  key-Transport (some value) = search (fails_rules, Fails-err, bad_key) depth 10

  keyed-Sound :
      (call : IntakeCall p.Bytes) (key : Text) (c : ℕ) (s : Session)
      → Sound (caught c (answer_keyed p model_validate py_str call key c s))
  unfolding answer_keyed
  keyed-Sound call key c s =
      by_type (validate_json_content_type p call.content_type)
        (content_type-Transport call.content_type)
    where
      by_type :
          (v : Result (Unit {0}))
          → Fails Transport v
          → Sound (
              caught c (
                continue v
                  (λ _.
                    answer_body p model_validate py_str
                      (p.sha256 (p.encode_ascii key))
                      c
                      call.raw_body
                      (p.json_loads call.raw_body))
                  s))
      by_type (ok u) f =
          body-Sound p c py_str model_validate (p.sha256 (p.encode_ascii key)) call.raw_body
            (p.json_loads call.raw_body) s
      by_type (err e) f = refusal-Sound c e s (f.at e refl)

  parsed-Sound :
      (call : IntakeCall p.Bytes) (key : Text) (first : ℕ) (s : Session) (o : Option ℕ)
      → Sound (with_correlation p model_validate py_str call key first (parsed_correlation o) s)
  unfolding with_correlation after_draw
  parsed-Sound call key first s none =
      refusal-Sound first (intake invalid_identifier) s bad_correlation
  parsed-Sound call key first s (some c) = keyed-Sound call key c s

  correlated-Sound :
      (call : IntakeCall p.Bytes) (key : Text) (first : ℕ) (s : Session) (header : Option String)
      → Sound (
          with_correlation p model_validate py_str call key first
            (resolve_request_correlation p none header)
            s)
  unfolding with_correlation after_draw resolve_request_correlation uuid4
  correlated-Sound call key first s none =
      keyed-Sound call key (p.uuid4 s.drawn) (record s { drawn = s.drawn + 1 })
  correlated-Sound call key first s (some header) =
      parsed-Sound call key first s (p.uuid_parse header)

  -- Every call of the intake route is answered, whatever the headers, the body, the database and
  -- other sessions do: the status is one of those that the route documents, an error has the
  -- correlation of the header of the answer, and a delivery that an error names is committed, as a
  -- rejected delivery with an error code and this correlation.
  pub create-Sound :
      (call : IntakeCall p.Bytes) (s : Session)
      → Sound (create_service_request_intake p model_validate py_str call s)
  unfolding create_service_request_intake with_key
  create-Sound call s = by_key (idempotency_key p call.key_header) (key-Transport call.key_header)
    where
      drawn : Session
      drawn = record s { drawn = s.drawn + 1 }

      by_key :
          (k : Result Text)
          → Fails Transport k
          → Sound (with_key p model_validate py_str call (p.uuid4 s.drawn) k drawn)
      by_key (ok key) f = correlated-Sound call key (p.uuid4 s.drawn) drawn call.correlation_header
      by_key (err e) f = refusal-Sound (p.uuid4 s.drawn) e drawn (f.at e refl)
