-- ===== src/Api/Intake.antt =====
-- api/intake.py: `create_service_request_intake`. The parameters are `json.loads` (with the decoding of
-- the body), pydantic's `IntakeRequest.model_validate`, and `str` of a JSON value.
pub mod Once
pub mod Answering
pub mod Answered
use ai_oas.Base.{ℕ, ◌+◌, String, Text, Bool, Option, none, some, List, [], ◌∷◌, prefix}
use ai_oas.Json.{Json, str, arr, obj, Items, nil, cons, end, field, entry}
use ai_oas.Errors.{ErrorDetail, Exc, IntakeError, intake_error, intake, Result, ok, err, as_intake}
use ai_oas.Platform.{Platform}
use ai_oas.Session.{Session, Tx, pure, lift, uuid4, ◌>>=◌}
use ai_oas.Intake.Payload.{IntakeRequest}
use ai_oas.Intake.New.{IntakeServiceResult}
use ai_oas.Intake.Service.{process_valid}
use ai_oas.Intake.Rejecting.{process_rejected}
use ai_oas.Api.Transport.{
  ErrorBody, response, ValidationIssue, safe_validation_details, Validation, valid, invalid,
  ContentType, validate_json_content_type, idempotency_key,
}
use ai_oas.ServiceRequests.{resolve_request_correlation}

-- The headers that are read, and the body.
pub record IntakeCall (B : Type 0) : Type 0 where
  pub key_header : Option Text
  pub correlation_header : Option String
  pub content_type : ContentType
  pub raw_body : B

-- A JSONResponse: its status, the correlation header, and its content.
pub data Content : Type 0 where
  accepted : IntakeServiceResult → Content
  failed : ErrorBody → Content

pub record Answer : Type 0 where
  pub status_code : ℕ
  pub correlation_header : ℕ
  pub content : Content

-- `_error_response`
abbrev pub error_response : IntakeError → ℕ → Answer
error_response e correlation_id = record {
  status_code = e.status_code;
  correlation_header = correlation_id;
  content = failed (response e correlation_id);
}

abbrev pub accepted_response : ℕ → IntakeServiceResult → Answer
accepted_response correlation_id outcome = record {
  status_code = outcome.status_code;
  correlation_header = correlation_id;
  content = accepted outcome;
}

-- the `except` clauses of the handler
abbrev pub caught : ℕ → Result Answer × Session → Answer × Session
caught correlation_id (ok a, s) = (a, s)
caught correlation_id (err e, s) = (error_response (as_intake e) correlation_id, s)

abbrev detail_items : List ErrorDetail → Items
detail_items [] = nil
detail_items (d ∷ rest) =
    cons (obj (field "field" (str d.location) (field "issue_code" (str d.issue_code) end)))
      (detail_items rest)

-- `issues or None`
abbrev pub issues_json : List ErrorDetail → Option Json
issues_json [] = none
issues_json (d ∷ rest) = some (arr (detail_items (d ∷ rest)))

abbrev pub malformed_json : ℕ → IntakeError
malformed_json delivery_id =
    let e : IntakeError = intake_error 400 "MALFORMED_JSON" "The request body is not valid JSON." in
    record e { delivery_id = some delivery_id }

abbrev pub validation_failed : List ErrorDetail → ℕ → IntakeError
validation_failed details delivery_id =
    let e : IntakeError =
      intake_error 422 "INTAKE_VALIDATION_FAILED" "The intake request failed validation." in
    record e { details = details; delivery_id = some delivery_id }

module _ (p : Platform) (model_validate : Json → Validation IntakeRequest)
    (py_str : Json → String) where
  abbrev version_of : Option Json → String
  version_of none = "unknown"
  version_of (some j) = py_str j

  -- `str(schema_version)[:32]`
  unfoldable pub schema_version_of : Json → String
  unfolding prefix entry
  schema_version_of parsed = prefix 32 (version_of (entry "schema_version" parsed))

  -- a body that is not JSON
  unfoldable pub answer_malformed : Text → ℕ → p.Bytes → Tx Answer
  unfolding process_rejected
  answer_malformed key_digest correlation_id raw_body = do
    delivery_id ←
        process_rejected p key_digest correlation_id "unknown" "MALFORMED_JSON" none
          (some (p.sha256 raw_body))
    pure (error_response (malformed_json delivery_id) correlation_id)

  -- JSON that the model refuses
  unfoldable pub answer_invalid : Text → ℕ → Json → List ErrorDetail → Tx Answer
  unfolding process_rejected schema_version_of
  answer_invalid key_digest correlation_id parsed details = do
    delivery_id ←
        process_rejected p key_digest correlation_id (schema_version_of parsed)
          "INTAKE_VALIDATION_FAILED" (issues_json details) none
    pure (error_response (validation_failed details delivery_id) correlation_id)

  unfoldable pub answer_validated : Text → ℕ → Json → Validation IntakeRequest → Tx Answer
  unfolding process_valid answer_invalid safe_validation_details
  answer_validated key_digest correlation_id parsed (valid payload) = do
    outcome ← process_valid p payload key_digest correlation_id
    pure (accepted_response correlation_id outcome)
  answer_validated key_digest correlation_id parsed (invalid issues) =
      answer_invalid key_digest correlation_id parsed (safe_validation_details issues)

  unfoldable pub answer_body : Text → ℕ → p.Bytes → Option Json → Tx Answer
  unfolding answer_malformed answer_validated
  answer_body key_digest correlation_id raw_body none =
      answer_malformed key_digest correlation_id raw_body
  answer_body key_digest correlation_id raw_body (some parsed) =
      answer_validated key_digest correlation_id parsed (model_validate parsed)

  -- The body after the correlation: an `except IntakeError` inside answers like the last ones.
  unfoldable pub answer_keyed : IntakeCall p.Bytes → Text → ℕ → Tx Answer
  unfolding validate_json_content_type answer_body
  answer_keyed call key correlation_id = do
    content_type ← lift (validate_json_content_type p call.content_type)
    answer_body (p.sha256 (p.encode_ascii key)) correlation_id call.raw_body
        (p.json_loads call.raw_body)

  unfoldable pub after_draw : IntakeCall p.Bytes → Text → ℕ → Result ℕ × Session → Answer × Session
  unfolding answer_keyed
  after_draw call key first (ok c, t) = caught c (answer_keyed call key c t)
  after_draw call key first (err e, t) = (error_response (as_intake e) first, t)

  -- `_correlation_id` raised, or gave a value or drew one
  unfoldable pub with_correlation :
      IntakeCall p.Bytes → Text → ℕ → Result (Tx ℕ) → Session → Answer × Session
  unfolding after_draw
  with_correlation call key first (err e) s = (error_response (as_intake e) first, s)
  with_correlation call key first (ok correlation) s = after_draw call key first (correlation s)

  unfoldable pub with_key : IntakeCall p.Bytes → ℕ → Result Text → Session → Answer × Session
  unfolding with_correlation resolve_request_correlation
  with_key call first (err e) s = (error_response (as_intake e) first, s)
  with_key call first (ok key) s =
      with_correlation call key first (resolve_request_correlation p none call.correlation_header) s

  -- The handler: an answer, whatever happens. Before the headers are read the answer has a
  -- correlation of its own.
  unfoldable pub create_service_request_intake : IntakeCall p.Bytes → Session → Answer × Session
  unfolding uuid4 with_key idempotency_key
  create_service_request_intake call s =
      with_key call (p.uuid4 s.drawn) (idempotency_key p call.key_header)
        (record s { drawn = s.drawn + 1 })
