-- ===== src/Api/Transport.antt =====
-- What the routes read of a request: the key, the content type and the validated body (api/intake.py,
-- start_ai/parsing.py and attempt_start/parsing.py), and how an error is answered
-- (intake/errors.py, app.py).
use ai_oas.Base.{
  ℕ, String, Text, Bool, false, ◌&&◌, ◌||◌, not, Option, none, some, List, [], ◌∷◌, leb, ltb,
  length, all_of, any_of, select, map, text_eq, str_eq, strip, codes, join_strings, if◌then◌else◌,
}
use ai_oas.Errors.{ErrorDetail, IntakeError, intake_error, intake, Result, ok, err}
use ai_oas.Platform.{Platform}
use ai_oas.Idempotency.Keys.{visible_ascii, missing_key}

-- The error envelope, without its outer object.
pub record ErrorBody : Type 0 where
  pub schema_version : String
  pub code : String
  pub message : String
  pub correlation_id : ℕ
  pub delivery_id : Option ℕ
  pub retryable : Bool
  pub current_versions : List (String × ℕ)
  pub details : List ErrorDetail

-- `IntakeError.response`
abbrev pub response : IntakeError → ℕ → ErrorBody
response e correlation_id = record {
  schema_version = "1.0";
  code = e.code;
  message = e.message;
  correlation_id = correlation_id;
  delivery_id = e.delivery_id;
  retryable = e.retryable;
  current_versions = e.current_versions;
  details = e.details;
}

-- An error of pydantic: its type, and its location as text.
pub record ValidationIssue : Type 0 where
  pub issue_type : String
  pub loc : List String

abbrev or_body : String → String
or_body location = if str_eq location "" then "body" else location

abbrev pub issue_code : String → String
issue_code issue_type =
    if str_eq issue_type "missing"
    then "REQUIRED_FIELD_MISSING"
    else if str_eq issue_type "extra_forbidden"
    then "UNKNOWN_FIELD"
    else "INVALID_FIELD"

abbrev detail_of : ValidationIssue → ErrorDetail
unfolding join_strings
detail_of i = record {
  location = or_body (join_strings "." i.loc);
  issue_code = issue_code i.issue_type;
}

unfoldable pub safe_validation_details : List ValidationIssue → List ErrorDetail
unfolding detail_of
safe_validation_details issues = map detail_of issues

-- `model_validate`: the model, or the errors of a ValidationError
pub data Validation (A : Type 0) : Type 0 where
  valid : A → Validation A
  invalid : List ValidationIssue → Validation A

-- `email.message.Message`: `get_content_type()`, and `get_params()` after the first
pub record ContentType : Type 0 where
  pub media_type : Text
  pub parameters : List (Text × Text)

abbrev pub unsupported : String → IntakeError
unsupported message = intake_error 415 "UNSUPPORTED_MEDIA_TYPE" message

module _ (p : Platform) where
  abbrev pub is_charset : Text × Text → Bool
  is_charset (name, value) = text_eq (p.str_lower name) (codes "charset")

  abbrev pub not_utf8 : List (Text × Text) → Bool
  not_utf8 [] = false
  not_utf8 ((name, value) ∷ rest) = not (text_eq (p.str_lower value) (codes "utf-8"))

  unfoldable pub validate_json_content_type : ContentType → Result (Unit {0})
  validate_json_content_type c =
      if not (text_eq (p.str_lower c.media_type) (codes "application/json"))
      then err (intake (unsupported "Content-Type must be application/json."))
      else if any_of (λ q. not (is_charset q)) c.parameters
      then err (intake (unsupported "Only UTF-8 JSON is supported."))
      else if ltb 1 (length (select is_charset c.parameters))
          || not_utf8 (select is_charset c.parameters)
      then err (intake (unsupported "Only UTF-8 JSON is supported."))
      else ok tt

  -- `not 8 <= len(value) <= 128`, `value != value.strip()`, then the characters
  unfoldable pub usable_key : Text → Bool
  unfolding strip
  usable_key value =
      leb 8 (length value)
      && (leb (length value) 128
          && (text_eq value (strip p.is_space value) && all_of visible_ascii value))

  unfoldable pub idempotency_key : Option Text → Result Text
  unfolding usable_key
  idempotency_key none = err (intake missing_key)
  idempotency_key (some value) = if usable_key value then ok value else err (intake missing_key)

  -- `command_idempotency_key`: the header must be given once
  unfoldable pub command_idempotency_key : List Text → Result Text
  unfolding idempotency_key
  command_idempotency_key (value ∷ []) = idempotency_key (some value)
  command_idempotency_key _ = err (intake missing_key)
