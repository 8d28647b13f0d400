-- ===== src/Api/Commands.antt =====
-- What the two command routes share: the validated body with its hash (start_ai/parsing.py,
-- attempt_start/parsing.py, command_idempotency/canonicalization.py), and the error that a refused
-- command has stored in its snapshot (api/start_ai_interpretation.py, api/attempt_start.py).
pub mod Parts
use ai_oas.Base.{
  ℕ, ◌*◌, String, Text, Bool, true, false, ◌||◌, not, Option, none, some, List, [], ◌∷◌, ltb, ◌==◌,
  is_some, str_eq, if◌then◌else◌,
}
use ai_oas.Json.{
  Json, null, bool, num, str, arr, obj, Items, nil, cons, Fields, end, field, entry, member,
}
use ai_oas.Errors.{
  ErrorDetail, IntakeError, intake_error, intake, unexpected, Result, ok, err, and_then,
}
use ai_oas.Platform.{Platform}
use ai_oas.Session.{Tx, lift, ◌>>=◌}
use ai_oas.Api.Transport.{
  validate_json_content_type, command_idempotency_key, Validation, valid, invalid, ValidationIssue,
  safe_validation_details, ContentType,
}

-- The identifier of the path, the headers and the body.
pub record CommandCall (B : Type 0) : Type 0 where
  pub path_id : String
  pub key_headers : List Text
  pub content_type : ContentType
  pub raw_body : B

abbrev pub max_command_body_bytes : ℕ
max_command_body_bytes = 16384

abbrev pub invalid_command : IntakeError
invalid_command = intake_error 400 "INVALID_COMMAND" "The command body is invalid."

abbrev pub command_failed : List ErrorDetail → IntakeError
command_failed details =
    let e : IntakeError = intake_error 422 "VALIDATION_FAILED" "The command failed validation." in
    record e { details = details }

-- the expected version of a body that the closed model accepts
unfoldable pub validated : Validation ℕ → Result ℕ
unfolding safe_validation_details
validated (valid expected) = ok expected
validated (invalid issues) = err (intake (command_failed (safe_validation_details issues)))

module _ (p : Platform) (model_validate : Json → Validation ℕ) where
  unfoldable pub loaded : Option Json → Result ℕ
  unfolding validated
  loaded none = err (intake invalid_command)
  loaded (some parsed) = validated (model_validate parsed)

  -- `parse_start_ai_command`, `parse_attempt_start_command`
  unfoldable pub parse_command : p.Bytes → Result ℕ
  unfolding loaded
  parse_command raw_body =
      if p.bytes_length raw_body == 0 || ltb max_command_body_bytes (p.bytes_length raw_body)
      then err (intake invalid_command)
      else loaded (p.json_loads raw_body)

-- `model_dump` of a command: `name` is the one expected version of its model
unfoldable pub command_dump : String → ℕ → Json
command_dump name expected = obj (
    field "schema_version" (str "1.0") (
      field "expected_versions" (obj (field name (num expected) end))
        (field "command" (obj end) end)))

unfoldable pub canonical_command_hash : Platform → String → ℕ → Text
unfolding command_dump
canonical_command_hash p name expected = p.sha256 (p.json_dumps (command_dump name expected))

-- `error["code"]`; a missing or other value is an exception
abbrev pub text_member : Option Json → Result String
text_member (some (str s)) = ok s
text_member _ = err unexpected

-- `bool(value)`
abbrev pub truthy : Option Json → Bool
truthy none = false
truthy (some null) = false
truthy (some (bool b)) = b
truthy (some (num n)) = not (n == 0)
truthy (some (str s)) = not (str_eq s "")
truthy (some (arr nil)) = false
truthy (some (arr (cons j rest))) = true
truthy (some (obj end)) = false
truthy (some (obj (field k j rest))) = true

-- `ErrorDetail(**detail)` of each
unfoldable pub details_from : Items → Result (List ErrorDetail)
unfolding entry
details_from nil = ok []
details_from (cons j rest) =
    let others = details_from rest in
    and_then (text_member (entry "field" j)) λ location.
      and_then (text_member (entry "issue_code" j)) λ code.
        and_then others λ more. ok (record { location = location; issue_code = code } ∷ more)

unfoldable pub details_of : Option Json → Result (List ErrorDetail)
unfolding details_from
details_of none = ok []
details_of (some (arr items)) = details_from items
details_of (some _) = err unexpected

unfoldable pub versions_from : Fields → Result (List (String × ℕ))
versions_from end = ok []
versions_from (field k (num n) rest) =
    let others = versions_from rest in and_then others λ more. ok ((k, n) ∷ more)
versions_from (field k _ rest) = err unexpected

unfoldable pub versions_of : Option Json → Result (List (String × ℕ))
unfolding versions_from
versions_of none = ok []
versions_of (some (obj fields)) = versions_from fields
versions_of (some _) = err unexpected

-- the IntakeError of `safe_snapshot["error"]`, with the status of the outcome
unfoldable pub stored_error : ℕ → Json → Result IntakeError
unfolding entry details_of versions_of
stored_error status error = and_then (text_member (entry "code" error)) λ code.
    and_then (text_member (entry "message" error)) λ message.
      and_then (details_of (entry "details" error)) λ details.
        and_then (versions_of (entry "current_versions" error)) λ versions. ok (record {
          status_code = status;
          code = code;
          message = message;
          retryable = truthy (entry "retryable" error);
          details = details;
          delivery_id = none;
          current_versions = versions;
        })

abbrev pub raised : {A : Type 0} → Result IntakeError → Result A
raised (ok e) = err (intake e)
raised (err e) = err e

-- `uuid.UUID` of the identifier of the path
abbrev pub parsed_path : IntakeError → Option ℕ → Result ℕ
parsed_path missing none = err (intake missing)
parsed_path missing (some id) = ok id

-- The order of the two routes: the key, the content type, the body, the path, and then the command
-- for the identifier, the expected version and the key.
unfoldable pub command_route :
    {A : Type 0} (p : Platform)
    → (Json → Validation ℕ)
    → IntakeError
    → (ℕ → ℕ → Text → Tx A)
    → CommandCall p.Bytes
    → Tx A
unfolding command_idempotency_key validate_json_content_type parse_command
command_route p model_validate missing run call = do
  raw_key ← lift (command_idempotency_key p call.key_headers)
  content_type ← lift (validate_json_content_type p call.content_type)
  expected ← lift (parse_command p model_validate call.raw_body)
  id ← lift (parsed_path missing (p.uuid_parse call.path_id))
  run id expected raw_key
