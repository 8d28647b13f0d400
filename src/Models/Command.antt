-- ===== src/Models/Command.antt =====
-- db/models/command_idempotency.py and command_idempotency/models.py
use ai_oas.Base.{
  ℕ, String, Text, Bool, true, false, Option, none, some, [], ◌∷◌, ◌&&◌, ◌||◌, not, ltb, leb, ◌==◌,
  str_eq, text_eq, is_none, is_some, all_of, length, codes,
}
use ai_oas.Json.{Json, obj}
use ai_oas.Models.Execution.{hash_valid}

abbrev letter : ℕ → Bool
letter c = leb b'A' c && leb c b'Z' || leb b'a' c && leb c b'z'

abbrev identifier_char : ℕ → Bool
identifier_char c =
    letter c || leb b'0' c && leb c b'9' || c == b'.' || c == b'_' || c == b':' || c == b'-'

-- `^[A-Za-z][A-Za-z0-9._:-]{0,99}$`
unfoldable pub safe_identifier : Text → Bool
safe_identifier [] = false
safe_identifier (c ∷ t) = letter c && all_of identifier_char t && leb (length t) 99

-- `\s` of Python's `re` on a `str`
abbrev pub is_space : ℕ → Bool
is_space c =
    leb 9 c && leb c 13
    || leb 28 c && leb c 32
    || c == 133
    || c == 160
    || c == 5760
    || leb 8192 c && leb c 8202
    || c == 8232
    || c == 8233
    || c == 8239
    || c == 8287
    || c == 12288

abbrev route_char : ℕ → Bool
route_char c = not (is_space c || leb c 31 || c == 127 || c == b'?' || c == b'#')

-- `^/[^\s\x00-\x1f\x7f?#]*$`
unfoldable pub route_valid : Text → Bool
route_valid [] = false
route_valid (c ∷ t) = c == b'/' && all_of route_char t

pub record CommandIdempotencyScope : Type 0 where
  pub actor_class : String
  pub actor_id : ℕ
  pub command_intent : String
  pub route_template : String
  pub target_type : String
  pub target_id : ℕ

unfoldable pub actor_class_valid : String → Bool
actor_class_valid s =
    str_eq s "HumanActor" || str_eq s "MachineService" || str_eq s "BackendService"

-- The validators of the scope.
unfoldable pub CommandIdempotencyScope_valid : CommandIdempotencyScope → Bool
unfolding actor_class_valid safe_identifier route_valid
CommandIdempotencyScope_valid s =
    actor_class_valid s.actor_class
    && safe_identifier (codes s.command_intent)
    && safe_identifier (codes s.target_type)
    && route_valid (codes s.route_template)
    && leb (length (codes s.route_template)) 300

pub data CommandStatus : Type 0 where
  processing completed : CommandStatus

pub record CommandIdempotencyRecord : Type 0 where
  pub id : ℕ
  pub actor_class : String
  pub actor_id : ℕ
  pub command_intent : String
  pub route_template : String
  pub target_type : String
  pub target_id : ℕ
  pub idempotency_key_digest : Text
  pub canonical_body_hash : Text
  pub status : CommandStatus
  pub command_id : ℕ
  pub correlation_id : ℕ
  pub logical_http_status : Option ℕ
  pub safe_response_snapshot : Option Json
  pub completed_at : Option ℕ
  pub callback_credential_id : Option ℕ
  pub callback_credential_version : Option ℕ
  pub callback_credential_expires_at : Option ℕ
  pub secret_delivery_receipt : Option String
  pub callback_authorization_credential_id : Option ℕ
  pub callback_authorization_credential_version : Option ℕ
  pub created_at : ℕ

abbrev is_object : Option Json → Bool
is_object (some (obj f)) = true
is_object _ = false

abbrev status_in_range : Option ℕ → Bool
status_in_range none = false
status_in_range (some n) = leb 200 n && leb n 599

abbrev not_before : Option ℕ → ℕ → Bool
not_before none t = false
not_before (some u) t = leb t u

abbrev positive : Option ℕ → Bool
positive none = false
positive (some n) = ltb 0 n

-- ck_command_idem_status_fields_consistent
unfoldable pub command_status_fields : CommandStatus → CommandIdempotencyRecord → Bool
command_status_fields processing r =
    is_none r.logical_http_status
    && is_none r.safe_response_snapshot
    && is_none r.completed_at
    && is_none r.callback_credential_id
    && is_none r.callback_credential_version
    && is_none r.callback_credential_expires_at
    && is_none r.secret_delivery_receipt
    && is_none r.callback_authorization_credential_id
    && is_none r.callback_authorization_credential_version
command_status_fields completed r =
    status_in_range r.logical_http_status
    && is_object r.safe_response_snapshot
    && not_before r.completed_at r.created_at

abbrev pub plaintext_issued : String
plaintext_issued = "PlaintextIssued"

-- `secret_delivery_receipt == "PlaintextIssued"`
abbrev pub is_plaintext_issued : Option String → Bool
is_plaintext_issued none = false
is_plaintext_issued (some s) = str_eq s plaintext_issued

-- ck_command_idem_secret_delivery_consistent
unfoldable pub secret_delivery_consistent : CommandIdempotencyRecord → Bool
secret_delivery_consistent r =
    is_none r.callback_credential_id
      && is_none r.callback_credential_version
      && is_none r.callback_credential_expires_at
      && is_none r.secret_delivery_receipt
    || is_some r.callback_credential_id
      && positive r.callback_credential_version
      && is_some r.callback_credential_expires_at
      && is_plaintext_issued r.secret_delivery_receipt

-- ck_command_idem_callback_authorization_consistent
unfoldable pub callback_authorization_consistent : CommandIdempotencyRecord → Bool
callback_authorization_consistent r =
    is_none r.callback_authorization_credential_id
      && is_none r.callback_authorization_credential_version
    || is_some r.callback_authorization_credential_id
      && positive r.callback_authorization_credential_version

unfoldable pub CommandIdempotencyRecord_checks : CommandIdempotencyRecord → Bool
unfolding actor_class_valid safe_identifier route_valid hash_valid
CommandIdempotencyRecord_checks r =
    actor_class_valid r.actor_class
    && safe_identifier (codes r.command_intent)
    && safe_identifier (codes r.target_type)
    && route_valid (codes r.route_template)
    && hash_valid r.idempotency_key_digest
    && hash_valid r.canonical_body_hash
    && command_status_fields r.status r
    && secret_delivery_consistent r
    && callback_authorization_consistent r

-- uq_command_idempotency_scope_key
unfoldable pub same_scope_key : CommandIdempotencyRecord → CommandIdempotencyRecord → Bool
same_scope_key a b =
    str_eq a.actor_class b.actor_class
    && a.actor_id == b.actor_id
    && str_eq a.command_intent b.command_intent
    && str_eq a.route_template b.route_template
    && str_eq a.target_type b.target_type
    && a.target_id == b.target_id
    && text_eq a.idempotency_key_digest b.idempotency_key_digest
