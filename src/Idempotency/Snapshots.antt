-- ===== src/Idempotency/Snapshots.antt =====
-- command_idempotency/snapshots.py
use ai_oas.Base.{
  ℕ, String, Bool, false, Option, some, List, [], ◌∷◌, ◌||◌, leb, str_eq, any_of, if◌then◌else◌,
}
use ai_oas.Errors.{value, Result, ok, err}
use ai_oas.Json.{Json, null, bool, num, str, arr, obj, Items, nil, cons, Fields, end, field}
use ai_oas.Platform.{Platform}

abbrev pub max_safe_snapshot_bytes : ℕ
max_safe_snapshot_bytes = 16384

unfoldable pub forbidden_keys : List String
forbidden_keys =
    "plaintext" ∷ "credential_plaintext" ∷ "callback_credential_plaintext" ∷ "credential_hash"
    ∷ "callback_credential_hash" ∷ "secret" ∷ "secret_value" ∷ "hmac_secret" ∷ "access_token"
    ∷ "refresh_token" ∷ "api_key" ∷ "authorization" ∷ "signature" ∷ "raw_nonce" ∷ "private_key"
    ∷ "password" ∷ []

-- `key.casefold() in FORBIDDEN_KEYS`
unfoldable pub is_forbidden : Platform → String → Bool
unfolding forbidden_keys
is_forbidden p key = any_of (str_eq (p.casefold key)) forbidden_keys

-- `inspect` raises exactly when this is true.
unfoldable mutual
  pub inspect : Platform → Json → Bool
  inspect p null = false
  inspect p (bool b) = false
  inspect p (num n) = false
  inspect p (str s) = false
  inspect p (arr items) = inspect_items p items
  inspect p (obj fields) = inspect_fields p fields

  pub inspect_items : Platform → Items → Bool
  inspect_items p nil = false
  inspect_items p (cons child rest) = inspect p child || inspect_items p rest

  pub inspect_fields : Platform → Fields → Bool
  inspect_fields p end = false
  inspect_fields p (field key child rest) =
      is_forbidden p key || inspect p child || inspect_fields p rest

unfoldable pub inspected : Platform → Option Json → Result Json
inspected p (some (obj fields)) = if inspect p (obj fields) then err value else ok (obj fields)
inspected p _ = err value

unfoldable pub encoded_snapshot : Platform → Json → Result Json
unfolding inspected
encoded_snapshot p snapshot =
    let encoded = p.json_dumps snapshot in
    if leb (p.bytes_length encoded) max_safe_snapshot_bytes
    then inspected p (p.json_loads encoded)
    else err value

unfoldable pub validate_safe_snapshot : Platform → Json → Result Json
unfolding encoded_snapshot
validate_safe_snapshot p (obj fields) = encoded_snapshot p (obj fields)
validate_safe_snapshot p _ = err value
