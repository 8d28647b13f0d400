-- ===== src/Platform.antt =====
-- What the program calls and does not implement: hashlib, json, uuid, str and datetime.
use ai_oas.Base.{ℕ, String, Text, Bool, Option}
use ai_oas.Json.{Json}

pub record Platform : Type 1 where
  pub Bytes : Type 0
  -- `len(b)`
  pub bytes_length : Bytes → ℕ
  -- `t.encode("ascii")`
  pub encode_ascii : Text → Bytes
  -- the n-th value of `uuid.uuid4()`
  pub uuid4 : ℕ → ℕ
  -- `hashlib.sha256(b).hexdigest()`
  pub sha256 : Bytes → Text
  -- `json.dumps(v, ensure_ascii=False, sort_keys=True, separators=(",", ":"), allow_nan=False)`,
  -- then `.encode("utf-8")`
  pub json_dumps : Json → Bytes
  pub json_loads : Bytes → Option Json
  pub casefold : String → String
  -- `str(u)` of a UUID
  pub uuid_str : ℕ → String
  pub isoformat : ℕ → String
  -- `str.upper`
  pub str_upper : Text → Text
  -- `t.encode()`
  pub encode : Text → Bytes
  -- `hmac.new(secret, b, hashlib.sha256).hexdigest()`
  pub hmac_sha256 : Bytes → Bytes → Text
  -- `uuid.UUID(s)`; `none` is its ValueError
  pub uuid_parse : String → Option ℕ
  -- what `datetime.now(UTC)` says after n calls of `uuid.uuid4`
  pub utc_now : ℕ → ℕ
  -- `str.isspace` of a character
  pub is_space : ℕ → Bool
  -- `str.lower`
  pub str_lower : Text → Text
