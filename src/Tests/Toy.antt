-- ===== src/Tests/Toy.antt =====
-- A platform that computes, and the data of the tests: a hash of 64 hexadecimal digits, bytes that
-- keep what was encoded.
use ai_oas.Base.{
  ℕ, zero, suc, ◌+◌, ◌-◌, ◌*◌, ◌/◌, ◌%◌, Text, true, false, Option, none, some, List, [], ◌∷◌, ltb,
  ◌==◌, codes, if◌then◌else◌,
}
use ai_oas.Json.{Json, null, bool, num, str, arr, obj, Items, nil, cons, Fields, end, field}
use ai_oas.Errors.{Result, ok, err}
use ai_oas.Outcome.{CommandOutcome}
use ai_oas.Platform.{Platform}
use ai_oas.Identity.{AuthenticatedWorkflowService, Settings}
use ai_oas.Models.{ServiceRequest, ServiceRequestStatus}
use ai_oas.Tables.{Db, empty_db}
use ai_oas.Session.{Session, connection_lost, begun}

pub data Bytes : Type 0 where
  of_json : Json → Bytes
  of_text : Text → Bytes

abbrev mix : ℕ → List ℕ → ℕ
mix acc [] = acc
mix acc (c ∷ t) = mix (acc * 131 + c + 1) t

abbrev mutual
  mix_json : ℕ → Json → ℕ
  mix_json acc null = acc * 3 + 1
  mix_json acc (bool true) = acc * 3 + 2
  mix_json acc (bool false) = acc * 5 + 3
  mix_json acc (num n) = mix acc (n ∷ [])
  mix_json acc (str s) = mix acc (codes s)
  mix_json acc (arr items) = mix_items (acc * 7 + 1) items
  mix_json acc (obj fields) = mix_fields (acc * 11 + 1) fields

  mix_items : ℕ → Items → ℕ
  mix_items acc nil = acc
  mix_items acc (cons j rest) = mix_items (mix_json acc j) rest

  mix_fields : ℕ → Fields → ℕ
  mix_fields acc end = acc
  mix_fields acc (field k j rest) = mix_fields (mix_json (mix acc (codes k)) j) rest

abbrev hex_digit_of : ℕ → ℕ
hex_digit_of n = if ltb n 10 then n + b'0' else n - 10 + b'a'

abbrev hex_digits : ℕ → ℕ → Text
hex_digits zero n = []
hex_digits (suc k) n = hex_digit_of (n % 16) ∷ hex_digits k (n / 16)

abbrev pub toy_hash : Bytes → Text
toy_hash (of_json j) = hex_digits 64 (mix_json 1 j)
toy_hash (of_text t) = hex_digits 64 (mix 2 t)

abbrev pub toy_hmac : Bytes → Bytes → Text
toy_hmac (of_text k) (of_text t) = hex_digits 64 (mix (mix 3 k) t)
toy_hmac _ b = toy_hash b

abbrev toy_loads : Bytes → Option Json
toy_loads (of_json j) = some j
toy_loads (of_text t) = none

abbrev pub toy : Platform
toy = record {
  Bytes = Bytes;
  bytes_length = λ _. 100;
  encode_ascii = of_text;
  uuid4 = λ n. 1000 + n;
  sha256 = toy_hash;
  json_dumps = of_json;
  json_loads = toy_loads;
  casefold = λ s. s;
  uuid_str = λ _. "uuid";
  isoformat = λ _. "time";
  str_upper = λ t. t;
  encode = of_text;
  hmac_sha256 = toy_hmac;
  uuid_parse = λ s. some 1001;
  utc_now = λ n. 1000000 + n;
  is_space = λ c. c == 32;
  str_lower = λ t. t;
}

abbrev pub settings : Settings
settings = record {
  ai_interpretation_prompt_version = "v1";
  ai_interpretation_result_schema_version = "v1";
  ai_provider_name = "Demo";
  ai_model_name = "m1";
  ai_adapter_name = "adapter";
  ai_adapter_version = "1.0";
  ai_callback_authorization_seconds = 1800;
}

abbrev pub machine : AuthenticatedWorkflowService
machine = record {
  machine_identity_id = 7;
  stable_service_id = "workflow";
  environment = "test";
  credential_id = 8;
  credential_version = 1;
}

abbrev pub request : ServiceRequest
request = record {
  id = 1;
  originating_delivery_id = 2;
  contact_id = 3;
  normalized_request_description = "fix the sink";
  status = ServiceRequestStatus.triage_pending;
  version = 1;
  category = none;
  priority = none;
  current_queue = none;
  location_context = none;
  timing_preference = some "today";
  current_interpretation_id = none;
}

abbrev pub requests_db : Db
requests_db = record empty_db { service_requests = request ∷ [] }

abbrev pub session_on : Db → Session
session_on d = record {
  identity = 5;
  transaction = none;
  committed = d;
  working = d;
  faults = [];
  now = 1000000;
  aware = true;
  drawn = 0;
  peer = λ x. x;
}

abbrev pub key : Text
key = codes "idempotent-key"

abbrev pub body_hash : Text
body_hash = hex_digits 64 77

abbrev pub other_hash : Text
other_hash = hex_digits 64 78

abbrev pub credential_text : Text
credential_text = codes "abcdefghijklmnopqrstuvwxyzABCDEFGHIJKLMNOPQ0123"

abbrev pub outcome_of : Result CommandOutcome → CommandOutcome
outcome_of (ok o) = o
outcome_of (err e) = record {
  logical_http_status = 0;
  command_id = 0;
  safe_snapshot = null;
  is_replay = false;
  callback_plaintext = none;
}

-- the connection is lost at the next statement
abbrev pub lost : Session → Session
lost s = record s { faults = some connection_lost ∷ [] }

-- a session whose caller has begun a transaction
abbrev pub in_begun : Db → Session
in_begun d = begun (session_on d)

-- a session that draws other identifiers
abbrev pub later : Db → Session
later d = let s = session_on d in record s { drawn = 50 }
