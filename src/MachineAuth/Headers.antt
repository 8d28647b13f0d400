-- ===== src/MachineAuth/Headers.antt =====
-- machine_auth/authenticator.py: the four headers of a signed request, before any row is read.
pub mod Laws
pub mod Stamps
use ai_oas.Base.{
  ℕ, ◌+◌, ◌-◌, ◌*◌, Bool, true, false, ◌&&◌, ◌||◌, not, List, [], ◌∷◌, leb, ltb, ◌==◌, Text, all_of,
  length, if◌then◌else◌,
}
use ai_oas.Errors.{Result, ok, err, and_then}
use ai_oas.Identity.{seconds}
use ai_oas.MachineAuth.Path.{refused, Scope, extract_request_target}

-- `request.headers.getlist(name)`, when it has to be one value that is not empty
unfoldable pub only_value : List Text → Result Text
only_value ((c ∷ rest) ∷ []) = ok (c ∷ rest)
only_value _ = refused

abbrev pub digit : ℕ → Bool
digit c = leb b'0' c && leb c b'9'

abbrev service_char : ℕ → Bool
service_char c =
    leb b'A' c && leb c b'Z'
    || (leb b'a' c && leb c b'z'
        || (digit c || (c == b'.' || (c == b'_' || (c == b':' || c == b'-')))))

-- `^[A-Za-z0-9._:-]{1,128}$`
unfoldable pub service_id_valid : Text → Bool
service_id_valid t = leb 1 (length t) && leb (length t) 128 && all_of service_char t

abbrev pub visible : ℕ → Bool
visible c = leb 33 c && leb c 126

unfoldable pub validate_nonce : Text → Result Text
validate_nonce value =
    if leb 16 (length value) && leb (length value) 128 && all_of visible value
    then ok value
    else refused

abbrev signature_char : ℕ → Bool
signature_char c = digit c || leb b'a' c && leb c b'f'

unfoldable pub validate_signature : Text → Result Text
validate_signature value =
    if length value == 64 && all_of signature_char value then ok value else refused

-- `int(value)` of digits, with the digits before as `acc`
unfoldable pub int_from : ℕ → Text → ℕ
int_from acc [] = acc
int_from acc (c ∷ rest) = int_from (acc * 10 + (c - 48)) rest

-- `sys.get_int_max_str_digits()`: `int` of more digits is a ValueError.
abbrev pub int_max_str_digits : ℕ
int_max_str_digits = 4300

-- the last second that a `datetime` has: 9999-12-31T23:59:59Z
abbrev pub last_second : ℕ
last_second = 253402300799

abbrev pub distance : ℕ → ℕ → ℕ
distance a b = (a - b) + (b - a)

abbrev pub is_digits : Text → Bool
is_digits value = not (length value == 0) && all_of digit value

-- `value` in seconds, the result and `now` in microseconds
unfoldable pub validate_timestamp : Text → ℕ → ℕ → Result ℕ
unfolding int_from
validate_timestamp value now skew_seconds =
    if not (is_digits value)
    then refused
    else if ltb int_max_str_digits (length value)
    then refused
    else if ltb last_second (int_from 0 value)
    then refused
    else if ltb (seconds skew_seconds) (distance (seconds (int_from 0 value)) now)
    then refused
    else ok (seconds (int_from 0 value))

-- A request as the authenticator reads it: the values of each header, the scope and the body.
pub record Request (B : Type 0) : Type 0 where
  pub method : Text
  pub scope : Scope
  pub service_ids : List Text
  pub timestamps : List Text
  pub nonces : List Text
  pub signatures : List Text
  pub body : B

-- What the headers and the scope of an accepted request say.
pub record Claimed : Type 0 where
  pub service_id : Text
  pub timestamp : Text
  pub signed_at : ℕ
  pub nonce : Text
  pub supplied_signature : Text
  pub raw_path : Text
  pub raw_query : Text

unfoldable pub service_id_of : Text → Result Text
unfolding service_id_valid
service_id_of service_id = if service_id_valid service_id then ok service_id else refused

-- The body of `authenticate` up to `extract_request_target`.
unfoldable pub claimed : {B : Type 0} → ℕ → ℕ → Request B → Result Claimed
unfolding only_value service_id_of validate_timestamp validate_nonce validate_signature
    extract_request_target
claimed now skew_seconds r = and_then (only_value r.service_ids) λ id_value.
    and_then (only_value r.timestamps) λ timestamp. and_then (only_value r.nonces) λ nonce_value.
      and_then (only_value r.signatures) λ signature_value.
        and_then (service_id_of id_value) λ service_id.
          and_then (validate_timestamp timestamp now skew_seconds) λ signed_at.
            and_then (validate_nonce nonce_value) λ nonce.
              and_then (validate_signature signature_value) λ supplied_signature.
                and_then (extract_request_target r.scope) λ target. ok (record {
                  service_id = service_id;
                  timestamp = timestamp;
                  signed_at = signed_at;
                  nonce = nonce;
                  supplied_signature = supplied_signature;
                  raw_path = target.0;
                  raw_query = target.1;
                })
