-- ===== src/MachineAuth/Path.antt =====
-- machine_auth/canonicalization.py: `canonical_path` and `extract_request_target`.
pub mod Escapes
pub mod Laws
use ai_oas.Base.{
  ℕ, ◌-◌, Bool, true, false, ◌&&◌, ◌||◌, not, Option, none, some, List, [], ◌∷◌, leb, ltb, ◌==◌,
  Text, any_of, if◌then◌else◌,
}
use ai_oas.Errors.{Exc, Result, ok, err, intake, and_then}
use ai_oas.MachineAuth.Percent.{machine_authentication_failure, is_hex, percent_ok}

abbrev pub refused : {A : Type 0} → Result A
refused = err (intake machine_authentication_failure)

-- `str.upper` of a character that an escape can have
abbrev pub upper : ℕ → ℕ
upper c = if leb b'a' c && leb c b'z' then c - 32 else c

-- `re.sub(r"%[0-9A-Fa-f]{2}", lambda match: match.group(0).upper(), path)`
unfoldable pub upper_escapes : Text → Text
upper_escapes [] = []
upper_escapes (c ∷ []) = c ∷ []
upper_escapes (c ∷ a ∷ []) = c ∷ a ∷ []
upper_escapes (c ∷ a ∷ b ∷ rest) = elim (c == b'%' && (is_hex a && is_hex b)) [
  | true ↦ c ∷ upper a ∷ upper b ∷ upper_escapes rest
  | false ↦ c ∷ upper_escapes (a ∷ b ∷ rest)
]

abbrev pub not_ascii : ℕ → Bool
not_ascii c = leb 128 c

unfoldable pub canonical_path : Text → Result Text
unfolding percent_ok upper_escapes
canonical_path raw_path =
    if not (percent_ok raw_path)
    then refused
    else if any_of not_ascii raw_path
    then refused
    else ok (upper_escapes raw_path)

-- What `extract_request_target` refuses in a path before it reads the escapes.
abbrev pub not_visible : ℕ → Bool
not_visible byte = ltb byte 33 || ltb 126 byte

abbrev pub starts_with_slash : Text → Bool
starts_with_slash [] = false
starts_with_slash (c ∷ rest) = c == b'/'

abbrev pub bad_target : Text → Bool
bad_target raw_path =
    any_of not_visible raw_path
    || (any_of (λ c. c == b'?') raw_path || any_of (λ c. c == b'#') raw_path)

-- An entry of the scope: absent, bytes, or of another type.
pub data ScopeValue : Type 0 where
  absent other : ScopeValue
  bytes : Text → ScopeValue

pub record Scope : Type 0 where
  pub raw_path : ScopeValue
  pub query_string : ScopeValue

abbrev pub query_of : Text → ScopeValue → Result (Text × Text)
query_of raw_path absent = ok (raw_path, [])
query_of raw_path other = refused
query_of raw_path (bytes raw_query) = ok (raw_path, raw_query)

unfoldable pub target_of : ScopeValue → ScopeValue → Result (Text × Text)
unfolding canonical_path
target_of absent query = refused
target_of other query = refused
target_of (bytes raw_path) query =
    if not (starts_with_slash raw_path)
    then refused
    else if bad_target raw_path
    then refused
    else and_then (canonical_path raw_path) (λ _. query_of raw_path query)

unfoldable pub extract_request_target : Scope → Result (Text × Text)
unfolding target_of
extract_request_target scope = target_of scope.raw_path scope.query_string
