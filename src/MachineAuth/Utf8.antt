-- ===== src/MachineAuth/Utf8.antt =====
-- `bytes.decode("utf-8")` and `str.encode()` of Python, as machine_auth/canonicalization.py uses
-- them. A byte and a code point are numbers.
pub mod Laws
pub mod Scalars
use ai_oas.Base.{
  ℕ, zero, suc, ◌+◌, ◌-◌, ◌*◌, ◌/◌, ◌%◌, Bool, true, false, ◌&&◌, ◌||◌, Option, none, some, List,
  [], ◌∷◌, ◌++◌, leb, ltb, ◌==◌, Text, if◌then◌else◌,
}

-- a code point that is no surrogate
abbrev pub is_scalar : ℕ → Bool
is_scalar c = ltb c 55296 || leb 57344 c && ltb c 1114112

abbrev pub encode_char : ℕ → Text
encode_char c =
    if ltb c 128
    then c ∷ []
    else if ltb c 2048
    then (192 + c / 64) ∷ (128 + c % 64) ∷ []
    else if ltb c 65536
    then (224 + c / 4096) ∷ (128 + c / 64 % 64) ∷ (128 + c % 64) ∷ []
    else (240 + c / 262144) ∷ (128 + c / 4096 % 64) ∷ (128 + c / 64 % 64) ∷ (128 + c % 64) ∷ []

unfoldable pub encode_utf8 : Text → Text
encode_utf8 [] = []
encode_utf8 (c ∷ rest) = encode_char c ++ encode_utf8 rest

-- Between two characters, or in one: the bytes that follow the next one, the value so far, and the
-- range of the next byte.
pub data Utf8State : Type 0 where
  ready broken : Utf8State
  pending : ℕ → ℕ → ℕ → ℕ → Utf8State

-- the state after a byte from 128 on that begins a character
unfoldable pub lead : ℕ → Utf8State
lead b =
    if ltb b 194
    then broken
    else if ltb b 224
    then pending 0 (b - 192) 128 191
    else if ltb b 240
    then pending 1 (b - 224) (if b == 224 then 160 else 128) (if b == 237 then 159 else 191)
    else if ltb b 245
    then pending 2 (b - 240) (if b == 240 then 144 else 128) (if b == 244 then 143 else 191)
    else broken

abbrev pub then_char : ℕ → Option Text → Option Text
then_char c none = none
then_char c (some t) = some (c ∷ t)

unfoldable pub decode_from : Utf8State → Text → Option Text
unfolding lead
decode_from broken _ = none
decode_from ready [] = some []
decode_from ready (b ∷ rest) = elim (ltb b 128) [
  | true ↦ then_char b (decode_from ready rest)
  | false ↦ decode_from (lead b) rest
]
decode_from (pending n value low high) [] = none
decode_from (pending zero value low high) (b ∷ rest) = elim (leb low b && leb b high) [
  | true ↦ then_char (value * 64 + (b - 128)) (decode_from ready rest)
  | false ↦ none
]
decode_from (pending (suc n) value low high) (b ∷ rest) = elim (leb low b && leb b high) [
  | true ↦ decode_from (pending n (value * 64 + (b - 128)) 128 191) rest
  | false ↦ none
]

unfoldable pub decode_utf8 : Text → Option Text
unfolding decode_from
decode_utf8 bytes = decode_from ready bytes
