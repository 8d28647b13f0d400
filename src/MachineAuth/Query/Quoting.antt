-- ===== src/MachineAuth/Query/Quoting.antt =====
-- `quote` undone by `_decode_query_component`.
use ai_oas.Base.{
  ℕ, ◌+◌, ◌*◌, ◌/◌, ◌%◌, ◌<◌, ◌≡◌, refl, ap, ◌∙◌, Bool, true, false, ◌||◌, not, Option, none, some,
  [], ◌∷◌, ◌==◌, Text, all_of, arith, Bool-cases, inl, inr,
}
use ai_oas.Errors.{ok}
use ai_oas.MachineAuth.Percent.{is_hex, percent_ok, WellEscaped, done, plain, escape}
use ai_oas.MachineAuth.Path.Escapes.{WellEscaped-percent_ok}
use ai_oas.MachineAuth.Path.Laws.{unguarded}
use ai_oas.MachineAuth.Utf8.{is_scalar, encode_utf8}
use ai_oas.MachineAuth.Utf8.Scalars.{
  is_byte, decode-encode_utf8, encode_utf8-bytes, decode_utf8-scalars,
}
use ai_oas.MachineAuth.Query.{
  hex_value, hex_digit, plus_to_space, unescape, decoded, decode_query_component, is_unreserved,
  quote_bytes, quote,
}

-- a character that `quote` writes
abbrev pub is_quoted : ℕ → Bool
unfolding is_unreserved
is_quoted c = is_unreserved c || c == b'%'

unreserved-plain : (c : ℕ) → is_unreserved c ≡ true → (c == b'%') ≡ false
unfolding is_unreserved
unreserved-plain c h = ground arith

unreserved-no_plus : (c : ℕ) → is_unreserved c ≡ true → plus_to_space c ≡ c
unfolding is_unreserved
unreserved-no_plus c h = ground arith

hex_digit-is_hex : (n : ℕ) → n < 16 → is_hex (hex_digit n) ≡ true
unfolding is_hex
hex_digit-is_hex n h = ground arith

hex_digit-unreserved : (n : ℕ) → n < 16 → is_unreserved (hex_digit n) ≡ true
unfolding is_unreserved
hex_digit-unreserved n h = ground arith

hex_value-hex_digit : (n : ℕ) → n < 16 → hex_value (hex_digit n) ≡ n
hex_value-hex_digit n h = ground arith

hex_pair :
    (b : ℕ) → b < 256 → (hex_value (hex_digit (b / 16)) * 16 + hex_value (hex_digit (b % 16))) ≡ b
hex_pair b h =
    ap (λ x. x * 16 + hex_value (hex_digit (b % 16))) (hex_value-hex_digit (b / 16) (omega arith))
    ∙ ap (λ x. b / 16 * 16 + x) (hex_value-hex_digit (b % 16) (omega arith))
    ∙ omega arith

unescape-plain :
    (c : ℕ) (rest : Text) → is_unreserved c ≡ true → unescape (c ∷ rest) ≡ c ∷ unescape rest
unfolding unescape
unescape-plain c [] h = ap (λ x. x ∷ []) (unreserved-no_plus c h)
unescape-plain c (a ∷ []) h = ap (λ x. x ∷ plus_to_space a ∷ []) (unreserved-no_plus c h)
unescape-plain c (a ∷ b ∷ rest) h =
    ap
      (λ q. elim q as (λ b. Text) [
        | true ↦ (hex_value a * 16 + hex_value b) ∷ unescape rest
        | false ↦ plus_to_space c ∷ unescape (a ∷ b ∷ rest)
      ])
      (unreserved-plain c h)
    ∙ ap (λ x. x ∷ unescape (a ∷ b ∷ rest)) (unreserved-no_plus c h)

unescape-escape :
    (a b : ℕ) (rest : Text)
    → unescape (b'%' ∷ a ∷ b ∷ rest) ≡ (hex_value a * 16 + hex_value b) ∷ unescape rest
unfolding unescape
unescape-escape a b rest = refl

quote_bytes-WellEscaped :
    (bytes : Text) → all_of is_byte bytes ≡ true → WellEscaped (quote_bytes bytes)
unfolding quote_bytes
quote_bytes-WellEscaped [] h = done
quote_bytes-WellEscaped (b ∷ rest) h = elim (Bool-cases (is_unreserved b)) [
  | inl e ↦ rw e (plain (unreserved-plain b e) (quote_bytes-WellEscaped rest (ground arith)))
  | inr e ↦ rw e (
      escape refl (hex_digit-is_hex (b / 16) (ground arith))
        (hex_digit-is_hex (b % 16) (omega arith)) (quote_bytes-WellEscaped rest (ground arith)))
]

unescape-quote_bytes :
    (bytes : Text) → all_of is_byte bytes ≡ true → unescape (quote_bytes bytes) ≡ bytes
unfolding quote_bytes unescape
unescape-quote_bytes [] h = refl
unescape-quote_bytes (b ∷ rest) h = elim (Bool-cases (is_unreserved b)) [
  | inl e ↦ rw e (unescape-plain b _ e ∙ ap (λ t. b ∷ t) (unescape-quote_bytes rest (ground arith)))
  | inr e ↦ rw e (
      unescape-escape (hex_digit (b / 16)) (hex_digit (b % 16)) (quote_bytes rest)
      ∙ ap (λ x. x ∷ unescape (quote_bytes rest)) (hex_pair b (ground arith))
      ∙ ap (λ t. b ∷ t) (unescape-quote_bytes rest (ground arith)))
]

pub quote_bytes-quoted :
    (bytes : Text) → all_of is_byte bytes ≡ true → all_of is_quoted (quote_bytes bytes) ≡ true
unfolding quote_bytes
quote_bytes-quoted [] h = refl
quote_bytes-quoted (b ∷ rest) h = elim (Bool-cases (is_unreserved b)) [
  | inl e ↦ rw e (rw (e, quote_bytes-quoted rest (ground arith)))
  | inr e ↦ rw e (
      rw (
        hex_digit-unreserved (b / 16) (ground arith),
        hex_digit-unreserved (b % 16) (omega arith),
        quote_bytes-quoted rest (ground arith),
      ))
]

-- A text without surrogates that was quoted is decoded to itself.
pub decode-quote : (t : Text) → all_of is_scalar t ≡ true → decode_query_component (quote t) ≡ ok t
unfolding decode_query_component quote
decode-quote t h =
    let bytes = encode_utf8-bytes t h in
    rw (
      WellEscaped-percent_ok (quote_bytes-WellEscaped (encode_utf8 t) bytes),
      unescape-quote_bytes (encode_utf8 t) bytes,
      decode-encode_utf8 t h,
    )

decoded-some : (o : Option Text) (t : Text) → decoded o ≡ ok t → o ≡ some t
decoded-some none t h = ground arith
decoded-some (some u) t h = ground arith

pub decode_query_component-scalars :
    (value t : Text) → decode_query_component value ≡ ok t → all_of is_scalar t ≡ true
unfolding decode_query_component
decode_query_component-scalars value t h =
    decode_utf8-scalars (unescape value) t
      (decoded-some _ t (unguarded (not (percent_ok value)) _ t h).1)
