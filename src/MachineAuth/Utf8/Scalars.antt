-- ===== src/MachineAuth/Utf8/Scalars.antt =====
-- What decoding can return, and what encoding can.
use ai_oas.Base.{
  ℕ, zero, suc, ◌+◌, ◌-◌, ◌*◌, ◌≡◌, refl, ap, ◌∙◌, Bool, true, false, ◌&&◌, Option, none, some, [],
  ◌∷◌, ◌++◌, leb, ltb, ◌==◌, Text, if◌then◌else◌, all_of, arith, ◌⊎◌, inl, inr, ◌<◌,
}
use ai_oas.MachineAuth.Utf8.{
  is_scalar, encode_char, encode_utf8, Utf8State, ready, broken, pending, lead, then_char,
  decode_from, decode_utf8,
}
use ai_oas.MachineAuth.Utf8.Laws.{decode-encode_char}

abbrev pub is_byte : ℕ → Bool
is_byte b = ltb b 256

-- Whatever bytes follow, a character that is pending has a scalar value.
abbrev IsPending : ℕ → ℕ → ℕ → ℕ → Type 0
IsPending zero value low high =
    (b : ℕ) → (leb low b && leb b high) ≡ true → is_scalar (value * 64 + (b - 128)) ≡ true
IsPending (suc n) value low high =
    (b : ℕ) → (leb low b && leb b high) ≡ true → IsPending n (value * 64 + (b - 128)) 128 191

abbrev IsSound : Utf8State → Type 0
IsSound ready = Unit
IsSound broken = Unit
IsSound (pending n value low high) = IsPending n value low high

lead-two : (v : ℕ) → v < 32 → IsPending 0 v 128 191
lead-two v h b k = ground arith

lead-three :
    (v : ℕ) → v < 16 → IsPending 1 v (if v == 0 then 160 else 128) (if v == 13 then 159 else 191)
lead-three v h b k c l = ground arith

lead-four :
    (v : ℕ) → v < 5 → IsPending 2 v (if v == 0 then 144 else 128) (if v == 4 then 143 else 191)
lead-four v h b k c l d m = ground arith

either-IsSound :
    (q : Bool) (s t : Utf8State)
    → (q ≡ true → IsSound s)
    → (q ≡ false → IsSound t)
    → IsSound (if q then s else t)
either-IsSound true s t f g = f refl
either-IsSound false s t f g = g refl

zero_test : (b k : ℕ) → ltb b k ≡ false → (b == k) ≡ (b - k == 0)
zero_test b k h = ground arith

last_test : (b k n : ℕ) → ltb b k ≡ false → (b == k + n) ≡ (b - k == n)
last_test b k n h = ground arith

lead-IsSound : (b : ℕ) → IsSound (lead b)
unfolding lead
lead-IsSound b =
    either-IsSound (ltb b 194) _ _ (λ _. tt)
      (λ h.
        either-IsSound (ltb b 224) _ _ (λ k. lead-two (b - 192) (ground arith))
          (λ k.
            either-IsSound (ltb b 240) _ _
              (λ l.
                rw (zero_test b 224 k, last_test b 224 13 k) (lead-three (b - 224) (ground arith)))
              (λ l.
                either-IsSound (ltb b 245) _ _
                  (λ m.
                    rw (zero_test b 240 l, last_test b 240 4 l)
                      (lead-four (b - 240) (ground arith)))
                  (λ m. tt))))

then_char-some :
    (c : ℕ) (o : Option Text) (t : Text)
    → then_char c o ≡ some t
    → (rest : Text) × ((o ≡ some rest) × (t ≡ c ∷ rest))
then_char-some c none t h = ground arith
then_char-some c (some rest) t h = (rest, (refl, ground arith))

-- a character in front of a text
char-scalars :
    (c : ℕ) (o : Option Text) (t : Text)
    → is_scalar c ≡ true
    → ((rest : Text) → o ≡ some rest → all_of is_scalar rest ≡ true)
    → then_char c o ≡ some t
    → all_of is_scalar t ≡ true
char-scalars c o t g rec h =
    let parts = then_char-some c o t h in rw (parts.1.1, g, rec parts.0 parts.1.0)

in_range :
    (q : Bool) (o : Option Text) (t : Text)
    → elim q as (λ b. Option Text) [ true ↦ o | false ↦ none ] ≡ some t
    → (q ≡ true) × (o ≡ some t)
in_range true o t h = (refl, h)
in_range false o t h = ground arith

by_test :
    (q : Bool) (o k : Option Text) (t : Text)
    → elim q as (λ b. Option Text) [ true ↦ o | false ↦ k ] ≡ some t
    → ((q ≡ true) × (o ≡ some t)) ⊎ (k ≡ some t)
by_test true o k t h = inl (refl, h)
by_test false o k t h = inr h

decode_from-scalars :
    (state : Utf8State) (bytes t : Text)
    → IsSound state
    → decode_from state bytes ≡ some t
    → all_of is_scalar t ≡ true
unfolding decode_from
decode_from-scalars broken bytes t g h = ground arith
decode_from-scalars ready [] t g h = ground arith
decode_from-scalars ready (b ∷ rest) t g h = elim (by_test (ltb b 128) _ _ t h) [
  | inl (small, k) ↦ char-scalars b _ t (ground arith) (λ u. decode_from-scalars ready rest u tt) k
  | inr k ↦ decode_from-scalars (lead b) rest t (lead-IsSound b) k
]
decode_from-scalars (pending zero value low high) [] t g h = ground arith
decode_from-scalars (pending (suc n) value low high) [] t g h = ground arith
decode_from-scalars (pending zero value low high) (b ∷ rest) t g h =
    let k = in_range _ _ t h in
    char-scalars _ _ t (g b k.0) (λ u. decode_from-scalars ready rest u tt) k.1
decode_from-scalars (pending (suc n) value low high) (b ∷ rest) t g h =
    let k = in_range _ _ t h in decode_from-scalars (pending n _ 128 191) rest t (g b k.0) k.1

pub decode_utf8-scalars : (bytes t : Text) → decode_utf8 bytes ≡ some t → all_of is_scalar t ≡ true
unfolding decode_utf8
decode_utf8-scalars bytes t h = decode_from-scalars ready bytes t tt h

pub decode-encode_utf8 :
    (t : Text) → all_of is_scalar t ≡ true → decode_utf8 (encode_utf8 t) ≡ some t
unfolding decode_utf8 decode_from encode_utf8
decode-encode_utf8 [] h = refl
decode-encode_utf8 (c ∷ rest) h =
    decode-encode_char c (encode_utf8 rest) (ground arith)
    ∙ ap (then_char c) (decode-encode_utf8 rest (ground arith))

encode_char-bytes :
    (c : ℕ) (rest : Text)
    → is_scalar c ≡ true
    → all_of is_byte rest ≡ true
    → all_of is_byte (encode_char c ++ rest) ≡ true
encode_char-bytes c rest h k = ground arith

pub encode_utf8-bytes :
    (t : Text) → all_of is_scalar t ≡ true → all_of is_byte (encode_utf8 t) ≡ true
unfolding encode_utf8
encode_utf8-bytes [] h = refl
encode_utf8-bytes (c ∷ rest) h =
    encode_char-bytes c (encode_utf8 rest) (ground arith) (encode_utf8-bytes rest (ground arith))
