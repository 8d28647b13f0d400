-- ===== src/MachineAuth/Utf8/Laws.antt =====
-- Decoding what was encoded.
use ai_oas.Base.{
  ℕ, suc, ◌+◌, ◌-◌, ◌*◌, ◌/◌, ◌%◌, ◌<◌, ◌≤◌, ◌≡◌, ap, ◌∙◌, true, false, ◌&&◌, Option, none, ◌∷◌,
  ◌++◌, leb, ltb, ◌==◌, Text, if◌then◌else◌, arith, Bool-cases, inl, inr,
}
use ai_oas.MachineAuth.Utf8.{is_scalar, encode_char, ready, pending, lead, then_char, decode_from}

one_byte :
    (c : ℕ) (rest : Text)
    → c < 128
    → decode_from ready (c ∷ rest) ≡ then_char c (decode_from ready rest)
unfolding decode_from
one_byte c rest h = ground arith

last_byte :
    (value low high z : ℕ) (rest : Text)
    → low ≤ 128 + z
    → 128 + z ≤ high
    → decode_from (pending 0 value low high) ((128 + z) ∷ rest)
      ≡ then_char (value * 64 + z) (decode_from ready rest)
unfolding decode_from
last_byte value low high z rest h k = ground arith

next_byte :
    (n value low high z : ℕ) (rest : Text)
    → low ≤ 128 + z
    → 128 + z ≤ high
    → decode_from (pending (suc n) value low high) ((128 + z) ∷ rest)
      ≡ decode_from (pending n (value * 64 + z) 128 191) rest
unfolding decode_from
next_byte n value low high z rest h k =
    ap
      (λ q. elim q as (λ b. Option Text) [
        | true ↦ decode_from (pending n (value * 64 + (128 + z - 128)) 128 191) rest
        | false ↦ none
      ])
      in_range
    ∙ ap (λ v. decode_from (pending n (value * 64 + v) 128 191) rest) (omega arith)
  where
    in_range : (leb low (128 + z) && leb (128 + z) high) ≡ true
    in_range = ground arith

lead_byte :
    (b : ℕ) (rest : Text) → 128 ≤ b → decode_from ready (b ∷ rest) ≡ decode_from (lead b) rest
unfolding decode_from
lead_byte b rest h = ground arith

lead-two : (x : ℕ) → 2 ≤ x → x < 32 → lead (192 + x) ≡ pending 0 x 128 191
unfolding lead
lead-two x h k = ground arith

lead-three :
    (x : ℕ)
    → x < 16
    → lead (224 + x) ≡ pending 1 x (if x == 0 then 160 else 128) (if x == 13 then 159 else 191)
unfolding lead
lead-three x h = ground arith

lead-four :
    (x : ℕ)
    → x < 5
    → lead (240 + x) ≡ pending 2 x (if x == 0 then 144 else 128) (if x == 4 then 143 else 191)
unfolding lead
lead-four x h = ground arith

two_bytes :
    (x z : ℕ) (rest : Text)
    → 2 ≤ x
    → x < 32
    → z < 64
    → decode_from ready ((192 + x) ∷ (128 + z) ∷ rest)
      ≡ then_char (x * 64 + z) (decode_from ready rest)
two_bytes x z rest h k l =
    lead_byte (192 + x) _ (omega arith)
    ∙ rw (lead-two x h k) (last_byte x 128 191 z rest (omega arith) (omega arith))

three_bytes :
    (x y z : ℕ) (rest : Text)
    → x < 16
    → y < 64
    → z < 64
    → (if x == 0 then 160 else 128) ≤ 128 + y
    → 128 + y ≤ (if x == 13 then 159 else 191)
    → decode_from ready ((224 + x) ∷ (128 + y) ∷ (128 + z) ∷ rest)
      ≡ then_char ((x * 64 + y) * 64 + z) (decode_from ready rest)
three_bytes x y z rest h k l m n =
    lead_byte (224 + x) _ (omega arith)
    ∙ rw (lead-three x h) (next_byte 0 x _ _ y _ m n)
    ∙ last_byte (x * 64 + y) 128 191 z rest (omega arith) (omega arith)

four_bytes :
    (w x y z : ℕ) (rest : Text)
    → w < 5
    → x < 64
    → y < 64
    → z < 64
    → (if w == 0 then 144 else 128) ≤ 128 + x
    → 128 + x ≤ (if w == 4 then 143 else 191)
    → decode_from ready ((240 + w) ∷ (128 + x) ∷ (128 + y) ∷ (128 + z) ∷ rest)
      ≡ then_char (((w * 64 + x) * 64 + y) * 64 + z) (decode_from ready rest)
four_bytes w x y z rest h i k l m n =
    lead_byte (240 + w) _ (omega arith)
    ∙ rw (lead-four w h) (next_byte 1 w _ _ x _ m n)
    ∙ next_byte 0 (w * 64 + x) 128 191 y _ (omega arith) (omega arith)
    ∙ last_byte ((w * 64 + x) * 64 + y) 128 191 z rest (omega arith) (omega arith)

pub decode-encode_char :
    (c : ℕ) (rest : Text)
    → is_scalar c ≡ true
    → decode_from ready (encode_char c ++ rest) ≡ then_char c (decode_from ready rest)
decode-encode_char c rest h = elim (Bool-cases (ltb c 128)) [
  | inl e ↦ rw e (one_byte c rest (ground arith))
  | inr e ↦ rw e (elim (Bool-cases (ltb c 2048)) [
    | inl f ↦ rw f (
        two_bytes (c / 64) (c % 64) rest (ground arith) (ground arith) (omega arith)
        ∙ ap (λ v. then_char v (decode_from ready rest)) (omega arith))
    | inr f ↦ rw f (elim (Bool-cases (ltb c 65536)) [
      | inl g ↦ rw g (
          three_bytes (c / 4096) (c / 64 % 64) (c % 64) rest (ground arith) (omega arith)
            (omega arith) (ground arith) (ground arith)
          ∙ ap (λ v. then_char v (decode_from ready rest)) (omega arith))
      | inr g ↦ rw g (
          four_bytes (c / 262144) (c / 4096 % 64) (c / 64 % 64) (c % 64) rest (ground arith)
            (omega arith) (omega arith) (omega arith) (ground arith) (ground arith)
          ∙ ap (λ v. then_char v (decode_from ready rest)) (omega arith))
    ])
  ])
]
