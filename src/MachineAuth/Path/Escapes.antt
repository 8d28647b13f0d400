-- ===== src/MachineAuth/Path/Escapes.antt =====
-- `upper_escapes` on a text whose escapes are complete, one step at a time.
use ai_oas.Base.{
  ℕ, ◌≡◌, refl, sym, ap, subst, ◌∙◌, Bool, true, false, ◌&&◌, [], ◌∷◌, ◌==◌, arith, Text,
  Bool-cases, inl, inr, any_of,
}
use ai_oas.MachineAuth.Percent.{is_hex, percent_ok, WellEscaped, done, plain, escape}
use ai_oas.MachineAuth.Path.{upper, upper_escapes, not_ascii}

pub both_true : {a b : Bool} → (a && b) ≡ true → (a ≡ true) × (b ≡ true)
both_true {a} {b} h = (ground arith, ground arith)

percent_ok-plain :
    (c : ℕ) (rest : Text) → (c == b'%') ≡ false → percent_ok (c ∷ rest) ≡ percent_ok rest
unfolding percent_ok
percent_ok-plain c rest e = ground arith

percent_ok-escape :
    (c a b : ℕ) (rest : Text)
    → (c == b'%') ≡ true
    → percent_ok (c ∷ a ∷ b ∷ rest) ≡ (is_hex a && is_hex b && percent_ok rest)
unfolding percent_ok
percent_ok-escape c a b rest e = ground arith

pub percent_ok-WellEscaped : (t : Text) → percent_ok t ≡ true → WellEscaped t
unfolding percent_ok
percent_ok-WellEscaped [] h = done
percent_ok-WellEscaped (c ∷ []) h = elim (Bool-cases (c == b'%')) [
  | inl e ↦ ground arith
  | inr e ↦ plain e done
]
percent_ok-WellEscaped (c ∷ a ∷ []) h = elim (Bool-cases (c == b'%')) [
  | inl e ↦ ground arith
  | inr e ↦ plain e (percent_ok-WellEscaped (a ∷ []) (sym (percent_ok-plain c (a ∷ []) e) ∙ h))
]
percent_ok-WellEscaped (c ∷ a ∷ b ∷ rest) h = elim (Bool-cases (c == b'%')) [
  | inl e ↦
      (let parts = both_true (sym (percent_ok-escape c a b rest e) ∙ h) in
        let digits = both_true parts.0 in
        escape e digits.0 digits.1 (percent_ok-WellEscaped rest parts.1))
  | inr e ↦
      plain e
        (percent_ok-WellEscaped (a ∷ b ∷ rest) (sym (percent_ok-plain c (a ∷ b ∷ rest) e) ∙ h))
]

pub WellEscaped-percent_ok : {t : Text} → WellEscaped t → percent_ok t ≡ true
unfolding percent_ok
WellEscaped-percent_ok done = refl
WellEscaped-percent_ok (plain {c} {rest} e w) = percent_ok-plain c rest e ∙ WellEscaped-percent_ok w
WellEscaped-percent_ok (escape {c} {a} {b} {rest} e ha hb w) =
    percent_ok-escape c a b rest e ∙ rw (ha, hb) (WellEscaped-percent_ok w)

pub upper_escapes-plain :
    (c : ℕ) (rest : Text) → (c == b'%') ≡ false → upper_escapes (c ∷ rest) ≡ c ∷ upper_escapes rest
unfolding upper_escapes
upper_escapes-plain c [] e = refl
upper_escapes-plain c (a ∷ []) e = refl
upper_escapes-plain c (a ∷ b ∷ rest) e = ground arith

pub upper_escapes-escape :
    (c a b : ℕ) (rest : Text)
    → (c == b'%') ≡ true
    → is_hex a ≡ true
    → is_hex b ≡ true
    → upper_escapes (c ∷ a ∷ b ∷ rest) ≡ c ∷ upper a ∷ upper b ∷ upper_escapes rest
unfolding upper_escapes
upper_escapes-escape c a b rest e ha hb = ground arith

pub upper-is_hex : (a : ℕ) → is_hex a ≡ true → is_hex (upper a) ≡ true
unfolding is_hex
upper-is_hex a h = ground arith

pub upper-idempotent : (a : ℕ) → upper (upper a) ≡ upper a
upper-idempotent a = ground arith

is_hex-not_ascii : (a : ℕ) → is_hex a ≡ true → not_ascii a ≡ false
unfolding is_hex
is_hex-not_ascii a h = ground arith

percent-not_ascii : (c : ℕ) → (c == b'%') ≡ true → not_ascii c ≡ false
percent-not_ascii c e = ground arith

pub upper_escapes-WellEscaped : {t : Text} → WellEscaped t → WellEscaped (upper_escapes t)
unfolding upper_escapes
upper_escapes-WellEscaped done = done
upper_escapes-WellEscaped (plain {c} {rest} e w) =
    subst WellEscaped (sym (upper_escapes-plain c rest e)) (plain e (upper_escapes-WellEscaped w))
upper_escapes-WellEscaped (escape {c} {a} {b} {rest} e ha hb w) =
    subst WellEscaped (sym (upper_escapes-escape c a b rest e ha hb))
      (escape e (upper-is_hex a ha) (upper-is_hex b hb) (upper_escapes-WellEscaped w))

pub upper_escapes-idempotent :
    {t : Text} → WellEscaped t → upper_escapes (upper_escapes t) ≡ upper_escapes t
unfolding upper_escapes
upper_escapes-idempotent done = refl
upper_escapes-idempotent (plain {c} {rest} e w) =
    rw (upper_escapes-plain c rest e)
      (upper_escapes-plain c (upper_escapes rest) e ∙ ap (λ t. c ∷ t) (upper_escapes-idempotent w))
upper_escapes-idempotent (escape {c} {a} {b} {rest} e ha hb w) =
    rw (upper_escapes-escape c a b rest e ha hb) (
      upper_escapes-escape c (upper a) (upper b) (upper_escapes rest) e (upper-is_hex a ha)
        (upper-is_hex b hb)
      ∙ rw (upper-idempotent a, upper-idempotent b, upper_escapes-idempotent w))

any_of-plain :
    (c : ℕ) (rest : Text)
    → any_of not_ascii (c ∷ rest) ≡ false
    → (not_ascii c ≡ false) × (any_of not_ascii rest ≡ false)
any_of-plain c rest h = ground arith

pub upper_escapes-not_ascii :
    {t : Text}
    → WellEscaped t
    → any_of not_ascii t ≡ false
    → any_of not_ascii (upper_escapes t) ≡ false
unfolding upper_escapes
upper_escapes-not_ascii done h = refl
upper_escapes-not_ascii (plain {c} {rest} e w) h =
    let parts = any_of-plain c rest h in
    rw (upper_escapes-plain c rest e, parts.0, upper_escapes-not_ascii w parts.1)
upper_escapes-not_ascii (escape {c} {a} {b} {rest} e ha hb w) h =
    let parts =
      any_of-plain b rest (any_of-plain a (b ∷ rest) (any_of-plain c (a ∷ b ∷ rest) h).1).1 in
    rw (
      upper_escapes-escape c a b rest e ha hb,
      percent-not_ascii c e,
      is_hex-not_ascii (upper a) (upper-is_hex a ha),
      is_hex-not_ascii (upper b) (upper-is_hex b hb),
      upper_escapes-not_ascii w parts.1,
    )
