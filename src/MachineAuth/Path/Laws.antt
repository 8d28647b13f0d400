-- ===== src/MachineAuth/Path/Laws.antt =====
-- What `canonical_path` makes of two spellings of one path.
use ai_oas.Base.{
  if◌then◌else◌, ℕ, ◌≡◌, refl, sym, ap, subst, ◌∙◌, ◌↔◌, Bool, true, false, not, [], ◌∷◌, ◌==◌,
  arith, Text, any_of,
}
use ai_oas.Errors.{Result, ok, err}
use ai_oas.MachineAuth.Percent.{percent_ok, WellEscaped, done, plain, escape}
use ai_oas.MachineAuth.Path.{upper, upper_escapes, not_ascii, canonical_path, refused}
use ai_oas.MachineAuth.Path.Escapes.{
  percent_ok-WellEscaped, WellEscaped-percent_ok, upper_escapes-plain, upper_escapes-escape,
  upper_escapes-WellEscaped, upper_escapes-idempotent, upper_escapes-not_ascii,
}

-- Two paths that differ in the letter case of their escapes at most.
pub data SameEscapes : Text → Text → Type 0 where
  ended : SameEscapes [] []
  same : {c : ℕ} {r s : Text} → (c == b'%') ≡ false → SameEscapes r s → SameEscapes (c ∷ r) (c ∷ s)
  recased :
      {c a b d e : ℕ} {r s : Text}
      → (c == b'%') ≡ true
      → upper a ≡ upper d
      → upper b ≡ upper e
      → SameEscapes r s
      → SameEscapes (c ∷ a ∷ b ∷ r) (c ∷ d ∷ e ∷ s)

pub unguarded :
    {A : Type 0} (b : Bool) (r : Result A) (a : A)
    → (if b then refused else r) ≡ ok a
    → (b ≡ false) × (r ≡ ok a)
unguarded true r a h = ground arith
unguarded false r a h = (refl, h)

abbrev text_of : Result Text → Text
text_of (ok t) = t
text_of (err e) = []

pub of_not : {b : Bool} → not b ≡ false → b ≡ true
of_not {b} h = ground arith

pub canonical_path-parts :
    (r t : Text)
    → canonical_path r ≡ ok t
    → (WellEscaped r × (any_of not_ascii r ≡ false)) × (t ≡ upper_escapes r)
unfolding canonical_path
canonical_path-parts r t h =
    let outer = unguarded (not (percent_ok r)) _ t h in
    let inner = unguarded (any_of not_ascii r) _ t outer.1 in
    ((percent_ok-WellEscaped r (of_not outer.0), inner.0), sym (ap text_of inner.1))

-- A canonical path is its own canonical form.
pub canonical_path-idempotent : (r t : Text) → canonical_path r ≡ ok t → canonical_path t ≡ ok t
unfolding canonical_path
canonical_path-idempotent r t h =
    let parts = canonical_path-parts r t h in
    rw (parts.1) (
      rw (
        WellEscaped-percent_ok (upper_escapes-WellEscaped parts.0.0),
        upper_escapes-not_ascii parts.0.0 parts.0.1,
        upper_escapes-idempotent parts.0.0,
      ))

parts_of_cons : {a b : ℕ} {s t : Text} → a ∷ s ≡ b ∷ t → (a ≡ b) × (s ≡ t)
parts_of_cons h = (ground arith, ground arith)

SameEscapes-upper :
    {r s : Text}
    → SameEscapes r s
    → WellEscaped r
    → WellEscaped s
    → upper_escapes r ≡ upper_escapes s
unfolding upper_escapes
SameEscapes-upper ended v w = refl
SameEscapes-upper (same {c} e m) (plain f v) (plain g w) =
    upper_escapes-plain _ _ e
    ∙ ap (λ t. c ∷ t) (SameEscapes-upper m v w)
    ∙ sym (upper_escapes-plain _ _ e)
SameEscapes-upper (same {c} e m) (plain f v) (escape g ha hb w) = ground arith
SameEscapes-upper (same e m) (escape f ha hb v) w = ground arith
SameEscapes-upper (recased e ua ub m) (plain f v) w = ground arith
SameEscapes-upper (recased e ua ub m) (escape f ha hb v) (plain g w) = ground arith
SameEscapes-upper (recased e ua ub m) (escape f ha hb v) (escape g hd he w) =
    upper_escapes-escape _ _ _ _ e ha hb
    ∙ ((rw (ua, ub, SameEscapes-upper m v w)) ∙ sym (upper_escapes-escape _ _ _ _ e hd he))

absurd_nil : {P : Type 0} {c : ℕ} {t : Text} → [] ≡ c ∷ t → P
absurd_nil h = ground arith

apart : {P : Type 0} {c d : ℕ} → (c == b'%') ≡ false → (d == b'%') ≡ true → c ≡ d → P
apart e f h = ground arith

upper-SameEscapes :
    {r s : Text}
    → WellEscaped r
    → WellEscaped s
    → upper_escapes r ≡ upper_escapes s
    → SameEscapes r s
unfolding upper_escapes
upper-SameEscapes done done h = ended
upper-SameEscapes done (plain e w) h = absurd_nil (h ∙ upper_escapes-plain _ _ e)
upper-SameEscapes done (escape e ha hb w) h = absurd_nil (h ∙ upper_escapes-escape _ _ _ _ e ha hb)
upper-SameEscapes (plain e w) done h = absurd_nil (sym h ∙ upper_escapes-plain _ _ e)
upper-SameEscapes (escape e ha hb w) done h =
    absurd_nil (sym h ∙ upper_escapes-escape _ _ _ _ e ha hb)
upper-SameEscapes (plain {c} {rest = r} e v) (plain {c = d} {rest = s} f w) h =
    let parts = parts_of_cons (sym (upper_escapes-plain _ _ e) ∙ h ∙ upper_escapes-plain _ _ f) in
    subst (λ x. SameEscapes (c ∷ r) (x ∷ s)) parts.0 (same e (upper-SameEscapes v w parts.1))
upper-SameEscapes (plain e v) (escape f ha hb w) h =
    apart e f
      (parts_of_cons (sym (upper_escapes-plain _ _ e) ∙ h ∙ upper_escapes-escape _ _ _ _ f ha hb)).0
upper-SameEscapes (escape e ha hb v) (plain f w) h =
    apart f e
      (parts_of_cons
        (sym (upper_escapes-plain _ _ f) ∙ sym h ∙ upper_escapes-escape _ _ _ _ e ha hb)).0
upper-SameEscapes (escape {c} {a} {b} {rest = r} e ha hb v)
      (escape {c = d} {a = a'} {b = b'} {rest = s} f hd he w) h =
    let first =
      parts_of_cons
        (sym (upper_escapes-escape _ _ _ _ e ha hb) ∙ h ∙ upper_escapes-escape _ _ _ _ f hd he) in
    let second = parts_of_cons first.1 in
    let third = parts_of_cons second.1 in
    subst (λ x. SameEscapes (c ∷ a ∷ b ∷ r) (x ∷ a' ∷ b' ∷ s)) first.0
      (recased e second.0 third.0 (upper-SameEscapes v w third.1))

-- Two accepted paths have one canonical form exactly when they differ in the letter case of their
-- escapes at most.
pub canonical_path-SameEscapes :
    (r s t u : Text) → canonical_path r ≡ ok t → canonical_path s ≡ ok u → (t ≡ u) ↔ SameEscapes r s
canonical_path-SameEscapes r s t u h k =
    let a = canonical_path-parts r t h in
    let b = canonical_path-parts s u k in
    (
      λ e. upper-SameEscapes a.0.0 b.0.0 (sym a.1 ∙ e ∙ b.1),
      λ m. a.1 ∙ SameEscapes-upper m a.0.0 b.0.0 ∙ sym b.1,
    )
