-- ===== src/Intake/Phone/Laws.antt =====
-- What `normalize_phone` accepts and returns.
use ai_oas.Base.{
  lstrip, rstrip, strip, ℕ, ◌≤◌, ◌≡◌, refl, ap, subst, sym, ◌∙◌, Bool, true, false, not, [], ◌∷◌,
  Text, all_of, length, select, arith,
}
use ai_oas.Errors.{ok}
use ai_oas.Intake.Phone.{separator, separators_removed, e164_phone, normalize_phone}

all_of-select : (q : ℕ → Bool) (t : Text) → all_of q (select q t) ≡ true
all_of-select q [] = refl
all_of-select q (c ∷ t) = let rest = all_of-select q t in ground arith

select-all_of : (q : ℕ → Bool) (t : Text) → all_of q t ≡ true → select q t ≡ t
select-all_of q [] h = refl
select-all_of q (c ∷ t) h = let rest = select-all_of q t in ground arith

module _ (is_space is_decimal : ℕ → Bool) where
  abbrev kept : ℕ → Bool
  kept c = not (separator is_space is_decimal c)

  not_space : (c : ℕ) → kept c ≡ true → is_space c ≡ false
  unfolding separator
  not_space c h = ground arith

  lstrip-kept : (t : Text) → all_of kept t ≡ true → lstrip is_space t ≡ t
  unfolding lstrip
  lstrip-kept [] h = refl
  lstrip-kept (c ∷ t) h = let space = not_space c in ground arith

  rstrip-kept : (t : Text) → all_of kept t ≡ true → rstrip is_space t ≡ t
  unfolding rstrip
  rstrip-kept [] h = refl
  rstrip-kept (c ∷ t) h = let space = not_space c in let rest = rstrip-kept t in ground arith

  removed-kept : (t : Text) → all_of kept t ≡ true → separators_removed is_space is_decimal t ≡ t
  unfolding separators_removed strip
  removed-kept t h =
      ap (λ x. select kept (rstrip is_space x)) (lstrip-kept t h)
      ∙ ap (select kept) (rstrip-kept t h)
      ∙ select-all_of kept t h

  all_of-removed : (t : Text) → all_of kept (separators_removed is_space is_decimal t) ≡ true
  unfolding separators_removed strip
  all_of-removed t = all_of-select kept (rstrip is_space (lstrip is_space t))

  size : (t : Text) → e164_phone is_space is_decimal t ≡ true → (9 ≤ length t) × (length t ≤ 16)
  unfolding e164_phone
  size [] h = ground arith
  size (sign ∷ []) h = ground arith
  size (sign ∷ first ∷ rest) h = ground arith

  accepted :
      (t n : Text)
      → normalize_phone is_space is_decimal t ≡ ok n
      → (e164_phone is_space is_decimal n ≡ true) × (n ≡ separators_removed is_space is_decimal t)
  unfolding normalize_phone
  accepted t n h = ground arith

  -- A number that `normalize_phone` returns has 9 to 16 characters and is its own normal form: it
  -- is returned unchanged when it is normalized again.
  pub normalize_phone-idempotent :
      (t n : Text)
      → normalize_phone is_space is_decimal t ≡ ok n
      → (normalize_phone is_space is_decimal n ≡ ok n) × (9 ≤ length n) × (length n ≤ 16)
  unfolding normalize_phone
  normalize_phone-idempotent t n h =
      let a = accepted t n h in
      let bounds = size n a.0 in
      let same : separators_removed is_space is_decimal n ≡ n =
        removed-kept n (subst (λ x. all_of kept x ≡ true) (sym a.1) (all_of-removed t)) in
      (ground arith, bounds.0, bounds.1)
