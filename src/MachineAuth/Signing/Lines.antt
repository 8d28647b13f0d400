-- ===== src/MachineAuth/Signing/Lines.antt =====
-- Texts without line breaks, and the text before the first occurrence of a character.
use ai_oas.Base.{
  ==_refl, ℕ, ◌≡◌, refl, sym, ap, subst, ◌∙◌, Bool, true, ◌||◌, not, List, [], ◌∷◌, ◌++◌, map, Text,
  all_of, arith, if◌then◌else◌, ◌==◌,
}
use ai_oas.Errors.{ok}
use ai_oas.MachineAuth.Percent.{is_hex, WellEscaped, done, plain, escape}
use ai_oas.MachineAuth.Path.{upper, upper_escapes, canonical_path}
use ai_oas.MachineAuth.Path.Escapes.{upper_escapes-plain, upper_escapes-escape}
use ai_oas.MachineAuth.Path.Laws.{canonical_path-parts}
use ai_oas.MachineAuth.Utf8.{is_scalar}
use ai_oas.MachineAuth.Query.{
  canonical_query, with_query, quote, is_unreserved, quote_pair, join, query_fields, split_fields,
  sort_pairs,
}
use ai_oas.MachineAuth.Query.Quoting.{is_quoted}
use ai_oas.MachineAuth.Query.Laws.{decode_fields-scalars, sort_pairs-scalars}
use ai_oas.MachineAuth.Query.Fields.{
  and_then-ok, ok_value, weaker, quote-quoted, all_of-append, scalar_pair,
}

-- the text before the first `c`, and the text after it
abbrev cut : ℕ → Text → Text × Text
cut c [] = ([], [])
cut c (a ∷ t) = let (before, after) = cut c t in if a == c then ([], t) else (a ∷ before, after)

abbrev pub without : ℕ → Text → Bool
without c = all_of (λ a. not (a == c))

cut-append : (c : ℕ) (s t : Text) → without c s ≡ true → cut c (s ++ c ∷ t) ≡ (s, t)
cut-append c [] t h = ap (λ b. if b then ([], t) else (c ∷ (cut c t).0, (cut c t).1)) (==_refl c)
cut-append c (a ∷ s) t h = ground (arith, cut-append c s t)

cut-without : (c : ℕ) (s : Text) → without c s ≡ true → cut c s ≡ (s, [])
cut-without c [] h = refl
cut-without c (a ∷ s) h = ground (arith, cut-without c s)

pub append-parts :
    (c : ℕ) (s t u v : Text)
    → without c s ≡ true
    → without c t ≡ true
    → s ++ c ∷ u ≡ t ++ c ∷ v
    → (s ≡ t) × (u ≡ v)
append-parts c s t u v h k e =
    let pairs = sym (cut-append c s u h) ∙ ap (cut c) e ∙ cut-append c t v k in
    (ap (λ x. x.0) pairs, ap (λ x. x.1) pairs)

pub with_query-parts :
    (s t u v : Text)
    → without b'?' s ≡ true
    → without b'?' t ≡ true
    → with_query s u ≡ with_query t v
    → (s ≡ t) × (u ≡ v)
with_query-parts s t u v h k e =
    let pairs = sym (cut-with_query s u h) ∙ ap (cut b'?') e ∙ cut-with_query t v k in
    (ap (λ x. x.0) pairs, ap (λ x. x.1) pairs)
  where
    cut-with_query : (s u : Text) → without b'?' s ≡ true → cut b'?' (with_query s u) ≡ (s, u)
    cut-with_query s [] h = cut-without b'?' s h
    cut-with_query s (c ∷ u) h = cut-append b'?' s (c ∷ u) h

-- a character that a change of letter case neither removes nor adds
hex-without :
    (c a : ℕ) → (c == b'?' || c == b'\n') ≡ true → is_hex a ≡ true → not (upper a == c) ≡ true
unfolding is_hex
hex-without c a h k = ground arith

all-head :
    (f : ℕ → Bool) (a : ℕ) (t : Text) → all_of f (a ∷ t) ≡ true → (f a ≡ true) × (all_of f t ≡ true)
all-head f a t h = (ground arith, ground arith)

all-cons :
    (f : ℕ → Bool) (a : ℕ) (t : Text) → f a ≡ true → all_of f t ≡ true → all_of f (a ∷ t) ≡ true
all-cons f a t h k = ground arith

upper_escapes-without :
    (c : ℕ) {t : Text}
    → (c == b'?' || c == b'\n') ≡ true
    → WellEscaped t
    → without c t ≡ true
    → without c (upper_escapes t) ≡ true
unfolding upper_escapes
upper_escapes-without c g done h = refl
upper_escapes-without c g (plain {c = a} {rest} e w) h =
    let parts = all-head (λ x. not (x == c)) a rest h in
    subst (λ t. without c t ≡ true) (sym (upper_escapes-plain a rest e))
      (all-cons (λ x. not (x == c)) a (upper_escapes rest) parts.0
        (upper_escapes-without c g w parts.1))
upper_escapes-without c g (escape {c = d} {a} {b} {rest} e ha hb w) h =
    let f : ℕ → Bool = (λ x. not (x == c)) in
    let first = all-head f d (a ∷ b ∷ rest) h in
    let tail = all-head f b rest (all-head f a (b ∷ rest) first.1).1 in
    subst (λ t. without c t ≡ true) (sym (upper_escapes-escape d a b rest e ha hb))
      (all-cons f d (upper a ∷ upper b ∷ upper_escapes rest) first.0 (
        all-cons f (upper a) (upper b ∷ upper_escapes rest) (hex-without c a g ha) (
          all-cons f (upper b) (upper_escapes rest) (hex-without c b g hb)
            (upper_escapes-without c g w tail.1))))

pub canonical_path-without :
    (c : ℕ) (raw t : Text)
    → (c == b'?' || c == b'\n') ≡ true
    → without c raw ≡ true
    → canonical_path raw ≡ ok t
    → without c t ≡ true
canonical_path-without c raw t g h k =
    let parts = canonical_path-parts raw t k in
    subst (λ x. without c x ≡ true) (sym parts.1) (upper_escapes-without c g parts.0.0 h)

quoted-one_line : (a : ℕ) → is_quoted a ≡ true → not (a == b'\n') ≡ true
unfolding is_unreserved
quoted-one_line a h = ground arith

quote-one_line : (t : Text) → all_of is_scalar t ≡ true → without b'\n' (quote t) ≡ true
quote-one_line t h =
    weaker is_quoted (λ a. not (a == b'\n')) quoted-one_line (quote t) (quote-quoted t h)

quote_pair-one_line :
    (pair : Text × Text) → scalar_pair pair ≡ true → without b'\n' (quote_pair pair) ≡ true
unfolding quote_pair
quote_pair-one_line (key, value) h =
    all_of-append (λ a. not (a == b'\n')) (quote key) (b'=' ∷ quote value)
      (quote-one_line key (ground arith)) (quote-one_line value (ground arith))

join-one_line :
    (pairs : List (Text × Text))
    → all_of scalar_pair pairs ≡ true
    → without b'\n' (join (map quote_pair pairs)) ≡ true
unfolding join
join-one_line [] h = refl
join-one_line (p ∷ []) h = quote_pair-one_line p (ground arith)
join-one_line (p ∷ q ∷ rest) h =
    all_of-append (λ a. not (a == b'\n')) (quote_pair p) (b'&' ∷ join (map quote_pair (q ∷ rest)))
      (quote_pair-one_line p (ground arith)) (join-one_line (q ∷ rest) (ground arith))

pub canonical_query-one_line : (raw t : Text) → canonical_query raw ≡ ok t → without b'\n' t ≡ true
unfolding canonical_query query_fields
canonical_query-one_line [] t h = subst (λ x. without b'\n' x ≡ true) (ok_value [] t h) refl
canonical_query-one_line (c ∷ rest) t h =
    let fields = and_then-ok (query_fields (c ∷ rest)) _ t h in
    subst (λ x. without b'\n' x ≡ true) (ok_value _ t fields.1.1)
      (join-one_line (sort_pairs fields.0) (
        sort_pairs-scalars fields.0
          (decode_fields-scalars (split_fields (c ∷ rest)) fields.0 fields.1.0)))

pub with_query-one_line :
    (s u : Text)
    → without b'\n' s ≡ true
    → without b'\n' u ≡ true
    → without b'\n' (with_query s u) ≡ true
with_query-one_line s [] h k = h
with_query-one_line s (c ∷ u) h k = all_of-append (λ a. not (a == b'\n')) s (b'?' ∷ c ∷ u) h k

abbrev pub one_line : Text → Bool
one_line = without b'\n'
