-- ===== src/MachineAuth/Query/Fields.antt =====
-- Splitting a query into fields, and joining them again.
use ai_oas.Base.{
  ℕ, ◌≡◌, refl, ap, ◌∙◌, Bool, true, false, ◌&&◌, not, List, [], ◌∷◌, ◌++◌, map, ◌==◌, Text, all_of,
  arith,
}
use ai_oas.Errors.{Result, ok, err, and_then}
use ai_oas.MachineAuth.Utf8.{is_scalar, encode_utf8}
use ai_oas.MachineAuth.Utf8.Scalars.{encode_utf8-bytes}
use ai_oas.MachineAuth.Query.{
  split_fields, partition, decode_pair, decode_fields, is_unreserved, quote, quote_pair, join,
  query_fields,
}
use ai_oas.MachineAuth.Query.Quoting.{is_quoted, quote_bytes-quoted, decode-quote}

abbrev pub scalar_pair : Text × Text → Bool
scalar_pair (key, value) = all_of is_scalar key && all_of is_scalar value

abbrev no_separator : ℕ → Bool
no_separator c = not (c == b'&')

abbrev no_equals : ℕ → Bool
no_equals c = not (c == b'=')

abbrev pub is_empty : {A : Type 0} → List A → Bool
is_empty [] = true
is_empty (x ∷ xs) = false

pub weaker :
    (p q : ℕ → Bool)
    → ((c : ℕ) → p c ≡ true → q c ≡ true)
    → (t : Text) → all_of p t ≡ true
    → all_of q t ≡ true
weaker p q f [] h = refl
weaker p q f (c ∷ t) h = ground (arith, f c, weaker p q f t)

quoted-no_separator : (c : ℕ) → is_quoted c ≡ true → no_separator c ≡ true
unfolding is_unreserved
quoted-no_separator c h = ground arith

quoted-no_equals : (c : ℕ) → is_quoted c ≡ true → no_equals c ≡ true
unfolding is_unreserved
quoted-no_equals c h = ground arith

pub quote-quoted : (t : Text) → all_of is_scalar t ≡ true → all_of is_quoted (quote t) ≡ true
unfolding quote
quote-quoted t h = quote_bytes-quoted (encode_utf8 t) (encode_utf8-bytes t h)

pub all_of-append :
    (p : ℕ → Bool) (s t : Text) → all_of p s ≡ true → all_of p t ≡ true → all_of p (s ++ t) ≡ true
all_of-append p [] t h k = k
all_of-append p (c ∷ s) t h k = ground (arith, all_of-append p s t)

quote_pair-no_separator :
    (pair : Text × Text) → scalar_pair pair ≡ true → all_of no_separator (quote_pair pair) ≡ true
unfolding quote_pair
quote_pair-no_separator (key, value) h =
    all_of-append no_separator (quote key) (b'=' ∷ quote value)
      (weaker is_quoted no_separator quoted-no_separator (quote key)
        (quote-quoted key (ground arith)))
      (weaker is_quoted no_separator quoted-no_separator (quote value)
        (quote-quoted value (ground arith)))

split_fields-last : (t : Text) → all_of no_separator t ≡ true → split_fields t ≡ t ∷ []
unfolding split_fields
split_fields-last [] h = refl
split_fields-last (c ∷ t) h = ground (arith, split_fields-last t)

split_fields-append :
    (t rest : Text)
    → all_of no_separator t ≡ true
    → split_fields (t ++ b'&' ∷ rest) ≡ t ∷ split_fields rest
unfolding split_fields
split_fields-append [] rest h = refl
split_fields-append (c ∷ t) rest h = ground (arith, split_fields-append t rest)

partition-append : (k v : Text) → all_of no_equals k ≡ true → partition (k ++ b'=' ∷ v) ≡ (k, v)
unfolding partition
partition-append [] v h = refl
partition-append (c ∷ k) v h = ground (arith, partition-append k v)

pub split_fields-join :
    (pair : Text × Text) (pairs : List (Text × Text))
    → all_of scalar_pair (pair ∷ pairs) ≡ true
    → split_fields (join (map quote_pair (pair ∷ pairs))) ≡ map quote_pair (pair ∷ pairs)
unfolding join
split_fields-join p [] h =
    split_fields-last (quote_pair p) (quote_pair-no_separator p (ground arith))
split_fields-join p (q ∷ rest) h =
    split_fields-append (quote_pair p) _ (quote_pair-no_separator p (ground arith))
    ∙ ap (λ fs. quote_pair p ∷ fs) (split_fields-join q rest (ground arith))

decode_pair-quote_pair :
    (pair : Text × Text)
    → scalar_pair pair ≡ true
    → decode_pair (partition (quote_pair pair)) ≡ ok pair
unfolding quote_pair decode_pair
decode_pair-quote_pair (key, value) h =
    rw
      (partition-append (quote key) (quote value)
        (weaker is_quoted no_equals quoted-no_equals (quote key) (quote-quoted key (ground arith))))
      (rw (decode-quote key (ground arith), decode-quote value (ground arith)))

decode_fields-quote_pair :
    (pairs : List (Text × Text))
    → all_of scalar_pair pairs ≡ true
    → decode_fields (map quote_pair pairs) ≡ ok pairs
unfolding decode_fields
decode_fields-quote_pair [] h = refl
decode_fields-quote_pair (p ∷ rest) h =
    rw (decode_pair-quote_pair p (ground arith), decode_fields-quote_pair rest (ground arith))

-- The fields of a query that was written from pairs are those pairs.
pub query_fields-join :
    (pairs : List (Text × Text))
    → is_empty pairs ≡ false
    → all_of scalar_pair pairs ≡ true
    → query_fields (join (map quote_pair pairs)) ≡ ok pairs
unfolding query_fields
query_fields-join [] e h = ground arith
query_fields-join (p ∷ rest) e h =
    ap decode_fields (split_fields-join p rest h) ∙ decode_fields-quote_pair (p ∷ rest) h

pub and_then-ok :
    {A B : Type 0} (r : Result A) (f : A → Result B) (b : B)
    → and_then r f ≡ ok b
    → (a : A) × ((r ≡ ok a) × (f a ≡ ok b))
and_then-ok (ok a) f b h = (a, (refl, h))
and_then-ok (err e) f b h = ground arith

abbrev value_or : {A : Type 0} → A → Result A → A
value_or d (ok x) = x
value_or d (err e) = d

pub ok_value : {A : Type 0} (a b : A) → ◌≡◌ {A = Result A} (ok a) (ok b) → a ≡ b
ok_value a b h = ap (value_or a) h
