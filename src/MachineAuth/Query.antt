-- ===== src/MachineAuth/Query.antt =====
-- machine_auth/canonicalization.py: `_decode_query_component`, `canonical_query` and
-- `canonical_path_and_query`.
pub mod Quoting
pub mod Fields
pub mod Sorting
pub mod Laws
use ai_oas.Base.{
  ℕ, ◌+◌, ◌-◌, ◌*◌, ◌/◌, ◌%◌, Bool, true, false, ◌&&◌, ◌||◌, not, Option, none, some, List, [], ◌∷◌,
  ◌++◌, map, leb, ltb, ◌==◌, Text, text_eq, if◌then◌else◌,
}
use ai_oas.Errors.{Result, ok, err, and_then}
use ai_oas.MachineAuth.Percent.{is_hex, percent_ok}
use ai_oas.MachineAuth.Path.{refused, canonical_path}
use ai_oas.MachineAuth.Utf8.{encode_utf8, decode_utf8}

-- `int(digit, 16)`
abbrev pub hex_value : ℕ → ℕ
hex_value c = if leb c b'9' then c - 48 else if leb c b'F' then c - 55 else c - 87

abbrev pub plus_to_space : ℕ → ℕ
plus_to_space c = if c == b'+' then 32 else c

-- The loop of `_decode_query_component`. A text that `percent_ok` accepts has no escape that is
-- cut short.
unfoldable pub unescape : Text → Text
unescape [] = []
unescape (c ∷ []) = plus_to_space c ∷ []
unescape (c ∷ a ∷ []) = plus_to_space c ∷ plus_to_space a ∷ []
unescape (c ∷ a ∷ b ∷ rest) = elim (c == b'%') [
  | true ↦ (hex_value a * 16 + hex_value b) ∷ unescape rest
  | false ↦ plus_to_space c ∷ unescape (a ∷ b ∷ rest)
]

abbrev pub decoded : Option Text → Result Text
decoded none = refused
decoded (some t) = ok t

unfoldable pub decode_query_component : Text → Result Text
unfolding percent_ok unescape decode_utf8
decode_query_component value =
    if not (percent_ok value) then refused else decoded (decode_utf8 (unescape value))

abbrev pub onto_first : ℕ → List Text → List Text
onto_first c [] = (c ∷ []) ∷ []
onto_first c (field ∷ fields) = (c ∷ field) ∷ fields

-- `raw_query.split(b"&")`
unfoldable pub split_fields : Text → List Text
split_fields [] = [] ∷ []
split_fields (c ∷ rest) =
    let fields = split_fields rest in if c == b'&' then [] ∷ fields else onto_first c fields

-- `field.partition(b"=")`, without the separator
unfoldable pub partition : Text → Text × Text
partition [] = ([], [])
partition (c ∷ rest) =
    let (key, value) = partition rest in if c == b'=' then ([], rest) else (c ∷ key, value)

unfoldable pub decode_pair : Text × Text → Result (Text × Text)
unfolding decode_query_component
decode_pair (key, value) =
    and_then (decode_query_component key)
      (λ k. and_then (decode_query_component value) (λ v. ok (k, v)))

unfoldable pub decode_fields : List Text → Result (List (Text × Text))
unfolding decode_pair partition
decode_fields [] = ok []
decode_fields (field ∷ fields) =
    and_then (decode_pair (partition field))
      (λ pair. and_then (decode_fields fields) (λ pairs. ok (pair ∷ pairs)))

-- `<=` of two str
unfoldable pub text_leb : Text → Text → Bool
text_leb [] t = true
text_leb (a ∷ s) [] = false
text_leb (a ∷ s) (b ∷ t) = ltb a b || a == b && text_leb s t

-- `<=` of two tuples of str
unfoldable pub pair_leb : Text × Text → Text × Text → Bool
unfolding text_leb
pair_leb (k, v) (l, w) = if text_eq k l then text_leb v w else text_leb k l

unfoldable pub insert_pair : Text × Text → List (Text × Text) → List (Text × Text)
unfolding pair_leb
insert_pair p [] = p ∷ []
insert_pair p (q ∷ rest) = elim (pair_leb p q) [
  | true ↦ p ∷ q ∷ rest
  | false ↦ q ∷ insert_pair p rest
]

-- `pairs.sort()`: the order is total on different pairs, so one result only is sorted
unfoldable pub sort_pairs : List (Text × Text) → List (Text × Text)
unfolding insert_pair
sort_pairs [] = []
sort_pairs (p ∷ rest) = insert_pair p (sort_pairs rest)

-- what `quote` leaves as it is: letters, digits and `_.-~`
unfoldable pub is_unreserved : ℕ → Bool
is_unreserved c =
    leb b'0' c && leb c b'9'
    || (leb b'A' c && leb c b'Z'
        || (leb b'a' c && leb c b'z' || (c == b'_' || (c == b'.' || (c == b'-' || c == b'~')))))

abbrev pub hex_digit : ℕ → ℕ
hex_digit n = if ltb n 10 then n + 48 else n + 55

unfoldable pub quote_bytes : Text → Text
unfolding is_unreserved
quote_bytes [] = []
quote_bytes (b ∷ rest) =
    let tail = quote_bytes rest in
    if is_unreserved b then b ∷ tail else b'%' ∷ hex_digit (b / 16) ∷ hex_digit (b % 16) ∷ tail

-- `quote(text, safe="-._~")`
unfoldable pub quote : Text → Text
unfolding quote_bytes encode_utf8
quote text = quote_bytes (encode_utf8 text)

unfoldable pub quote_pair : Text × Text → Text
unfolding quote
quote_pair (key, value) = quote key ++ b'=' ∷ quote value

-- `"&".join(fields)`
unfoldable pub join : List Text → Text
join [] = []
join (field ∷ []) = field
join (field ∷ next ∷ rest) = field ++ b'&' ∷ join (next ∷ rest)

-- The fields of a query that is not empty.
unfoldable pub query_fields : Text → Result (List (Text × Text))
unfolding decode_fields split_fields
query_fields raw_query = decode_fields (split_fields raw_query)

unfoldable pub canonical_query : Text → Result Text
unfolding query_fields sort_pairs quote_pair join
canonical_query [] = ok []
canonical_query (c ∷ rest) =
    and_then (query_fields (c ∷ rest)) (λ pairs. ok (join (map quote_pair (sort_pairs pairs))))

abbrev pub with_query : Text → Text → Text
with_query path [] = path
with_query path (c ∷ rest) = path ++ b'?' ∷ c ∷ rest

unfoldable pub canonical_path_and_query : Text → Text → Result Text
unfolding canonical_path canonical_query
canonical_path_and_query raw_path raw_query =
    and_then (canonical_path raw_path)
      (λ path. and_then (canonical_query raw_query) (λ query. ok (with_query path query)))
