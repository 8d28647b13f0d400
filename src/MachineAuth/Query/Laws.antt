-- ===== src/MachineAuth/Query/Laws.antt =====
-- The canonical query: one text for the same fields in any order and any spelling.
use mathlib.Core.List.{Perm}
use mathlib.Core.List.Perm
use ai_oas.Base.{
  ℕ, ◌≡◌, refl, sym, ap, subst, ◌∙◌, ◌↔◌, true, false, List, [], ◌∷◌, ◌++◌, map, Text, all_of,
  arith, Bool-cases, inl, inr,
}
use ai_oas.Errors.{Result, ok, and_then}
use ai_oas.MachineAuth.Query.{
  decode_query_component, onto_first, split_fields, partition, decode_pair, decode_fields, quote,
  quote_pair, join, query_fields, sort_pairs, insert_pair, pair_leb, canonical_query,
}
use ai_oas.MachineAuth.Query.Quoting.{decode_query_component-scalars}
use ai_oas.MachineAuth.Query.Fields.{
  scalar_pair, is_empty, query_fields-join, and_then-ok, ok_value,
}
use ai_oas.MachineAuth.Query.Sorting.{
  sort_pairs-perm, sort_pairs-Perm, insert_pair-first, insert_pair-later,
}

decode_pair-scalars :
    (field pair : Text × Text) → decode_pair field ≡ ok pair → scalar_pair pair ≡ true
unfolding decode_pair
decode_pair-scalars (key, value) (k, v) h =
    let first = and_then-ok (decode_query_component key) _ _ h in
    let second = and_then-ok (decode_query_component value) _ _ first.1.1 in
    subst (λ x. scalar_pair x ≡ true) (ok_value (first.0, second.0) (k, v) second.1.1)
      (rw (decode_query_component-scalars key first.0 first.1.0)
        (decode_query_component-scalars value second.0 second.1.0))

pub decode_fields-scalars :
    (fields : List Text) (pairs : List (Text × Text))
    → decode_fields fields ≡ ok pairs
    → all_of scalar_pair pairs ≡ true
unfolding decode_fields
decode_fields-scalars [] pairs h =
    subst (λ x. all_of scalar_pair x ≡ true) (ok_value [] pairs h) refl
decode_fields-scalars (field ∷ fields) pairs h =
    let first = and_then-ok (decode_pair (partition field)) _ _ h in
    let second = and_then-ok (decode_fields fields) _ _ first.1.1 in
    subst (λ x. all_of scalar_pair x ≡ true) (ok_value (first.0 ∷ second.0) pairs second.1.1)
      (rw (decode_pair-scalars (partition field) first.0 first.1.0)
        (decode_fields-scalars fields second.0 second.1.0))

decode_fields-filled :
    (fields : List Text) (pairs : List (Text × Text))
    → is_empty fields ≡ false
    → decode_fields fields ≡ ok pairs
    → is_empty pairs ≡ false
unfolding decode_fields
decode_fields-filled [] pairs e h = ground arith
decode_fields-filled (field ∷ fields) pairs e h =
    let first = and_then-ok (decode_pair (partition field)) _ _ h in
    let second = and_then-ok (decode_fields fields) _ _ first.1.1 in
    subst (λ x. is_empty x ≡ false) (ok_value (first.0 ∷ second.0) pairs second.1.1) refl

onto_first-filled : (c : ℕ) (fields : List Text) → is_empty (onto_first c fields) ≡ false
onto_first-filled c [] = refl
onto_first-filled c (field ∷ fields) = refl

split_fields-filled : (t : Text) → is_empty (split_fields t) ≡ false
unfolding split_fields
split_fields-filled [] = refl
split_fields-filled (c ∷ t) = ground (arith, onto_first-filled c (split_fields t))

insert_pair-filled : (p : Text × Text) (l : List (Text × Text)) → is_empty (insert_pair p l) ≡ false
unfolding insert_pair
insert_pair-filled p [] = refl
insert_pair-filled p (q ∷ l) = ground arith

sort_pairs-filled : (l : List (Text × Text)) → is_empty l ≡ false → is_empty (sort_pairs l) ≡ false
unfolding sort_pairs
sort_pairs-filled [] h = h
sort_pairs-filled (p ∷ l) h = insert_pair-filled p (sort_pairs l)

all_of-cons :
    (p : Text × Text) (l : List (Text × Text))
    → scalar_pair p ≡ true
    → all_of scalar_pair l ≡ true
    → all_of scalar_pair (p ∷ l) ≡ true
all_of-cons p l h k = rw (h, k)

insert_pair-scalars :
    (p : Text × Text) (l : List (Text × Text))
    → scalar_pair p ≡ true
    → all_of scalar_pair l ≡ true
    → all_of scalar_pair (insert_pair p l) ≡ true
unfolding insert_pair
insert_pair-scalars p [] h k = rw h
insert_pair-scalars p (q ∷ l) h k = elim (Bool-cases (pair_leb p q)) [
  | inl e ↦ rw (insert_pair-first p q l e) (rw (h, k))
  | inr e ↦
      rw (insert_pair-later p q l e)
        (all_of-cons q (insert_pair p l) (ground arith) (insert_pair-scalars p l h (ground arith)))
]

pub sort_pairs-scalars :
    (l : List (Text × Text))
    → all_of scalar_pair l ≡ true
    → all_of scalar_pair (sort_pairs l) ≡ true
unfolding sort_pairs
sort_pairs-scalars [] h = refl
sort_pairs-scalars (p ∷ l) h =
    insert_pair-scalars p (sort_pairs l) (ground arith) (sort_pairs-scalars l (ground arith))

-- What the fields of an accepted query are.
sorted-IsWritten :
    (raw : Text) (pairs : List (Text × Text))
    → query_fields raw ≡ ok pairs
    → query_fields (join (map quote_pair (sort_pairs pairs))) ≡ ok (sort_pairs pairs)
unfolding query_fields
sorted-IsWritten raw pairs h =
    query_fields-join (sort_pairs pairs)
      (sort_pairs-filled pairs
        (decode_fields-filled (split_fields raw) pairs (split_fields-filled raw) h))
      (sort_pairs-scalars pairs (decode_fields-scalars (split_fields raw) pairs h))

append-filled : (s t : Text) (c : ℕ) → is_empty (s ++ c ∷ t) ≡ false
append-filled [] t c = refl
append-filled (a ∷ s) t c = refl

join-filled :
    (pairs : List (Text × Text))
    → is_empty pairs ≡ false
    → is_empty (join (map quote_pair pairs)) ≡ false
unfolding join quote_pair
join-filled [] h = ground arith
join-filled ((k, v) ∷ []) h = append-filled (quote k) (quote v) _
join-filled ((k, v) ∷ q ∷ rest) h = append-filled (quote_pair (k, v)) _ _

abbrev written : Result (List (Text × Text)) → Result Text
unfolding sort_pairs quote_pair join
written fields = and_then fields (λ pairs. ok (join (map quote_pair (sort_pairs pairs))))

canonical_query-written :
    (raw : Text) → is_empty raw ≡ false → canonical_query raw ≡ written (query_fields raw)
unfolding canonical_query written
canonical_query-written [] h = ground arith
canonical_query-written (c ∷ rest) h = refl

-- Two queries that are not empty and whose fields are decoded have one canonical form exactly when
-- their decoded fields are the same up to order.
pub canonical_query-Perm :
    (c d : ℕ) (r s : Text) (ps qs : List (Text × Text))
    → query_fields (c ∷ r) ≡ ok ps
    → query_fields (d ∷ s) ≡ ok qs
    → (canonical_query (c ∷ r) ≡ canonical_query (d ∷ s)) ↔ Perm ps qs
unfolding canonical_query written
canonical_query-Perm c d r s ps qs h k = (
  λ e.
      let texts = ok_value _ _ (sym (ap written h) ∙ e ∙ ap written k) in
      let sorted = ok_value _ _ (
        sym (sorted-IsWritten (c ∷ r) ps h)
        ∙ ap query_fields texts
        ∙ sorted-IsWritten (d ∷ s) qs k) in
      Perm.trans (Perm.symm (sort_pairs-Perm ps))
        (subst (λ x. Perm x qs) (sym sorted) (sort_pairs-Perm qs)),
  λ m.
      ap written h
      ∙ ap (λ x. ok (join (map quote_pair x))) (sort_pairs-perm m)
      ∙ sym (ap written k),
)

-- A canonical query is its own canonical form.
pub canonical_query-idempotent :
    (raw text : Text) → canonical_query raw ≡ ok text → canonical_query text ≡ ok text
unfolding canonical_query written
canonical_query-idempotent [] text h =
    subst (λ x. canonical_query x ≡ ok x) (ok_value [] text h) refl
canonical_query-idempotent (c ∷ rest) text h =
    let fields = and_then-ok (query_fields (c ∷ rest)) _ text h in
    let pairs = fields.0 in
    let filled = sort_pairs-filled pairs (
      decode_fields-filled (split_fields (c ∷ rest)) pairs (split_fields-filled (c ∷ rest))
        fields.1.0) in
    subst (λ x. canonical_query x ≡ ok x) (ok_value _ text fields.1.1)
      (canonical_query-written (join (map quote_pair (sort_pairs pairs)))
          (join-filled (sort_pairs pairs) filled)
        ∙ ap written (sorted-IsWritten (c ∷ rest) pairs fields.1.0)
        ∙ ap (λ x. ok (join (map quote_pair x))) (sort_pairs-perm (sort_pairs-Perm pairs)))
