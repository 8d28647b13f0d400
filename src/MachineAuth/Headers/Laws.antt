-- ===== src/MachineAuth/Headers/Laws.antt =====
-- What an accepted timestamp, nonce and target are.
use ai_oas.Base.{
  ℕ, ◌≤◌, ◌≡◌, ◌↔◌, refl, sym, ap, subst, ◌∙◌, Bool, true, false, ◌||◌, not, [], ◌∷◌, ltb, ◌==◌,
  Text, all_of, any_of, length, if◌then◌else◌, arith,
}
use ai_oas.Errors.{Result, ok}
use ai_oas.Platform.{Platform}
use ai_oas.Identity.{seconds}
use ai_oas.MachineAuth.Path.{
  refused, canonical_path, ScopeValue, absent, other, bytes, bad_target, not_visible,
  starts_with_slash, query_of, target_of, extract_request_target,
}
use ai_oas.MachineAuth.Path.Escapes.{both_true}
use ai_oas.MachineAuth.Path.Laws.{unguarded, of_not}
use ai_oas.MachineAuth.Query.Fields.{and_then-ok, ok_value, weaker}
use ai_oas.MachineAuth.Query.{canonical_query}
use ai_oas.MachineAuth.Signing.{signing_text}
use ai_oas.MachineAuth.Signing.Lines.{without, one_line}
use ai_oas.MachineAuth.Signing.Laws.{SigningInput, is_plain, signing_text-injective}
use ai_oas.MachineAuth.Headers.{
  digit, visible, is_digits, int_from, last_second, int_max_str_digits, distance, only_value,
  validate_timestamp, validate_nonce, validate_signature, service_id_of, Request, Claimed, claimed,
}

at_most : (a b : ℕ) → ltb a b ≡ false → b ≤ a
at_most a b h = ground arith

not_below : (a b : ℕ) → b ≤ a → ltb a b ≡ false
not_below a b h = ground arith

not_of : {b : Bool} → b ≡ true → not b ≡ false
not_of {b} h = ground arith

passed : {A : Type 0} (b : Bool) (r : Result A) → b ≡ false → (if b then refused else r) ≡ r
passed b r h = ap (λ x. if x then refused else r) h

-- the tests of an accepted timestamp
pub validate_timestamp_tests :
    (value : Text) (now skew_seconds signed_at : ℕ)
    → (validate_timestamp value now skew_seconds ≡ ok signed_at) ↔ (
        (is_digits value ≡ true)
        × (length value ≤ int_max_str_digits)
        × (int_from 0 value ≤ last_second)
        × (distance signed_at now ≤ seconds skew_seconds)
        × (signed_at ≡ seconds (int_from 0 value)))
unfolding validate_timestamp
validate_timestamp_tests value now skew_seconds signed_at = (only_if, if_all)
  where
    only_if :
        validate_timestamp value now skew_seconds ≡ ok signed_at
        → (is_digits value ≡ true)
          × (length value ≤ int_max_str_digits)
          × (int_from 0 value ≤ last_second)
          × (distance signed_at now ≤ seconds skew_seconds)
          × (signed_at ≡ seconds (int_from 0 value))
    only_if h =
        let first = unguarded (not (is_digits value)) _ signed_at h in
        let short = unguarded (ltb int_max_str_digits (length value)) _ signed_at first.1 in
        let second = unguarded (ltb last_second (int_from 0 value)) _ signed_at short.1 in
        let third =
          unguarded (ltb (seconds skew_seconds) (distance (seconds (int_from 0 value)) now)) _
            signed_at second.1 in
        let same = ok_value _ signed_at third.1 in
        (
          of_not first.0,
          at_most _ _ short.0,
          at_most _ _ second.0,
          subst (λ x. distance x now ≤ seconds skew_seconds) same (at_most _ _ third.0),
          sym same,
        )

    if_all :
        (is_digits value ≡ true)
          × (length value ≤ int_max_str_digits)
          × (int_from 0 value ≤ last_second)
          × (distance signed_at now ≤ seconds skew_seconds)
          × (signed_at ≡ seconds (int_from 0 value))
        → validate_timestamp value now skew_seconds ≡ ok signed_at
    if_all h =
        passed (not (is_digits value)) _ (not_of h.0)
        ∙ passed (ltb int_max_str_digits (length value)) _ (not_below _ _ h.1)
        ∙ passed (ltb last_second (int_from 0 value)) _ (not_below _ _ h.2)
        ∙ passed (ltb (seconds skew_seconds) (distance (seconds (int_from 0 value)) now)) _
            (not_below _ _ (subst (λ x. distance x now ≤ seconds skew_seconds) h.4 h.3))
        ∙ ap ok (sym h.4)

digit-one_line : (c : ℕ) → digit c ≡ true → not (c == b'\n') ≡ true
digit-one_line c h = ground arith

visible-one_line : (c : ℕ) → visible c ≡ true → not (c == b'\n') ≡ true
visible-one_line c h = ground arith

validate_timestamp-one_line :
    (value : Text) (now skew signed_at : ℕ)
    → validate_timestamp value now skew ≡ ok signed_at
    → one_line value ≡ true
validate_timestamp-one_line value now skew signed_at h =
    weaker digit (λ c. not (c == b'\n')) digit-one_line value
      (both_true {a = not (length value == 0)}
        ((validate_timestamp_tests value now skew signed_at).0 h).0).1

chosen :
    {A : Type 0} (b : Bool) (a c : A)
    → ◌≡◌ {A = Result A} (if b then ok a else refused) (ok c)
    → (b ≡ true) × (a ≡ c)
chosen true a c h = (refl, ok_value a c h)
chosen false a c h = ground arith

validate_nonce-one_line :
    (value nonce : Text) → validate_nonce value ≡ ok nonce → one_line nonce ≡ true
unfolding validate_nonce
validate_nonce-one_line value nonce h =
    let parts = chosen _ value nonce h in
    subst (λ t. one_line t ≡ true) parts.1
      (weaker visible (λ c. not (c == b'\n')) visible-one_line value (both_true parts.0).1)

none-all :
    (f g : ℕ → Bool) (t : Text)
    → ((c : ℕ) → f c ≡ false → g c ≡ true)
    → any_of f t ≡ false
    → all_of g t ≡ true
none-all f g [] k h = refl
none-all f g (c ∷ t) k h = ground (arith, k c, none-all f g t k)

neither : (a b : Bool) → (a || b) ≡ false → (a ≡ false) × (b ≡ false)
neither a b h = (ground arith, ground arith)

shown-one_line : (c : ℕ) → not_visible c ≡ false → not (c == b'\n') ≡ true
shown-one_line c h = ground arith

no_mark : (c : ℕ) → (c == b'?') ≡ false → not (c == b'?') ≡ true
no_mark c h = ground arith

target-plain : (t : Text) → bad_target t ≡ false → (without b'?' t ≡ true) × (one_line t ≡ true)
target-plain t h =
    let parts = neither (any_of not_visible t) _ h in
    let marks = neither (any_of (λ c. c == b'?') t) _ parts.1 in
    (none-all (λ c. c == b'?') _ t no_mark marks.0, none-all not_visible _ t shown-one_line parts.0)

target_of-plain :
    (path query : ScopeValue) (target : Text × Text)
    → target_of path query ≡ ok target
    → (without b'?' target.0 ≡ true) × (one_line target.0 ≡ true)
unfolding target_of
target_of-plain absent query target h = ground arith
target_of-plain other query target h = ground arith
target_of-plain (bytes raw) query target h =
    let first = unguarded (not (starts_with_slash raw)) _ target h in
    let second = unguarded (bad_target raw) _ target first.1 in
    let third = and_then-ok (canonical_path raw) _ target second.1 in
    subst (λ t. (without b'?' t ≡ true) × (one_line t ≡ true)) (same query third.1.1)
      (target-plain raw second.0)
  where
    same : (query : ScopeValue) → query_of raw query ≡ ok target → raw ≡ target.0
    same absent k = ap (λ x. x.0) (ok_value _ target k)
    same other k = ground arith
    same (bytes q) k = ap (λ x. x.0) (ok_value _ target k)

module _ (p : Platform) where
  -- what an accepted request is signed with
  abbrev pub input_of : Request p.Bytes → Claimed → SigningInput p.Bytes
  input_of request r = record {
    method = request.method;
    raw_path = r.raw_path;
    raw_query = r.raw_query;
    timestamp = r.timestamp;
    nonce = r.nonce;
    body = request.body;
  }

  all_plain :
      (request : Request p.Bytes) (r : Claimed)
      → one_line (p.str_upper request.method) ≡ true
      → (without b'?' r.raw_path ≡ true) × (one_line r.raw_path ≡ true)
      → one_line r.timestamp ≡ true
      → one_line r.nonce ≡ true
      → is_plain p (input_of request r) ≡ true
  all_plain request r h k l m = rw (h, k.0, k.1, l, m)

  claimed-plain :
      (now skew : ℕ) (request : Request p.Bytes) (r : Claimed)
      → one_line (p.str_upper request.method) ≡ true
      → claimed now skew request ≡ ok r
      → is_plain p (input_of request r) ≡ true
  unfolding claimed extract_request_target
  claimed-plain now skew request r h e =
      let id_value = and_then-ok (only_value request.service_ids) _ r e in
      let timestamp = and_then-ok (only_value request.timestamps) _ r id_value.1.1 in
      let nonce_value = and_then-ok (only_value request.nonces) _ r timestamp.1.1 in
      let signature_value = and_then-ok (only_value request.signatures) _ r nonce_value.1.1 in
      let service_id = and_then-ok (service_id_of id_value.0) _ r signature_value.1.1 in
      let signed_at = and_then-ok (validate_timestamp timestamp.0 now skew) _ r service_id.1.1 in
      let nonce = and_then-ok (validate_nonce nonce_value.0) _ r signed_at.1.1 in
      let supplied = and_then-ok (validate_signature signature_value.0) _ r nonce.1.1 in
      let target =
        and_then-ok (target_of request.scope.raw_path request.scope.query_string) _ r
          supplied.1.1 in
      let got : Claimed = record {
        service_id = service_id.0;
        timestamp = timestamp.0;
        signed_at = signed_at.0;
        nonce = nonce.0;
        supplied_signature = supplied.0;
        raw_path = target.0.0;
        raw_query = target.0.1;
      } in
      subst (λ x. is_plain p (input_of request x) ≡ true) (ok_value got r target.1.1)
        (all_plain request got h
          (target_of-plain request.scope.raw_path request.scope.query_string target.0 target.1.0)
          (validate_timestamp-one_line timestamp.0 now skew signed_at.0 signed_at.1.0)
          (validate_nonce-one_line nonce_value.0 nonce.0 nonce.1.0))

  -- Two requests with accepted headers, whose methods have no line break, that have one signing text
  -- have the same upper-case method, canonical path, canonical query, timestamp, nonce and body
  -- digest.
  pub claimed-signing_text :
      (now later skew : ℕ) (first second : Request p.Bytes) (r q : Claimed) (text : Text)
      → one_line (p.str_upper first.method) ≡ true
      → one_line (p.str_upper second.method) ≡ true
      → claimed now skew first ≡ ok r
      → claimed later skew second ≡ ok q
      → signing_text p first.method r.raw_path r.raw_query r.timestamp r.nonce first.body ≡ ok text
      → signing_text p second.method q.raw_path q.raw_query q.timestamp q.nonce second.body
        ≡ ok text
      → (p.str_upper first.method ≡ p.str_upper second.method)
        × (canonical_path r.raw_path ≡ canonical_path q.raw_path)
        × (canonical_query r.raw_query ≡ canonical_query q.raw_query)
        × (r.timestamp ≡ q.timestamp)
        × (r.nonce ≡ q.nonce)
        × (p.sha256 first.body ≡ p.sha256 second.body)
  unfolding signing_text
  claimed-signing_text now later skew first second r q text h k e f a b =
      signing_text-injective p (input_of first r) (input_of second q) text
        (claimed-plain now skew first r h e) (claimed-plain later skew second q k f) a b
