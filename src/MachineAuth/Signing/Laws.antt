-- ===== src/MachineAuth/Signing/Laws.antt =====
-- The parts of a request that its signing text fixes.
use ai_oas.Base.{◌≡◌, refl, sym, ap, ◌∙◌, Bool, true, ◌&&◌, Text}
use ai_oas.Errors.{Result, ok}
use ai_oas.Platform.{Platform}
use ai_oas.MachineAuth.Path.{canonical_path}
use ai_oas.MachineAuth.Path.Escapes.{both_true}
use ai_oas.MachineAuth.Query.{canonical_query, with_query, canonical_path_and_query}
use ai_oas.MachineAuth.Query.Fields.{and_then-ok, ok_value}
use ai_oas.MachineAuth.Signing.{lines, signing_text}
use ai_oas.MachineAuth.Signing.Lines.{
  without, one_line, append-parts, with_query-parts, canonical_path-without,
  canonical_query-one_line, with_query-one_line,
}

-- What a request is signed with.
pub record SigningInput (B : Type 0) : Type 0 where
  pub method : Text
  pub raw_path : Text
  pub raw_query : Text
  pub timestamp : Text
  pub nonce : Text
  pub body : B

module _ (p : Platform) where
  abbrev pub text_of : SigningInput p.Bytes → Result Text
  unfolding signing_text
  text_of r = signing_text p r.method r.raw_path r.raw_query r.timestamp r.nonce r.body

  -- The method, the timestamp and the nonce have no line break, and the path neither one nor `?`.
  abbrev pub is_plain : SigningInput p.Bytes → Bool
  is_plain r =
      one_line (p.str_upper r.method)
      && (without b'?' r.raw_path
          && (one_line r.raw_path && (one_line r.timestamp && one_line r.nonce)))

  -- the parts that a signing text was written from
  record Parts (r : SigningInput p.Bytes) (text : Text) : Type 0 where
    path : Text
    query : Text
    accepted_path : canonical_path r.raw_path ≡ ok path
    accepted_query : canonical_query r.raw_query ≡ ok query
    whole :
        lines (p.str_upper r.method) (with_query path query) r.timestamp r.nonce (p.sha256 r.body)
        ≡ text

  text_of-Parts : (r : SigningInput p.Bytes) (text : Text) → text_of r ≡ ok text → Parts r text
  unfolding signing_text canonical_path_and_query
  text_of-Parts r text h =
      let target = and_then-ok (canonical_path_and_query r.raw_path r.raw_query) _ text h in
      let path = and_then-ok (canonical_path r.raw_path) _ target.0 target.1.0 in
      let query = and_then-ok (canonical_query r.raw_query) _ target.0 path.1.1 in
      record {
        path = path.0;
        query = query.0;
        accepted_path = path.1.0;
        accepted_query = query.1.0;
        whole =
            ap (λ x. lines (p.str_upper r.method) x r.timestamp r.nonce (p.sha256 r.body))
              (ok_value _ _ query.1.1)
            ∙ ok_value _ text target.1.1;
      }

  is_plain-parts :
      (r : SigningInput p.Bytes)
      → is_plain r ≡ true
      → (one_line (p.str_upper r.method) ≡ true)
        × (without b'?' r.raw_path ≡ true)
        × (one_line r.raw_path ≡ true)
        × (one_line r.timestamp ≡ true)
        × (one_line r.nonce ≡ true)
  is_plain-parts r h =
      let a = both_true h in
      let b = both_true a.1 in
      let c = both_true b.1 in let d = both_true c.1 in (a.0, b.0, c.0, d.0, d.1)

  target-one_line :
      (r : SigningInput p.Bytes) (text : Text) (parts : Parts r text)
      → is_plain r ≡ true
      → one_line (with_query parts.path parts.query) ≡ true
  target-one_line r text parts h =
      with_query-one_line parts.path parts.query
        (canonical_path-without b'\n' r.raw_path parts.path refl (is_plain-parts r h).2
          parts.accepted_path)
        (canonical_query-one_line r.raw_query parts.query parts.accepted_query)

  -- Two accepted requests without line breaks that have one signing text have the same upper-case
  -- method, canonical path, canonical query, timestamp, nonce and body digest.
  pub signing_text-injective :
      (r s : SigningInput p.Bytes) (text : Text)
      → is_plain r ≡ true
      → is_plain s ≡ true
      → text_of r ≡ ok text
      → text_of s ≡ ok text
      → (p.str_upper r.method ≡ p.str_upper s.method)
        × (canonical_path r.raw_path ≡ canonical_path s.raw_path)
        × (canonical_query r.raw_query ≡ canonical_query s.raw_query)
        × (r.timestamp ≡ s.timestamp)
        × (r.nonce ≡ s.nonce)
        × (p.sha256 r.body ≡ p.sha256 s.body)
  signing_text-injective r s text h k e f =
      let a = text_of-Parts r text e in
      let b = text_of-Parts s text f in
      let u = is_plain-parts r h in
      let v = is_plain-parts s k in
      let first = append-parts b'\n' _ _ _ _ u.0 v.0 (a.whole ∙ sym b.whole) in
      let second =
        append-parts b'\n' _ _ _ _ (target-one_line r text a h) (target-one_line s text b k)
          first.1 in
      let third = append-parts b'\n' _ _ _ _ u.3 v.3 second.1 in
      let fourth = append-parts b'\n' _ _ _ _ u.4 v.4 third.1 in
      let targets =
        with_query-parts a.path b.path a.query b.query
          (canonical_path-without b'?' r.raw_path a.path refl u.1 a.accepted_path)
          (canonical_path-without b'?' s.raw_path b.path refl v.1 b.accepted_path) second.0 in
      (
        first.0,
        a.accepted_path ∙ ap ok targets.0 ∙ sym b.accepted_path,
        a.accepted_query ∙ ap ok targets.1 ∙ sym b.accepted_query,
        third.0,
        fourth.0,
        fourth.1,
      )
