-- ===== src/Auth/Verifier/Saying.antt =====
-- What an accepted header and accepted claims say.
use ai_oas.Base.{
  ℕ, Bool, true, false, ◌≡◌, ◌∙◌, refl, ap, String, Text, Option, none, some, [], ◌∷◌, ◌≢◌, codes,
  strip, eq_iff, if◌then◌else◌, arith,
}
use ai_oas.Json.{Json, null, bool, num, str, arr, obj, Fields, member}
use ai_oas.Auth.Verifier.{
  Jwt, Called, returned, caught, uncaught, authentication_failure, is_rs256, kid_or_failure,
  text_of, not_blank, good, bad, subject_of, header_kid,
}

module _ (j : Jwt) where
  -- The header was read, asks for RS256 and names the kid.
  pub record Asks (token : Text) (kid : String) : Type 0 where
    pub header : Fields
    pub read : j.unverified_header token ≡ returned header
    pub algorithm : member "alg" header ≡ some (str "RS256")
    pub named : member "kid" header ≡ some (str kid)

  -- The claims have a text as their subject, which is not blank; it is taken without white space
  -- around it.
  pub record Claims (is_space : ℕ → Bool) (called : Called Fields) (subject : Text) : Type 0 where
    pub claims : Fields
    pub read : called ≡ returned claims
    pub sub : String
    pub named : member "sub" claims ≡ some (str sub)
    pub stripped : strip is_space (codes sub) ≡ subject
    pub present : subject ≢ []

  is_rs256-str : (o : Option Json) → is_rs256 j o ≡ true → o ≡ some (str "RS256")
  is_rs256-str (some (str s)) h = ap (λ t. some (str t)) ((eq_iff s "RS256").0 h)
  is_rs256-str (some null) h = absurd (ground arith)
  is_rs256-str (some (bool b)) h = absurd (ground arith)
  is_rs256-str (some (num n)) h = absurd (ground arith)
  is_rs256-str (some (arr l)) h = absurd (ground arith)
  is_rs256-str (some (obj l)) h = absurd (ground arith)
  is_rs256-str none h = absurd (ground arith)

  text_of-str : (o : Option Json) (t : String) → text_of j o ≡ some t → o ≡ some (str t)
  text_of-str (some (str s)) t h = ground arith
  text_of-str (some null) t h = absurd (ground arith)
  text_of-str (some (bool b)) t h = absurd (ground arith)
  text_of-str (some (num n)) t h = absurd (ground arith)
  text_of-str (some (arr l)) t h = absurd (ground arith)
  text_of-str (some (obj l)) t h = absurd (ground arith)
  text_of-str none t h = absurd (ground arith)

  pub header_kid-Asks :
      (token : Text) (kid : String)
      → header_kid j (j.unverified_header token) ≡ good kid
      → Asks token kid
  unfolding header_kid
  header_kid-Asks token kid h = by_header (j.unverified_header token) refl h
    where
      by_kid : (o : Option String) → kid_or_failure j o ≡ good kid → o ≡ some kid
      by_kid none h1 = absurd (ground arith)
      by_kid (some k) h1 = ground arith

      by_tests :
          (header : Fields)
          → j.unverified_header token ≡ returned header
          → (b : Bool) → is_rs256 j (member "alg" header) ≡ b
          → (if b
              then kid_or_failure j (text_of j (member "kid" header))
              else bad authentication_failure)
            ≡ good kid
          → Asks token kid
      by_tests header e true a h1 = record {
        header = header;
        read = e;
        algorithm = is_rs256-str (member "alg" header) a;
        named = text_of-str (member "kid" header) kid (by_kid _ h1);
      }
      by_tests header e false a h1 = absurd (ground arith)

      by_header :
          (c : Called Fields)
          → j.unverified_header token ≡ c
          → header_kid j c ≡ good kid
          → Asks token kid
      by_header caught e h1 = absurd (ground arith)
      by_header uncaught e h1 = absurd (ground arith)
      by_header (returned header) e h1 =
          by_tests header e (is_rs256 j (member "alg" header)) refl h1

  pub subject_of-Claims :
      (is_space : ℕ → Bool) (called : Called Fields) (subject : Text)
      → subject_of j is_space called ≡ good subject
      → Claims is_space called subject
  unfolding subject_of
  subject_of-Claims is_space caught subject h = absurd (ground arith)
  subject_of-Claims is_space uncaught subject h = absurd (ground arith)
  subject_of-Claims is_space (returned claims) subject h =
      by_sub (text_of j (member "sub" claims)) refl h
    where
      by_text :
          (sub : String)
          → member "sub" claims ≡ some (str sub)
          → (t : Text) → strip is_space (codes sub) ≡ t
          → not_blank j t ≡ good subject
          → Claims is_space (returned claims) subject
      by_text sub e [] f h1 = absurd (ground arith)
      by_text sub e (c ∷ t) f h1 =
          let same : c ∷ t ≡ subject = ground arith in
          record {
            claims = claims;
            read = refl;
            sub = sub;
            named = e;
            stripped = f ∙ same;
            present = λ none_left. let e2 = same ∙ none_left in ground (arith, e2);
          }

      by_sub :
          (o : Option String)
          → text_of j (member "sub" claims) ≡ o
          → elim o [
            | none ↦ bad authentication_failure
            | some sub ↦ not_blank j (strip is_space (codes sub))
          ]
            ≡ good subject
          → Claims is_space (returned claims) subject
      by_sub none e h1 = absurd (ground arith)
      by_sub (some sub) e h1 =
          by_text sub (text_of-str (member "sub" claims) sub e) (strip is_space (codes sub)) refl h1
