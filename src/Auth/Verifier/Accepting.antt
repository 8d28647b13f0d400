-- ===== src/Auth/Verifier/Accepting.antt =====
-- What an accepted token rests on, and what a call of `verify` does to the cache.
use ai_oas.Base.{
  ℕ, Bool, true, false, ◌+◌, ◌*◌, ◌≤◌, ◌<◌, ◌≡◌, ◌∙◌, refl, sym, ap, inl, inr, String, Text, Option,
  none, some, List, [], ◌∷◌, length, arith,
}
use ai_oas.Json.{Json, Items}
use ai_oas.Auth.Verifier.{
  Jwt, returned, Verified, good, bad, VerifierState, new_verifier, find_key, get_key, document_keys,
  key_items, keys_of_items, load, decoded, subject_of, claims_of, verify, header_kid, with_kid,
  with_first, with_key,
}
use ai_oas.Auth.Verifier.Laws.{
  Cached, unloaded, loaded, Recent, Looked, find_key-Looked, Published, get_key-Published,
}
use ai_oas.Auth.Verifier.Saying.{Asks, header_kid-Asks, Claims, subject_of-Claims}

module _ (j : Jwt) where
  -- a document that was fetched, with the items of its keys
  pub record Fetched (loads : ℕ) (items : Items) : Type 0 where
    pub number : ℕ
    pub before : number < loads
    pub document : Json
    pub fetched : load j (j.fetch number) ≡ some document
    pub listed : key_items j document ≡ some items

  pub record Known (kid : String) (key : j.Key) (t : VerifierState j) : Type 0 where
    pub items : Items
    pub fetched : Fetched t.loads items
    pub published : Published j kid key items

  -- A key that is found was published in a document that the loader gave.
  get_key-Known :
      (kid : String) (key : j.Key) (t : VerifierState j)
      → Cached j t
      → some key ≡ get_key j kid t.keys
      → Known kid key t
  unfolding get_key document_keys keys_of_items
  get_key-Known kid key t (unloaded e) h = absurd (no_key t.keys e h)
    where
      no_key : (l : List (String × j.Key)) → l ≡ [] → some key ≡ get_key j kid l → ⊥
      no_key [] e1 h1 = ground arith
      no_key (x ∷ l) e1 h1 = ground arith
  get_key-Known kid key t (loaded n before e) h = by_document (load j (j.fetch n)) refl e
    where
      by_items :
          (document : Json) (o : Option Items)
          → load j (j.fetch n) ≡ some document
          → key_items j document ≡ o
          → keys_of_items j o ≡ returned t.keys
          → Known kid key t
      by_items document none e1 e2 e3 = absurd (ground arith)
      by_items document (some items) e1 e2 e3 =
          elim (get_key-Published j kid key items [] t.keys e3 (sym h)) [
            | inl found ↦ record {
              items = items;
              fetched = record {
                number = n;
                before = before;
                document = document;
                fetched = e1;
                listed = e2;
              };
              published = found;
            }
            | inr old ↦ absurd (ground arith)
          ]

      by_document :
          (o : Option Json)
          → load j (j.fetch n) ≡ o
          → document_keys j o ≡ returned t.keys
          → Known kid key t
      by_document none e1 e2 = absurd (ground arith)
      by_document (some document) e1 e2 = by_items document (key_items j document) e1 refl e2

  module _ (is_space : ℕ → Bool) (issuer : Text) (audience : String) (cache_seconds : ℕ) where
    -- What an accepted token rests on: a key of its kid that a fetched document lists, that is recent, and
    -- under which its claims are accepted.
    pub record Accepted (token subject : Text) (st t : VerifierState j) : Type 0 where
      pub kid : String
      pub key : j.Key
      pub header : Asks j token kid
      pub known : Known kid key t
      pub recent : Recent j cache_seconds st t
      pub claims :
          Claims j is_space
            (claims_of j is_space issuer audience cache_seconds st.decodes token key)
            subject

    -- What a call of `verify` leaves, and what a subject that it gives rests on.
    pub record Verifies (token : Text) (st : VerifierState j) (r : Verified Text × VerifierState j)
        : Type 0 where
      pub cached : Cached j r.1
      pub few : r.1.loads ≤ st.loads + 2
      pub once : r.1.decodes ≤ st.decodes + 1
      pub accepted : (subject : Text) → r.0 ≡ good subject → Accepted token subject st r.1

    decoded-Verifies :
        (token : Text) (kid : String) (key : j.Key) (st t : VerifierState j)
        → header_kid j (j.unverified_header token) ≡ good kid
        → Cached j t
        → t.loads ≤ st.loads + 2
        → t.decodes ≡ st.decodes
        → some key ≡ get_key j kid t.keys
        → Recent j cache_seconds st t
        → Verifies token st (decoded j is_space issuer audience cache_seconds token key t)
    unfolding decoded
    decoded-Verifies token kid key st t header cached few same found recent = record {
      cached = cached_next t cached;
      few = few;
      once = omega arith;
      accepted = λ subject e. record {
        kid = kid;
        key = key;
        header = header_kid-Asks j token kid header;
        known = known_next (get_key-Known kid key t cached found);
        recent = recent;
        claims = subject_of-Claims j is_space _ subject (
            ap
              (λ n.
                subject_of j is_space
                  (claims_of j is_space issuer audience cache_seconds n token key))
              (sym same)
            ∙ e);
      };
    }
      where
        known_next : Known kid key t → Known kid key (record t { decodes = t.decodes + 1 })
        known_next k = record { items = k.items; fetched = k.fetched; published = k.published }

        cached_next :
            (v : VerifierState j) → Cached j v → Cached j (record v { decodes = v.decodes + 1 })
        cached_next v (unloaded e) = unloaded e
        cached_next v (loaded n before e) = loaded n before e

    -- a call that ends without a subject
    refused-Verifies :
        (token : Text) (st : VerifierState j) (r : Verified Text × VerifierState j)
        → Cached j r.1
        → r.1.loads ≤ st.loads + 2
        → r.1.decodes ≡ st.decodes
        → ((subject : Text) → r.0 ≡ good subject → ⊥)
        → Verifies token st r
    refused-Verifies token st r cached few same never = record {
      cached = cached;
      few = few;
      once = omega arith;
      accepted = λ subject e. absurd (never subject e);
    }

    with_key-Verifies :
        (token : Text) (kid : String) (st u : VerifierState j)
        → header_kid j (j.unverified_header token) ≡ good kid
        → st.loads ≤ u.loads
        → u.loads ≤ st.loads + 1
        → u.decodes ≡ st.decodes
        → (r : Verified (Option j.Key) × VerifierState j) → Looked j cache_seconds kid true u r
        → Verifies token st (with_key j is_space issuer audience cache_seconds token r)
    with_key-Verifies token kid st u header more few same (good (some key), t) l =
        let forced = l.forced (some key) refl refl in
        let few' = l.few in
        decoded-Verifies token kid key st t header l.cached (omega arith) (l.decodes ∙ same)
          (l.found (some key) refl) (inr (omega arith))
    with_key-Verifies token kid st u header more few same (good none, t) l =
        let few' = l.few in
        refused-Verifies token st _ l.cached (omega arith) (l.decodes ∙ same) (λ x e. ground arith)
    with_key-Verifies token kid st u header more few same (bad x, t) l =
        let few' = l.few in
        refused-Verifies token st _ l.cached (omega arith) (l.decodes ∙ same) (λ x e. ground arith)

    with_first-Verifies :
        (token : Text) (kid : String) (st : VerifierState j)
        → header_kid j (j.unverified_header token) ≡ good kid
        → (r : Verified (Option j.Key) × VerifierState j) → Looked j cache_seconds kid false st r
        → Verifies token st (with_first j is_space issuer audience cache_seconds token kid r)
    with_first-Verifies token kid st header (good (some key), t) l =
        let few' = l.few in
        decoded-Verifies token kid key st t header l.cached (omega arith) l.decodes
          (l.found (some key) refl) (l.recent (some key) refl)
    with_first-Verifies token kid st header (good none, t) l =
        with_key-Verifies token kid st t header l.more l.few l.decodes
          (find_key j cache_seconds kid true t)
          (find_key-Looked j cache_seconds kid true t l.cached)
    with_first-Verifies token kid st header (bad x, t) l =
        let few' = l.few in
        refused-Verifies token st _ l.cached (omega arith) l.decodes (λ x e. ground arith)

    verify-Verifies :
        (token : Text) (st : VerifierState j)
        → Cached j st
        → Verifies token st (verify j is_space issuer audience cache_seconds token st)
    unfolding verify
    verify-Verifies token st h = by_header (header_kid j (j.unverified_header token)) refl
      where
        by_header :
            (o : Verified String)
            → header_kid j (j.unverified_header token) ≡ o
            → Verifies token st (with_kid j is_space issuer audience cache_seconds token o st)
        by_header (bad x) e = refused-Verifies token st _ h (omega arith) refl (λ x e. ground arith)
        by_header (good kid) e =
            with_first-Verifies token kid st e (find_key j cache_seconds kid false st)
              (find_key-Looked j cache_seconds kid false st h)

    -- A token is accepted only if its header asks for RS256 and names a kid, a fetched document lists
    -- a key of that kid, this key is younger than the cache time or was loaded in the call, and the
    -- claims that `jwt.decode` accepts under it have a subject that is not blank, which is returned
    -- without white space around it. The cache must hold the keys of a fetched document, or none.
    pub verify-Accepted :
        (token subject : Text) (st : VerifierState j)
        → Cached j st
        → (verify j is_space issuer audience cache_seconds token st).0 ≡ good subject
        → Accepted token subject st (verify j is_space issuer audience cache_seconds token st).1
    verify-Accepted token subject st h = (verify-Verifies token st h).accepted subject

    -- the calls of `verify` for the tokens of a list, one after the other
    unfoldable pub verified_all : List Text → VerifierState j → VerifierState j
    unfolding verify
    verified_all [] st = st
    verified_all (token ∷ rest) st =
        verified_all rest (verify j is_space issuer audience cache_seconds token st).1

    calls-Cached :
        (tokens : List Text) (st : VerifierState j)
        → Cached j st
        → Cached j (verified_all tokens st)
          × ((verified_all tokens st).loads ≤ st.loads + 2 * length tokens)
    unfolding verified_all
    calls-Cached [] st h = (h, omega arith)
    calls-Cached (token ∷ rest) st h =
        let v = verify-Verifies token st h in
        let few = v.few in
        let deep =
          calls-Cached rest (verify j is_space issuer audience cache_seconds token st).1 v.cached in
        (deep.0, omega arith)

    -- Whatever tokens a new verifier was given, accepted or refused, and whatever loads failed, it
    -- holds the keys of one document that it has fetched, or none, and it has called the loader at
    -- most twice for each token.
    pub verified_all-Cached :
        (tokens : List Text)
        → Cached j (verified_all tokens (new_verifier j))
          × ((verified_all tokens (new_verifier j)).loads ≤ 2 * length tokens)
    verified_all-Cached tokens =
        let c = calls-Cached tokens (new_verifier j) (unloaded refl) in
        let few = c.1 in (c.0, omega arith)
