-- ===== src/Auth/Verifier/Rotating.antt =====
-- A token whose key was published after the keys were cached.
use ai_oas.Base.{
  ℕ, ◌+◌, ◌≡◌, ◌∙◌, refl, sym, ap, subst, String, Text, Bool, true, false, ◌||◌, Option, none, some,
  List, if◌then◌else◌,
}
use ai_oas.Auth.Verifier.{
  Jwt, returned, Verified, good, VerifierState, reload, find_key, get_key, replaced, looked_up,
  document_keys, load, no_keys, expired, header_kid, subject_of, claims_of, decoded, with_key,
  with_first, with_kid, verify,
}

module _ (j : Jwt) where
  -- the state after a load that gives `keys`
  abbrev after_load : List (String × j.Key) → VerifierState j → VerifierState j
  after_load keys st = record st {
    keys = keys;
    loaded_at = j.monotonic st.ticks;
    ticks = st.ticks + 1;
    loads = st.loads + 1;
  }

  module _ (kid : String) (key : j.Key) (keys : List (String × j.Key)) where
    looked_up-reload :
        (st : VerifierState j)
        → document_keys j (load j (j.fetch st.loads)) ≡ returned keys
        → get_key j kid keys ≡ some key
        → looked_up j kid (reload j st) ≡ (good (some key), after_load keys st)
    unfolding reload
    looked_up-reload st e h =
        ap (λ o. looked_up j kid (replaced j o st)) e ∙ ap (λ o. (good o, after_load keys st)) h

    module _ (is_space : ℕ → Bool) (issuer : Text) (audience : String) (cache_seconds : ℕ) where
      -- A token whose key is not cached is accepted, if the next document that is fetched lists a key
      -- of its kid under which the claims have a subject that is not blank; the keys of this document
      -- are then cached, after one load.
      pub verify-rotated :
          (token : Text) (st : VerifierState j) (subject : Text)
          → header_kid j (j.unverified_header token) ≡ good kid
          → get_key j kid st.keys ≡ none
          → document_keys j (load j (j.fetch st.loads)) ≡ returned keys
          → get_key j kid keys ≡ some key
          → subject_of j is_space
              (claims_of j is_space issuer audience cache_seconds st.decodes token key)
            ≡ good subject
          → let r = verify j is_space issuer audience cache_seconds token st in
            (r.0 ≡ good subject) × (r.1.keys ≡ keys) × (r.1.loads ≡ st.loads + 1)
      unfolding verify find_key decoded
      verify-rotated token st subject named unknown fetched lists claims =
          subst (λ o. Accepts (with_kid j is_space issuer audience cache_seconds token o st))
            (sym named) (by_test (no_keys j st.keys || expired j cache_seconds st))
        where
          clocked : VerifierState j
          clocked = record st { ticks = st.ticks + 1 }

          first : Verified (Option j.Key) × VerifierState j → Verified Text × VerifierState j
          first r = with_first j is_space issuer audience cache_seconds token kid r

          Accepts : Verified Text × VerifierState j → Type 0
          Accepts r = (r.0 ≡ good subject) × (r.1.keys ≡ keys) × (r.1.loads ≡ st.loads + 1)

          by_test :
              (b : Bool)
              → Accepts
                  (first (looked_up j kid (if b then reload j clocked else (good tt, clocked))))
          by_test true =
              subst (λ r. Accepts (first r)) (sym (looked_up-reload clocked fetched lists))
                (claims, refl, refl)
          by_test false =
              subst (λ o. Accepts (first (good o, clocked))) (sym unknown)
                (subst (λ r. Accepts (with_key j is_space issuer audience cache_seconds token r))
                  (sym
                    (looked_up-reload (record clocked { ticks = clocked.ticks + 1 }) fetched lists))
                  (claims, refl, refl))
