-- ===== src/Auth/Verifier.antt =====
-- auth/verifier.py: `SupabaseJwtVerifier` and `url_jwks_loader`. The parameters are pyjwt, the
-- network and the clock.
pub mod Laws
pub mod Saying
pub mod Accepting
pub mod Rotating
pub mod Escaping
use ai_oas.Base.{
  ℕ, ◌+◌, String, Text, Bool, true, false, ◌||◌, Option, none, some, List, [], ◌∷◌, leb, codes,
  strip, str_eq, ◌==◌, rstrip, if◌then◌else◌,
}
use ai_oas.Json.{Json, str, arr, obj, Items, nil, cons, Fields, entry, member}

-- `AuthenticationFailure`, `KeyDiscoveryFailure`, and an exception that no `except` clause of the
-- verifier names
pub data VerifierError : Type 0 where
  authentication_failure key_discovery_failure other_exception : VerifierError

-- A call of pyjwt: what it returns, an exception of the `except` clause around the call, or another
-- one. The clauses name PyJWTError, and around `from_dict` also KeyError, TypeError and ValueError.
pub data Called (A : Type 0) : Type 0 where
  returned : A → Called A
  caught uncaught : Called A

pub data Verified (A : Type 0) : Type 0 where
  good : A → Verified A
  bad : VerifierError → Verified A

abbrev pub checked : {A B : Type 0} → Verified A → (A → Verified B) → Verified B
checked (good a) f = f a
checked (bad e) f = bad e

-- pyjwt, `urlopen` with `json.load`, and `time.monotonic`. `none` of `fetch` is any exception.
pub record Jwt : Type 1 where
  pub Key : Type 0
  -- `jwt.get_unverified_header(token)`
  pub unverified_header : Text → Called Fields
  -- `jwt.PyJWK.from_dict(item)`
  pub from_dict : Json → Called Key
  -- `jwt.decode` of a token with RS256, a key, an audience and an issuer; what it says depends on
  -- the time, so on how often it was called before
  pub decode : ℕ → Text → Key → String → Text → Called Fields
  -- the n-th `json.load(urlopen(url))`
  pub fetch : ℕ → Option Json
  -- the n-th `time.monotonic()`
  pub monotonic : ℕ → ℕ

module _ (j : Jwt) where
  -- `_keys`, newest entry first, `_loaded_at`, and how often the clock, the loader and
  -- `jwt.decode` were called
  pub record VerifierState : Type 0 where
    pub keys : List (String × j.Key)
    pub loaded_at : ℕ
    pub ticks : ℕ
    pub loads : ℕ
    pub decodes : ℕ

  abbrev pub new_verifier : VerifierState
  new_verifier = record { keys = []; loaded_at = 0; ticks = 0; loads = 0; decodes = 0 }

  -- `isinstance(document, dict) and isinstance(document.get("keys"), list)`
  abbrev listed : Option Json → Option Items
  listed (some (arr items)) = some items
  listed _ = none

  unfoldable pub key_items : Json → Option Items
  unfolding entry
  key_items document = listed (entry "keys" document)

  -- `url_jwks_loader`; `none` is its KeyDiscoveryFailure
  abbrev with_keys : Json → Option Items → Option Json
  with_keys document none = none
  with_keys document (some items) = some document

  unfoldable pub load : Option Json → Option Json
  unfolding key_items
  load none = none
  load (some document) = with_keys document (key_items document)

  -- `item.get("kid")` if the item is a dict and this is a text
  abbrev pub text_of : Option Json → Option String
  text_of (some (str s)) = some s
  text_of _ = none

  unfoldable pub kid_of : Json → Option String
  unfolding entry
  kid_of item = text_of (entry "kid" item)

  abbrev pub stored : String → Called j.Key → List (String × j.Key) → Called (List (String × j.Key))
  stored kid caught keys = caught
  stored kid uncaught keys = uncaught
  stored kid (returned key) keys = returned ((kid, key) ∷ keys)

  abbrev pub with_item :
      Option String → Json → List (String × j.Key) → Called (List (String × j.Key))
  with_item none item keys = returned keys
  with_item (some kid) item keys = stored kid (j.from_dict item) keys

  -- The dict of `_key`, on top of the entries before: a later item with the same kid replaces.
  unfoldable pub keys_from : List (String × j.Key) → Items → Called (List (String × j.Key))
  unfolding kid_of
  keys_from keys nil = returned keys
  keys_from keys (cons item rest) = elim (with_item (kid_of item) item keys) [
    | caught ↦ caught
    | uncaught ↦ uncaught
    | returned more ↦ keys_from more rest
  ]

  unfoldable pub keys_of_items : Option Items → Called (List (String × j.Key))
  unfolding keys_from
  keys_of_items none = caught
  keys_of_items (some items) = keys_from [] items

  -- the keys of the document that the loader returned
  unfoldable pub document_keys : Option Json → Called (List (String × j.Key))
  unfolding keys_of_items key_items
  document_keys none = caught
  document_keys (some document) = keys_of_items (key_items document)

  -- `self._keys.get(kid)`
  unfoldable pub get_key : String → List (String × j.Key) → Option j.Key
  get_key kid [] = none
  get_key kid ((k, key) ∷ rest) = elim (str_eq k kid) [ true ↦ some key | false ↦ get_key kid rest ]

  abbrev pub no_keys : List (String × j.Key) → Bool
  no_keys [] = true
  no_keys (x ∷ rest) = false

  -- `_loaded_at` is set when the keys are
  abbrev pub replaced :
      Called (List (String × j.Key)) → VerifierState → Verified (Unit {0}) × VerifierState
  replaced caught st = (bad key_discovery_failure, record st { loads = st.loads + 1 })
  replaced uncaught st = (bad other_exception, record st { loads = st.loads + 1 })
  replaced (returned keys) st = (
    good tt,
    record st {
      keys = keys;
      loaded_at = j.monotonic st.ticks;
      ticks = st.ticks + 1;
      loads = st.loads + 1;
    },
  )

  unfoldable pub reload : VerifierState → Verified (Unit {0}) × VerifierState
  unfolding load document_keys
  reload st = replaced (document_keys (load (j.fetch st.loads))) st

  abbrev pub looked_up :
      String → Verified (Unit {0}) × VerifierState → Verified (Option j.Key) × VerifierState
  looked_up kid (good _, st) = (good (get_key kid st.keys), st)
  looked_up kid (bad e, st) = (bad e, st)

  abbrev pub expired : ℕ → VerifierState → Bool
  expired cache_seconds st = leb (st.loaded_at + cache_seconds) (j.monotonic st.ticks)

  -- `_key`
  unfoldable pub find_key :
      ℕ → String → Bool → VerifierState → Verified (Option j.Key) × VerifierState
  unfolding reload get_key
  find_key cache_seconds kid refresh st =
      let clocked : VerifierState = record st { ticks = st.ticks + 1 } in
      looked_up kid (
        if refresh || (no_keys st.keys || expired cache_seconds st)
        then reload clocked
        else (good tt, clocked))

  abbrev pub is_rs256 : Option Json → Bool
  is_rs256 (some (str s)) = str_eq s "RS256"
  is_rs256 _ = false

  abbrev pub kid_or_failure : Option String → Verified String
  kid_or_failure none = bad authentication_failure
  kid_or_failure (some kid) = good kid

  -- the kid of a header that asks for RS256
  unfoldable pub header_kid : Called Fields → Verified String
  unfolding member
  header_kid caught = bad authentication_failure
  header_kid uncaught = bad other_exception
  header_kid (returned header) =
      if is_rs256 (member "alg" header)
      then kid_or_failure (text_of (member "kid" header))
      else bad authentication_failure

  -- `subject.strip()` of a text that is not blank
  abbrev pub not_blank : Text → Verified Text
  not_blank [] = bad authentication_failure
  not_blank (c ∷ rest) = good (c ∷ rest)

  unfoldable pub subject_of : (ℕ → Bool) → Called Fields → Verified Text
  unfolding strip member
  subject_of is_space caught = bad authentication_failure
  subject_of is_space uncaught = bad other_exception
  subject_of is_space (returned claims) = elim (text_of (member "sub" claims)) [
    | none ↦ bad authentication_failure
    | some subject ↦ not_blank (strip is_space (codes subject))
  ]

  module _ (is_space : ℕ → Bool) (issuer : Text) (audience : String) (cache_seconds : ℕ) where
    -- `jwt.decode` with the issuer less its last slashes
    abbrev pub claims_of : ℕ → Text → j.Key → Called Fields
    unfolding rstrip
    claims_of n token key = j.decode n token key audience (rstrip (λ c. c == b'/') issuer)

    unfoldable pub decoded : Text → j.Key → VerifierState → Verified Text × VerifierState
    unfolding subject_of rstrip
    decoded token key st = (
      subject_of is_space (claims_of st.decodes token key),
      record st { decodes = st.decodes + 1 },
    )

    -- the last look-up, after which a missing key is a failure
    abbrev pub with_key :
        Text → Verified (Option j.Key) × VerifierState → Verified Text × VerifierState
    with_key token (good none, st) = (bad authentication_failure, st)
    with_key token (good (some key), st) = decoded token key st
    with_key token (bad e, st) = (bad e, st)

    abbrev pub with_first :
        Text → String → Verified (Option j.Key) × VerifierState → Verified Text × VerifierState
    with_first token kid (good none, st) = with_key token (find_key cache_seconds kid true st)
    with_first token kid (good (some key), st) = decoded token key st
    with_first token kid (bad e, st) = (bad e, st)

    abbrev pub with_kid : Text → Verified String → VerifierState → Verified Text × VerifierState
    with_kid token (bad e) st = (bad e, st)
    with_kid token (good kid) st = with_first token kid (find_key cache_seconds kid false st)

    unfoldable pub verify : Text → VerifierState → Verified Text × VerifierState
    unfolding find_key decoded header_kid
    verify token st = with_kid token (header_kid (j.unverified_header token)) st
