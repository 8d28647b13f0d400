-- ===== src/MachineAuth/Authenticator/Verdict.antt =====
-- Which credential `signer` can name, from the rows that it was given.
use ai_oas.Base.{
  ℕ, String, Text, ◌≡◌, refl, subst, Bool, true, false, not, Option, none, some, List, [], ◌∷◌, ltb,
  leb, ◌==◌, text_eq, select, any_of, if◌then◌else◌, arith,
}
use ai_oas.Errors.{ok}
use ai_oas.Platform.{Platform}
use ai_oas.Models.{MachineIdentity, MachineCredentialVersion}
use ai_oas.MachineAuth.Path.Laws.{unguarded}
use ai_oas.MachineAuth.Query.Fields.{and_then-ok, ok_value}
use ai_oas.MachineAuth.Authenticator.{
  is_current, is_previous, with_previous, candidates_of, candidates, matches_secret, matching,
  only_credential, signer,
}

-- A credential version that verifies at the time `now`, among the rows of its identity: the only
-- current one, activated, or the only previous one, activated and within its time.
pub data Usable (now : ℕ) (rows : List MachineCredentialVersion)
    : MachineCredentialVersion → Type 0 where
  the_current :
      {c : MachineCredentialVersion}
      → select is_current rows ≡ c ∷ []
      → ltb now c.activated_at ≡ false
      → Usable now rows c
  the_previous :
      {q : MachineCredentialVersion} {until : ℕ}
      → select is_previous rows ≡ q ∷ []
      → ltb now q.activated_at ≡ false
      → q.previous_verification_until ≡ some until
      → leb now until ≡ true
      → Usable now rows q

abbrev AllOf : (MachineCredentialVersion → Type 0) → List MachineCredentialVersion → Type 0
AllOf P [] = Unit
AllOf P (c ∷ rest) = P c × AllOf P rest

AllOf-any_of :
    (f : MachineCredentialVersion → Bool) (P : MachineCredentialVersion → Type 0)
    (l : List MachineCredentialVersion)
    → any_of f l ≡ false
    → AllOf P l
    → AllOf (λ c. P c × (f c ≡ false)) l
AllOf-any_of f P [] h a = tt
AllOf-any_of f P (c ∷ rest) h a = ((a.0, ground arith), AllOf-any_of f P rest (ground arith) a.1)

with_previous-Usable :
    (now : ℕ) (rows : List MachineCredentialVersion) (c q : MachineCredentialVersion)
    (until : Option ℕ) (found : List MachineCredentialVersion)
    → select is_current rows ≡ c ∷ []
    → select is_previous rows ≡ q ∷ []
    → ltb now c.activated_at ≡ false
    → ltb now q.activated_at ≡ false
    → q.previous_verification_until ≡ until
    → with_previous c q now until ≡ ok found
    → AllOf (Usable now rows) found
with_previous-Usable now rows c q none found e f g h u k = ground arith
with_previous-Usable now rows c q (some until) found e f g h u k =
    subst (AllOf (Usable now rows)) (ok_value _ found k) (by_time (leb now until) refl)
  where
    by_time :
        (b : Bool) → leb now until ≡ b → AllOf (Usable now rows) (if b then c ∷ q ∷ [] else c ∷ [])
    by_time true t = (the_current e g, (the_previous f h u t, tt))
    by_time false t = (the_current e g, tt)

candidates_of-Usable :
    (now : ℕ) (rows cs qs found : List MachineCredentialVersion)
    → select is_current rows ≡ cs
    → select is_previous rows ≡ qs
    → candidates_of now cs qs ≡ ok found
    → AllOf (Usable now rows) found
unfolding candidates_of
candidates_of-Usable now rows [] qs found e f h = ground arith
candidates_of-Usable now rows (c ∷ []) [] found e f h =
    let parts = unguarded (ltb now c.activated_at) _ found h in
    subst (AllOf (Usable now rows)) (ok_value (c ∷ []) found parts.1) (the_current e parts.0, tt)
candidates_of-Usable now rows (c ∷ []) (q ∷ []) found e f h =
    let outer = unguarded (ltb now c.activated_at) _ found h in
    let inner = unguarded (ltb now q.activated_at) _ found outer.1 in
    with_previous-Usable now rows c q q.previous_verification_until found e f outer.0 inner.0 refl
      inner.1
candidates_of-Usable now rows (c ∷ []) (q ∷ x ∷ qs) found e f h = ground arith
candidates_of-Usable now rows (c ∷ x ∷ cs) qs found e f h = ground arith

-- What makes a credential of the identity acceptable.
abbrev pub Belongs :
    ℕ → MachineIdentity → List MachineCredentialVersion → MachineCredentialVersion → Type 0
Belongs now identity rows c =
    Usable now rows c × (not (c.machine_identity_id == identity.id) ≡ false)

candidates-Belongs :
    (now : ℕ) (identity : MachineIdentity) (rows found : List MachineCredentialVersion)
    → candidates now identity rows ≡ ok found
    → AllOf (Belongs now identity rows) found
unfolding candidates
candidates-Belongs now identity rows found h =
    let first =
      and_then-ok (candidates_of now (select is_current rows) (select is_previous rows)) _ _ h in
    let parts =
      unguarded (any_of (λ c. not (c.machine_identity_id == identity.id)) first.0) _ found
        first.1.1 in
    subst (AllOf (Belongs now identity rows)) (ok_value first.0 found parts.1) (
      AllOf-any_of (λ c. not (c.machine_identity_id == identity.id)) (Usable now rows) first.0
        parts.0 (candidates_of-Usable now rows _ _ first.0 refl refl first.1.0))

module _ (p : Platform) (resolve : String → Option p.Bytes) (signing_bytes : p.Bytes)
    (supplied : Text) where
  -- The supplied signature is the HMAC of the request under the secret of the credential.
  pub record Signs (c : MachineCredentialVersion) : Type 0 where
    pub secret : p.Bytes
    pub resolved : resolve c.external_secret_reference ≡ some secret
    pub matched : text_eq (p.hmac_sha256 secret signing_bytes) supplied ≡ true

  matches_secret-Signs :
      (c : MachineCredentialVersion) (o : Option p.Bytes)
      → resolve c.external_secret_reference ≡ o
      → matches_secret p resolve o signing_bytes supplied ≡ ok true
      → Signs c
  matches_secret-Signs c none e h = ground arith
  matches_secret-Signs c (some secret) e h = record {
    secret = secret;
    resolved = e;
    matched = ok_value _ true h;
  }

  matching-Signs :
      (P : MachineCredentialVersion → Type 0) (l found : List MachineCredentialVersion)
      → AllOf P l
      → matching p resolve signing_bytes supplied l ≡ ok found
      → AllOf (λ c. P c × Signs c) found
  unfolding matching
  matching-Signs P [] found a h = subst (AllOf _) (ok_value [] found h) tt
  matching-Signs P (c ∷ rest) found a h =
      let first =
        and_then-ok
          (matches_secret p resolve (resolve c.external_secret_reference) signing_bytes supplied) _
          _ h in
      let second = and_then-ok (matching p resolve signing_bytes supplied rest) _ _ first.1.1 in
      subst (AllOf (λ x. P x × Signs x)) (ok_value _ found second.1.1)
        (with_first first.0 first.1.0 second.0 (matching-Signs P rest second.0 a.1 second.1.0))
    where
      with_first :
          (b : Bool)
          → matches_secret p resolve (resolve c.external_secret_reference) signing_bytes supplied
            ≡ ok b
          → (l : List MachineCredentialVersion) → AllOf (λ x. P x × Signs x) l
          → AllOf (λ x. P x × Signs x) (if b then c ∷ l else l)
      with_first true e l w = ((a.0, matches_secret-Signs c _ refl e), w)
      with_first false e l w = w

  only_credential-AllOf :
      (P : MachineCredentialVersion → Type 0) (l : List MachineCredentialVersion)
      (c : MachineCredentialVersion)
      → AllOf P l
      → only_credential p resolve l ≡ ok c
      → P c
  only_credential-AllOf P [] c a h = ground arith
  only_credential-AllOf P (x ∷ []) c a h = subst P (ok_value x c h) a.0
  only_credential-AllOf P (x ∷ y ∷ l) c a h = ground arith

  -- The credential that `signer` names.
  pub signer-Signs :
      (now : ℕ) (identity : MachineIdentity) (rows : List MachineCredentialVersion)
      (c : MachineCredentialVersion)
      → signer p resolve now signing_bytes supplied (identity, rows) ≡ ok c
      → Belongs now identity rows c × Signs c
  unfolding signer
  signer-Signs now identity rows c h =
      let first = and_then-ok (candidates now identity rows) _ c h in
      let second = and_then-ok (matching p resolve signing_bytes supplied first.0) _ c first.1.1 in
      only_credential-AllOf (λ x. Belongs now identity rows x × Signs x) second.0 c
        (matching-Signs (Belongs now identity rows) first.0 second.0
          (candidates-Belongs now identity rows first.0 first.1.0) second.1.0)
        second.1.1
