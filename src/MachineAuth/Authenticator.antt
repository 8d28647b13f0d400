-- ===== src/MachineAuth/Authenticator.antt =====
-- machine_auth/authenticator.py: `WorkflowServiceAuthenticator.authenticate` after the headers. The
-- secret resolver is a parameter; `none` is its `MachineSecretUnavailable`.
pub mod Verdict
pub mod Named
pub mod Once
pub mod Retained
pub mod Genuine
pub mod Refusals
pub mod Failing
use ai_oas.Base.{
  ℕ, ◌+◌, String, Text, Bool, true, false, ◌&&◌, ◌||◌, not, Option, none, some, List, [], ◌∷◌, ltb,
  leb, ◌==◌, str_eq, text_eq, codes, find_first, select, any_of, if◌then◌else◌,
}
use ai_oas.Errors.{
  Exc, Result, ok, err, intake, operational, integrity, database, runtime, value, unexpected,
  and_then, dependency_unavailable,
}
use ai_oas.Platform.{Platform}
use ai_oas.Identity.{AuthenticatedWorkflowService, seconds}
use ai_oas.Models.{
  MachineIdentity, MachineCredentialVersion, MachineRequestNonce, MachineRequestNonce_checks,
  nonces_clash, ServiceType, workflow_service, IdentityStatus, active, CredentialStatus, current,
  previous,
}
use ai_oas.Tables.{Db}
use ai_oas.Session.{
  read_only, Session, Tx, pure, lift, gets, raise_if, rethrow, query, write, uuid4, interleave,
  begun, in_transaction, ◌>>=◌, ◌>>◌,
}
use ai_oas.MachineAuth.Percent.{machine_authentication_failure}
use ai_oas.MachineAuth.Path.{refused}
use ai_oas.MachineAuth.Headers.{Request, Claimed, claimed}
use ai_oas.MachineAuth.Signing.{canonical_signing_bytes}

-- the settings that `authenticate` reads (config.py)
pub record MachineSettings : Type 0 where
  pub app_environment : String
  pub machine_clock_skew_seconds : ℕ
  pub machine_nonce_retention_seconds : ℕ

-- the validator of the settings
abbrev pub nonce_retention_exceeds_clock_skew : MachineSettings → Bool
nonce_retention_exceeds_clock_skew settings =
    ltb settings.machine_clock_skew_seconds settings.machine_nonce_retention_seconds

abbrev pub is_workflow : ServiceType → Bool
is_workflow ServiceType.workflow_service = true
is_workflow _ = false

abbrev pub is_active : IdentityStatus → Bool
is_active IdentityStatus.active = true
is_active _ = false

abbrev pub is_current : MachineCredentialVersion → Bool
is_current c = elim c.status [ CredentialStatus.current ↦ true | _ ↦ false ]

abbrev pub is_previous : MachineCredentialVersion → Bool
is_previous c = elim c.status [ CredentialStatus.previous ↦ true | _ ↦ false ]

unfoldable pub is_named : String → Text → MachineIdentity → Bool
is_named environment service_id i =
    str_eq i.environment environment
    && text_eq (codes i.stable_service_id) service_id
    && is_workflow i.service_type
    && is_active i.status

abbrev pub verifies_for : ℕ → MachineCredentialVersion → Bool
verifies_for identity_id c = c.machine_identity_id == identity_id && (is_current c || is_previous c)

abbrev pub the_identity : Option MachineIdentity → Result MachineIdentity
the_identity none = refused
the_identity (some i) = ok i

-- The `except` clauses of the first session, and of the second.
abbrev pub read_failure : Exc → Exc
read_failure operational = intake dependency_unavailable
read_failure integrity = intake dependency_unavailable
read_failure database = intake dependency_unavailable
read_failure e = e

abbrev pub write_failure : Exc → Exc
write_failure integrity = intake machine_authentication_failure
write_failure operational = intake dependency_unavailable
write_failure database = intake dependency_unavailable
write_failure e = e

unfoldable pub read_credentials :
    MachineSettings → Text → Tx (MachineIdentity × List MachineCredentialVersion)
unfolding query is_named
read_credentials settings service_id = do
  found ←
      query (λ d. find_first (is_named settings.app_environment service_id) d.machine_identities)
  identity ← lift (the_identity found)
  verification_set ← query (λ d. select (verifies_for identity.id) d.machine_credentials)
  pure (identity, verification_set)

-- A previous version counts until its time. The comparison with `None` raises.
abbrev pub with_previous :
    MachineCredentialVersion
    → MachineCredentialVersion
    → ℕ
    → Option ℕ
    → Result (List MachineCredentialVersion)
with_previous c q now none = err unexpected
with_previous c q now (some until) = ok (if leb now until then c ∷ q ∷ [] else c ∷ [])

unfoldable pub candidates_of :
    ℕ
    → List MachineCredentialVersion
    → List MachineCredentialVersion
    → Result (List MachineCredentialVersion)
candidates_of now (c ∷ []) [] = if ltb now c.activated_at then refused else ok (c ∷ [])
candidates_of now (c ∷ []) (q ∷ []) =
    if ltb now c.activated_at
    then refused
    else if ltb now q.activated_at
    then refused
    else with_previous c q now q.previous_verification_until
candidates_of now _ _ = refused

unfoldable pub candidates :
    ℕ → MachineIdentity → List MachineCredentialVersion → Result (List MachineCredentialVersion)
unfolding candidates_of
candidates now identity verification_set =
    and_then
      (candidates_of now (select is_current verification_set) (select is_previous verification_set))
      (λ found.
        if any_of (λ c. not (c.machine_identity_id == identity.id)) found
        then refused
        else ok found)

module _ (p : Platform) (resolve : String → Option p.Bytes) where
  abbrev pub matches_secret : Option p.Bytes → p.Bytes → Text → Result Bool
  matches_secret none signing_bytes supplied = err (intake dependency_unavailable)
  matches_secret (some secret) signing_bytes supplied =
      ok (text_eq (p.hmac_sha256 secret signing_bytes) supplied)

  -- the loop over the candidates
  unfoldable pub matching :
      p.Bytes → Text → List MachineCredentialVersion → Result (List MachineCredentialVersion)
  matching signing_bytes supplied [] = ok []
  matching signing_bytes supplied (c ∷ rest) =
      and_then (matches_secret (resolve c.external_secret_reference) signing_bytes supplied) λ b.
        and_then (matching signing_bytes supplied rest) λ found. ok (if b then c ∷ found else found)

  abbrev pub only_credential : List MachineCredentialVersion → Result MachineCredentialVersion
  only_credential (c ∷ []) = ok c
  only_credential _ = refused

  unfoldable pub accepts_nonce : MachineRequestNonce → Db → Bool
  unfolding MachineRequestNonce_checks nonces_clash
  accepts_nonce n d =
      MachineRequestNonce_checks n
      && (any_of (λ i. i.id == n.machine_identity_id) d.machine_identities
          && (any_of (λ c. c.id == n.machine_credential_version_id) d.machine_credentials
              && not (any_of (λ x. x.id == n.id || nonces_clash x n) d.machine_nonces)))

  abbrev pub add_nonce : MachineRequestNonce → Db → Db
  add_nonce n d = record d { machine_nonces = n ∷ d.machine_nonces }

  abbrev pub nonce_row :
      MachineSettings
      → ℕ
      → Claimed
      → MachineIdentity
      → MachineCredentialVersion
      → ℕ
      → ℕ
      → MachineRequestNonce
  nonce_row settings now r identity credential id received_at = record {
    id = id;
    machine_identity_id = identity.id;
    machine_credential_version_id = credential.id;
    environment = settings.app_environment;
    verified_credential_version = credential.credential_version;
    nonce_digest = p.sha256 (p.encode r.nonce);
    signed_at = r.signed_at;
    received_at = received_at;
    expires_at = now + seconds settings.machine_nonce_retention_seconds;
  }

  -- The second session. `received_at` is the database's `now()`.
  unfoldable pub record_nonce :
      MachineSettings → ℕ → Claimed → MachineIdentity → MachineCredentialVersion → Tx (Unit {0})
  unfolding interleave uuid4 write accepts_nonce
  record_nonce settings now r identity credential = do
    interleave
    id ← uuid4 p
    received_at ← gets (λ s. s.now)
    let n = nonce_row settings now r identity credential id received_at
    write (accepts_nonce n) (add_nonce n)

  abbrev pub service_of : MachineIdentity → MachineCredentialVersion → AuthenticatedWorkflowService
  service_of identity credential = record {
    machine_identity_id = identity.id;
    stable_service_id = identity.stable_service_id;
    environment = identity.environment;
    credential_id = credential.id;
    credential_version = credential.credential_version;
  }

  -- from the rows to the one credential that signed the request
  unfoldable pub signer :
      ℕ
      → p.Bytes
      → Text
      → MachineIdentity × List MachineCredentialVersion
      → Result MachineCredentialVersion
  unfolding candidates matching
  signer now signing_bytes supplied (identity, verification_set) =
      and_then (candidates now identity verification_set)
        λ found. and_then (matching signing_bytes supplied found) only_credential

  abbrev pub bytes_of : Request p.Bytes → Claimed → Result p.Bytes
  unfolding canonical_signing_bytes
  bytes_of request r =
      canonical_signing_bytes p request.method r.raw_path r.raw_query r.timestamp r.nonce
        request.body

  -- `now` is what the clock of the program says.
  unfoldable pub authenticate :
      MachineSettings → ℕ → Request p.Bytes → Tx AuthenticatedWorkflowService
  unfolding claimed canonical_signing_bytes read_only read_credentials signer record_nonce
      in_transaction
  authenticate settings now request = do
    r ← lift (claimed now settings.machine_clock_skew_seconds request)
    signing_bytes ← lift (bytes_of request r)
    rows ← rethrow read_failure (read_only (read_credentials settings r.service_id))
    credential ← lift (signer now signing_bytes r.supplied_signature rows)
    rethrow write_failure (in_transaction (record_nonce settings now r rows.0 credential))
    pure (service_of rows.0 credential)
