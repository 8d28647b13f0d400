-- ===== src/MachineAuth/Authenticator/Genuine.antt =====
-- What an accepted request rests on, and what it leaves.
use ai_oas.Base.{
  ℕ, String, Text, ◌≡◌, refl, ap, subst, ◌∙◌, true, false, not, Option, none, some, List, ◌==◌,
  find_first, select, arith,
}
use ai_oas.Errors.{Result, ok, err}
use ai_oas.Platform.{Platform}
use ai_oas.Identity.{AuthenticatedWorkflowService}
use ai_oas.Models.{MachineIdentity, MachineCredentialVersion, MachineRequestNonce}
use ai_oas.Tables.{Db}
use ai_oas.Session.{
  read_only, Session, Tx, gets, write, uuid4, interleave, begun, rethrow, in_transaction, pure,
}
use ai_oas.Session.Reason.{
  Keeps, Ends, WhenOk, Ends-seq, Ends-bind, Ends-rethrow, Ends-weaken, Keeps-gets, keeps_rules,
}
use ai_oas.Session.Statements.{IsStable, On-IsStable, Ends-write, Keeps-query, Keeps-uuid4}
use ai_oas.Session.Committing.{in_transaction-Ends-from}
use ai_oas.Session.Reading.{Reads, Ends-read, Ends-passed}
use ai_oas.MachineAuth.Headers.{Request, Claimed, claimed}
use ai_oas.MachineAuth.Authenticator.{
  MachineSettings, is_named, verifies_for, the_identity, read_failure, write_failure,
  read_credentials, accepts_nonce, add_nonce, nonce_row, record_nonce, service_of, signer, bytes_of,
  authenticate,
}
use ai_oas.Tested.{found-Memᴰ}
use ai_oas.MachineAuth.Authenticator.Named.{Named, is_named-Named}
use ai_oas.MachineAuth.Authenticator.Verdict.{Usable, Signs, signer-Signs}

given :
    {B : Type 0} {m : Tx B} {Q : B → Session → Type 0} {G : Type 0} {P : Session → Type 0}
    → (G → Ends P m Q)
    → Ends (λ t. P t × G) m Q
given e = record { at = λ s h. (e h.1).at s h.0 }

-- What is committed, what other sessions will commit, and the time.
abbrev Outside : Db → (Db → Db) → ℕ → Session → Type 0
Outside c f n s = (s.committed ≡ c) × (s.peer ≡ f) × (s.now ≡ n)

Outside-IsStable : (c : Db) (f : Db → Db) (n : ℕ) → IsStable (Outside c f n)
Outside-IsStable c f n = record { faults = λ s l h. h; drawn = λ s m h. h }

read_only-Ends :
    {A : Type 0} (c : Db) (f : Db → Db) (n : ℕ) (m : Tx A) (G : A → Type 0)
    → Keeps (Outside c f n) m
    → Ends (Reads c n) m (λ a t. G a)
    → Ends (Outside c f n) (read_only m) (λ a t. Outside c f n t × G a)
unfolding read_only
read_only-Ends {A} c f n m G k e = record {
  at = λ s h. closed (m (begun s)) (k.at (begun s) h) (e.at (begun s) (h.0, h.2));
}
  where
    closed :
        (r : Result A × Session)
        → Outside c f n r.1
        → WhenOk (λ a t. G a) r
        → WhenOk
            (λ a t. Outside c f n t × G a)
            (r.0, record r.1 { working = r.1.committed; transaction = none })
    closed (ok a, t) h g = (h, g)
    closed (err x, t) h g = tt

module _ (c : Db) (f : Db → Db) (n : ℕ) (settings : MachineSettings) (service_id : Text) where
  -- the rows that the first session reads
  abbrev pub Read : MachineIdentity × List MachineCredentialVersion → Type 0
  Read rows =
      (find_first (is_named settings.app_environment service_id) c.machine_identities ≡ some rows.0)
      × (rows.1 ≡ select (verifies_for rows.0.id) c.machine_credentials)

  the_identity-some :
      (o : Option MachineIdentity) (i : MachineIdentity) → the_identity o ≡ ok i → o ≡ some i
  the_identity-some none i h = ground arith
  the_identity-some (some j) i h = ground arith

  read :
      (identity : MachineIdentity)
      → find_first (is_named settings.app_environment service_id) c.machine_identities
        ≡ some identity
      → Ends
          (Reads c n)
          (pure (identity, select (verifies_for identity.id) c.machine_credentials))
          (λ rows t. Read rows)
  read identity e = record { at = λ s h. (e, refl) }

  read_credentials-Read :
      Ends (Reads c n) (read_credentials settings service_id) (λ rows t. Read rows)
  unfolding read_credentials
  read_credentials-Read = Ends-read c n _ _ (
      Ends-passed (the_identity _) _ λ identity e.
        Ends-read c n (λ d. select (verifies_for identity.id) d.machine_credentials)
          (λ rows. pure (identity, rows)) (read identity (the_identity-some _ identity e)))

  Keeps-read_credentials :
      (P : Session → Type 0) → IsStable P → Keeps P (read_credentials settings service_id)
  unfolding read_credentials
  Keeps-read_credentials P stable = search (keeps_rules, Keeps-query, stable) depth 20

  -- what the first session gives
  pub credentials-Read :
      Ends
        (Outside c f n)
        (rethrow read_failure (read_only (read_credentials settings service_id)))
        (λ rows t. Read rows)
  credentials-Read = record { at = λ s h. weaker _ (reads.at s h) }
    where
      reads :
          Ends
            (Outside c f n)
            (rethrow read_failure (read_only (read_credentials settings service_id)))
            (λ rows t. Outside c f n t × Read rows)
      reads = Ends-rethrow read_failure _ _ (
          read_only-Ends c f n (read_credentials settings service_id) Read
            (Keeps-read_credentials (Outside c f n) (Outside-IsStable c f n)) read_credentials-Read)

      weaker :
          (r : Result (MachineIdentity × List MachineCredentialVersion) × Session)
          → WhenOk (λ rows t. Outside c f n t × Read rows) r
          → WhenOk (λ rows t. Read rows) r
      weaker (ok a, t) w = w.1
      weaker (err e, t) w = tt

module _ (p : Platform) (resolve : String → Option p.Bytes) where
  -- A nonce that was not recorded, and now is.
  pub record Consumed (environment : String) (identity_id : ℕ) (digest : Text) (before after : Db)
      : Type 0 where
    pub row : MachineRequestNonce
    pub of_identity : row.machine_identity_id ≡ identity_id
    pub of_environment : row.environment ≡ environment
    pub of_digest : row.nonce_digest ≡ digest
    pub accepted : accepts_nonce p resolve row before ≡ true
    pub recorded : after ≡ add_nonce p resolve row before

  module _ (c : Db) (f : Db → Db) (n : ℕ) (settings : MachineSettings) (now : ℕ) (r : Claimed)
      (identity : MachineIdentity) (credential : MachineCredentialVersion) where
    abbrev ConsumedIn : Unit {0} → Db → Type 0
    ConsumedIn _ d =
        Consumed settings.app_environment identity.id (p.sha256 (p.encode r.nonce)) (f c) d

    record_nonce-Consumed :
        Ends
          (λ s. (s.working ≡ c) × (s.peer ≡ f))
          (record_nonce p resolve settings now r identity credential)
          (λ u t. ConsumedIn u t.working)
    unfolding record_nonce interleave
    record_nonce-Consumed =
        Ends-seq (λ _ s. s.working ≡ f c) interleave _ (record { at = λ s h. rw (h.0, h.1) })
          λ _.
            Ends-bind (uuid4 p) _
              (Keeps-uuid4 (λ s. s.working ≡ f c) (On-IsStable (λ d. d ≡ f c)) p)
              λ id. Ends-bind (gets (λ s. s.now)) _ (Keeps-gets _) λ received_at.
                let row = nonce_row p resolve settings now r identity credential id received_at in
                Ends-weaken (write (accepts_nonce p resolve row) (add_nonce p resolve row)) _ _
                  (Ends-write (λ s. s.working ≡ f c) (On-IsStable (λ d. d ≡ f c)) _ _)
                  λ u t h. record {
                    row = row;
                    of_identity = refl;
                    of_environment = refl;
                    of_digest = refl;
                    accepted = subst (λ d. accepts_nonce p resolve row d ≡ true) h.1 h.2;
                    recorded =
                        ap (λ (x : Session). x.working) h.3 ∙ ap (add_nonce p resolve row) h.1;
                  }

    -- What the second session commits.
    consumed :
        Ends
          (Outside c f n)
          (rethrow write_failure
            (in_transaction (record_nonce p resolve settings now r identity credential)))
          (λ u t. ConsumedIn u t.committed)
    consumed = Ends-rethrow write_failure _ _ (
        in_transaction-Ends-from ConsumedIn (Outside c f n) (λ s. (s.working ≡ c) × (s.peer ≡ f))
          (record_nonce p resolve settings now r identity credential) (λ s h. (h.0, h.1))
          record_nonce-Consumed)

  -- What an accepted request rests on: its headers, an active identity with that name, a usable
  -- credential of this identity under whose secret the request is signed, and an unused nonce.
  pub record Genuine (settings : MachineSettings) (now : ℕ) (request : Request p.Bytes)
      (service : AuthenticatedWorkflowService) (seen before after : Db) : Type 0 where
    pub headers : Claimed
    pub claim : claimed now settings.machine_clock_skew_seconds request ≡ ok headers
    pub signing_bytes : p.Bytes
    pub canonical : bytes_of p resolve request headers ≡ ok signing_bytes
    pub identity : MachineIdentity
    pub found :
        find_first (is_named settings.app_environment headers.service_id) seen.machine_identities
        ≡ some identity
    pub named : Named settings.app_environment headers.service_id identity
    pub credential : MachineCredentialVersion
    pub usable : Usable now (select (verifies_for identity.id) seen.machine_credentials) credential
    pub belongs : not (credential.machine_identity_id == identity.id) ≡ false
    pub signs : Signs p resolve signing_bytes headers.supplied_signature credential
    pub names : service ≡ service_of p resolve identity credential
    pub consumed :
        Consumed settings.app_environment identity.id
          (p.sha256 (p.encode headers.nonce))
          before
          after

  pub authenticate-Ends :
      (c : Db) (f : Db → Db) (n : ℕ) (settings : MachineSettings) (now : ℕ)
      (request : Request p.Bytes)
      → Ends
          (Outside c f n)
          (authenticate p resolve settings now request)
          (λ service t. Genuine settings now request service c (f c) t.committed)
  unfolding authenticate
  authenticate-Ends c f n settings now request =
      Ends-passed (claimed now settings.machine_clock_skew_seconds request) _ λ r claim.
        Ends-passed (bytes_of p resolve request r) _ λ signing_bytes canonical.
          Ends-seq (λ rows t. Outside c f n t × Read c f n settings r.service_id rows)
            (rethrow read_failure (read_only (read_credentials settings r.service_id))) _
            (Ends-rethrow read_failure _ _ (
              read_only-Ends c f n (read_credentials settings r.service_id)
                (Read c f n settings r.service_id)
                (Keeps-read_credentials c f n settings r.service_id (Outside c f n)
                  (Outside-IsStable c f n))
                (read_credentials-Read c f n settings r.service_id)))
            λ rows. given λ read.
              Ends-passed (signer p resolve now signing_bytes r.supplied_signature rows) _
                λ credential e.
                  let facts =
                    signer-Signs p resolve signing_bytes r.supplied_signature now rows.0 rows.1
                      credential e in
                  Ends-seq (λ u t. ConsumedIn c f n settings now r rows.0 credential u t.committed)
                    _ _ (consumed c f n settings now r rows.0 credential)
                    λ _. record {
                      at = λ s h. record {
                        headers = r;
                        claim = claim;
                        signing_bytes = signing_bytes;
                        canonical = canonical;
                        identity = rows.0;
                        found = read.0;
                        named =
                            is_named-Named settings.app_environment r.service_id rows.0
                              (found-Memᴰ (is_named settings.app_environment r.service_id)
                                c.machine_identities rows.0 read.0).1;
                        credential = credential;
                        usable = subst (λ l. Usable now l credential) read.1 facts.0.0;
                        belongs = facts.0.1;
                        signs = facts.1;
                        names = refl;
                        consumed = h;
                      };
                    }
