-- ===== src/MachineAuth/Authenticator/Failing.antt =====
-- How `authenticate` refuses.
use ai_oas.Base.{ℕ, List, refl, subst, arith, String, Text, ◌≡◌, Option, none, some}
use ai_oas.Errors.{Exc, Result, ok, err, intake}
use ai_oas.Tables.{Db}
use ai_oas.Platform.{Platform}
use ai_oas.Models.{MachineIdentity, MachineCredentialVersion}
use ai_oas.Session.{Session, Tx, lift, pure, rethrow, read_only, in_transaction, continue, ◌>>=◌}
use ai_oas.Session.Reason.{WhenOk}
use ai_oas.Session.ReadOnly.{Raises-read_only}
use ai_oas.Session.Raising.{
  Fails, Raises, Fails-ok, Fails-err, Raises-bind, Raises-lift, Raises-pure, Raises-rethrow,
  Raises-query, Raises-write, Raises-in_transaction, Raised, of_operational, of_integrity,
  of_database, fails_rules, raises_rules,
}
use ai_oas.MachineAuth.Percent.{machine_authentication_failure}
use ai_oas.MachineAuth.Signing.{signing_text, canonical_signing_bytes}
use ai_oas.MachineAuth.Headers.{Request, Claimed, claimed}
use ai_oas.MachineAuth.Authenticator.{
  MachineSettings, the_identity, read_failure, write_failure, read_credentials, record_nonce,
  bytes_of, authenticate, signer, service_of,
}
use ai_oas.MachineAuth.Authenticator.Genuine.{Read, credentials-Read}
use ai_oas.MachineAuth.Authenticator.Named.{Undated, read-Undated}
use ai_oas.MachineAuth.Authenticator.Refusals.{
  Refusal, unauthenticated, unavailable, Fails-claimed, Fails-canonical_path_and_query,
  Fails-signer, UndatedIn,
}

module _ (reason : Type 0) (p : Platform) (resolve : String → Option p.Bytes) where
  -- what a session raises before its exceptions are replaced
  data Inside : Exc → Type 0 where
    of_session : {e : Exc} → Raised e → Inside e
    of_code : Inside (intake machine_authentication_failure)

  read_failure-Refusal : (e : Exc) → Inside e → Refusal reason (read_failure e)
  read_failure-Refusal e (of_session of_operational) = unavailable
  read_failure-Refusal e (of_session of_integrity) = unavailable
  read_failure-Refusal e (of_session of_database) = unavailable
  read_failure-Refusal e of_code = unauthenticated

  write_failure-Refusal : (e : Exc) → Inside e → Refusal reason (write_failure e)
  write_failure-Refusal e (of_session of_operational) = unavailable
  write_failure-Refusal e (of_session of_integrity) = unauthenticated
  write_failure-Refusal e (of_session of_database) = unavailable
  write_failure-Refusal e of_code = unauthenticated

  Inside-the_identity : (o : Option MachineIdentity) → Fails Inside (the_identity o)
  Inside-the_identity none = Fails-err (intake machine_authentication_failure) of_code
  Inside-the_identity (some i) = Fails-ok i

  raised : (e : Exc) → Raised e → Inside e
  raised e h = of_session h

  Raises-read_credentials :
      (settings : MachineSettings) (service_id : Text)
      → Raises Inside (read_credentials settings service_id)
  unfolding read_credentials
  Raises-read_credentials settings service_id =
      search (raises_rules, Raises-query, raised, Inside-the_identity) depth 20

  Raises-record_nonce :
      (settings : MachineSettings) (now : ℕ) (r : Claimed) (identity : MachineIdentity)
      (credential : MachineCredentialVersion)
      → Raises Inside (record_nonce p resolve settings now r identity credential)
  unfolding record_nonce
  Raises-record_nonce settings now r identity credential =
      search (raises_rules, Raises-write, raised) depth 20

  Fails-bytes_of :
      (request : Request p.Bytes) (r : Claimed)
      → Fails (Refusal reason) (bytes_of p resolve request r)
  unfolding canonical_signing_bytes signing_text
  Fails-bytes_of request r = search (fails_rules, Fails-canonical_path_and_query) depth 10

  -- what follows the rows
  Raises-rest :
      (settings : MachineSettings) (now : ℕ) (r : Claimed) (signing_bytes : p.Bytes)
      (rows : MachineIdentity × List MachineCredentialVersion)
      → UndatedIn reason rows.1
      → Raises (Refusal reason) (
          lift (signer p resolve now signing_bytes r.supplied_signature rows) >>= λ credential.
          rethrow write_failure
            (in_transaction (record_nonce p resolve settings now r rows.0 credential))
          >>= λ _. pure (service_of p resolve rows.0 credential))
  Raises-rest settings now r signing_bytes rows undated =
      Raises-bind _ _
        (Raises-lift _
          (Fails-signer reason p resolve now signing_bytes r.supplied_signature rows undated))
        λ credential.
          Raises-bind _ _
            (Raises-rethrow write_failure _ write_failure-Refusal (
              Raises-in_transaction Inside raised _
                (Raises-record_nonce settings now r rows.0 credential)))
            λ _. Raises-pure _

Fails-continue :
    {A B : Type 0} {E : Exc → Type 0} (r : Result A) (f : A → Tx B) (t : Session)
    → Fails E r
    → ((a : A) → r ≡ ok a → Fails E (f a t).0)
    → Fails E (continue r f t).0
Fails-continue (ok a) f t h k = k a refl
Fails-continue (err e) f t h k = Fails-err e (h.at e refl)

ok_value : {A : Type 0} (b a : A) → ◌≡◌ {A = Result A} (ok b) (ok a) → b ≡ a
ok_value b a h = ground arith

when_ok :
    {A : Type 0} (Q : A → Session → Type 0) (r : Result A × Session) (a : A)
    → WhenOk Q r
    → r.0 ≡ ok a
    → Q a r.1
when_ok Q (ok b, t) a w h = subst (λ x. Q x t) (ok_value b a h) w
when_ok Q (err e, t) a w h = absurd (ground arith)

-- The headers of the request name an identity whose previous credential version has no time.
abbrev pub MetUndated : (p : Platform) → MachineSettings → ℕ → Request p.Bytes → Db → Type 0
MetUndated p settings now request d =
    (r : Claimed) × (claimed now settings.machine_clock_skew_seconds request ≡ ok r)
    × Undated settings.app_environment r.service_id d

-- A request that is not accepted raises a 401 or a 503, or its headers name an active identity of
-- the environment that has, in the database, a previous credential version without its time.
pub authenticate-Refusal :
    (p : Platform) (resolve : String → Option p.Bytes) (settings : MachineSettings) (now : ℕ)
    (request : Request p.Bytes) (s : Session) (e : Exc)
    → (authenticate p resolve settings now request s).0 ≡ err e
    → Refusal (MetUndated p settings now request s.committed) e
unfolding authenticate
authenticate-Refusal p resolve settings now request s e h =
    (Fails-continue (claimed now settings.machine_clock_skew_seconds request) _ s
        (Fails-claimed reason now _ request)
        λ r claim.
          Fails-continue (bytes_of p resolve request r) _ s
            (Fails-bytes_of reason p resolve request r)
            λ signing_bytes _.
              Fails-continue (read_of r s).0 _ (read_of r s).1
                ((Raises-rethrow read_failure _ (read_failure-Refusal reason p resolve) (
                    Raises-read_only _
                      (Raises-read_credentials reason p resolve settings r.service_id))).at
                  s)
                λ rows got.
                  let known = when_ok _ (read_of r s) rows (reads r s) got in
                  (Raises-rest reason p resolve settings now r signing_bytes rows
                      (λ q alone none_until. (
                        r,
                        claim,
                        read-Undated settings.app_environment r.service_id s.committed rows.0 rows.1
                            known.0 known.1 q alone none_until,
                      ))).at
                    (read_of r s).1).at
      e h
  where
    reason : Type 0
    reason = MetUndated p settings now request s.committed

    read_of : Claimed → Session → Result (MachineIdentity × List MachineCredentialVersion) × Session
    read_of r t = rethrow read_failure (read_only (read_credentials settings r.service_id)) t

    reads :
        (r : Claimed) (t : Session)
        → WhenOk (λ rows u. Read t.committed t.peer t.now settings r.service_id rows) (read_of r t)
    reads r t =
        (credentials-Read t.committed t.peer t.now settings r.service_id).at t (refl, refl, refl)
