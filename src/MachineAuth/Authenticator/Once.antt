-- ===== src/MachineAuth/Authenticator/Once.antt =====
-- A nonce is accepted once for an identity.
use ai_oas.Base.{
  ℕ, String, Text, ◌≡◌, ◌≢◌, refl, sym, subst, ◌∙◌, Bool, true, false, ◌&&◌, ◌||◌, not, Option,
  List, [], ◌∷◌, ◌==◌, ==_refl, str_eq, eq_refl, text_eq, text_eq_refl, any_of, arith,
}
use ai_oas.Errors.{ok}
use ai_oas.Platform.{Platform}
use ai_oas.Identity.{AuthenticatedWorkflowService}
use ai_oas.Models.{MachineRequestNonce, MachineRequestNonce_checks, nonces_clash}
use ai_oas.Tables.{Db}
use ai_oas.Session.{Session}
use ai_oas.Session.Reason.{WhenOk-at}
use ai_oas.MachineAuth.Headers.{Request, Claimed, claimed}
use ai_oas.MachineAuth.Query.Fields.{ok_value}
use ai_oas.MachineAuth.Path.Escapes.{both_true}
use ai_oas.MachineAuth.Authenticator.{MachineSettings, accepts_nonce, authenticate}
use ai_oas.MachineAuth.Authenticator.Genuine.{Genuine, Consumed, authenticate-Ends}

-- the nonce with this digest is recorded for the identity
unfoldable pub used : String → ℕ → Text → Db → Bool
used environment identity_id digest d =
    any_of
      (λ x.
        x.machine_identity_id == identity_id
        && str_eq x.environment environment
        && text_eq x.nonce_digest digest)
      d.machine_nonces

not-true : {b : Bool} → not b ≡ true → b ≡ false
not-true {b} h = ground arith

contradiction : {b : Bool} → b ≡ true → b ≡ false → ⊥
contradiction h k = cc

none_clashes :
    (n : MachineRequestNonce) (l : List MachineRequestNonce)
    → any_of (λ x. x.id == n.id || nonces_clash x n) l ≡ false
    → any_of (λ x. nonces_clash x n) l ≡ false
none_clashes n [] h = refl
none_clashes n (x ∷ l) h = ground (arith, none_clashes n l)

module _ (p : Platform) (resolve : String → Option p.Bytes) where
  unused_before :
      (n : MachineRequestNonce) (d : Db)
      → accepts_nonce p resolve n d ≡ true
      → used n.environment n.machine_identity_id n.nonce_digest d ≡ false
  unfolding accepts_nonce used nonces_clash
  unused_before n d h = none_clashes n d.machine_nonces (
      let checks = both_true {a = MachineRequestNonce_checks n} h in
      let identities =
        both_true {a = any_of (λ i. i.id == n.machine_identity_id) d.machine_identities} checks.1 in
      let credentials =
        both_true {a = any_of (λ c. c.id == n.machine_credential_version_id) d.machine_credentials}
          identities.1 in
      not-true credentials.1)

  used_after :
      (n : MachineRequestNonce) (d : Db)
      → used n.environment n.machine_identity_id n.nonce_digest
          (record d { machine_nonces = n ∷ d.machine_nonces })
        ≡ true
  unfolding used
  used_after n d =
      rw (==_refl n.machine_identity_id)
        (rw (eq_refl n.environment) (rw (text_eq_refl n.nonce_digest)))

  -- An accepted request rests on accepted headers, an active identity, a usable credential of it
  -- that signs the request, and a nonce that was not recorded.
  pub authenticate-Genuine :
      (settings : MachineSettings) (now : ℕ) (request : Request p.Bytes) (s : Session)
      (service : AuthenticatedWorkflowService)
      → (authenticate p resolve settings now request s).0 ≡ ok service
      → Genuine p resolve settings now request service s.committed
          (s.peer s.committed)
          (authenticate p resolve settings now request s).1.committed
  authenticate-Genuine settings now request s service h =
      WhenOk-at _ (authenticate p resolve settings now request s) service h (
        (authenticate-Ends p resolve s.committed s.peer s.now settings now request).at s
          (refl, refl, refl))

  module _ {environment : String} {identity_id : ℕ} {digest : Text} {before after : Db} where
    Consumed-unused :
        Consumed p resolve environment identity_id digest before after
        → used environment identity_id digest before ≡ false
    Consumed-unused c =
        rw (← c.of_identity, ← c.of_environment, ← c.of_digest)
          (unused_before c.row before c.accepted)

    Consumed-used :
        Consumed p resolve environment identity_id digest before after
        → used environment identity_id digest after ≡ true
    Consumed-used c =
        rw (← c.of_identity, ← c.of_environment, ← c.of_digest, c.recorded)
          (used_after c.row before)

  -- The nonce of an accepted request was not recorded for its identity when it was inserted, and is
  -- recorded in what is then committed.
  pub authenticate-used :
      (settings : MachineSettings) (now : ℕ) (request : Request p.Bytes) (s : Session)
      (service : AuthenticatedWorkflowService) (r : Claimed)
      → (authenticate p resolve settings now request s).0 ≡ ok service
      → claimed now settings.machine_clock_skew_seconds request ≡ ok r
      → (used settings.app_environment service.machine_identity_id
            (p.sha256 (p.encode r.nonce))
            (s.peer s.committed)
          ≡ false)
        × (used settings.app_environment service.machine_identity_id
              (p.sha256 (p.encode r.nonce))
              (authenticate p resolve settings now request s).1.committed
            ≡ true)
  authenticate-used settings now request s service r h e =
      let g = authenticate-Genuine settings now request s service h in
      let same = ok_value g.headers r (sym g.claim ∙ e) in
      rw (g.names, ← same) (Consumed-unused g.consumed, Consumed-used g.consumed)

  -- Two requests with one nonce are not both accepted for the same identity, if the nonces that are
  -- recorded after the first are still recorded when the second inserts its own.
  pub authenticate-once :
      (settings : MachineSettings) (now later : ℕ) (first second : Request p.Bytes) (s t : Session)
      (a b : AuthenticatedWorkflowService) (q r : Claimed)
      → (authenticate p resolve settings now first s).0 ≡ ok a
      → (authenticate p resolve settings later second t).0 ≡ ok b
      → claimed now settings.machine_clock_skew_seconds first ≡ ok q
      → claimed later settings.machine_clock_skew_seconds second ≡ ok r
      → q.nonce ≡ r.nonce
      → ((environment : String) (identity_id : ℕ) (digest : Text)
          → used environment identity_id digest
              (authenticate p resolve settings now first s).1.committed
            ≡ true
          → used environment identity_id digest (t.peer t.committed) ≡ true)
      → a.machine_identity_id ≢ b.machine_identity_id
  authenticate-once settings now later first second s t a b q r h k e f same kept one =
      let one_use = (authenticate-used settings now first s a q h e).1 in
      let still =
        kept settings.app_environment a.machine_identity_id (p.sha256 (p.encode q.nonce)) one_use in
      let seen : Db = t.peer t.committed in
      let unused = (authenticate-used settings later second t b r k f).0 in
      contradiction
        (subst (λ i. used settings.app_environment i (p.sha256 (p.encode q.nonce)) seen ≡ true) one
          still)
        (subst
          (λ n.
            used settings.app_environment b.machine_identity_id (p.sha256 (p.encode n)) seen
            ≡ false)
          (sym same) unused)
