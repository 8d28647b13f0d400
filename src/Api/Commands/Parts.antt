-- ===== src/Api/Commands/Parts.antt =====
-- The parts of a call of a command route that is answered.
use ai_oas.Base.{
  ℕ, ◌≡◌, refl, ap, subst, Text, Bool, true, false, List, [], ◌∷◌, arith, if◌then◌else◌,
}
use ai_oas.Json.{Json}
use ai_oas.Errors.{IntakeError, intake, Result, ok, err}
use ai_oas.Platform.{Platform}
use ai_oas.Session.{Session, Tx, lift, continue}
use ai_oas.Session.ReadOnly.{first_returned}
use ai_oas.Idempotency.Keys.{key_usable, missing_key}
use ai_oas.Api.Transport.{
  Validation, validate_json_content_type, command_idempotency_key, idempotency_key, usable_key,
}
use ai_oas.Api.Commands.{CommandCall, parse_command, parsed_path, command_route}

pub usable-key_usable :
    (p : Platform) (l : List Text) (k : Text)
    → command_idempotency_key p l ≡ ok k
    → key_usable k ≡ true
unfolding command_idempotency_key idempotency_key usable_key key_usable
usable-key_usable p [] k h = absurd (ground arith)
usable-key_usable p (v ∷ []) k h = by_test (usable_key p v) refl h
  where
    by_test :
        (b : Bool)
        → usable_key p v ≡ b
        → (if b then ok v else err (intake missing_key)) ≡ ok k
        → key_usable k ≡ true
    by_test true e x =
        let same : v ≡ k = ground arith in subst (λ w. key_usable w ≡ true) same (ground arith)
    by_test false e x = absurd (ground arith)
usable-key_usable p (v ∷ w ∷ l) k h = absurd (ground arith)

pub after_outcome :
    {A B : Type 0} (m : Result A × Session) (f : A → Result B)
    → (continue m.0 (λ o. lift (f o)) m.1).1 ≡ m.1
after_outcome (ok o, t) f = refl
after_outcome (err e, t) f = refl

pub passed :
    {A B : Type 0} (m : Result A × Session) (f : A → Result B) (o : A)
    → m.0 ≡ ok o
    → (continue m.0 (λ x. lift (f x)) m.1).0 ≡ f o
passed (ok x, t) f o h = ap f (ground arith)
passed (err e, t) f o h = absurd (ground arith)

module _ (p : Platform) (model_validate : Json → Validation ℕ) (missing : IntakeError)
    (call : CommandCall p.Bytes) where
  pub record Parts : Type 0 where
    pub raw_key : Text
    pub expected : ℕ
    pub id : ℕ
    pub key : command_idempotency_key p call.key_headers ≡ ok raw_key
    pub content_type : validate_json_content_type p call.content_type ≡ ok tt
    pub body : parse_command p model_validate call.raw_body ≡ ok expected
    pub path : parsed_path missing (p.uuid_parse call.path_id) ≡ ok id

  pub parts_of :
      {A : Type 0} (run : ℕ → ℕ → Text → Tx A) (s : Session) (a : A)
      → (command_route p model_validate missing run call s).0 ≡ ok a
      → Parts
  unfolding command_route
  parts_of run s a h =
      let (raw_key, key, h1) =
        first_returned (lift (command_idempotency_key p call.key_headers) s) _ a h in
      let (u, content_type, h2) =
        first_returned (lift (validate_json_content_type p call.content_type) s) _ a h1 in
      let (expected, body, h3) =
        first_returned (lift (parse_command p model_validate call.raw_body) s) _ a h2 in
      let (id, path, h4) =
        first_returned (lift (parsed_path missing (p.uuid_parse call.path_id)) s) _ a h3 in
      record {
        raw_key = raw_key;
        expected = expected;
        id = id;
        key = key;
        content_type = content_type;
        body = body;
        path = path;
      }

  -- The route of an accepted call runs its command.
  pub command_route-run :
      {A : Type 0} (run : ℕ → ℕ → Text → Tx A) (s : Session) (x : Parts)
      → command_route p model_validate missing run call s ≡ run x.id x.expected x.raw_key s
  unfolding command_route
  command_route-run run s x = rw x.key (rw x.content_type (rw x.body (rw x.path refl)))
