-- ===== src/Api/Intake/Answering.antt =====
-- Every answer of the route: its status, and the delivery that an error names.
use ai_oas.Base.{
  ℕ, ◌≡◌, refl, sym, subst, ◌∙◌, String, Text, true, Option, none, some, List, [], ◌∷◌, elem, arith,
}
use ai_oas.Json.{Json}
use ai_oas.Errors.{
  IntakeError, Exc, Result, ok, err, intake, operational, integrity, database, runtime, value,
  unexpected, as_intake,
}
use ai_oas.Platform.{Platform}
use ai_oas.Tables.{Db}
use ai_oas.Session.{Session, Tx, continue, pure, raise, in_transaction, ◌>>=◌}
use ai_oas.Session.Reason.{Ends, WhenOk}
use ai_oas.Session.Raising.{
  Fails, Raises, Fails-ok, Fails-err, of_operational, of_integrity, of_database,
}
use ai_oas.Intake.Payload.{IntakeRequest, canonical_payload_hash}
use ai_oas.Intake.New.{IntakeServiceResult, create_new}
use ai_oas.Intake.Service.{
  Found, absent, replayed, conflict, rejected, conflict_error, settled, handle_race, answer_known,
  create_or_resolve, process_valid, reservation,
}
use ai_oas.Intake.Rejecting.{reject, rejection, process_rejected}
use ai_oas.Intake.Ledger.{Step, created, repeated}
use ai_oas.Intake.Refined.{process_valid-Linear}
use ai_oas.Intake.Failing.{
  Inner, of_session, of_value, of_unexpected, of_runtime, answer_known-Inner, reject-Inner,
  create_new-Inner,
}
use ai_oas.Intake.Logged.{LoggedIn, Noted, rejecting-Noted, answer_known-Noted}
use ai_oas.Api.Transport.{ErrorBody, Validation, valid, invalid, safe_validation_details}
use ai_oas.Api.Intake.{
  failed, Answer, error_response, accepted_response, caught, malformed_json, validation_failed,
  issues_json, schema_version_of, answer_malformed, answer_invalid, answer_validated, answer_body,
}

-- the statuses that the route documents
abbrev pub documented : List ℕ
documented = 200 ∷ 201 ∷ 400 ∷ 409 ∷ 415 ∷ 422 ∷ 500 ∷ 503 ∷ []

-- The status of an answer is documented, its content has the correlation of its header if it is an
-- error, and a delivery that an error names is committed as rejected, with this correlation.
pub record Sound (a : Answer × Session) : Type 0 where
  pub status : elem a.0.status_code documented ≡ true
  pub correlated :
      (b : ErrorBody) → a.0.content ≡ failed b → b.correlation_id ≡ a.0.correlation_header
  pub delivered :
      (b : ErrorBody) (id : ℕ)
      → a.0.content ≡ failed b
      → b.delivery_id ≡ some id
      → (code : String) × LoggedIn id code a.0.correlation_header a.1.committed

-- An exception that is answered soundly.
pub record Excused (c : ℕ) (e : Exc) (t : Session) : Type 0 where
  pub status : elem (as_intake e).status_code documented ≡ true
  pub delivered :
      (id : ℕ)
      → (as_intake e).delivery_id ≡ some id
      → (code : String) × LoggedIn id code c t.committed

abbrev WhenErr : {A : Type 0} → (Exc → Session → Type 0) → Result A × Session → Type 0
WhenErr Q (ok a, t) = Unit
WhenErr Q (err e, t) = Q e t

inner-Excused : (c : ℕ) (e : Exc) (t : Session) → Inner e → Excused c e t
inner-Excused c e t (of_session of_operational) = record {
  status = refl;
  delivered = λ id h. absurd (ground arith);
}
inner-Excused c e t (of_session of_integrity) = record {
  status = refl;
  delivered = λ id h. absurd (ground arith);
}
inner-Excused c e t (of_session of_database) = record {
  status = refl;
  delivered = λ id h. absurd (ground arith);
}
inner-Excused c e t of_value = record { status = refl; delivered = λ id h. absurd (ground arith) }
inner-Excused c e t of_unexpected = record {
  status = refl;
  delivered = λ id h. absurd (ground arith);
}
inner-Excused c e t of_runtime = record { status = refl; delivered = λ id h. absurd (ground arith) }

pub error_response-Sound :
    (c : ℕ) (e : Exc) (t : Session) → Excused c e t → Sound (error_response (as_intake e) c, t)
error_response-Sound c e t h = record {
  status = h.status;
  correlated = λ b e'. ground arith;
  delivered = λ b id e' f. h.delivered id (ground arith);
}

some_eq : {a b : ℕ} → some a ≡ some b → a ≡ b
some_eq e = ground arith

conflict-Excused :
    (c id : ℕ) (t : Session)
    → LoggedIn id "IDEMPOTENCY_CONFLICT" c t.committed
    → Excused c (intake (conflict_error id)) t
conflict-Excused c id t h = record {
  status = refl;
  delivered = λ i e. (
    "IDEMPOTENCY_CONFLICT",
    subst (λ n. LoggedIn n "IDEMPOTENCY_CONFLICT" c t.committed) (some_eq e) h,
  );
}

module _ (p : Platform) (c : ℕ) where
  -- a known key is answered, or the call goes on
  settled-Excused :
      (r : Result (Found p) × Session)
      → Fails Inner r.0
      → WhenOk (λ x t. Noted p "IDEMPOTENCY_CONFLICT" c x t.committed) r
      → (next : Tx IntakeServiceResult) → ((t : Session) → WhenErr (Excused c) (next t))
      → WhenErr (Excused c) (continue r.0 (λ found. settled p found next) r.1)
  settled-Excused (ok absent, t) inner noted next h = h t
  settled-Excused (ok (replayed r), t) inner noted next h = tt
  settled-Excused (ok (conflict id), t) inner noted next h = conflict-Excused c id t noted
  settled-Excused (ok (rejected id), t) inner noted next h = inner-Excused c runtime t of_runtime
  settled-Excused (err e, t) inner noted next h = inner-Excused c e t (inner.at e refl)

  handle_race-Excused :
      (r : Result IntakeServiceResult × Session)
      → Fails Inner r.0
      → (next : Tx IntakeServiceResult) → ((t : Session) → WhenErr (Excused c) (next t))
      → WhenErr (Excused c) (handle_race p r next)
  handle_race-Excused (ok r, t) inner next h = tt
  handle_race-Excused (err integrity, t) inner next h = h t
  handle_race-Excused (err (intake e), t) inner next h =
      inner-Excused c (intake e) t (inner.at (intake e) refl)
  handle_race-Excused (err operational, t) inner next h =
      inner-Excused c operational t (inner.at operational refl)
  handle_race-Excused (err database, t) inner next h =
      inner-Excused c database t (inner.at database refl)
  handle_race-Excused (err runtime, t) inner next h = inner-Excused c runtime t of_runtime
  handle_race-Excused (err value, t) inner next h = inner-Excused c value t of_value
  handle_race-Excused (err unexpected, t) inner next h = inner-Excused c unexpected t of_unexpected

  module _ (payload : IntakeRequest) (digest : Text) where
    known-Excused :
        (missing : Tx (Found p))
        → Raises Inner missing
        → Ends (λ s. Unit {0}) missing (λ x t. Noted p "IDEMPOTENCY_CONFLICT" c x t.working)
        → (next : Tx IntakeServiceResult) → ((t : Session) → WhenErr (Excused c) (next t))
        → (s : Session)
        → WhenErr (Excused c) (
            (answer_known p digest missing
                  (canonical_payload_hash p payload)
                  c
                  payload.schema_version
                >>= λ found. settled p found next)
              s)
    known-Excused missing raises ends next h s =
        settled-Excused
          (answer_known p digest missing (canonical_payload_hash p payload) c payload.schema_version
            s)
          ((answer_known-Inner p digest missing (canonical_payload_hash p payload) c
              payload.schema_version raises).at
            s)
          ((answer_known-Noted p digest missing (canonical_payload_hash p payload) c
              payload.schema_version ends).at
            s tt)
          next h

    resolve-Excused :
        (s : Session)
        → WhenErr
            (Excused c)
            (create_or_resolve p payload digest (canonical_payload_hash p payload) c s)
    unfolding create_or_resolve
    resolve-Excused s =
        handle_race-Excused (create_new p payload digest (canonical_payload_hash p payload) c s)
          ((create_new-Inner p payload digest (canonical_payload_hash p payload) c).at s) _
          (known-Excused (raise integrity)
            (record { at = λ t. Fails-err integrity (of_session of_integrity) })
            (record { at = λ t k. tt }) (raise runtime) (λ t. inner-Excused c runtime t of_runtime))

    process_valid-Excused : (s : Session) → WhenErr (Excused c) (process_valid p payload digest c s)
    unfolding process_valid
    process_valid-Excused s =
        known-Excused (pure absent) (record { at = λ t. Fails-ok absent })
          (record { at = λ t k. tt })
          (create_or_resolve p payload digest (canonical_payload_hash p payload) c) resolve-Excused
          s

  -- an answer that names the delivery of a rejected body
  named-Sound :
      (e : IntakeError) (id : ℕ) (code : String) (t : Session)
      → elem e.status_code documented ≡ true
      → e.delivery_id ≡ some id
      → LoggedIn id code c t.committed
      → Sound (error_response e c, t)
  named-Sound e id code t status named logged = record {
    status = status;
    correlated = λ b h. ground arith;
    delivered = λ b i h k. (
      code,
      subst (λ n. LoggedIn n code c t.committed) (some_eq (sym named ∙ ground arith)) logged,
    );
  }

  rejection-Sound :
      (code : String) (f : ℕ → IntakeError)
      → ((id : ℕ) → (elem (f id).status_code documented ≡ true) × ((f id).delivery_id ≡ some id))
      → (r : Result (Found p) × Session) → Fails Inner r.0
      → WhenOk (λ x t. Noted p code c x t.committed) r
      → let m = continue r.0 (rejection p) r.1 in
        Sound (caught c (continue m.0 (λ id. pure (error_response (f id) c)) m.1))
  rejection-Sound code f names (ok absent, t) inner noted =
      error_response-Sound c runtime t (inner-Excused c runtime t of_runtime)
  rejection-Sound code f names (ok (replayed r), t) inner noted =
      error_response-Sound c runtime t (inner-Excused c runtime t of_runtime)
  rejection-Sound code f names (ok (conflict id), t) inner noted =
      error_response-Sound c (intake (conflict_error id)) t (conflict-Excused c id t noted)
  rejection-Sound code f names (ok (rejected id), t) inner noted =
      named-Sound (f id) id code t (names id).0 (names id).1 noted
  rejection-Sound code f names (err e, t) inner noted =
      error_response-Sound c e t (inner-Excused c e t (inner.at e refl))

  module _ (py_str : Json → String) (model_validate : Json → Validation IntakeRequest)
      (digest : Text) where
    accepted-Sound :
        (r : IntakeServiceResult) (t : Session)
        → elem r.status_code documented ≡ true
        → Sound (accepted_response c r, t)
    accepted-Sound r t status = record {
      status = status;
      correlated = λ b h. absurd (ground arith);
      delivered = λ b id h k. absurd (ground arith);
    }

    processed-Sound :
        (m : Result IntakeServiceResult × Session)
        → WhenErr (Excused c) m
        → ((r : IntakeServiceResult) → m.0 ≡ ok r → elem r.status_code documented ≡ true)
        → Sound (caught c (continue m.0 (λ r. pure (accepted_response c r)) m.1))
    processed-Sound (ok r, t) excused status = accepted-Sound r t (status r refl)
    processed-Sound (err e, t) excused status = error_response-Sound c e t excused

    documented_status :
        (hash : Text) (before after : Db) (r : IntakeServiceResult)
        → Step p digest hash before after r
        → elem r.status_code documented ≡ true
    documented_status hash before after r
          (created k request fresh scope of_hash of_request snap id made tables) =
        rw made refl
    documented_status hash before after r (repeated k found same named status tables) =
        rw status refl

    validated-Sound :
        (parsed : Json) (v : Validation IntakeRequest) (s : Session)
        → Sound (caught c (answer_validated p model_validate py_str digest c parsed v s))
    unfolding answer_validated answer_invalid process_rejected
    validated-Sound parsed (valid payload) s =
        processed-Sound (process_valid p payload digest c s)
          (process_valid-Excused payload digest s)
          λ r h.
            let l = process_valid-Linear p payload digest c s r h in
            documented_status (canonical_payload_hash p payload) l.before _ r l.step
    validated-Sound parsed (invalid issues) s =
        rejection-Sound "INTAKE_VALIDATION_FAILED"
          (validation_failed (safe_validation_details issues)) (λ id. (refl, refl))
          (in_transaction
            (reservation digest >>= λ o.
              reject p o digest c (schema_version_of p model_validate py_str parsed)
                "INTAKE_VALIDATION_FAILED" (issues_json (safe_validation_details issues)) none)
            s)
          ((reject-Inner p digest c (schema_version_of p model_validate py_str parsed)
              "INTAKE_VALIDATION_FAILED" (issues_json (safe_validation_details issues)) none).at
            s)
          ((rejecting-Noted p digest c (schema_version_of p model_validate py_str parsed)
              "INTAKE_VALIDATION_FAILED" (issues_json (safe_validation_details issues)) none).at
            s tt)

    pub body-Sound :
        (raw_body : p.Bytes) (o : Option Json) (s : Session)
        → Sound (caught c (answer_body p model_validate py_str digest c raw_body o s))
    unfolding answer_body answer_malformed process_rejected
    body-Sound raw_body (some parsed) s = validated-Sound parsed (model_validate parsed) s
    body-Sound raw_body none s =
        rejection-Sound "MALFORMED_JSON" malformed_json (λ id. (refl, refl))
          (in_transaction
            (reservation digest >>= λ o.
              reject p o digest c "unknown" "MALFORMED_JSON" none (some (p.sha256 raw_body)))
            s)
          ((reject-Inner p digest c "unknown" "MALFORMED_JSON" none (some (p.sha256 raw_body))).at
            s)
          ((rejecting-Noted p digest c "unknown" "MALFORMED_JSON" none
              (some (p.sha256 raw_body))).at
            s tt)
