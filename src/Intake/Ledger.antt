-- ===== src/Intake/Ledger.antt =====
-- What a returned intake did to the accepted keys and the service requests: one step of a ledger,
-- taken at one moment.
use ai_oas.Base.{
  ℕ, String, Text, ◌≡◌, refl, sym, ap, ◌∙◌, Bool, true, false, Option, none, some, List, ◌∷◌,
  find_first, any_of, text_eq, if◌then◌else◌,
}
use ai_oas.Errors.{Result, ok, err}
use ai_oas.Json.{entry}
use ai_oas.Platform.{Platform}
use ai_oas.Models.{ServiceRequest, AcceptedIntakeKey}
use ai_oas.Tables.{Db}
use ai_oas.Session.{Session, Tx, pure, lift, query, uuid4, ◌>>=◌}
use ai_oas.Session.Reason.{Keeps, Ends, WhenOk, Ends-seq, Ends-bind}
use ai_oas.Session.Statements.{On-IsStable, Ends-query, Keeps-uuid4}
use ai_oas.Session.Committing.{in_transaction-Ends-from}
use ai_oas.Session.Reading.{Ends-passed}
use ai_oas.Intake.New.{snapshot_of, IntakeServiceResult, in_intake_scope}
use ai_oas.Intake.Service.{
  as_uuid, store_replay, replay_result, create_replay, create_conflict, Found, absent, replayed,
  conflict, rejected, answer_key, answer_found, answer_known, reservation,
}
use ai_oas.Intake.Keep.{KeptByIntake, Keeps-store_replay, Keeps-create_conflict}

-- the accepted keys and the service requests
abbrev pub Tables : List AcceptedIntakeKey → List ServiceRequest → Db → Type 0
Tables keys requests d = (d.accepted_intake_keys ≡ keys) × (d.service_requests ≡ requests)

pub Tables-kept :
    (F : Type 0) (keys : List AcceptedIntakeKey) (requests : List ServiceRequest)
    → KeptByIntake (λ s. F × Tables keys requests s.working)
Tables-kept F keys requests = record {
  stable = record { faults = λ s l h. h; drawn = λ s n h. h };
  moved = λ s d e f h. (h.0, (e ∙ h.1.0, f ∙ h.1.1));
}

pub Ends-kept : {A : Type 0} (P : Session → Type 0) (m : Tx A) → Keeps P m → Ends P m (λ a t. P t)
Ends-kept {A} P m k = record { at = λ s h. when (m s) (k.at s h) }
  where
    when : (r : Result A × Session) → P r.1 → WhenOk (λ a t. P t) r
    when (ok a, t) h = h
    when (err e, t) h = tt

-- A returned intake, as a step on the database: a new key with its request, or a known key.
pub data Step (p : Platform) (key_digest hash : Text) (before after : Db) (r : IntakeServiceResult)
    : Type 0 where
  created :
      (k : AcceptedIntakeKey) (request : ServiceRequest)
      → any_of (in_intake_scope key_digest) before.accepted_intake_keys ≡ false
      → in_intake_scope key_digest k ≡ true
      → k.canonical_payload_hash ≡ hash
      → k.request_id ≡ r.service_request_id
      → k.safe_response_snapshot ≡ snapshot_of p r.delivery_id r.service_request_id
      → request.id ≡ r.service_request_id
      → r.status_code ≡ 201
      → Tables (k ∷ before.accepted_intake_keys) (request ∷ before.service_requests) after
      → Step p key_digest hash before after r
  repeated :
      (k : AcceptedIntakeKey)
      → find_first (in_intake_scope key_digest) before.accepted_intake_keys ≡ some k
      → text_eq k.canonical_payload_hash hash ≡ true
      → as_uuid p (entry "service_request_id" k.safe_response_snapshot) ≡ ok r.service_request_id
      → r.status_code ≡ 200
      → Tables before.accepted_intake_keys before.service_requests after
      → Step p key_digest hash before after r

module _ (p : Platform) (key_digest hash : Text) (c : Db) where
  -- how a transaction that looks for the key ends, on the database `c`
  abbrev pub Answered : Found p → Db → Type 0
  Answered absent d = d ≡ c
  Answered (replayed r) d = Step p key_digest hash c d r
  Answered (conflict id) d = Unit
  Answered (rejected id) d = Unit

  create_replay-Step :
      (k : AcceptedIntakeKey) (correlation_id : ℕ) (schema_version : String)
      → find_first (in_intake_scope key_digest) c.accepted_intake_keys ≡ some k
      → text_eq k.canonical_payload_hash hash ≡ true
      → Ends
          (λ s. Unit {0} × Tables c.accepted_intake_keys c.service_requests s.working)
          (create_replay p k correlation_id schema_version)
          (λ r t. Step p key_digest hash c t.working r)
  unfolding create_replay
  create_replay-Step k correlation_id schema_version found same =
      Ends-bind (uuid4 p) _ (Keeps-uuid4 _ kept.stable p) λ delivery_id.
        Ends-passed (as_uuid p (entry "service_request_id" k.safe_response_snapshot))
          (λ id.
            lift (as_uuid p (entry "original_delivery_id" k.safe_response_snapshot))
            >>= stored delivery_id id)
          λ request_id e.
            Ends-passed (as_uuid p (entry "original_delivery_id" k.safe_response_snapshot))
              (stored delivery_id request_id)
              λ original f.
                Ends-bind
                  (store_replay p k correlation_id schema_version delivery_id request_id original)
                  (λ v. pure (replay_result p correlation_id delivery_id request_id original v))
                  (Keeps-store_replay _ kept p k correlation_id schema_version delivery_id
                    request_id original)
                  λ version. record { at = λ s h. repeated k found same e refl h.1 }
    where
      stored : ℕ → ℕ → ℕ → Tx IntakeServiceResult
      stored delivery_id request_id original =
          store_replay p k correlation_id schema_version delivery_id request_id original >>= λ v.
          pure (replay_result p correlation_id delivery_id request_id original v)

      kept :
          KeptByIntake (λ s. Unit {0} × Tables c.accepted_intake_keys c.service_requests s.working)
      kept = Tables-kept (Unit {0}) c.accepted_intake_keys c.service_requests

  answer_key-Answered :
      (k : AcceptedIntakeKey) (correlation_id : ℕ) (schema_version : String)
      → find_first (in_intake_scope key_digest) c.accepted_intake_keys ≡ some k
      → Ends
          (λ s. s.working ≡ c)
          (answer_key p k hash correlation_id schema_version)
          (λ x t. Answered x t.working)
  unfolding answer_key
  answer_key-Answered k correlation_id schema_version found =
      by_hash (text_eq k.canonical_payload_hash hash) refl
    where
      replay : Tx (Found p)
      replay = create_replay p k correlation_id schema_version >>= λ r. pure (replayed r)

      refuse : Tx (Found p)
      refuse = create_conflict p k correlation_id schema_version none >>= λ id. pure (conflict id)

      start :
          (s : Session)
          → s.working ≡ c
          → Unit {0} × Tables c.accepted_intake_keys c.service_requests s.working
      start s h =
          (tt, (ap (λ (d : Db). d.accepted_intake_keys) h, ap (λ (d : Db). d.service_requests) h))

      by_hash :
          (b : Bool)
          → text_eq k.canonical_payload_hash hash ≡ b
          → Ends (λ s. s.working ≡ c) (if b then replay else refuse) (λ x t. Answered x t.working)
      by_hash true same =
          Ends-seq (λ r t. Step p key_digest hash c t.working r)
            (create_replay p k correlation_id schema_version) _
            (record {
              at = λ s h.
                  (create_replay-Step k correlation_id schema_version found same).at s (start s h);
            })
            λ r. record { at = λ s h. h }
      by_hash false other = record {
        at = λ s h.
            (Ends-bind
                {P = λ t. Unit {0} × Tables c.accepted_intake_keys c.service_requests t.working}
                (create_conflict p k correlation_id schema_version none) (λ id. pure (conflict id))
                (Keeps-create_conflict _ (Tables-kept (Unit {0}) _ _) p k correlation_id
                  schema_version none)
                (λ id. record { at = λ u g. tt })).at
              s (start s h);
      }

  answer_found-Answered :
      (o : Option AcceptedIntakeKey) (missing : Tx (Found p)) (correlation_id : ℕ)
      (schema_version : String)
      → Ends (λ s. s.working ≡ c) missing (λ x t. Answered x t.working)
      → o ≡ find_first (in_intake_scope key_digest) c.accepted_intake_keys
      → Ends
          (λ s. s.working ≡ c)
          (answer_found p o missing hash correlation_id schema_version)
          (λ x t. Answered x t.working)
  unfolding answer_found
  answer_found-Answered none missing correlation_id schema_version e h = e
  answer_found-Answered (some k) missing correlation_id schema_version e h =
      answer_key-Answered k correlation_id schema_version (sym h)

  pub answer_known-Answered :
      (missing : Tx (Found p)) (correlation_id : ℕ) (schema_version : String)
      → Ends (λ s. s.working ≡ c) missing (λ x t. Answered x t.working)
      → Ends
          (λ s. s.committed ≡ c)
          (answer_known p key_digest missing hash correlation_id schema_version)
          (λ x t. Answered x t.committed)
  unfolding answer_known reservation
  answer_known-Answered missing correlation_id schema_version e =
      in_transaction-Ends-from Answered (λ s. s.committed ≡ c) (λ s. s.working ≡ c) _ (λ s h. h)
        (Ends-seq
          (λ o t.
            (t.working ≡ c)
            × (o ≡ find_first (in_intake_scope key_digest) t.working.accepted_intake_keys))
          (query (λ d. find_first (in_intake_scope key_digest) d.accepted_intake_keys))
          (λ o. answer_found p o missing hash correlation_id schema_version)
          (Ends-query (λ s. s.working ≡ c) (On-IsStable (λ d. d ≡ c)) _)
          λ o. record {
            at = λ s h.
                (answer_found-Answered o missing correlation_id schema_version e (
                    h.1
                    ∙ ap
                        (λ (d : Db). find_first (in_intake_scope key_digest) d.accepted_intake_keys)
                        h.0)).at
                  s h.0;
          })
