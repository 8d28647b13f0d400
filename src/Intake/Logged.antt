-- ===== src/Intake/Logged.antt =====
-- A conflict or a rejected payload that the intake service names has a committed delivery.
use ai_oas.Base.{
  ℕ, String, Text, ◌≡◌, refl, sym, subst, Bool, true, false, Option, none, some, List, [], ◌∷◌,
  text_eq, if◌then◌else◌,
}
use mathlib.Core.List.{Memᴰ}
use ai_oas.Json.{Json}
use ai_oas.Platform.{Platform}
use ai_oas.Models.{
  InboundDelivery, ProcessingStatus, IntakeOutcome, AcceptedIntakeKey, AuditEvent, OutboxMessage,
}
use ai_oas.Tables.{Db}
use ai_oas.Session.{Session, Tx, pure, gets, uuid4, in_transaction, ◌>>=◌, ◌>>◌}
use ai_oas.Session.Reason.{
  Keeps, Ends, Ends-bind, Ends-seq, Ends-weaken, Keeps-bind, Keeps-gets, keeps_rules,
}
use ai_oas.Session.Statements.{On, On-IsStable, Keeps-write, Ends-write, Keeps-uuid4, Keeps-query}
use ai_oas.Session.Committing.{in_transaction-Ends}
use ai_oas.Rows.{insert_audit, insert_outbox}
use ai_oas.Intake.Rows.{insert_delivery}
use ai_oas.Intake.New.{new_event, flush_event}
use ai_oas.Intake.Service.{
  create_replay, create_conflict, reservation, rejected_delivery, rejected_payload, Found, absent,
  replayed, conflict, rejected, answer_key, answer_found, answer_known,
}
use ai_oas.Intake.Rejecting.{reject}

-- One of the rows is a rejected delivery with this identifier, error code and correlation.
pub record Logged (id : ℕ) (code : String) (correlation_id : ℕ) (rows : List InboundDelivery)
    : Type 0 where
  pub row : InboundDelivery
  pub listed : Memᴰ row rows
  pub named : row.id ≡ id
  pub status : row.processing_status ≡ ProcessingStatus.rejected
  pub error_code : row.sanitized_error_code ≡ some code
  pub correlated : row.correlation_id ≡ correlation_id

abbrev pub LoggedIn : ℕ → String → ℕ → Db → Type 0
LoggedIn id code correlation_id d = Logged id code correlation_id d.inbound_deliveries

abbrev Anything : Session → Type 0
Anything = On (λ d. Unit {0})

-- a rejected delivery
abbrev Rejection : ℕ → String → ℕ → InboundDelivery → Type 0
Rejection id code correlation_id v =
    (v.id ≡ id)
    × (v.processing_status ≡ ProcessingStatus.rejected)
    × (v.sanitized_error_code ≡ some code)
    × (v.correlation_id ≡ correlation_id)

insert_delivery-Logged :
    (id : ℕ) (code : String) (correlation_id : ℕ) (v : InboundDelivery)
    → Rejection id code correlation_id v
    → Ends Anything (insert_delivery v) (λ _ t. LoggedIn id code correlation_id t.working)
unfolding insert_delivery
insert_delivery-Logged id code correlation_id v (named, status, error_code, correlated) =
    Ends-weaken _ _ _ (Ends-write Anything (On-IsStable _) _ _) λ _ t w.
      subst (λ (x : Session). LoggedIn id code correlation_id x.working) (sym w.3)
        (record {
          row = v;
          listed = Memᴰ.head refl;
          named = named;
          status = status;
          error_code = error_code;
          correlated = correlated;
        })

module _ (p : Platform) where
  Keeps-flush :
      (id : ℕ) (code : String) (correlation_id : ℕ) (e : AuditEvent × OutboxMessage)
      → Keeps (On (LoggedIn id code correlation_id)) (flush_event p e)
  unfolding flush_event insert_audit insert_outbox
  Keeps-flush id code correlation_id (a, m) =
      Keeps-bind _ _ (Keeps-write _ (On-IsStable _) _ _ (λ s h. h))
        λ _. Keeps-write _ (On-IsStable _) _ _ (λ s h. h)

  Keeps-event :
      (name type : String) (id delivery_id correlation_id : ℕ) (outcome : String)
      (reasons : List String) (payload : Json)
      → Keeps Anything (new_event p name type id delivery_id correlation_id outcome reasons payload)
  unfolding new_event
  Keeps-event name type id delivery_id correlation_id outcome reasons payload =
      search (keeps_rules, Keeps-uuid4, On-IsStable) depth 10

  -- the steps that write a rejected delivery, from the clock to its name
  delivered-Logged :
      {A : Type 0} (id : ℕ) (code : String) (correlation_id : ℕ) (clock : Session → ℕ)
      (event : Tx (AuditEvent × OutboxMessage)) (v : ℕ → InboundDelivery) (a : A)
      → Keeps Anything event
      → ((n : ℕ) → Rejection id code correlation_id (v n))
      → Ends Anything
          (gets clock >>= λ n. event >>= λ e. insert_delivery (v n) >> (flush_event p e >> pure a))
          (λ b t. (b ≡ a) × LoggedIn id code correlation_id t.working)
  delivered-Logged id code correlation_id clock event v a keeps rejection =
      Ends-bind (gets clock) _ (Keeps-gets clock) λ n. Ends-bind event _ keeps λ e.
        Ends-seq (λ _. On (LoggedIn id code correlation_id)) (insert_delivery (v n)) _
          (insert_delivery-Logged id code correlation_id (v n) (rejection n))
          λ _.
            Ends-bind (flush_event p e) (λ _. pure a) (Keeps-flush id code correlation_id e)
              λ _. record { at = λ s h. (refl, h) }

  -- how a transaction that looks for the key ends, if it names a delivery
  abbrev pub Noted : String → ℕ → Found p → Db → Type 0
  Noted code correlation_id absent d = Unit
  Noted code correlation_id (replayed r) d = Unit
  Noted code correlation_id (conflict id) d = LoggedIn id "IDEMPOTENCY_CONFLICT" correlation_id d
  Noted code correlation_id (rejected id) d = LoggedIn id code correlation_id d

  create_conflict-Noted :
      (code : String) (key : AcceptedIntakeKey) (correlation_id : ℕ) (schema_version : String)
      (f : Option Text)
      → Ends Anything
          (create_conflict p key correlation_id schema_version f >>= λ id. pure (conflict id))
          (λ x t. Noted code correlation_id x t.working)
  unfolding create_conflict
  create_conflict-Noted code key correlation_id schema_version f =
      Ends-seq (λ id t. LoggedIn id "IDEMPOTENCY_CONFLICT" correlation_id t.working)
        (create_conflict p key correlation_id schema_version f) _
        (Ends-bind (uuid4 p) _ (Keeps-uuid4 Anything (On-IsStable _) p) λ id.
          Ends-weaken _ _ _
            (delivered-Logged id "IDEMPOTENCY_CONFLICT" correlation_id (λ s. p.utc_now s.drawn)
              (new_event p "inbound_delivery.rejected" "InboundDelivery" id id correlation_id
                "IdempotencyConflict" ("IDEMPOTENCY_CONFLICT" ∷ [])
                (rejected_payload p id "IdempotencyConflict"))
              (λ n.
                record (rejected_delivery p key.idempotency_key_digest correlation_id schema_version
                  id f IntakeOutcome.idempotency_conflict "IDEMPOTENCY_CONFLICT" n) {
                    original_delivery_id = some key.original_delivery_id;
                    accepted_intake_key_id = some key.id;
                  })
              id (Keeps-event _ _ _ _ _ _ _ _) (λ n. (refl, refl, refl, refl)))
            λ b t h.
              subst (λ x. LoggedIn x "IDEMPOTENCY_CONFLICT" correlation_id t.working) (sym h.0) h.1)
        λ id. record { at = λ s h. h }

  reject-Noted :
      (o : Option AcceptedIntakeKey) (digest : Text) (correlation_id : ℕ)
      (schema_version code : String) (issues : Option Json) (f : Option Text)
      → Ends Anything
          (reject p o digest correlation_id schema_version code issues f)
          (λ x t. Noted code correlation_id x t.working)
  unfolding reject
  reject-Noted (some key) digest correlation_id schema_version code issues f =
      create_conflict-Noted code key correlation_id schema_version f
  reject-Noted none digest correlation_id schema_version code issues f =
      Ends-bind (uuid4 p) _ (Keeps-uuid4 Anything (On-IsStable _) p) λ id.
        Ends-weaken _ _ _
          (delivered-Logged id code correlation_id (λ s. p.utc_now s.drawn)
            (new_event p "inbound_delivery.rejected" "InboundDelivery" id id correlation_id
              "Invalid" (code ∷ []) (rejected_payload p id "Invalid"))
            (λ n.
              record (rejected_delivery p digest correlation_id schema_version id f
                IntakeOutcome.invalid code n) { sanitized_issues = issues })
            (rejected id) (Keeps-event _ _ _ _ _ _ _ _) (λ n. (refl, refl, refl, refl)))
          λ b t h. subst (λ x. Noted code correlation_id x t.working) (sym h.0) h.1

  pub rejecting-Noted :
      (digest : Text) (correlation_id : ℕ) (schema_version code : String) (issues : Option Json)
      (f : Option Text)
      → Ends
          (λ s. Unit {0})
          (in_transaction (
            reservation digest >>= λ o.
            reject p o digest correlation_id schema_version code issues f))
          (λ x t. Noted code correlation_id x t.committed)
  unfolding reservation
  rejecting-Noted digest correlation_id schema_version code issues f =
      in_transaction-Ends (λ x d. Noted code correlation_id x d) Anything _ (λ s. tt)
        (Ends-bind (reservation digest) _ (Keeps-query Anything (On-IsStable _) _)
          λ o. reject-Noted o digest correlation_id schema_version code issues f)

  answer_found-Noted :
      (o : Option AcceptedIntakeKey) (missing : Tx (Found p)) (hash : Text) (correlation_id : ℕ)
      (schema_version : String)
      → Ends Anything missing (λ x t. Noted "IDEMPOTENCY_CONFLICT" correlation_id x t.working)
      → Ends Anything
          (answer_found p o missing hash correlation_id schema_version)
          (λ x t. Noted "IDEMPOTENCY_CONFLICT" correlation_id x t.working)
  unfolding answer_found answer_key
  answer_found-Noted none missing hash correlation_id schema_version h = h
  answer_found-Noted (some key) missing hash correlation_id schema_version h =
      by_hash (text_eq key.canonical_payload_hash hash)
    where
      by_hash :
          (b : Bool)
          → Ends {A = Found p} Anything
              (if b
                then (create_replay p key correlation_id schema_version >>= λ r. pure (replayed r))
                else (create_conflict p key correlation_id schema_version none >>= λ id.
                    pure (conflict id)))
              (λ x t. Noted "IDEMPOTENCY_CONFLICT" correlation_id x t.working)
      by_hash true =
          Ends-bind (create_replay p key correlation_id schema_version) _
            (record { at = λ s k. tt }) λ r. record { at = λ s k. tt }
      by_hash false =
          create_conflict-Noted "IDEMPOTENCY_CONFLICT" key correlation_id schema_version none

  pub answer_known-Noted :
      (digest : Text) (missing : Tx (Found p)) (hash : Text) (correlation_id : ℕ)
      (schema_version : String)
      → Ends Anything missing (λ x t. Noted "IDEMPOTENCY_CONFLICT" correlation_id x t.working)
      → Ends
          (λ s. Unit {0})
          (answer_known p digest missing hash correlation_id schema_version)
          (λ x t. Noted "IDEMPOTENCY_CONFLICT" correlation_id x t.committed)
  unfolding answer_known reservation
  answer_known-Noted digest missing hash correlation_id schema_version h =
      in_transaction-Ends (λ x d. Noted "IDEMPOTENCY_CONFLICT" correlation_id x d) Anything _
        (λ s. tt)
        (Ends-bind (reservation digest) _ (Keeps-query Anything (On-IsStable _) _)
          λ o. answer_found-Noted o missing hash correlation_id schema_version h)
