-- ===== src/Intake/Keep.antt =====
-- What the statements of the intake service leave as it was.
use ai_oas.Base.{ℕ, String, Text, ◌≡◌, refl, Option, none, some, List}
use ai_oas.Json.{Json}
use ai_oas.Platform.{Platform}
use ai_oas.Models.{
  ServiceRequest, InboundDelivery, Contact, AcceptedIntakeKey, AuditEvent, OutboxMessage,
}
use ai_oas.Tables.{Db}
use ai_oas.Session.{Session, Tx, interleave, uuid4}
use ai_oas.Session.Reason.{Keeps, keeps_rules}
use ai_oas.Session.Statements.{IsStable, Keeps-write, Keeps-uuid4}
use ai_oas.Session.Committing.{IgnoresWorking}
use ai_oas.Rows.{insert_audit, insert_outbox}
use ai_oas.Intake.Payload.{IntakeRequest}
use ai_oas.Intake.Rows.{
  insert_intake_key, insert_contact, insert_delivery, update_delivery, insert_request,
}
use ai_oas.Intake.New.{new_evidence, new_event, flush_event, new_body}
use ai_oas.Intake.Service.{
  store_replay, create_replay, create_conflict, answer_key, answer_found, Found,
}

-- A property that a change of other tables than the keys and the requests keeps.
pub record KeptByIntake (P : Session → Type 0) : Type 0 where
  pub stable : IsStable P
  pub moved :
      (s : Session) (d : Db)
      → d.accepted_intake_keys ≡ s.working.accepted_intake_keys
      → d.service_requests ≡ s.working.service_requests
      → P s
      → P (record s { working = d })

module _ (P : Session → Type 0) (kept : KeptByIntake P) where
  pub Keeps-insert_contact : (c : Contact) → Keeps P (insert_contact c)
  unfolding insert_contact
  Keeps-insert_contact c = Keeps-write P kept.stable _ _ (λ s h. kept.moved s _ refl refl h)

  pub Keeps-insert_delivery : (v : InboundDelivery) → Keeps P (insert_delivery v)
  unfolding insert_delivery
  Keeps-insert_delivery v = Keeps-write P kept.stable _ _ (λ s h. kept.moved s _ refl refl h)

  pub Keeps-update_delivery : (v : InboundDelivery) → Keeps P (update_delivery v)
  unfolding update_delivery
  Keeps-update_delivery v = Keeps-write P kept.stable _ _ (λ s h. kept.moved s _ refl refl h)

  Keeps-audit : (e : AuditEvent) → Keeps P (insert_audit e)
  unfolding insert_audit
  Keeps-audit e = Keeps-write P kept.stable _ _ (λ s h. kept.moved s _ refl refl h)

  Keeps-outbox : (m : OutboxMessage) → Keeps P (insert_outbox m)
  unfolding insert_outbox
  Keeps-outbox m = Keeps-write P kept.stable _ _ (λ s h. kept.moved s _ refl refl h)

  module _ (p : Platform) where
    Keeps-id : Keeps P (uuid4 p)
    Keeps-id = Keeps-uuid4 P kept.stable p

    pub Keeps-new_event :
        (name type : String) (id delivery_id correlation_id : ℕ) (outcome : String)
        (reasons : List String) (payload : Json)
        → Keeps P (new_event p name type id delivery_id correlation_id outcome reasons payload)
    unfolding new_event
    Keeps-new_event name type id delivery_id correlation_id outcome reasons payload =
        search (keeps_rules, Keeps-id) depth 10

    pub Keeps-flush_event : (e : AuditEvent × OutboxMessage) → Keeps P (flush_event p e)
    unfolding flush_event
    Keeps-flush_event (a, m) = search (keeps_rules, Keeps-audit, Keeps-outbox) depth 10

    pub Keeps-new_evidence :
        (key : AcceptedIntakeKey) (delivery : InboundDelivery) (correlation_id : ℕ)
        → Keeps P (new_evidence p key delivery correlation_id)
    unfolding new_evidence
    Keeps-new_evidence key delivery correlation_id =
        search (keeps_rules, Keeps-new_event, Keeps-flush_event, Keeps-update_delivery) depth 40

    pub Keeps-store_replay :
        (key : AcceptedIntakeKey) (correlation_id : ℕ) (schema_version : String)
        (delivery_id request_id original_delivery_id : ℕ)
        → Keeps P (
            store_replay p key correlation_id schema_version delivery_id request_id
              original_delivery_id)
    unfolding store_replay
    Keeps-store_replay key correlation_id schema_version delivery_id request_id
          original_delivery_id =
        search (keeps_rules, Keeps-new_event, Keeps-flush_event, Keeps-insert_delivery) depth 40

    pub Keeps-create_replay :
        (key : AcceptedIntakeKey) (correlation_id : ℕ) (schema_version : String)
        → Keeps P (create_replay p key correlation_id schema_version)
    unfolding create_replay
    Keeps-create_replay key correlation_id schema_version =
        search (keeps_rules, Keeps-id, Keeps-store_replay) depth 40

    pub Keeps-create_conflict :
        (key : AcceptedIntakeKey) (correlation_id : ℕ) (schema_version : String)
        (fingerprint : Option Text)
        → Keeps P (create_conflict p key correlation_id schema_version fingerprint)
    unfolding create_conflict
    Keeps-create_conflict key correlation_id schema_version fingerprint =
        search (keeps_rules, Keeps-id, Keeps-new_event, Keeps-flush_event, Keeps-insert_delivery)
          depth 40

    pub Keeps-answer_found :
        (found : Option AcceptedIntakeKey) (missing : Tx (Found p)) (hash : Text)
        (correlation_id : ℕ) (schema_version : String)
        → Keeps P missing
        → Keeps P (answer_found p found missing hash correlation_id schema_version)
    unfolding answer_found answer_key
    Keeps-answer_found none missing hash correlation_id schema_version k = k
    Keeps-answer_found (some key) missing hash correlation_id schema_version k =
        search (keeps_rules, Keeps-create_replay, Keeps-create_conflict) depth 10

module _ (P : Session → Type 0) (ignores : IgnoresWorking P) where
  pub IgnoresWorking-intake : KeptByIntake P
  IgnoresWorking-intake = record {
    stable = ignores.stable;
    moved = λ s d e f h. ignores.working s d h;
  }

  Keeps-insert_intake_key : (k : AcceptedIntakeKey) → Keeps P (insert_intake_key k)
  unfolding insert_intake_key
  Keeps-insert_intake_key k = Keeps-write P ignores.stable _ _ (λ s h. ignores.working s _ h)

  Keeps-insert_request : (r : ServiceRequest) → Keeps P (insert_request r)
  unfolding insert_request
  Keeps-insert_request r = Keeps-write P ignores.stable _ _ (λ s h. ignores.working s _ h)

  Keeps-others : Keeps P interleave
  Keeps-others = record { at = λ s h. ignores.others s h }

  pub Keeps-new_body :
      (p : Platform) (payload : IntakeRequest) (key_digest hash : Text)
      (correlation_id delivery_id request_id contact_id reservation_id : ℕ)
      → Keeps P (
          new_body p payload key_digest hash correlation_id delivery_id request_id contact_id
            reservation_id)
  unfolding new_body
  Keeps-new_body p payload key_digest hash correlation_id delivery_id request_id contact_id
        reservation_id =
      search
        (
          keeps_rules, Keeps-others, Keeps-insert_intake_key, Keeps-insert_request,
          Keeps-insert_contact, Keeps-insert_delivery, Keeps-new_evidence, IgnoresWorking-intake,
        )
        depth 60
