-- ===== src/Intake/Failing.antt =====
-- The exceptions of the transactions of the intake service.
use ai_oas.Base.{
  ℕ, String, Text, Bool, true, false, Option, none, some, List, text_eq, if◌then◌else◌,
}
use ai_oas.Json.{Json, null, bool, num, str, arr, obj}
use ai_oas.Errors.{Exc, integrity, runtime, value, unexpected}
use ai_oas.Platform.{Platform}
use ai_oas.Models.{InboundDelivery, AcceptedIntakeKey, AuditEvent, OutboxMessage}
use ai_oas.Session.{Tx, pure, raise_if, in_transaction, ◌>>=◌}
use ai_oas.Session.Raising.{
  Fails, Raises, Fails-ok, Fails-err, Raises-bind, Raises-pure, Raises-query, Raises-write,
  Raises-in_transaction, Raised, of_integrity, raises_rules,
}
use ai_oas.Rows.{insert_audit, insert_outbox}
use ai_oas.Intake.Payload.{IntakeRequest}
use ai_oas.Intake.Rows.{
  insert_intake_key, insert_contact, insert_delivery, update_delivery, insert_request,
}
use ai_oas.Intake.New.{new_event, flush_event, new_evidence, new_body, create_with, create_new}
use ai_oas.Intake.Service.{
  as_uuid, as_int, parsed, store_replay, create_replay, create_conflict, answer_key, answer_found,
  answer_known, Found, replayed, conflict, reservation,
}
use ai_oas.Intake.Rejecting.{reject}

-- An exception that is no IntakeError.
pub data Inner : Exc → Type 0 where
  of_session : {e : Exc} → Raised e → Inner e
  of_value : Inner value
  of_unexpected : Inner unexpected
  of_runtime : Inner runtime

raised : (e : Exc) → Raised e → Inner e
raised e h = of_session h

module _ (p : Platform) where
  parsed-Inner : (o : Option ℕ) → Fails Inner (parsed p o)
  parsed-Inner none = Fails-err value of_value
  parsed-Inner (some u) = Fails-ok u

  as_uuid-Inner : (o : Option Json) → Fails Inner (as_uuid p o)
  as_uuid-Inner none = Fails-err _ of_unexpected
  as_uuid-Inner (some (str s)) = parsed-Inner (p.uuid_parse s)
  as_uuid-Inner (some null) = Fails-err _ of_unexpected
  as_uuid-Inner (some (bool b)) = Fails-err _ of_unexpected
  as_uuid-Inner (some (num n)) = Fails-err _ of_unexpected
  as_uuid-Inner (some (arr l)) = Fails-err _ of_unexpected
  as_uuid-Inner (some (obj f)) = Fails-err _ of_unexpected

  as_int-Inner : (o : Option Json) → Fails Inner (as_int p o)
  as_int-Inner none = Fails-err _ of_unexpected
  as_int-Inner (some (num n)) = Fails-ok n
  as_int-Inner (some null) = Fails-err _ of_unexpected
  as_int-Inner (some (bool b)) = Fails-err _ of_unexpected
  as_int-Inner (some (str s)) = Fails-err _ of_unexpected
  as_int-Inner (some (arr l)) = Fails-err _ of_unexpected
  as_int-Inner (some (obj f)) = Fails-err _ of_unexpected

  Raises-flush_event : (e : AuditEvent × OutboxMessage) → Raises Inner (flush_event p e)
  unfolding flush_event insert_audit insert_outbox
  Raises-flush_event (a, m) = search (raises_rules, Raises-write, raised) depth 20

  Raises-insert_delivery : (v : InboundDelivery) → Raises Inner (insert_delivery v)
  unfolding insert_delivery
  Raises-insert_delivery v = search (raises_rules, Raises-write, raised) depth 20

  Raises-new_event :
      (name type : String) (id delivery_id correlation_id : ℕ) (outcome : String)
      (reasons : List String) (payload : Json)
      → Raises Inner (new_event p name type id delivery_id correlation_id outcome reasons payload)
  unfolding new_event
  Raises-new_event name type id delivery_id correlation_id outcome reasons payload =
      search raises_rules depth 20

  ruleset intake_rules = (
    raises_rules, Raises-query, Raises-write, raised, as_uuid-Inner, as_int-Inner,
    Raises-flush_event, Raises-insert_delivery, Raises-new_event,
  )

  Raises-store_replay :
      (key : AcceptedIntakeKey) (correlation_id : ℕ) (schema_version : String)
      (delivery_id request_id original_delivery_id : ℕ)
      → Raises Inner (
          store_replay p key correlation_id schema_version delivery_id request_id
            original_delivery_id)
  unfolding store_replay
  Raises-store_replay key correlation_id schema_version delivery_id request_id
        original_delivery_id =
      search intake_rules depth 30

  Raises-create_replay :
      (key : AcceptedIntakeKey) (correlation_id : ℕ) (schema_version : String)
      → Raises Inner (create_replay p key correlation_id schema_version)
  unfolding create_replay
  Raises-create_replay key correlation_id schema_version =
      search (intake_rules, Raises-store_replay) depth 30

  Raises-create_conflict :
      (key : AcceptedIntakeKey) (correlation_id : ℕ) (schema_version : String) (f : Option Text)
      → Raises Inner (create_conflict p key correlation_id schema_version f)
  unfolding create_conflict
  Raises-create_conflict key correlation_id schema_version f = search intake_rules depth 30

  Raises-reservation : (digest : Text) → Raises Inner (reservation digest)
  unfolding reservation
  Raises-reservation digest = Raises-query Inner raised _

  answer_found-Inner :
      (o : Option AcceptedIntakeKey) (missing : Tx (Found p)) (hash : Text) (correlation_id : ℕ)
      (schema_version : String)
      → Raises Inner missing
      → Raises Inner (answer_found p o missing hash correlation_id schema_version)
  unfolding answer_found answer_key
  answer_found-Inner none missing hash correlation_id schema_version h = h
  answer_found-Inner (some key) missing hash correlation_id schema_version h =
      by_hash (text_eq key.canonical_payload_hash hash)
    where
      by_hash :
          (b : Bool)
          → Raises {A = Found p} Inner (
              if b
              then (create_replay p key correlation_id schema_version >>= λ r. pure (replayed r))
              else (create_conflict p key correlation_id schema_version none >>= λ id.
                  pure (conflict id)))
      by_hash true =
          Raises-bind _ _ (Raises-create_replay key correlation_id schema_version)
            (λ r. Raises-pure _)
      by_hash false =
          Raises-bind _ _ (Raises-create_conflict key correlation_id schema_version none)
            (λ id. Raises-pure _)

  pub answer_known-Inner :
      (digest : Text) (missing : Tx (Found p)) (hash : Text) (correlation_id : ℕ)
      (schema_version : String)
      → Raises Inner missing
      → Raises Inner (answer_known p digest missing hash correlation_id schema_version)
  unfolding answer_known
  answer_known-Inner digest missing hash correlation_id schema_version h =
      Raises-in_transaction Inner raised _ (
        Raises-bind _ _ (Raises-reservation digest)
          λ o. answer_found-Inner o missing hash correlation_id schema_version h)

  pub reject-Inner :
      (digest : Text) (correlation_id : ℕ) (schema_version code : String) (issues : Option Json)
      (f : Option Text)
      → Raises Inner (
          in_transaction (
            reservation digest >>= λ o.
            reject p o digest correlation_id schema_version code issues f))
  unfolding reject
  reject-Inner digest correlation_id schema_version code issues f =
      Raises-in_transaction Inner raised _ (Raises-bind _ _ (Raises-reservation digest) by_key)
    where
      by_key :
          (o : Option AcceptedIntakeKey)
          → Raises Inner (reject p o digest correlation_id schema_version code issues f)
      by_key (some key) =
          Raises-bind _ _ (Raises-create_conflict key correlation_id schema_version f)
            (λ id. Raises-pure _)
      by_key none = search intake_rules depth 30

  no_clash-Inner : (b : Bool) → Raises Inner (raise_if b integrity)
  no_clash-Inner true = record { at = λ s. Fails-err _ (of_session of_integrity) }
  no_clash-Inner false = record { at = λ s. Fails-ok tt }

  Raises-new_evidence :
      (key : AcceptedIntakeKey) (v : InboundDelivery) (correlation_id : ℕ)
      → Raises Inner (new_evidence p key v correlation_id)
  unfolding new_evidence update_delivery
  Raises-new_evidence key v correlation_id = search (intake_rules, no_clash-Inner) depth 40

  pub create_new-Inner :
      (payload : IntakeRequest) (digest hash : Text) (correlation_id : ℕ)
      → Raises Inner (create_new p payload digest hash correlation_id)
  unfolding create_new create_with new_body insert_intake_key insert_contact insert_request
  create_new-Inner payload digest hash correlation_id =
      search (intake_rules, Raises-in_transaction, Raises-new_evidence) depth 40
