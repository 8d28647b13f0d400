-- ===== src/Intake/Rejecting.antt =====
-- intake/service.py: `process_rejected`.
use ai_oas.Base.{ℕ, String, Text, Option, none, some, [], ◌∷◌}
use ai_oas.Json.{Json}
use ai_oas.Errors.{intake, runtime}
use ai_oas.Platform.{Platform}
use ai_oas.Models.{IntakeOutcome, AcceptedIntakeKey}
use ai_oas.Session.{Tx, pure, raise, gets, uuid4, in_transaction, ◌>>=◌, ◌>>◌}
use ai_oas.Intake.Rows.{insert_delivery}
use ai_oas.Intake.New.{new_event, flush_event}
use ai_oas.Intake.Service.{
  reservation, conflict_error, create_conflict, rejected_delivery, rejected_payload, Found, absent,
  replayed, conflict, rejected,
}

module _ (p : Platform) where
  unfoldable pub reject :
      Option AcceptedIntakeKey
      → Text
      → ℕ
      → String
      → String
      → Option Json
      → Option Text
      → Tx (Found p)
  unfolding create_conflict uuid4 new_event insert_delivery flush_event
  reject (some key) key_digest correlation_id schema_version error_code issues fingerprint =
      create_conflict p key correlation_id schema_version fingerprint >>= λ id. pure (conflict id)
  reject none key_digest correlation_id schema_version error_code issues fingerprint = do
    delivery_id ← uuid4 p
    completed_at ← gets (λ s. p.utc_now s.drawn)
    let delivery =
        rejected_delivery p key_digest correlation_id schema_version delivery_id fingerprint
          IntakeOutcome.invalid error_code completed_at
    event ←
        new_event p "inbound_delivery.rejected" "InboundDelivery" delivery_id delivery_id
          correlation_id "Invalid" (error_code ∷ []) (rejected_payload p delivery_id "Invalid")
    insert_delivery (record delivery { sanitized_issues = issues })
    flush_event p event
    pure (rejected delivery_id)

  abbrev pub rejection : Found p → Tx ℕ
  rejection absent = raise runtime
  rejection (replayed r) = raise runtime
  rejection (conflict id) = raise (intake (conflict_error id))
  rejection (rejected id) = pure id

  -- `issues` is `none` for an empty list.
  unfoldable pub process_rejected : Text → ℕ → String → String → Option Json → Option Text → Tx ℕ
  unfolding in_transaction reservation reject
  process_rejected key_digest correlation_id schema_version error_code issues fingerprint = do
    found ← in_transaction (do
      key ← reservation key_digest
      reject key key_digest correlation_id schema_version error_code issues fingerprint)
    rejection found
