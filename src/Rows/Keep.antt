-- ===== src/Rows/Keep.antt =====
-- The writes of rows keep every property of the command records, and what is committed.
use ai_oas.Base.{◌≡◌, refl}
use ai_oas.Models.{
  ServiceRequest, LogicalOperation, IntegrationAttempt, AttemptCallbackCredential, AuditEvent,
  OutboxMessage,
}
use ai_oas.Tables.{Db}
use ai_oas.Session.{Session}
use ai_oas.Session.Reason.{Keeps}
use ai_oas.Session.Statements.{IsStable, Keeps-write}
use ai_oas.Rows.{
  update_request, insert_operation, insert_attempt, insert_credential, insert_audit, insert_outbox,
  update_attempt,
}

-- A property that a change of the other tables keeps.
pub record KeptByRows (P : Session → Type 0) : Type 0 where
  pub stable : IsStable P
  pub moved :
      (s : Session) (d : Db)
      → d.command_records ≡ s.working.command_records
      → P s
      → P (record s { working = d })

module _ (P : Session → Type 0) (kept : KeptByRows P) where
  pub Keeps-update_request : (r : ServiceRequest) → Keeps P (update_request r)
  unfolding update_request
  Keeps-update_request r = Keeps-write P kept.stable _ _ (λ s h. kept.moved s _ refl h)

  pub Keeps-insert_operation : (o : LogicalOperation) → Keeps P (insert_operation o)
  unfolding insert_operation
  Keeps-insert_operation o = Keeps-write P kept.stable _ _ (λ s h. kept.moved s _ refl h)

  pub Keeps-insert_attempt : (a : IntegrationAttempt) → Keeps P (insert_attempt a)
  unfolding insert_attempt
  Keeps-insert_attempt a = Keeps-write P kept.stable _ _ (λ s h. kept.moved s _ refl h)

  pub Keeps-update_attempt : (a : IntegrationAttempt) → Keeps P (update_attempt a)
  unfolding update_attempt
  Keeps-update_attempt a = Keeps-write P kept.stable _ _ (λ s h. kept.moved s _ refl h)

  pub Keeps-insert_credential : (c : AttemptCallbackCredential) → Keeps P (insert_credential c)
  unfolding insert_credential
  Keeps-insert_credential c = Keeps-write P kept.stable _ _ (λ s h. kept.moved s _ refl h)

  pub Keeps-insert_audit : (e : AuditEvent) → Keeps P (insert_audit e)
  unfolding insert_audit
  Keeps-insert_audit e = Keeps-write P kept.stable _ _ (λ s h. kept.moved s _ refl h)

  pub Keeps-insert_outbox : (m : OutboxMessage) → Keeps P (insert_outbox m)
  unfolding insert_outbox
  Keeps-insert_outbox m = Keeps-write P kept.stable _ _ (λ s h. kept.moved s _ refl h)

pub ruleset row_rules = (
  Keeps-update_request, Keeps-insert_operation, Keeps-insert_attempt, Keeps-update_attempt,
  Keeps-insert_credential, Keeps-insert_audit, Keeps-insert_outbox,
)
