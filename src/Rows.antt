-- ===== src/Rows.antt =====
-- What one `flush` writes: a new row or a changed row of a table, held to the table's constraints
-- (db/models). A database refuses a row that breaks one with `IntegrityError`.
pub mod Keep
use ai_oas.Base.{Bool, ◌∷◌, ◌&&◌, ◌||◌, not, ltb, ◌==◌, any_of, update_where}
use ai_oas.Models.{
  ServiceRequest, LogicalOperation, IntegrationAttempt, AttemptCallbackCredential, AuditEvent,
  OutboxMessage, fits_integer, LogicalOperation_checks, same_identity, IntegrationAttempt_checks,
  attempts_clash, AttemptCallbackCredential_checks, credentials_clash,
}
use ai_oas.Tables.{Db}
use ai_oas.Session.{Tx, write}

abbrev pub replace_request : ServiceRequest → Db → Db
replace_request r d = record d {
  service_requests = update_where (λ x. x.id == r.id) (λ _. r) d.service_requests;
}

-- `version > 0`, within PostgreSQL's `integer`
unfoldable pub update_request : ServiceRequest → Tx (Unit {0})
unfolding write
update_request r = write (λ _. ltb 0 r.version && fits_integer r.version) (replace_request r)

unfoldable pub accepts_operation : LogicalOperation → Db → Bool
unfolding LogicalOperation_checks same_identity
accepts_operation o d =
    LogicalOperation_checks o
    && any_of (λ r. r.id == o.service_request_id) d.service_requests
    && not (any_of (λ x. x.id == o.id || same_identity x o) d.logical_operations)

abbrev pub add_operation : LogicalOperation → Db → Db
add_operation o d = record d { logical_operations = o ∷ d.logical_operations }

unfoldable pub insert_operation : LogicalOperation → Tx (Unit {0})
unfolding write accepts_operation
insert_operation o = write (accepts_operation o) (add_operation o)

unfoldable pub accepts_attempt : IntegrationAttempt → Db → Bool
unfolding IntegrationAttempt_checks attempts_clash
accepts_attempt a d =
    IntegrationAttempt_checks a
    && any_of (λ o. o.id == a.logical_operation_id) d.logical_operations
    && any_of (λ r. r.id == a.service_request_id) d.service_requests
    && not (any_of (λ x. x.id == a.id || attempts_clash x a) d.integration_attempts)

abbrev pub add_attempt : IntegrationAttempt → Db → Db
add_attempt a d = record d { integration_attempts = a ∷ d.integration_attempts }

unfoldable pub insert_attempt : IntegrationAttempt → Tx (Unit {0})
unfolding write accepts_attempt
insert_attempt a = write (accepts_attempt a) (add_attempt a)

abbrev pub replace_attempt : IntegrationAttempt → Db → Db
replace_attempt a d = record d {
  integration_attempts = update_where (λ x. x.id == a.id) (λ _. a) d.integration_attempts;
}

unfoldable pub accepts_attempt_update : IntegrationAttempt → Db → Bool
unfolding IntegrationAttempt_checks attempts_clash
accepts_attempt_update a d =
    IntegrationAttempt_checks a
    && fits_integer a.version
    && not (any_of (λ x. not (x.id == a.id) && attempts_clash x a) d.integration_attempts)

unfoldable pub update_attempt : IntegrationAttempt → Tx (Unit {0})
unfolding write accepts_attempt_update
update_attempt a = write (accepts_attempt_update a) (replace_attempt a)

unfoldable pub accepts_credential : AttemptCallbackCredential → Db → Bool
unfolding AttemptCallbackCredential_checks credentials_clash
accepts_credential c d =
    AttemptCallbackCredential_checks c
    && any_of (λ a. a.id == c.integration_attempt_id) d.integration_attempts
    && not (any_of (λ x. x.id == c.id || credentials_clash x c) d.callback_credentials)

abbrev pub add_credential : AttemptCallbackCredential → Db → Db
add_credential c d = record d { callback_credentials = c ∷ d.callback_credentials }

unfoldable pub insert_credential : AttemptCallbackCredential → Tx (Unit {0})
unfolding write accepts_credential
insert_credential c = write (accepts_credential c) (add_credential c)

unfoldable pub accepts_audit : AuditEvent → Db → Bool
accepts_audit e d =
    ltb 0 e.aggregate_version
    && fits_integer e.aggregate_version
    && not (any_of (λ x. x.id == e.id) d.audit_events)

abbrev pub add_audit : AuditEvent → Db → Db
add_audit e d = record d { audit_events = e ∷ d.audit_events }

unfoldable pub insert_audit : AuditEvent → Tx (Unit {0})
unfolding write accepts_audit
insert_audit e = write (accepts_audit e) (add_audit e)

unfoldable pub accepts_outbox : OutboxMessage → Db → Bool
accepts_outbox m d =
    ltb 0 m.aggregate_version
    && fits_integer m.aggregate_version
    && any_of (λ e. e.id == m.audit_event_id) d.audit_events
    && not (any_of (λ x. x.id == m.id) d.outbox_messages)

abbrev pub add_outbox : OutboxMessage → Db → Db
add_outbox m d = record d { outbox_messages = m ∷ d.outbox_messages }

unfoldable pub insert_outbox : OutboxMessage → Tx (Unit {0})
unfolding write accepts_outbox
insert_outbox m = write (accepts_outbox m) (add_outbox m)
