-- ===== src/Intake/Rows.antt =====
-- What a `flush` of the intake service writes, held to the constraints of db/models/intake.py.
use ai_oas.Base.{
  ℕ, Bool, true, Option, none, some, ◌∷◌, ◌&&◌, ◌||◌, not, ltb, ◌==◌, any_of, update_where,
}
use ai_oas.Models.{
  ServiceRequest, InboundDelivery, Contact, AcceptedIntakeKey, AcceptedIntakeKey_checks,
  intake_keys_clash, fits_integer, not_blank,
}
use ai_oas.Tables.{Db}
use ai_oas.Session.{Tx, write}

unfoldable pub accepts_intake_key : AcceptedIntakeKey → Db → Bool
accepts_intake_key k d =
    AcceptedIntakeKey_checks k
    && not (any_of (λ x. x.id == k.id || intake_keys_clash x k) d.accepted_intake_keys)

abbrev pub add_intake_key : AcceptedIntakeKey → Db → Db
add_intake_key k d = record d { accepted_intake_keys = k ∷ d.accepted_intake_keys }

unfoldable pub accepts_contact : Contact → Db → Bool
accepts_contact c d =
    ltb 0 c.version
    && (fits_integer c.version
        && (not_blank c.display_label && not (any_of (λ x. x.id == c.id) d.contacts)))

abbrev pub add_contact : Contact → Db → Db
add_contact c d = record d { contacts = c ∷ d.contacts }

-- A foreign key that may be NULL.
abbrev refers : Option ℕ → (ℕ → Bool) → Bool
refers none exists = true
refers (some id) exists = exists id

unfoldable pub delivery_refers : InboundDelivery → Db → Bool
delivery_refers v d =
    refers v.original_delivery_id (λ id. any_of (λ x. x.id == id) d.inbound_deliveries)
    && (refers v.created_request_id (λ id. any_of (λ x. x.id == id) d.service_requests)
        && (refers v.logical_result_request_id (λ id. any_of (λ x. x.id == id) d.service_requests)
            && refers v.accepted_intake_key_id
                (λ id. any_of (λ x. x.id == id) d.accepted_intake_keys)))

unfoldable pub accepts_delivery : InboundDelivery → Db → Bool
unfolding delivery_refers
accepts_delivery v d =
    ltb 0 v.version
    && (fits_integer v.version
        && (delivery_refers v d && not (any_of (λ x. x.id == v.id) d.inbound_deliveries)))

abbrev pub add_delivery : InboundDelivery → Db → Db
add_delivery v d = record d { inbound_deliveries = v ∷ d.inbound_deliveries }

abbrev pub replace_delivery : InboundDelivery → Db → Db
replace_delivery v d = record d {
  inbound_deliveries = update_where (λ x. x.id == v.id) (λ _. v) d.inbound_deliveries;
}

unfoldable pub accepts_request : ServiceRequest → Db → Bool
accepts_request r d =
    ltb 0 r.version
    && (fits_integer r.version
        && (not_blank r.normalized_request_description
            && (any_of (λ x. x.id == r.originating_delivery_id) d.inbound_deliveries
                && (any_of (λ x. x.id == r.contact_id) d.contacts
                    && not (
                        any_of
                          (λ x.
                            x.id == r.id || x.originating_delivery_id == r.originating_delivery_id)
                          d.service_requests)))))

abbrev pub add_request : ServiceRequest → Db → Db
add_request r d = record d { service_requests = r ∷ d.service_requests }

-- The deferred foreign keys of an accepted key, which the database tests at the commit.
unfoldable pub key_refers : AcceptedIntakeKey → Db → Bool
key_refers k d =
    any_of (λ x. x.id == k.original_delivery_id) d.inbound_deliveries
    && any_of (λ x. x.id == k.request_id) d.service_requests

unfoldable pub insert_intake_key : AcceptedIntakeKey → Tx (Unit {0})
unfolding write accepts_intake_key
insert_intake_key k = write (accepts_intake_key k) (add_intake_key k)

unfoldable pub insert_contact : Contact → Tx (Unit {0})
unfolding write accepts_contact
insert_contact c = write (accepts_contact c) (add_contact c)

unfoldable pub insert_delivery : InboundDelivery → Tx (Unit {0})
unfolding write accepts_delivery
insert_delivery v = write (accepts_delivery v) (add_delivery v)

unfoldable pub update_delivery : InboundDelivery → Tx (Unit {0})
unfolding write delivery_refers
update_delivery v = write (delivery_refers v) (replace_delivery v)

unfoldable pub insert_request : ServiceRequest → Tx (Unit {0})
unfolding write accepts_request
insert_request r = write (accepts_request r) (add_request r)
