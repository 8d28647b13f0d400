-- ===== src/Intake/Made.antt =====
-- What `_create_new` writes: a key that was not there, and its request.
use ai_oas.Base.{
  ℕ, Text, ◌≡◌, refl, ap, subst, ◌∙◌, Bool, true, false, ◌&&◌, ◌||◌, not, List, [], ◌∷◌, ◌==◌,
  any_of, text_eq, str_eq, arith,
}
use ai_oas.Platform.{Platform}
use ai_oas.Models.{AcceptedIntakeKey, AcceptedIntakeKey_checks, intake_keys_clash}
use ai_oas.Tables.{Db}
use ai_oas.Session.{Session, gets, interleave}
use ai_oas.Session.Reason.{Ends, Ends-seq, Ends-bind, Ends-weaken, Keeps-gets}
use ai_oas.Session.Statements.{On-IsStable, Ends-write}
use ai_oas.MachineAuth.Path.Escapes.{both_true}
use ai_oas.Intake.Payload.{IntakeRequest}
use ai_oas.Intake.Rows.{
  accepts_request, accepts_intake_key, add_intake_key, add_request, insert_intake_key,
  insert_request, insert_contact, insert_delivery,
}
use ai_oas.Intake.New.{
  new_evidence, new_delivery, in_intake_scope, new_key, contact_of, request_of, new_body,
}
use ai_oas.Intake.Keep.{Keeps-insert_contact, Keeps-insert_delivery, Keeps-new_evidence}
use ai_oas.Intake.Ledger.{Tables, Tables-kept, Ends-kept}

not-true : {b : Bool} → not b ≡ true → b ≡ false
not-true {b} h = ground arith

no_clash :
    (k : AcceptedIntakeKey) (l : List AcceptedIntakeKey)
    → any_of (λ x. x.id == k.id || intake_keys_clash x k) l ≡ false
    → any_of
        (λ x. str_eq x.scope k.scope && text_eq x.idempotency_key_digest k.idempotency_key_digest)
        l
      ≡ false
no_clash k [] h = refl
no_clash k (x ∷ l) h = ground (arith, no_clash k l)

accepted-fresh :
    (k : AcceptedIntakeKey) (d : Db)
    → accepts_intake_key k d ≡ true
    → any_of
        (λ x. str_eq x.scope k.scope && text_eq x.idempotency_key_digest k.idempotency_key_digest)
        d.accepted_intake_keys
      ≡ false
unfolding accepts_intake_key
accepted-fresh k d h =
    no_clash k d.accepted_intake_keys (not-true (both_true {a = AcceptedIntakeKey_checks k} h).1)

module _ (p : Platform) (payload : IntakeRequest) (key_digest hash : Text) (c : Db) (f : Db → Db)
    (correlation_id delivery_id request_id contact_id reservation_id : ℕ) where
  abbrev Key : AcceptedIntakeKey
  Key = new_key p key_digest hash delivery_id request_id reservation_id

  -- What the body of `_create_new` has written when it returns.
  abbrev pub Made : Db → Type 0
  Made d =
      (any_of (in_intake_scope key_digest) (f c).accepted_intake_keys ≡ false)
      × Tables (Key ∷ (f c).accepted_intake_keys)
          (request_of p payload delivery_id request_id contact_id ∷ (f c).service_requests) d

  abbrev Fresh : Type 0
  Fresh = any_of (in_intake_scope key_digest) (f c).accepted_intake_keys ≡ false

  abbrev Keyed : Session → Type 0
  Keyed s = Fresh × Tables (Key ∷ (f c).accepted_intake_keys) (f c).service_requests s.working

  key-Keyed : Ends (λ s. s.working ≡ f c) (insert_intake_key Key) (λ _ t. Keyed t)
  unfolding insert_intake_key
  key-Keyed =
      Ends-weaken (insert_intake_key Key) _ _
        (Ends-write (λ s. s.working ≡ f c) (On-IsStable (λ d. d ≡ f c)) (accepts_intake_key Key)
          (add_intake_key Key))
        λ u t h.
          let made = ap (λ (x : Session). x.working) h.3 ∙ ap (add_intake_key Key) h.1 in
          (
            subst (λ (d : Db). any_of (in_intake_scope key_digest) d.accepted_intake_keys ≡ false)
                h.1 (accepted-fresh Key h.0.working h.2),
            (
              ap (λ (d : Db). d.accepted_intake_keys) made,
              ap (λ (d : Db). d.service_requests) made,
            ),
          )

  request-Made :
      Ends Keyed
        (insert_request (request_of p payload delivery_id request_id contact_id))
        (λ _ t. Made t.working)
  unfolding insert_request
  request-Made =
      Ends-weaken (insert_request (request_of p payload delivery_id request_id contact_id)) _ _
        (Ends-write Keyed (Tables-kept Fresh _ _).stable
          (accepts_request (request_of p payload delivery_id request_id contact_id))
          (add_request (request_of p payload delivery_id request_id contact_id)))
        λ u t h. (
          h.1.0,
          (
            ap (λ (x : Session). x.working.accepted_intake_keys) h.3 ∙ h.1.1.0,
            ap (λ (x : Session). x.working.service_requests) h.3
                ∙ ap (λ l. request_of p payload delivery_id request_id contact_id ∷ l) h.1.1.1,
          ),
        )

  pub new_body-Made :
      Ends
        (λ s. (s.working ≡ c) × (s.peer ≡ f))
        (new_body p payload key_digest hash correlation_id delivery_id request_id contact_id
          reservation_id)
        (λ u t. Made t.working)
  unfolding new_body interleave
  new_body-Made =
      Ends-seq (λ _ s. s.working ≡ f c) interleave _ (record { at = λ s h. rw (h.0, h.1) })
        λ _.
          Ends-seq (λ _ t. Keyed t) (insert_intake_key Key) _ key-Keyed
            λ _.
              Ends-bind (insert_contact (contact_of p payload contact_id)) _
                (Keeps-insert_contact Keyed (Tables-kept Fresh _ _)
                  (contact_of p payload contact_id))
                λ _. Ends-bind (gets (λ s. p.utc_now s.drawn)) _ (Keeps-gets _) λ completed_at.
                  Ends-bind
                    (insert_delivery (
                      new_delivery p payload key_digest hash correlation_id delivery_id
                        completed_at))
                    _
                    (Keeps-insert_delivery Keyed (Tables-kept Fresh _ _) (
                      new_delivery p payload key_digest hash correlation_id delivery_id
                        completed_at))
                    λ _.
                      Ends-seq (λ _ t. Made t.working)
                        (insert_request (request_of p payload delivery_id request_id contact_id)) _
                        request-Made
                        λ _.
                          Ends-kept (λ t. Made t.working)
                            (new_evidence p Key
                              (new_delivery p payload key_digest hash correlation_id delivery_id
                                completed_at)
                              correlation_id)
                            (Keeps-new_evidence _ (Tables-kept Fresh _ _) p Key
                              (new_delivery p payload key_digest hash correlation_id delivery_id
                                completed_at)
                              correlation_id)
