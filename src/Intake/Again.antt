-- ===== src/Intake/Again.antt =====
-- A payload that was accepted, sent again with its key.
use ai_oas.Base.{
  ℕ, Text, ◌≡◌, refl, sym, ap, subst, ◌∙◌, true, false, Option, some, List, ◌∷◌, find_first, any_of,
  eq_of_text_eq, arith, if◌then◌else◌,
}
use ai_oas.Errors.{ok}
use ai_oas.Json.{entry, member}
use ai_oas.Platform.{Platform}
use ai_oas.Models.{AcceptedIntakeKey}
use ai_oas.Tables.{Db}
use ai_oas.Session.{Session}
use ai_oas.Session.Committing.{ByOthers, unchanged, committed_more}
use ai_oas.MachineAuth.Query.Fields.{ok_value}
use ai_oas.Intake.Payload.{IntakeRequest, canonical_payload_hash}
use ai_oas.Intake.New.{IntakeServiceResult, in_intake_scope, snapshot_of}
use ai_oas.Intake.Service.{as_uuid, process_valid}
use ai_oas.Intake.Ledger.{Step, created, repeated}
use ai_oas.Intake.Refined.{Linear, process_valid-Linear}

-- other sessions that leave the accepted keys as they are
ByOthers-keys :
    (f : Db → Db) (c d : Db)
    → ((x : Db) → (f x).accepted_intake_keys ≡ x.accepted_intake_keys)
    → ByOthers f c d
    → d.accepted_intake_keys ≡ c.accepted_intake_keys
ByOthers-keys f c d k unchanged = refl
ByOthers-keys f c d k (committed_more {d = e} b) = k e ∙ ByOthers-keys f c e k b

some_value :
    (a b : AcceptedIntakeKey) → ◌≡◌ {A = Option AcceptedIntakeKey} (some a) (some b) → a ≡ b
some_value a b h = ground arith

head_found :
    (digest : Text) (k : AcceptedIntakeKey) (l : List AcceptedIntakeKey)
    → in_intake_scope digest k ≡ true
    → find_first (in_intake_scope digest) (k ∷ l) ≡ some k
head_found digest k l h = ap (λ b. if b then some k else find_first (in_intake_scope digest) l) h

head_any :
    {P : Type 0} (digest : Text) (k : AcceptedIntakeKey) (l : List AcceptedIntakeKey)
    → in_intake_scope digest k ≡ true
    → any_of (in_intake_scope digest) (k ∷ l) ≡ false
    → P
head_any digest k l h g = ground arith

module _ (p : Platform) (law : (u : ℕ) → p.uuid_parse (p.uuid_str u) ≡ some u) where
  named_request :
      (delivery_id request_id : ℕ)
      → as_uuid p (entry "service_request_id" (snapshot_of p delivery_id request_id))
        ≡ ok request_id
  unfolding entry member
  named_request delivery_id request_id = rw (law request_id)

  -- one step after the key was added: it is found, with the request of its snapshot
  second_answer :
      (digest hash : Text) (k : AcceptedIntakeKey) (l : List AcceptedIntakeKey)
      (delivery_id request_id : ℕ) (before after : Db) (q : IntakeServiceResult)
      → in_intake_scope digest k ≡ true
      → k.safe_response_snapshot ≡ snapshot_of p delivery_id request_id
      → before.accepted_intake_keys ≡ k ∷ l
      → Step p digest hash before after q
      → (q.service_request_id ≡ request_id)
        × (q.status_code ≡ 200)
        × (k.canonical_payload_hash ≡ hash)
  second_answer digest hash k l delivery_id request_id before after q scope snap keys
        (created j request fresh _ _ _ _ _ _ _) =
      head_any digest k l scope (subst (λ x. any_of (in_intake_scope digest) x ≡ false) keys fresh)
  second_answer digest hash k l delivery_id request_id before after q scope snap keys
        (repeated j found same named status tables) =
      let one = some_value k j (
        sym (head_found digest k l scope)
        ∙ subst (λ x. find_first (in_intake_scope digest) x ≡ some j) keys found) in
      (
        ok_value _ _ (
            sym named
            ∙ ap (λ x. as_uuid p (entry "service_request_id" x))
                (ap (λ (x : AcceptedIntakeKey). x.safe_response_snapshot) (sym one) ∙ snap)
            ∙ named_request delivery_id request_id),
        status,
        ap (λ (x : AcceptedIntakeKey). x.canonical_payload_hash) one
            ∙ eq_of_text_eq j.canonical_payload_hash hash same,
      )

  module _ (key_digest hash other : Text) (c : Db) (f : Db → Db)
      (kept : (x : Db) → (f x).accepted_intake_keys ≡ x.accepted_intake_keys)
      (r q : IntakeServiceResult) (last : Db) where
    both_steps :
        (before after : Db)
        → r.status_code ≡ 201
        → c.accepted_intake_keys ≡ after.accepted_intake_keys
        → Step p key_digest hash before after r
        → Linear p key_digest other c f q last
        → (q.service_request_id ≡ r.service_request_id) × (q.status_code ≡ 200) × (hash ≡ other)
    both_steps before after status keys
          (created k request fresh scope of_hash of_request snap request_id made tables) second =
        let facts =
          second_answer key_digest other k before.accepted_intake_keys r.delivery_id
            r.service_request_id second.before last q scope snap
            (ByOthers-keys f c second.before kept second.reached ∙ keys ∙ tables.0) second.step in
        (facts.0, facts.1, sym of_hash ∙ facts.2)
    both_steps before after status keys (repeated k found same named other_status tables) second =
        no_status r.status_code other_status status
      where
        no_status : {P : Type 0} (n : ℕ) → n ≡ 200 → n ≡ 201 → P
        no_status n h k = ground arith

  -- If a payload made a new request, and the accepted keys are still those of then when a payload is
  -- sent with the same key, and other sessions leave them, a result for the second payload names
  -- the same request, has the status 200, and the two payloads have one hash. The identifier that
  -- the platform prints for a UUID must be read as that UUID.
  pub process_valid-same_request :
      (payload other : IntakeRequest) (key_digest : Text) (correlation_id later_id : ℕ)
      (s t : Session) (r q : IntakeServiceResult)
      → (process_valid p payload key_digest correlation_id s).0 ≡ ok r
      → r.status_code ≡ 201
      → t.committed.accepted_intake_keys
        ≡ (process_valid p payload key_digest correlation_id s).1.committed.accepted_intake_keys
      → ((x : Db) → (t.peer x).accepted_intake_keys ≡ x.accepted_intake_keys)
      → (process_valid p other key_digest later_id t).0 ≡ ok q
      → (q.service_request_id ≡ r.service_request_id)
        × (q.status_code ≡ 200)
        × (canonical_payload_hash p payload ≡ canonical_payload_hash p other)
  process_valid-same_request payload other key_digest correlation_id later_id s t r q h status keys
        kept g =
      let first = process_valid-Linear p payload key_digest correlation_id s r h in
      both_steps key_digest (canonical_payload_hash p payload) (canonical_payload_hash p other)
        t.committed t.peer kept r q _ first.before _ status keys first.step
        (process_valid-Linear p other key_digest later_id t q g)
