-- ===== src/Idempotency/Safety.antt =====
-- What a stored snapshot cannot hold (command_idempotency/snapshots.py, and `complete` of service.py).
use ai_oas.Base.{
  ℕ, Text, ◌≤◌, ◌∙◌, sym, ap, not, List, [], ◌∷◌, str_eq, eq_iff, inl, inr, subst, Bool-cases,
  String, ◌≡◌, refl, Bool, true, false, ◌||◌, leb, Option, none, some, arith, if◌then◌else◌,
}
use ai_oas.Errors.{Result, ok, err, value}
use ai_oas.Json.{Json, null, bool, num, str, arr, obj, Items, nil, cons, Fields, end, field}
use ai_oas.Platform.{Platform}
use ai_oas.Models.{CommandIdempotencyScope, CommandIdempotencyRecord}
use ai_oas.Session.{Session, Tx, gets, lift, raise_if, rethrow, query, func_now}
use ai_oas.Session.Reason.{Keeps, Ends, WhenOk, Ends-bind, Ends-lift, Ends-weaken}
use ai_oas.Session.Reading.{Ends-passed}
use ai_oas.Session.Statements.{On}
use ai_oas.Tested.{Nowhere, any_of-Nowhere, leb-Decides}
use ai_oas.Idempotency.Service.{
  NewCommandReservation, CompletedCommandReplay, SecretDeliveryMetadata,
  CallbackAuthorizationMetadata, result_of, require_outer_transaction, dependency_error,
}
use ai_oas.Idempotency.Completion.{
  complete, completed_record, owns, eligible, clocked, update_command, write_completion,
  complete_found, status_ok,
}
use ai_oas.Idempotency.Replay.{Replayable, Reserved}
use ai_oas.Idempotency.Completed.{complete-Replayable, completed_record_fields}
use ai_oas.Idempotency.Snapshots.{
  max_safe_snapshot_bytes, forbidden_keys, is_forbidden, inspect, inspect_items, inspect_fields,
  inspected, encoded_snapshot, validate_safe_snapshot,
}

-- The key occurs in an object, at any depth.
mutual
  pub data Occurs (key : String) : Json → Type 0 where
    in_arr : {items : Items} → OccursInItems key items → Occurs key (arr items)
    in_obj : {fields : Fields} → OccursInFields key fields → Occurs key (obj fields)

  pub data OccursInItems (key : String) : Items → Type 0 where
    here_item :
        {child : Json} {rest : Items} → Occurs key child → OccursInItems key (cons child rest)
    later_item :
        {child : Json} {rest : Items} → OccursInItems key rest → OccursInItems key (cons child rest)

  pub data OccursInFields (key : String) : Fields → Type 0 where
    is_key : {child : Json} {rest : Fields} → OccursInFields key (field key child rest)
    below :
        {other : String} {child : Json} {rest : Fields}
        → Occurs key child
        → OccursInFields key (field other child rest)
    later_field :
        {other : String} {child : Json} {rest : Fields}
        → OccursInFields key rest
        → OccursInFields key (field other child rest)

abbrev pub IsObject : Json → Type 0
IsObject j = (fields : Fields) × (j ≡ obj fields)

some_value : {A : Type 0} (a b : A) → some a ≡ some b → a ≡ b
some_value a b h = ground arith

or-false : (a b : Bool) → (a || b) ≡ false → (a ≡ false) × (b ≡ false)
or-false false b h = (refl, h)
or-false true b h = cc

bounded_then :
    (b : Bool) (r : Result Json) {kept : Json}
    → (if b then r else err value) ≡ ok kept
    → (b ≡ true) × (r ≡ ok kept)
bounded_then true r h = (refl, h)
bounded_then false r h = cc

module _ (p : Platform) (key : String) where
  mutual
    unfolding inspect inspect_items inspect_fields

    inspect-Occurs : (j : Json) → inspect p j ≡ false → Occurs key j → is_forbidden p key ≡ false
    inspect-Occurs null h o = elim o [ ]
    inspect-Occurs (bool _) h o = elim o [ ]
    inspect-Occurs (num _) h o = elim o [ ]
    inspect-Occurs (str _) h o = elim o [ ]
    inspect-Occurs (arr items) h (in_arr o) = inspect_items-Occurs items h o
    inspect-Occurs (obj fields) h (in_obj o) = inspect_fields-Occurs fields h o

    inspect_items-Occurs :
        (items : Items)
        → inspect_items p items ≡ false
        → OccursInItems key items
        → is_forbidden p key ≡ false
    inspect_items-Occurs nil h o = elim o [ ]
    inspect_items-Occurs (cons child rest) h (here_item o) =
        inspect-Occurs child (or-false (inspect p child) (inspect_items p rest) h).0 o
    inspect_items-Occurs (cons child rest) h (later_item o) =
        inspect_items-Occurs rest (or-false (inspect p child) (inspect_items p rest) h).1 o

    inspect_fields-Occurs :
        (fields : Fields)
        → inspect_fields p fields ≡ false
        → OccursInFields key fields
        → is_forbidden p key ≡ false
    inspect_fields-Occurs end h o = elim o [ ]
    inspect_fields-Occurs (field other child rest) h is_key = ground arith
    inspect_fields-Occurs (field other child rest) h (below o) =
        inspect-Occurs child (ground arith) o
    inspect_fields-Occurs (field other child rest) h (later_field o) =
        inspect_fields-Occurs rest (ground arith) o

  checked_fields :
      (fields : Fields) (kept : Json)
      → (if inspect p (obj fields) then err value else ok (obj fields)) ≡ ok kept
      → inspect p kept ≡ false
  checked_fields fields kept h = elim (Bool-cases (inspect p (obj fields))) [
    | inl forbidden ↦ absurd (ground (arith, forbidden))
    | inr safe ↦ subst (λ j. inspect p j ≡ false) (ground (arith, safe)) safe
  ]

  inspected-eq-ok :
      (parsed : Option Json) (kept : Json) → inspected p parsed ≡ ok kept → inspect p kept ≡ false
  unfolding inspected
  inspected-eq-ok (some (obj fields)) kept h = checked_fields fields kept h
  inspected-eq-ok (some _) kept h = cc
  inspected-eq-ok none kept h = cc

  inspected-some :
      (parsed : Option Json) (kept : Json)
      → inspected p parsed ≡ ok kept
      → (parsed ≡ some kept) × IsObject kept
  unfolding inspected
  inspected-some (some (obj fields)) kept h = by_test (inspect p (obj fields)) h
    where
      by_test :
          (b : Bool)
          → (if b then err value else ok (obj fields)) ≡ ok kept
          → (some (obj fields) ≡ some kept) × IsObject kept
      by_test true h1 = absurd (ground arith)
      by_test false h1 =
          let same : obj fields ≡ kept = ground arith in (ap some same, (fields, sym same))
  inspected-some (some _) kept h = absurd (ground arith)
  inspected-some none kept h = absurd (ground arith)

-- what a snapshot must not have as a key, in any letter case
abbrev pub secret_names : List String
secret_names =
    "plaintext" ∷ "credential_plaintext" ∷ "callback_credential_plaintext" ∷ "credential_hash"
    ∷ "callback_credential_hash" ∷ "secret" ∷ "secret_value" ∷ "hmac_secret" ∷ "access_token"
    ∷ "refresh_token" ∷ "api_key" ∷ "authorization" ∷ "signature" ∷ "raw_nonce" ∷ "private_key"
    ∷ "password" ∷ []

not_secret :
    (p : Platform) (key : String)
    → is_forbidden p key ≡ false
    → Nowhere (λ name. p.casefold key ≡ name) secret_names
unfolding is_forbidden forbidden_keys
not_secret p key h =
    (any_of-Nowhere (λ name. p.casefold key ≡ name) (str_eq (p.casefold key))
        (λ name. eq_iff (p.casefold key) name) secret_names).0
      h

-- The kept snapshot is the object that the platform reads from the encoding of the given one, in at
-- most 16384 bytes, and no key that occurs in it, at any depth, is case-folded to a name of secrets.
pub record Safe (p : Platform) (snapshot kept : Json) : Type 0 where
  pub bounded : p.bytes_length (p.json_dumps snapshot) ≤ 16384
  pub decoded : p.json_loads (p.json_dumps snapshot) ≡ some kept
  pub is_object : IsObject kept
  pub clean :
      (key : String) → Occurs key kept → Nowhere (λ name. p.casefold key ≡ name) secret_names

validate_safe_snapshot-Safe :
    (p : Platform) (snapshot kept : Json)
    → validate_safe_snapshot p snapshot ≡ ok kept
    → Safe p snapshot kept
unfolding validate_safe_snapshot encoded_snapshot
validate_safe_snapshot-Safe p (obj fields) kept h =
    let (bounded, safe) =
      bounded_then (leb (p.bytes_length (p.json_dumps (obj fields))) max_safe_snapshot_bytes) _ h in
    let read = inspected-some p "" (p.json_loads (p.json_dumps (obj fields))) kept safe in
    record {
      bounded = (leb-Decides (p.bytes_length (p.json_dumps (obj fields))) 16384).0 bounded;
      decoded = read.0;
      is_object = read.1;
      clean = λ key o.
          not_secret p key (inspect-Occurs p key kept (inspected-eq-ok p key _ kept safe) o);
    }
validate_safe_snapshot-Safe p _ kept h = absurd (ground arith)

stored_snapshot :
    (r : CommandIdempotencyRecord) (c : CompletedCommandReplay)
    → result_of r false ≡ ok c
    → r.safe_response_snapshot ≡ some c.safe_response_snapshot
unfolding result_of
stored_snapshot r c h = ground arith

module _ (p : Platform) (reservation : NewCommandReservation) (status : ℕ) (snapshot : Json)
    (secret : Option SecretDeliveryMetadata)
    (authorization : Option CallbackAuthorizationMetadata) where
  abbrev Always : Session → Type 0
  Always s = Unit

  kept-Always : {A : Type 0} (m : Tx A) → Keeps Always m
  kept-Always m = record { at = λ s h. tt }

  write_completion-kept :
      (kept : Json) (row : CommandIdempotencyRecord) (now : ℕ)
      → Ends Always
          (write_completion status kept secret authorization row now)
          (λ c s. c.safe_response_snapshot ≡ kept)
  unfolding write_completion
  write_completion-kept kept row now =
      let r : CommandIdempotencyRecord =
        completed_record status kept now secret authorization row in
      Ends-bind (rethrow dependency_error (update_command r)) _ (kept-Always _) λ _.
        Ends-weaken (lift (result_of r false)) _ _ (Ends-lift (result_of r false)) λ c s h.
          let stored = stored_snapshot r c h.1 in
          let given = (completed_record_fields status kept now secret authorization row).5 in
          some_value _ _ (sym stored ∙ given)

  complete_found-kept :
      (kept : Json) (found : Option CommandIdempotencyRecord)
      → Ends Always
          (complete_found status kept secret authorization found)
          (λ c s. c.safe_response_snapshot ≡ kept)
  unfolding complete_found
  complete_found-kept kept found = Ends-bind (lift (eligible found)) _ (kept-Always _) λ row.
      Ends-bind (rethrow dependency_error func_now) _ (kept-Always _) λ clock.
        Ends-bind (lift (clocked clock)) _ (kept-Always _) λ now. write_completion-kept kept row now

  complete-kept :
      Ends Always
        (complete p reservation status snapshot secret authorization)
        (λ c s. Safe p snapshot c.safe_response_snapshot)
  unfolding complete
  complete-kept = Ends-bind require_outer_transaction _ (kept-Always _) λ outer.
      Ends-bind (gets (λ s. s.identity)) _ (kept-Always _) λ session.
        Ends-bind (raise_if (not (owns reservation session outer)) value) _ (kept-Always _) λ _.
          Ends-bind (raise_if (not (status_ok status)) value) _ (kept-Always _) λ _.
            Ends-passed (validate_safe_snapshot p snapshot) _ λ kept e.
              Ends-bind (rethrow dependency_error (query _)) _ (kept-Always _) λ found.
                Ends-weaken (complete_found status kept secret authorization found) _ _
                  (complete_found-kept kept found)
                  λ c s same.
                    subst (λ j. Safe p snapshot j) (sym same)
                      (validate_safe_snapshot-Safe p snapshot kept e)

  both_ends :
      {A : Type 0} (Q T : A → Session → Type 0) (r : Result A × Session)
      → WhenOk Q r
      → WhenOk T r
      → WhenOk (λ a s. Q a s × T a s) r
  both_ends Q T (ok a, s) h k = (h, k)
  both_ends Q T (err e, s) h k = tt

  -- A completion that returns, of a record that is reserved, leaves in the record the snapshot that
  -- is returned; it was read from an encoding of the given one of at most 16384 bytes, is an object,
  -- and no key in it, at any depth, is a name of secrets in any letter case.
  pub complete-Safe :
      (scope : CommandIdempotencyScope) (digest body_hash : Text)
      → Ends
          (On (Reserved scope digest body_hash reservation))
          (complete p reservation status snapshot secret authorization)
          (λ c s.
            Replayable scope digest body_hash status c.command_id c.safe_response_snapshot s.working
            × Safe p snapshot c.safe_response_snapshot)
  complete-Safe scope digest body_hash = record {
    at = λ s h.
        both_ends _ _ _
          ((complete-Replayable scope digest body_hash reservation p status snapshot secret
              authorization).at
            s h)
          (complete-kept.at s tt);
  }
