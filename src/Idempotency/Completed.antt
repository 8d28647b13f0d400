-- ===== src/Idempotency/Completed.antt =====
-- A completion makes the reserved record the result that every later use of the key replays.
use ai_oas.Base.{
  ℕ, Text, ◌≡◌, ap, subst, ◌∙◌, true, false, not, Option, some, List, ◌∷◌, ◌==◌, text_eq,
  find_first, arith,
}
use ai_oas.Errors.{ok, value}
use ai_oas.Json.{Json}
use ai_oas.Platform.{Platform}
use ai_oas.Models.{CommandIdempotencyScope, CommandIdempotencyRecord}
use ai_oas.Tables.{Db}
use ai_oas.Session.{Session, gets, lift, raise_if, rethrow, query, func_now}
use ai_oas.Session.Reason.{
  Ends, Ends-bind, Ends-seq, Ends-rethrow, Ends-lift, Keeps-lift, Keeps-gets, Keeps-raise_if,
  Keeps-rethrow, Ends-weaken,
}
use ai_oas.Session.Statements.{On, On-IsStable, Written, Ends-query, Keeps-func_now, Ends-write}
use ai_oas.Idempotency.Service.{
  NewCommandReservation, CompletedCommandReplay, SecretDeliveryMetadata,
  CallbackAuthorizationMetadata, in_scope, is_completed, result_of, require_outer_transaction,
  dependency_error,
}
use ai_oas.Idempotency.Completion.{
  complete, completed_record, owns, eligible, clocked, update_command, accepts_completion,
  replace_command, write_completion, complete_found, status_ok,
}
use ai_oas.Idempotency.Snapshots.{validate_safe_snapshot}
use ai_oas.Idempotency.Replay.{Replayable, Reserved}

module _ (status : ℕ) (snapshot : Json) (now : ℕ) (secret : Option SecretDeliveryMetadata)
    (authorization : Option CallbackAuthorizationMetadata) (row : CommandIdempotencyRecord) where
  abbrev done_row : CommandIdempotencyRecord
  done_row = completed_record status snapshot now secret authorization row

  in_scope-completed_record :
      (scope : CommandIdempotencyScope) (digest : Text)
      → in_scope scope digest done_row ≡ in_scope scope digest row
  unfolding in_scope
  in_scope-completed_record scope digest = ground arith

  -- what a completion does not change, and the result that it stores
  pub completed_record_fields :
      (done_row.id ≡ row.id)
      × (done_row.command_id ≡ row.command_id)
      × (done_row.canonical_body_hash ≡ row.canonical_body_hash)
      × (is_completed done_row.status ≡ true)
      × (done_row.logical_http_status ≡ some status)
      × (done_row.safe_response_snapshot ≡ some snapshot)
      × (done_row.completed_at ≡ some now)
  completed_record_fields = ground arith

module _ (scope : CommandIdempotencyScope) (digest body_hash : Text)
    (reservation : NewCommandReservation) where
  -- the row that `complete` finds is the reserved one
  found_row :
      (d : Db) (row : CommandIdempotencyRecord) (h : Reserved scope digest body_hash reservation d)
      → eligible (find_first (λ r. r.id == reservation.record_id) d.command_records) ≡ ok row
      → row ≡ h.row
  found_row d row h e = ground (arith, h.table, h.record_kept)

  replaced_first :
      (r row : CommandIdempotencyRecord) (rest : List CommandIdempotencyRecord) (d : Db)
      → d.command_records ≡ row ∷ rest
      → r.id ≡ row.id
      → in_scope scope digest r ≡ true
      → find_first (in_scope scope digest) (replace_command r d).command_records ≡ some r
  replaced_first r row rest d t e it = ground (arith, t, e, it)

  -- the state in which the completed row is written
  abbrev Found : Option CommandIdempotencyRecord → Db → Type 0
  Found found d =
      Reserved scope digest body_hash reservation d
      × (found ≡ find_first (λ r. r.id == reservation.record_id) d.command_records)

  result_of-eq-ok :
      (r : CommandIdempotencyRecord) (c : CompletedCommandReplay)
      → result_of r false ≡ ok c
      → (r.logical_http_status ≡ some c.logical_http_status)
        × (r.safe_response_snapshot ≡ some c.safe_response_snapshot)
        × (r.command_id ≡ c.command_id)
  unfolding result_of
  result_of-eq-ok r c h = ground arith

  module _ (status : ℕ) (snapshot : Json) (now : ℕ) (secret : Option SecretDeliveryMetadata)
      (authorization : Option CallbackAuthorizationMetadata) where
    written_Replayable :
        (found : Option CommandIdempotencyRecord) (row : CommandIdempotencyRecord)
        (c : CompletedCommandReplay) (d : Db)
        → Found found d
        → eligible found ≡ ok row
        → result_of (completed_record status snapshot now secret authorization row) false ≡ ok c
        → Replayable scope digest body_hash status c.command_id c.safe_response_snapshot
            (replace_command (completed_record status snapshot now secret authorization row) d)
    written_Replayable found row c d (h, f) e r =
        let same : row ≡ h.row = found_row d row h (subst (λ x. eligible x ≡ ok row) f e) in
        let fields = completed_record_fields status snapshot now secret authorization row in
        let kept = result_of-eq-ok _ c r in
        record {
          row = completed_record status snapshot now secret authorization row;
          found = replaced_first _ h.row h.rest d h.table (fields.0 ∙ ap (λ x. x.id) same) (
              in_scope-completed_record status snapshot now secret authorization row scope digest
              ∙ ap (in_scope scope digest) same
              ∙ h.in_it);
          same_body =
              ap (λ t. text_eq t body_hash) (fields.2 ∙ ap (λ x. x.canonical_body_hash) same)
              ∙ h.same_body;
          done = fields.3;
          status_kept = fields.4;
          snapshot_kept = kept.1;
          timed = rw fields.6;
          command_kept = kept.2;
        }

    write_completion-Replayable :
        (found : Option CommandIdempotencyRecord) (row : CommandIdempotencyRecord)
        → Ends
            (λ s. On (Found found) s × (eligible found ≡ ok row))
            (write_completion status snapshot secret authorization row now)
            (λ c s.
              Replayable scope digest body_hash status c.command_id c.safe_response_snapshot
                s.working)
    unfolding write_completion
    write_completion-Replayable found row =
        let r : CommandIdempotencyRecord =
          completed_record status snapshot now secret authorization row in
        let Ready : Db → Type 0 = λ d. Found found d × (eligible found ≡ ok row) in
        Ends-seq (Written (On Ready) (accepts_completion r) (replace_command r))
          (rethrow dependency_error (update_command r)) (λ _. lift (result_of r false))
          (Ends-rethrow dependency_error (update_command r) _
            (Ends-write (On Ready) (On-IsStable Ready) (accepts_completion r) (replace_command r)))
          λ _. Ends-weaken (lift (result_of r false)) _ _ (Ends-lift (result_of r false)) λ c s h.
            rw (ap (λ (t : Session). t.working) h.0.3)
              (written_Replayable found row c h.0.0.working h.0.1.0 h.0.1.1 h.1)

  module _ (status : ℕ) (snapshot : Json) (secret : Option SecretDeliveryMetadata)
      (authorization : Option CallbackAuthorizationMetadata) where
    complete_found-Replayable :
        (found : Option CommandIdempotencyRecord)
        → Ends
            (On (Found found))
            (complete_found status snapshot secret authorization found)
            (λ c s.
              Replayable scope digest body_hash status c.command_id c.safe_response_snapshot
                s.working)
    unfolding complete_found
    complete_found-Replayable found =
        Ends-seq (λ row s. On (Found found) s × (eligible found ≡ ok row)) (lift (eligible found)) _
          (Ends-lift (eligible found))
          λ row.
            let Ready : Session → Type 0 = λ s. On (Found found) s × (eligible found ≡ ok row) in
            Ends-bind (rethrow dependency_error func_now) _
              (Keeps-rethrow dependency_error func_now (
                Keeps-func_now Ready
                  (On-IsStable (λ d. Found found d × (eligible found ≡ ok row)))))
              λ clock. Ends-bind (lift (clocked clock)) _ (Keeps-lift (clocked clock)) λ now.
                write_completion-Replayable status snapshot now secret authorization found row

  -- A completion that returns leaves the record of the key with the returned status, command and
  -- snapshot.
  pub complete-Replayable :
      (p : Platform) (status : ℕ) (snapshot : Json) (secret : Option SecretDeliveryMetadata)
      (authorization : Option CallbackAuthorizationMetadata)
      → Ends
          (On (Reserved scope digest body_hash reservation))
          (complete p reservation status snapshot secret authorization)
          (λ c s.
            Replayable scope digest body_hash status c.command_id c.safe_response_snapshot
              s.working)
  unfolding complete
  complete-Replayable p status snapshot secret authorization =
      Ends-bind require_outer_transaction _ (record { at = λ s h. h })
        λ outer. Ends-bind (gets (λ s. s.identity)) _ (Keeps-gets (λ s. s.identity)) λ session.
          Ends-bind (raise_if (not (owns reservation session outer)) value) _
            (Keeps-raise_if (not (owns reservation session outer)) value)
            λ _.
              Ends-bind (raise_if (not (status_ok status)) value) _
                (Keeps-raise_if (not (status_ok status)) value)
                λ _.
                  Ends-bind (lift (validate_safe_snapshot p snapshot)) _
                    (Keeps-lift (validate_safe_snapshot p snapshot))
                    λ kept.
                      Ends-seq (λ found. On (Found found)) (rethrow dependency_error (query _)) _
                        (Ends-rethrow dependency_error (query _) (λ found. On (Found found))
                          (Ends-query (On (Reserved scope digest body_hash reservation))
                            (On-IsStable (Reserved scope digest body_hash reservation)) _))
                        (complete_found-Replayable status kept secret authorization)
