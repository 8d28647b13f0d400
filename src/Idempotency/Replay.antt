-- ===== src/Idempotency/Replay.antt =====
-- What a reservation, a completion and a later reservation of the same key have to do with one
-- another.
use ai_oas.Base.{
  ℕ, Text, ◌≡◌, refl, sym, ap, ◌∙◌, Bool, true, false, not, Option, none, some, List, ◌∷◌, eq_refl,
  text_eq, text_eq_refl, ==_refl, find_first, is_some, arith,
}
use ai_oas.Errors.{
  Result, ok, err, intake, operational, integrity, database, runtime, value, unexpected,
}
use ai_oas.Json.{Json}
use ai_oas.Platform.{Platform}
use ai_oas.Models.{CommandIdempotencyScope, CommandIdempotencyRecord, hash_valid}
use ai_oas.Idempotency.Keys.{command_key_digest}
use ai_oas.Tables.{Db}
use ai_oas.Rows.Keep.{KeptByRows}
use ai_oas.Session.{Session, gets, lift, raise_if, rethrow, release, interleave, uuid4, ◌>>=◌}
use ai_oas.Session.Reason.{
  Ends, WhenOk, Ends-bind, Ends-seq, Ends-rethrow, Ends-lift, Keeps-raise_if,
}
use ai_oas.Session.Statements.{On, On-IsStable, Written, Ends-query, Ends-write}
use ai_oas.Idempotency.Service.{
  NewCommandReservation, CompletedCommandReplay, Resolution, new_reservation, completed_replay,
  in_scope, find, classify, replayed, is_completed, insert_command, try_insert, resolve_winner,
  race_lost, insert_reservation, after_insert, resolve_existing, reserve, processing_record,
  accepts_command, add_command, settle, require_outer_transaction, dependency_error,
}

module _ (scope : CommandIdempotencyScope) (key_digest : Text) (body_hash : Text) where
  -- The table has a completed record of the key, with this result.
  pub record Replayable (status : ℕ) (command_id : ℕ) (snapshot : Json) (d : Db) : Type 0 where
    pub row : CommandIdempotencyRecord
    pub found : find_first (in_scope scope key_digest) d.command_records ≡ some row
    pub same_body : text_eq row.canonical_body_hash body_hash ≡ true
    pub done : is_completed row.status ≡ true
    pub status_kept : row.logical_http_status ≡ some status
    pub snapshot_kept : row.safe_response_snapshot ≡ some snapshot
    pub timed : is_some row.completed_at ≡ true
    pub command_kept : row.command_id ≡ command_id

  -- The newest record is the reservation of the key, still to be completed.
  pub record Reserved (reservation : NewCommandReservation) (d : Db) : Type 0 where
    pub row : CommandIdempotencyRecord
    pub rest : List CommandIdempotencyRecord
    pub table : d.command_records ≡ row ∷ rest
    pub in_it : in_scope scope key_digest row ≡ true
    pub same_body : text_eq row.canonical_body_hash body_hash ≡ true
    pub record_kept : row.id ≡ reservation.record_id
    pub command_kept : row.command_id ≡ reservation.command_id

  abbrev pub Resolves : Resolution → Session → Type 0
  Resolves (new_reservation r) s = Reserved r s.working
  Resolves (completed_replay c) s =
      Replayable c.logical_http_status c.command_id c.safe_response_snapshot s.working

  classify-Replayable :
      (r : CommandIdempotencyRecord) (c : CompletedCommandReplay) (d : Db)
      → find_first (in_scope scope key_digest) d.command_records ≡ some r
      → classify r body_hash ≡ ok c
      → Replayable c.logical_http_status c.command_id c.safe_response_snapshot d
  unfolding classify
  classify-Replayable r c d f h = record {
    row = r;
    found = f;
    same_body = ground arith;
    done = ground arith;
    status_kept = ground arith;
    snapshot_kept = ground arith;
    timed = ground arith;
    command_kept = ground arith;
  }

  replayed-Resolves :
      (r : CommandIdempotencyRecord) (s : Session)
      → find_first (in_scope scope key_digest) s.working.command_records ≡ some r
      → WhenOk Resolves (lift (replayed (classify r body_hash)) s)
  replayed-Resolves r s f = split (classify r body_hash) refl
    where
      split :
          (c : Result CompletedCommandReplay)
          → classify r body_hash ≡ c
          → WhenOk Resolves (lift (replayed c) s)
      split (ok c) e = classify-Replayable r c s.working f e
      split (err x) e = tt

  find_ends :
      Ends
        (On (λ d. Unit {0}))
        (find scope key_digest)
        (λ w s. Unit {0} × (w ≡ find_first (in_scope scope key_digest) s.working.command_records))
  unfolding find
  find_ends = Ends-query (On (λ d. Unit {0})) (On-IsStable (λ d. Unit {0})) _

  race_lost-Resolves : Ends (On (λ d. Unit {0})) (race_lost scope key_digest body_hash) Resolves
  unfolding race_lost
  race_lost-Resolves =
      Ends-seq
        (λ w s. Unit {0} × (w ≡ find_first (in_scope scope key_digest) s.working.command_records))
        (rethrow _ (find scope key_digest)) _ (Ends-rethrow _ (find scope key_digest) _ find_ends)
        after
    where
      after :
          (w : Option CommandIdempotencyRecord)
          → Ends
              (λ s.
                Unit {0} × (w ≡ find_first (in_scope scope key_digest) s.working.command_records))
              (lift (resolve_winner w body_hash))
              Resolves
      after none = record { at = λ s h. tt }
      after (some r) = record { at = λ s h. replayed-Resolves r s (sym h.1) }

  -- A row that was inserted is the newest, and a refused one leaves the table as it was.
  abbrev Inserted : CommandIdempotencyRecord → Bool → Session → Type 0
  Inserted r true s =
      (rest : List CommandIdempotencyRecord) × (s.working.command_records ≡ r ∷ rest)
  Inserted r false s = Unit {0}

  try_insert-Inserted :
      (r : CommandIdempotencyRecord) → Ends (On (λ d. Unit {0})) (try_insert r) (Inserted r)
  unfolding try_insert
  try_insert-Inserted r = record { at = λ s h. settled s (insert_command r s) (inserted.at s h) }
    where
      inserted :
          Ends
            (On (λ d. Unit {0}))
            (insert_command r)
            (Written (On (λ d. Unit {0})) (accepts_command r) (add_command r))
      inserted =
          Ends-write (On (λ d. Unit {0})) (On-IsStable (λ d. Unit {0})) (accepts_command r)
            (add_command r)

      settled :
          (before : Session) (x : Result (Unit {0}) × Session)
          → WhenOk (Written (On (λ d. Unit {0})) (accepts_command r) (add_command r)) x
          → WhenOk (Inserted r) (settle (release before x))
      settled before (ok _, s) (u, _, _, e) =
          (u.working.command_records, ap (λ (t : Session). t.working.command_records) e)
      settled before (err integrity, s) h = tt
      settled before (err (intake e), s) h = tt
      settled before (err operational, s) h = tt
      settled before (err database, s) h = tt
      settled before (err runtime, s) h = tt
      settled before (err value, s) h = tt
      settled before (err unexpected, s) h = tt

  insert_reservation-Resolves :
      (outer : ℕ) (r : CommandIdempotencyRecord)
      → in_scope scope key_digest r ≡ true
      → text_eq r.canonical_body_hash body_hash ≡ true
      → Ends (On (λ d. Unit {0})) (insert_reservation scope key_digest body_hash outer r) Resolves
  unfolding insert_reservation
  insert_reservation-Resolves outer r it same =
      Ends-bind interleave _ (record { at = λ s h. tt })
        λ _. Ends-seq (Inserted r) (try_insert r) _ (try_insert-Inserted r) after
    where
      after :
          (b : Bool)
          → Ends (Inserted r b) (after_insert scope key_digest body_hash outer r b) Resolves
      after false = race_lost-Resolves
      after true = record {
        at = λ s h. record {
          row = r;
          rest = h.0;
          table = h.1;
          in_it = it;
          same_body = same;
          record_kept = refl;
          command_kept = refl;
        };
      }

  in_scope-processing_record :
      (id command_id correlation_id now : ℕ)
      → in_scope scope key_digest
          (processing_record scope key_digest body_hash id command_id correlation_id now)
        ≡ true
  unfolding in_scope
  in_scope-processing_record id command_id correlation_id now =
      simp (eq_refl, ==_refl, text_eq_refl)

  resolve_existing-Resolves :
      (p : Platform) (correlation_id outer : ℕ) (e : Option CommandIdempotencyRecord)
      → Ends
          (λ s. Unit {0} × (e ≡ find_first (in_scope scope key_digest) s.working.command_records))
          (resolve_existing p scope key_digest body_hash correlation_id outer e)
          Resolves
  unfolding resolve_existing in_scope
  resolve_existing-Resolves p correlation_id outer (some r) = record {
    at = λ s h. replayed-Resolves r s (sym h.1);
  }
  resolve_existing-Resolves p correlation_id outer none =
      Ends-bind (uuid4 p) _ (record { at = λ s h. h })
        λ id.
          Ends-bind (uuid4 p) _ (record { at = λ s h. h })
            λ command_id.
              Ends-bind (gets (λ s. s.now)) _ (record { at = λ s h. h })
                λ now. record {
                  at = λ s h.
                      (insert_reservation-Resolves outer
                          (processing_record scope key_digest body_hash id command_id correlation_id
                            now)
                          (in_scope-processing_record id command_id correlation_id now)
                          (text_eq_refl body_hash)).at
                        s tt;
                }

  find_and_resolve-Resolves :
      (p : Platform) (correlation_id outer : ℕ)
      → Ends
          (On (λ d. Unit {0}))
          (rethrow dependency_error (find scope key_digest)
            >>= resolve_existing p scope key_digest body_hash correlation_id outer)
          Resolves
  find_and_resolve-Resolves p correlation_id outer =
      Ends-seq
        (λ w s. Unit {0} × (w ≡ find_first (in_scope scope key_digest) s.working.command_records))
        (rethrow dependency_error (find scope key_digest))
        (resolve_existing p scope key_digest body_hash correlation_id outer)
        (Ends-rethrow dependency_error (find scope key_digest) _ find_ends)
        (resolve_existing-Resolves p correlation_id outer)

abbrev pub digest_of : Platform → Text → Text
digest_of p raw_key = p.sha256 (p.encode_ascii raw_key)

command_key_digest-eq-ok :
    (p : Platform) (raw_key digest : Text)
    → command_key_digest p raw_key ≡ ok digest
    → digest ≡ digest_of p raw_key
unfolding command_key_digest
command_key_digest-eq-ok p raw_key digest h = ground arith

-- A reservation that returns is either the new record of the key, or the completed result of the
-- record that the table has for the key.
pub reserve-Resolves :
    (p : Platform) (scope : CommandIdempotencyScope) (raw_key body_hash : Text) (correlation_id : ℕ)
    → Ends
        (On (λ d. Unit {0}))
        (reserve p scope raw_key body_hash correlation_id)
        (Resolves scope (digest_of p raw_key) body_hash)
unfolding reserve
reserve-Resolves p scope raw_key body_hash correlation_id =
    Ends-bind require_outer_transaction _ (record { at = λ s h. tt })
      λ outer. Ends-bind (raise_if (not (hash_valid body_hash)) value) _ (Keeps-raise_if _ _) λ _.
        Ends-seq (λ d s. Unit {0} × (command_key_digest p raw_key ≡ ok d))
          (lift (command_key_digest p raw_key)) _ (Ends-lift _)
          λ d. record {
            at = λ s h.
                rw (← command_key_digest-eq-ok p raw_key d h.1)
                  ((find_and_resolve-Resolves scope d body_hash p correlation_id outer).at s tt);
          }

-- Other tables have no part in a reservation.
pub Reserved-kept :
    (scope : CommandIdempotencyScope) (digest body_hash : Text)
    (reservation : NewCommandReservation)
    → KeptByRows (On (Reserved scope digest body_hash reservation))
Reserved-kept scope digest body_hash reservation = record {
  stable = On-IsStable (Reserved scope digest body_hash reservation);
  moved = λ s d e h. record {
    row = h.row;
    rest = h.rest;
    table = e ∙ h.table;
    in_it = h.in_it;
    same_body = h.same_body;
    record_kept = h.record_kept;
    command_kept = h.command_kept;
  };
}
