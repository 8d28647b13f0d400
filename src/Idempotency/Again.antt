-- ===== src/Idempotency/Again.antt =====
-- A key that has a completed record is answered from the record.
use ai_oas.Base.{
  eq_of_text_eq, text_eq, false, ℕ, Text, ◌≡◌, refl, true, some, [], arith, inl, inr, Option-cases,
  find_first,
}
use ai_oas.Errors.{Exc, intake, err, ok}
use ai_oas.Json.{Json}
use ai_oas.Platform.{Platform}
use ai_oas.Models.{CommandIdempotencyScope, CommandIdempotencyRecord, hash_valid}
use ai_oas.Session.{Session, Transaction}
use ai_oas.Idempotency.Keys.{key_usable}
use ai_oas.Idempotency.Service.{
  idempotency_conflict, CompletedCommandReplay, completed_replay, classify, build_result, reserve,
  in_scope,
}
use ai_oas.Idempotency.Replay.{Replayable, digest_of}

pub classify-again :
    (scope : CommandIdempotencyScope) (digest body_hash : Text) (status command_id : ℕ)
    (snapshot : Json) (s : Session)
    (h : Replayable scope digest body_hash status command_id snapshot s.working)
    → (c : CompletedCommandReplay) × (classify h.row body_hash ≡ ok c)
      × (c.logical_http_status ≡ status)
      × (c.command_id ≡ command_id)
      × (c.safe_response_snapshot ≡ snapshot)
unfolding classify
classify-again scope digest body_hash status command_id snapshot s h =
    elim (Option-cases h.row.completed_at) [
      | inl absent ↦ absurd (ground (arith, h.timed, absent))
      | inr (t, at) ↦ (
        build_result h.row true status snapshot t,
        ground (arith, h.same_body, h.done, h.status_kept, h.snapshot_kept, at),
        refl,
        h.command_kept,
        refl,
      )
    ]

-- an explicit transaction that is active
abbrev pub InTransaction : Session → Type 0
InTransaction s =
    (t : Transaction) × (s.transaction ≡ some t) × (t.is_active ≡ true) × (t.origin_begin ≡ true)

pub reserve-again :
    (p : Platform) (scope : CommandIdempotencyScope) (raw_key body_hash : Text) (correlation_id : ℕ)
    (s : Session) (r : CommandIdempotencyRecord) (c : CompletedCommandReplay)
    → InTransaction s
    → s.faults ≡ []
    → hash_valid body_hash ≡ true
    → key_usable raw_key ≡ true
    → find_first (in_scope scope (digest_of p raw_key)) s.working.command_records ≡ some r
    → classify r body_hash ≡ ok c
    → reserve p scope raw_key body_hash correlation_id s ≡ (ok (completed_replay c), s)
unfolding reserve
reserve-again p scope raw_key body_hash correlation_id s r c (t, e, a, b) f v k found h =
    ground arith

pub classify_other_body :
    (scope : CommandIdempotencyScope) (digest body_hash other : Text) (status command_id : ℕ)
    (snapshot : Json) (s : Session)
    (h : Replayable scope digest body_hash status command_id snapshot s.working)
    → text_eq body_hash other ≡ false
    → classify h.row other ≡ err (intake idempotency_conflict)
unfolding classify
classify_other_body scope digest body_hash other status command_id snapshot s h differs =
    let same : h.row.canonical_body_hash ≡ body_hash = eq_of_text_eq _ _ h.same_body in
    ground (arith, same, differs)

-- A reservation of a key whose record is refused raises, and changes nothing.
pub reserve_refused :
    (p : Platform) (scope : CommandIdempotencyScope) (raw_key body_hash : Text) (correlation_id : ℕ)
    (s : Session) (r : CommandIdempotencyRecord) (e : Exc)
    → InTransaction s
    → s.faults ≡ []
    → hash_valid body_hash ≡ true
    → key_usable raw_key ≡ true
    → find_first (in_scope scope (digest_of p raw_key)) s.working.command_records ≡ some r
    → classify r body_hash ≡ err e
    → reserve p scope raw_key body_hash correlation_id s ≡ (err e, s)
unfolding reserve
reserve_refused p scope raw_key body_hash correlation_id s r e (t, x, a, b) f v k found h =
    ground arith
