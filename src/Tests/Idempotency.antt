-- ===== src/Tests/Idempotency.antt =====
-- A snapshot that is kept, and one that is refused.
use ai_oas.Base.{none, ◌≡◌, refl}
use ai_oas.Errors.{value, err}
use ai_oas.Json.{Json, str, num, obj, end, field}
use ai_oas.Idempotency.Snapshots.{validate_safe_snapshot, is_forbidden, inspect}
use ai_oas.Session.Reason.{Ends}
use ai_oas.Session.Statements.{On}
use ai_oas.Idempotency.Service.{NewCommandReservation}
use ai_oas.Idempotency.Completion.{complete}
use ai_oas.Idempotency.Replay.{Replayable, Reserved, digest_of}
use ai_oas.Idempotency.Safety.{Safe, complete-Safe}
use ai_oas.StartAi.Service.{command_scope}
use ai_oas.Tests.Toy.{toy, machine, key, body_hash}

abbrev nested : Json
nested = obj (field "result" (obj (field "version" (num 1) end)) end)

refused_secret :
    validate_safe_snapshot toy (obj (field "result" (obj (field "api_key" (str "x") end)) end))
    ≡ err value
unfolding validate_safe_snapshot inspect is_forbidden
refused_secret = refl

abbrev reservation : NewCommandReservation
reservation = record {
  record_id = 50;
  command_id = 51;
  correlation_id = 11;
  session = 5;
  outer_transaction = 0;
}

complete-Safe_example :
    Ends
      (On (Reserved (command_scope machine 1) (digest_of toy key) body_hash reservation))
      (complete toy reservation 200 nested none none)
      (λ c s.
        Replayable
          (command_scope machine 1)
          (digest_of toy key)
          body_hash
          200
          c.command_id
          c.safe_response_snapshot
          s.working
        × Safe toy nested c.safe_response_snapshot)
complete-Safe_example =
    complete-Safe toy reservation 200 nested none none (command_scope machine 1) (digest_of toy key)
      body_hash
