-- ===== src/Tests/Intake.antt =====
-- An accepted payload, its replay, and a conflict; and the theorems there.
use ai_oas.Base.{ℕ, zero, suc, ◌+◌, String, Text, ◌≡◌, refl, ap, none, some, codes}
use ai_oas.Errors.{Result, ok, err, intake}
use ai_oas.Platform.{Platform}
use ai_oas.Tables.{empty_db}
use ai_oas.Session.{Session}
use ai_oas.Intake.Payload.{IntakeRequest, canonical_payload_hash}
use ai_oas.Intake.New.{IntakeServiceResult, new_result}
use ai_oas.Intake.Service.{conflict_error, replay_result, process_valid}
use ai_oas.Intake.Rejecting.{process_rejected}
use ai_oas.Intake.Refined.{Linear, process_valid-Linear}
use ai_oas.Intake.Again.{process_valid-same_request}
use ai_oas.Tests.Toy.{toy, session_on}

-- a text for each identifier
abbrev mark : ℕ → String
mark zero = String.[]
mark (suc n) = String.◌∷◌ "u" (mark n)

abbrev marks : String → ℕ
marks String.[] = 0
marks (String.◌∷◌ c s) = suc (marks s)

marks-mark : (n : ℕ) → marks (mark n) ≡ n
marks-mark zero = refl
marks-mark (suc n) = ap suc (marks-mark n)

abbrev pub named : Platform
named = record toy { uuid4 = λ n. n + 1; uuid_str = mark; uuid_parse = λ s. some (marks s) }

pub law : (u : ℕ) → named.uuid_parse (named.uuid_str u) ≡ some u
law u = ap some (marks-mark u)

abbrev pub payload : IntakeRequest
payload = record {
  schema_version = "1.0";
  contact = record {
    display_name = "Ada";
    email = some "ada@example.com";
    phone = none;
    preferred_channel = none;
  };
  service_request = record {
    description = "fix the sink please";
    location_context = none;
    timing_preference = some "today";
  };
}

abbrev other_payload : IntakeRequest
other_payload =
    let r = payload.service_request in
    record payload { service_request = record r { description = "fix the roof please" } }

abbrev digest : Text
digest = codes "digest"

unfoldable pub first : Result IntakeServiceResult × Session
unfolding process_valid ai_oas.Session.close ai_oas.Session.commit ai_oas.Models.not_blank
first = process_valid named payload digest 99 (session_on empty_db)

first_created : first.0 ≡ ok (new_result named 99 1 2)
unfolding first
first_created = refl

abbrev then_session : Session
then_session = let t = session_on first.1.committed in record t { drawn = 20 }

-- the same payload is replayed, another is a conflict
unfoldable pub second : Result IntakeServiceResult × Session
unfolding first
second = process_valid named payload digest 98 then_session

second_replayed : second.0 ≡ ok (replay_result named 98 21 2 1 1)
unfolding second
second_replayed = refl

other_refused :
    (process_valid named other_payload digest 97 then_session).0 ≡ err (intake (conflict_error 21))
unfolding second
other_refused = refl

-- another session accepts the key first: the race is lost, and answered
raced_replayed :
    (process_valid named payload digest 96
      (let t = session_on empty_db in record t { drawn = 20; peer = λ d. first.1.committed })).0
    ≡ ok (replay_result named 96 25 2 1 1)
unfolding second
raced_replayed = refl

invalid_rejected :
    (process_rejected named digest 95 "1.0" "VALIDATION_ERROR" none none (session_on empty_db)).0
    ≡ ok 1
unfolding second process_rejected
invalid_rejected = refl

process_valid-Linear_example :
    Linear named digest
      (canonical_payload_hash named payload)
      empty_db
      (λ d. d)
      (new_result named 99 1 2)
      first.1.committed
unfolding first
process_valid-Linear_example =
    process_valid-Linear named payload digest 99 (session_on empty_db) (new_result named 99 1 2)
      refl

abbrev first_result : IntakeServiceResult
first_result = new_result named 99 1 2

abbrev second_result : IntakeServiceResult
second_result = replay_result named 98 21 2 1 1

process_valid-same_request_example :
    (second_result.service_request_id ≡ first_result.service_request_id)
    × (second_result.status_code ≡ 200)
    × (canonical_payload_hash named payload ≡ canonical_payload_hash named payload)
unfolding second
process_valid-same_request_example =
    process_valid-same_request named law payload payload digest 99 98 (session_on empty_db)
      then_session first_result second_result refl refl refl (λ x. refl) refl
