-- ===== src/Tests/Routes.antt =====
-- Calls of the routes, and the theorems there.
use ai_oas.Base.{◌≡◌, refl, none, some, [], ◌∷◌, codes}
use ai_oas.Json.{Json, null}
use ai_oas.Tables.{empty_db}
use ai_oas.Session.{Session}
use ai_oas.Intake.Payload.{IntakeRequest, canonical_payload_hash}
use ai_oas.Intake.New.{IntakeServiceResult, new_result}
use ai_oas.Intake.Service.{replay_result, process_valid}
use ai_oas.Intake.Rejecting.{process_rejected}
use ai_oas.Api.Transport.{Validation, valid, ContentType}
use ai_oas.Api.Intake.{
  IntakeCall, accepted, Answer, error_response, malformed_json, create_service_request_intake,
}
use ai_oas.Api.Intake.Answering.{Sound}
use ai_oas.Api.Intake.Answered.{create-Sound}
use ai_oas.Api.Intake.Once.{PayloadOf, create-same_request}
use ai_oas.Tests.Toy.{Bytes, of_json, of_text, session_on}
use ai_oas.Tests.Intake.{named, law, payload, first}

abbrev pub json_type : ContentType
json_type = record {
  media_type = codes "application/json";
  parameters = (codes "charset", codes "utf-8") ∷ [];
}

abbrev call : IntakeCall Bytes
call = record {
  key_header = some (codes "idempotent-key");
  correlation_header = none;
  content_type = json_type;
  raw_body = of_json null;
}

abbrev validate : Json → Validation IntakeRequest
validate j = valid payload

unfoldable pub posted : Answer × Session
unfolding create_service_request_intake process_valid process_rejected first
posted = create_service_request_intake named validate (λ j. "1.0") call (session_on empty_db)

abbrev posted_result : IntakeServiceResult
posted_result = new_result named 2 3 4

posted_accepted : posted.0.content ≡ accepted posted_result
unfolding posted
posted_accepted = refl

-- a body that is not JSON is answered with 400, and its delivery is recorded
malformed_answered :
    (create_service_request_intake named validate
      (λ j. "1.0")
      (record call { raw_body = of_text (codes "no") })
      (session_on empty_db)).0
    ≡ error_response (malformed_json 3) 2
unfolding posted
malformed_answered = refl

create-Sound_example : Sound (
    create_service_request_intake named validate
      (λ j. "1.0")
      (record call { raw_body = of_text (codes "no") })
      (session_on empty_db))
create-Sound_example =
    create-Sound named validate (λ j. "1.0") (record call { raw_body = of_text (codes "no") })
      (session_on empty_db)

abbrev later_session : Session
later_session = let t = session_on posted.1.committed in record t { drawn = 20 }

abbrev again_result : IntakeServiceResult
again_result = replay_result named 22 23 4 3 1

create-same_request_example :
    (again_result.service_request_id ≡ posted_result.service_request_id)
    × (again_result.status_code ≡ 200)
    × ((x y : IntakeRequest) × PayloadOf named validate (λ j. "1.0") call x
        × PayloadOf named validate (λ j. "1.0") call y
        × (canonical_payload_hash named x ≡ canonical_payload_hash named y))
unfolding posted
create-same_request_example =
    create-same_request named validate (λ j. "1.0") law call call (session_on empty_db)
      later_session posted_result again_result refl refl refl refl (λ x. refl) refl
