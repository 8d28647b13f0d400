-- ===== src/Tests/Commands.antt =====
-- The routes of the commands at concrete calls, and their theorems there.
use ai_oas.Base.{ℕ, ◌≡◌, refl, Bool, true, none, some, [], ◌∷◌}
use ai_oas.Json.{Json, null}
use ai_oas.Errors.{Result, ok, err}
use ai_oas.Platform.{Platform}
use ai_oas.Session.{Session}
use ai_oas.Api.Transport.{Validation, valid}
use ai_oas.Api.Commands.{CommandCall, command_route}
use ai_oas.Api.StartAi.{
  StartAnswer, checked, start_ai_interpretation, run_command, answer_outcome, answer_unless,
}
use ai_oas.Api.StartAi.Again.{replayed_answer, start_ai_interpretation_again}
use ai_oas.Api.AttemptStart.{
  AttemptAnswer, checked as checked_attempt, start_integration_attempt, run_command as run_attempt,
  answer_outcome as answer_attempt, answer_unless as answer_attempt_unless,
}
use ai_oas.Api.AttemptStart.Again.{with_correlation_id, start_integration_attempt_again}
use ai_oas.Tests.AttemptStart.{claimed_run}
use ai_oas.StartAi.Service.{text, raised}
use ai_oas.Tests.StartAi.{started}
use ai_oas.Tests.Routes.{json_type}
use ai_oas.Tests.Toy.{
  Bytes, of_json, toy, settings, machine, requests_db, session_on, later, key, body_hash,
  credential_text,
}

-- a platform with one hash, on which an identifier of a path is `id`
abbrev on_path : ℕ → Platform
on_path id = record toy { uuid_parse = λ _. some id; sha256 = λ _. body_hash }

abbrev call : CommandCall Bytes
call = record {
  path_id = "1";
  key_headers = key ∷ [];
  content_type = json_type;
  raw_body = of_json null;
}

abbrev accepted_body : Json → Validation ℕ
accepted_body _ = valid 1

abbrev any_answer : StartAnswer → Bool
any_answer _ = true

-- the answer of a start
unfoldable start_run : Result StartAnswer × Session
unfolding started start_ai_interpretation command_route run_command answer_outcome answer_unless
start_run =
    start_ai_interpretation (on_path 1) settings machine (text credential_text) accepted_body
      any_answer call 9 (session_on requests_db)

abbrev answer_of : Result StartAnswer → StartAnswer
answer_of (ok a) = a
answer_of (err e) = record {
  status_code = 0;
  correlation_id = 0;
  command_id = 0;
  snapshot = null;
  credential_delivery = "";
  callback_credential = none;
}

start_status : (answer_of start_run.0).status_code ≡ 202
unfolding start_run
start_status = refl

-- the same call sent again, with a generator that raises
start_ai_interpretation_again_example :
    ((start_ai_interpretation
        (on_path 1)
        settings
        machine
        raised
        accepted_body
        any_answer
        call
        10
        (session_on start_run.1.committed)).0
      ≡ checked any_answer (replayed_answer 10 (answer_of start_run.0)))
    × ((start_ai_interpretation
          (on_path 1)
          settings
          machine
          raised
          accepted_body
          any_answer
          call
          10
          (session_on start_run.1.committed)).1.committed
        ≡ start_run.1.committed)
unfolding start_run
start_ai_interpretation_again_example =
    start_ai_interpretation_again (on_path 1) machine accepted_body any_answer call settings
      settings (text credential_text) raised 9 10 (session_on requests_db)
      (session_on start_run.1.committed) (answer_of start_run.0) (λ _. refl) refl refl refl

abbrev attempt_platform : Platform
attempt_platform = on_path 1003

abbrev any_attempt : AttemptAnswer → Bool
any_attempt _ = true

-- the claim of the attempt 1003 that a start opened
unfoldable attempt_run : Result AttemptAnswer × Session
unfolding start_run claimed_run start_integration_attempt run_attempt answer_attempt
    answer_attempt_unless
attempt_run =
    start_integration_attempt attempt_platform machine accepted_body any_attempt call 11
      (later start_run.1.committed)

abbrev attempt_answer_of : Result AttemptAnswer → AttemptAnswer
attempt_answer_of (ok a) = a
attempt_answer_of (err e) = record { correlation_id = 0; command_id = 0; snapshot = null }

attempt_answered : attempt_run.0 ≡ ok (attempt_answer_of attempt_run.0)
unfolding attempt_run
attempt_answered = refl

start_integration_attempt_again_example :
    ((start_integration_attempt attempt_platform machine accepted_body any_attempt call 12
        (session_on attempt_run.1.committed)).0
      ≡ checked_attempt any_attempt (with_correlation_id 12 (attempt_answer_of attempt_run.0)))
    × ((start_integration_attempt attempt_platform machine accepted_body any_attempt call 12
          (session_on attempt_run.1.committed)).1.committed
        ≡ attempt_run.1.committed)
unfolding attempt_run
start_integration_attempt_again_example =
    start_integration_attempt_again attempt_platform machine accepted_body any_attempt call 11 12
      (later start_run.1.committed) (session_on attempt_run.1.committed)
      (attempt_answer_of attempt_run.0) (λ _. refl) refl refl refl
