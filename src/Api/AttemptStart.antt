-- ===== src/Api/AttemptStart.antt =====
-- api/attempt_start.py: `start_integration_attempt`, after its dependencies. The parameters are
-- pydantic's validation of the body and of the response.
pub mod Again
use ai_oas.Base.{ℕ, Text, Bool, Option, none, some, if◌then◌else◌}
use ai_oas.Json.{Json, entry}
use ai_oas.Errors.{IntakeError, intake_error, unexpected, Result, ok, err}
use ai_oas.Platform.{Platform}
use ai_oas.Session.{Session, Tx, lift, ◌>>=◌}
use ai_oas.Identity.{AuthenticatedWorkflowService}
use ai_oas.Outcome.{CommandOutcome}
use ai_oas.AttemptStart.Service.{execute}
use ai_oas.Api.Transport.{Validation}
use ai_oas.Api.Commands.{CommandCall, command_route, canonical_command_hash, stored_error, raised}

-- The JSON response, always with the status 200: `AttemptStartResponse` with `result` and `versions`
-- in the snapshot.
pub record AttemptAnswer : Type 0 where
  pub correlation_id : ℕ
  pub command_id : ℕ
  pub snapshot : Json

abbrev pub attempt_not_found : IntakeError
attempt_not_found = intake_error 404 "ATTEMPT_NOT_FOUND" "The requested attempt was not found."

abbrev pub attempt_answer : ℕ → CommandOutcome → AttemptAnswer
attempt_answer correlation_id outcome = record {
  correlation_id = correlation_id;
  command_id = outcome.command_id;
  snapshot = outcome.safe_snapshot;
}

module _ (accepts : AttemptAnswer → Bool) where
  -- a response that its model refuses is an exception
  abbrev pub checked : AttemptAnswer → Result AttemptAnswer
  checked a = if accepts a then ok a else err unexpected

  -- `if "error" in outcome.safe_snapshot`
  unfoldable pub answer_unless : Option Json → ℕ → CommandOutcome → Result AttemptAnswer
  unfolding stored_error
  answer_unless none correlation_id outcome = checked (attempt_answer correlation_id outcome)
  answer_unless (some error) correlation_id outcome =
      raised (stored_error outcome.logical_http_status error)

  unfoldable pub answer_outcome : ℕ → CommandOutcome → Result AttemptAnswer
  unfolding entry answer_unless
  answer_outcome correlation_id outcome =
      answer_unless (entry "error" outcome.safe_snapshot) correlation_id outcome

module _ (p : Platform) (machine : AuthenticatedWorkflowService)
    (model_validate : Json → Validation ℕ) (accepts : AttemptAnswer → Bool) where
  unfoldable pub run_command : ℕ → ℕ → Text → ℕ → Tx AttemptAnswer
  unfolding canonical_command_hash execute answer_outcome
  run_command attempt_id expected raw_key correlation_id = do
    outcome ←
        execute p machine attempt_id expected raw_key
          (canonical_command_hash p "integration_attempt" expected) correlation_id
    lift (answer_outcome accepts correlation_id outcome)

  unfoldable pub start_integration_attempt : CommandCall p.Bytes → ℕ → Tx AttemptAnswer
  unfolding command_route run_command
  start_integration_attempt call correlation_id =
      command_route p model_validate attempt_not_found
        (λ attempt_id expected raw_key. run_command attempt_id expected raw_key correlation_id) call
