-- ===== src/Api/StartAi.antt =====
-- api/start_ai_interpretation.py: `start_ai_interpretation`, after its dependencies. The parameters
-- are pydantic's validation of the body and of the response.
pub mod Again
use ai_oas.Base.{ℕ, String, Text, Bool, Option, none, some, if◌then◌else◌}
use ai_oas.Json.{Json, entry}
use ai_oas.Errors.{intake, unexpected, Result, ok, err}
use ai_oas.Platform.{Platform}
use ai_oas.Session.{Session, Tx, lift, ◌>>=◌}
use ai_oas.Identity.{AuthenticatedWorkflowService, Settings}
use ai_oas.Outcome.{CommandOutcome}
use ai_oas.StartAi.Service.{Generated, execute}
use ai_oas.ServiceRequests.{resource_not_found}
use ai_oas.Api.Transport.{Validation}
use ai_oas.Api.Commands.{CommandCall, command_route, canonical_command_hash, stored_error, raised}

-- The JSON response: its status, and `StartAiInterpretationResponse` with `result` and `versions` in
-- the snapshot, but for the two fields that are set in `result`.
pub record StartAnswer : Type 0 where
  pub status_code : ℕ
  pub correlation_id : ℕ
  pub command_id : ℕ
  pub snapshot : Json
  pub credential_delivery : String
  pub callback_credential : Option Text

abbrev pub start_answer : ℕ → CommandOutcome → StartAnswer
start_answer correlation_id outcome = record {
  status_code = if outcome.is_replay then 200 else 202;
  correlation_id = correlation_id;
  command_id = outcome.command_id;
  snapshot = outcome.safe_snapshot;
  credential_delivery = if outcome.is_replay then "AlreadyIssued" else "PlaintextIssued";
  callback_credential = outcome.callback_plaintext;
}

module _ (accepts : StartAnswer → Bool) where
  -- a response that its model refuses is an exception
  abbrev pub checked : StartAnswer → Result StartAnswer
  checked a = if accepts a then ok a else err unexpected

  -- `if "error" in outcome.safe_snapshot`
  unfoldable pub answer_unless : Option Json → ℕ → CommandOutcome → Result StartAnswer
  unfolding stored_error
  answer_unless none correlation_id outcome = checked (start_answer correlation_id outcome)
  answer_unless (some error) correlation_id outcome =
      raised (stored_error outcome.logical_http_status error)

  unfoldable pub answer_outcome : ℕ → CommandOutcome → Result StartAnswer
  unfolding entry answer_unless
  answer_outcome correlation_id outcome =
      answer_unless (entry "error" outcome.safe_snapshot) correlation_id outcome

module _ (p : Platform) (settings : Settings) (machine : AuthenticatedWorkflowService)
    (generated : Generated) (model_validate : Json → Validation ℕ)
    (accepts : StartAnswer → Bool) where
  unfoldable pub run_command : ℕ → ℕ → Text → ℕ → Tx StartAnswer
  unfolding canonical_command_hash execute answer_outcome
  run_command request_id expected raw_key correlation_id = do
    outcome ←
        execute p settings machine generated request_id expected raw_key
          (canonical_command_hash p "service_request" expected) correlation_id
    lift (answer_outcome accepts correlation_id outcome)

  unfoldable pub start_ai_interpretation : CommandCall p.Bytes → ℕ → Tx StartAnswer
  unfolding command_route run_command
  start_ai_interpretation call correlation_id =
      command_route p model_validate resource_not_found
        (λ request_id expected raw_key. run_command request_id expected raw_key correlation_id) call
