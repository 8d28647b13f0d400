-- ===== src/Outcome.antt =====
-- The outcome of a command (StartAiCommandOutcome, AttemptStartOutcome), and the steps that
-- start_ai/service.py and attempt_start/service.py share.
pub mod Command
use ai_oas.Base.{ℕ, String, Text, Bool, true, false, Option, none, List, [], ◌∷◌}
use ai_oas.Errors.{Exc, intake, as_intake}
use ai_oas.Json.{Json, bool, num, str, arr, obj, nil, Fields, end, field}
use ai_oas.Platform.{Platform}
use ai_oas.Session.{Tx, pure, ◌>>=◌}
use ai_oas.Idempotency.Service.{NewCommandReservation, CompletedCommandReplay}
use ai_oas.Idempotency.Completion.{complete}

pub record CommandOutcome : Type 0 where
  pub logical_http_status : ℕ
  pub command_id : ℕ
  pub safe_snapshot : Json
  pub is_replay : Bool
  pub callback_plaintext : Option Text

abbrev pub versions_json : List (String × ℕ) → Fields
versions_json [] = end
versions_json ((k, v) ∷ rest) = field k (num v) (versions_json rest)

unfoldable pub error_snapshot : String → String → List (String × ℕ) → Json
error_snapshot code message current_versions = obj (
    field "error"
      (obj (
        field "schema_version" (str "1.0") (
          field "code" (str code) (
            field "message" (str message) (
              field "retryable" (bool false) (
                field "current_versions" (obj (versions_json current_versions))
                  (field "details" (arr nil) end)))))))
      end)

abbrev pub fresh_outcome : ℕ → CompletedCommandReplay → CommandOutcome
fresh_outcome status completed = record {
  logical_http_status = status;
  command_id = completed.command_id;
  safe_snapshot = completed.safe_response_snapshot;
  is_replay = false;
  callback_plaintext = none;
}

-- `_complete_guard`
unfoldable pub complete_guard :
    Platform → NewCommandReservation → ℕ → String → String → List (String × ℕ) → Tx CommandOutcome
complete_guard p reservation status code message current_versions = do
  completed ← complete p reservation status (error_snapshot code message current_versions) none none
  pure (fresh_outcome status completed)

-- `_replay_outcome`
unfoldable pub replay_outcome : CompletedCommandReplay → CommandOutcome
replay_outcome replay = record {
  logical_http_status = replay.logical_http_status;
  command_id = replay.command_id;
  safe_snapshot = replay.safe_response_snapshot;
  is_replay = true;
  callback_plaintext = none;
}

-- the `except` clauses of `execute`
abbrev pub safe_exception : Exc → Exc
safe_exception e = intake (as_intake e)
