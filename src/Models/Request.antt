-- ===== src/Models/Request.antt =====
-- db/models/intake.py: the service request. `updated_at` is left out, since no command reads it.
use ai_oas.Base.{ℕ, String, Bool, true, false, Option, leb}

pub data ServiceRequestStatus : Type 0 where
  triage_pending human_review duplicate_review ready_for_action : ServiceRequestStatus
  awaiting_approval action_revision_required action_pending_execution : ServiceRequestStatus
  retryable_failure completed terminal_failure closed_duplicate : ServiceRequestStatus

abbrev pub is_triage_pending : ServiceRequestStatus → Bool
is_triage_pending triage_pending = true
is_triage_pending _ = false

pub record ServiceRequest : Type 0 where
  pub id : ℕ
  pub originating_delivery_id : ℕ
  pub contact_id : ℕ
  pub normalized_request_description : String
  pub status : ServiceRequestStatus
  pub version : ℕ
  pub category : Option String
  pub priority : Option String
  pub current_queue : Option String
  pub location_context : Option String
  pub timing_preference : Option String
  pub current_interpretation_id : Option ℕ

-- A PostgreSQL `integer` holds at most this.
abbrev pub max_integer : ℕ
max_integer = 2147483647

abbrev pub fits_integer : ℕ → Bool
fits_integer n = leb n max_integer
