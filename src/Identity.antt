-- ===== src/Identity.antt =====
-- machine_auth/models.py: who calls; config.py: the settings that the commands read.
use ai_oas.Base.{ℕ, String, ◌*◌}

pub record AuthenticatedWorkflowService : Type 0 where
  pub machine_identity_id : ℕ
  pub stable_service_id : String
  pub environment : String
  pub credential_id : ℕ
  pub credential_version : ℕ

pub record Settings : Type 0 where
  pub ai_interpretation_prompt_version : String
  pub ai_interpretation_result_schema_version : String
  pub ai_provider_name : String
  pub ai_model_name : String
  pub ai_adapter_name : String
  pub ai_adapter_version : String
  pub ai_callback_authorization_seconds : ℕ

-- a `timedelta` in the unit of the clock, a microsecond
abbrev pub seconds : ℕ → ℕ
seconds n = n * 1000000
