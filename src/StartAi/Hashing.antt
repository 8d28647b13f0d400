-- ===== src/StartAi/Hashing.antt =====
-- start_ai/hashing.py and start_ai/credentials.py
use ai_oas.Base.{String, Text, Option, none, some}
use ai_oas.Json.{Json, null, str, obj, end, field}
use ai_oas.Platform.{Platform}
use ai_oas.Models.{ServiceRequest}
use ai_oas.Identity.{Settings}

abbrev pub optional_json : Option String → Json
optional_json none = null
optional_json (some s) = str s

unfoldable pub canonical_hash : Platform → Json → Text
canonical_hash p value = p.sha256 (p.json_dumps value)

unfoldable pub ai_input_material : ServiceRequest → Json
ai_input_material request = obj (
    field "input_schema_version" (str "1.0") (
      field "location_context" (optional_json request.location_context) (
        field "request_description" (str request.normalized_request_description)
          (field "timing_preference" (optional_json request.timing_preference) end))))

unfoldable pub ai_input_hash : Platform → ServiceRequest → Text
unfolding canonical_hash ai_input_material
ai_input_hash p request = canonical_hash p (ai_input_material request)

unfoldable pub ai_configuration_material : Settings → Json
ai_configuration_material settings = obj (
    field "adapter_name" (str settings.ai_adapter_name) (
      field "adapter_version" (str settings.ai_adapter_version) (
        field "model_name" (str settings.ai_model_name) (
          field "prompt_version" (str settings.ai_interpretation_prompt_version) (
            field "provider_name" (str settings.ai_provider_name) (
              field "result_schema_version" (str settings.ai_interpretation_result_schema_version)
                end))))))

unfoldable pub ai_configuration_hash : Platform → Settings → Text
unfolding canonical_hash ai_configuration_material
ai_configuration_hash p settings = canonical_hash p (ai_configuration_material settings)

unfoldable pub callback_credential_hash : Platform → Text → Text
callback_credential_hash p plaintext = p.sha256 (p.encode_ascii plaintext)
