-- ===== src/Intake/Payload.antt =====
-- intake/models.py: a validated payload; intake/canonicalization.py: its hash.
use ai_oas.Base.{String, Text, Option, none, some}
use ai_oas.Json.{Json, str, obj, Fields, end, field}
use ai_oas.Platform.{Platform}

pub record ContactInput : Type 0 where
  pub display_name : String
  pub email : Option String
  pub phone : Option String
  pub preferred_channel : Option String

pub record ServiceRequestInput : Type 0 where
  pub description : String
  pub location_context : Option String
  pub timing_preference : Option String

pub record IntakeRequest : Type 0 where
  pub schema_version : String
  pub contact : ContactInput
  pub service_request : ServiceRequestInput

-- a field of `model_dump(mode="json", exclude_none=True)`
abbrev optional : String → Option String → Fields → Fields
optional name none rest = rest
optional name (some s) rest = field name (str s) rest

abbrev pub model_dump : IntakeRequest → Json
model_dump r = obj (
    field "schema_version" (str r.schema_version) (
      field "contact"
        (obj (
          field "display_name" (str r.contact.display_name) (
            optional "email" r.contact.email (
              optional "phone" r.contact.phone
                (optional "preferred_channel" r.contact.preferred_channel end)))))
        (field "service_request"
          (obj (
            field "description" (str r.service_request.description) (
              optional "location_context" r.service_request.location_context
                (optional "timing_preference" r.service_request.timing_preference end))))
          end)))

-- `sort_keys` is the work of `json.dumps`
unfoldable pub canonical_payload_hash : Platform → IntakeRequest → Text
canonical_payload_hash p payload = p.sha256 (p.json_dumps (model_dump payload))
