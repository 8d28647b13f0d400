-- ===== src/Models/Machine.antt =====
-- db/models/machine.py: machine identities, the versions of their credentials, and used nonces.
use ai_oas.Base.{ℕ, String, Text, Bool, Option, ◌&&◌, ltb, ◌==◌, str_eq, text_eq}
use ai_oas.Models.Execution.{not_blank, hash_valid}

pub data ServiceType : Type 0 where
  backend_service workflow_service event_publisher : ServiceType

pub data IdentityStatus : Type 0 where
  active disabled : IdentityStatus

pub record MachineIdentity : Type 0 where
  pub id : ℕ
  pub service_type : ServiceType
  pub environment : String
  pub stable_service_id : String
  pub display_label : String
  pub status : IdentityStatus
  pub version : ℕ
  pub disabled_at : Option ℕ
  pub disable_reason : Option String

pub data CredentialStatus : Type 0 where
  current previous retired revoked : CredentialStatus

pub record MachineCredentialVersion : Type 0 where
  pub id : ℕ
  pub machine_identity_id : ℕ
  pub credential_version : ℕ
  pub external_secret_reference : String
  pub status : CredentialStatus
  pub activated_at : ℕ
  pub previous_verification_until : Option ℕ
  pub retired_at : Option ℕ
  pub revoked_at : Option ℕ
  pub safe_rotation_reason : Option String

pub record MachineRequestNonce : Type 0 where
  pub id : ℕ
  pub machine_identity_id : ℕ
  pub machine_credential_version_id : ℕ
  pub environment : String
  pub verified_credential_version : ℕ
  pub nonce_digest : Text
  pub signed_at : ℕ
  pub received_at : ℕ
  pub expires_at : ℕ

-- The CHECK constraints of `MachineRequestNonce`.
unfoldable pub MachineRequestNonce_checks : MachineRequestNonce → Bool
unfolding not_blank hash_valid
MachineRequestNonce_checks n =
    not_blank n.environment
    && ltb 0 n.verified_credential_version
    && hash_valid n.nonce_digest
    && ltb n.received_at n.expires_at

-- uq_machine_request_nonces_identity_environment_digest
unfoldable pub nonces_clash : MachineRequestNonce → MachineRequestNonce → Bool
nonces_clash a b =
    a.machine_identity_id == b.machine_identity_id
    && str_eq a.environment b.environment
    && text_eq a.nonce_digest b.nonce_digest
