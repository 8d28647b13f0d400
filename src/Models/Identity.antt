-- ===== src/Models/Identity.antt =====
-- db/models/identity.py: the actors and their roles. `created_at` and `updated_at` are left out, since
-- no code reads them.
use ai_oas.Base.{
  ℕ, String, Text, Bool, true, false, Option, none, some, ◌&&◌, ◌||◌, not, leb, ltb, is_none,
  is_some, str_eq,
}

pub data ActorStatus : Type 0 where
  active disabled : ActorStatus

pub record ApplicationActor : Type 0 where
  pub id : ℕ
  pub supabase_subject : Text
  pub display_label : String
  pub status : ActorStatus
  pub version : ℕ
  pub disabled_at : Option ℕ
  pub disable_reason : Option String

abbrev pub is_active_status : ActorStatus → Bool
is_active_status active = true
is_active_status disabled = false

-- version_positive, disabled_fields_consistent
abbrev pub ApplicationActor_checks : ApplicationActor → Bool
ApplicationActor_checks a =
    leb 1 a.version
    && (is_active_status a.status && is_none a.disabled_at && is_none a.disable_reason
        || not (is_active_status a.status) && is_some a.disabled_at)

-- `assignment_reason` is text that no code reads.
pub record ApplicationActorRoleAssignment : Type 0 where
  pub id : ℕ
  pub actor_id : ℕ
  pub role : String
  pub assigned_by_actor_id : ℕ
  pub effective_from : ℕ
  pub effective_to : Option ℕ
  pub revoked_by_actor_id : Option ℕ

abbrev pub role_valid : String → Bool
role_valid role =
    str_eq role "OperationsAgent" || (str_eq role "ManagerApprover" || str_eq role "Administrator")

abbrev pub interval_valid : ℕ → Option ℕ → Bool
interval_valid effective_from none = true
interval_valid effective_from (some effective_to) = ltb effective_from effective_to

-- role_valid, interval_valid, revocation_consistent
abbrev pub ApplicationActorRoleAssignment_checks : ApplicationActorRoleAssignment → Bool
ApplicationActorRoleAssignment_checks a =
    role_valid a.role
    && (interval_valid a.effective_from a.effective_to
        && (is_none a.effective_to && is_none a.revoked_by_actor_id
            || is_some a.effective_to && is_some a.revoked_by_actor_id))
