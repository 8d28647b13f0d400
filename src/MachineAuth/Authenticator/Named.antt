-- ===== src/MachineAuth/Authenticator/Named.antt =====
-- The identity that a request names.
use ai_oas.Base.{
  String, Text, ◌≡◌, refl, sym, subst, true, false, codes, text_eq, eq_of_text_eq, eq_iff, str_eq,
  arith, none, some, List, [], ◌∷◌, find_first, select,
}
use mathlib.Core.List.{Memᴰ}
use ai_oas.Models.{
  MachineIdentity, MachineCredentialVersion, ServiceType, IdentityStatus, CredentialStatus,
}
use ai_oas.Tables.{Db}
use ai_oas.Tested.{select-Memᴰ, found-Memᴰ}
use ai_oas.MachineAuth.Authenticator.{is_named, is_workflow, is_active, is_previous, verifies_for}

-- The identity is an active workflow service of the environment, with this name.
pub record Named (environment : String) (service_id : Text) (i : MachineIdentity) : Type 0 where
  pub of_environment : i.environment ≡ environment
  pub name : codes i.stable_service_id ≡ service_id
  pub workflow : i.service_type ≡ ServiceType.workflow_service
  pub active : i.status ≡ IdentityStatus.active

workflow_service : (t : ServiceType) → is_workflow t ≡ true → t ≡ ServiceType.workflow_service
workflow_service t h = ground arith

active_identity : (t : IdentityStatus) → is_active t ≡ true → t ≡ IdentityStatus.active
active_identity t h = ground arith

pub is_named-Named :
    (environment : String) (service_id : Text) (i : MachineIdentity)
    → is_named environment service_id i ≡ true
    → Named environment service_id i
unfolding is_named
is_named-Named environment service_id i h =
    let parts : ((str_eq i.environment environment ≡ true)
        × (text_eq (codes i.stable_service_id) service_id ≡ true)
        × (is_workflow i.service_type ≡ true)
        × (is_active i.status ≡ true)) =
      ground arith in
    record {
      of_environment = (eq_iff i.environment environment).0 parts.0;
      name = eq_of_text_eq _ _ parts.1;
      workflow = workflow_service i.service_type parts.2;
      active = active_identity i.status parts.3;
    }

previous_status :
    (c : MachineCredentialVersion) → is_previous c ≡ true → c.status ≡ CredentialStatus.previous
previous_status c h = by_status c.status h
  where
    by_status :
        (t : CredentialStatus)
        → elim t [ CredentialStatus.previous ↦ true | _ ↦ false ] ≡ true
        → t ≡ CredentialStatus.previous
    by_status t h1 = ground arith

-- A previous version of the identity in the table has no time until which it counts.
pub record Undated (environment : String) (service_id : Text) (d : Db) : Type 0 where
  pub identity : MachineIdentity
  pub listed : Memᴰ identity d.machine_identities
  pub named : Named environment service_id identity
  pub previous : MachineCredentialVersion
  pub stored : Memᴰ previous d.machine_credentials
  pub belongs : previous.machine_identity_id ≡ identity.id
  pub status : previous.status ≡ CredentialStatus.previous
  pub no_time : previous.previous_verification_until ≡ none

pub read-Undated :
    (environment : String) (service_id : Text) (d : Db) (identity : MachineIdentity)
    (rows : List MachineCredentialVersion)
    → find_first (is_named environment service_id) d.machine_identities ≡ some identity
    → rows ≡ select (verifies_for identity.id) d.machine_credentials
    → (q : MachineCredentialVersion) → select is_previous rows ≡ q ∷ []
    → q.previous_verification_until ≡ none
    → Undated environment service_id d
read-Undated environment service_id d identity rows found read q alone no_time =
    let known = found-Memᴰ (is_named environment service_id) d.machine_identities identity found in
    let in_rows =
      select-Memᴰ is_previous rows q (subst (λ l. Memᴰ q l) (sym alone) (Memᴰ.head refl)) in
    let in_table =
      select-Memᴰ (verifies_for identity.id) d.machine_credentials q
        (subst (λ l. Memᴰ q l) read in_rows.0) in
    record {
      identity = identity;
      listed = known.0;
      named = is_named-Named environment service_id identity known.1;
      previous = q;
      stored = in_table.0;
      belongs = let v = in_table.1 in ground arith;
      status = previous_status q in_rows.1;
      no_time = no_time;
    }
