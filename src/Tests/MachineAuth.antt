-- ===== src/Tests/MachineAuth.antt =====
-- A signed request from its headers to its recorded nonce, and the same request again.
use ai_oas.Base.{
  String, Text, ◌≡◌, ◌≢◌, ◌↔◌, ◌+◌, ◌<◌, refl, true, false, none, some, Option, List, [], ◌∷◌,
  codes,
}
use ai_oas.Errors.{Result, ok, err, intake, dependency_unavailable}
use ai_oas.Identity.{seconds, AuthenticatedWorkflowService}
use ai_oas.Models.{
  MachineIdentity, MachineCredentialVersion, ServiceType, IdentityStatus, CredentialStatus,
}
use ai_oas.Tables.{Db, empty_db}
use ai_oas.Session.{Session}
use ai_oas.MachineAuth.Percent.{machine_authentication_failure}
use ai_oas.MachineAuth.Path.{bytes, canonical_path}
use ai_oas.MachineAuth.Query.{canonical_query, quote, decode_query_component}
use ai_oas.MachineAuth.Signing.{lines}
use ai_oas.MachineAuth.Headers.{Request, Claimed, validate_timestamp}
use ai_oas.MachineAuth.Authenticator.{MachineSettings, nonce_row, authenticate}
use mathlib.Core.List.{Perm}
use ai_oas.MachineAuth.Path.Laws.{SameEscapes, canonical_path-SameEscapes}
use ai_oas.MachineAuth.Query.Laws.{canonical_query-Perm, canonical_query-idempotent}
use ai_oas.MachineAuth.Query.Quoting.{decode-quote}
use ai_oas.MachineAuth.Headers.Laws.{claimed-signing_text}
use ai_oas.MachineAuth.Headers.Stamps.{Stamp, validate_timestamp_iff}
use ai_oas.MachineAuth.Authenticator.Genuine.{Genuine}
use ai_oas.MachineAuth.Authenticator.Once.{
  used, authenticate-Genuine, authenticate-used, authenticate-once,
}
use ai_oas.MachineAuth.Authenticator.Retained.{validate_timestamp-nonce_row}
use ai_oas.MachineAuth.Authenticator.Refusals.{Refusal}
use ai_oas.MachineAuth.Authenticator.Failing.{MetUndated, authenticate-Refusal}
use ai_oas.Tests.Toy.{Bytes, of_text, toy, toy_hmac, toy_hash, session_on, lost, later}

abbrev machine_settings : MachineSettings
machine_settings = record {
  app_environment = "test";
  machine_clock_skew_seconds = 300;
  machine_nonce_retention_seconds = 600;
}

abbrev secret : Bytes
secret = of_text (codes "shared secret")

abbrev secret_of : String → Option Bytes
secret_of s = some secret

abbrev identity : MachineIdentity
identity = record {
  id = 7;
  service_type = ServiceType.workflow_service;
  environment = "test";
  stable_service_id = "n8n";
  display_label = "Workflows";
  status = IdentityStatus.active;
  version = 1;
  disabled_at = none;
  disable_reason = none;
}

abbrev credential : MachineCredentialVersion
credential = record {
  id = 8;
  machine_identity_id = 7;
  credential_version = 1;
  external_secret_reference = "vault";
  status = CredentialStatus.current;
  activated_at = 5;
  previous_verification_until = none;
  retired_at = none;
  revoked_at = none;
  safe_rotation_reason = none;
}

abbrev machines_db : Db
machines_db = record empty_db {
  machine_identities = identity ∷ [];
  machine_credentials = credential ∷ [];
}

abbrev nonce : Text
nonce = codes "0123456789abcdef"

abbrev body : Bytes
body = of_text (codes "{}")

-- `POST /a%2fb?y=+2&x`
abbrev signed_text : Text
signed_text = lines (codes "POST") (codes "/a%2Fb?x=&y=%202") (codes "1") nonce (toy.sha256 body)

abbrev signed : Request Bytes
signed = record {
  method = codes "POST";
  scope = record { raw_path = bytes (codes "/a%2fb"); query_string = bytes (codes "y=+2&x") };
  service_ids = codes "n8n" ∷ [];
  timestamps = codes "1" ∷ [];
  nonces = nonce ∷ [];
  signatures = toy_hmac secret (of_text signed_text) ∷ [];
  body = body;
}

abbrev headers : Claimed
headers = record {
  service_id = codes "n8n";
  timestamp = codes "1";
  signed_at = 1000000;
  nonce = nonce;
  supplied_signature = toy_hmac secret (of_text signed_text);
  raw_path = codes "/a%2fb";
  raw_query = codes "y=+2&x";
}

abbrev service : AuthenticatedWorkflowService
service = record {
  machine_identity_id = 7;
  stable_service_id = "n8n";
  environment = "test";
  credential_id = 8;
  credential_version = 1;
}

unfoldable pub accepted : Result AuthenticatedWorkflowService × Session
unfolding authenticate ai_oas.MachineAuth.Percent.is_hex ai_oas.Session.close ai_oas.Session.commit
accepted = authenticate toy secret_of machine_settings 2000000 signed (session_on machines_db)

-- the signed request is accepted once, and not for another body
accepted_first : accepted.0 ≡ ok service
unfolding accepted
accepted_first = refl

abbrev second_session : Session
second_session = later accepted.1.committed

refused_again :
    (authenticate toy secret_of machine_settings 2000000 signed second_session).0
    ≡ err (intake machine_authentication_failure)
unfolding accepted
refused_again = refl

refused_body :
    (authenticate toy secret_of machine_settings 2000000
      (record signed { body = of_text (codes "[]") })
      (session_on machines_db)).0
    ≡ err (intake machine_authentication_failure)
unfolding accepted
refused_body = refl

unavailable_database :
    (authenticate toy secret_of machine_settings 2000000 signed (lost (session_on machines_db))).0
    ≡ err (intake dependency_unavailable)
unfolding accepted
unavailable_database = refl

-- another service with the same secret
abbrev other_identity : MachineIdentity
other_identity = record identity { id = 9; stable_service_id = "n9n" }

abbrev other_credential : MachineCredentialVersion
other_credential = record credential {
  id = 10;
  machine_identity_id = 9;
  external_secret_reference = "other";
}

abbrev both_db : Db
both_db = record machines_db {
  machine_identities = identity ∷ other_identity ∷ [];
  machine_credentials = credential ∷ other_credential ∷ [];
}

abbrev by_other : Request Bytes
by_other = record signed { service_ids = codes "n9n" ∷ [] }

abbrev other_service : AuthenticatedWorkflowService
other_service = record service {
  machine_identity_id = 9;
  stable_service_id = "n9n";
  credential_id = 10;
}

unfoldable pub of_both : Result AuthenticatedWorkflowService × Session
unfolding accepted
of_both = authenticate toy secret_of machine_settings 2000000 signed (session_on both_db)

abbrev then_other : Session
then_other = later of_both.1.committed

canonical_path-SameEscapes_example :
    (codes "/a%2Fb" ≡ codes "/a%2Fb") ↔ SameEscapes (codes "/a%2fb") (codes "/a%2Fb")
unfolding accepted
canonical_path-SameEscapes_example =
    canonical_path-SameEscapes (codes "/a%2fb") (codes "/a%2Fb") (codes "/a%2Fb") (codes "/a%2Fb")
      refl refl

abbrev fields : List (Text × Text)
fields = (codes "y", codes " 2") ∷ (codes "x", []) ∷ []

abbrev sorted_fields : List (Text × Text)
sorted_fields = (codes "x", []) ∷ (codes "y", codes " 2") ∷ []

canonical_query-Perm_example :
    (canonical_query (codes "y=+2&x") ≡ canonical_query (codes "x=&y=%202"))
    ↔ Perm fields sorted_fields
unfolding accepted
canonical_query-Perm_example =
    canonical_query-Perm b'y' b'x' (codes "=+2&x") (codes "=&y=%202") fields sorted_fields refl refl

canonical_query-idempotent_example : canonical_query (codes "x=&y=%202") ≡ ok (codes "x=&y=%202")
unfolding accepted
canonical_query-idempotent_example =
    canonical_query-idempotent (codes "y=+2&x") (codes "x=&y=%202") refl

decode-quote_example : decode_query_component (quote (codes "a é&+")) ≡ ok (codes "a é&+")
unfolding accepted
decode-quote_example = decode-quote (codes "a é&+") refl

validate_timestamp_iff_example :
    (validate_timestamp (codes "12") 300000000 300 ≡ ok 12000000)
    ↔ Stamp (codes "12") 300000000 300 12000000
validate_timestamp_iff_example = validate_timestamp_iff (codes "12") 300000000 300 12000000

claimed-signing_text_example :
    (toy.str_upper (codes "POST") ≡ toy.str_upper (codes "POST"))
    × (canonical_path (codes "/a%2fb") ≡ canonical_path (codes "/a%2fb"))
    × (canonical_query (codes "y=+2&x") ≡ canonical_query (codes "y=+2&x"))
    × (codes "1" ≡ codes "1")
    × (nonce ≡ nonce)
    × (toy.sha256 body ≡ toy.sha256 body)
unfolding accepted
claimed-signing_text_example =
    claimed-signing_text toy 2000000 3000000 300 signed signed headers headers signed_text refl refl
      refl refl refl refl

authenticate-Genuine_example :
    Genuine toy secret_of machine_settings 2000000 signed service machines_db machines_db
      accepted.1.committed
unfolding accepted
authenticate-Genuine_example =
    authenticate-Genuine toy secret_of machine_settings 2000000 signed (session_on machines_db)
      service refl

authenticate-used_example :
    (used "test" 7 (toy_hash (of_text nonce)) machines_db ≡ false)
    × (used "test" 7 (toy_hash (of_text nonce)) accepted.1.committed ≡ true)
unfolding accepted
authenticate-used_example =
    authenticate-used toy secret_of machine_settings 2000000 signed (session_on machines_db) service
      headers refl refl

authenticate-once_example : service.machine_identity_id ≢ other_service.machine_identity_id
unfolding of_both
authenticate-once_example =
    authenticate-once toy secret_of machine_settings 2000000 2000000 signed by_other
      (session_on both_db) then_other service other_service headers
      (record headers { service_id = codes "n9n" }) refl refl refl refl refl
      (λ environment identity_id digest h. h)

authenticate-Refusal_example :
    Refusal
      (MetUndated toy machine_settings 2000000 signed second_session.committed)
      (intake machine_authentication_failure)
unfolding accepted
authenticate-Refusal_example =
    authenticate-Refusal toy secret_of machine_settings 2000000 signed second_session
      (intake machine_authentication_failure) refl

validate_timestamp-nonce_row_example :
    301000000
    < (nonce_row toy secret_of machine_settings 2000000 headers identity credential 9
        2000000).expires_at
      + seconds 300
unfolding validate_timestamp
validate_timestamp-nonce_row_example =
    validate_timestamp-nonce_row toy secret_of machine_settings 2000000 301000000 headers identity
      credential 9 2000000 1000000 refl refl refl
