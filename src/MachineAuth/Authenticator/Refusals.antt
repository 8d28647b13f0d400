-- ===== src/MachineAuth/Authenticator/Refusals.antt =====
-- How the headers, the target and the rows of a request are refused.
use ai_oas.Base.{ℕ, String, Text, ◌≡◌, refl, Option, none, some, List, [], ◌∷◌, select}
use ai_oas.Errors.{Exc, intake, dependency_unavailable, unexpected}
use ai_oas.Platform.{Platform}
use ai_oas.Models.{MachineIdentity, MachineCredentialVersion}
use ai_oas.Session.{query}
use ai_oas.Session.Raising.{Fails, Fails-ok, Fails-err, Fails-if, Fails-and_then, fails_rules}
use ai_oas.MachineAuth.Percent.{machine_authentication_failure}
use ai_oas.MachineAuth.Path.{
  refused, canonical_path, ScopeValue, absent, other, bytes, query_of, target_of,
  extract_request_target,
}
use ai_oas.MachineAuth.Query.{
  decoded, decode_query_component, decode_pair, decode_fields, query_fields, canonical_query,
  canonical_path_and_query, partition,
}
use ai_oas.MachineAuth.Headers.{
  only_value, validate_timestamp, validate_nonce, validate_signature, service_id_of, Request,
  claimed,
}
use ai_oas.MachineAuth.Authenticator.{
  is_current, is_previous, the_identity, with_previous, candidates_of, candidates, matches_secret,
  matching, only_credential, signer,
}

-- The errors of the authenticator: a 401, a 503, or another exception, for a reason.
pub data Refusal (reason : Type 0) : Exc → Type 0 where
  unauthenticated : Refusal reason (intake machine_authentication_failure)
  unavailable : Refusal reason (intake dependency_unavailable)
  other_exception : reason → Refusal reason unexpected

module _ (reason : Type 0) where
  Fails-refused : {A : Type 0} → Fails {A = A} (Refusal reason) refused
  Fails-refused = Fails-err (intake machine_authentication_failure) unauthenticated

  Fails-only_value : (values : List Text) → Fails (Refusal reason) (only_value values)
  unfolding only_value
  Fails-only_value [] = Fails-refused
  Fails-only_value ([] ∷ []) = Fails-refused
  Fails-only_value ((c ∷ t) ∷ []) = Fails-ok (c ∷ t)
  Fails-only_value ([] ∷ v ∷ vs) = Fails-refused
  Fails-only_value ((c ∷ t) ∷ v ∷ vs) = Fails-refused

  Fails-canonical_path : (raw : Text) → Fails (Refusal reason) (canonical_path raw)
  unfolding canonical_path
  Fails-canonical_path raw = search (fails_rules, Fails-refused) depth 10

  Fails-query_of : (raw : Text) (query : ScopeValue) → Fails (Refusal reason) (query_of raw query)
  Fails-query_of raw absent = Fails-ok (raw, [])
  Fails-query_of raw other = Fails-refused
  Fails-query_of raw (bytes q) = Fails-ok (raw, q)

  Fails-target_of : (path query : ScopeValue) → Fails (Refusal reason) (target_of path query)
  unfolding target_of
  Fails-target_of absent query = Fails-refused
  Fails-target_of other query = Fails-refused
  Fails-target_of (bytes raw) query =
      search (fails_rules, Fails-refused, Fails-canonical_path, Fails-query_of) depth 10

  Fails-decoded : (o : Option Text) → Fails (Refusal reason) (decoded o)
  Fails-decoded none = Fails-refused
  Fails-decoded (some t) = Fails-ok t

  Fails-decode_query_component :
      (value : Text) → Fails (Refusal reason) (decode_query_component value)
  unfolding decode_query_component
  Fails-decode_query_component value = search (fails_rules, Fails-refused, Fails-decoded) depth 10

  Fails-decode_pair : (pair : Text × Text) → Fails (Refusal reason) (decode_pair pair)
  unfolding decode_pair
  Fails-decode_pair (key, value) = search (fails_rules, Fails-decode_query_component) depth 10

  Fails-decode_fields : (fields : List Text) → Fails (Refusal reason) (decode_fields fields)
  unfolding decode_fields
  Fails-decode_fields [] = Fails-ok []
  Fails-decode_fields (field ∷ fields) =
      Fails-and_then _ _ (Fails-decode_pair (partition field))
        λ pair. Fails-and_then _ _ (Fails-decode_fields fields) λ pairs. Fails-ok (pair ∷ pairs)

  Fails-canonical_query : (raw : Text) → Fails (Refusal reason) (canonical_query raw)
  unfolding canonical_query query_fields
  Fails-canonical_query [] = Fails-ok []
  Fails-canonical_query (c ∷ rest) = search (fails_rules, Fails-decode_fields) depth 10

  Fails-validate_timestamp :
      (value : Text) (now skew : ℕ) → Fails (Refusal reason) (validate_timestamp value now skew)
  unfolding validate_timestamp
  Fails-validate_timestamp value now skew = search (fails_rules, Fails-refused) depth 10

  Fails-validate_nonce : (value : Text) → Fails (Refusal reason) (validate_nonce value)
  unfolding validate_nonce
  Fails-validate_nonce value = search (fails_rules, Fails-refused) depth 10

  Fails-validate_signature : (value : Text) → Fails (Refusal reason) (validate_signature value)
  unfolding validate_signature
  Fails-validate_signature value = search (fails_rules, Fails-refused) depth 10

  Fails-service_id_of : (value : Text) → Fails (Refusal reason) (service_id_of value)
  unfolding service_id_of
  Fails-service_id_of value = search (fails_rules, Fails-refused) depth 10

  pub Fails-claimed :
      {B : Type 0} (now skew : ℕ) (r : Request B) → Fails (Refusal reason) (claimed now skew r)
  unfolding claimed extract_request_target
  Fails-claimed now skew r =
      search
        (
          fails_rules, Fails-only_value, Fails-service_id_of, Fails-validate_timestamp,
          Fails-validate_nonce, Fails-validate_signature, Fails-target_of,
        )
        depth 40

  pub Fails-canonical_path_and_query :
      (path query : Text) → Fails (Refusal reason) (canonical_path_and_query path query)
  unfolding canonical_path_and_query
  Fails-canonical_path_and_query path query =
      search (fails_rules, Fails-canonical_path, Fails-canonical_query) depth 10

  pub Fails-the_identity : (o : Option MachineIdentity) → Fails (Refusal reason) (the_identity o)
  Fails-the_identity none = Fails-refused
  Fails-the_identity (some i) = Fails-ok i

  Fails-with_previous :
      (now : ℕ) (c q : MachineCredentialVersion) (until : Option ℕ)
      → (until ≡ none → reason)
      → Fails (Refusal reason) (with_previous c q now until)
  Fails-with_previous now c q none undated = Fails-err unexpected (other_exception (undated refl))
  Fails-with_previous now c q (some until) undated = Fails-ok _

  Fails-candidates_of :
      (now : ℕ) (cs qs : List MachineCredentialVersion)
      → ((q : MachineCredentialVersion)
          → qs ≡ q ∷ []
          → q.previous_verification_until ≡ none
          → reason)
      → Fails (Refusal reason) (candidates_of now cs qs)
  unfolding candidates_of
  Fails-candidates_of now [] qs h = Fails-refused
  Fails-candidates_of now (c ∷ []) [] h = search (fails_rules, Fails-refused) depth 10
  Fails-candidates_of now (c ∷ []) (q ∷ []) h =
      Fails-if _ _ _ Fails-refused
        (Fails-if _ _ _ Fails-refused (Fails-with_previous now c q _ (h q refl)))
  Fails-candidates_of now (c ∷ []) (q ∷ x ∷ qs) h = Fails-refused
  Fails-candidates_of now (c ∷ x ∷ cs) qs h = Fails-refused

  -- the only previous version of the rows has no time
  abbrev pub UndatedIn : List MachineCredentialVersion → Type 0
  UndatedIn rows =
      (q : MachineCredentialVersion)
      → select is_previous rows ≡ q ∷ []
      → q.previous_verification_until ≡ none
      → reason

  Fails-candidates :
      (now : ℕ) (identity : MachineIdentity) (rows : List MachineCredentialVersion)
      → UndatedIn rows
      → Fails (Refusal reason) (candidates now identity rows)
  unfolding candidates
  Fails-candidates now identity rows undated =
      Fails-and_then _ _
        (Fails-candidates_of now (select is_current rows) (select is_previous rows) undated)
        λ found. search (fails_rules, Fails-refused) depth 10

  module _ (p : Platform) (resolve : String → Option p.Bytes) where
    Fails-matches_secret :
        (o : Option p.Bytes) (signing_bytes : p.Bytes) (supplied : Text)
        → Fails (Refusal reason) (matches_secret p resolve o signing_bytes supplied)
    Fails-matches_secret none signing_bytes supplied =
        Fails-err (intake dependency_unavailable) unavailable
    Fails-matches_secret (some secret) signing_bytes supplied = Fails-ok _

    Fails-matching :
        (signing_bytes : p.Bytes) (supplied : Text) (l : List MachineCredentialVersion)
        → Fails (Refusal reason) (matching p resolve signing_bytes supplied l)
    unfolding matching
    Fails-matching signing_bytes supplied [] = Fails-ok []
    Fails-matching signing_bytes supplied (c ∷ rest) =
        Fails-and_then _ _ (Fails-matches_secret _ signing_bytes supplied)
          λ b. Fails-and_then _ _ (Fails-matching signing_bytes supplied rest) λ found. Fails-ok _

    Fails-only_credential :
        (l : List MachineCredentialVersion) → Fails (Refusal reason) (only_credential p resolve l)
    Fails-only_credential [] = Fails-refused
    Fails-only_credential (c ∷ []) = Fails-ok c
    Fails-only_credential (c ∷ x ∷ l) = Fails-refused

    pub Fails-signer :
        (now : ℕ) (signing_bytes : p.Bytes) (supplied : Text)
        (rows : MachineIdentity × List MachineCredentialVersion)
        → UndatedIn rows.1
        → Fails (Refusal reason) (signer p resolve now signing_bytes supplied rows)
    unfolding signer
    Fails-signer now signing_bytes supplied (identity, rows) undated =
        Fails-and_then _ _ (Fails-candidates now identity rows undated)
          λ found. search (fails_rules, Fails-matching, Fails-only_credential) depth 10
