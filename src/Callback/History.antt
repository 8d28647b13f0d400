-- ===== src/Callback/History.antt =====
-- What attempt_start/service.py and attempt_callback_auth/verifier.py both read from the rows of an
-- attempt: the history of its credentials, and their versions.
use ai_oas.Base.{
  ℕ, Bool, false, Option, none, some, List, [], ◌∷◌, ◌&&◌, ◌||◌, leb, ◌==◌, ◌+◌, is_none, is_some,
  has_duplicates, any_of, find_first,
}
use ai_oas.Models.{AttemptCallbackCredential, CredentialState, active, consumed, replaced, revoked}

abbrev pub versions_of : List AttemptCallbackCredential → List ℕ
versions_of [] = []
versions_of (c ∷ cs) = c.credential_version ∷ versions_of cs

-- `any(version <= 0 ...) or len(versions) != len(set(versions))`
unfoldable pub versions_broken : List ℕ → Bool
versions_broken versions = any_of (λ v. leb v 0) versions || has_duplicates versions

-- `credentials_by_id.get(id)`; `id` is the primary key of the rows.
abbrev pub by_id : Option ℕ → List AttemptCallbackCredential → Option AttemptCallbackCredential
by_id none rows = none
by_id (some id) rows = find_first (λ c. c.id == id) rows

abbrev pub succeeds : Option AttemptCallbackCredential → ℕ → Bool
succeeds none version = false
succeeds (some replacement) version = replacement.credential_version == version + 1

abbrev pub ended_as :
    CredentialState → AttemptCallbackCredential → Option AttemptCallbackCredential → Bool
ended_as replaced h replacement =
    is_none h.consumed_at
    && is_some h.replaced_at
    && is_none h.revoked_at
    && is_some h.replacement_credential_id
    && succeeds replacement h.credential_version
ended_as revoked h replacement =
    is_none h.consumed_at
    && is_none h.replaced_at
    && is_some h.revoked_at
    && is_none h.replacement_credential_id
ended_as consumed h replacement =
    is_some h.consumed_at
    && is_none h.replaced_at
    && is_none h.revoked_at
    && is_none h.replacement_credential_id
ended_as active h replacement = false

-- `valid_history` of one row
unfoldable pub valid_history : List AttemptCallbackCredential → AttemptCallbackCredential → Bool
valid_history rows h = ended_as h.state h (by_id h.replacement_credential_id rows)
