-- ===== src/MachineAuth/Authenticator/Retained.antt =====
-- How long a nonce has to be kept.
use ai_oas.Base.{ℕ, ◌+◌, ◌≤◌, ◌<◌, ◌≡◌, ◌∙◌, sym, subst, String, Option, true, arith}
use ai_oas.Errors.{ok}
use ai_oas.Platform.{Platform}
use ai_oas.Models.{MachineIdentity, MachineCredentialVersion}
use ai_oas.Identity.{seconds}
use ai_oas.MachineAuth.Headers.{Claimed, validate_timestamp, distance}
use ai_oas.MachineAuth.Headers.Laws.{validate_timestamp_tests}
use ai_oas.MachineAuth.Authenticator.{
  MachineSettings, nonce_retention_exceeds_clock_skew, nonce_row,
}

-- the clock is at most two skews further
within_two :
    (signed_at now later skew : ℕ)
    → distance signed_at now ≤ skew
    → distance signed_at later ≤ skew
    → later ≤ now + (skew + skew)
within_two signed_at now later skew a b = omega arith

-- With settings that the validator lets through, a timestamp that is accepted when its nonce is
-- recorded is accepted later only before the clock has reached the expiry of the nonce plus the
-- skew.
pub validate_timestamp-nonce_row :
    (p : Platform) (secret_of : String → Option p.Bytes) (settings : MachineSettings)
    (now later : ℕ) (r : Claimed) (identity : MachineIdentity)
    (credential : MachineCredentialVersion) (id received_at signed_at : ℕ)
    → nonce_retention_exceeds_clock_skew settings ≡ true
    → validate_timestamp r.timestamp now settings.machine_clock_skew_seconds ≡ ok r.signed_at
    → validate_timestamp r.timestamp later settings.machine_clock_skew_seconds ≡ ok signed_at
    → later
      < (nonce_row p secret_of settings now r identity credential id received_at).expires_at
        + seconds settings.machine_clock_skew_seconds
validate_timestamp-nonce_row p secret_of settings now later r identity credential id received_at
      signed_at valid first second =
    let skew = settings.machine_clock_skew_seconds in
    let a = (validate_timestamp_tests r.timestamp now skew r.signed_at).0 first in
    let b = (validate_timestamp_tests r.timestamp later skew signed_at).0 second in
    let same : r.signed_at ≡ signed_at = a.4 ∙ sym b.4 in
    let longer : skew < settings.machine_nonce_retention_seconds = ground arith in
    let near =
      within_two signed_at now later (seconds skew)
        (subst (λ x. distance x now ≤ seconds skew) same a.3) b.3 in
    omega arith
