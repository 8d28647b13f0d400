-- ===== src/MachineAuth/Percent.antt =====
-- machine_auth/canonicalization.py: `_reject_malformed_percent`, and the hexadecimal digits. Bytes
-- are a list of numbers. An index that only moves forward is the suffix that is left.
use ai_oas.Base.{ℕ, ◌≡◌, Bool, true, false, ◌&&◌, ◌||◌, [], ◌∷◌, leb, ◌==◌, Text}
use ai_oas.Errors.{IntakeError, intake_error}

abbrev pub machine_authentication_failure : IntakeError
machine_authentication_failure =
    intake_error 401 "MACHINE_AUTHENTICATION_FAILED" "Machine authentication failed."

unfoldable pub is_hex : ℕ → Bool
is_hex c = leb b'0' c && leb c b'9' || leb b'A' c && leb c b'F' || leb b'a' c && leb c b'f'

-- Every `%` starts an escape of two hexadecimal digits.
unfoldable mutual
  pub percent_ok : Text → Bool
  percent_ok [] = true
  percent_ok (c ∷ rest) = elim (c == b'%') [ true ↦ escape_ok rest | false ↦ percent_ok rest ]

  pub escape_ok : Text → Bool
  escape_ok (a ∷ b ∷ rest) = is_hex a && is_hex b && percent_ok rest
  escape_ok _ = false

-- The same, as a derivation: what the proofs run along.
pub data WellEscaped : Text → Type 0 where
  done : WellEscaped []
  plain : {c : ℕ} {rest : Text} → (c == b'%') ≡ false → WellEscaped rest → WellEscaped (c ∷ rest)
  escape :
      {c a b : ℕ} {rest : Text}
      → (c == b'%') ≡ true
      → is_hex a ≡ true
      → is_hex b ≡ true
      → WellEscaped rest
      → WellEscaped (c ∷ a ∷ b ∷ rest)
