-- ===== src/Idempotency/Keys.antt =====
-- command_idempotency/keys.py. A key is the list of its code points.
use ai_oas.Base.{ℕ, Text, Bool, ◌&&◌, leb, length, all_of, if◌then◌else◌}
use ai_oas.Errors.{IntakeError, intake_error, intake, Result, ok, err}
use ai_oas.Platform.{Platform}

abbrev pub missing_key : IntakeError
missing_key = intake_error 400 "MISSING_IDEMPOTENCY_KEY" "A usable Idempotency-Key is required."

abbrev pub visible_ascii : ℕ → Bool
visible_ascii c = leb 0x21 c && leb c 0x7E

unfoldable pub key_usable : Text → Bool
key_usable value = leb 8 (length value) && leb (length value) 128 && all_of visible_ascii value

unfoldable pub validate_command_idempotency_key : Text → Result Text
unfolding key_usable
validate_command_idempotency_key value =
    if key_usable value then ok value else err (intake missing_key)

abbrev digested : Platform → Result Text → Result Text
digested p (ok value) = ok (p.sha256 (p.encode_ascii value))
digested p (err e) = err e

unfoldable pub command_key_digest : Platform → Text → Result Text
unfolding validate_command_idempotency_key
command_key_digest p value = digested p (validate_command_idempotency_key value)
