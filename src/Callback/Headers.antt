-- ===== src/Callback/Headers.antt =====
-- attempt_callback_auth/headers.py: one exact header, without normalization.
use ai_oas.Base.{Text, Bool, List, [], ◌∷◌, ◌&&◌, leb, all_of, if◌then◌else◌}
use ai_oas.Errors.{IntakeError, intake_error, intake, Result, ok, err}
use ai_oas.StartAi.Guard.{opaque_credential}

abbrev pub callback_forbidden : IntakeError
callback_forbidden = intake_error 403 "CALLBACK_FORBIDDEN" "Callback authorization failed."

-- `supplied.isascii()`
unfoldable pub is_ascii : Text → Bool
is_ascii t = all_of (λ c. leb c 127) t

-- the values of the header, in their order
unfoldable pub extract_attempt_callback_credential : List Text → Result Text
extract_attempt_callback_credential (supplied ∷ []) =
    if is_ascii supplied && opaque_credential supplied
    then ok supplied
    else err (intake callback_forbidden)
extract_attempt_callback_credential _ = err (intake callback_forbidden)
