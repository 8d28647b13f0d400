-- ===== src/Tests/Phone.antt =====
-- Phone numbers that are normalized, with ASCII classes of characters.
use ai_oas.Base.{ℕ, ◌≡◌, refl, ◌≤◌, Bool, ◌&&◌, ◌==◌, leb, Text, codes, length}
use ai_oas.Errors.{ok, err, value}
use ai_oas.Intake.Phone.{normalize_phone}
use ai_oas.Intake.Phone.Laws.{normalize_phone-idempotent}

abbrev is_space : ℕ → Bool
is_space c = c == 32

abbrev is_decimal : ℕ → Bool
is_decimal c = leb b'0' c && leb c b'9'

abbrev written : Text
written = codes " +44 (20) 7946-0958 "

abbrev number : Text
number = codes "+442079460958"

written_accepted : normalize_phone is_space is_decimal written ≡ ok number
unfolding normalize_phone
written_accepted = refl

no_sign : normalize_phone is_space is_decimal (codes "0044 20 7946 0958") ≡ err value
unfolding normalize_phone
no_sign = refl

too_long : normalize_phone is_space is_decimal (codes "+1234567890123456") ≡ err value
unfolding normalize_phone
too_long = refl

normalize_phone-idempotent_example :
    (normalize_phone is_space is_decimal number ≡ ok number)
    × (9 ≤ length number)
    × (length number ≤ 16)
unfolding normalize_phone
normalize_phone-idempotent_example =
    normalize_phone-idempotent is_space is_decimal written number refl
