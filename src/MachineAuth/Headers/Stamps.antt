-- ===== src/MachineAuth/Headers/Stamps.antt =====
-- Which timestamps are accepted.
use ai_oas.Base.{
  ℕ, ◌+◌, ◌-◌, ◌*◌, ◌≤◌, ◌≡◌, ◌≢◌, ◌∙◌, ◌↔◌, refl, sym, ap, subst, Text, not, [], ◌∷◌, ◌==◌, length,
  all_of, arith,
}
use ai_oas.Errors.{ok}
use ai_oas.Tested.{Decides, both, leb-Decides, Everywhere, all_of-Everywhere}
use ai_oas.MachineAuth.Headers.{digit, is_digits, int_from, validate_timestamp}
use ai_oas.MachineAuth.Headers.Laws.{validate_timestamp_tests}

-- the number that digits write, the last one first
abbrev pub least_first : Text → ℕ
least_first [] = 0
least_first (c ∷ rest) = (c - 48) + 10 * least_first rest

abbrev pub turned : Text → Text → Text
turned [] onto = onto
turned (c ∷ rest) onto = turned rest (c ∷ onto)

int_from-turned :
    (value onto : Text) → int_from (least_first onto) value ≡ least_first (turned value onto)
unfolding int_from
int_from-turned [] onto = refl
int_from-turned (c ∷ rest) onto =
    let next : least_first onto * 10 + (c - 48) ≡ (c - 48) + 10 * least_first onto = omega arith in
    ap (λ n. int_from n rest) next ∙ int_from-turned rest (c ∷ onto)

-- ASCII digits, at least one and at most 4300, that write the second, which is a second of the years
-- that a datetime has and is not further from the clock than the skew on either side.
pub record Stamp (value : Text) (now skew signed_at : ℕ) : Type 0 where
  pub digits : Everywhere (λ c. (48 ≤ c) × (c ≤ 57)) value
  pub written_out : value ≢ []
  pub short : length value ≤ 4300
  pub in_range : least_first (turned value []) ≤ 253402300799
  pub is_second : signed_at ≡ 1000000 * least_first (turned value [])
  pub not_early : signed_at ≤ now + 1000000 * skew
  pub not_late : now ≤ signed_at + 1000000 * skew

digits-Everywhere :
    (value : Text) → Decides (all_of digit value) (Everywhere (λ c. (48 ≤ c) × (c ≤ 57)) value)
digits-Everywhere value =
    all_of-Everywhere _ digit (λ c. both (leb-Decides 48 c) (leb-Decides c 57)) value

nonempty_text : (value : Text) → Decides (not (length value == 0)) (value ≢ [])
nonempty_text [] = (λ h. absurd (ground arith), λ w. absurd (w refl))
nonempty_text (c ∷ rest) = (λ h e. ground (arith, e), λ w. ground arith)

is_digits-Decides :
    (value : Text)
    → Decides (is_digits value) ((value ≢ []) × Everywhere (λ c. (48 ≤ c) × (c ≤ 57)) value)
is_digits-Decides value = both (nonempty_text value) (digits-Everywhere value)

-- A timestamp is accepted exactly when it is one to 4300 ASCII digits for a second that a datetime
-- has, at most the skew before or after the clock, and then it is that second in microseconds.
pub validate_timestamp_iff :
    (value : Text) (now skew signed_at : ℕ)
    → (validate_timestamp value now skew ≡ ok signed_at) ↔ Stamp value now skew signed_at
validate_timestamp_iff value now skew signed_at = (to, from)
  where
    number : int_from 0 value ≡ least_first (turned value [])
    number = int_from-turned value []

    to : validate_timestamp value now skew ≡ ok signed_at → Stamp value now skew signed_at
    to h =
        let (tests, short, range, near, same) =
          (validate_timestamp_tests value now skew signed_at).0 h in
        let (some_digit, digits) = (is_digits-Decides value).0 tests in
        record {
          digits = digits;
          written_out = some_digit;
          short = short;
          in_range = subst (λ n. n ≤ 253402300799) number range;
          is_second = let e = number in omega arith;
          not_early = omega arith;
          not_late = omega arith;
        }

    from : Stamp value now skew signed_at → validate_timestamp value now skew ≡ ok signed_at
    from h =
        let early = h.not_early in
        let late = h.not_late in
        let e = number in
        let second = h.is_second in
        (validate_timestamp_tests value now skew signed_at).1 (
          (is_digits-Decides value).1 (h.written_out, h.digits),
          h.short,
          subst (λ n. n ≤ 253402300799) (sym number) h.in_range,
          omega arith,
          omega arith,
        )
