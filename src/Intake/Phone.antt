-- ===== src/Intake/Phone.antt =====
-- intake/normalization.py: `normalize_phone`. `is_space` is `str.isspace` of a code point, which is
-- also `\s`, and `is_decimal` is `\d`, a decimal digit of any script.
pub mod Laws
use ai_oas.Base.{
  strip, ℕ, Bool, true, false, ◌&&◌, ◌||◌, not, [], ◌∷◌, leb, ◌==◌, Text, all_of, length, select,
  if◌then◌else◌,
}
use ai_oas.Errors.{Result, ok, err, value}

module _ (is_space is_decimal : ℕ → Bool) where
  -- `[\s().-]`
  unfoldable pub separator : ℕ → Bool
  separator c = is_space c || (c == b'(' || (c == b')' || (c == b'.' || c == b'-')))

  unfoldable pub separators_removed : Text → Text
  unfolding separator strip
  separators_removed t = select (λ c. not (separator c)) (strip is_space t)

  -- `^\+[1-9]\d{7,14}$`, on the whole text
  unfoldable pub e164_phone : Text → Bool
  e164_phone (sign ∷ first ∷ rest) =
      sign == b'+'
      && (leb b'1' first
          && leb first b'9'
          && (leb 7 (length rest) && leb (length rest) 14 && all_of is_decimal rest))
  e164_phone _ = false

  unfoldable pub normalize_phone : Text → Result Text
  unfolding separators_removed e164_phone
  normalize_phone t =
      let normalized = separators_removed t in
      if not (e164_phone normalized)
      then err value
      else if leb 33 (length normalized)
      then err value
      else ok normalized
