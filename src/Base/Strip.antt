-- ===== src/Base/Strip.antt =====
-- `str.strip`, for a test of the characters that are white space (`str.isspace`).
use mathlib.Core.Bool.{true, false}
use mathlib.Core.List.{[], ◌∷◌}
use ai_oas.Base.Tests.{Text, if◌then◌else◌}
use ai_oas.Base.Lists.{all_of}
use Prim.Native.Nat.{ℕ}
use mathlib.Core.Bool.{Bool}

module _ (is_space : ℕ → Bool) where
  unfoldable pub lstrip : Text → Text
  lstrip [] = []
  lstrip (c ∷ rest) = elim (is_space c) [ true ↦ lstrip rest | false ↦ c ∷ rest ]

  unfoldable pub rstrip : Text → Text
  rstrip [] = []
  rstrip (c ∷ rest) = if all_of is_space (c ∷ rest) then [] else c ∷ rstrip rest

  unfoldable pub strip : Text → Text
  unfolding lstrip rstrip
  strip t = rstrip (lstrip t)
