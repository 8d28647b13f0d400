-- ===== src/Base/Strings.antt =====
-- `s[:n]`, `s + t` and `sep.join(parts)` on strings.
use Prim.Native.Nat.{ℕ, zero, suc}
use Prim.Native.String.{String}
use mathlib.Core.List.{List, [], ◌∷◌}

unfoldable pub prefix : ℕ → String → String
prefix zero s = String.[]
prefix (suc n) String.[] = String.[]
prefix (suc n) (String.◌∷◌ c s) = String.◌∷◌ c (prefix n s)

unfoldable pub append : String → String → String
append String.[] t = t
append (String.◌∷◌ c s) t = String.◌∷◌ c (append s t)

unfoldable pub join_strings : String → List String → String
unfolding append
join_strings sep [] = String.[]
join_strings sep (s ∷ []) = s
join_strings sep (s ∷ t ∷ rest) = append s (append sep (join_strings sep (t ∷ rest)))
