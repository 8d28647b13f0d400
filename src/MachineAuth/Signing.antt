-- ===== src/MachineAuth/Signing.antt =====
-- machine_auth/canonicalization.py: `canonical_signing_bytes`, before it is encoded.
pub mod Lines
pub mod Laws
use ai_oas.Base.{List, [], ◌∷◌, ◌++◌, Text}
use ai_oas.Errors.{Result, ok, and_then}
use ai_oas.Platform.{Platform}
use ai_oas.MachineAuth.Query.{canonical_path_and_query}

-- `f"{method.upper()}\n{target}\n{timestamp}\n{nonce}\n{body_digest}"`
abbrev pub lines : Text → Text → Text → Text → Text → Text
lines method target timestamp nonce body_digest =
    method ++ b'\n' ∷ (target ++ b'\n' ∷ (timestamp ++ b'\n' ∷ (nonce ++ b'\n' ∷ body_digest)))

module _ (p : Platform) where
  unfoldable pub signing_text : Text → Text → Text → Text → Text → p.Bytes → Result Text
  unfolding canonical_path_and_query
  signing_text method raw_path raw_query timestamp nonce body =
      and_then (canonical_path_and_query raw_path raw_query)
        (λ target. ok (lines (p.str_upper method) target timestamp nonce (p.sha256 body)))

  unfoldable pub canonical_signing_bytes :
      Text → Text → Text → Text → Text → p.Bytes → Result p.Bytes
  unfolding signing_text
  canonical_signing_bytes method raw_path raw_query timestamp nonce body =
      and_then (signing_text method raw_path raw_query timestamp nonce body)
        (λ text. ok (p.encode text))
