-- ===== src/Session/ReadOnly.antt =====
-- Rules for a session that only reads.
use ai_oas.Base.{◌≡◌, refl, arith}
use ai_oas.Errors.{Exc, Result, ok, err}
use ai_oas.Tables.{Db}
use ai_oas.Session.{Session, Tx, begun, continue, read_only}
use ai_oas.Session.Reason.{Keeps, Ends, WhenOk-at}
use ai_oas.Session.Reading.{Reads}
use ai_oas.Session.Statements.{IsStable}
use ai_oas.Session.Raising.{Raises}

abbrev pub Committed : Db → Session → Type 0
Committed c s = s.committed ≡ c

pub Committed-IsStable : (c : Db) → IsStable (Committed c)
Committed-IsStable c = record { faults = λ s l h. h; drawn = λ s n h. h }

module _ {A : Type 0} where
  pub Raises-read_only : {E : Exc → Type 0} (m : Tx A) → Raises E m → Raises E (read_only m)
  unfolding read_only
  Raises-read_only m h = record { at = λ s. h.at (begun s) }

  pub Keeps-read_only :
      {c : Db} (m : Tx A) → Keeps (Committed c) m → Keeps (Committed c) (read_only m)
  unfolding read_only
  Keeps-read_only m h = record { at = λ s k. h.at (begun s) k }

  -- what a session that only reads returns
  pub read_only_lem :
      (m : Tx A) (Q : A → Type 0) (s : Session)
      → Ends (Reads s.committed s.now) m (λ a t. Q a)
      → (a : A) → (read_only m s).0 ≡ ok a
      → Q a
  unfolding read_only
  read_only_lem m Q s e a h = WhenOk-at (λ a t. Q a) (m (begun s)) a h (e.at (begun s) (refl, refl))

-- Inversion of a first step.
pub first_returned :
    {A B : Type 0} (r : Result A × Session) (f : A → Tx B) (b : B)
    → (continue r.0 f r.1).0 ≡ ok b
    → (a : A) × (r.0 ≡ ok a) × ((f a r.1).0 ≡ ok b)
first_returned (ok a, t) f b h = (a, refl, h)
first_returned (err e, t) f b h = absurd (ground arith)
