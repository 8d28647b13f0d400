-- ===== src/Session/Raising.antt =====
-- Rules for the exceptions that an action, or a computed result, can raise.
use ai_oas.Base.{
  ◌≡◌, refl, ap, subst, Bool, true, false, not, Option, none, some, List, [], ◌∷◌, if◌then◌else◌,
  arith,
}
use ai_oas.Errors.{Exc, Result, ok, err, operational, integrity, database, and_then}
use ai_oas.Tables.{Db}
use ai_oas.Platform.{Platform}
use ai_oas.Session.{
  Session, Tx, Fault, exc_of, connection_lost, statement_failed, answer, statement, query, write,
  gets, pure, lift, raise_if, rethrow, handle, continue, ◌>>=◌, interleave, uuid4, begun, commit,
  close, in_transaction,
}

-- A result that is an error is one of these.
pub record Fails {A : Type 0} (E : Exc → Type 0) (r : Result A) : Type 0 where
  pub at : (e : Exc) → r ≡ err e → E e

pub record Raises {A : Type 0} (E : Exc → Type 0) (m : Tx A) : Type 0 where
  pub at : (s : Session) → Fails E (m s).0

exc_value : {A : Type 0} → Exc → Result A → Exc
exc_value d (ok a) = d
exc_value d (err e) = e

module _ {A : Type 0} {E : Exc → Type 0} where
  pub Fails-ok : (a : A) → Fails E (ok a)
  Fails-ok a = record { at = λ e h. ground arith }

  pub Fails-err : (x : Exc) → E x → Fails {A = A} E (err x)
  unfolding exc_value
  Fails-err x k = record { at = λ e h. subst E (ap (exc_value x) h) k }

  pub Fails-if : (b : Bool) (r q : Result A) → Fails E r → Fails E q → Fails E (if b then r else q)
  Fails-if true r q h k = h
  Fails-if false r q h k = k

  pub Raises-pure : (a : A) → Raises E (pure a)
  Raises-pure a = record { at = λ s. Fails-ok a }

  pub Raises-gets : (f : Session → A) → Raises E (gets f)
  Raises-gets f = record { at = λ s. Fails-ok (f s) }

  pub Raises-lift : (r : Result A) → Fails E r → Raises E (lift r)
  Raises-lift r h = record { at = λ s. h }

module _ {A B : Type 0} {E : Exc → Type 0} where
  pub Fails-and_then :
      (r : Result A) (f : A → Result B)
      → Fails E r
      → ((a : A) → Fails E (f a))
      → Fails E (and_then r f)
  Fails-and_then (ok a) f h k = k a
  Fails-and_then (err e) f h k = Fails-err e (h.at e refl)

  Raises-continue :
      (r : Result A) (f : A → Tx B) (s : Session)
      → Fails E r
      → ((a : A) → Raises E (f a))
      → Fails E (continue r f s).0
  Raises-continue (ok a) f s h k = (k a).at s
  Raises-continue (err e) f s h k = Fails-err e (h.at e refl)

  pub Raises-bind :
      (m : Tx A) (f : A → Tx B) → Raises E m → ((a : A) → Raises E (f a)) → Raises E (m >>= f)
  Raises-bind m f h k = record { at = λ s. Raises-continue (m s).0 f (m s).1 (h.at s) k }

module _ {A : Type 0} {E F : Exc → Type 0} where
  Fails-handle :
      (g : Exc → Exc) (r : Result A × Session)
      → ((e : Exc) → E e → F (g e))
      → Fails E r.0
      → Fails F (handle g r).0
  Fails-handle g (ok a, s) k h = Fails-ok a
  Fails-handle g (err e, s) k h = Fails-err (g e) (k e (h.at e refl))

  pub Raises-rethrow :
      (g : Exc → Exc) (m : Tx A) → ((e : Exc) → E e → F (g e)) → Raises E m → Raises F (rethrow g m)
  Raises-rethrow g m k h = record { at = λ s. Fails-handle g (m s) k (h.at s) }

-- What the database raises.
pub data Raised : Exc → Type 0 where
  of_operational : Raised operational
  of_integrity : Raised integrity
  of_database : Raised database

module _ (E : Exc → Type 0) (k : (e : Exc) → Raised e → E e) where
  fault_raised : (f : Fault) → E (exc_of f)
  fault_raised connection_lost = k operational of_operational
  fault_raised statement_failed = k database of_database

  answer-Fails : (l : List (Option Fault)) (s : Session) → Fails E (answer l s).0
  unfolding answer
  answer-Fails [] s = Fails-ok tt
  answer-Fails (none ∷ l) s = Fails-ok tt
  answer-Fails (some f ∷ l) s = Fails-err (exc_of f) (fault_raised f)

  pub Raises-statement : Raises E statement
  unfolding statement
  Raises-statement = record { at = λ s. answer-Fails s.faults s }

  raise_if_fails : (b : Bool) (x : Exc) → E x → Raises E (raise_if b x)
  raise_if_fails true x h = record { at = λ s. Fails-err x h }
  raise_if_fails false x h = record { at = λ s. Fails-ok tt }

  pub Raises-query : {A : Type 0} (f : Db → A) → Raises E (query f)
  unfolding query
  Raises-query f = Raises-bind statement _ Raises-statement (λ _. Raises-gets _)

  pub Raises-write : (accepts : Db → Bool) (change : Db → Db) → Raises E (write accepts change)
  unfolding write
  Raises-write accepts change = Raises-bind statement _ Raises-statement λ _.
      Raises-bind (gets (λ s. s.working)) _ (Raises-gets _) λ d.
        Raises-bind (raise_if (not (accepts d)) integrity) _
          (raise_if_fails (not (accepts d)) integrity (k integrity of_integrity))
          λ _. record { at = λ s. Fails-ok tt }

  commit-Fails :
      {A : Type 0} (a : A) (r : Result (Unit {0}) × Session) → Fails E r.0 → Fails E (commit a r).0
  unfolding commit
  commit-Fails a (ok u, s) h = Fails-ok a
  commit-Fails a (err e, s) h = Fails-err e (h.at e refl)

  close-Fails : {A : Type 0} (r : Result A) (s : Session) → Fails E r → Fails E (close r s).0
  unfolding close
  close-Fails (ok a) s h = commit-Fails a (statement s) (Raises-statement.at s)
  close-Fails (err e) s h = Fails-err e (h.at e refl)

  pub Raises-in_transaction : {A : Type 0} (m : Tx A) → Raises E m → Raises E (in_transaction m)
  unfolding in_transaction
  Raises-in_transaction m h = record {
    at = λ s. let (r, t) = m (begun s) in close-Fails r t (h.at (begun s));
  }

pub Raises-interleave : {E : Exc → Type 0} → Raises E interleave
unfolding interleave
Raises-interleave = record { at = λ s. Fails-ok tt }

pub Raises-uuid4 : {E : Exc → Type 0} (p : Platform) → Raises E (uuid4 p)
unfolding uuid4
Raises-uuid4 p = record { at = λ s. Fails-ok (p.uuid4 s.drawn) }

pub ruleset fails_rules = (Fails-ok, Fails-if, Fails-and_then)

pub ruleset raises_rules =
    (Raises-pure, Raises-gets, Raises-lift, Raises-bind, Raises-interleave, Raises-uuid4)
