-- ===== src/Session/Reading.antt =====
-- Rules for actions on a database that they do not change: a query has the value that the database
-- gives it, and a step that may raise is passed with what its success says.
use ai_oas.Base.{
  ℕ, ◌≡◌, refl, sym, ap, subst, ◌∙◌, Bool, true, false, Option, none, some, if◌then◌else◌, arith,
}
use ai_oas.Errors.{Exc, Result, ok, err}
use ai_oas.Tables.{Db}
use ai_oas.Session.{Session, Tx, statement, query, func_now, lift, raise_if, ◌>>=◌}
use ai_oas.Session.Reason.{Ends, WhenOk, Ends-seq, Ends-bind}
use ai_oas.Session.Statements.{IsStable, Ends-query, Keeps-statement}

-- The session reads `d`, at the time `n`.
abbrev pub Reads : Db → ℕ → Session → Type 0
Reads d n s = (s.working ≡ d) × (s.now ≡ n)

pub Reads-IsStable : (d : Db) (n : ℕ) → IsStable (Reads d n)
Reads-IsStable d n = record { faults = λ s l h. h; drawn = λ s m h. h }

module _ (d : Db) (n : ℕ) where
  abbrev Clock : Option ℕ → Session → Type 0
  Clock c t = Reads d n t × ((m : ℕ) → c ≡ some m → m ≡ n)

  clock_value : (b : Bool) (m k : ℕ) → m ≡ n → (if b then some m else none) ≡ some k → k ≡ n
  clock_value true m k e h = ground arith
  clock_value false m k e h = cc

  func_now-Clock : Ends (Reads d n) func_now Clock
  unfolding func_now
  func_now-Clock =
      Ends-bind statement _ (Keeps-statement (Reads d n) (Reads-IsStable d n))
        λ _. record { at = λ s h. (h, λ m e. clock_value s.aware s.now m h.1 e) }

module _ {B : Type 0} (d : Db) (n : ℕ) {Q : B → Session → Type 0} where
  pub Ends-read :
      {A : Type 0} (f : Db → A) (k : A → Tx B)
      → Ends (Reads d n) (k (f d)) Q
      → Ends (Reads d n) (query f >>= k) Q
  Ends-read f k e =
      Ends-seq (λ a t. Reads d n t × (a ≡ f t.working)) (query f) k
        (Ends-query (Reads d n) (Reads-IsStable d n) f)
        λ a. record {
          at = λ s h. subst (λ x. WhenOk Q (k x s)) (sym (h.1 ∙ ap f h.0.0)) (e.at s h.0);
        }

  pub Ends-clock :
      (k : Option ℕ → Tx B)
      → ((c : Option ℕ) → ((m : ℕ) → c ≡ some m → m ≡ n) → Ends (Reads d n) (k c) Q)
      → Ends (Reads d n) (func_now >>= k) Q
  Ends-clock k e =
      Ends-seq (Clock d n) func_now k (func_now-Clock d n)
        λ c. record { at = λ s h. (e c h.1).at s h.0 }

module _ {B : Type 0} {P : Session → Type 0} {Q : B → Session → Type 0} where
  pub Ends-passed :
      {A : Type 0} (r : Result A) (k : A → Tx B)
      → ((a : A) → r ≡ ok a → Ends P (k a) Q)
      → Ends P (lift r >>= k) Q
  Ends-passed (ok a) k e = record { at = λ s h. (e a refl).at s h }
  Ends-passed (err x) k e = record { at = λ s h. tt }

  pub Ends-unless :
      (b : Bool) (x : Exc) (k : Unit {0} → Tx B)
      → (b ≡ false → Ends P (k tt) Q)
      → Ends P (raise_if b x >>= k) Q
  Ends-unless true x k e = record { at = λ s h. tt }
  Ends-unless false x k e = record { at = λ s h. (e refl).at s h }
