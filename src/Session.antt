-- ===== src/Session.antt =====
-- One SQLAlchemy session on a PostgreSQL database (db/session.py: autoflush and
-- expire_on_commit are off). A step of a transaction is an action `Tx`: it returns or raises, and
-- leaves the session either way.
pub mod Reason
pub mod Statements
pub mod Committing
pub mod Reading
pub mod Raising
pub mod ReadOnly
use ai_oas.Base.{ℕ, ◌+◌, Bool, true, false, Option, none, some, List, [], ◌∷◌, not, if◌then◌else◌}
use ai_oas.Errors.{Exc, Result, ok, err, operational, integrity, database}
use ai_oas.Platform.{Platform}
use ai_oas.Tables.{Db}

pub data Fault : Type 0 where
  connection_lost statement_failed : Fault

abbrev pub exc_of : Fault → Exc
exc_of connection_lost = operational
exc_of statement_failed = database

-- `session.get_transaction()`: its identity, whether its origin is BEGIN, and `is_active`
pub record Transaction : Type 0 where
  pub number : ℕ
  pub origin_begin : Bool
  pub is_active : Bool

-- `committed` is what every other session sees, `working` what this one sees. `faults` says which
-- of the coming statements the database fails. `now` is the time of the transaction (PostgreSQL's
-- `now()` is constant in one), `aware` whether the driver returns it with a time zone. `drawn`
-- counts the calls of `uuid.uuid4`. `peer` is what other sessions commit between the lookup and
-- the insertion of a reservation.
pub record Session : Type 0 where
  pub identity : ℕ
  pub transaction : Option Transaction
  pub committed : Db
  pub working : Db
  pub faults : List (Option Fault)
  pub now : ℕ
  pub aware : Bool
  pub drawn : ℕ
  pub peer : Db → Db

abbrev pub Tx : Type 0 → Type 0
Tx A = Session → Result A × Session

module _ {A : Type 0} where
  abbrev pub pure : A → Tx A
  pure a s = (ok a, s)

  abbrev pub raise : Exc → Tx A
  raise e s = (err e, s)

  abbrev pub gets : (Session → A) → Tx A
  gets f s = (ok (f s), s)

module _ {A : Type 0} where
  abbrev pub lift : Result A → Tx A
  lift r s = (r, s)

module _ {A B : Type 0} where
  abbrev pub continue : Result A → (A → Tx B) → Tx B
  continue (ok a) f s = f a s
  continue (err e) f s = (err e, s)

  infixl 5 ◌>>=◌
  abbrev pub ◌>>=◌ : Tx A → (A → Tx B) → Tx B
  ◌>>=◌ m f s = let (r, t) = m s in continue r f t

infixl 5 ◌>>◌
abbrev pub ◌>>◌ : {B : Type 0} → Tx (Unit {0}) → Tx B → Tx B
m >> k = m >>= λ _. k

-- `if b: raise e`
abbrev pub raise_if : Bool → Exc → Tx (Unit {0})
raise_if true e s = (err e, s)
raise_if false e s = (ok tt, s)

module _ {A : Type 0} where
  abbrev pub handle : (Exc → Exc) → Result A × Session → Result A × Session
  handle f (ok a, s) = (ok a, s)
  handle f (err e, s) = (err (f e), s)

  -- `try: m` with `except` clauses that only raise another exception
  abbrev pub rethrow : (Exc → Exc) → Tx A → Tx A
  rethrow f m s = handle f (m s)

unfoldable pub answer : List (Option Fault) → Tx (Unit {0})
answer [] s = (ok tt, s)
answer (none ∷ rest) s = (ok tt, record s { faults = rest })
answer (some f ∷ rest) s = (err (exc_of f), record s { faults = rest })

abbrev pub begun : Session → Session
begun s = record s {
  working = s.committed;
  transaction = some (record { number = 0; origin_begin = true; is_active = true });
}

-- The database executes one statement, or fails it.
unfoldable pub statement : Tx (Unit {0})
unfolding answer
statement s = answer s.faults s

-- `session.scalar(select(...))` and its like
unfoldable pub query : {A : Type 0} → (Db → A) → Tx A
unfolding statement
query f = do statement; gets (λ s. f s.working)

-- `flush` of a change that the constraints of the tables accept or refuse
unfoldable pub write : (Db → Bool) → (Db → Db) → Tx (Unit {0})
unfolding statement
write accepts change = do
  statement
  d ← gets (λ s. s.working)
  raise_if (not (accepts d)) integrity
  (λ s. (ok tt, record s { working = change s.working }))

-- `session.scalar(select(func.now()))`, if it is a time with a zone
unfoldable pub func_now : Tx (Option ℕ)
unfolding statement
func_now = do statement; gets (λ s. if s.aware then some s.now else none)

unfoldable pub uuid4 : Platform → Tx ℕ
uuid4 p s = (ok (p.uuid4 s.drawn), record s { drawn = s.drawn + 1 })

-- Other sessions commit: this transaction (READ COMMITTED) sees it too.
unfoldable pub interleave : Tx (Unit {0})
interleave s = (ok tt, record s { committed = s.peer s.committed; working = s.peer s.working })

module _ {A : Type 0} where
  abbrev pub release : Session → Result A × Session → Result A × Session
  release before (ok a, s) = (ok a, s)
  release before (err e, s) = (err e, record s { working = before.working })

  -- `with session.begin_nested(): m`
  unfoldable pub begin_nested : Tx A → Tx A
  begin_nested m s = release s (m s)

  unfoldable pub commit : A → Result (Unit {0}) × Session → Result A × Session
  commit a (ok _, s) = (ok a, record s { committed = s.working; transaction = none })
  commit a (err e, s) = (err e, record s { working = s.committed; transaction = none })

  unfoldable pub close : Result A → Tx A
  close (ok a) s = commit a (statement s)
  close (err e) s = (err e, record s { working = s.committed; transaction = none })

  -- `with session_factory() as session: with session.begin(): m`
  unfoldable pub in_transaction : Tx A → Tx A
  in_transaction m s = let (r, t) = m (begun s) in close r t

  -- `with session_factory() as session: m` of an `m` that only reads
  unfoldable pub read_only : Tx A → Tx A
  read_only m s =
      let (r, t) = m (begun s) in (r, record t { working = t.committed; transaction = none })
