-- ===== src/Session/Committing.antt =====
-- What a transaction commits. A transaction that raises commits nothing of its own.
use ai_oas.Base.{◌≡◌, refl, sym, subst}
use ai_oas.Errors.{Exc, Result, ok, err}
use ai_oas.Tables.{Db}
use ai_oas.Session.{Session, Tx, statement, interleave, begun, commit, close, in_transaction}
use ai_oas.Session.Reason.{Keeps, Ends, WhenOk}
use ai_oas.Session.Statements.{On, On-IsStable, IsStable, Keeps-statement}

module _ {A : Type 0} (D : A → Db → Type 0) where
  commit-Ends :
      (a : A) (r : Result (Unit {0}) × Session)
      → D a r.1.working
      → WhenOk (λ x t. D x t.committed) (commit a r)
  unfolding commit
  commit-Ends a (ok _, s) h = h
  commit-Ends a (err e, s) h = tt

  close-Ends :
      (r : Result A) (s : Session)
      → WhenOk (λ x t. D x t.working) (r, s)
      → WhenOk (λ x t. D x t.committed) (close r s)
  unfolding close
  close-Ends (ok a) s h =
      commit-Ends a (statement s) ((Keeps-statement (On (D a)) (On-IsStable (D a))).at s h)
  close-Ends (err e) s h = tt

  -- What holds of the working database when the body returns holds of what is committed.
  pub in_transaction-Ends-from :
      (R P : Session → Type 0) (m : Tx A)
      → ((s : Session) → R s → P (begun s))
      → Ends P m (λ x t. D x t.working)
      → Ends R (in_transaction m) (λ x t. D x t.committed)
  unfolding in_transaction
  in_transaction-Ends-from R P m start e = record {
    at = λ s h. let (r, t) = m (begun s) in close-Ends r t (e.at (begun s) (start s h));
  }

  pub in_transaction-Ends :
      (P : Session → Type 0) (m : Tx A)
      → ((s : Session) → P (begun s))
      → Ends P m (λ x t. D x t.working)
      → Ends (λ s. Unit {0}) (in_transaction m) (λ x t. D x t.committed)
  in_transaction-Ends P m start e = in_transaction-Ends-from (λ s. Unit {0}) P m (λ s h. start s) e

-- `d` comes from `c` by what other sessions commit.
pub data ByOthers (f : Db → Db) (c : Db) : Db → Type 0 where
  unchanged : ByOthers f c c
  committed_more : {d : Db} → ByOthers f c d → ByOthers f c (f d)

-- Nothing of this session is committed.
abbrev pub Uncommitted : (Db → Db) → Db → Session → Type 0
Uncommitted f c s = ByOthers f c s.committed × (s.peer ≡ f)

-- A property that does not look at the working database.
pub record IgnoresWorking (P : Session → Type 0) : Type 0 where
  pub stable : IsStable P
  pub working : (s : Session) (d : Db) → P s → P (record s { working = d })
  pub others : (s : Session) → P s → P (interleave s).1

pub Uncommitted-ignores : (f : Db → Db) (c : Db) → IgnoresWorking (Uncommitted f c)
unfolding interleave
Uncommitted-ignores f c = record {
  stable = record { faults = λ s l h. h; drawn = λ s n h. h };
  working = λ s d h. h;
  others = λ s h. (rw h.1 (committed_more h.0), h.1);
}

module _ {A : Type 0} (f : Db → Db) (c : Db) where
  commit_error :
      (a : A) (r : Result (Unit {0}) × Session) (e : Exc)
      → Uncommitted f c r.1
      → (commit a r).0 ≡ err e
      → Uncommitted f c (commit a r).1
  unfolding commit
  commit_error a (ok _, s) e h x = cc
  commit_error a (err _, s) e h x = h

  close_error :
      (r : Result A) (s : Session) (e : Exc)
      → Uncommitted f c s
      → (close r s).0 ≡ err e
      → Uncommitted f c (close r s).1
  unfolding close
  close_error (ok a) s e h x =
      commit_error a (statement s) e
        ((Keeps-statement (Uncommitted f c) (Uncommitted-ignores f c).stable).at s h) x
  close_error (err _) s e h x = h

pub in_transaction-Uncommitted :
    {A : Type 0} (m : Tx A) (f : Db → Db) (c : Db) (s : Session) (e : Exc)
    → s.committed ≡ c
    → s.peer ≡ f
    → Keeps (Uncommitted f c) m
    → (in_transaction m s).0 ≡ err e
    → Uncommitted f c (in_transaction m s).1
unfolding in_transaction
in_transaction-Uncommitted m f c s e h g k x =
    let (r, t) = m (begun s) in
    close_error f c r t e (k.at (begun s) (subst (ByOthers f c) (sym h) unchanged, g)) x

module _ {A : Type 0} (f : Db → Db) where
  commit-peer : (a : A) (r : Result (Unit {0}) × Session) → r.1.peer ≡ f → (commit a r).1.peer ≡ f
  unfolding commit
  commit-peer a (ok _, s) h = h
  commit-peer a (err e, s) h = h

  close-peer : (r : Result A) (s : Session) → s.peer ≡ f → (close r s).1.peer ≡ f
  unfolding close
  close-peer (ok a) s h = commit-peer a (statement s) (
      (Keeps-statement (λ t. t.peer ≡ f) (record { faults = λ t l g. g; drawn = λ t n g. g })).at s
        h)
  close-peer (err e) s h = h

  -- A transaction leaves what other sessions will commit.
  pub Keeps-in_transaction :
      (m : Tx A) → Keeps (λ s. s.peer ≡ f) m → Keeps (λ s. s.peer ≡ f) (in_transaction m)
  unfolding in_transaction
  Keeps-in_transaction m k = record {
    at = λ s h. let (r, t) = m (begun s) in close-peer r t (k.at (begun s) h);
  }

pub in_transaction_error :
    {A : Type 0} (m : Tx A) (s : Session) (e : Exc)
    → Keeps (Uncommitted s.peer s.committed) m
    → (in_transaction m s).0 ≡ err e
    → ByOthers s.peer s.committed (in_transaction m s).1.committed
unfolding in_transaction
in_transaction_error m s e k x =
    let (r, t) = m (begun s) in
    (close_error s.peer s.committed r t e (k.at (begun s) (unchanged, refl)) x).0
