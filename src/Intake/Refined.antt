-- ===== src/Intake/Refined.antt =====
-- `process_valid` as one step of the ledger of keys and requests.
use ai_oas.Base.{ℕ, Text, ◌≡◌, refl, find_first, arith, text_eq_refl}
use ai_oas.Errors.{
  Exc, Result, ok, err, intake, operational, integrity, database, runtime, value, unexpected,
}
use ai_oas.Platform.{Platform}
use ai_oas.Tables.{Db}
use ai_oas.Session.{
  Session, Tx, pure, raise, query, uuid4, interleave, in_transaction, continue, ◌>>=◌,
}
use ai_oas.Session.Reason.{
  Keeps, Ends, WhenOk, WhenOk-at, Ends-seq, Ends-bind, Ends-raise, Keeps-bind, Keeps-pure,
  Keeps-raise,
}
use ai_oas.Session.Statements.{IsStable, Keeps-query, Keeps-uuid4}
use ai_oas.Session.Committing.{
  ByOthers, unchanged, committed_more, Uncommitted, Uncommitted-ignores, IgnoresWorking,
  in_transaction-Ends-from, in_transaction-Uncommitted, Keeps-in_transaction,
}
use ai_oas.Intake.Payload.{IntakeRequest, canonical_payload_hash}
use ai_oas.Intake.New.{
  in_intake_scope, IntakeServiceResult, new_result, create_with, new_body, create_new, new_key,
  request_of,
}
use ai_oas.Intake.Service.{
  Found, absent, replayed, conflict, rejected, answer_found, answer_known, reservation, settled,
  create_or_resolve, handle_race, process_valid,
}
use ai_oas.Intake.Keep.{IgnoresWorking-intake, Keeps-answer_found, Keeps-new_body}
use ai_oas.Intake.Ledger.{Step, created, Answered, answer_known-Answered}
use ai_oas.Intake.Made.{Made, new_body-Made}

-- `create` is the whole of `_create_new` on a database `c` that becomes `f c` before its writes.
module _ (p : Platform) (payload : IntakeRequest) (key_digest hash : Text) (c : Db) (f : Db → Db)
    (correlation_id : ℕ) where
  abbrev From : Session → Type 0
  From s = (s.committed ≡ c) × (s.peer ≡ f)

  From-IsStable : IsStable From
  From-IsStable = record { faults = λ s l h. h; drawn = λ s n h. h }

  create_with-Step :
      (delivery_id request_id contact_id reservation_id : ℕ)
      → Ends From
          (create_with p payload key_digest hash correlation_id delivery_id request_id contact_id
            reservation_id)
          (λ r t. Step p key_digest hash (f c) t.committed r)
  unfolding create_with
  create_with-Step delivery_id request_id contact_id reservation_id =
      Ends-seq
        (λ _ t.
          Made p payload key_digest hash c f correlation_id delivery_id request_id contact_id
            reservation_id t.committed)
        (in_transaction (
          new_body p payload key_digest hash correlation_id delivery_id request_id contact_id
            reservation_id))
        (λ _. pure (new_result p correlation_id delivery_id request_id))
        (in_transaction-Ends-from
          (λ _ d.
            Made p payload key_digest hash c f correlation_id delivery_id request_id contact_id
              reservation_id d)
          From (λ s. (s.working ≡ c) × (s.peer ≡ f)) _ (λ s h. h)
          (new_body-Made p payload key_digest hash c f correlation_id delivery_id request_id
            contact_id reservation_id))
        λ _. record {
          at = λ s h.
              created (new_key p key_digest hash delivery_id request_id reservation_id)
                (request_of p payload delivery_id request_id contact_id) h.0
                (text_eq_refl key_digest) refl refl refl refl refl h.1;
        }

  create_new-Step :
      Ends From
        (create_new p payload key_digest hash correlation_id)
        (λ r t. Step p key_digest hash (f c) t.committed r)
  unfolding create_new
  create_new-Step = Ends-bind (uuid4 p) _ (Keeps-uuid4 From From-IsStable p) λ delivery_id.
      Ends-bind (uuid4 p) _ (Keeps-uuid4 From From-IsStable p) λ request_id.
        Ends-bind (uuid4 p) _ (Keeps-uuid4 From From-IsStable p) λ contact_id.
          Ends-bind (uuid4 p) _ (Keeps-uuid4 From From-IsStable p)
            λ reservation_id. create_with-Step delivery_id request_id contact_id reservation_id

  -- `_create_new` that raised has committed nothing.
  after_result :
      (r : Result (Unit {0})) (a : IntakeServiceResult) (t : Session) (e : Exc)
      → ((x : Exc) → r ≡ err x → Uncommitted f c t)
      → (continue r (λ _. pure a) t).0 ≡ err e
      → Uncommitted f c (continue r (λ _. pure a) t).1
  after_result (ok u) a t e k h = ground arith
  after_result (err x) a t e k h = k x refl

  create_new-Uncommitted :
      (s : Session) (e : Exc)
      → From s
      → (create_new p payload key_digest hash correlation_id s).0 ≡ err e
      → Uncommitted f c (create_new p payload key_digest hash correlation_id s).1
  unfolding create_new create_with uuid4
  create_new-Uncommitted s e h x =
      after_result _ _ _ e
        (λ y z.
          in_transaction-Uncommitted _ f c (uuid4 p (uuid4 p (uuid4 p (uuid4 p s).1).1).1).1 y h.0
            h.1
            (Keeps-new_body (Uncommitted f c) (Uncommitted-ignores f c) p payload key_digest hash
              correlation_id _ _ _ _)
            z)
        x

-- A returned intake is one step, on what was committed when the call began or on what other sessions
-- had made of it.
pub record Linear (p : Platform) (key_digest hash : Text) (c : Db) (f : Db → Db)
    (r : IntakeServiceResult) (after : Db) : Type 0 where
  pub before : Db
  pub reached : ByOthers f c before
  pub step : Step p key_digest hash before after r

module _ (p : Platform) (payload : IntakeRequest) (key_digest hash : Text)
    (correlation_id : ℕ) where
  peer-ignores : (f : Db → Db) → IgnoresWorking (λ s. s.peer ≡ f)
  unfolding interleave
  peer-ignores f = record {
    stable = record { faults = λ s l h. h; drawn = λ s n h. h };
    working = λ s d h. h;
    others = λ s h. h;
  }

  -- the look-up of the key, from a database `d`
  known :
      (f : Db → Db) (d : Db) (missing : Tx (Found p))
      → Keeps (λ s. s.peer ≡ f) missing
      → Ends (λ s. s.working ≡ d) missing (λ x t. Answered p key_digest hash d x t.working)
      → Ends
          (From p payload key_digest hash d f correlation_id)
          (answer_known p key_digest missing hash correlation_id payload.schema_version)
          (λ x t. Answered p key_digest hash d x t.committed × (t.peer ≡ f))
  unfolding answer_known reservation
  known f d missing k e = record {
    at = λ s h.
        both _ _
          ((answer_known-Answered p key_digest hash d missing correlation_id payload.schema_version
              e).at
            s h.0)
          ((Keeps-in_transaction f _ body).at s h.1);
  }
    where
      both :
          (Q : Found p → Session → Type 0) (r : Result (Found p) × Session)
          → WhenOk Q r
          → r.1.peer ≡ f
          → WhenOk (λ x t. Q x t × (t.peer ≡ f)) r
      both Q (ok x, t) g h = (g, h)
      both Q (err x, t) g h = tt

      body :
          Keeps
            (λ s. s.peer ≡ f)
            (query (λ d. find_first (in_intake_scope key_digest) d.accepted_intake_keys)
              >>= λ found. answer_found p found missing hash correlation_id payload.schema_version)
      body = Keeps-bind _ _ (Keeps-query _ (peer-ignores f).stable _) λ found.
          Keeps-answer_found _ (IgnoresWorking-intake _ (peer-ignores f)) p found missing hash
            correlation_id payload.schema_version k

  module _ (f : Db → Db) (c : Db) where
    -- the look-up after an `IntegrityError`, on what is then committed
    resolved :
        (d : Db)
        → ByOthers f c d
        → Ends
            (From p payload key_digest hash d f correlation_id)
            (answer_known p key_digest (raise integrity) hash correlation_id payload.schema_version
              >>= λ found. settled p found (raise runtime))
            (λ r t. Linear p key_digest hash c f r t.committed)
    resolved d by =
        Ends-seq (λ x t. Answered p key_digest hash d x t.committed × (t.peer ≡ f))
          (answer_known p key_digest (raise integrity) hash correlation_id payload.schema_version)
          (λ found. settled p found (raise runtime))
          (known f d (raise integrity) (Keeps-raise integrity) (Ends-raise integrity)) answer
      where
        answer :
            (found : Found p)
            → Ends
                (λ t. Answered p key_digest hash d found t.committed × (t.peer ≡ f))
                (settled p found (raise runtime))
                (λ r t. Linear p key_digest hash c f r t.committed)
        answer absent = Ends-raise runtime
        answer (replayed r) = record { at = λ s h. record { before = d; reached = by; step = h.0 } }
        answer (conflict id) = Ends-raise _
        answer (rejected id) = Ends-raise runtime

    raced :
        (x : Result IntakeServiceResult × Session)
        → WhenOk (λ r t. Step p key_digest hash (f c) t.committed r) x
        → ((e : Exc) → x.0 ≡ err e → Uncommitted f c x.1)
        → WhenOk
            (λ r t. Linear p key_digest hash c f r t.committed)
            (handle_race p x (
              answer_known p key_digest (raise integrity) hash correlation_id payload.schema_version
              >>= λ found. settled p found (raise runtime)))
    raced (ok r, t) h k = record { before = f c; reached = committed_more unchanged; step = h }
    raced (err integrity, t) h k =
        let left = k integrity refl in (resolved t.committed left.0).at t (refl, left.1)
    raced (err (intake e), t) h k = tt
    raced (err operational, t) h k = tt
    raced (err database, t) h k = tt
    raced (err runtime, t) h k = tt
    raced (err value, t) h k = tt
    raced (err unexpected, t) h k = tt

    create_or_resolve-Linear :
        Ends
          (From p payload key_digest hash c f correlation_id)
          (create_or_resolve p payload key_digest hash correlation_id)
          (λ r t. Linear p key_digest hash c f r t.committed)
    unfolding create_or_resolve
    create_or_resolve-Linear = record {
      at = λ s h.
          raced (create_new p payload key_digest hash correlation_id s)
            ((create_new-Step p payload key_digest hash c f correlation_id).at s h)
            (λ e x. create_new-Uncommitted p payload key_digest hash c f correlation_id s e h x);
    }

    first_answer :
        (found : Found p)
        → Ends
            (λ t. Answered p key_digest hash c found t.committed × (t.peer ≡ f))
            (settled p found (create_or_resolve p payload key_digest hash correlation_id))
            (λ r t. Linear p key_digest hash c f r t.committed)
    first_answer absent = record { at = λ s h. create_or_resolve-Linear.at s h }
    first_answer (replayed r) = record {
      at = λ s h. record { before = c; reached = unchanged; step = h.0 };
    }
    first_answer (conflict id) = Ends-raise _
    first_answer (rejected id) = Ends-raise runtime

-- An intake that returns has taken one step on a database that was committed meanwhile: it has added
-- a key that was not there, with its request and the hash of the payload, or it has found the key
-- with the same hash, names the request of its snapshot, and has added neither keys nor requests.
pub process_valid-Linear :
    (p : Platform) (payload : IntakeRequest) (key_digest : Text) (correlation_id : ℕ) (s : Session)
    (r : IntakeServiceResult)
    → (process_valid p payload key_digest correlation_id s).0 ≡ ok r
    → Linear p key_digest
        (canonical_payload_hash p payload)
        s.committed
        s.peer
        r
        (process_valid p payload key_digest correlation_id s).1.committed
unfolding process_valid
process_valid-Linear p payload key_digest correlation_id s r h =
    let hash = canonical_payload_hash p payload in
    WhenOk-at _ (process_valid p payload key_digest correlation_id s) r h (
      (Ends-seq (λ x t. Answered p key_digest hash s.committed x t.committed × (t.peer ≡ s.peer))
          (answer_known p key_digest (pure absent) hash correlation_id payload.schema_version)
          (λ found. settled p found (create_or_resolve p payload key_digest hash correlation_id))
          (known p payload key_digest hash correlation_id s.peer s.committed (pure absent)
            (Keeps-pure absent) (record { at = λ t g. g }))
          (first_answer p payload key_digest hash correlation_id s.peer s.committed)).at
        s (refl, refl))
