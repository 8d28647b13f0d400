-- ===== src/Session/Statements.antt =====
-- What statements do to a property of the database that this session sees (`On`), and to what is
-- committed (`Apart`).
use ai_oas.Base.{ℕ, ◌≡◌, refl, Bool, true, false, not, Option, none, some, List, [], ◌∷◌}
use ai_oas.Errors.{integrity}
use ai_oas.Platform.{Platform}
use ai_oas.Tables.{Db}
use ai_oas.Session.{
  Session, Fault, answer, statement, query, write, func_now, uuid4, gets, raise_if,
}
use ai_oas.Session.Reason.{
  Keeps, Ends, Keeps-gets, Keeps-bind, Keeps-raise_if, Ends-bind, Ends-seq, Ends-raise_if,
}

-- The rest of a session, with which a property of the working database is not concerned.
abbrev pub On : (Db → Type 0) → Session → Type 0
On D s = D s.working

-- What is committed and what other sessions will commit.
abbrev pub Apart : Db → (Db → Db) → Session → Type 0
Apart c f s = (s.committed ≡ c) × (s.peer ≡ f)

-- A property that does not look at the coming faults and the drawn identifiers.
pub record IsStable (P : Session → Type 0) : Type 0 where
  pub faults : (s : Session) (l : List (Option Fault)) → P s → P (record s { faults = l })
  pub drawn : (s : Session) (n : ℕ) → P s → P (record s { drawn = n })

pub On-IsStable : (D : Db → Type 0) → IsStable (On D)
On-IsStable D = record { faults = λ s l h. h; drawn = λ s n h. h }

pub Apart-IsStable : (c : Db) (f : Db → Db) → IsStable (Apart c f)
Apart-IsStable c f = record { faults = λ s l h. h; drawn = λ s n h. h }

-- A write that returned was accepted, and changed the working database.
abbrev pub Written : (Session → Type 0) → (Db → Bool) → (Db → Db) → Unit {0} → Session → Type 0
Written P accepts change _ t =
    (u : Session) × P u × (accepts u.working ≡ true) × (t ≡ record u { working = change u.working })

not-eq-false : (b : Bool) → not b ≡ false → b ≡ true
not-eq-false true h = refl
not-eq-false false h = cc

module _ (P : Session → Type 0) (stable : IsStable P) where
  keeps_answer : (l : List (Option Fault)) (s : Session) → P s → P (answer l s).1
  unfolding answer
  keeps_answer [] s h = h
  keeps_answer (none ∷ l) s h = stable.faults s l h
  keeps_answer (some f ∷ l) s h = stable.faults s l h

  pub Keeps-statement : Keeps P statement
  unfolding statement
  Keeps-statement = record { at = λ s h. keeps_answer s.faults s h }

  pub Keeps-uuid4 : (p : Platform) → Keeps P (uuid4 p)
  unfolding uuid4
  Keeps-uuid4 p = record { at = λ s h. stable.drawn s _ h }

  pub Ends-query : {A : Type 0} (f : Db → A) → Ends P (query f) (λ a t. P t × (a ≡ f t.working))
  unfolding query
  Ends-query f =
      Ends-bind statement (λ _. gets (λ s. f s.working)) Keeps-statement
        λ _. record { at = λ s h. (h, refl) }

  pub Keeps-query : {A : Type 0} (f : Db → A) → Keeps P (query f)
  unfolding query
  Keeps-query f =
      Keeps-bind statement (λ _. gets (λ s. f s.working)) Keeps-statement (λ _. Keeps-gets _)

  pub Keeps-func_now : Keeps P func_now
  unfolding func_now
  Keeps-func_now = Keeps-bind statement _ Keeps-statement (λ _. Keeps-gets _)

  -- A write keeps what its change keeps.
  pub Keeps-write :
      (accepts : Db → Bool) (change : Db → Db)
      → ((s : Session) → P s → P (record s { working = change s.working }))
      → Keeps P (write accepts change)
  unfolding write
  Keeps-write accepts change keep = Keeps-bind statement _ Keeps-statement λ _.
      Keeps-bind (gets (λ s. s.working)) _ (Keeps-gets _) λ d.
        Keeps-bind (raise_if (not (accepts d)) integrity) _ (Keeps-raise_if _ _)
          λ _. record { at = λ s h. keep s h }

  pub Ends-write :
      (accepts : Db → Bool) (change : Db → Db)
      → Ends P (write accepts change) (Written P accepts change)
  unfolding write
  Ends-write accepts change = Ends-bind statement _ Keeps-statement λ _.
      Ends-seq (λ d t. P t × (d ≡ t.working)) (gets (λ s. s.working)) _
        (record { at = λ s h. (h, refl) })
        λ d.
          Ends-seq (λ _ t. (P t × (d ≡ t.working)) × (not (accepts d) ≡ false))
            (raise_if (not (accepts d)) integrity) _ (Ends-raise_if _ _)
            λ _. record {
              at = λ s h. (s, h.0.0, rw (← h.0.1) (not-eq-false (accepts d) h.1), refl);
            }
