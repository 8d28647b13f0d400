-- ===== src/Session/Reason.antt =====
-- Rules for actions: what an action keeps whether it returns or raises (`Keeps`), and what holds
-- when it returns (`Ends`).
use ai_oas.Base.{◌≡◌, refl, Bool, true, false, subst, if◌then◌else◌}
use ai_oas.Errors.{Exc, Result, ok, err}
use ai_oas.Session.{
  Session, Tx, pure, raise, gets, lift, continue, ◌>>=◌, raise_if, handle, rethrow,
}

pub record Keeps {A : Type 0} (P : Session → Type 0) (m : Tx A) : Type 0 where
  pub at : (s : Session) → P s → P (m s).1

abbrev pub WhenOk : {A : Type 0} → (A → Session → Type 0) → Result A × Session → Type 0
WhenOk Q (ok a, s) = Q a s
WhenOk Q (err e, s) = Unit

pub record Ends {A : Type 0} (P : Session → Type 0) (m : Tx A) (Q : A → Session → Type 0)
    : Type 0 where
  pub at : (s : Session) → P s → WhenOk Q (m s)

keeps_handle :
    {A : Type 0} (P : Session → Type 0) (f : Exc → Exc) (r : Result A × Session)
    → P r.1
    → P (handle f r).1
keeps_handle P f (ok a, s) h = h
keeps_handle P f (err e, s) h = h

module _ {A : Type 0} {P : Session → Type 0} where
  pub Keeps-pure : (a : A) → Keeps P (pure a)
  Keeps-pure a = record { at = λ s h. h }

  pub Keeps-raise : (e : Exc) → Keeps P (raise {A = A} e)
  Keeps-raise e = record { at = λ s h. h }

  pub Keeps-lift : (r : Result A) → Keeps P (lift r)
  Keeps-lift r = record { at = λ s h. h }

  pub Keeps-gets : (f : Session → A) → Keeps P (gets f)
  Keeps-gets f = record { at = λ s h. h }

  pub Keeps-rethrow : (f : Exc → Exc) (m : Tx A) → Keeps P m → Keeps P (rethrow f m)
  Keeps-rethrow f m km = record { at = λ s h. keeps_handle P f (m s) (km.at s h) }

  pub Keeps-if : (b : Bool) (m n : Tx A) → Keeps P m → Keeps P n → Keeps P (if b then m else n)
  Keeps-if true m n km kn = km
  Keeps-if false m n km kn = kn

pub Keeps-raise_if : {P : Session → Type 0} (b : Bool) (e : Exc) → Keeps P (raise_if b e)
Keeps-raise_if true e = record { at = λ s h. h }
Keeps-raise_if false e = record { at = λ s h. h }

module _ {A B : Type 0} {P : Session → Type 0} where
  keeps_continue :
      (r : Result A) (f : A → Tx B)
      → ((a : A) → Keeps P (f a))
      → (s : Session) → P s
      → P (continue r f s).1
  keeps_continue (ok a) f kf s h = (kf a).at s h
  keeps_continue (err e) f kf s h = h

  pub Keeps-bind :
      (m : Tx A) (f : A → Tx B) → Keeps P m → ((a : A) → Keeps P (f a)) → Keeps P (m >>= f)
  Keeps-bind m f km kf = record { at = λ s h. keeps_continue (m s).0 f kf (m s).1 (km.at s h) }

pub ruleset keeps_rules = (
  Keeps-pure, Keeps-raise, Keeps-lift, Keeps-gets, Keeps-rethrow, Keeps-if, Keeps-raise_if,
  Keeps-bind,
)

module _ {A : Type 0} {P : Session → Type 0} {Q : A → Session → Type 0} where
  pub Ends-raise : (e : Exc) → Ends P (raise {A = A} e) Q
  Ends-raise e = record { at = λ s h. tt }

  pub Ends-if : (b : Bool) (m n : Tx A) → Ends P m Q → Ends P n Q → Ends P (if b then m else n) Q
  Ends-if true m n km kn = km
  Ends-if false m n km kn = kn

module _ {A B : Type 0} {P : Session → Type 0} {Q : B → Session → Type 0} where
  ends_continue :
      (r : Result A) (f : A → Tx B)
      → ((a : A) → Ends P (f a) Q)
      → (s : Session) → P s
      → WhenOk Q (continue r f s)
  ends_continue (ok a) f kf s h = (kf a).at s h
  ends_continue (err e) f kf s h = tt

  -- a first step that keeps what the rest needs
  pub Ends-bind :
      (m : Tx A) (f : A → Tx B) → Keeps P m → ((a : A) → Ends P (f a) Q) → Ends P (m >>= f) Q
  Ends-bind m f km kf = record { at = λ s h. ends_continue (m s).0 f kf (m s).1 (km.at s h) }

ends_seq :
    {A B : Type 0} (Q : B → Session → Type 0) (R : A → Session → Type 0) (r : Result A × Session)
    (f : A → Tx B)
    → ((a : A) → Ends (R a) (f a) Q)
    → WhenOk R r
    → WhenOk Q (continue r.0 f r.1)
ends_seq Q R (ok a, s) f kf h = (kf a).at s h
ends_seq Q R (err e, s) f kf h = tt

module _ {A B : Type 0} {P : Session → Type 0} {Q : B → Session → Type 0} where
  -- a first step whose result the rest needs
  pub Ends-seq :
      (R : A → Session → Type 0) (m : Tx A) (f : A → Tx B)
      → Ends P m R
      → ((a : A) → Ends (R a) (f a) Q)
      → Ends P (m >>= f) Q
  Ends-seq R m f km kf = record { at = λ s h. ends_seq Q R (m s) f kf (km.at s h) }

module _ {A : Type 0} where
  ends_lift :
      (P : Session → Type 0) (r : Result A) (s : Session)
      → P s
      → WhenOk (λ a t. P t × (r ≡ ok a)) (r, s)
  ends_lift P (ok a) s h = (h, refl)
  ends_lift P (err e) s h = tt

  ends_handle :
      (Q : A → Session → Type 0) (f : Exc → Exc) (r : Result A × Session)
      → WhenOk Q r
      → WhenOk Q (handle f r)
  ends_handle Q f (ok a, s) h = h
  ends_handle Q f (err e, s) h = tt

  ends_weaken :
      (Q R : A → Session → Type 0) (r : Result A × Session)
      → ((a : A) (s : Session) → Q a s → R a s)
      → WhenOk Q r
      → WhenOk R r
  ends_weaken Q R (ok a, s) w h = w a s h
  ends_weaken Q R (err e, s) w h = tt

ends_raise_if :
    (P : Session → Type 0) (b : Bool) (e : Exc) (s : Session)
    → P s
    → WhenOk (λ _ t. P t × (b ≡ false)) (raise_if b e s)
ends_raise_if P true e s h = tt
ends_raise_if P false e s h = (h, refl)

pub Ends-raise_if :
    {P : Session → Type 0} (b : Bool) (e : Exc) → Ends P (raise_if b e) (λ _ s. P s × (b ≡ false))
Ends-raise_if {P} b e = record { at = λ s h. ends_raise_if P b e s h }

module _ {A : Type 0} {P : Session → Type 0} where
  pub Ends-pure : (a : A) → Ends P (pure a) (λ b s. P s × (b ≡ a))
  Ends-pure a = record { at = λ s h. (h, refl) }

  pub Ends-lift : (r : Result A) → Ends P (lift r) (λ a s. P s × (r ≡ ok a))
  Ends-lift r = record { at = λ s h. ends_lift P r s h }

  pub Ends-rethrow :
      (f : Exc → Exc) (m : Tx A) (Q : A → Session → Type 0) → Ends P m Q → Ends P (rethrow f m) Q
  Ends-rethrow f m Q km = record { at = λ s h. ends_handle Q f (m s) (km.at s h) }

  pub Ends-weaken :
      (m : Tx A) (Q R : A → Session → Type 0)
      → Ends P m Q
      → ((a : A) (s : Session) → Q a s → R a s)
      → Ends P m R
  Ends-weaken m Q R km w = record { at = λ s h. ends_weaken Q R (m s) w (km.at s h) }

pub ruleset ends_rules = (keeps_rules, Ends-raise, Ends-if, Ends-bind)

-- Inversion of a step that returned.
pub continue-eq-ok :
    {A B : Type 0} (r : Result A) (f : A → Tx B) (s : Session) {b : B} {t : Session}
    → continue r f s ≡ (ok b, t)
    → (a : A) × (r ≡ ok a) × (f a s ≡ (ok b, t))
continue-eq-ok (ok a) f s h = (a, refl, h)
continue-eq-ok (err e) f s h = cc

pub >>=-eq-ok :
    {A B : Type 0} (m : Tx A) (f : A → Tx B) (s : Session) {b : B} {t : Session}
    → (m >>= f) s ≡ (ok b, t)
    → (a : A) × ((m s).0 ≡ ok a) × (f a (m s).1 ≡ (ok b, t))
>>=-eq-ok m f s h = continue-eq-ok (m s).0 f (m s).1 h

-- From what holds when an action returns to what holds of a result that it returned.
pub WhenOk-at :
    {A : Type 0} (Q : A → Session → Type 0) (r : Result A × Session) (a : A)
    → r.0 ≡ ok a
    → WhenOk Q r
    → Q a r.1
WhenOk-at Q (ok b, s) a e h = subst (λ (x : Result _). WhenOk Q (x, s)) e h
WhenOk-at Q (err x, s) a e h = cc
