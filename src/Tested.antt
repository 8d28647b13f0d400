-- ===== src/Tested.antt =====
-- What a Boolean test says: the predicate that it decides, and the rows of a list for which a
-- predicate holds.
use ai_oas.Base.{
  ℕ, ◌≡◌, ◌≤◌, ◌<◌, refl, sym, ap, ◌∙◌, find_first, ◌↔◌, ◌⊎◌, inl, inr, Bool, true, false, ◌&&◌,
  ◌||◌, Bool-cases, Option, none, some, List, [], ◌∷◌, arith, ltb, leb, ◌==◌, is_none, is_some,
  length, select, any_of, all_of, if◌then◌else◌,
}
use mathlib.Core.List.{Memᴰ}
use mathlib.Core.List.Memᴰ

-- the test is true exactly when the predicate holds
abbrev pub Decides : Bool → Type 0 → Type 0
Decides b P = (b ≡ true) ↔ P

pub both : {a b : Bool} {P Q : Type 0} → Decides a P → Decides b Q → Decides (a && b) (P × Q)
both {a} {b} {P} {Q} f g = by_test (Bool-cases a)
  where
    by_test : (a ≡ true) ⊎ (a ≡ false) → Decides (a && b) (P × Q)
    by_test (inl e) =
        (λ h. (f.0 e, g.0 (ground arith)), λ w. let y = g.1 w.1 in ground (arith, e, y))
    by_test (inr e) =
        (λ h. absurd (ground arith), λ w. let x = f.1 w.0 in absurd (ground (arith, e, x)))

pub either : {a b : Bool} {P Q : Type 0} → Decides a P → Decides b Q → Decides (a || b) (P ⊎ Q)
either {a} {b} {P} {Q} f g = by_test (Bool-cases a)
  where
    from : P ⊎ Q → (a || b) ≡ true
    from (inl w) = let x = f.1 w in ground (arith, x)
    from (inr w) = let y = g.1 w in ground (arith, y)

    by_test : (a ≡ true) ⊎ (a ≡ false) → Decides (a || b) (P ⊎ Q)
    by_test (inl e) = (λ h. inl (f.0 e), from)
    by_test (inr e) = (λ h. inr (g.0 (ground arith)), from)

pub except : {b : Bool} {P : Type 0} → Decides b P → (b ≡ false) ↔ (P → ⊥)
except {b} {P} f = (λ h w. let t = f.1 w in absurd (ground (arith, t)), to (Bool-cases b))
  where
    to : (b ≡ true) ⊎ (b ≡ false) → (P → ⊥) → b ≡ false
    to (inl e) n = absurd (n (f.0 e))
    to (inr e) n = e

-- a value is there
abbrev pub IsSome : {A : Type 0} → Option A → Type 0
IsSome {A} o = (a : A) × (o ≡ some a)

pub is_none-Decides : {A : Type 0} (o : Option A) → Decides (is_none o) (o ≡ none)
is_none-Decides none = (λ h. refl, λ h. refl)
is_none-Decides (some a) = (λ h. absurd (ground arith), λ h. absurd (ground arith))

pub is_some-Decides : {A : Type 0} (o : Option A) → Decides (is_some o) (IsSome o)
is_some-Decides none = (λ h. absurd (ground arith), λ h. absurd (ground (arith, h.1)))
is_some-Decides (some a) = (λ h. (a, refl), λ h. refl)

pub ltb-Decides : (a b : ℕ) → Decides (ltb a b) (a < b)
ltb-Decides a b = ground arith

pub leb-Decides : (a b : ℕ) → Decides (leb a b) (a ≤ b)
leb-Decides a b = ground arith

-- a row that is let through is a row
module _ {A : Type 0} (q : A → Bool) where
  pub select-Memᴰ : (l : List A) (a : A) → Memᴰ a (select q l) → Memᴰ a l × (q a ≡ true)
  select-Memᴰ [] a m = absurd (Memᴰ.not-nil m)
  select-Memᴰ (x ∷ l) a m = by_test (q x) refl m (select-Memᴰ l a)
    where
      here :
          q x ≡ true
          → (a ≡ x) ⊎ Memᴰ a (select q l)
          → (Memᴰ a (select q l) → Memᴰ a l × (q a ≡ true))
          → Memᴰ a (x ∷ l) × (q a ≡ true)
      here e (inl same) rest = (Memᴰ.head same, ap q same ∙ e)
      here e (inr k) rest = let r = rest k in (Memᴰ.tail r.0, r.1)

      by_test :
          (b : Bool)
          → q x ≡ b
          → Memᴰ a (if b then x ∷ select q l else select q l)
          → (Memᴰ a (select q l) → Memᴰ a l × (q a ≡ true))
          → Memᴰ a (x ∷ l) × (q a ≡ true)
      by_test true e k rest = here e (Memᴰ.cases_cons k) rest
      by_test false e k rest = let r = rest k in (Memᴰ.tail r.0, r.1)

  -- a row that is found is a row
  pub found-Memᴰ : (l : List A) (a : A) → find_first q l ≡ some a → Memᴰ a l × (q a ≡ true)
  found-Memᴰ [] a h = absurd (ground arith)
  found-Memᴰ (x ∷ l) a h = by_test (q x) refl h (found-Memᴰ l a)
    where
      by_test :
          (b : Bool)
          → q x ≡ b
          → (if b then some x else find_first q l) ≡ some a
          → (find_first q l ≡ some a → Memᴰ a l × (q a ≡ true))
          → Memᴰ a (x ∷ l) × (q a ≡ true)
      by_test true e f rest =
          let same : x ≡ a = ground arith in (Memᴰ.head (sym same), ap q (sym same) ∙ e)
      by_test false e f rest = let r = rest f in (Memᴰ.tail r.0, r.1)

module _ {A : Type 0} (P : A → Type 0) where
  -- no element of the list has P
  abbrev pub Nowhere : List A → Type 0
  Nowhere [] = Unit
  Nowhere (x ∷ l) = (P x → ⊥) × Nowhere l

  -- the element has P, and no other position of the list has
  abbrev pub OnlyOne : List A → A → Type 0
  OnlyOne [] a = ⊥
  OnlyOne (x ∷ l) a = ((x ≡ a) × P x × Nowhere l) ⊎ ((P x → ⊥) × OnlyOne l a)

  module _ (q : A → Bool) (holds : (x : A) → q x ≡ true → P x)
      (tested : (x : A) → P x → q x ≡ true) where
    pub select-Nowhere : (l : List A) → (select q l ≡ []) ↔ Nowhere l
    select-Nowhere [] = (λ h. tt, λ h. refl)
    select-Nowhere (x ∷ l) = by_test (q x) refl (select-Nowhere l)
      where
        by_test :
            (b : Bool)
            → q x ≡ b
            → ((select q l ≡ []) ↔ Nowhere l)
            → ((if b then x ∷ select q l else select q l) ≡ []) ↔ ((P x → ⊥) × Nowhere l)
        by_test true e k = (λ h. absurd (ground arith), λ h. absurd (h.0 (holds x e)))
        by_test false e k =
            (λ h. (λ w. let t = tested x w in absurd (ground arith), k.0 h), λ h. k.1 h.1)

    pub select-OnlyOne : (a : A) (l : List A) → (select q l ≡ a ∷ []) ↔ OnlyOne l a
    select-OnlyOne a [] = (λ h. absurd (ground arith), λ h. absurd h)
    select-OnlyOne a (x ∷ l) = by_test (q x) refl (select-OnlyOne a l)
      where
        Here : Type 0
        Here = (x ≡ a) × P x × Nowhere l

        from_true : q x ≡ true → Here ⊎ ((P x → ⊥) × OnlyOne l a) → x ∷ select q l ≡ a ∷ []
        from_true e (inl (s, w, n)) = let r = (select-Nowhere l).1 n in ground arith
        from_true e (inr (c, o)) = absurd (c (holds x e))

        from_false :
            q x ≡ false
            → ((select q l ≡ a ∷ []) ↔ OnlyOne l a)
            → Here ⊎ ((P x → ⊥) × OnlyOne l a)
            → select q l ≡ a ∷ []
        from_false e k (inl (s, w, n)) = let t = tested x w in absurd (ground arith)
        from_false e k (inr (c, o)) = k.1 o

        by_test :
            (b : Bool)
            → q x ≡ b
            → ((select q l ≡ a ∷ []) ↔ OnlyOne l a)
            → ((if b then x ∷ select q l else select q l) ≡ a ∷ [])
              ↔ Here ⊎ ((P x → ⊥) × OnlyOne l a)
        by_test true e k = (
          λ h.
              let s : x ≡ a = ground arith in
              let n : select q l ≡ [] = ground arith in inl (s, holds x e, (select-Nowhere l).0 n),
          from_true e,
        )
        by_test false e k =
            (λ h. inr (λ w. let t = tested x w in absurd (ground arith), k.0 h), from_false e k)

  -- every element of the list has P
  abbrev pub Everywhere : List A → Type 0
  Everywhere [] = Unit
  Everywhere (x ∷ l) = P x × Everywhere l

  pub all_of-Everywhere :
      (q : A → Bool)
      → ((x : A) → Decides (q x) (P x))
      → (l : List A) → Decides (all_of q l) (Everywhere l)
  all_of-Everywhere q d [] = (λ h. tt, λ h. refl)
  all_of-Everywhere q d (x ∷ l) = both (d x) (all_of-Everywhere q d l)

  pub any_of-Nowhere :
      (q : A → Bool)
      → ((x : A) → Decides (q x) (P x))
      → (l : List A) → (any_of q l ≡ false) ↔ Nowhere l
  any_of-Nowhere q d [] = (λ h. tt, λ h. refl)
  any_of-Nowhere q d (x ∷ l) =
      let rest = any_of-Nowhere q d l in
      let here = except (d x) in
      (
        λ h. (here.0 (ground arith), rest.0 (ground arith)),
        λ w. let a = here.1 w.0 in let b = rest.1 w.1 in ground (arith, a, b),
      )

  -- exactly one element is let through
  pub select-one :
      (q : A → Bool)
      → ((x : A) → Decides (q x) (P x))
      → (l : List A) → Decides (length (select q l) == 1) ((a : A) × OnlyOne l a)
  select-one q d l = (
    λ h. by_rows (select q l) refl h,
    λ w. ap (λ r. length r == 1) ((select-OnlyOne q (λ x. (d x).0) (λ x. (d x).1) w.0 l).1 w.1),
  )
    where
      by_rows : (r : List A) → select q l ≡ r → (length r == 1) ≡ true → (a : A) × OnlyOne l a
      by_rows [] e h = absurd (ground arith)
      by_rows (a ∷ []) e h = (a, (select-OnlyOne q (λ x. (d x).0) (λ x. (d x).1) a l).0 e)
      by_rows (a ∷ b ∷ r) e h = absurd (ground arith)
