-- ===== src/MachineAuth/Query/Sorting.antt =====
-- `pairs.sort()`: the order on pairs, and that the sorted list depends on the pairs only.
use mathlib.Core.HLevel.{Σ_set}
use mathlib.Core.Logic.{∥∥₁_elim}
use mathlib.Core.List.{Perm, Permᴰ, is_set}
use mathlib.Core.List.Perm
use native.Mathlib.Nat.{ℕ_set}
use ai_oas.Base.{
  ◌≡◌, refl, sym, ap, subst, ◌∙◌, Bool, true, false, List, [], ◌∷◌, Text, text_eq, arith,
  Bool-cases, inl, inr, ◌⊎◌, eq_of_text_eq, text_eq_refl,
}
use ai_oas.MachineAuth.Query.{text_leb, pair_leb, insert_pair, sort_pairs}

text_leb-total : (s t : Text) → text_leb s t ≡ false → text_leb t s ≡ true
unfolding text_leb
text_leb-total [] t h = ground arith
text_leb-total (a ∷ s) [] h = refl
text_leb-total (a ∷ s) (b ∷ t) h = ground (arith, text_leb-total s t)

text_leb-antisym : (s t : Text) → text_leb s t ≡ true → text_leb t s ≡ true → s ≡ t
unfolding text_leb
text_leb-antisym [] [] h k = refl
text_leb-antisym [] (b ∷ t) h k = ground arith
text_leb-antisym (a ∷ s) [] h k = ground arith
text_leb-antisym (a ∷ s) (b ∷ t) h k = ground (arith, text_leb-antisym s t)

text_leb_trans : (s t u : Text) → text_leb s t ≡ true → text_leb t u ≡ true → text_leb s u ≡ true
unfolding text_leb
text_leb_trans [] t u h k = refl
text_leb_trans (a ∷ s) [] u h k = ground arith
text_leb_trans (a ∷ s) (b ∷ t) [] h k = ground arith
text_leb_trans (a ∷ s) (b ∷ t) (c ∷ u) h k = ground (arith, text_leb_trans s t u)

text_eq-ne : (s t : Text) → text_eq s t ≡ false → text_eq t s ≡ false
text_eq-ne s t h = elim (Bool-cases (text_eq t s)) [
  | inl e ↦ ground (arith, subst (λ u. text_eq u t ≡ true) (eq_of_text_eq t s e) (text_eq_refl t))
  | inr e ↦ e
]

pair_leb-same : (k v w : Text) → pair_leb (k, v) (k, w) ≡ text_leb v w
unfolding pair_leb
pair_leb-same k v w = rw (text_eq_refl k)

pair_leb-other : (k v l w : Text) → text_eq k l ≡ false → pair_leb (k, v) (l, w) ≡ text_leb k l
unfolding pair_leb
pair_leb-other k v l w h = rw h

-- Two keys are one or differ.
keys : (k l : Text) → (k ≡ l) ⊎ (text_eq k l ≡ false)
keys k l = elim (Bool-cases (text_eq k l)) [ inl e ↦ inl (eq_of_text_eq k l e) | inr e ↦ inr e ]

pair_leb-total : (p q : Text × Text) → pair_leb p q ≡ false → pair_leb q p ≡ true
pair_leb-total (k, v) (l, w) h = elim (keys k l) [
  | inl e ↦
      subst (λ x. pair_leb (k, v) (x, w) ≡ false → pair_leb (x, w) (k, v) ≡ true) e
        (λ i. pair_leb-same k w v ∙ text_leb-total v w (sym (pair_leb-same k v w) ∙ i)) h
  | inr e ↦
      pair_leb-other l w k v (text_eq-ne k l e)
      ∙ text_leb-total k l (sym (pair_leb-other k v l w e) ∙ h)
]

-- One pair is not after another: by the values, or by the keys.
pair_leb-cases :
    (k v l w : Text)
    → pair_leb (k, v) (l, w) ≡ true
    → ((k ≡ l) × (text_leb v w ≡ true)) ⊎ ((text_eq k l ≡ false) × (text_leb k l ≡ true))
pair_leb-cases k v l w h = elim (keys k l) [
  | inl e ↦ inl (
    e,
    subst (λ x. pair_leb (k, v) (x, w) ≡ true → text_leb v w ≡ true) e
        (λ i. sym (pair_leb-same k v w) ∙ i) h,
  )
  | inr e ↦ inr (e, sym (pair_leb-other k v l w e) ∙ h)
]

by_value : (k v l w : Text) → k ≡ l → text_leb v w ≡ true → pair_leb (k, v) (l, w) ≡ true
by_value k v l w e h = subst (λ x. pair_leb (k, v) (x, w) ≡ true) e (pair_leb-same k v w ∙ h)

by_key :
    (k v l w : Text) → text_eq k l ≡ false → text_leb k l ≡ true → pair_leb (k, v) (l, w) ≡ true
by_key k v l w e h = pair_leb-other k v l w e ∙ h

one_text : {P : Type 0} (s t : Text) → text_eq s t ≡ false → s ≡ t → P
one_text s t e f = ground (arith, subst (λ u. text_eq s u ≡ true) f (text_eq_refl s))

pair_leb-antisym : (p q : Text × Text) → pair_leb p q ≡ true → pair_leb q p ≡ true → p ≡ q
pair_leb-antisym (k, v) (l, w) h i = elim (pair_leb-cases k v l w h) [
  | inl (e, a) ↦ elim (pair_leb-cases l w k v i) [
    | inl (f, b) ↦ rw (e, text_leb-antisym v w a b)
    | inr (n, b) ↦ one_text l k n (sym e)
  ]
  | inr (n, a) ↦ elim (pair_leb-cases l w k v i) [
    | inl (f, b) ↦ one_text k l n (sym f)
    | inr (m, b) ↦ one_text k l n (text_leb-antisym k l a b)
  ]
]

pair_leb_trans :
    (p q r : Text × Text) → pair_leb p q ≡ true → pair_leb q r ≡ true → pair_leb p r ≡ true
pair_leb_trans (k, v) (l, w) (m, x) h i = elim (pair_leb-cases k v l w h) [
  | inl (e, a) ↦ elim (pair_leb-cases l w m x i) [
    | inl (f, b) ↦ by_value k v m x (e ∙ f) (text_leb_trans v w x a b)
    | inr (n, b) ↦
        by_key k v m x (subst (λ y. text_eq y m ≡ false) (sym e) n)
          (subst (λ y. text_leb y m ≡ true) (sym e) b)
  ]
  | inr (n, a) ↦ elim (pair_leb-cases l w m x i) [
    | inl (f, b) ↦
        by_key k v m x (subst (λ y. text_eq k y ≡ false) f n) (subst (λ y. text_leb k y ≡ true) f a)
    | inr (o, b) ↦ elim (keys k m) [
      | inl e ↦ one_text k l n (text_leb-antisym k l a (subst (λ y. text_leb l y ≡ true) (sym e) b))
      | inr e ↦ by_key k v m x e (text_leb_trans k l m a b)
    ]
  ]
]

abbrev placed : Text × Text → Text × Text → List (Text × Text) → Bool → List (Text × Text)
placed p q l b = elim b [ true ↦ p ∷ q ∷ l | false ↦ q ∷ insert_pair p l ]

pub insert_pair-first :
    (p q : Text × Text) (l : List (Text × Text))
    → pair_leb p q ≡ true
    → insert_pair p (q ∷ l) ≡ p ∷ q ∷ l
unfolding insert_pair
insert_pair-first p q l h = ap (placed p q l) h

pub insert_pair-later :
    (p q : Text × Text) (l : List (Text × Text))
    → pair_leb p q ≡ false
    → insert_pair p (q ∷ l) ≡ q ∷ insert_pair p l
unfolding insert_pair
insert_pair-later p q l h = ap (placed p q l) h

both_first :
    (p q x : Text × Text) (l : List (Text × Text))
    → pair_leb p x ≡ true
    → pair_leb q x ≡ true
    → insert_pair p (q ∷ x ∷ l) ≡ insert_pair q (p ∷ x ∷ l)
both_first p q x l a b = elim (Bool-cases (pair_leb p q)) [
  | inl c ↦ elim (Bool-cases (pair_leb q p)) [
    | inl d ↦ rw (pair_leb-antisym p q c d)
    | inr d ↦
        insert_pair-first p q (x ∷ l) c
        ∙ ap (λ t. p ∷ t) (sym (insert_pair-first q x l b))
        ∙ sym (insert_pair-later q p (x ∷ l) d)
  ]
  | inr c ↦
      insert_pair-later p q (x ∷ l) c
      ∙ ap (λ t. q ∷ t) (insert_pair-first p x l a)
      ∙ sym (insert_pair-first q p (x ∷ l) (pair_leb-total p q c))
]

one_first :
    (p q x : Text × Text) (l : List (Text × Text))
    → pair_leb p x ≡ true
    → pair_leb q x ≡ false
    → insert_pair p (x ∷ insert_pair q l) ≡ insert_pair q (p ∷ x ∷ l)
one_first p q x l a b =
    insert_pair-first p x (insert_pair q l) a
    ∙ ap (λ t. p ∷ t) (sym (insert_pair-later q x l b))
    ∙ sym (
        insert_pair-later q p (x ∷ l) (elim (Bool-cases (pair_leb q p)) [
          | inl c ↦ ground (arith, pair_leb_trans q p x c a)
          | inr c ↦ c
        ]))

-- Two insertions can be swapped.
insert_pair-swap :
    (p q : Text × Text) (l : List (Text × Text))
    → insert_pair p (insert_pair q l) ≡ insert_pair q (insert_pair p l)
unfolding insert_pair
insert_pair-swap p q [] = elim (Bool-cases (pair_leb p q)) [
  | inl a ↦ elim (Bool-cases (pair_leb q p)) [
    | inl b ↦ rw (pair_leb-antisym p q a b)
    | inr b ↦ insert_pair-first p q [] a ∙ sym (insert_pair-later q p [] b)
  ]
  | inr a ↦ insert_pair-later p q [] a ∙ sym (insert_pair-first q p [] (pair_leb-total p q a))
]
insert_pair-swap p q (x ∷ l) = elim (Bool-cases (pair_leb p x)) [
  | inl a ↦ elim (Bool-cases (pair_leb q x)) [
    | inl b ↦ rw (insert_pair-first p x l a, insert_pair-first q x l b) (both_first p q x l a b)
    | inr b ↦ rw (insert_pair-first p x l a, insert_pair-later q x l b) (one_first p q x l a b)
  ]
  | inr a ↦ elim (Bool-cases (pair_leb q x)) [
    | inl b ↦
        rw (insert_pair-later p x l a, insert_pair-first q x l b) (sym (one_first q p x l b a))
    | inr b ↦
        rw (insert_pair-later p x l a, insert_pair-later q x l b)
          (insert_pair-later p x _ a
            ∙ ap (λ t. x ∷ t) (insert_pair-swap p q l)
            ∙ sym (insert_pair-later q x _ b))
  ]
]

sort_pairs-permᴰ : {l m : List (Text × Text)} → Permᴰ l m → sort_pairs l ≡ sort_pairs m
unfolding sort_pairs
sort_pairs-permᴰ Permᴰ.nil = refl
sort_pairs-permᴰ (Permᴰ.cons e d) = rw (e, sort_pairs-permᴰ d)
sort_pairs-permᴰ (Permᴰ.swap {l = l} e f) = rw (e, f) (insert_pair-swap _ _ (sort_pairs l))
sort_pairs-permᴰ (Permᴰ.trans d e) = sort_pairs-permᴰ d ∙ sort_pairs-permᴰ e

pub sort_pairs-perm : {l m : List (Text × Text)} → Perm l m → sort_pairs l ≡ sort_pairs m
sort_pairs-perm d =
    ∥∥₁_elim d (is_set (Σ_set (is_set ℕ_set) (λ _. is_set ℕ_set)) _ _) sort_pairs-permᴰ

insert_pair-Perm : (p : Text × Text) (l : List (Text × Text)) → Perm (insert_pair p l) (p ∷ l)
unfolding insert_pair
insert_pair-Perm p [] = Perm.rfl
insert_pair-Perm p (q ∷ l) = elim (Bool-cases (pair_leb p q)) [
  | inl e ↦ rw (insert_pair-first p q l e) Perm.rfl
  | inr e ↦
      rw (insert_pair-later p q l e)
        (Perm.trans (Perm.cons q (insert_pair-Perm p l)) (Perm.swap p q l))
]

pub sort_pairs-Perm : (l : List (Text × Text)) → Perm (sort_pairs l) l
unfolding sort_pairs
sort_pairs-Perm [] = Perm.rfl
sort_pairs-Perm (p ∷ l) =
    Perm.trans (insert_pair-Perm p (sort_pairs l)) (Perm.cons p (sort_pairs-Perm l))
