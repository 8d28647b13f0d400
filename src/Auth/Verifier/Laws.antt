-- ===== src/Auth/Verifier/Laws.antt =====
-- The keys that a verifier holds, and what an accepted token rests on.
use ai_oas.Base.{
  eq_iff, ℕ, ◌+◌, ◌≤◌, ◌<◌, ◌≡◌, ◌∙◌, refl, sym, ap, subst, ◌⊎◌, inl, inr, String, Bool, true,
  false, ◌||◌, Option, none, some, List, [], ◌∷◌, arith, str_eq, if◌then◌else◌,
}
use ai_oas.Json.{Json, Items, nil, cons}
use ai_oas.Auth.Verifier.{
  Jwt, Called, returned, caught, uncaught, Verified, good, bad, VerifierState, reload, find_key,
  get_key, replaced, looked_up, document_keys, kid_of, keys_from, with_item, stored, load, no_keys,
  expired,
}

module _ (j : Jwt) where
  -- The keys are those of one document that the loader gave, or there are none.
  pub data Cached (st : VerifierState j) : Type 0 where
    unloaded : st.keys ≡ [] → Cached st
    loaded :
        (n : ℕ) → n < st.loads → document_keys j (load j (j.fetch n)) ≡ returned st.keys → Cached st

  -- What a reload leaves.
  pub record Reloaded (st : VerifierState j) (r : Verified (Unit {0}) × VerifierState j)
      : Type 0 where
    pub cached : Cached r.1
    pub once : r.1.loads ≡ st.loads + 1
    pub decodes : r.1.decodes ≡ st.decodes

  kept_keys :
      (st t : VerifierState j) → t.keys ≡ st.keys → st.loads ≤ t.loads → Cached st → Cached t
  kept_keys st t same more (unloaded e) = unloaded (same ∙ e)
  kept_keys st t same more (loaded n before e) = loaded n (omega arith) (e ∙ ap returned (sym same))

  reload-Reloaded : (st : VerifierState j) → Cached st → Reloaded st (reload j st)
  unfolding reload
  reload-Reloaded st h = by_document (document_keys j (load j (j.fetch st.loads))) refl
    where
      by_document :
          (o : Called (List (String × j.Key)))
          → document_keys j (load j (j.fetch st.loads)) ≡ o
          → Reloaded st (replaced j o st)
      by_document caught e = record {
        cached = kept_keys st _ refl (omega arith) h;
        once = refl;
        decodes = refl;
      }
      by_document uncaught e = record {
        cached = kept_keys st _ refl (omega arith) h;
        once = refl;
        decodes = refl;
      }
      by_document (returned keys) e = record {
        cached = loaded st.loads (omega arith) e;
        once = refl;
        decodes = refl;
      }

  module _ (cache_seconds : ℕ) where
    -- The keys are younger than the cache time, or were loaded by the look-up.
    abbrev pub Recent : VerifierState j → VerifierState j → Type 0
    Recent st t = (j.monotonic st.ticks < t.loaded_at + cache_seconds) ⊎ (st.loads < t.loads)

    -- What a look-up leaves.
    pub record Looked (kid : String) (refresh : Bool) (st : VerifierState j)
        (r : Verified (Option j.Key) × VerifierState j) : Type 0 where
      pub cached : Cached r.1
      pub more : st.loads ≤ r.1.loads
      pub few : r.1.loads ≤ st.loads + 1
      pub decodes : r.1.decodes ≡ st.decodes
      pub found : (o : Option j.Key) → r.0 ≡ good o → o ≡ get_key j kid r.1.keys
      pub recent : (o : Option j.Key) → r.0 ≡ good o → Recent st r.1
      pub forced : (o : Option j.Key) → r.0 ≡ good o → refresh ≡ true → st.loads < r.1.loads

    looked_up-Looked :
        (kid : String) (refresh : Bool) (st t : VerifierState j)
        (r : Verified (Unit {0}) × VerifierState j)
        → t.loads ≡ st.loads
        → t.decodes ≡ st.decodes
        → Reloaded t r
        → Looked kid refresh st (looked_up j kid r)
    looked_up-Looked kid refresh st t (good u, v) loads decodes h = record {
      cached = h.cached;
      more = let e = h.once in omega arith;
      few = let e = h.once in omega arith;
      decodes = h.decodes ∙ decodes;
      found = λ o e. cc;
      recent = λ o e. let e' = h.once in inr (omega arith);
      forced = λ o e f. let e' = h.once in omega arith;
    }
    looked_up-Looked kid refresh st t (bad x, v) loads decodes h = record {
      cached = h.cached;
      more = let e = h.once in omega arith;
      few = let e = h.once in omega arith;
      decodes = h.decodes ∙ decodes;
      found = λ o e. cc;
      recent = λ o e. cc;
      forced = λ o e f. cc;
    }

    pub find_key-Looked :
        (kid : String) (refresh : Bool) (st : VerifierState j)
        → Cached st
        → Looked kid refresh st (find_key j cache_seconds kid refresh st)
    unfolding find_key
    find_key-Looked kid refresh st h =
        by_test (refresh || (no_keys j st.keys || expired j cache_seconds st)) refl
      where
        clocked : VerifierState j
        clocked = record st { ticks = st.ticks + 1 }

        by_test :
            (b : Bool)
            → (refresh || (no_keys j st.keys || expired j cache_seconds st)) ≡ b
            → Looked kid refresh st
                (looked_up j kid (if b then reload j clocked else (good tt, clocked)))
        by_test true e =
            looked_up-Looked kid refresh st clocked (reload j clocked) refl refl
              (reload-Reloaded clocked (kept_keys st clocked refl (omega arith) h))
        by_test false e = record {
          cached = kept_keys st clocked refl (omega arith) h;
          more = omega arith;
          few = omega arith;
          decodes = refl;
          found = λ o f. cc;
          recent = λ o f. inl (ground arith);
          forced = λ o f g. ground arith;
        }

  -- an element of the list under "keys"
  pub data ItemIn (item : Json) : Items → Type 0 where
    first : (rest : Items) → ItemIn item (cons item rest)
    later : (x : Json) (rest : Items) → ItemIn item rest → ItemIn item (cons x rest)

  -- The key is made of an item of the list with this kid.
  pub record Published (kid : String) (key : j.Key) (items : Items) : Type 0 where
    pub item : Json
    pub listed : ItemIn item items
    pub named : kid_of j item ≡ some kid
    pub made : j.from_dict item ≡ returned key

  get_key_head :
      (kid k : String) (key x : j.Key) (rest : List (String × j.Key))
      → get_key j kid ((k, x) ∷ rest) ≡ some key
      → ((k ≡ kid) × (x ≡ key)) ⊎ (get_key j kid rest ≡ some key)
  unfolding get_key
  get_key_head kid k key x rest h = by_name (str_eq k kid) refl
    where
      by_name :
          (b : Bool) → str_eq k kid ≡ b → ((k ≡ kid) × (x ≡ key)) ⊎ (get_key j kid rest ≡ some key)
      by_name true e = inl ((eq_iff k kid).0 e, ground arith)
      by_name false e = inr (ground arith)

  pub get_key-Published :
      (kid : String) (key : j.Key) (items : Items) (before keys : List (String × j.Key))
      → keys_from j before items ≡ returned keys
      → get_key j kid keys ≡ some key
      → Published kid key items ⊎ (get_key j kid before ≡ some key)
  unfolding keys_from
  get_key-Published kid key nil before keys e h =
      inr (subst (λ (l : List (String × j.Key)). get_key j kid l ≡ some key) (ground arith) h)
  get_key-Published kid key (cons item rest) before keys e h =
      by_kid (kid_of j item) refl (with_item j (kid_of j item) item before) refl e
        (λ more e3. get_key-Published kid key rest more keys e3 h)
    where
      deeper : Published kid key rest → Published kid key (cons item rest)
      deeper d = record {
        item = d.item;
        listed = later item rest d.listed;
        named = d.named;
        made = d.made;
      }

      of_item :
          (k : String) (x : Called j.Key)
          → kid_of j item ≡ some k
          → j.from_dict item ≡ x
          → (more : List (String × j.Key)) → stored j k x before ≡ returned more
          → get_key j kid more ≡ some key
          → Published kid key (cons item rest) ⊎ (get_key j kid before ≡ some key)
      of_item k caught e1 e2 more e3 h1 = cc
      of_item k uncaught e1 e2 more e3 h1 = cc
      of_item k (returned x) e1 e2 more e3 h1 =
          elim (get_key_head kid k key x before
            (subst (λ (l : List (String × j.Key)). get_key j kid l ≡ some key) (ground arith) h1)) [
              | inl (same, key_same) ↦ inl (record {
                item = item;
                listed = first rest;
                named = e1 ∙ ap some same;
                made = e2 ∙ ap returned key_same;
              })
              | inr old ↦ inr old
            ]

      in_more :
          (o : Option String)
          → kid_of j item ≡ o
          → (more : List (String × j.Key)) → with_item j o item before ≡ returned more
          → get_key j kid more ≡ some key
          → Published kid key (cons item rest) ⊎ (get_key j kid before ≡ some key)
      in_more none e1 more e2 h1 =
          inr (subst (λ (l : List (String × j.Key)). get_key j kid l ≡ some key) (ground arith) h1)
      in_more (some k) e1 more e2 h1 = of_item k (j.from_dict item) e1 refl more e2 h1

      by_kid :
          (o : Option String)
          → kid_of j item ≡ o
          → (w : Called (List (String × j.Key))) → with_item j o item before ≡ w
          → elim w [ caught ↦ caught | uncaught ↦ uncaught | returned more ↦ keys_from j more rest ]
            ≡ returned keys
          → ((more : List (String × j.Key))
              → keys_from j more rest ≡ returned keys
              → Published kid key rest ⊎ (get_key j kid more ≡ some key))
          → Published kid key (cons item rest) ⊎ (get_key j kid before ≡ some key)
      by_kid o e1 caught e2 e3 deep = cc
      by_kid o e1 uncaught e2 e3 deep = cc
      by_kid o e1 (returned more) e2 e3 deep = elim (deep more e3) [
        | inl found ↦ inl (deeper found)
        | inr old ↦ in_more o e1 more e2 old
      ]
