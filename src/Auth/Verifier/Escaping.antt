-- ===== src/Auth/Verifier/Escaping.antt =====
-- Which exceptions leave the verifier without a name: those that a call of pyjwt raises past the
-- `except` clause around it.
use ai_oas.Base.{
  ℕ, ◌+◌, ◌≡◌, ◌∙◌, refl, String, Text, Bool, true, false, ◌||◌, Option, none, some, List, [],
  arith, if◌then◌else◌,
}
use ai_oas.Json.{Json, Items, nil, cons}
use ai_oas.Auth.Verifier.{
  Jwt, Called, returned, caught, uncaught, Verified, good, bad, other_exception, VerifierState,
  load, key_items, kid_of, stored, with_item, keys_from, keys_of_items, document_keys, replaced,
  reload, looked_up, no_keys, expired, find_key, header_kid, subject_of, claims_of, decoded,
  with_key, with_first, with_kid, verify,
}
use ai_oas.Auth.Verifier.Laws.{ItemIn, first, later}

module _ (j : Jwt) where
  -- an item of a document that the loader gave, of which no key can be made
  pub record BadItem : Type 0 where
    pub number : ℕ
    pub document : Json
    pub fetched : load j (j.fetch number) ≡ some document
    pub items : Items
    pub listed : key_items j document ≡ some items
    pub item : Json
    pub there : ItemIn j item items
    pub raises : j.from_dict item ≡ uncaught

  abbrev Raising : Items → Type 0
  Raising items = (item : Json) × ItemIn j item items × (j.from_dict item ≡ uncaught)

  keys_from-uncaught :
      (items : Items) (before : List (String × j.Key))
      → keys_from j before items ≡ uncaught
      → Raising items
  unfolding keys_from
  keys_from-uncaught nil before h = absurd (ground arith)
  keys_from-uncaught (cons item rest) before h =
      by_item (with_item j (kid_of j item) item before) refl h
        (λ more e. deeper (keys_from-uncaught rest more e))
    where
      deeper : Raising rest → Raising (cons item rest)
      deeper (i, there, e) = (i, later item rest there, e)

      of_key :
          (kid : String) (c : Called j.Key)
          → j.from_dict item ≡ c
          → stored j kid c before ≡ uncaught
          → Raising (cons item rest)
      of_key kid caught e h1 = absurd (ground arith)
      of_key kid (returned key) e h1 = absurd (ground arith)
      of_key kid uncaught e h1 = (item, first rest, e)

      of_kid : (o : Option String) → with_item j o item before ≡ uncaught → Raising (cons item rest)
      of_kid none h1 = absurd (ground arith)
      of_kid (some kid) h1 = of_key kid (j.from_dict item) refl h1

      by_item :
          (w : Called (List (String × j.Key)))
          → with_item j (kid_of j item) item before ≡ w
          → elim w [ caught ↦ caught | uncaught ↦ uncaught | returned more ↦ keys_from j more rest ]
            ≡ uncaught
          → ((more : List (String × j.Key))
              → keys_from j more rest ≡ uncaught
              → Raising (cons item rest))
          → Raising (cons item rest)
      by_item caught e h1 deep = absurd (ground arith)
      by_item uncaught e h1 deep = of_kid (kid_of j item) e
      by_item (returned more) e h1 deep = deep more h1

  document_keys-uncaught : (n : ℕ) → document_keys j (load j (j.fetch n)) ≡ uncaught → BadItem
  unfolding document_keys keys_of_items
  document_keys-uncaught n h = by_document (load j (j.fetch n)) refl h
    where
      by_items :
          (document : Json)
          → load j (j.fetch n) ≡ some document
          → (o : Option Items) → key_items j document ≡ o
          → keys_of_items j o ≡ uncaught
          → BadItem
      by_items document e none f h1 = absurd (ground arith)
      by_items document e (some items) f h1 =
          let (item, there, raises) = keys_from-uncaught items [] h1 in
          record {
            number = n;
            document = document;
            fetched = e;
            items = items;
            listed = f;
            item = item;
            there = there;
            raises = raises;
          }

      by_document :
          (o : Option Json) → load j (j.fetch n) ≡ o → document_keys j o ≡ uncaught → BadItem
      by_document none e h1 = absurd (ground arith)
      by_document (some document) e h1 = by_items document e (key_items j document) refl h1

  find_key-uncaught :
      (cache_seconds : ℕ) (kid : String) (refresh : Bool) (st : VerifierState j)
      → (find_key j cache_seconds kid refresh st).0 ≡ bad other_exception
      → BadItem
  unfolding find_key reload
  find_key-uncaught cache_seconds kid refresh st h =
      by_test (refresh || (no_keys j st.keys || expired j cache_seconds st)) h
    where
      clocked : VerifierState j
      clocked = record st { ticks = st.ticks + 1 }

      by_document :
          (c : Called (List (String × j.Key)))
          → document_keys j (load j (j.fetch st.loads)) ≡ c
          → (looked_up j kid (replaced j c clocked)).0 ≡ bad other_exception
          → BadItem
      by_document caught e h1 = absurd (ground arith)
      by_document uncaught e h1 = document_keys-uncaught st.loads e
      by_document (returned keys) e h1 = absurd (ground arith)

      by_test :
          (b : Bool)
          → (looked_up j kid (if b then reload j clocked else (good tt, clocked))).0
            ≡ bad other_exception
          → BadItem
      by_test true h1 = by_document (document_keys j (load j (j.fetch st.loads))) refl h1
      by_test false h1 = absurd (ground arith)

  module _ (is_space : ℕ → Bool) (issuer : Text) (audience : String) (cache_seconds : ℕ) where
    -- A call of pyjwt for the token raises what the verifier does not catch.
    pub data Escaped (token : Text) : Type 0 where
      of_header : j.unverified_header token ≡ uncaught → Escaped token
      of_item : BadItem → Escaped token
      of_claims :
          (n : ℕ) (key : j.Key)
          → claims_of j is_space issuer audience cache_seconds n token key ≡ uncaught
          → Escaped token

    subject_of-uncaught :
        (c : Called _) → subject_of j is_space c ≡ bad other_exception → c ≡ uncaught
    unfolding subject_of
    subject_of-uncaught caught h = absurd (ground arith)
    subject_of-uncaught uncaught h = refl
    subject_of-uncaught (returned claims) h = ground arith

    decoded-Escaped :
        (token : Text) (key : j.Key) (st : VerifierState j)
        → (decoded j is_space issuer audience cache_seconds token key st).0 ≡ bad other_exception
        → Escaped token
    unfolding decoded
    decoded-Escaped token key st h = of_claims st.decodes key (subject_of-uncaught _ h)

    with_key-Escaped :
        (token : Text) (r : Verified (Option j.Key) × VerifierState j)
        → (r.0 ≡ bad other_exception → BadItem)
        → (with_key j is_space issuer audience cache_seconds token r).0 ≡ bad other_exception
        → Escaped token
    with_key-Escaped token (good none, st) found h = absurd (ground arith)
    with_key-Escaped token (good (some key), st) found h = decoded-Escaped token key st h
    with_key-Escaped token (bad e, st) found h = of_item (found (ground arith))

    with_first-Escaped :
        (token : Text) (kid : String) (r : Verified (Option j.Key) × VerifierState j)
        → (r.0 ≡ bad other_exception → BadItem)
        → (with_first j is_space issuer audience cache_seconds token kid r).0 ≡ bad other_exception
        → Escaped token
    with_first-Escaped token kid (good none, st) found h =
        with_key-Escaped token (find_key j cache_seconds kid true st)
          (find_key-uncaught cache_seconds kid true st) h
    with_first-Escaped token kid (good (some key), st) found h = decoded-Escaped token key st h
    with_first-Escaped token kid (bad e, st) found h = of_item (found (ground arith))

    header_kid-uncaught : (c : Called _) → header_kid j c ≡ bad other_exception → c ≡ uncaught
    unfolding header_kid
    header_kid-uncaught caught h = absurd (ground arith)
    header_kid-uncaught uncaught h = refl
    header_kid-uncaught (returned header) h = ground arith

    -- An exception without a name is one of pyjwt.
    pub verify-Escaped :
        (token : Text) (st : VerifierState j)
        → (verify j is_space issuer audience cache_seconds token st).0 ≡ bad other_exception
        → Escaped token
    unfolding verify
    verify-Escaped token st h = by_header (header_kid j (j.unverified_header token)) refl h
      where
        by_header :
            (o : Verified String)
            → header_kid j (j.unverified_header token) ≡ o
            → (with_kid j is_space issuer audience cache_seconds token o st).0 ≡ bad other_exception
            → Escaped token
        by_header (bad x) e h1 = of_header (header_kid-uncaught _ (e ∙ ground arith))
        by_header (good kid) e h1 =
            with_first-Escaped token kid (find_key j cache_seconds kid false st)
              (find_key-uncaught cache_seconds kid false st) h1
