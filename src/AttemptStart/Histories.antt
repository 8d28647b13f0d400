-- ===== src/AttemptStart/Histories.antt =====
-- The conditions of a claim on the earlier credentials of the attempt, each with the test of the code
-- that decides it.
use ai_oas.Base.{
  ℕ, ◌+◌, ◌≤◌, ◌<◌, ◌≡◌, ◌≢◌, ◌∙◌, sym, subst, ◌↔◌, ◌⊎◌, inl, inr, refl, ap, eq_iff, false, Option,
  none, some, List, [], ◌∷◌, ◌==◌, ==_iff, elem, find_first, maximum, arith,
}
use ai_oas.Models.{
  IntegrationAttempt, AttemptCallbackCredential, CredentialState, active, consumed, replaced,
  revoked,
}
use ai_oas.Tested.{
  Decides, both, either, IsSome, is_none-Decides, is_some-Decides, OnlyOne, Everywhere,
}
use ai_oas.Callback.History.{versions_of, versions_broken, by_id, succeeds, ended_as, valid_history}
use ai_oas.AttemptStart.Verdict.{historical_in_scope}

-- All versions are positive, and no two are the same.
abbrev pub Numbered : List AttemptCallbackCredential → Type 0
Numbered [] = Unit
Numbered (c ∷ l) =
    (0 < c.credential_version)
    × Everywhere (λ d. d.credential_version ≢ c.credential_version) l
    × Numbered l

elem-differs :
    (n : ℕ) (l : List AttemptCallbackCredential)
    → (elem n (versions_of l) ≡ false) ↔ Everywhere (λ d. d.credential_version ≢ n) l
elem-differs n [] = (λ h. tt, λ h. refl)
elem-differs n (c ∷ l) =
    let rest = elem-differs n l in
    (
      λ h. (λ e. ground arith, rest.0 (ground arith)),
      λ w. let x = w.0 in let y = rest.1 w.1 in ground (arith, x, y),
    )

pub versions-Numbered :
    (rows : List AttemptCallbackCredential)
    → (versions_broken (versions_of rows) ≡ false) ↔ Numbered rows
unfolding versions_broken
versions-Numbered [] = (λ h. tt, λ h. refl)
versions-Numbered (c ∷ l) =
    let rest = versions-Numbered l in
    let other = elem-differs c.credential_version l in
    (
      λ h. (ground arith, other.0 (ground arith), rest.0 (ground arith)),
      λ w. let x = w.0 in let y = other.1 w.1 in let z = rest.1 w.2 in ground (arith, x, y, z),
    )

-- no version is higher
abbrev pub Newest : List AttemptCallbackCredential → AttemptCallbackCredential → Type 0
Newest rows c = Everywhere (λ d. d.credential_version ≤ c.credential_version) rows

maximum-bound :
    (n : ℕ) (rows : List AttemptCallbackCredential)
    → (maximum (versions_of rows) ≤ n) ↔ Everywhere (λ d. d.credential_version ≤ n) rows
maximum-bound n [] = (λ h. tt, λ h. omega arith)
maximum-bound n (c ∷ l) =
    let rest = maximum-bound n l in
    (
      λ h. (omega arith, rest.0 (omega arith)),
      λ w. let x = w.0 in let y = rest.1 w.1 in omega arith,
    )

-- a row that is there counts
maximum-only :
    (P : AttemptCallbackCredential → Type 0) (rows : List AttemptCallbackCredential)
    (c : AttemptCallbackCredential)
    → OnlyOne P rows c
    → c.credential_version ≤ maximum (versions_of rows)
maximum-only P [] c o = absurd o
maximum-only P (d ∷ l) c (inl (same, _, _)) =
    let e = ap (λ (x : AttemptCallbackCredential). x.credential_version) same in omega arith
maximum-only P (d ∷ l) c (inr (_, o)) = let r = maximum-only P l c o in omega arith

pub maximum-Newest :
    (P : AttemptCallbackCredential → Type 0) (rows : List AttemptCallbackCredential)
    (c : AttemptCallbackCredential)
    → OnlyOne P rows c
    → Decides (c.credential_version == maximum (versions_of rows)) (Newest rows c)
maximum-Newest P rows c o =
    let bound = maximum-bound c.credential_version rows in
    let there = maximum-only P rows c o in
    (
      λ h.
          let e = (==_iff c.credential_version (maximum (versions_of rows))).0 h in
          bound.0 (omega arith),
      λ w.
          let m = bound.1 w in
          (==_iff c.credential_version (maximum (versions_of rows))).1 (omega arith),
    )

-- How an earlier credential has ended. A replaced one names a credential of the attempt with the next
-- version.
pub data Ended (rows : List AttemptCallbackCredential) (h : AttemptCallbackCredential)
    : Type 0 where
  was_replaced :
      (id : ℕ) (next : AttemptCallbackCredential)
      → h.state ≡ replaced
      → h.consumed_at ≡ none
      → IsSome h.replaced_at
      → h.revoked_at ≡ none
      → h.replacement_credential_id ≡ some id
      → find_first (λ c. c.id == id) rows ≡ some next
      → next.credential_version ≡ h.credential_version + 1
      → Ended rows h
  was_revoked :
      h.state ≡ revoked
      → h.consumed_at ≡ none
      → h.replaced_at ≡ none
      → IsSome h.revoked_at
      → h.replacement_credential_id ≡ none
      → Ended rows h
  was_consumed :
      h.state ≡ consumed
      → IsSome h.consumed_at
      → h.replaced_at ≡ none
      → h.revoked_at ≡ none
      → h.replacement_credential_id ≡ none
      → Ended rows h

-- the credential that a replaced one names
abbrev Next : List AttemptCallbackCredential → Option ℕ → ℕ → Type 0
Next rows o version =
    (id : ℕ) × (next : AttemptCallbackCredential) × (o ≡ some id)
    × (find_first (λ c. c.id == id) rows ≡ some next)
    × (next.credential_version ≡ version + 1)

module _ (rows : List AttemptCallbackCredential) where
  succeeds-Next :
      (o : Option ℕ) (version : ℕ) → Decides (succeeds (by_id o rows) version) (Next rows o version)
  succeeds-Next none version =
      (λ h. absurd (ground arith), λ w. let e = w.2 in absurd (ground (arith, e)))
  succeeds-Next (some id) version = by_row (find_first (λ c. c.id == id) rows) refl
    where
      by_row :
          (r : Option AttemptCallbackCredential)
          → find_first (λ c. c.id == id) rows ≡ r
          → Decides (succeeds r version) (Next rows (some id) version)
      by_row none e = (
        λ h. absurd (ground arith),
        λ (i, next, named, found, v).
            let same : id ≡ i = ground arith in
            let again =
              subst (λ k. find_first (λ c. c.id == k) rows ≡ some next) (sym same) found in
            absurd (ground (arith, e, again)),
      )
      by_row (some row) e = (
        λ h. (id, row, refl, e, (==_iff row.credential_version (version + 1)).0 h),
        λ (i, next, named, found, v).
            let same : id ≡ i = ground arith in
            let again =
              subst (λ k. find_first (λ c. c.id == k) rows ≡ some next) (sym same) found in
            let row_same : row ≡ next = ground (arith, e, again) in
            (==_iff row.credential_version (version + 1)).1
              (ap (λ (x : AttemptCallbackCredential). x.credential_version) row_same ∙ v),
      )

  module _ (h : AttemptCallbackCredential) where
    replaced-Ended :
        h.state ≡ replaced
        → Decides (ended_as replaced h (by_id h.replacement_credential_id rows)) (Ended rows h)
    replaced-Ended e = (λ x. to (tests.0 x), λ w. tests.1 (from w))
      where
        Parts : Type 0
        Parts =
            ((((h.consumed_at ≡ none) × IsSome h.replaced_at) × (h.revoked_at ≡ none))
              × IsSome h.replacement_credential_id)
            × Next rows h.replacement_credential_id h.credential_version

        tests : Decides (ended_as replaced h (by_id h.replacement_credential_id rows)) Parts
        tests =
            both
              (both
                (both (both (is_none-Decides h.consumed_at) (is_some-Decides h.replaced_at))
                  (is_none-Decides h.revoked_at))
                (is_some-Decides h.replacement_credential_id))
              (succeeds-Next h.replacement_credential_id h.credential_version)

        to : Parts → Ended rows h
        to ((((c, r), v), _), (id, next, named, found, n)) =
            was_replaced id next e c r v named found n

        from : Ended rows h → Parts
        from (was_replaced id next s c r v named found n) =
            ((((c, r), v), (id, named)), (id, next, named, found, n))
        from (was_revoked s c r v n) = absurd (ground (arith, e, s))
        from (was_consumed s c r v n) = absurd (ground (arith, e, s))

    revoked-Ended :
        h.state ≡ revoked
        → Decides (ended_as revoked h (by_id h.replacement_credential_id rows)) (Ended rows h)
    revoked-Ended e = (λ x. to (tests.0 x), λ w. tests.1 (from w))
      where
        Parts : Type 0
        Parts =
            (((h.consumed_at ≡ none) × (h.replaced_at ≡ none)) × IsSome h.revoked_at)
            × (h.replacement_credential_id ≡ none)

        tests : Decides (ended_as revoked h (by_id h.replacement_credential_id rows)) Parts
        tests =
            both
              (both (both (is_none-Decides h.consumed_at) (is_none-Decides h.replaced_at))
                (is_some-Decides h.revoked_at))
              (is_none-Decides h.replacement_credential_id)

        to : Parts → Ended rows h
        to (((c, r), v), n) = was_revoked e c r v n

        from : Ended rows h → Parts
        from (was_revoked s c r v n) = (((c, r), v), n)
        from (was_replaced id next s c r v named found n) = absurd (ground (arith, e, s))
        from (was_consumed s c r v n) = absurd (ground (arith, e, s))

    consumed-Ended :
        h.state ≡ consumed
        → Decides (ended_as consumed h (by_id h.replacement_credential_id rows)) (Ended rows h)
    consumed-Ended e = (λ x. to (tests.0 x), λ w. tests.1 (from w))
      where
        Parts : Type 0
        Parts =
            ((IsSome h.consumed_at × (h.replaced_at ≡ none)) × (h.revoked_at ≡ none))
            × (h.replacement_credential_id ≡ none)

        tests : Decides (ended_as consumed h (by_id h.replacement_credential_id rows)) Parts
        tests =
            both
              (both (both (is_some-Decides h.consumed_at) (is_none-Decides h.replaced_at))
                (is_none-Decides h.revoked_at))
              (is_none-Decides h.replacement_credential_id)

        to : Parts → Ended rows h
        to (((c, r), v), n) = was_consumed e c r v n

        from : Ended rows h → Parts
        from (was_consumed s c r v n) = (((c, r), v), n)
        from (was_replaced id next s c r v named found n) = absurd (ground (arith, e, s))
        from (was_revoked s c r v n) = absurd (ground (arith, e, s))

    not-Ended : h.state ≡ active → Ended rows h → ⊥
    not-Ended e (was_replaced id next s c r v named found n) = ground (arith, e, s)
    not-Ended e (was_revoked s c r v n) = ground (arith, e, s)
    not-Ended e (was_consumed s c r v n) = ground (arith, e, s)

    valid_history-Ended : Decides (valid_history rows h) (Ended rows h)
    unfolding valid_history
    valid_history-Ended = by_state h.state refl
      where
        by_state :
            (s : CredentialState)
            → h.state ≡ s
            → Decides (ended_as s h (by_id h.replacement_credential_id rows)) (Ended rows h)
        by_state replaced e = replaced-Ended e
        by_state revoked e = revoked-Ended e
        by_state consumed e = consumed-Ended e
        by_state active e = (λ x. absurd (ground arith), λ w. absurd (not-Ended e w))

-- An earlier credential of the attempt: it has ended, and has the scope and deadline of the attempt.
pub record Historical (attempt : IntegrationAttempt) (rows : List AttemptCallbackCredential)
    (h : AttemptCallbackCredential) : Type 0 where
  pub ended : Ended rows h
  pub of_attempt : h.integration_attempt_id ≡ attempt.id
  pub kind : h.operation_kind ≡ "AIInterpretation"
  pub assigned : h.workflow_service_identity ≡ attempt.assigned_workflow_service
  pub environment : h.workflow_environment ≡ attempt.workflow_environment
  pub deadline : h.expires_at ≡ attempt.callback_authorization_deadline

pub history-Historical :
    (attempt : IntegrationAttempt) (rows : List AttemptCallbackCredential)
    (credential h : AttemptCallbackCredential)
    → Decides
        (historical_in_scope attempt rows credential h)
        ((h.id ≡ credential.id) ⊎ Historical attempt rows h)
unfolding historical_in_scope
history-Historical attempt rows credential h =
    let tests =
      both
        (both
          (both
            (both (both (valid_history-Ended rows h) (==_iff h.integration_attempt_id attempt.id))
              (eq_iff h.operation_kind "AIInterpretation"))
            (eq_iff h.workflow_service_identity attempt.assigned_workflow_service))
          (eq_iff h.workflow_environment attempt.workflow_environment))
        (==_iff h.expires_at attempt.callback_authorization_deadline) in
    either (==_iff h.id credential.id) (
      λ x.
          let (((((d, a), k), s), e), t) = tests.0 x in
          record {
            ended = d;
            of_attempt = a;
            kind = k;
            assigned = s;
            environment = e;
            deadline = t;
          },
      λ w. tests.1 (((((w.ended, w.of_attempt), w.kind), w.assigned), w.environment), w.deadline),
    )
