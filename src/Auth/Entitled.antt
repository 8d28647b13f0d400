-- ===== src/Auth/Entitled.antt =====
-- Who is admitted: the conditions on the rows, and which exceptions a refusal raises.
use ai_oas.Base.{
  ℕ, ◌≤◌, ◌<◌, ◌≡◌, refl, sym, ap, subst, ◌∙◌, ◌↔◌, ◌⊎◌, inl, inr, Text, Bool, true, false, Option,
  none, some, List, [], ◌∷◌, arith, text_eq, eq_of_text_eq, text_eq_refl, find_first, select,
  if◌then◌else◌,
}
use mathlib.Core.List.{Memᴰ}
use mathlib.Core.List.Memᴰ
use ai_oas.Errors.{Result, ok, err, intake}
use ai_oas.Platform.{Platform}
use ai_oas.Models.{ApplicationActor, ApplicationActorRoleAssignment, ActorStatus, is_active_status}
use ai_oas.Tables.{Db}
use ai_oas.Session.{Session, lift, pure, rethrow, ◌>>=◌, query, statement, answer, read_only}
use ai_oas.Auth.Verifier.{good}
use ai_oas.Tested.{OnlyOne, select-OnlyOne, found-Memᴰ}
use ai_oas.Auth.Human.{
  AuthenticatedHuman, is_reader, in_effect, before_end, is_actor_of, forbidden, limit_two, human_of,
  admitted, read_assignments, lookup_failure, required_actor,
}

-- The assignment is one of the actor, it has begun and has not ended.
abbrev pub InEffect : ℕ → ℕ → ApplicationActorRoleAssignment → Type 0
InEffect actor_id now a =
    (a.actor_id ≡ actor_id)
    × (a.effective_from ≤ now)
    × ((a.effective_to ≡ none) ⊎ ((end : ℕ) × (a.effective_to ≡ some end) × (now < end)))

in_effect-InEffect :
    (actor_id now : ℕ) (a : ApplicationActorRoleAssignment)
    → in_effect actor_id now a ≡ true
    → InEffect actor_id now a
in_effect-InEffect actor_id now a h = by_end a.effective_to refl (ground arith)
  where
    begun : (a.actor_id ≡ actor_id) × (a.effective_from ≤ now)
    begun = (ground arith, ground arith)

    by_end : (o : Option ℕ) → a.effective_to ≡ o → before_end o now ≡ true → InEffect actor_id now a
    by_end none e x = (begun.0, begun.1, inl e)
    by_end (some end) e x = (begun.0, begun.1, inr (end, e, ground arith))

InEffect-in_effect :
    (actor_id now : ℕ) (a : ApplicationActorRoleAssignment)
    → InEffect actor_id now a
    → in_effect actor_id now a ≡ true
InEffect-in_effect actor_id now a (mine, start, inl e) = ground arith
InEffect-in_effect actor_id now a (mine, start, inr (end, e, x)) = ground arith

effective :
    (actor_id now : ℕ) (d : Db) (a : ApplicationActorRoleAssignment)
    → (select (in_effect actor_id now) d.role_assignments ≡ a ∷ [])
      ↔ OnlyOne (InEffect actor_id now) d.role_assignments a
effective actor_id now d a =
    select-OnlyOne (InEffect actor_id now) (in_effect actor_id now)
      (in_effect-InEffect actor_id now) (InEffect-in_effect actor_id now) a d.role_assignments

-- The rows admit `human` as the actor of the subject: one active actor has the subject, exactly one of
-- its role assignments is in effect, and its role may read service requests.
pub record Entitled (subject : Text) (now : ℕ) (d : Db) (human : AuthenticatedHuman) : Type 0 where
  pub actor : ApplicationActor
  pub listed : Memᴰ actor d.application_actors
  pub named : text_eq actor.supabase_subject subject ≡ true
  pub active : actor.status ≡ ActorStatus.active
  pub assignment : ApplicationActorRoleAssignment
  pub alone : OnlyOne (InEffect actor.id now) d.role_assignments assignment
  pub reader : is_reader assignment.role ≡ true
  pub same :
      human ≡ record { actor_id = actor.id; supabase_subject = subject; role = assignment.role }

-- what the rows say
abbrev pub judged : Text → ℕ → Db → Option ApplicationActor → Result AuthenticatedHuman
judged subject now d none = err (intake forbidden)
judged subject now d (some actor) =
    human_of subject (actor, limit_two (select (in_effect actor.id now) d.role_assignments))

-- a session that no statement fails
abbrev calm : Session → Session
calm s = record s { faults = [] }

admitted-judged :
    (p : Platform) (subject : Text) (s : Session)
    → (admitted p (good subject) (calm s)).0
      ≡ judged subject
          (p.utc_now s.drawn)
          s.committed
          (find_first (is_actor_of subject) s.committed.application_actors)
unfolding admitted read_only read_assignments query statement answer
admitted-judged p subject s =
    by_actor (find_first (is_actor_of subject) s.committed.application_actors)
  where
    by_actor :
        (o : Option ApplicationActor)
        → ((rethrow lookup_failure (
                read_only (
                  lift (required_actor o) >>= λ actor.
                  query (λ d.
                    limit_two (select (in_effect actor.id (p.utc_now s.drawn)) d.role_assignments))
                  >>= λ assignments. pure (actor, assignments)))
              >>= λ rows. lift (human_of subject rows))
            (calm s)).0
          ≡ judged subject (p.utc_now s.drawn) s.committed o
    by_actor none = refl
    by_actor (some actor) = refl

-- `uq_application_actors_supabase_subject`
abbrev pub SubjectsDiffer : Db → Type 0
SubjectsDiffer d =
    (a b : ApplicationActor)
    → Memᴰ a d.application_actors
    → Memᴰ b d.application_actors
    → text_eq a.supabase_subject b.supabase_subject ≡ true
    → a ≡ b

module _ {A : Type 0} (q : A → Bool) where
  found_only :
      (l : List A) (a : A)
      → Memᴰ a l
      → q a ≡ true
      → ((b : A) → Memᴰ b l → q b ≡ true → b ≡ a)
      → find_first q l ≡ some a
  found_only [] a m h only = absurd (Memᴰ.not-nil m)
  found_only (x ∷ l) a m h only =
      by_test (q x) refl (Memᴰ.cases_cons m) (λ k. found_only l a k h (λ b n. only b (Memᴰ.tail n)))
    where
      by_test :
          (b : Bool)
          → q x ≡ b
          → (a ≡ x) ⊎ Memᴰ a l
          → (Memᴰ a l → find_first q l ≡ some a)
          → (if b then some x else find_first q l) ≡ some a
      by_test true e c rest = ap some (only x (Memᴰ.head refl) e)
      by_test false e (inl same) rest = absurd (ground arith)
      by_test false e (inr k) rest = rest k

active_status : (a : ActorStatus) → is_active_status a ≡ true → a ≡ ActorStatus.active
active_status ActorStatus.active h = refl
active_status ActorStatus.disabled h = absurd (ground arith)

module _ (subject : Text) (now : ℕ) (d : Db) (human : AuthenticatedHuman) where
  pub judged-Entitled :
      (o : Option ApplicationActor)
      → find_first (is_actor_of subject) d.application_actors ≡ o
      → judged subject now d o ≡ ok human
      → Entitled subject now d human
  unfolding human_of
  judged-Entitled none e h = absurd (ground arith)
  judged-Entitled (some actor) e h =
      by_assignments (select (in_effect actor.id now) d.role_assignments) refl h
    where
      chosen : Memᴰ actor d.application_actors × (is_actor_of subject actor ≡ true)
      chosen = found-Memᴰ (is_actor_of subject) d.application_actors actor e

      by_role :
          (a : ApplicationActorRoleAssignment)
          → select (in_effect actor.id now) d.role_assignments ≡ a ∷ []
          → (b : Bool) → is_reader a.role ≡ b
          → human_of subject (actor, a ∷ []) ≡ ok human
          → Entitled subject now d human
      by_role a alone false r x = absurd (ground arith)
      by_role a alone true r x = record {
        actor = actor;
        listed = chosen.0;
        named = let c = chosen.1 in ground arith;
        active = active_status actor.status (let c = chosen.1 in ground arith);
        assignment = a;
        alone = (effective actor.id now d a).0 alone;
        reader = r;
        same = ground arith;
      }

      by_assignments :
          (l : List ApplicationActorRoleAssignment)
          → select (in_effect actor.id now) d.role_assignments ≡ l
          → human_of subject (actor, limit_two l) ≡ ok human
          → Entitled subject now d human
      by_assignments [] alone x = absurd (ground arith)
      by_assignments (a ∷ []) alone x = by_role a alone (is_reader a.role) refl x
      by_assignments (a ∷ b ∷ l) alone x = absurd (ground arith)

  Entitled-judged :
      SubjectsDiffer d
      → Entitled subject now d human
      → judged subject now d (find_first (is_actor_of subject) d.application_actors) ≡ ok human
  unfolding human_of
  Entitled-judged differ h =
      ap (judged subject now d) (
        found_only (is_actor_of subject) d.application_actors h.actor h.listed
          (ground (arith, h.named, h.active)) only)
      ∙ ap (λ l. human_of subject (h.actor, limit_two l))
          ((effective h.actor.id now d h.assignment).1 h.alone)
      ∙ ground (arith, h.reader, h.same)
    where
      only :
          (b : ApplicationActor)
          → Memᴰ b d.application_actors
          → is_actor_of subject b ≡ true
          → b ≡ h.actor
      only b m t = differ b h.actor m h.listed (
          subst (λ x. text_eq b.supabase_subject x ≡ true)
            (eq_of_text_eq b.supabase_subject subject (ground arith)
              ∙ sym (eq_of_text_eq h.actor.supabase_subject subject h.named))
            (text_eq_refl b.supabase_subject))

-- With no database failure, the human of a verified subject is admitted exactly when the rows
-- entitle it: an active actor of the subject, exactly one role assignment of it in effect now, and a
-- role that may read service requests. Subjects of actors must differ.
pub admitted-Entitled :
    (p : Platform) (subject : Text) (s : Session) (human : AuthenticatedHuman)
    → s.faults ≡ []
    → SubjectsDiffer s.committed
    → ((admitted p (good subject) s).0 ≡ ok human)
      ↔ Entitled subject (p.utc_now s.drawn) s.committed human
admitted-Entitled p subject s human none_fail differ =
    let calmed : calm s ≡ s = ap (λ l. record s { faults = l }) (sym none_fail) in
    let says =
      ap (λ t. (admitted p (good subject) t).0) (sym calmed) ∙ admitted-judged p subject s in
    (
      λ h. judged-Entitled subject (p.utc_now s.drawn) s.committed human _ refl (sym says ∙ h),
      λ h. says ∙ Entitled-judged subject (p.utc_now s.drawn) s.committed human differ h,
    )
