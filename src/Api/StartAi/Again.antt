-- ===== src/Api/StartAi/Again.antt =====
-- A start of an interpretation that is sent again.
use ai_oas.Base.{
  ℕ, ◌≡◌, sym, ap, ◌∙◌, Text, Bool, true, false, Option, none, some, [], arith, if◌then◌else◌,
}
use ai_oas.Json.{Json, entry}
use ai_oas.Errors.{IntakeError, unexpected, Result, ok, err}
use ai_oas.Platform.{Platform}
use ai_oas.Models.{hash_valid}
use ai_oas.Session.{Session, Tx, lift}
use ai_oas.Session.ReadOnly.{first_returned}
use ai_oas.Identity.{AuthenticatedWorkflowService, Settings}
use ai_oas.Outcome.{CommandOutcome}
use ai_oas.Outcome.Command.{replay_of}
use ai_oas.StartAi.Service.{Generated, execute}
use ai_oas.StartAi.Commands.{execute_again}
use ai_oas.ServiceRequests.{resource_not_found}
use ai_oas.Api.Transport.{Validation}
use ai_oas.Api.Commands.Parts.{
  parts_of, command_route-run, after_outcome, passed, usable-key_usable,
}
use ai_oas.Api.Commands.{CommandCall, canonical_command_hash, stored_error, raised}
use ai_oas.Api.StartAi.{
  StartAnswer, start_answer, checked, answer_unless, answer_outcome, run_command,
  start_ai_interpretation,
}

-- the answer to the same call when it is sent again
abbrev pub replayed_answer : ℕ → StartAnswer → StartAnswer
replayed_answer correlation_id a = record a {
  status_code = 200;
  correlation_id = correlation_id;
  credential_delivery = "AlreadyIssued";
  callback_credential = none;
}

module _ (accepts : StartAnswer → Bool) where
  -- an answer that is no error, and the answer to its replay
  answer_replayed :
      (c again : ℕ) (o : CommandOutcome) (a : StartAnswer)
      → answer_outcome accepts c o ≡ ok a
      → answer_outcome accepts again (replay_of o) ≡ checked accepts (replayed_answer again a)
  unfolding answer_outcome answer_unless
  answer_replayed c again o a h = by_error (entry "error" o.safe_snapshot) h
    where
      by_accepts :
          (b : Bool)
          → (if b then ok (start_answer c o) else err unexpected) ≡ ok a
          → checked accepts (start_answer again (replay_of o))
            ≡ checked accepts (replayed_answer again a)
      by_accepts true x =
          let same : start_answer c o ≡ a = ground arith in
          ap (λ y. checked accepts (replayed_answer again y)) same
      by_accepts false x = absurd (ground arith)

      no_error : (r : Result IntakeError) → raised {A = StartAnswer} r ≡ ok a → ⊥
      no_error (ok e) x = ground arith
      no_error (err e) x = ground arith

      by_error :
          (e : Option Json)
          → answer_unless accepts e c o ≡ ok a
          → answer_unless accepts e again (replay_of o) ≡ checked accepts (replayed_answer again a)
      by_error none x = by_accepts (accepts (start_answer c o)) x
      by_error (some error) x = absurd (no_error (stored_error o.logical_http_status error) x)

module _ (p : Platform) (machine : AuthenticatedWorkflowService)
    (model_validate : Json → Validation ℕ) (accepts : StartAnswer → Bool)
    (call : CommandCall p.Bytes) where
  command : Settings → Generated → ℕ → ℕ → ℕ → Text → Tx StartAnswer
  command settings generated c id expected raw_key =
      run_command p settings machine generated model_validate accepts id expected raw_key c

  -- A start of an interpretation that was answered, sent again with any correlation, settings and
  -- newly generated credential, from a session that reads what the first committed and meets no
  -- database failure, is answered with the status 200, the same command and snapshot, "AlreadyIssued"
  -- and no credential, if the response model accepts this; and nothing more is committed. The hash of
  -- the platform must have the form of a SHA-256.
  pub start_ai_interpretation_again :
      (settings again_settings : Settings) (generated again_generated : Generated) (c again_c : ℕ)
      (s u : Session) (a : StartAnswer)
      → ((b : p.Bytes) → hash_valid (p.sha256 b) ≡ true)
      → (start_ai_interpretation p settings machine generated model_validate accepts call c s).0
        ≡ ok a
      → u.committed
        ≡ (start_ai_interpretation p settings machine generated model_validate accepts call c
            s).1.committed
      → u.faults ≡ []
      → let again =
          start_ai_interpretation p again_settings machine again_generated model_validate accepts
            call again_c u in
        (again.0 ≡ checked accepts (replayed_answer again_c a)) × (again.1.committed ≡ u.committed)
  unfolding start_ai_interpretation command run_command canonical_command_hash
  start_ai_interpretation_again settings again_settings generated again_generated c again_c s u a
        hashes h seen none_fail =
      let x =
        parts_of p model_validate resource_not_found call (command settings generated c) s a h in
      let hash = canonical_command_hash p "service_request" x.expected in
      let ran =
        command_route-run p model_validate resource_not_found call (command settings generated c) s
          x in
      let first = execute p settings machine generated x.id x.expected x.raw_key hash c s in
      let (o, returned, answered) =
        first_returned first (λ o. lift (answer_outcome accepts c o)) a
          (ap (λ y. y.0) (sym ran) ∙ h) in
      let (replayed, same) =
        execute_again p settings again_settings machine generated again_generated x.id x.expected
          x.expected x.raw_key hash c again_c s u o returned
          (seen
            ∙ ap (λ y. y.1.committed) ran
            ∙ ap (λ (t : Session). t.committed) (after_outcome first (answer_outcome accepts c)))
          none_fail (hashes _) (usable-key_usable p call.key_headers x.raw_key x.key) in
      let second =
        execute p again_settings machine again_generated x.id x.expected x.raw_key hash again_c u in
      let ran_again =
        command_route-run p model_validate resource_not_found call
          (command again_settings again_generated again_c) u x in
      (
        ap (λ y. y.0) ran_again
            ∙ passed second (answer_outcome accepts again_c) (replay_of o) replayed
            ∙ answer_replayed accepts c again_c o a answered,
        ap (λ y. y.1.committed) ran_again
            ∙ ap (λ (t : Session). t.committed)
                (after_outcome second (answer_outcome accepts again_c))
            ∙ same,
      )
