-- ===== src/Tests/Callback.antt =====
-- Verifying the callback of the attempt that was claimed, and the theorem there.
use ai_oas.Base.{◌≡◌, refl}
use ai_oas.Errors.{intake, Result, ok, err}
use ai_oas.Session.{Session}
use ai_oas.Session.Reason.{Keeps}
use ai_oas.Session.Statements.{Apart, Apart-IsStable}
use ai_oas.Callback.Headers.{callback_forbidden}
use ai_oas.Callback.Verifier.{
  VerifiedAttemptCallbackContext, verify, verify_in_transaction, judge, judge_current, matched,
  matching_callback_credentials, only_match, single_active, graph_consistent, running_fields,
  scope_consistent, history_consistent, admitted_attempt,
}
use ai_oas.Callback.Authority.{Authorized, verify-Authorized, Keeps-verify}
use ai_oas.Tests.Toy.{toy, machine, key, credential_text, in_begun}
use ai_oas.Tests.AttemptStart.{claimed_run}

abbrev verified : Result VerifiedAttemptCallbackContext × Session
unfolding claimed_run verify verify_in_transaction judge judge_current matched
    matching_callback_credentials only_match single_active graph_consistent running_fields
    scope_consistent history_consistent admitted_attempt
verified =
    verify toy machine 1003 credential_text "AIInterpretation" (in_begun claimed_run.1.committed)

abbrev authority : VerifiedAttemptCallbackContext
authority = record {
  machine_identity_id = 7;
  stable_service_id = "workflow";
  workflow_environment = "test";
  integration_attempt_id = 1003;
  integration_attempt_version = 2;
  logical_operation_id = 1002;
  service_request_id = 1;
  operation_kind = "AIInterpretation";
  callback_credential_id = 1004;
  callback_credential_version = 1;
  callback_credential_expires_at = 1801000000;
  session = 5;
  transaction = 0;
}

-- the holder of the credential that the first command issued is authorized, another is not
verified_holder : verified.0 ≡ ok authority
unfolding verified
verified_holder = refl

refused_other :
    (verify toy machine 1003 key "AIInterpretation" (in_begun claimed_run.1.committed)).0
    ≡ err (intake callback_forbidden)
unfolding verified
refused_other = refl

verify-Authorized_example :
    Authorized toy machine 1003 credential_text 1000000 authority claimed_run.1.committed
unfolding verified
verify-Authorized_example =
    verify-Authorized toy machine 1003 credential_text "AIInterpretation"
      (in_begun claimed_run.1.committed) authority refl

Keeps-verify_example :
    Keeps (Apart claimed_run.1.committed (λ d. d)) (verify toy machine 1003 key "AIInterpretation")
unfolding claimed_run
Keeps-verify_example =
    Keeps-verify (Apart claimed_run.1.committed (λ d. d))
      (Apart-IsStable claimed_run.1.committed (λ d. d)) toy machine 1003 key "AIInterpretation"
