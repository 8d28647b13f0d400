-- ===== src/Lib.antt =====
-- A model of the backend of AI-oas (backend/src/ai_operations_automation): the intake of service
-- requests, the authentication of a human by a bearer token and its query of a service request, the
-- authentication of a workflow service by a signed request, the commands by which it starts an AI
-- interpretation of a service request and claims the attempt that this opens, the idempotency that
-- both are built on, and the authorization of the callback that ends the attempt, with the routes
-- of the intake, the query and the commands. Paths below are relative to
-- backend/src/ai_operations_automation.
--
-- How the parts interact. The intake route checks the key, the content type and the body, and gives
-- a body that it refuses to `process_rejected` and another one to `process_valid`. The latter
-- looks for the key, and answers a known one with a replay or a conflict; for a new one it writes
-- the request, its delivery, contact, events and the accepted key in a second transaction, and
-- looks again when an insert meets a constraint. A human shows a token: the verifier finds the
-- signing key in its cache or loads the keys again, the subject must be an active actor with one
-- role in effect, and then the request is read. The request of a workflow service is first
-- authenticated: its target is brought into a canonical form, its signature is compared with the
-- HMAC under the secret of a credential, and its nonce is recorded, in a transaction of its own. A
-- command route parses the key, the body and the identifier of the path, hashes the command, and
-- runs it in one database transaction. The command reserves its idempotency key
-- (command_idempotency/service.py), which gives the completed result of the key or a new
-- reservation. With a reservation it reads rows, decides, writes rows with their audit events and
-- outbox message, and completes the reservation with a status and a safe snapshot. A refusal is
-- completed in the same way, and the route raises it from the snapshot. The verifier of a callback
-- reads the rows that these commands wrote, in a transaction of its caller.
--
-- Files.
--   Base, Json, Errors: shared names with lemmas on lists and text; JSON values; intake/errors.py
--     with the exceptions that the services see.
--   Platform: hashlib, hmac, json, uuid, the clock, str.casefold, str.upper, str.lower, str.isspace
--     and datetime.isoformat, as a parameter.
--   Models, Tables: db/models, a record for each row, with the CHECK and the unique constraints as
--     tests; the database as a list of rows for each table.
--   Tested: what a Boolean test decides, and the rows that a query lets through (lemmas).
--   Session: one SQLAlchemy session as a state, with statements that the database may fail,
--     savepoints, commit and rollback; Session.Reason, Statements, Committing, Reading, ReadOnly
--     and Raising have the rules for proofs about it.
--   Rows: the inserts and updates of the commands, with constraints and foreign keys.
--   Intake: intake/service.py (New, Service, Rejecting, with the inserts in Rows), the validated
--     payload of intake/models.py with its hash of intake/canonicalization.py (Payload), and
--     intake/normalization.py (Phone); Keep, Ledger, Made, Refined, Again, Failing, Logged and
--     Phone.Laws are proofs.
--   Auth: auth/verifier.py (Verifier), auth/dependencies.py and auth/permissions.py (Human);
--     below Verifier, Laws, Saying, Accepting, Rotating and Escaping, and Entitled and Admitting are
--     proofs.
--   ServiceRequests: service_requests/query.py and models.py, api/service_requests.py and
--     api/correlation.py; Laws, Shown and Refusing are proofs.
--   MachineAuth: machine_auth/canonicalization.py (Percent, Path, Utf8, Query, Signing) and
--     machine_auth/authenticator.py (Headers, Authenticator). Below them, Laws, Escapes, Lines,
--     Fields, Quoting, Sorting, Scalars, Stamps, Verdict, Named, Genuine, Once, Retained, Refusals
--     and Failing are proofs.
--   Identity: machine_auth/models.py and the settings that the commands read.
--   Idempotency: command_idempotency/keys.py, snapshots.py, models.py and service.py (`reserve`,
--     `_find`, `_classify`, `_result` and `complete`).
--   Outcome: the outcome of a command and the steps that both commands share.
--   StartAi: start_ai/service.py (Service, Guard, Rows), hashing.py and credentials.py (Hashing).
--   AttemptStart: attempt_start/service.py (Service, Verdict, Rows); what is proved of the commands
--     stands in StartAi.Commands, AttemptStart.Commands, Checks, Conditions, Histories, Eligible and
--     Claimed.
--   Callback: attempt_callback_auth/verifier.py, headers.py and models.py; its proofs in
--     Current and Authority.
--   Api: api/intake.py (Intake), api/start_ai_interpretation.py (StartAi), api/attempt_start.py
--     (AttemptStart), what both command routes share with start_ai/parsing.py,
--     attempt_start/parsing.py and command_idempotency/canonicalization.py (Commands), and the
--     headers, the content type and the answer to an error (Transport); Commands.Parts,
--     Intake.Answering, Intake.Answered, Intake.Once, StartAi.Again and AttemptStart.Again
--     are proofs.
--   Tests: a platform that computes, a run from the first command to an authorized callback, calls
--     of the routes, and the theorems at these runs.
--
-- Conventions. A UUID is a number; `drawn` of a session counts the calls of `uuid.uuid4`. A time is
-- a number of microseconds, and `now()` is constant in a transaction, as in PostgreSQL. Text that
-- is taken apart is a list of code points. Python's integers that are read here are not negative:
-- the tables and the request models refuse others. A list of faults in the session says which of
-- the coming statements the database fails, and how. `peer` is what other sessions commit between
-- the look-up and the insertion of a reservation, before the insertion of a nonce, or before the
-- writes of a new intake, any function on the database. The clock is read by `utc_now` of the
-- platform. The state of the token verifier is kept beside the session. Bytes that are taken apart
-- are a list of numbers. All loops are over finite lists, so no fuel is needed.
--
-- Not modelled. Row locks: a transaction runs here as a sequence, and other sessions act only where
-- `peer` says. The order of rows, on which no result depends. The SAVEPOINT commands, which fail
-- with the statement that they enclose. Columns that no modelled result needs (created_at and
-- updated_at of a request, occurred_at, leases). The routing with its OpenAPI schemas, the app
-- factory, the settings from the environment, the health route, and the migrations, whose tables
-- db/models describes. PyJWT and the load of the keys over the network, pydantic's validation of a
-- body and of a response, and email.message are parameters. The pydantic validators of the intake
-- but for the normalization of a phone number, and the digests of its key and body, have no model.
-- `request.body()` and the exceptions of a secret resolver other than MachineSecretUnavailable are
-- left out.
pub mod Base
pub mod Json
pub mod Errors
pub mod Platform
pub mod Models
pub mod Tables
pub mod Tested
pub mod Session
pub mod Rows
pub mod Identity
pub mod Idempotency
pub mod Outcome
pub mod StartAi
pub mod AttemptStart
pub mod Callback
pub mod Auth
pub mod ServiceRequests
pub mod MachineAuth
pub mod Intake
pub mod Api
pub mod Tests
