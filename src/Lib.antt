-- ===== src/Lib.antt =====
-- The licensing master: a service that licenses a product's devices, tenant by tenant. An operator
-- keeps tenants, subscriptions, payments and batch tokens; a device is activated against a batch
-- token, gets a signed configuration, and renews its window by heartbeats; a product's back end asks
-- whether a device may run. The code is licensing-master/src, use cases as plain functions over one
-- database connection, each run in a transaction by the routers.
--
-- Files and code.
--   Tables         licensing-master/src/tables.py: one record for each table, `Db` for all of them.
--   Exec           licensing-master/src/db.py and errors.py: a use case is `World → Result A × World`,
--                  a raise keeps what was written until `transaction` rolls it back. `Env` is what the
--                  code takes from outside. Exec/Returns, Exec/Keeps and Exec/Succeeds hold the rules
--                  for postconditions, invariants and certain results.
--   Signer         licensing-master/src/signer.py and `_device_config`.
--   Service/Rows   the row lookups, the statements and `_audit` of licensing-master/src/service.py;
--                  Service/Outcomes has what they return where they find what they ask for.
--   Service/Seats  `_consume_seat`, `_ensure_tenant_seat`, `_release_seat`.
--   Service/Activation  `_do_activate`, `cp_activate`, `public_activate`, `_activation_result`.
--   Service/Devices     `admin_revoke_device`, `admin_reinstate_device`, `cp_release_seat`,
--                       `cp_consume_seat`.
--   Service/Status      `cp_status`, `cp_heartbeat`, `cp_verify_device`, `cp_verify_token`,
--                       `cp_subscription`, `cp_seat_limit`.
--   Service/BaseUrl, Service/Detail, Service/Tenants, Service/Lifecycle, Service/Billing
--                  the admin use cases.
--   Service/Accounting  what a batch token has consumed, against the devices booked on it.
--   Service/Ownership   which tenant a subscription, a token and a device belong to.
--   Service/Soundness   both, use case by use case; Routers/Soundness, request by request.
--   Service/Races       bookings at the same time: the calls of `_do_activate` as steps.
--   Limiter        `FailureLimiter` of licensing-master/src/ratelimit.py. Limiter/Specification is an account
--                  of each key by itself, which Limiter/Refinement compares with the dictionaries.
--   AdminAuth      passwords, one-time codes, sessions, `login` and the accounts of
--                  licensing-master/src/admin_auth.py; `AuthEnv` is what that file takes from outside.
--   Identity       licensing-master/src/auth.py: the session cookie, the service token, the guard against
--                  cross-site requests.
--   Routers        licensing-master/src/routers.py: the routes behind a failure limiter; Routers/Replies is
--                  the envelope with errors.py and main.py, Routers/Routes the use case of each route,
--                  Routers/Serve a request from its headers to its reply.
--   Config         licensing-master/src/config.py: what is checked at the start, and what the rest takes.
--   CommandLine    licensing-master/src/cli.py: the operator's commands.
--   Examples       a small database, and the theorems at work on it.
-- A definition has the name of its function without a leading underscore. Where a function branches on
-- a row that it found, the branch is a helper by clauses.
--
-- How the code's values are read. A table is the list of its rows, and `first`, `count`, `update` and
-- `delete` of Base/Rows are SELECT, count(*), UPDATE and DELETE with a condition. A time is a number of
-- microseconds; `_days_remaining` floors a float in the code and an exact quotient here. The tables'
-- sequences are one counter, `serial`. A figure that a CHECK keeps at zero or above is a natural
-- number, and what the CHECK would refuse raises. The clock and the random source answer the n-th
-- question by a function of n, with nothing known of that function. A missing key of a body raises
-- what Python's KeyError ends as. Recursion is on lists and texts, so nothing needs fuel.
--
-- What a column refuses raises where it is modelled: the target of the audit log, the texts of
-- device_activations, the amount and the texts of payments and the name of a service token. The actor of an
-- audit entry is an e-mail or a slug, which fits. The widths of tenants, subscriptions and the note of
-- a batch token are not modelled. A payment or an activation whose window ends after the year 9999 raises;
-- elsewhere windows are taken to end before.
--
-- Not modelled. Interleavings of transactions other than those of Service/Races, where each call
-- books a device that has no row or a revoked one: elsewhere a use case runs alone, so the row lock of a reinstatement
-- has no effect. FastAPI's matching of paths and parsing of bodies, pydantic's reading
-- of the environment, the printing of the command line, the migrations and the portal.
-- The prose of error messages is left out, and with it the context of an error.
pub mod Base
pub mod Tables
pub mod Exec
pub mod Signer
pub mod Service
pub mod Limiter
pub mod AdminAuth
pub mod Identity
pub mod Routers
pub mod Config
pub mod CommandLine
pub mod Examples
