-- ===== src/Lib.antt =====
-- The verification library of GetVul's backend.
--
-- The backend keeps, per tenant, the findings that vulnerability scanners report, and computes from
-- them. Each part below is a module here; paths are from the repository's root.
--   Models       backend/app/vulnerabilities/models.py: the columns of a finding.
--   Correlation  backend/app/vulnerabilities/correlation_service.py: `run_correlations` groups the open
--                findings by (CVE, asset), upserts a row per pair with two sources and deletes the
--                stale rows; `get_correlation_for_vuln` reads one. `order` is the query's ORDER BY.
--   Risk         backend/app/vulnerabilities/risk_exposure_service.py: `score_finding` over float
--                operations that are a parameter (`Floats`), the built-in `sum`, compensated from
--                Python 3.12 on, included. The laws that the bounds and the monotonicity use are
--                `Risk.Order.IsFloats`. The display texts are left out.
--   Recompute    `compute_finding_risk_scores` of the same file, which reads the correlations and
--                scores a tenant at once, and backend/app/vulnerabilities/risk_backfill_service.py,
--                which does so in chunks: `enqueue_backfill_job`, `process_backfill_chunk`, and
--                `ticks`, a sequence of the scheduler's calls for one tenant.
--   Sla          backend/app/vulnerabilities/sla_service.py: due dates, breaches and counts. An
--                UPDATE is a pass over the list of rows.
--   Encryption   backend/app/encryption.py: `verify_credentials` and `rotate_credentials`. Fernet,
--                the codec and the JSON module are `Crypto`, their laws `Encryption.Scan.IsCrypto`.
--                A `Session` has the store as committed and as the session sees it.
--   Password     backend/app/auth/password.py: policy, change and reset. bcrypt and the character
--                classes are `PasswordLib`; both of bcrypt's functions may raise.
--   Access       the same file's `register_user` and `login_with_password`, and
--                backend/app/auth/rbac.py: the role check.
--   Ticketing    backend/app/ticketing/rule_engine.py (`Matching`: the assets that a rule selects;
--                `Rules`: one rule, and below it the scheduler's round) and
--                backend/app/ticketing/service.py (`Create`: tickets for an asset and for a
--                remediation; `Close`: the sync with the providers, and closing by hand).
--                What the providers answer is `Providers` and `Clients`, and the credentials are
--                decrypted; that a new ticket's reference is fresh is taken for granted, so that
--                the unique constraint on the rows does not come into play. The texts of a
--                ticket are left out.
--   Cutover      backend/app/vulnerabilities/risk_cutover_service.py, with
--                `dispatch_backfill_chunks` for one tenant: a tenant's way from the legacy score
--                to the exposure score. SHA-256 and the rounded percentage are `CutoverLib`.
--   Session      backend/app/auth/jwt.py, backend/app/auth/dependencies.py and the tokens of
--                backend/app/auth/service.py, and the forced rotation of
--                backend/app/auth/router.py. The JWT library is `Jwt`, its law
--                `Session.Refresh.IsJwt`; strip, casefold and the ratio of difflib are `TextLib`.
--   Exposure     backend/app/assets/exposure.py: inference, precedence, and the recomputation of a
--                tenant; `Groups`: backend/app/assets/groups_service.py and the group overrides of
--                groups_router.py. `lower`, `strip` and the test for a text in a text are `Exposure.Texts`.
--   Connectors   backend/app/connectors/sync.py: the loops of `run_sync` over what a connector reports
--                (`Batch`), the upserts (`Assets`, `Findings`) and the stored error (`Sanitize`), with
--                backend/app/assets/classification.py (`Classification`). Python's functions are
--                `Python`. Where a value does not fit its column (the widths are those of the
--                models), the upsert raises and the loop ends.
--   Explain      backend/app/ai: `_run_explain_stream` of explain.py, with the budget, the guard and the
--                cache of budget.py and cache.py and the checks of schemas.py. A run has one or two
--                calls of the vendor, whose answers are arguments, as is whether the audit of an
--                accepted answer raises; what is not the backend's is `Assistant`.
--   Alerts       backend/app/notifications/alerts.py: the checks that write a tenant's alerts.
--   Prelude      names and lemmas that the parts share.
--
-- A UUID is a number, a time a number of seconds, a table a list of rows, a transaction a function
-- from one state to the next: outside Encryption a rollback returns the state that it got. The random and the external
-- (salts, tokens, keys of rows, ORDER BY) are arguments. No definition runs on fuel: every loop of
-- the source runs over a list. The number of ticks is the length of a list of times; a chunk scores at
-- least one finding, so one tick more than there are pending findings is enough.
--
-- Not modelled: several workers on one backfill at once, the display figures of the SLA metrics,
-- the sending of mail, the command line of the key rotation, the lists and statistics of
-- tickets, the vendors' clients, the rest of `run_sync`, the legacy score
-- of assets, the sync of directories and managed devices, AI prompts and
-- batches, cloud posture, the lists and mails of notifications, the other routes and the
-- frontend.
pub mod Prelude
pub mod Models
pub mod Correlation
pub mod Risk
pub mod Recompute
pub mod Sla
pub mod Encryption
pub mod Password
pub mod Access
pub mod Ticketing
pub mod Cutover
pub mod Session
pub mod Exposure
pub mod Connectors
pub mod Explain
pub mod Alerts
