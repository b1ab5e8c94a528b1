-- ===== src/Lib.antt =====
-- SINEDIS Bitrix24 Automation: the durable queue behind three robots of Bitrix24 workflows.
--
-- A portal's workflow calls a robot (app/api/robots.py); a service (app/jobs/service.py) checks the
-- portal's application token and stores one row per event token (app/jobs/repository.py). A worker
-- claims due rows under a lease and hands each to the processor (app/jobs/processor.py), which pauses,
-- calls a REST method or polls a CRM field, and answers the workflow through the portal's REST
-- interface. Each call goes through the OAuth service (app/bitrix/oauth.py), which refreshes the
-- portal's tokens, and the client (app/bitrix/client.py), which classifies the answers. An installation
-- (app/api/installation.py) registers the robots with a portal (app/bitrix/registration.py) and stores the
-- portal's row, which the callbacks are checked against; a removal makes the row inactive. The buttons of
-- a deal (app/api/workflow_buttons.py) start workflows of the portal, under guards against repeated launches.
--
-- Prelude: Boolean tests, lists, integers and text. Value: JSON values and dictionaries.
-- Time: instants and durations in microseconds, with the limits of `datetime`.
-- Settings: app/config.py, the fields that are read. Portals: app/models/portal.py.
-- Jobs.Model: app/models/job.py. Jobs.Repository: each method of `AutomationJobRepository` as a
--   function of the table, named as the method; Order and Claim on the claims.
-- Jobs.Operations: the methods as operations in any order; Rows, Lookup, Invariant, Lifecycle, Intake,
--   Progress, Leases.
-- Jobs.Service: `ShortPauseJobService.create` is `create_pause`, `SubscriptionJobService.create` is
--   `create_subscription`; Guards, Acceptance and Promises.
-- Jobs.Processor: Retry (`retry_at`, `_operating_reset`), Persisted (`_validated_data`,
--   `_subscription_data`, `_load`), Outcome (`_retry`, `_failed`, `_expired`, `_notify`,
--   `_deliver_subscription`), ShortPause, RestRequest, WaitField and Dispatch (`process`); Delays,
--   Settled, Finished, Checkpoint, Refinement, Robots and Waiting on them.
-- Jobs.Worker: app/jobs/worker.py (`worker_loop`, on fuel, one unit for a cycle, since the loop ends only
--   at a shutdown) and app/jobs/recovery.py; Refinement on it.
-- Bitrix.Exceptions, Bitrix.Endpoint, Bitrix.Client (Classify, Call; Answers): app/bitrix/client.py.
-- Bitrix.OAuth (Numbers, Refresh, Portal; Traffic, Rejection, Marks, Stored): app/bitrix/oauth.py.
-- Bitrix.Tokens, with Keys: app/bitrix/security.py.
-- Robots.Payload (`_nested_copy` and the checks), Robots.Payload.Normalize (the three normalisations):
--   app/robots/payload.py; Brackets, Notation and Forms on the two notations, Bounds, Recipients and
--   Requests on what is accepted.
-- Robots.Callbacks: app/api/robots.py; Fulfilled and Due on the answers.
-- Api: `read_callback_mapping` and what a handler answers.
-- Bitrix.Registration: app/robots/base.py and the functions of app/bitrix/registration.py; Service: its
--   class and app/bitrix/workflow_fields.py; Portals: app/bitrix/register_extensions.py.
-- Robots.Definitions, Robots.Registry: the other files of app/robots.
-- Installation.Payload: app/bitrix/payload.py. Installation.Service: app/api/installation.py, where the
--   guards of `uninstall` are `confirm`; Steady and Effects on what the calls leave alone, Rows on the
--   table of portals, Lifecycle, Removal, Answers and Callbacks on the two handlers.
-- Buttons.Model: app/models/workflow_button.py. Buttons.Limits: the validators of `ButtonSettings`.
--   Buttons.Launches: the decisions of `launch` and `release` of app/api/workflow_buttons.py as functions
--   of the rows; Reservation (Serial, Exclusive, Flight, Trace, Release, Requests): the writes of all
--   requests in any order. Buttons.Handlers: `actor`, `validate_field`, `save`, `config`; Launch:
--   `launch`, `release`, `journal`; Refinement and Authority relate them to these writes.
-- Database: app/database.py, the engine and the session factory of the process.
-- Security.Encryption: app/security/encryption.py; Rotation on the change of keys. Security.Patterns: the
--   part of `re` that is used. Security.Redaction (texts and keys), Security.Logged (objects and the
--   filter), with Secrecy: app/security/redaction.py.
-- Runtime: exceptions as values and the world that a coroutine changes. The clock, the servers and the
--   random source are functions of the number of questions asked before, so that every schedule of
--   answers is covered; Contracts has the rules for what holds after a run, Results those of plain
--   functions, Integers what `int` reads, Samples small worlds.
--
-- Conventions. A transaction on the jobs is atomic and succeeds: an error of the database itself
-- (`SQLAlchemyError`), which would leave the worker's loop where it recovers or claims, is not modelled. The
-- clock is read where the code reads it. The session of a button's request is one transaction from the first
-- read of `actor` to its first commit, whose start is the time of the rows it adds.
-- Durations in seconds are held in microseconds, floats in millionths. Identifiers are numbers, and
-- print in decimal where the code prints a UUID. Text is exact below U+0100. Parameters are the parts
-- of the Python library and of packages: `urlsplit`, HTTP dates, `fromisoformat`, `json.dumps`, `str` of objects
-- and `%` formatting, JSONPath expressions, HMAC, SHA-256, Fernet and the Unicode table of `isalnum`. The row order of equal keys is the table's.
-- All functions are total; only the worker's loop runs on fuel, and its theorems hold for every amount.
--
-- Left out: the configuration of logging, `error_description` (only logged), HTTP time-outs and limits, the
-- construction of the worker's resources, the routing of requests and the validation of their bodies by
-- the framework, the static pages of the buttons and the migrations.
mod Prelude
pub mod Value
pub mod Settings
pub mod Portals
pub mod Jobs
pub mod Runtime
pub mod Time
pub mod Bitrix
pub mod Security
pub mod Api
pub mod Buttons
pub mod Installation
pub mod Robots
pub mod Database
