-- ===== src/Lib.antt =====
-- A model of rpa_platform and of the job queue beside it. The platform hands tasks out to robots, each
-- of which carries out a flow of steps in a browser; forms create the tasks, people resume those that
-- wait for them, and workers on other machines take part over a WebSocket. The queue is an older
-- program with one worker thread, for groups and messages.
--
-- The parts, and the files that model them:
--
--   Prelude             what the other modules share: tables as lists of rows with the statements of
--                       SQL that occur (Tables), Python's methods on texts (Text), exceptions as
--                       values (Errors), JSON documents (Value), calls and messages as a log beside
--                       the result (Logged).
--   Domain.StateMachine rpa_platform/domain/state_machine.py: the statuses and ALLOWED_TASK_TRANSITIONS;
--                       Graph has what can be reached.
--   Domain.FlowSteps    rpa_platform/domain/flow_steps.py: validate_steps; Steps and Rules have what it
--                       lets through.
--   Domain.Redaction    rpa_platform/domain/redaction.py: redact_context and its masks.
--   Store               rpa_platform/storage/sqlite_store.py: Rows has the tables, Exec a method as a
--                       function on the tables that returns or raises, `transact` its connection.
--                       Context is _deep_merge, Flows the templates and versions, Tasks the tasks
--                       with Records, Resumption and Detail, Robots the robots and the claims.
--   Integrations        rpa_platform/integrations: Jdy (jdy_admin_client.py) and Wecom
--                       (wecom_admin_client.py), each method as its requests and the reading of their
--                       answers. The transport is an argument.
--   Services.Bind       rpa_platform/services/wecom_bind_service.py, with the calls that it makes;
--                       Online puts the two clients of Integrations behind it.
--   Services.Preflight  scripts/dev/check_wecom_bind_real_readonly.py: run_readonly_preflight.
--   Services.Write      scripts/dev/run_wecom_bind_real_write.py: the binding that keeps its context in
--                       a file.
--   Worker              rpa_platform/worker: Scheduler (scheduler.py), Runner (runner.py), Login
--                       (login_health.py), Hybrid (hybrid_runner.py) and BindRunner
--                       (wecom_bind_runner.py) call the store's methods; Ends has what the runs of the
--                       last two end in. Runtime (c360_worker_runtime.py), TaskHandlers
--                       (c360_task_handlers.py, simulated_handlers.py), Dispatch (the parts of a
--                       dispatch that both read) and ClientConfig (c360_worker_client.py and
--                       websocket_worker.py) are the worker on another machine. RecoveryHandler
--                       (wecom_bind_recovery_handler.py) is one of its handlers, and LoginRecovery
--                       (wecom_login_recovery.py) is what that handler runs, by way of
--                       RealRecovery (wecom_bind_real_recovery.py); UnattendedWrite
--                       (wecom_bind_unattended_write.py) is the write that may follow, and its Lock has
--                       the interleavings of several such writes as a step relation. Diagnostics is
--                       diagnostics.py.
--   Protocol            rpa_platform/worker/websocket_protocol.py (Envelopes) and websocket_client.py
--                       (Client).
--   Server.Webhook      rpa_platform/server/webhook_service.py, which creates tasks.
--   Queue               database.py (Jobs and Control) and queue_worker.py (Worker).
--   Samples             concrete inputs for the theorems.
--
-- A definition has the name of the function, method or class that it models. A method that reads the
-- clock or makes a uuid has the text as an argument, in the order of the reads; a callback, a probe, a
-- transport or a workflow is an argument too. Times are texts, compared as SQLite and Python compare
-- them; the recovery of a login counts its seconds. A method of the store runs as one step: `transact`
-- keeps the tables as they were if it raises, as the connection's `with` block does. The claim runs
-- under BEGIN IMMEDIATE, so that the claims of several robots are a sequence of such steps, in any
-- order. The constraints of the schema raise where the code relies on them. The functions recur on
-- their data and need no fuel, but for the decimal digits of a number, where the number plus one is
-- enough. The loop of the login recovery has a number of rounds, as in the code, and the loop of the
-- worker's runtime runs over the messages until the transport has none.
--
-- Not modelled: the desktop automation of RPA.py and whatever else drives a browser or the desktop;
-- the Flask routes; the transports, the cookie files and the notifiers, which are network and file
-- I/O; the command lines of the two scripts of scripts/dev; a failing write to a file;
-- send_diagnostics of websocket_client.py; logging, threads and sleeps outside of the login
-- recovery; the tools for packaging, migration and trials by hand. The regular expressions of
-- diagnostics.py and redact_string are an argument, as is Python's int() on values other than
-- numbers, and the `repr` that `str` makes of a list or a dict. Of `str.lower` the model has what a
-- test on words of ASCII letters can see.
mod Prelude
pub mod Domain
pub mod Store
pub mod Queue
pub mod Worker
pub mod Protocol
pub mod Server
pub mod Integrations
pub mod Services
mod Samples
