-- ===== src/Lib.antt =====
-- A model of the back end of homeinfra-control-center, a service that watches the machines of a
-- home: it keeps users and sessions, an inventory of groups and devices, the records of what was
-- collected from the devices, alerts and an audit log, and it serves them over HTTP.
--
-- Parts, and the files that model them. Every state-changing method of the program runs as a
-- mutator inside `store.update`; a mutator is an `Action` of Effects.antt here, a function from the
-- state to a result and the state that it leaves, also where it raises.
--   Prelude      Boolean tests, list operations with their lemmas on counts, integers, text
--   Errors       homeinfra/errors.py: the exceptions (`Error`) and their status
--   Model        Json: request bodies and payloads; State: the rows of the tables of
--                homeinfra/persistence.py and the state dictionary; Store: `update` of `SQLiteStore`
--                and of `MockStore` (homeinfra/mock_data.py); Store/Tables: the statements that
--                write the state back, and the reading of it; Metrics: the counters
--   Ids          `_next_numbered_id` of homeinfra/auth.py and homeinfra/monitoring.py, with
--                `int(...)` and the format `05d`; Decimal and Fresh are its theorems
--   Auth         homeinfra/auth.py. Validation: the `_normalize_…` methods. Users, Sessions,
--                Operations: the `_…_mutate` methods under the same names. Requests: the methods as
--                one type of requests. Limiter: the table of failed logins and `login`. Access:
--                roles and permissions. Invariant, Tokens, Logins, Limiter/Lockout,
--                Limiter/LoginCalls and Access/Grants hold the theorems
--   Monitoring   homeinfra/monitoring.py. Thresholds and Smart: the two evaluators. Alerts:
--                `_reconcile_alerts` and what it calls, and `resolve_alert`. Collections: `_collect`
--                and the two `_apply_collection_…` methods. Schedule: `run_scheduled_collection`.
--                Public: what is shown of a device. Groups and Devices, each with a Form for the validation of a body: the methods
--                that create, update and delete. Lookup, Slug, Observable, Values: helpers.
--                Inventory: the methods on groups and devices as one type of requests.
--                The theorems are in the child modules that carry their subject as a name
--   Operations   homeinfra/operations.py: settings and `cleanup_retention`; Cleanup: its theorems
--   Audit        homeinfra/audit.py; Fresh: its theorem
--   Parsers      homeinfra/parsers.py, one function for each of the file, under the same names (parse_df
--                for `parse_df_P_B1`). Text
--                and Numbers: what they use of Python's text, `int`, `float` and `round`; Tables:
--                rows and lists of rows; System, Cpu, Network, Links, Disks, Raid, Zfs, Btrfs, Usage
--                and Proxmox: the parsers. Cpu/Bounds, Raid/Alerting, Disks/Alerting and
--                Usage/Headings hold the theorems
--   Collectors   homeinfra/collectors.py. Commands: the commands that may run; HostKeys: the file of
--                known hosts; Retry: the pauses; Connect: the arguments of a connection; Execute:
--                the three collectors, with the loop of attempts. HostKeys/RoundTrip, Retry/Delays
--                and Execute/Attempts hold the theorems
--   App          homeinfra/app.py. Requests: the parameters of a request; Routes: the endpoint of a
--                method and a path, and the permission it asks for; Sanitize: what a body leaves
--                in the log; Dispatch: `dispatch_api`, and in its child Handle
--                `handle_api_request`; Startup: the counters and the verification of a new device.
--                Dispatch/Guards and Sanitize/Clean hold the theorems
--   Samples, Tests   concrete data, runs of the models, and the theorems applied to them
--
-- How they interact: a collection reads the device table, runs the collector, and in one update
-- pushes a record, writes the status of the device and reconciles its alerts; a cleanup reads the
-- alerts to know which records to keep; deleting a group or a device writes to devices, records
-- and alerts; a login reads the table of failures before the store and writes it afterwards. A
-- request is routed by App to one of these methods once its permission is checked; what the
-- parsers make of the output of a collector is the payload that the checks of Monitoring read.
--
-- Conventions. Text is a list of code points; case is folded on ASCII letters and digits are the
-- ASCII ones. `utc_now` counts microseconds and a stored time is the whole second that
-- `isoformat` prints. Each call of the clock is an argument of its own. A message is the text
-- of the source, with `{}` where a value stands; the title and the message of an alert are kept
-- as their parts. A dictionary that a validation builds is a record of options, `none` being a
-- missing key. Recursion is structural everywhere but in the decimal digits of a number, whose
-- fuel is the number itself: each round divides by ten, so that it is enough.
--
-- Parameters. `Crypto` stands for hashlib, the test of `sqlite_database` for the
-- statements that SQLite refuses, the run of
-- a `Runtime` for the collector service, and the parser of `run_scheduled_collection` for
-- `datetime.fromisoformat` on texts that came with a request. `loads` stands for `json.loads`, `str_of`
-- for `str` of a JSON value, `Connect` for the SSH library, `Host` for the files and the environment of
-- the machine, and `Services` of App for the methods behind an endpoint. Nothing is assumed of them but,
-- where a theorem says so, that a service that only reads keeps the state.
--
-- A float is an exact decimal or a quotient, rounded half to even where the source rounds; `inf` and
-- `nan` are no numbers here. A delay is a number of milliseconds and its multiplier is whole. The
-- attempts of a collector are bounded by the retries, which are the fuel of their loop.
--
-- Not modelled: the socket handler, the headers and the static files of homeinfra/app.py, and
-- homeinfra/api.py; homeinfra/collector_service.py and homeinfra/contracts.py; the schema,
-- the migrations and the seeds of homeinfra/persistence.py; the views (`overview`, the lists, and the keys
-- of `_public_device` that repeat the latest record);
-- homeinfra/metrics.py, homeinfra/risk.py and homeinfra/alerts.py; the demonstration data; log lines;
-- and the threads: locks make each method one step.
mod Prelude
pub mod Errors
pub mod Effects
pub mod Model
pub mod Ids
pub mod Auth
pub mod Monitoring
pub mod Operations
pub mod Audit
pub mod Parsers
pub mod Collectors
pub mod App
pub mod Samples
pub mod Tests
