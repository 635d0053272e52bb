-- ===== src/Lib.antt =====
-- A verification library for the greffer: the worker node that runs greffons (docker compose
-- applications) for a manager.
--
-- The parts that are modelled and how they interact. When the manager starts an instance, the
-- node gives each of its L4 endpoints a host port (apps/utils/greffon/repository.py): under one
-- lock it asks the docker daemon what is published, prunes the process's pending reservations
-- (apps/utils/docker/l4_ports.py), reuses or picks a port per endpoint and writes the choice to a
-- sidecar of the instance (apps/utils/greffon/sticky_ports.py). Before the server starts at all,
-- app/cli.py applies the pending migrations of the on-disk state
-- (apps/utils/ops_migrations/), which the exit code gates. Then the workers run: the watchdog
-- restarts a node whose readiness stays fatal, and the monitor reports status transitions to the
-- manager. An update of the node itself runs in a container of its own (cli/greffer_cli/updater/).
--
--   Prelude     Boolean tests, lists, texts, dictionaries in insertion order and integers
--   Ports       Free: `lowest_free_port`; Daemon: `published_l4_ports`; Pending: `_pending`,
--               `pending_and_prune`, `mark_pending`, `_pending_ttl_seconds`; Sticky: `load` and
--               `save`; Allocate: the L4 half of `get_greffon_info`, an action on the loop's
--               state (`Progress`) inside a step of the node (`Node`)
--   Migrations  Base: `Migration`, `Result`; Registry: `register`, `all_migrations`; Ledger:
--               `Ledger.load`, `mark_applied` and the legacy shim; Runner: `_run_single`; Batch:
--               `apply_pending` and the exit code of `_apply_ops_migrations`
--
--   Workers     Readiness: app/readiness.py; Watchdog: app/workers/watchdog.py; Monitor:
--               app/workers/monitor.py and status_collect.py, with the manager's answers as a
--               function; Heartbeat: the loop of app/workers/heartbeat.py, the reuse of the
--               monitor's sweep and the CPU share
--   Updater     Gate: `health_gate` of cli/greffer_cli/updater/gate.py and `parse_readyz`;
--               Version: `version_tuple`, `is_downgrade`, `below_floor` of
--               cli/greffer_cli/update.py; Engine: `run_remote_update` and `_rollback` of
--               cli/greffer_cli/updater/engine.py, over a trace of the changes to the host;
--               Host: `run_update` of cli/greffer_cli/update.py up to its first change of the
--               host, with its reads of the node as a record
--   Renewal     app/workers/cert_renewal.py. Renewal: the ledger of owed confirmations and the
--               backoff; Serial: `_same_serial`; Mint: `_mint`; Report: `_report`; Instance:
--               `renew_one` and `_renew_locked`; Pass: `renew_all`; Worker: its delays. The
--               world is a function of the acts and readings before; Owed and Seen say what
--               can be told from these acts
--   Backup      app/backup.py. Mounts: `_hot_backup_mounts`, the classes of restic's errors; Job: the
--               variables of a restore job, its calls and exceptions; Restore: `restore_instance`,
--               over the list of what the job did. Its child modules prove what stands before an
--               overwrite and how the job ends. Locks: the instances' locks and the handoff with
--               the wrapper of the control operations (app/routers/controller.py), and steps of
--               the threads that take, reserve and release them. Artifacts and
--               Snapshot: `backup_instance`, cold and hot, with `_dump_and_backup`; Boot:
--               `reconcile_on_boot`
--   Controller  `track_compose_child` and `compose_inflight` of app/routers/controller.py
--   Limits      `check_limits_observed` of apps/utils/docker/limits.py with its rate limit
--
-- Each component's own file has its definitions, its child modules the proofs, and a module Tests
-- the runs at concrete inputs. A Python exception is a value: `none`, `raise` or a constructor of
-- an error type; what the code had changed before it is in the state that is returned.
--
-- Bounds: numbers are natural numbers of any size, as in Python. The loops are over lists, or over
-- a range whose length is written out; a worker's loop is over the list of its wake-ups. Only
-- `health_gate` runs on fuel: one round more than there are clock ticks from its first reading to
-- the deadline, which is enough as each round starts later than the one before. Clocks count ticks
-- (half seconds in Renewal, seconds on the wall clock), and CPU use is in percent.
-- `_await_serial` has one round more than there are ticks in its settle time.
--
-- Parameters: what docker, cosign and the manager answer, the clocks, the bodies of migrations and
-- whether a file can be written are arguments. A lock is the order of the calls that hold it;
-- only Backup.Locks has the instances' locks themselves, taken and released step by step.
--
-- Not modelled: sockets, subprocesses, the text of JSON and YAML files, logging, HTTP and the
-- terminal; the heartbeat's payload, registration, the maintenance of backup repositories, the
-- handlers of the control operations, the compose driver, the create argv of a recreated container
-- and the install CLI.
pub mod Prelude
pub mod Ports
pub mod Migrations
pub mod Backup
pub mod Controller
pub mod Limits
pub mod Renewal
pub mod Updater
pub mod Workers
