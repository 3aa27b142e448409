-- ===== src/Lib.antt =====
-- Verification library of PowerBlockade, a DNS filter of one primary and its secondaries. The primary
-- (admin-ui) keeps the blocklists, renders them into response policy zones, and serves them to the
-- secondaries; a secondary runs sync-agent, which sends heartbeats and metrics, takes the zones over and
-- executes commands. The definitions here are translations of that Python code.
--
-- Parts, with the files of the repository:
--   Nodes       a node's row and its status: admin-ui/app/models/node.py, routers/node_sync.py
--               (register, heartbeat, and what ingest and metrics write), routers/nodes.py,
--               node_state_transitions_job of services/scheduler.py. Nodes.Table has the table and
--               the requests that look a row up, Nodes.Lifecycle sequences of events.
--   Rpz         lines of blocklists to domains, and domains to zones: services/rpz.py. Rpz.Domain is
--               about one domain, Rpz.Parse about a list, Rpz.Zone about the text of a zone.
--   Blocklists  the tables of lists, their entries and the manual entries: models/.
--   Schedule    time-of-day schedules: services/blocklist_scheduler.py.
--   Filter      from the tables to the files: regenerate_rpz and update_blocklists_job of
--               services/scheduler.py, services/blocklist_manager.py, Filter.Apply for
--               blocklists_apply of routers/blocklists.py, Filter.Scheduled for run_schedule_check.
--   Precache    cache warming and its cache of TTLs: services/precache.py.
--   Burst       the warm burst at boot: services/boot_burst.py. It uses Precache.
--   Versions    check_version_compatibility of routers/node_sync.py.
--   Commands    commands for secondaries: models/node_command.py, routers/node_sync.py, the queueing
--               in routers/blocking.py, and the reports of sync-agent/agent.py.
--   Buffer      the queue of metrics on a secondary: sync-agent/buffer.py and the push in agent.py.
--   Agent       the sync of the configuration, and in Agent.Warming the warming of the cache:
--               sync-agent/agent.py.
--   Bundle      the configuration that the primary serves: config of routers/node_sync.py. It uses Agent.
--   Settings    the settings and their forms: models/settings.py, routers/settings.py.
--               Settings.Warming has the form for cache warming of routers/precache.py, and
--               Settings.Limits is about its limits, Settings.Warmed about what is read after it.
--   Csrf        the check of forms: csrf.py. Csrf.Guarded is about what passes, Csrf.Body about what
--               the application reads and hands out.
--   Sessions    login and the current user: routers/auth.py and security.py.
--   Health      the warnings of the health page: routers/system.py. Health.Page is about the page after
--               the job of Nodes.
--   Rollups     hourly and daily statistics and the dashboard: services/rollups.py. Rollups.Dashboard
--               has the dashboard, the other children theorems.
--   Ingest      queries and counters that a secondary sends: ingest and metrics of routers/node_sync.py.
--               Ingest.Batches is about one batch, Ingest.Replay about a batch that is sent twice.
--   Clients     the devices that ask: models/client.py, their groups (Clients.Groups:
--               routers/client_groups.py), the rules for name servers (Clients.Rules:
--               routers/client_resolver.py) and their names (Clients.Names: services/ptr_resolver.py
--               and the background task of routers/node_sync.py). Ingest uses its rows.
--   Retention   what is deleted of them: services/retention.py. It uses Settings and Rollups.
--   Admin       the tables that an administrator edits, the log of changes and its rollback:
--               routers/blocklists.py (Admin.Lists), routers/entries.py (Admin.Entries),
--               routers/forward_zones.py and services/forward_zones.py (Admin.Zones),
--               routers/audit.py (Admin.Rollback), services/config_audit.py.
--   Blocking    the switch for blocking: routers/blocking.py.
--   Locks       run_with_advisory_lock of services/scheduler.py, as steps of several sessions.
--               Locks.Exclusive is about jobs at the same time, Locks.Progress about locks that are held.
--   Base        Booleans, lists, sets, dictionaries, text, integers and decimals of Python.
-- Each part's module declares the state and the operations, named as in the source; its children hold
-- the theorems, and the child Tests the concrete runs.
--
-- How state is modelled. A table is a list of records, a request or a job a function from the tables
-- before it to those after it, with what it answers; an exception is a value. Python's sets and
-- dictionaries are lists without repetition. Times are natural numbers, in microseconds unless a file
-- says otherwise, and are passed in; so is the local hour, minute and weekday of a schedule.
--
-- Assumptions. Text is compared, stripped and lowered as ASCII; a line of a list holds no line break.
-- Integers of Python are unbounded, and so are those here. Minutes in settings are not negative. The
-- database is Postgres with its session in UTC: a DateTime column without a zone is read back without
-- one, and a value that is too long fails the transaction. Downloads, DNS exchanges, the ranking of
-- pairs, the clock, the jitter, checksums, the hash of a text in a process, the order of
-- names, password hashes, the reading of a form and random tokens are parameters. A body has a last
-- message. Writing a file does not fail. Frequencies do not reach behind the year 9999. A row is never
-- older than the epoch: a cutoff of the retention before it is 0, and one before the year 1 the
-- exception that it is. A round of pushes is not cut off between its posts and its delete; an unlock
-- does not fail, and no connection is lost while a job runs under its lock. Of floats only the
-- comparisons and texts that the code uses are there, as parameters. Codes and latencies of queries are not negative. How an event is validated, how an ISO
-- time and the notation of IPv6 are read, and whether an event fits its columns are parameters; the
-- statements of a request see the tables as no other request changes them. A host name fits its column.
-- The entity type of a recorded change is that of its snapshot. A query gives groups in the
-- order in which it meets them. Strings of the administrator are stripped as ASCII.
--
-- Fuel. ready_from takes as fuel the number of rounds, and its theorem asks for no more than the first
-- round whose clock has reached the deadline. show_fuel takes the number itself, which has fewer digits.
-- backfill_from counts its hours down, and mask_prefix the lengths of a prefix from 32 to 0. Every other loop is a recursion on the list that it goes through.
--
-- Not modelled: page rendering, analytics queries, the search and history queries, floats (the getters
-- of floats other than that of the boot burst, the form of the health thresholds, percentages and rates of the dashboard; the arithmetic of the
-- rates of Health is a parameter), backups and
-- node packages, and the programs in Go and shell.
pub mod Base
pub mod Nodes
pub mod Blocklists
pub mod Schedule
pub mod Settings
pub mod Rpz
pub mod Rollups
pub mod Retention
pub mod Filter
pub mod Admin
pub mod Blocking
pub mod Precache
pub mod Versions
pub mod Buffer
pub mod Agent
pub mod Bundle
pub mod Clients
pub mod Commands
pub mod Csrf
pub mod Sessions
pub mod Burst
pub mod Health
pub mod Ingest
pub mod Locks
