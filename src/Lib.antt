-- ===== src/Lib.antt =====
-- A verification library for assistant-platform, a host for chat assistants written in Rust.
--
-- The program is a set of crates over one SQLite database, and two small databases for each session with
-- an agent. crates/assistant-core checks that a product fits the platform it is built against, and
-- crates/assistant-capabilities assembles the product's profile; crates/assistant-db brings the database
-- to the current schema. crates/assistant-router decides whether a message engages an agent;
-- crates/assistant-permissions decides who may write to the assistant and who administers it;
-- crates/assistant-session carries messages between the host and the container of an agent, which
-- crates/assistant-runtime-docker prepares to start. crates/assistant-approvals holds decisions back until
-- an administrator takes them, and asks the permissions for that; crates/assistant-agent-graph lets an
-- orchestrating agent create specialists and run jobs on them within the limits of a registry;
-- crates/assistant-scheduler decides what work is due and who may run it. This library models these
-- crates; the table below says what stands where.
--
-- Modules
--   Base            Rust's Result, SQL statements over lists of rows (Base.Rows), integers (Base.Int), and
--                   the lemmas about them (Base.RowLaws).
--   Permissions     crates/assistant-permissions/src: Model (model.rs), Store (store.rs), Access
--                   (access.rs), Standing (standing.rs), Readiness (readiness.rs), Events (event.rs). Run
--                   is every writing function as one type of calls; Roles, Owner, Invariant, Routes, Capture
--                   and Inactive are about them.
--   Decimal         i64::to_string and str::parse::<i64>, in which expiry times are stored.
--   Approvals       crates/assistant-approvals/src: Model (model.rs, event.rs), Store (store.rs), Readiness
--                   (readiness.rs). Run is every writing function; Decision, Settled, Sweep, Questions and
--                   RoundTrip are about them.
--   Graph           crates/assistant-agent-graph/src: Job (job.rs, audit.rs), Registry (registry.rs), Store
--                   (store.rs), Delegation (delegation.rs), Handoff (handoff.rs), Routing (routing.rs),
--                   Readiness (readiness.rs). Run is the functions that change jobs and groups; Lifecycle,
--                   Limits, Ended, RoundTrip and Policy are about them, and Cycle about the allow-list.
--   Scheduler       crates/assistant-scheduler/src: Calendar and Model (model.rs), Tables and Projection
--                   (projection.rs), Lease (lease.rs, readiness.rs), Repair (repair.rs). Run is what the host
--                   calls between repairs; Shut, Sweeps, Once and Claim are about leases, Cadence about
--                   recurrences, Items and Projected about the projection, Ahead and Aligned about repairs,
--                   History about revisions. Gregorian is a calendar for the tests.
--   Database        crates/assistant-db/src/migrate.rs: Migrate and Versions. Keys, Sorting, Places and
--                   Ordered are about the order of a set, Log, Recorded, Applies and Again about runs, Latest and ReadBack about the versions.
--   Core            crates/assistant-core/src: Manifest (manifest.rs, validate.rs), Validate (validate.rs,
--                   compat.rs). Empty, Edges, Dependencies, Modules and Fragments are about the single
--                   checks, Report about all of them. The cycle search is the one of Graph.Routing.
--   Capabilities    crates/assistant-capabilities/src: Registry (registry.rs, readiness.rs). Firsts and Assembly
--                   are about profiles.
--   Router          crates/assistant-router/src: Model (model.rs), Channel (channel.rs, registry.rs), Engagement
--                   (engagement.rs), Sticky (sticky.rs), Drops (store.rs). Sessions is what a conversation
--                   sees of the sticky table; Engaged, Decision and Audit are about the three parts.
--   Session         crates/assistant-session/src: Tables (schema.rs), Host (session.rs), Container (control.rs,
--                   recovery.rs), Migrate (migrate.rs). Run is the writes of both sides; Parity and
--                   Enqueued are about them.
--   Docker          crates/assistant-runtime-docker/src: Path (what mount.rs uses of std::path), Mount
--                   (mount.rs), Spawn (auth.rs, image.rs, lifecycle.rs). Blocked, Allowed and Prepared are about them.
--   Samples         values for the parameters, for the Tests modules.
--
-- How the state is modelled
--   A function that takes `&Connection` takes a record Conn of tables, and one that writes returns its
--   result with the tables it leaves. A table is the list of its rows in rowid order; the WHERE clauses
--   are Boolean functions of a row. A query that takes the first row takes it in that order. A transaction
--   that is dropped leaves the tables as they were. SQLite's constraint violations are errors of the
--   model; its I/O faults are not modelled. The keys of rows are natural numbers.
--   The `&mut` sinks of audit events are lists of events that are passed on.
--
-- Parameters
--   RowIds          how SQLite chooses the rowid of a new row; the only thing relied on is that it is above
--                   every rowid in use.
--   TextCast        SQLite's CAST(text AS INTEGER); relied on for texts of i64 values, which it reads back.
--   lowercase       str::to_lowercase, an argument of the classifier of instructions.
--   Chrono          the calendar of the crate chrono with its timezones, and Names, the SHA-256 names of
--                   schedules and occurrences. Scheduler.Cadence states what is relied on: MonthsEnd,
--                   where the code unwraps, and DaysFollow. Gregorian is an instance.
--   Json            serde's JSON of recurrences and volumes; Scheduler.Projected.ReadsBack is what the
--                   projection relies on.
--   Engine          what a batch of SQL does to a schema, or that it fails and is rolled back, and SHA-256. A
--                   migration is taken not to write the two bookkeeping tables.
--   lower, show     str::to_ascii_lowercase and the display of a path, arguments of the functions of Docker.
--   now             datetime('now') and the epoch seconds that callers pass in.
--
-- Bounds
--   Epoch seconds are integers, of which i64::to_string and parse keep the range (Decimal.in_i64). The
--   sum of two i64 is Base.Int.add_i64, with the wrap-around of a release build. Sequence numbers of
--   occurrences and agent ids stay below 2 ^ 63 in the tables, where rusqlite stores them; the cast of a
--   sequence number in a repair wraps. The calendar looks at 400 days at most, as the code does, and ends
--   with the year 262142. The u64 values of a job go through `as i64` and back, with the wrap-around written out
--   (Graph.Store.as_i64, as_u64); counts are taken `as u32`, which is % 2 ^ 32. The digits of a number are read off on fuel, the
--   number itself. The cycle search of the allow-list runs on fuel, one more than the number of nodes: each
--   nested visit marks one more node (Graph.Cycle.Fuel); so does the search of the manifests, over the keys
--   of its map. Sequence numbers of a session are taken to stay below 2 ^ 63.
--
-- Not modelled
--   Display texts, JSON and TOML, so that a diagnostic or the detail of a readiness check is a constructor
--   with names in place of a text; files, sockets, processes and the docker command; the SQL of the
--   migrations; the delivery of packets over session
--   databases; the other crates, which the library does not name.
pub mod Base
pub mod Permissions
pub mod Decimal
pub mod Approvals
pub mod Graph
pub mod Scheduler
pub mod Database
pub mod Core
pub mod Capabilities
pub mod Router
pub mod Session
pub mod Docker
mod Samples
