-- ===== src/Lib.antt =====
-- A model of sprintctl's local ledger: sprints, work items, decisions, releases, reservations,
-- dependencies and references in one SQLite database, and the operations of sprintctl/db.py and its
-- shared cores that write them.
--
-- The ledger is one value, Ledger.State, with a list of rows for each table and the last row id that
-- each table gave. An operation is an Action: from a ledger to a result or an exception beside the
-- ledger that it leaves (Ledger.Actions, Ledger.Faults). `transaction` is the BEGIN IMMEDIATE,
-- commit and rollback frame. A statement checks the triggers of migrations 23 to 25 first: Schema has
-- the triggers as guards, Schema.Statements the statements.
--
-- Which file models which part:
-- - Domain: the enumerations and the rows of the tables; Json the values of decoded documents.
-- - Decisions: sprintctl/decisions.py, the validation of a decision request, the rule that says which
--   decision an item accepts, and the comparison of a repeated request with what it recorded.
-- - Releases: sprintctl/releases.py and sprintctl/releasecore.py. Contract has acceptance contracts
--   and bases; Freeze the digest of a release and the write of its row.
-- - WorkItems: sprintctl/workitemcore.py. Basics has revisions, validators, creation and priority;
--   Decide the only writer of terminal status (record_decision_keyed); Status the transition
--   (set_work_item_status); Edit the description under compare-and-set.
-- - Deps: sprintctl/depcore.py, dependencies between items, and in Ready the items that are ready.
-- - Reservations: sprintctl/reservation.py and sprintctl/reservationcore.py. Admission has reserve, with
--   the conflicts, the takeover and the release that it freezes; Lifecycle touch, reassign, release
--   and sweep; Activity the clock of a session's reservations (note_session_activity).
-- - Sprints: sprintctl/sprintcore.py, the status and kind of a sprint and its close.
-- - Calc: sprintctl/calc.py, staleness, resolution counts, track health and overrun risk.
-- - Maintain: sprintctl/maintaincore.py, the carryover of open items and the sweep of stale ones, with
--   the tracks of sprintctl/trackcore.py.
-- - Backlog: sprintctl/backlogcore.py, the items that a sprint's knowledge events give in another.
-- - Refs: sprintctl/refcore.py and the validation of reference targets in sprintctl/db.py.
-- - Events: from sprintctl/eventcore.py, Takeups, the matching of take-ups with releases.
-- - Program: one call of an operation as a Command, and the ledgers that sequences of calls reach.
-- The other children of these parts have their proofs, and no code. Proofs over all operations are
-- written once, in Kept and Program.Reach, for a relation between ledgers that the statements respect;
-- History and Invariant have the two relations. Follows has one rule for each way to build an action.
-- Prelude has the shared library: tests, lists, tables, orders, sorting and texts. Examples applies the
-- theorems to small ledgers.
--
-- Loops are structural recursion over lists of rows, so no fuel is needed. A timestamp is a number of
-- seconds, and the ledger's clock moves only between operations. Parameters stand for SHA-256, uuid4,
-- str.lower, urlparse, posixpath.normpath, the printing of canonical JSON and its reading back, and the
-- operator's horizons; Program.Environment gathers them. The messages of exceptions are shortened. The
-- legacy import gate is closed, as it is outside an import.
--
-- Not modelled: foreign keys, and the UNIQUE and CHECK constraints other than those of Schema and of
-- a release's row; the columns sprint_id and legacy_source of work_decision, which only imports write;
-- release commits, which only archive imports write; the list and report queries, except for ready
-- items, blockers, knowledge events and take-ups; the creation of sprints and of notes; the refusal of a
-- connection that is inside a transaction; the PostgreSQL backend, migrations, the command line and
-- the authority protocol.
mod Prelude
pub mod Domain
pub mod Ledger
pub mod Decisions
pub mod Schema
pub mod Releases
pub mod Follows
pub mod Deps
pub mod Reservations
pub mod WorkItems
pub mod History
pub mod Sprints
pub mod Calc
pub mod Maintain
pub mod Backlog
pub mod Refs
pub mod Events
pub mod Kept
pub mod Program
pub mod Invariant
pub mod Examples
