-- ===== src/Ledger.antt =====
-- The SQLite database of the local backend (sprintctl/db.py) as a value, and statements over it.
-- A statement returns its result beside the ledger that it leaves, on an error too: what undoes
-- the writes of a failed operation is `transaction`, the BEGIN IMMEDIATE / commit / rollback frame.
-- `clock` is the current time, which the environment sets; `maintenance` says whether a
-- maintenance capability is active or observing and has not expired.
mod Faults
mod State
mod Actions
pub use Faults.*
pub use State.*
unfoldable pub use Actions.{transaction, require, each}
pub use Actions.{
  transaction-atomic, transaction-ok, transaction-returns, require-ok, bind-ok, after-bind,
  lift-atomic, transaction-answers,
}
pub use Actions.{
  Outcome, ok, err, Action, ◌>>=◌, ◌>>◌, pure, raise, lift, gets, modify, outcome, after,
}
