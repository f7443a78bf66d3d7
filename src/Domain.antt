-- ===== src/Domain.antt =====
-- The vocabulary of the ledger: the enumerations that the schema's CHECK constraints list, and the
-- rows of its tables (sprintctl/db.py, sprintctl/decisions.py, sprintctl/reservation.py).
mod Words
pub mod Json
mod Rows
pub use Words.*
pub use Rows.*
