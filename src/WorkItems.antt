-- ===== src/WorkItems.antt =====
-- sprintctl/workitemcore.py with its SQLite adapters in sprintctl/db.py: revisions and validators
-- of a work item, its creation, edit, priority, status transition and decisions.
-- The code stands in Basics, Decide (the writer of terminal status), Status (the transition) and Edit
-- (the description under compare-and-set); the other children are about them.
pub mod Basics
pub mod Decide
pub mod Status
pub mod Edit
pub mod Admission
pub mod Replay
pub mod Revision
pub mod Closes
pub mod Repeated
