-- ===== src/Ledger/Faults.antt =====
-- The exceptions, one constructor for each place that raises. `value_error` is a ValueError with a
-- fixed text, `invalid_transition` an InvalidTransition; the others carry what their text prints.
use sprintctl.Prelude.{ℕ, String}

-- The triggers of migrations 23 to 25 of sprintctl/db.py, and the CHECK constraints of a decision.
pub data Guard : Type 0 where
  legacy_immutable done_is_terminal done_requires_decision terminal_immutable : Guard
  legacy_done_remark terminal_shape legacy_insert : Guard
  decision_check release_of_item binds_current_release : Guard
  execution_only release_required release_same_item release_immutable : Guard

pub data Fault : Type 0 where
  value_error : String → Fault
  item_not_found : ℕ → Fault
  sprint_not_found : ℕ → Fault
  reservation_not_found : ℕ → Fault
  dep_not_found : ℕ → Fault
  ref_not_found : ℕ → Fault
  successor_not_found : ℕ → Fault
  status_conflict : (expected current : String) → Fault
  edit_conflict : (expected current : String) → Fault
  invalid_transition : String → Fault
  idempotency_conflict : String → Fault
  release_mismatch : String → Fault
  stale_basis : (expected current : String) → Fault
  reservation_conflict : Fault
  reserved_event_type : String → Fault
  aborted : Guard → Fault
  assertion_error : Fault
