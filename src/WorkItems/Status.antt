-- ===== src/WorkItems/Status.antt =====
-- The status transition of a work item: `_set_work_item_status_locked` of
-- sprintctl/workitemcore.py with the SQLite participants, and `set_work_item_status` of
-- sprintctl/db.py. SQLite has no work leases, so `end_work_leases` has no effect there.
use sprintctl.Prelude.{
  ℕ, String, Bool, true, false, not, Option, none, some, List, [], ◌∷◌, ◌==◌, string_eq,
  if◌then◌else◌,
}
use sprintctl.Domain.{Status, Reason, Item, Payload, status_eq}
use sprintctl.Ledger.{Fault, Action, ok, err, pure, lift, gets, transaction, ◌>>=◌, ◌>>◌}
use sprintctl.Decisions.{normalize_decision}
use sprintctl.Schema.Statements.{update_item, insert_event}
use sprintctl.Deps.{list_deps_blocking, unresolved, Blocker}
use sprintctl.Reservations.{release_caller_reservations}
use sprintctl.WorkItems.Basics.{item_status_revision, validate_item_status_revision}
use sprintctl.WorkItems.Decide.{write_decision, lock_item, check_revision}

-- VALID_TRANSITIONS
unfoldable pub may_become : Status → Status → Bool
may_become Status.pending Status.active = true
may_become Status.active Status.done = true
may_become Status.active Status.blocked = true
may_become Status.active Status.pending = true
may_become Status.blocked Status.active = true
may_become Status.blocked Status.pending = true
may_become _ _ = false

abbrev pub is_given {ℓ} : {A : Type ℓ} → Option A → Bool
is_given none = false
is_given (some a) = true

-- A reason is given exactly for a move to pending. (`reason not in release_reasons` is the test
-- for a missing one; a given reason is one of the three.)
abbrev pub reason_fits : Status → Option Reason → Bool
reason_fits Status.pending reason = is_given reason
reason_fits _ reason = not (is_given reason)

abbrev pub is_resolved : List Blocker → Bool
is_resolved [] = true
is_resolved (b ∷ bs) = false

abbrev pub guard : Bool → String → Action (Unit {0})
guard true message s = (ok tt, s)
guard false message s = (err (Fault.invalid_transition message), s)

-- `actor or "sprintctl"`
abbrev pub actor_or_default : Option String → String
actor_or_default none = "sprintctl"
actor_or_default (some a) = if a == "" then "sprintctl" else a

abbrev pub with_status : Status → ℕ → Item → Item
with_status new_status now i = record i { status = new_status; updated_at = now }

-- `active` waits for the blockers.
unfoldable pub check_blockers : ℕ → Status → Action (Unit {0})
check_blockers item_id Status.active s =
    guard (is_resolved (unresolved (list_deps_blocking item_id s)))
      "cannot activate while blockers remain unresolved" s
check_blockers item_id _ s = (ok tt, s)

-- `done` is written by an accept decision, every other status directly.
unfoldable pub write_status : Item → Status → Option String → Action (Unit {0})
write_status item Status.done actor = do
  decision ← lift (normalize_decision "accept" (actor_or_default actor) "" [] none none)
  write_decision item decision
  pure tt
write_status item new_status actor = do
  now ← gets (λ s. s.clock)
  update_item item.id (with_status new_status now)

-- A move to pending releases the caller's reservations and records why.
unfoldable pub after_release :
    Item → Status → Option String → Option Reason → Option String → Action (Unit {0})
after_release item Status.pending actor reason session_id = do
  ids ← release_caller_reservations item session_id (actor_or_default actor)
  insert_event item.sprint_id (actor_or_default actor) "item-released" "system" (some item.id)
      (Payload.item_released reason item.status ids)
  pure tt
after_release item _ actor reason session_id = pure tt

unfoldable pub set_status_locked :
    ℕ → Status → Option String → Option String → Option Reason → Option String → Action (Unit {0})
unfolding check_blockers write_status after_release
set_status_locked item_id new_status actor expected_revision reason session_id = do
  item ← lock_item item_id
  check_revision expected_revision (item_status_revision item)
  guard (may_become item.status new_status) "transition not allowed"
  guard (reason_fits new_status reason) "a reason goes exactly with a move to pending"
  check_blockers item_id new_status
  write_status item new_status actor
  after_release item new_status actor reason session_id

unfoldable pub set_work_item_status :
    ℕ
    → Status
    → (actor expected_revision : Option String) → Option Reason
    → Option String
    → Action (Unit {0})
unfolding set_status_locked
set_work_item_status item_id new_status actor expected_revision reason session_id = do
  expected ← lift (validate_item_status_revision expected_revision)
  transaction (set_status_locked item_id new_status actor expected reason session_id)
