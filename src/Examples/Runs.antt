-- ===== src/Examples/Runs.antt =====
-- Operations on the example ledger.
use sprintctl.Prelude.{false, ◌≡◌, refl, none, some, [], ◌∷◌, find, select, update, nat_eq}
use sprintctl.Prelude.Text.{strip, lstrip, rstrip, is_space}
use sprintctl.Domain.{Status, SprintStatus, Resolution, Reservation}
use sprintctl.Ledger.{ok, err, outcome, after, Fault, transaction}
use sprintctl.Decisions.{
  normalize_decision, normalize_decision_fields, parse_kind, collect_digests,
  validate_idempotency_key,
}
use sprintctl.Schema.{item_update_guard, shape_broken, reservation_update_guard}
use sprintctl.Schema.Statements.{update_item, insert_event, update_reservations, update_aborts}
use sprintctl.Deps.{add_dep, insert_dep, validate_add_dep}
use sprintctl.Deps.Edges.{Linked, add_dep-Linked, add_dep-add_dep}
use sprintctl.Reservations.{release_caller_reservations, release_rows, release_events}
use sprintctl.Reservations.Ends.{held, release_caller_reservations-none_held}
use sprintctl.WorkItems.Basics.{validate_item_status_revision}
use sprintctl.WorkItems.Decide.{record_decision_keyed, record_locked}
use sprintctl.WorkItems.Status.{
  set_work_item_status, set_status_locked, check_blockers, write_status, after_release, may_become,
}
use sprintctl.WorkItems.Admission.{
  Admitted, set_work_item_status-Admitted, set_work_item_status-atomic,
  record_decision_keyed-atomic,
}
use sprintctl.Sprints.{
  set_sprint_status, set_sprint_status_locked, validate_sprint_status_revision, update_sprint,
  sprint_may_become,
}
use sprintctl.Sprints.Steps.{Moved, set_sprint_status-Moved}
use sprintctl.Calc.{resolution_counts, track_health}
use sprintctl.Calc.Counts.{
  resolution_counts-count, track_health-total, count, closed_as, undecided, remarked_item, is_done,
  sum_of,
}
use sprintctl.Reservations.{display, reservation_row, released_row, is_active}
use sprintctl.Reservations.Lifecycle.{release, release_locked, release_active_row, update_row}
use sprintctl.Reservations.Released.{release-release}
use sprintctl.Examples.Ledgers.{reserved, start, closed, row}

stopped : outcome (set_work_item_status 1 Status.blocked none none none none) start ≡ ok tt
unfolding set_work_item_status set_status_locked check_blockers write_status after_release
    validate_item_status_revision transaction update_item find item_update_guard shape_broken
    may_become
stopped = refl

set_work_item_status-Admitted_example : Admitted start 1 Status.blocked none none
set_work_item_status-Admitted_example =
    set_work_item_status-Admitted 1 Status.blocked none none none none start stopped

-- An item that is not there.
missing :
    outcome (set_work_item_status 9 Status.active none none none none) start
    ≡ err (Fault.item_not_found 9)
unfolding set_work_item_status set_status_locked validate_item_status_revision transaction find
missing = refl

set_work_item_status-atomic_example :
    after (set_work_item_status 9 Status.active none none none none) start ≡ start
set_work_item_status-atomic_example =
    set_work_item_status-atomic 9 Status.active none none none none start (Fault.item_not_found 9)
      missing

undecidable :
    outcome (record_decision_keyed 9 "accept" "ann" "" [] none none none none) start
    ≡ err (Fault.item_not_found 9)
unfolding record_decision_keyed record_locked normalize_decision normalize_decision_fields
    parse_kind collect_digests strip lstrip rstrip is_space validate_idempotency_key
    validate_item_status_revision transaction find
undecidable = refl

record_decision_keyed-atomic_example :
    after (record_decision_keyed 9 "accept" "ann" "" [] none none none none) start ≡ start
record_decision_keyed-atomic_example =
    record_decision_keyed-atomic 9 "accept" "ann" "" [] none none none none start
      (Fault.item_not_found 9) undecidable

linked : outcome (add_dep 1 2) start ≡ ok 1
unfolding add_dep validate_add_dep insert_dep find
linked = refl

add_dep-Linked_example : Linked start (after (add_dep 1 2) start) 1 2 1
add_dep-Linked_example = add_dep-Linked 1 2 1 start linked

add_dep-add_dep_example :
    add_dep 1 2 (after (add_dep 1 2) start) ≡ (ok 1, after (add_dep 1 2) start)
add_dep-add_dep_example = add_dep-add_dep 1 2 1 start linked

moved : outcome (set_sprint_status 1 SprintStatus.active none) start ≡ ok tt
unfolding set_sprint_status set_sprint_status_locked validate_sprint_status_revision transaction
    update_sprint find sprint_may_become
moved = refl

set_sprint_status-Moved_example :
    Moved start
      (after (set_sprint_status 1 SprintStatus.active none) start)
      1
      SprintStatus.active
      none
set_sprint_status-Moved_example = set_sprint_status-Moved 1 SprintStatus.active none start moved

freed :
    outcome (release_caller_reservations (row 1 Status.active none none) (some "s") "ann") start
    ≡ ok (1 ∷ [])
unfolding release_caller_reservations release_rows release_events update_reservations update_aborts
    insert_event select update reservation_update_guard
freed = refl

release_caller_reservations-none_held_example :
    held
      (row 1 Status.active none none)
      "s"
      (after (release_caller_reservations (row 1 Status.active none none) (some "s") "ann") start)
    ≡ []
release_caller_reservations-none_held_example =
    release_caller_reservations-none_held (row 1 Status.active none none) "s" "ann" start (1 ∷ [])
      refl freed

resolution_counts-count_example :
    ((resolution_counts closed.items).accepted ≡ count (closed_as Resolution.accepted) closed.items)
    × ((resolution_counts closed.items).rejected
        ≡ count (closed_as Resolution.rejected) closed.items)
    × ((resolution_counts closed.items).withdrawn
        ≡ count (closed_as Resolution.withdrawn) closed.items)
    × ((resolution_counts closed.items).superseded
        ≡ count (closed_as Resolution.superseded) closed.items)
    × ((resolution_counts closed.items).legacy_done ≡ count undecided closed.items)
    × ((resolution_counts closed.items).legacy_remarked ≡ count remarked_item closed.items)
    × ((resolution_counts closed.items).done ≡ count is_done closed.items)
resolution_counts-count_example = resolution_counts-count closed.items

track_health-total_example :
    (sum_of (track_health closed.items).counts ≡ (track_health closed.items).total)
    × ((track_health closed.items).counts.done ≡ (track_health closed.items).resolutions.done)
track_health-total_example = track_health-total closed.items

ended : outcome (release 14400 1 none) start ≡ ok (display 14400 0 (released_row 0 reserved))
unfolding release release_locked release_active_row update_row update_reservations update_aborts
    insert_event find update reservation_update_guard transaction display
ended = refl

release-release_example :
    (r : Reservation) × (reservation_row 1 (after (release 14400 1 none) start) ≡ some r)
    × (is_active r ≡ false)
    × (release 14400 1 (some "bob") (after (release 14400 1 none) start) ≡ (
      ok (display 14400 (after (release 14400 1 none) start).clock r),
      after (release 14400 1 none) start,
    ))
release-release_example =
    release-release 14400 1 none (some "bob") start (display 14400 0 (released_row 0 reserved))
      ended
