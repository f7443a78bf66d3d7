-- ===== src/Examples/Histories.antt =====
-- Sequences of calls on the empty ledger and on the example ledger.
use sprintctl.Prelude.{
  ◌≡◌, refl, String, none, some, [], false, find, update, select, inl, ◌+◌, ◌==◌, nat_eq, string_eq,
}
use sprintctl.Prelude.Text.{strip, lstrip, rstrip, is_space, decimal, is_blank}
use sprintctl.Domain.{Status, Resolution, Decision, resolution_for}
use sprintctl.Ledger.{Ledger, Fault, empty, after, outcome, transaction, ok, err}
use sprintctl.Decisions.{
  normalize_decision, normalize_decision_fields, parse_kind, collect_digests,
  validate_idempotency_key, decision_error, transition_error, is_legacy_remark_target,
  replay_or_conflict,
}
use sprintctl.Schema.{
  item_update_guard, item_insert_guard, decision_insert_guard, revise_count, shape_broken,
}
use sprintctl.Schema.Statements.{get_item, update_item, insert_item, insert_decision, insert_event}
use sprintctl.Releases.{resolve_decision_release, current_release, newest, last_frozen}
use sprintctl.Deps.{blocking}
use sprintctl.WorkItems.Basics.{
  create_work_item, validate_priority, validate_item_status_revision, validate_item_edit_revision,
  validate_work_item_description, description_revision, is_item_edit_revision,
}
use sprintctl.WorkItems.Decide.{
  record_decision_keyed, record_locked, record_fresh, write_decision, check_successor,
  read_decision, apply_resolution, keyed_decision,
}
use sprintctl.WorkItems.Status.{
  set_work_item_status, set_status_locked, check_blockers, write_status, after_release, may_become,
}
use sprintctl.WorkItems.Edit.{Edited, edit_version, update_work_item_description}
use sprintctl.WorkItems.Revision.{
  update_work_item_description-accepts, update_work_item_description-stale,
}
use sprintctl.Program.{Command, perform, Reaches}
use sprintctl.History.{Extends}
use sprintctl.History.Terminal.{Reaches-Extends}
use sprintctl.Invariant.{WellFormed, WellFormed-empty, is_about}
use sprintctl.Invariant.Closed.{Reaches-WellFormed, done_is_decided}
use sprintctl.Examples.Ledgers.{start, closed, row, digest, environment, fresh_uuid}

abbrev run : Command → Ledger → Ledger
run c s = after (perform environment c) s

abbrev create : Command
create = Command.create_item 1 1 "t" "old" none none (fresh_uuid 1)

abbrev activate : Command
activate = Command.set_status 1 Status.active none none none none

abbrev accept : Command
accept = Command.decide 1 "accept" "ann" "" [] none none none (some "k")

abbrev reopen : Command
reopen = Command.set_status 1 Status.pending none none none none

-- Created, activated and accepted.
abbrev accepted : Ledger
accepted = run accept (run activate (run create empty))

accepted_reached : Reaches environment empty accepted
accepted_reached =
    Reaches.call accept (run activate (run create empty))
      (Reaches.call activate (run create empty) (Reaches.call create empty Reaches.here))

Reaches-Extends_example : Extends empty accepted
Reaches-Extends_example = Reaches-Extends environment empty accepted accepted_reached

Reaches-WellFormed_example : WellFormed accepted
Reaches-WellFormed_example =
    Reaches-WellFormed environment empty accepted accepted_reached WellFormed-empty

accepted_item : get_item 1 accepted ≡ some (row 1 Status.done (some Resolution.accepted) (some 1))
unfolding create_work_item validate_priority insert_item item_insert_guard set_work_item_status
    set_status_locked check_blockers write_status after_release validate_item_status_revision
    transaction update_item find update item_update_guard shape_broken may_become blocking
    record_decision_keyed record_locked record_fresh write_decision check_successor read_decision
    apply_resolution keyed_decision normalize_decision normalize_decision_fields parse_kind
    collect_digests strip lstrip rstrip is_space validate_idempotency_key decision_error
    transition_error is_legacy_remark_target replay_or_conflict resolve_decision_release
    current_release newest last_frozen select revise_count decision_insert_guard insert_decision
    insert_event
accepted_item = refl

done_is_decided_example :
    (d : Decision) × (some 1 ≡ some d.id)
    × (d.work_item_id ≡ 1)
    × (some Resolution.accepted ≡ resolution_for d.kind)
    × (find (is_about 1 d.id) accepted.decisions ≡ some d)
done_is_decided_example =
    done_is_decided environment empty accepted accepted_reached WellFormed-empty 1
      (row 1 Status.done (some Resolution.accepted) (some 1)) accepted_item refl refl

closed_item : get_item 1 closed ≡ some (row 1 Status.done (some Resolution.accepted) (some 1))
unfolding find
closed_item = refl

open_item : get_item 1 start ≡ some (row 1 Status.active none none)
unfolding find
open_item = refl

open_shape : shape_broken start.decisions (row 1 Status.active none none) ≡ false
unfolding shape_broken
open_shape = refl

new_text : validate_work_item_description "new" ≡ ok "new"
unfolding validate_work_item_description strip lstrip rstrip is_space
new_text = refl

no_revision : validate_item_edit_revision none ≡ ok none
unfolding validate_item_edit_revision
no_revision = refl

named : is_blank "ann" ≡ false
unfolding strip lstrip rstrip is_space
named = refl

update_work_item_description-accepts_example :
    (r : Edited) × (outcome (update_work_item_description digest 1 "new" none "ann") start ≡ ok r)
    × (get_item 1 (after (update_work_item_description digest 1 "new" none "ann") start)
        ≡ some r.item)
    × (r.item.description ≡ "new")
    × (r.previous_revision
        ≡ description_revision digest (row 1 Status.active none none) (edit_version 1 start))
    × (r.revision
        ≡ description_revision digest r.item
            (edit_version 1 (after (update_work_item_description digest 1 "new" none "ann") start)))
    × (edit_version 1 (after (update_work_item_description digest 1 "new" none "ann") start)
        ≡ edit_version 1 start + 1)
update_work_item_description-accepts_example =
    update_work_item_description-accepts digest 1 "new" "ann" start (row 1 Status.active none none)
      open_item none new_text no_revision named open_shape refl (inl refl)

-- The revision of an edit that was not made.
abbrev stale_revision : String
stale_revision =
    "item:0123abcd-0123-0123-0123-0123456789ab@description:v7@sha256:0123456789abcdef0123456789abcdef0123456789abcdef0123456789abcdef"

stale_form : validate_item_edit_revision (some stale_revision) ≡ ok (some stale_revision)
unfolding validate_item_edit_revision is_item_edit_revision
stale_form = refl

is_stale :
    (stale_revision
      == description_revision digest (row 1 Status.active none none) (edit_version 1 start))
    ≡ false
unfolding description_revision edit_version decimal select
is_stale = refl

update_work_item_description-stale_example :
    update_work_item_description digest 1 "new" (some stale_revision) "ann" start ≡ (
      err (
          Fault.edit_conflict stale_revision
            (description_revision digest (row 1 Status.active none none) (edit_version 1 start))),
      start,
    )
update_work_item_description-stale_example =
    update_work_item_description-stale digest 1 "new" "ann" start (row 1 Status.active none none)
      open_item stale_revision new_text stale_form named is_stale
