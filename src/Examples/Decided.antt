-- ===== src/Examples/Decided.antt =====
-- Decisions on the example ledger.
use sprintctl.Prelude.{
  ◌≡◌, refl, String, select, update, none, some, [], true, false, ◌⊎◌, find, ◌↔◌, ◌==◌, nat_eq,
}
use sprintctl.Prelude.Text.{strip, lstrip, rstrip, is_space}
use sprintctl.Domain.{Status, Resolution, Kind, Item}
use sprintctl.Ledger.{ok, err, outcome, after, Fault, transaction}
use sprintctl.Decisions.{
  Request, normalize_decision, validate_idempotency_key, normalize_decision_fields, parse_kind,
  collect_digests, decision_error, replay_or_conflict,
}
use sprintctl.Decisions.Admission.{decision_error-eq_none, OpenRule, RemarkRule}
use sprintctl.Decisions.Normalize.{
  IsNormal, IsNormal-normalize_decision, normalize_decision-normalize_decision,
}
use sprintctl.Decisions.Replay.{Repeats, replay_or_conflict_iff}
use sprintctl.WorkItems.Basics.{validate_item_status_revision}
use sprintctl.WorkItems.Decide.{
  record_locked, record_fresh, keyed_decision, record_decision_keyed, write_decision,
  write_admitted, check_successor, read_decision, apply_resolution,
}
use sprintctl.WorkItems.Replay.{record_decision_keyed-replay}
use sprintctl.Decisions.{transition_error, is_legacy_remark_target}
use sprintctl.Schema.{decision_insert_guard, revise_count, item_update_guard, shape_broken}
use sprintctl.Schema.Statements.{insert_event, get_item, insert_decision, update_item}
use sprintctl.Releases.{resolve_decision_release, current_release, newest, last_frozen}
use sprintctl.WorkItems.Repeated.{record_decision_keyed-repeated}
use sprintctl.Examples.Ledgers.{start, closed, accepted_row, row}

abbrev accept_request : Request
accept_request = record {
  kind = Kind.accept;
  rationale = "";
  evidence_digests = [];
  release_digest = none;
  actor = "ann";
  superseded_by_item_id = none;
}

normalized : normalize_decision "accept" " ann " "" [] none none ≡ ok accept_request
unfolding normalize_decision normalize_decision_fields parse_kind collect_digests strip lstrip
    rstrip is_space
normalized = refl

IsNormal-normalize_decision_example : IsNormal accept_request
IsNormal-normalize_decision_example =
    IsNormal-normalize_decision "accept" " ann " "" [] none none accept_request normalized

normalize_decision-normalize_decision_example :
    normalize_decision "accept" "ann" "" [] none none ≡ ok accept_request
normalize_decision-normalize_decision_example =
    normalize_decision-normalize_decision "accept" " ann " "" [] none none accept_request normalized

decision_error-eq_none_example :
    (decision_error (row 1 Status.active none none) accept_request ≡ none) ↔ (
      OpenRule (row 1 Status.active none none) accept_request
      ⊎ RemarkRule (row 1 Status.active none none) accept_request)
decision_error-eq_none_example =
    decision_error-eq_none (row 1 Status.active none none) accept_request

replay_or_conflict_iff_example :
    ((replay_or_conflict (some accepted_row) 1 accept_request ≡ ok (some accepted_row))
      ↔ Repeats accepted_row 1 accept_request)
    × (¬ Repeats accepted_row 1 accept_request
        → (why : String) × (replay_or_conflict (some accepted_row) 1 accept_request
            ≡ err (Fault.idempotency_conflict why)))
replay_or_conflict_iff_example = replay_or_conflict_iff accepted_row 1 accept_request

key_k : validate_idempotency_key (some "k") ≡ ok (some "k")
unfolding validate_idempotency_key strip lstrip rstrip is_space
key_k = refl

no_basis : validate_item_status_revision none ≡ ok none
unfolding validate_item_status_revision
no_basis = refl

stored_k : keyed_decision closed.decisions "k" closed.events ≡ some accepted_row
unfolding keyed_decision find
stored_k = refl

item_found :
    find (λ i. i.id == 1) closed.items
    ≡ some (row 1 Status.done (some Resolution.accepted) (some 1))
unfolding find
item_found = refl

record_decision_keyed-replay_example :
    (Repeats accepted_row 1 accept_request
      → record_decision_keyed 1 "accept" " ann " "" [] none none none (some "k") closed
        ≡ (ok (accepted_row, true), closed))
    × (¬ Repeats accepted_row 1 accept_request
        → (why : String) × (record_decision_keyed 1 "accept" " ann " "" [] none none none
              (some "k")
              closed
            ≡ (err (Fault.idempotency_conflict why), closed)))
record_decision_keyed-replay_example =
    record_decision_keyed-replay 1 "accept" " ann " "" [] none none none "k" closed accept_request
      accepted_row (row 1 Status.done (some Resolution.accepted) (some 1)) normalized key_k no_basis
      item_found stored_k

abbrev active_item : Item
active_item = row 1 Status.active none none

active_found : get_item 1 start ≡ some active_item
unfolding find
active_found = refl

not_remark : is_legacy_remark_target active_item ≡ false
unfolding is_legacy_remark_target
not_remark = refl

recorded_k :
    outcome (record_decision_keyed 1 "accept" " ann " "" [] none none none (some "k")) start
    ≡ ok (accepted_row, false)
unfolding record_decision_keyed record_locked record_fresh normalize_decision
    normalize_decision_fields parse_kind collect_digests validate_idempotency_key
    validate_item_status_revision replay_or_conflict keyed_decision insert_event transaction
    write_decision write_admitted check_successor apply_resolution read_decision decision_error
    transition_error is_legacy_remark_target resolve_decision_release current_release newest
    last_frozen insert_decision decision_insert_guard revise_count update_item item_update_guard
    shape_broken find select update strip lstrip rstrip is_space
recorded_k = refl

record_decision_keyed-repeated_example :
    record_decision_keyed 1 "accept" " ann " "" [] none none none
      (some "k")
      (after (record_decision_keyed 1 "accept" " ann " "" [] none none none (some "k")) start)
    ≡ (
      ok (accepted_row, true),
      after (record_decision_keyed 1 "accept" " ann " "" [] none none none (some "k")) start,
    )
record_decision_keyed-repeated_example =
    record_decision_keyed-repeated 1 "accept" " ann " "" [] none none none none "k" start
      accept_request active_item Resolution.accepted normalized key_k no_basis no_basis active_found
      tt not_remark refl refl (accepted_row, false) recorded_k
