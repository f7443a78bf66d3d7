-- ===== src/WorkItems/Decide.antt =====
-- The writer of terminal status: `_write_decision_locked` and `_record_decision_keyed_locked` of
-- sprintctl/workitemcore.py with the SQLite participants of `_decide_locked`, and the public
-- `record_decision_keyed` of sprintctl/db.py.
use sprintctl.Prelude.{
  ℕ, String, Bool, true, false, Option, none, some, List, [], ◌∷◌, find, ◌==◌, nat_eq, string_eq,
  option_eq, if◌then◌else◌,
}
use sprintctl.Domain.{Status, Resolution, Item, Decision, Event, Payload, resolution_for}
use sprintctl.Ledger.{
  Fault, Ledger, Outcome, Action, ok, err, pure, lift, gets, transaction, ◌>>=◌, ◌>>◌,
}
use sprintctl.Decisions.{
  Request, decision_error, is_legacy_remark_target, replay_or_conflict, normalize_decision,
  validate_idempotency_key,
}
use sprintctl.Schema.{decision_is, is_some}
use sprintctl.Schema.Statements.{get_item, update_item, insert_decision, insert_event}
use sprintctl.Releases.{resolve_decision_release}
use sprintctl.WorkItems.Basics.{item_status_revision, validate_item_status_revision}

-- The INSERT's row, at the id that the table gives.
abbrev pub decision_row : ℕ → Request → Option String → ℕ → ℕ → Decision
decision_row item_id decision release_digest now n = record {
  id = n;
  kind = decision.kind;
  work_item_id = item_id;
  release_digest = release_digest;
  evidence_digests = decision.evidence_digests;
  rationale = decision.rationale;
  actor = decision.actor;
  superseded_by_item_id = decision.superseded_by_item_id;
  created_at = now;
}

-- Admission of the superseding item.
unfoldable pub check_successor : ℕ → Option ℕ → Action (Unit {0})
check_successor item_id none s = (ok tt, s)
check_successor item_id (some successor) s =
    if successor == item_id
    then (err (Fault.value_error "an item cannot supersede itself"), s)
    else if is_some (get_item successor s)
    then (ok tt, s)
    else (err (Fault.successor_not_found successor), s)

-- `bind_legacy` and `close_terminal`: what the decision does to its item.
abbrev pub bind_legacy : Option Resolution → ℕ → Item → Item
bind_legacy resolution handle i = record i {
  resolution = resolution;
  terminal_decision_id = some handle;
}

abbrev pub close_terminal : Resolution → ℕ → ℕ → Item → Item
close_terminal resolution handle now i = record i {
  status = Status.done;
  resolution = some resolution;
  terminal_decision_id = some handle;
  updated_at = now;
}

unfoldable pub apply_resolution : Bool → Option Resolution → ℕ → ℕ → Action (Unit {0})
apply_resolution true resolution item_id handle s =
    update_item item_id (bind_legacy resolution handle) s
apply_resolution false none item_id handle s = (ok tt, s)
apply_resolution false (some r) item_id handle s =
    update_item item_id (close_terminal r handle s.clock) s

-- `result`: the recorded row; the index of an empty result raises.
unfoldable pub read_decision : ℕ → Action Decision
read_decision handle s = elim (find (decision_is handle) s.decisions) [
  | none ↦ (err Fault.assertion_error, s)
  | some d ↦ (ok d, s)
]

abbrev pub refuse : Option String → Action (Unit {0})
refuse none s = (ok tt, s)
refuse (some e) s = (err (Fault.invalid_transition e), s)

-- From the insertion on: the row, what it does to the item, the row as it is read back.
unfoldable pub write_admitted : Item → Request → Option String → Action Decision
unfolding apply_resolution read_decision
write_admitted item decision release_digest = do
  now ← gets (λ s. s.clock)
  handle ← insert_decision (decision_row item.id decision release_digest now)
  apply_resolution (is_legacy_remark_target item) (resolution_for decision.kind) item.id handle
  read_decision handle

unfoldable pub write_decision : Item → Request → Action Decision
unfolding check_successor write_admitted
write_decision item decision = do
  refuse (decision_error item decision)
  check_successor item.id decision.superseded_by_item_id
  release_digest ← resolve_decision_release item.id decision.release_digest
  write_admitted item decision release_digest

-- `_keyed_decision`: the first item-decided event with the key whose decision is there.
abbrev pub payload_decision : List Decision → String → Payload → Option Decision
payload_decision ds key (Payload.decided n kind resolution release remark (some k)) =
    if k == key then find (decision_is n) ds else none
payload_decision ds key _ = none

abbrev pub event_decision : List Decision → String → Event → Option Decision
event_decision ds key e =
    if e.event_type == "item-decided" then payload_decision ds key e.payload else none

unfoldable pub keyed_decision : List Decision → String → List Event → Option Decision
keyed_decision ds key [] = none
keyed_decision ds key (e ∷ es) =
    let rest = keyed_decision ds key es in
    elim (event_decision ds key e) [ none ↦ rest | some d ↦ some d ]

abbrev pub lock_item : ℕ → Action Item
lock_item item_id s = elim (get_item item_id s) [
  | none ↦ (err (Fault.item_not_found item_id), s)
  | some item ↦ (ok item, s)
]

-- `if expected_revision is not None and expected_revision != current: raise StatusConflict`
abbrev pub check_revision : Option String → String → Action (Unit {0})
check_revision none current s = (ok tt, s)
check_revision (some expected) current s =
    if expected == current then (ok tt, s) else (err (Fault.status_conflict expected current), s)

-- `decided_event_payload`
abbrev pub decided_event_payload : Decision → Option String → Bool → Payload
decided_event_payload d key legacy_remark =
    Payload.decided d.id d.kind (resolution_for d.kind) d.release_digest legacy_remark key

-- The fresh path of a keyed request: the revision, the decision, its audit event.
unfoldable pub record_fresh :
    Item → Request → Option String → Option String → Action (Decision × Bool)
record_fresh item decision key expected_revision = do
  check_revision expected_revision (item_status_revision item)
  recorded ← write_decision item decision
  insert_event item.sprint_id decision.actor "item-decided" "actor" (some item.id)
      (decided_event_payload recorded key (is_legacy_remark_target item))
  pure (recorded, false)

-- `replay_or_conflict` on what the key names, if a key is given.
abbrev pub replay : Option String → ℕ → Request → Ledger → Outcome (Option Decision)
replay none item_id decision s = ok none
replay (some key) item_id decision s =
    replay_or_conflict (keyed_decision s.decisions key s.events) item_id decision

abbrev pub answer :
    Item → Request → Option String → Option String → Option Decision → Action (Decision × Bool)
answer item decision key expected_revision none = record_fresh item decision key expected_revision
answer item decision key expected_revision (some stored) = pure (stored, true)

unfoldable pub record_locked :
    ℕ → Request → Option String → Option String → Action (Decision × Bool)
unfolding record_fresh
record_locked item_id decision key expected_revision = do
  item ← lock_item item_id
  stored ← (λ s. (replay key item_id decision s, s))
  answer item decision key expected_revision stored

-- The result says whether the request replayed an earlier one. A replay rolls back, having
-- written nothing.
unfoldable pub record_decision_keyed :
    (item_id : ℕ) (kind actor rationale : String)
    → List String
    → Option String
    → Option ℕ
    → (expected_revision key : Option String) → Action (Decision × Bool)
unfolding record_locked
record_decision_keyed item_id kind actor rationale digests release successor expected_revision key =
    do
      decision ← lift (normalize_decision kind actor rationale digests release successor)
      key' ← lift (validate_idempotency_key key)
      expected ← lift (validate_item_status_revision expected_revision)
      transaction (record_locked item_id decision key' expected)
