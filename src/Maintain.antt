-- ===== src/Maintain.antt =====
-- sprintctl/maintaincore.py and the sweep and carryover of sprintctl/maintain.py, over the SQLite
-- participants of sprintctl/db.py and the tracks of sprintctl/trackcore.py. The environment's
-- thresholds and `uuid4` are parameters: `fresh n` is the UUID that the item of row id n gets.
use sprintctl.Prelude.{
  ℕ, ◌+◌, String, Bool, true, false, not, ◌&&◌, Option, none, some, List, [], ◌∷◌, ◌++◌, find,
  select, somes, ◌==◌, nat_eq, string_eq, if◌then◌else◌,
}
use Prim.Native.String.{◌++◌ as joined}
use sprintctl.Prelude.Text.{decimal}
use sprintctl.Domain.{Status, Item, Track, Payload, status_eq}
use sprintctl.Ledger.{
  Fault, Ledger, Outcome, Action, ok, err, pure, lift, gets, transaction, each, ◌>>=◌, ◌>>◌,
}
use sprintctl.Decisions.{normalize_decision}
use sprintctl.Schema.{is_some}
use sprintctl.Schema.Statements.{get_item, insert_event}
use sprintctl.WorkItems.Basics.{create_work_item}
use sprintctl.WorkItems.Decide.{write_decision, decided_event_payload}
use sprintctl.WorkItems.Status.{set_status_locked}
use sprintctl.Sprints.{get_sprint}
use sprintctl.Calc.{item_staleness}

abbrev pub track_is : ℕ → String → Track → Bool
track_is sprint_id name t = t.sprint_id == sprint_id && t.name == name

abbrev pub track_row : ℕ → Track → Bool
track_row n t = t.id == n

abbrev pub get_track : ℕ → Ledger → Option Track
get_track n s = find (track_row n) s.tracks

abbrev pub new_track : ℕ → ℕ → String → String → ℕ → Track
new_track n sprint_id name description now = record {
  id = n;
  sprint_id = sprint_id;
  name = name;
  description = description;
  created_at = now;
}

abbrev pub with_track_added : Track → Ledger → Ledger
with_track_added row s = record s {
  tracks = s.tracks ++ row ∷ [];
  last = record s.last { track = row.id };
}

-- `get_or_create_track`: INSERT OR IGNORE under UNIQUE (sprint_id, name), then the row's id
abbrev pub track_or_new : ℕ → (name description : String) → Option Track → Action ℕ
track_or_new sprint_id name description (some t) s = (ok t.id, s)
track_or_new sprint_id name description none s = (
  ok (s.last.track + 1),
  with_track_added (new_track (s.last.track + 1) sprint_id name description s.clock) s,
)

unfoldable pub get_or_create_track : ℕ → (name description : String) → Action ℕ
get_or_create_track sprint_id name description s =
    track_or_new sprint_id name description (find (track_is sprint_id name) s.tracks) s

abbrev pub fails_unless : Bool → Fault → Action (Unit {0})
fails_unless true e s = (ok tt, s)
fails_unless false e s = (err e, s)

abbrev pub is_open : Status → Bool
is_open status = not (status == Status.done)

abbrev pub is_carriable : ℕ → Item → Bool
is_carriable source item = item.sprint_id == source && is_open item.status

abbrev pub track_name : Option Track → Outcome String
track_name none = err Fault.assertion_error
track_name (some t) = ok t.name

abbrev pub found_item : ℕ → Option Item → Outcome Item
found_item n none = err (Fault.item_not_found n)
found_item n (some item) = ok item

abbrev pub carried_rationale : (target new_id : ℕ) → String
carried_rationale target new_id =
    joined "carried over to sprint #"
      (joined (decimal target) (joined " as item #" (decimal new_id)))

module _ (fresh : ℕ → String) where
  -- The copy, the events and the decision of one open item.
  unfoldable pub carry_open : (source target : ℕ) → Item → Action (Option Item)
  carry_open source target item = do
    track ← gets (get_track item.track_id)
    name ← lift (track_name track)
    track_id ← get_or_create_track target name ""
    uuid ← gets (λ s. fresh (s.last.item + 1))
    new_id ← create_work_item target track_id item.title item.description item.assignee none uuid
    insert_event target "maintain-carryover" "carryover" "system" (some new_id)
        (Payload.carried_in source item.id item.status)
    decision ← lift (
        normalize_decision "supersede" "maintain-carryover" (carried_rationale target new_id) []
          none (some new_id))
    recorded ← write_decision item decision
    insert_event source decision.actor "item-decided" "actor" (some item.id)
        (decided_event_payload recorded none false)
    insert_event source "maintain-carryover" "carried-out" "system" (some item.id)
        (Payload.carried_out target new_id)
    copied ← gets (get_item new_id)
    copy ← lift (found_item new_id copied)
    pure (some copy)

  -- A selection that is no longer open in the source is skipped without writes.
  abbrev pub carry_locked : (source target : ℕ) → Option Item → Action (Option Item)
  carry_locked source target none = pure none
  carry_locked source target (some item) =
      if is_carriable source item then carry_open source target item else pure none

  unfoldable pub carryover_item : (source target item_id : ℕ) → Action (Option Item)
  unfolding carry_open
  carryover_item source target item_id = do
    fails_unless (not (source == target)) (Fault.value_error "Source and target sprint must differ")
    has_source ← gets (λ s. is_some (get_sprint source s))
    fails_unless has_source (Fault.sprint_not_found source)
    has_target ← gets (λ s. is_some (get_sprint target s))
    fails_unless has_target (Fault.sprint_not_found target)
    item ← gets (get_item item_id)
    carry_locked source target item

  -- One transaction for each item; what an earlier one committed stays.
  abbrev pub carry_one : (source target : ℕ) → Item → Action (Option Item)
  carry_one source target item = transaction (carryover_item source target item.id)

  unfoldable pub carryover : (source target : ℕ) → Action (List Item)
  unfolding carryover_item
  carryover source target = do
    has_source ← gets (λ s. is_some (get_sprint source s))
    fails_unless has_source (Fault.sprint_not_found source)
    has_target ← gets (λ s. is_some (get_sprint target s))
    fails_unless has_target (Fault.sprint_not_found target)
    fails_unless (not (source == target)) (Fault.value_error "Source and target sprint must differ")
    items ← gets (λ s. select (is_carriable source) s.items)
    copied ← each (carry_one source target) items
    pure (somes copied)

-- `block_stale_item`: the item as it was, if it was blocked.
abbrev pub is_active_in : ℕ → Item → Bool
is_active_in sprint_id item = item.sprint_id == sprint_id && item.status == Status.active

unfoldable pub block_now : (sprint_id : ℕ) (now threshold : ℕ) → Item → Action (Option Item)
block_now sprint_id now threshold item = do
  set_status_locked item.id Status.blocked none none none none
  insert_event sprint_id "maintain-sweep" "auto-blocked-stale" "system" (some item.id)
      (Payload.auto_blocked (item_staleness item now threshold none).idle_seconds threshold)
  pure (some item)

unfoldable pub block_active : (sprint_id : ℕ) (now threshold : ℕ) → Item → Action (Option Item)
unfolding block_now
block_active sprint_id now threshold item = do
  track ← gets (get_track item.track_id)
  lift (track_name track)
  if (item_staleness item now threshold none).is_stale
      then block_now sprint_id now threshold item
      else pure none

abbrev pub block_locked : (sprint_id now threshold : ℕ) → Option Item → Action (Option Item)
block_locked sprint_id now threshold none = pure none
block_locked sprint_id now threshold (some item) =
    if is_active_in sprint_id item then block_active sprint_id now threshold item else pure none

unfoldable pub block_stale_item : (sprint_id item_id now threshold : ℕ) → Action (Option Item)
unfolding block_active
block_stale_item sprint_id item_id now threshold = do
  item ← gets (get_item item_id)
  block_locked sprint_id now threshold item

-- A fresh item is passed over.
abbrev pub sweep_item : (sprint_id now threshold : ℕ) → Item → Action (Option Item)
sweep_item sprint_id now threshold item =
    if (item_staleness item now threshold none).is_stale
    then transaction (block_stale_item sprint_id item.id now threshold)
    else pure none

-- The loop is over the items that were active when it began.
unfoldable pub sweep_stale_items : (sprint_id now threshold : ℕ) → Action (List Item)
unfolding block_stale_item
sweep_stale_items sprint_id now threshold = do
  items ← gets (λ s. select (is_active_in sprint_id) s.items)
  blocked ← each (sweep_item sprint_id now threshold) items
  pure (somes blocked)
