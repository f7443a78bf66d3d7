-- ===== src/Schema/Statements.antt =====
-- INSERT and UPDATE statements of sprintctl/db.py under the triggers. A new row's id is one more
-- than the last that its table gave (AUTOINCREMENT); a `created_at` defaults to the clock.
use sprintctl.Prelude.{
  ℕ, ◌+◌, String, Bool, false, not, ◌||◌, any, ◌==◌, Option, none, some, List, [], ◌∷◌, ◌++◌, find,
  update, nat_eq, string_eq, if◌then◌else◌,
}
use sprintctl.Domain.{
  Status, Item, Decision, Release, Reservation, Event, Payload, reservation_state_eq,
}
use sprintctl.Ledger.{Guard, Fault, Ledger, Outcome, Action, ok, err}
use sprintctl.Schema.{
  item_is, item_update_guard, item_insert_guard, decision_insert_guard, reservation_insert_guard,
  reservation_update_guard, spaces_only,
}
use sprintctl.Decisions.{is_digest}

-- What a statement does under a guard: abort, or leave its new ledger.
abbrev pub under : {A : Type 0} → Option Guard → A → Ledger → Ledger → Outcome A × Ledger
under none a s t = (ok a, t)
under (some g) a s t = (err (Fault.aborted g), s)

abbrev pub get_item : ℕ → Ledger → Option Item
get_item n s = find (item_is n) s.items

-- The ledgers that the statements leave.
abbrev pub with_items : List Item → Ledger → Ledger
with_items items s = record s { items = items }

abbrev pub with_item_added : Item → Ledger → Ledger
with_item_added row s = record s {
  items = s.items ++ row ∷ [];
  last = record s.last { item = row.id };
}

abbrev pub with_decision_added : ℕ → Decision → Ledger → Ledger
with_decision_added n row s = record s {
  decisions = s.decisions ++ row ∷ [];
  last = record s.last { decision = n };
}

abbrev pub with_reservation_added : ℕ → Reservation → Ledger → Ledger
with_reservation_added n row s = record s {
  reservations = s.reservations ++ row ∷ [];
  last = record s.last { reservation = n };
}

abbrev pub with_reservations : List Reservation → Ledger → Ledger
with_reservations rows s = record s { reservations = rows }

abbrev pub with_event_added : Event → Ledger → Ledger
with_event_added row s = record s {
  events = s.events ++ row ∷ [];
  last = record s.last { event = row.id };
}

-- A new item: status, resolution, terminal decision and legacy take their defaults.
abbrev pub new_item :
    ℕ
    → (sprint_id track_id : ℕ) (title description : String) (assignee : Option String)
      (priority : Option ℕ) (uuid : String)
    → ℕ
    → Item
new_item n sprint_id track_id title description assignee priority uuid now = record {
  id = n;
  track_id = track_id;
  sprint_id = sprint_id;
  title = title;
  description = description;
  status = Status.pending;
  assignee = assignee;
  priority = priority;
  aggregate_uuid = uuid;
  created_at = now;
  updated_at = now;
  resolution = none;
  terminal_decision_id = none;
  legacy = false;
}

abbrev pub new_event :
    ℕ
    → (sprint_id : ℕ) (actor event_type source_type : String) (work_item_id : Option ℕ)
      (payload : Payload)
    → ℕ
    → Event
new_event n sprint_id actor event_type source_type work_item_id payload now = record {
  id = n;
  sprint_id = sprint_id;
  work_item_id = work_item_id;
  source_type = source_type;
  actor = actor;
  event_type = event_type;
  payload = payload;
  created_at = now;
}

-- `UPDATE work_item SET … WHERE id = ?`
unfoldable pub update_item : ℕ → (Item → Item) → Action (Unit {0})
update_item n f s = elim (get_item n s) [
  | none ↦ (ok tt, s)
  | some old ↦
      under (item_update_guard s.decisions old (f old)) tt s
        (with_items (update (item_is n) f s.items) s)
]

-- `INSERT INTO work_item`
unfoldable pub insert_item :
    (sprint_id track_id : ℕ) (title description : String) (assignee : Option String)
    (priority : Option ℕ) (uuid : String)
    → Action ℕ
insert_item sprint_id track_id title description assignee priority uuid s =
    let n = s.last.item + 1 in
    let row = new_item n sprint_id track_id title description assignee priority uuid s.clock in
    under (item_insert_guard s.decisions row) n s (with_item_added row s)

-- `INSERT INTO work_decision`, for the row that `make` gives at the new id
unfoldable pub insert_decision : (ℕ → Decision) → Action ℕ
insert_decision make s =
    let n = s.last.decision + 1 in
    under (decision_insert_guard s.releases s.decisions (make n)) n s
      (with_decision_added n (make n) s)

unfoldable pub insert_reservation : (ℕ → Reservation) → Action ℕ
insert_reservation make s =
    let n = s.last.reservation + 1 in
    under (reservation_insert_guard s.releases (make n)) n s (with_reservation_added n (make n) s)

-- The first abort among the rows that an UPDATE of reservations touches.
unfoldable pub update_aborts :
    (Reservation → Bool) → (Reservation → Reservation) → List Reservation → Option Guard
update_aborts p f [] = none
update_aborts p f (r ∷ rs) =
    let later = update_aborts p f rs in
    if p r
    then elim (reservation_update_guard r (f r)) [ none ↦ later | some g ↦ some g ]
    else later

-- `UPDATE reservation SET … WHERE …`
unfoldable pub update_reservations :
    (Reservation → Bool) → (Reservation → Reservation) → Action (Unit {0})
update_reservations p f s =
    under (update_aborts p f s.reservations) tt s (with_reservations (update p f s.reservations) s)

-- `INSERT INTO event` (`insert_event_row` of eventcore.py)
unfoldable pub insert_event :
    (sprint_id : ℕ) (actor event_type source_type : String) (work_item_id : Option ℕ)
    (payload : Payload)
    → Action ℕ
insert_event sprint_id actor event_type source_type work_item_id payload s =
    let n = s.last.event + 1 in
    (
      ok n,
      with_event_added
          (new_event n sprint_id actor event_type source_type work_item_id payload s.clock) s,
    )

-- `INSERT OR IGNORE INTO work_release`: nothing is written where the digest is in the table, or a
-- CHECK constraint fails. The constraints on the revision and on the two JSON columns hold of every
-- row that the program writes.
abbrev pub digest_is : String → Release → Bool
digest_is digest r = r.release_digest == digest

abbrev pub with_release_added : Release → Ledger → Ledger
with_release_added row s = record s {
  releases = s.releases ++ row ∷ [];
  last = record s.last { release = row.id };
}

abbrev pub release_ignored : List Release → Release → Bool
release_ignored rs row =
    any (digest_is row.release_digest) rs
    || not (is_digest row.release_digest)
    || spaces_only row.actor

unfoldable pub insert_release : (ℕ → Release) → Action (Unit {0})
insert_release make s =
    let row = make (s.last.release + 1) in
    (ok tt, if release_ignored s.releases row then s else with_release_added row s)
