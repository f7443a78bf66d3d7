-- ===== src/History/Statements.antt =====
-- The INSERT and UPDATE statements and the order in which a ledger extends another.
use sprintctl.Prelude.{
  ℕ, ◌+◌, ◌≡◌, refl, Option, none, some, [], ◌∷◌, find-append, String, Bool, true, false, update,
  if◌then◌else◌,
}
use sprintctl.Domain.{Item, Decision, Release, Reservation, Event, Payload}
use sprintctl.Ledger.{Guard, Ledger}
use sprintctl.Schema.{item_is, item_insert_guard, decision_insert_guard, reservation_insert_guard}
use sprintctl.Schema.Statements.{
  insert_item, insert_decision, insert_reservation, update_reservations, update_aborts,
  insert_event, under, with_item_added, with_decision_added, with_event_added,
  with_reservation_added, with_reservations, new_item, new_event, insert_release,
  with_release_added, release_ignored,
}
use sprintctl.Follows.{Follows}
use sprintctl.History.{Extends, Extends-refl, Later-refl, grown_refl, same_items}

-- Under a guard a statement leaves the ledger as it was, or its new ledger.
Extends-under :
    {A : Type 0} (r : Option Guard) (a : A) (s t : Ledger)
    → Extends s t
    → Extends s (under r a s t).1
Extends-under none a s t h = h
Extends-under (some g) a s t h = Extends-refl s

item_added : (row : Item) (s : Ledger) → Extends s (with_item_added row s)
item_added row s = record {
  items = λ n i h. (i, find-append (item_is n) s.items (row ∷ []) i h, Later-refl i);
  decisions = grown_refl s.decisions;
  releases = grown_refl s.releases;
  events = grown_refl s.events;
}

decision_added : (n : ℕ) (row : Decision) (s : Ledger) → Extends s (with_decision_added n row s)
decision_added n row s = record {
  items = same_items s (with_decision_added n row s) refl;
  decisions = (row ∷ [], refl);
  releases = grown_refl s.releases;
  events = grown_refl s.events;
}

event_added : (row : Event) (s : Ledger) → Extends s (with_event_added row s)
event_added row s = record {
  items = same_items s (with_event_added row s) refl;
  decisions = grown_refl s.decisions;
  releases = grown_refl s.releases;
  events = (row ∷ [], refl);
}

-- Nothing that `Extends` speaks of is in the other tables.
pub Extends-same :
    (s t : Ledger)
    → t.items ≡ s.items
    → t.decisions ≡ s.decisions
    → t.releases ≡ s.releases
    → t.events ≡ s.events
    → Extends s t
Extends-same s t i d r e = record {
  items = same_items s t i;
  decisions = rw d (grown_refl s.decisions);
  releases = rw r (grown_refl s.releases);
  events = rw e (grown_refl s.events);
}

pub Extends-insert_item :
    (sprint_id track_id : ℕ) (title description : String) (assignee : Option String)
    (priority : Option ℕ) (uuid : String)
    → Follows Extends (insert_item sprint_id track_id title description assignee priority uuid)
unfolding insert_item
Extends-insert_item sprint_id track_id title description assignee priority uuid = record {
  at = λ s.
      let row =
        new_item (s.last.item + 1) sprint_id track_id title description assignee priority uuid
          s.clock in
      Extends-under (item_insert_guard s.decisions row) (s.last.item + 1) s (with_item_added row s)
        (item_added row s);
}

pub Extends-insert_decision : (make : ℕ → Decision) → Follows Extends (insert_decision make)
unfolding insert_decision
Extends-insert_decision make = record {
  at = λ s.
      let n = s.last.decision + 1 in
      Extends-under (decision_insert_guard s.releases s.decisions (make n)) n s
        (with_decision_added n (make n) s) (decision_added n (make n) s);
}

pub Extends-insert_reservation :
    (make : ℕ → Reservation) → Follows Extends (insert_reservation make)
unfolding insert_reservation
Extends-insert_reservation make = record {
  at = λ s.
      let n = s.last.reservation + 1 in
      Extends-under (reservation_insert_guard s.releases (make n)) n s
        (with_reservation_added n (make n) s)
        (Extends-same s (with_reservation_added n (make n) s) refl refl refl refl);
}

pub Extends-update_reservations :
    (p : Reservation → Bool) (f : Reservation → Reservation)
    → Follows Extends (update_reservations p f)
unfolding update_reservations
Extends-update_reservations p f = record {
  at = λ s.
      let t = with_reservations (update p f s.reservations) s in
      Extends-under (update_aborts p f s.reservations) tt s t
        (Extends-same s t refl refl refl refl);
}

pub Extends-insert_event :
    (sprint_id : ℕ) (actor event_type source_type : String) (work_item_id : Option ℕ)
    (payload : Payload)
    → Follows Extends (insert_event sprint_id actor event_type source_type work_item_id payload)
unfolding insert_event
Extends-insert_event sprint_id actor event_type source_type work_item_id payload = record {
  at = λ s.
      event_added
        (new_event (s.last.event + 1) sprint_id actor event_type source_type work_item_id payload
          s.clock)
        s;
}

release_added : (row : Release) (s : Ledger) → Extends s (with_release_added row s)
release_added row s = record {
  items = same_items s (with_release_added row s) refl;
  decisions = grown_refl s.decisions;
  releases = (row ∷ [], refl);
  events = grown_refl s.events;
}

Extends-ignored :
    (b : Bool) (row : Release) (s : Ledger) → Extends s (if b then s else with_release_added row s)
Extends-ignored true row s = Extends-refl s
Extends-ignored false row s = release_added row s

pub Extends-insert_release : (make : ℕ → Release) → Follows Extends (insert_release make)
unfolding insert_release
Extends-insert_release make = record {
  at = λ s.
      let row = make (s.last.release + 1) in Extends-ignored (release_ignored s.releases row) row s;
}
