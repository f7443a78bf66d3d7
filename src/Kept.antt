-- ===== src/Kept.antt =====
-- Relations between ledgers that each statement respects. The child modules have one rule for each
-- operation.
pub mod Decide
pub mod Create
pub mod More
pub mod Maintain
pub mod Backlog
pub mod Refs
pub mod Reserve
use sprintctl.Prelude.{◌≡◌, ℕ, Bool, Option, String, List}
use sprintctl.Domain.{Item, Reservation, Payload, Sprint, Track, Release}
use sprintctl.Ledger.{Ledger, Action}
use sprintctl.Decisions.{Request}
use sprintctl.Schema.Statements.{
  insert_item, insert_decision, insert_reservation, update_item, update_reservations, insert_event,
  insert_release,
}
use sprintctl.WorkItems.Decide.{decision_row}
use sprintctl.Sprints.{update_sprint}
use sprintctl.Maintain.{get_or_create_track}
use sprintctl.Deps.{insert_dep, remove_dep}
use sprintctl.Refs.{insert_ref, remove_ref}
use sprintctl.Program.Clock.{tick}
use sprintctl.Follows.{Preorder, Follows}

-- An update of an item that changes neither of its names.
pub record KeepsIdentity (f : Item → Item) : Type 0 where
  pub id : (i : Item) → (f i).id ≡ i.id
  pub uuid : (i : Item) → (f i).aggregate_uuid ≡ i.aggregate_uuid

pub record Kept (R : Ledger → Ledger → Type 0) : Type 0 where
  pub order : Preorder R
  pub by_insert_item :
      (sprint_id track_id : ℕ) (title description : String) (assignee : Option String)
      (priority : Option ℕ) (uuid : String)
      → Follows R (insert_item sprint_id track_id title description assignee priority uuid)
  pub by_update_item : (n : ℕ) (f : Item → Item) → KeepsIdentity f → Follows R (update_item n f)
  pub by_insert_decision :
      (item_id : ℕ) (d : Request) (release : Option String) (now : ℕ)
      → Follows R (insert_decision (decision_row item_id d release now))
  pub by_insert_reservation : (make : ℕ → Reservation) → Follows R (insert_reservation make)
  pub by_update_reservations :
      (p : Reservation → Bool) (f : Reservation → Reservation) → Follows R (update_reservations p f)
  pub by_insert_event :
      (sprint_id : ℕ) (actor event_type source_type : String) (work_item_id : Option ℕ)
      (payload : Payload)
      → Follows R (insert_event sprint_id actor event_type source_type work_item_id payload)
  pub by_update_sprint : (n : ℕ) (f : Sprint → Sprint) → Follows R (update_sprint n f)
  pub by_track :
      (sprint_id : ℕ) (name description : String)
      → Follows R (get_or_create_track sprint_id name description)
  pub by_insert_dep : (a b : ℕ) → Follows R (insert_dep a b)
  pub by_remove_dep : (n m : ℕ) → Follows R (remove_dep n m)
  pub by_insert_release : (make : ℕ → Release) → Follows R (insert_release make)
  pub by_insert_ref :
      (work_item_id : ℕ) (ref_type url label : String)
      → Follows R (insert_ref work_item_id ref_type url label)
  pub by_remove_ref : (n m : ℕ) → Follows R (remove_ref n m)
  pub by_tick : (now : ℕ) → Follows R (tick now)
