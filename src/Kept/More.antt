-- ===== src/Kept/More.antt =====
-- Edits, sprints, dependencies and reservations.
use sprintctl.Prelude.{ℕ, refl, Option, none, some, String, Bool, List, [], ◌∷◌, arith}
use sprintctl.Domain.{Item, SprintStatus, SprintKind, Reservation}
use sprintctl.Ledger.{Fault, Ledger}
use sprintctl.Follows.{Follows}
use sprintctl.WorkItems.Edit.{
  check_edit, accept_text, update_work_item_description, with_description,
}
use sprintctl.Sprints.{
  lock_sprint, check_basis, permit, set_sprint_status, set_sprint_kind,
  close_sprint_with_boundary_event,
}
use sprintctl.Deps.{validate_add_dep, add_dep}
use sprintctl.Reservations.Lifecycle.{
  update_row, touch, reassign_row, reassign, release_active_row, release_one, release_locked,
  release_peeked, release, sweep_event, sweep_row, sweep,
}
use sprintctl.Reservations.Activity.{note_rows, note_session_activity}
use sprintctl.Kept.{Kept, KeepsIdentity}
use sprintctl.Kept.Decide.{
  Keeps-unchanged, Keeps-pure, Keeps-raise, Keeps-lift, Keeps-read, Keeps-bind, Keeps-each,
  Keeps-if, Keeps-transaction, Keeps-lock_item,
}

with_description-keeps : (t : String) (now : ℕ) → KeepsIdentity (with_description t now)
with_description-keeps t now = record { id = λ i. refl; uuid = λ i. refl }

module _ {R : Ledger → Ledger → Type 0} (k : Kept R) where
  Keeps-check_edit : (e : Option String) (c : String) → Follows R (check_edit e c)
  Keeps-check_edit e c = Keeps-unchanged k (check_edit e c) (λ s. ground arith)

  Keeps-accept_text : (b : Bool) (m : String) → Follows R (accept_text b m)
  Keeps-accept_text b m = Keeps-unchanged k (accept_text b m) (λ s. ground arith)

  Keeps-lock_sprint : (n : ℕ) → Follows R (lock_sprint n)
  Keeps-lock_sprint n = Keeps-unchanged k (lock_sprint n) (λ s. ground arith)

  Keeps-check_basis : (e : Option String) (c : String) → Follows R (check_basis e c)
  Keeps-check_basis e c = Keeps-unchanged k (check_basis e c) (λ s. ground arith)

  Keeps-permit : (b : Bool) (m : String) → Follows R (permit b m)
  Keeps-permit b m = Keeps-unchanged k (permit b m) (λ s. ground arith)

  Keeps-validate_add_dep : (a b : ℕ) → Follows R (validate_add_dep a b)
  unfolding validate_add_dep
  Keeps-validate_add_dep a b = Keeps-unchanged k (validate_add_dep a b) (λ s. ground arith)

  pub Keeps-add_dep : (a b : ℕ) → Follows R (add_dep a b)
  unfolding add_dep
  Keeps-add_dep a b = search (Keeps-bind k, Keeps-validate_add_dep, k.by_insert_dep)

  ruleset steps =
      (Keeps-check_edit, Keeps-accept_text, Keeps-lock_sprint, Keeps-check_basis, Keeps-permit)

  pub Keeps-update_work_item_description :
      (sha256 : String → String) (n : ℕ) (text : String) (expected : Option String) (actor : String)
      → Follows R (update_work_item_description sha256 n text expected actor)
  unfolding update_work_item_description
  Keeps-update_work_item_description sha256 n text expected actor =
      search
        (
          steps,
          Keeps-pure k,
          Keeps-lift k,
          Keeps-read k,
          Keeps-bind k,
          Keeps-transaction k,
          Keeps-lock_item k,
          k.by_update_item,
          with_description-keeps,
          k.by_insert_event,
        )
        depth 30

  pub Keeps-set_sprint_status :
      (n : ℕ) (st : SprintStatus) (expected : Option String)
      → Follows R (set_sprint_status n st expected)
  unfolding set_sprint_status
  Keeps-set_sprint_status n st expected =
      search (steps, Keeps-lift k, Keeps-bind k, Keeps-transaction k, k.by_update_sprint) depth 20

  pub Keeps-set_sprint_kind :
      (n : ℕ) (kind : SprintKind) (expected : Option String)
      → Follows R (set_sprint_kind n kind expected)
  unfolding set_sprint_kind
  Keeps-set_sprint_kind n kind expected =
      search
        (steps, Keeps-pure k, Keeps-lift k, Keeps-bind k, Keeps-transaction k, k.by_update_sprint)
        depth 20

  pub Keeps-close_sprint_with_boundary_event :
      (n : ℕ) (actor : String) (expected : Option String)
      → Follows R (close_sprint_with_boundary_event n actor expected)
  unfolding close_sprint_with_boundary_event
  Keeps-close_sprint_with_boundary_event n actor expected =
      search
        (
          steps,
          Keeps-lift k,
          Keeps-bind k,
          Keeps-transaction k,
          k.by_update_sprint,
          k.by_insert_event,
        )
        depth 20

  Keeps-update_row : (n : ℕ) (f : Reservation → Reservation) → Follows R (update_row n f)
  unfolding update_row
  Keeps-update_row n f = search (Keeps-bind k, Keeps-read k, k.by_update_reservations) depth 8

  module _ (stale_after : ℕ) where
    Keeps-note_rows :
        (n : ℕ) (session : String) (rs : List Reservation)
        → Follows R (note_rows stale_after n session rs)
    Keeps-note_rows n session [] = Keeps-pure k []
    Keeps-note_rows n session (r ∷ rs) =
        search (Keeps-bind k, Keeps-read k, Keeps-each k, k.by_update_reservations) depth 20

    pub Keeps-note_session_activity :
        (n : ℕ) (session : Option String) → Follows R (note_session_activity stale_after n session)
    unfolding note_session_activity
    Keeps-note_session_activity n none = Keeps-pure k []
    Keeps-note_session_activity n (some session) =
        search (Keeps-bind k, Keeps-read k, Keeps-if k, Keeps-pure k, Keeps-note_rows) depth 12

    pub Keeps-touch :
        (n : ℕ) (session : String) (c : Option String) → Follows R (touch stale_after n session c)
    unfolding touch
    Keeps-touch n session c =
        search (Keeps-bind k, Keeps-read k, Keeps-transaction k, Keeps-update_row) depth 16

    Keeps-reassign_row :
        (n : ℕ) (actor session : String) (c : Option String) (item : Item) (r : Reservation)
        → Follows R (reassign_row stale_after n actor session c item r)
    unfolding reassign_row
    Keeps-reassign_row n actor session c item r =
        search (Keeps-bind k, Keeps-read k, Keeps-update_row, k.by_insert_event) depth 12

    pub Keeps-reassign :
        (n : ℕ) (actor session : String) (c : Option String)
        → Follows R (reassign stale_after n actor session c)
    unfolding reassign
    Keeps-reassign n actor session c =
        search (Keeps-bind k, Keeps-read k, Keeps-transaction k, Keeps-reassign_row) depth 16

    Keeps-release_active_row :
        (n : ℕ) (actor : Option String) (item : Item) (r : Reservation)
        → Follows R (release_active_row stale_after n actor item r)
    unfolding release_active_row
    Keeps-release_active_row n actor item r =
        search (Keeps-bind k, Keeps-read k, Keeps-update_row, k.by_insert_event) depth 12

    Keeps-release_one :
        (n : ℕ) (actor : Option String) (p : Option (Item × Reservation))
        → Follows R (release_one stale_after n actor p)
    Keeps-release_one n actor none = Keeps-raise k (Fault.reservation_not_found n)
    Keeps-release_one n actor (some (item, r)) =
        search (Keeps-if k, Keeps-read k, Keeps-release_active_row)

    Keeps-release_locked :
        (n : ℕ) (actor : Option String) → Follows R (release_locked stale_after n actor)
    unfolding release_locked
    Keeps-release_locked n actor = search (Keeps-bind k, Keeps-read k, Keeps-release_one)

    Keeps-release_peeked :
        (n : ℕ) (actor : Option String) (r : Option Reservation)
        → Follows R (release_peeked stale_after n actor r)
    Keeps-release_peeked n actor none = Keeps-raise k (Fault.reservation_not_found n)
    Keeps-release_peeked n actor (some r) =
        search (Keeps-if k, Keeps-read k, Keeps-transaction k, Keeps-release_locked)

    pub Keeps-release : (n : ℕ) (actor : Option String) → Follows R (release stale_after n actor)
    unfolding release
    Keeps-release n actor = search (Keeps-bind k, Keeps-read k, Keeps-release_peeked)

    Keeps-sweep_event :
        (r : Reservation) (reason : String) (item : Option Item)
        → Follows R (sweep_event stale_after r reason item)
    Keeps-sweep_event r reason none = Keeps-raise k Fault.assertion_error
    Keeps-sweep_event r reason (some item) = search (Keeps-bind k, Keeps-pure k, k.by_insert_event)

    Keeps-sweep_row :
        (now : ℕ) (reason : String) (r : Reservation)
        → Follows R (sweep_row stale_after now reason r)
    unfolding sweep_row
    Keeps-sweep_row now reason r =
        search (Keeps-bind k, Keeps-read k, Keeps-update_row, Keeps-sweep_event) depth 16

    pub Keeps-sweep :
        (now window : ℕ) (reason : String) → Follows R (sweep stale_after now window reason)
    unfolding sweep
    Keeps-sweep now window reason =
        search (Keeps-bind k, Keeps-read k, Keeps-transaction k, Keeps-each k, Keeps-sweep_row)
          depth 10
