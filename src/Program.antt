-- ===== src/Program.antt =====
-- The program as a whole: the operations of sprintctl/db.py and sprintctl/maintain.py that write the
-- ledger, in any order, with time passing between them.
pub mod Clock
pub mod Reach
use sprintctl.Prelude.{ℕ, String, Bool, Option, List}
use sprintctl.Domain.{Status, SprintStatus, SprintKind, Reason, Payload}
use sprintctl.Ledger.{Ledger, Outcome, Action, after, ok, pure, ◌>>=◌, ◌>>◌}
use sprintctl.WorkItems.Basics.{create_work_item, set_work_item_priority}
use sprintctl.WorkItems.Decide.{record_decision_keyed}
use sprintctl.WorkItems.Status.{set_work_item_status}
use sprintctl.WorkItems.Edit.{update_work_item_description}
use sprintctl.Sprints.{set_sprint_status, set_sprint_kind, close_sprint_with_boundary_event}
use sprintctl.Deps.{add_dep, remove_dep}
use sprintctl.Reservations.Activity.{note_session_activity}
use sprintctl.Reservations.Lifecycle.{touch, reassign, release, sweep}
use sprintctl.Domain.Json.{Json, Fields}
use sprintctl.Reservations.Admission.{reserve}
use sprintctl.Maintain.{get_or_create_track, carryover, sweep_stale_items}
use sprintctl.Backlog.{backlog_seed_from_candidates}
use sprintctl.Refs.{Url, add_ref, remove_ref}
use sprintctl.Program.Clock.{tick}

-- One call of an operation, with its arguments.
pub data Command : Type 0 where
  create_item :
      (sprint_id track_id : ℕ) (title description : String) (assignee : Option String)
      (priority : Option ℕ) (uuid : String)
      → Command
  set_priority : (item_id : ℕ) (priority : Option ℕ) → Command
  edit_description :
      (item_id : ℕ) (description : String) (expected : Option String) (actor : String) → Command
  set_status :
      (item_id : ℕ) (status : Status) (actor expected : Option String) (reason : Option Reason)
      (session : Option String)
      → Command
  decide :
      (item_id : ℕ) (kind actor rationale : String) (digests : List String)
      (release : Option String) (successor : Option ℕ) (expected key : Option String)
      → Command
  open_track : (sprint_id : ℕ) (name description : String) → Command
  move_sprint : (sprint_id : ℕ) (status : SprintStatus) (expected : Option String) → Command
  sort_sprint : (sprint_id : ℕ) (kind : SprintKind) (expected : Option String) → Command
  close_sprint : (sprint_id : ℕ) (actor : String) (expected : Option String) → Command
  block : (item_id blocked_item_id : ℕ) → Command
  unblock : (dep_id item_id : ℕ) → Command
  touch_reservation : (ident : ℕ) (session : String) (correlation : Option String) → Command
  note_activity : (item_id : ℕ) (session : Option String) → Command
  reassign_reservation :
      (ident : ℕ) (actor session : String) (correlation : Option String) → Command
  release_reservation : (ident : ℕ) (actor : Option String) → Command
  reserve_item :
      (item_id : ℕ) (actor session : String) (role correlation : Option String)
      (interrupt_existing : Bool) (expected : Option String) (contract : Option Json)
      → Command
  sweep_reservations : (now window : ℕ) (reason : String) → Command
  sweep_items : (sprint_id now threshold : ℕ) → Command
  carry_over : (source target : ℕ) → Command
  link_ref : (item_id : ℕ) (ref_type url label : String) → Command
  unlink_ref : (ref_id item_id : ℕ) → Command
  seed_backlog : (source target : ℕ) (actor : String) → Command
  pass_time : (seconds : ℕ) → Command

abbrev pub discard : {A : Type 0} → Action A → Action (Unit {0})
discard m = m >>= λ _. pure tt

-- What the program takes from outside: `str.lower`, SHA-256 in hexadecimal, the printing of canonical
-- JSON and its reading back, `uuid4`, `urlparse`, `posixpath.normpath`, and the horizon of the reservation policy in seconds.
pub record Environment : Type 0 where
  pub lower : String → String
  pub sha256 : String → String
  pub dumps : Json → String
  pub canonical : Fields → Fields
  pub fresh : ℕ → String
  pub urlparse : String → Outcome Url
  pub normpath : String → String
  pub stale_after : ℕ

module _ (env : Environment) where
  -- What the call does; its result is left out.
  abbrev pub perform : Command → Action (Unit {0})
  perform (Command.create_item sprint track title text assignee priority uuid) =
      discard (create_work_item sprint track title text assignee priority uuid)
  perform (Command.set_priority n priority) = discard (set_work_item_priority n priority)
  perform (Command.edit_description n text expected actor) =
      discard (update_work_item_description env.sha256 n text expected actor)
  perform (Command.set_status n status actor expected reason session) =
      discard (set_work_item_status n status actor expected reason session)
  perform (Command.decide n kind actor rationale digests release successor expected key) =
      discard (record_decision_keyed n kind actor rationale digests release successor expected key)
  perform (Command.open_track sprint name text) = discard (get_or_create_track sprint name text)
  perform (Command.move_sprint n status expected) = discard (set_sprint_status n status expected)
  perform (Command.sort_sprint n kind expected) = discard (set_sprint_kind n kind expected)
  perform (Command.close_sprint n actor expected) =
      discard (close_sprint_with_boundary_event n actor expected)
  perform (Command.block a b) = discard (add_dep a b)
  perform (Command.unblock n m) = discard (remove_dep n m)
  perform (Command.touch_reservation n session correlation) =
      discard (touch env.stale_after n session correlation)
  perform (Command.note_activity n session) =
      discard (note_session_activity env.stale_after n session)
  perform (Command.reassign_reservation n actor session correlation) =
      discard (reassign env.stale_after n actor session correlation)
  perform (Command.release_reservation n actor) = discard (release env.stale_after n actor)
  perform (Command.reserve_item n actor session role correlation take_over expected contract) =
      discard (
        reserve env.lower env.sha256 env.dumps env.stale_after env.canonical n actor session role
          correlation take_over expected contract)
  perform (Command.sweep_reservations now window reason) =
      discard (sweep env.stale_after now window reason)
  perform (Command.sweep_items sprint now threshold) =
      discard (sweep_stale_items sprint now threshold)
  perform (Command.carry_over source target) = discard (carryover env.fresh source target)
  perform (Command.link_ref item kind url label) =
      discard (add_ref env.urlparse env.normpath item kind url label)
  perform (Command.unlink_ref n m) = discard (remove_ref n m)
  perform (Command.seed_backlog source target actor) =
      discard (backlog_seed_from_candidates env.fresh source target actor)
  perform (Command.pass_time seconds) = discard (tick seconds)

  -- The ledgers that a sequence of calls reaches, those that raise included.
  pub data Reaches (s : Ledger) : Ledger → Type 0 where
    here : Reaches s s
    call : (c : Command) (t : Ledger) → Reaches s t → Reaches s (after (perform c) t)
