-- ===== src/Program/Reach.antt =====
-- Relations between ledgers and sequences of calls.
use sprintctl.Ledger.{Ledger, Action, pure}
use sprintctl.Follows.{Follows}
use sprintctl.Kept.{Kept}
use sprintctl.Kept.Create.{Keeps-create_work_item, Keeps-set_work_item_priority}
use sprintctl.Kept.Decide.{
  Keeps-bind, Keeps-pure, Keeps-set_work_item_status, Keeps-record_decision_keyed,
}
use sprintctl.Kept.More.{
  Keeps-update_work_item_description, Keeps-set_sprint_status, Keeps-set_sprint_kind,
  Keeps-close_sprint_with_boundary_event, Keeps-add_dep, Keeps-note_session_activity, Keeps-touch,
  Keeps-reassign, Keeps-release, Keeps-sweep,
}
use sprintctl.Kept.Reserve.{Keeps-reserve}
use sprintctl.Kept.Maintain.{Keeps-carryover, Keeps-sweep_stale_items}
use sprintctl.Kept.Backlog.{Keeps-backlog_seed_from_candidates}
use sprintctl.Kept.Refs.{Keeps-add_ref}
use sprintctl.Program.{Environment, Command, perform, discard, Reaches}

module _ {R : Ledger → Ledger → Type 0} (k : Kept R) (env : Environment) where
  Keeps-discard : {A : Type 0} (m : Action A) → Follows R m → Follows R (discard m)
  Keeps-discard m h = Keeps-bind k m (λ _. pure tt) h (λ _. Keeps-pure k tt)

  Keeps-perform : (c : Command) → Follows R (perform env c)
  Keeps-perform (Command.create_item sprint track title text assignee priority uuid) =
      search (Keeps-discard, Keeps-create_work_item k)
  Keeps-perform (Command.set_priority n priority) =
      search (Keeps-discard, Keeps-set_work_item_priority k)
  Keeps-perform (Command.edit_description n text expected actor) =
      search (Keeps-discard, Keeps-update_work_item_description k)
  Keeps-perform (Command.set_status n status actor expected reason session) =
      search (Keeps-discard, Keeps-set_work_item_status k)
  Keeps-perform (Command.decide n kind actor rationale digests release successor expected key) =
      search (Keeps-discard, Keeps-record_decision_keyed k)
  Keeps-perform (Command.open_track sprint name text) = search (Keeps-discard, k.by_track)
  Keeps-perform (Command.move_sprint n status expected) =
      search (Keeps-discard, Keeps-set_sprint_status k)
  Keeps-perform (Command.sort_sprint n kind expected) =
      search (Keeps-discard, Keeps-set_sprint_kind k)
  Keeps-perform (Command.close_sprint n actor expected) =
      search (Keeps-discard, Keeps-close_sprint_with_boundary_event k)
  Keeps-perform (Command.block a b) = search (Keeps-discard, Keeps-add_dep k)
  Keeps-perform (Command.unblock n m) = search (Keeps-discard, k.by_remove_dep)
  Keeps-perform (Command.touch_reservation n session correlation) =
      search (Keeps-discard, Keeps-touch k)
  Keeps-perform (Command.note_activity n session) =
      search (Keeps-discard, Keeps-note_session_activity k)
  Keeps-perform (Command.reassign_reservation n actor session correlation) =
      search (Keeps-discard, Keeps-reassign k)
  Keeps-perform (Command.release_reservation n actor) = search (Keeps-discard, Keeps-release k)
  Keeps-perform
        (Command.reserve_item n actor session role correlation take_over expected contract) =
      search (Keeps-discard, Keeps-reserve k)
  Keeps-perform (Command.sweep_reservations now window reason) =
      search (Keeps-discard, Keeps-sweep k)
  Keeps-perform (Command.sweep_items sprint now threshold) =
      search (Keeps-discard, Keeps-sweep_stale_items k)
  Keeps-perform (Command.carry_over source target) = search (Keeps-discard, Keeps-carryover k)
  Keeps-perform (Command.link_ref item kind url label) = search (Keeps-discard, Keeps-add_ref k)
  Keeps-perform (Command.unlink_ref n m) = search (Keeps-discard, k.by_remove_ref)
  Keeps-perform (Command.seed_backlog source target actor) =
      search (Keeps-discard, Keeps-backlog_seed_from_candidates k)
  Keeps-perform (Command.pass_time seconds) = search (Keeps-discard, k.by_tick)

  pub Keeps-reached : (s t : Ledger) → Reaches env s t → R s t
  Keeps-reached s t Reaches.here = k.order.stay s
  Keeps-reached s t (Reaches.call c u h) =
      k.order.join s u t (Keeps-reached s u h) ((Keeps-perform c).at u)
