-- ===== src/History/Terminal.antt =====
-- Sequences of calls on the ledger, and the items that are closed.
use sprintctl.Prelude.{ℕ, refl, Option, none, some, String, find, arith}
use sprintctl.Domain.{Track}
use sprintctl.Ledger.{Ledger, after}
use sprintctl.WorkItems.Decide.{decision_row}
use sprintctl.Refs.{insert_ref, remove_ref}
use sprintctl.Deps.{insert_dep, remove_dep}
use sprintctl.Maintain.{get_or_create_track, track_or_new, track_is}
use sprintctl.Sprints.{update_sprint}
use sprintctl.Program.{Environment, Reaches}
use sprintctl.Program.Clock.{tick}
use sprintctl.Program.Reach.{Keeps-reached}
use sprintctl.Follows.{Follows}
use sprintctl.Kept.{Kept}
use sprintctl.History.{Extends, Extends-refl, extends_order, Extends-update_item}
use sprintctl.History.Statements.{
  Extends-insert_item, Extends-insert_decision, Extends-insert_reservation, Extends-insert_release,
  Extends-update_reservations, Extends-insert_event, Extends-same,
}

track_or_new-Extends :
    (n : ℕ) (name text : String) (s : Ledger) (t : Option Track)
    → Extends s (after (track_or_new n name text t) s)
track_or_new-Extends n name text s (some t) = Extends-refl s
track_or_new-Extends n name text s none =
    Extends-same s (after (track_or_new n name text none) s) refl refl refl refl

track-Extends : (n : ℕ) (name text : String) → Follows Extends (get_or_create_track n name text)
unfolding get_or_create_track
track-Extends n name text = record {
  at = λ s. track_or_new-Extends n name text s (find (track_is n name) s.tracks);
}

insert_dep-Extends : (a b : ℕ) → Follows Extends (insert_dep a b)
unfolding insert_dep
insert_dep-Extends a b = record {
  at = λ s.
      Extends-same s (after (insert_dep a b) s) (ground arith) (ground arith) (ground arith)
        (ground arith);
}

remove_dep-Extends : (n m : ℕ) → Follows Extends (remove_dep n m)
unfolding remove_dep
remove_dep-Extends n m = record {
  at = λ s.
      Extends-same s (after (remove_dep n m) s) (ground arith) (ground arith) (ground arith)
        (ground arith);
}

insert_ref-Extends :
    (n : ℕ) (kind url label : String) → Follows Extends (insert_ref n kind url label)
unfolding insert_ref
insert_ref-Extends n kind url label = record {
  at = λ s. Extends-same s (after (insert_ref n kind url label) s) refl refl refl refl;
}

remove_ref-Extends : (n m : ℕ) → Follows Extends (remove_ref n m)
unfolding remove_ref
remove_ref-Extends n m = record {
  at = λ s.
      Extends-same s (after (remove_ref n m) s) (ground arith) (ground arith) (ground arith)
        (ground arith);
}

extends_kept : Kept Extends
unfolding update_sprint
extends_kept = record {
  order = extends_order;
  by_insert_item = Extends-insert_item;
  by_update_item = λ n f keeps. Extends-update_item n f keeps;
  by_insert_decision = λ n d release now. Extends-insert_decision (decision_row n d release now);
  by_insert_reservation = Extends-insert_reservation;
  by_insert_release = Extends-insert_release;
  by_update_reservations = Extends-update_reservations;
  by_insert_event = Extends-insert_event;
  by_update_sprint =
      λ n f. record { at = λ s. Extends-same s (after (update_sprint n f) s) refl refl refl refl };
  by_track = track-Extends;
  by_insert_dep = insert_dep-Extends;
  by_remove_dep = remove_dep-Extends;
  by_insert_ref = insert_ref-Extends;
  by_remove_ref = remove_ref-Extends;
  by_tick = λ now. record { at = λ s. Extends-same s (after (tick now) s) refl refl refl refl };
}

module _ (env : Environment) (s t : Ledger) (h : Reaches env s t) where
  -- Whatever calls are made, in whatever order and whether they return or raise: decisions, releases
  -- and events are only added at the end; every item is still found by its id, with the same UUID and
  -- legacy mark; an item that was done is done, and a terminal decision once bound stays bound with
  -- the same resolution.
  pub Reaches-Extends : Extends s t
  Reaches-Extends = Keeps-reached extends_kept env s t h
