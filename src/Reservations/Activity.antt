-- ===== src/Reservations/Activity.antt =====
-- `note_session_activity` of sprintctl/db.py: the clock of the reservations of an item that a session
-- holds.
use sprintctl.Prelude.{ℕ, String, Option, none, some, List, [], ◌∷◌, select, if◌then◌else◌}
use sprintctl.Prelude.Text.{is_empty}
use sprintctl.Domain.{Reservation}
use sprintctl.Ledger.{Action, pure, gets, each, ◌>>=◌, ◌>>◌}
use sprintctl.Schema.Statements.{update_reservations}
use sprintctl.Reservations.{Shown, display, held_by, reservation_row}
use sprintctl.Reservations.Lifecycle.{required_row}

abbrev pub with_activity : ℕ → Reservation → Reservation
with_activity now r = record r { last_activity_at = now }

module _ (stale_after : ℕ) where
  abbrev pub show_noted : Reservation → Action Shown
  show_noted r = do
    found ← gets (reservation_row r.id)
    row ← (λ s. (required_row found, s))
    gets (λ s. display stale_after s.clock row)

  abbrev pub note_rows : (item_id : ℕ) (session : String) → List Reservation → Action (List Shown)
  note_rows item_id session [] = pure []
  note_rows item_id session (r ∷ rs) = do
    now ← gets (λ s. s.clock)
    update_reservations (held_by item_id session) (with_activity now)
    each show_noted (r ∷ rs)

  abbrev pub note_named : (item_id : ℕ) (session : String) → Action (List Shown)
  note_named item_id session =
      if is_empty session
      then pure []
      else (gets (λ s. select (held_by item_id session) s.reservations)
          >>= note_rows item_id session)

  -- Only the session that holds a reservation can move its clock.
  unfoldable pub note_session_activity :
      (work_item_id : ℕ) (session_id : Option String) → Action (List Shown)
  note_session_activity item_id none = pure []
  note_session_activity item_id (some session) = note_named item_id session
