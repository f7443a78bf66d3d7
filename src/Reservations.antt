-- ===== src/Reservations.antt =====
-- sprintctl/reservation.py, sprintctl/reservation_policy.py and sprintctl/reservationcore.py with
-- their SQLite adapters in sprintctl/db.py: advisory reservations of work items.
-- A timestamp is a number of seconds, so the cutoff of a sweep is a difference of numbers.
pub mod Lifecycle
pub mod Activity
pub mod Ends
pub mod Released
pub mod Admission
pub mod Reserve
pub mod Admitted
pub mod Overlap
pub mod Returns
pub mod Executes
pub mod Accepts
use sprintctl.Prelude.{
  ℕ, suc, ◌+◌, ◌-◌, String, Bool, true, false, not, ◌&&◌, ◌||◌, Option, none, some, List, [], ◌∷◌,
  any, map, find, select, leb, ◌==◌, nat_eq, string_eq, if◌then◌else◌,
}
use sprintctl.Prelude.Text.{strip}
use sprintctl.Domain.{
  Status, Role, ReservationState, Item, Reservation, Payload, role_eq, reservation_state_eq,
  status_eq,
}
use sprintctl.Ledger.{Fault, Ledger, Outcome, Action, ok, err, pure, gets, ◌>>=◌, ◌>>◌}
use sprintctl.Schema.Statements.{get_item, update_reservations, insert_event}

-- The four folded names of `ROLE_ALIASES`, then the roles.
abbrev pub role_named : String → Option Role
role_named s =
    if s == "execute"
    then some Role.execution
    else if s == "review"
    then some Role.verification
    else if s == "inspect"
    then some Role.observation
    else if s == "coordinate"
    then some Role.observation
    else if s == "execution"
    then some Role.execution
    else if s == "verification"
    then some Role.verification
    else if s == "observation"
    then some Role.observation
    else none

abbrev pub role_or_error : Option Role → Outcome Role
role_or_error none = err (Fault.value_error "invalid reservation role")
role_or_error (some r) = ok r

-- `lower` is Python's `str.lower`.
unfoldable pub normalize_role : (lower : String → String) → Option String → Outcome Role
normalize_role lower none = ok Role.execution
normalize_role lower (some role) = role_or_error (role_named (lower (strip role)))

-- `display`: the row with its age and whether it is stale. Both are read off the clock.
pub record Shown : Type 0 where
  pub row : Reservation
  pub activity_age_seconds : ℕ
  pub stale : Bool

abbrev pub is_active : Reservation → Bool
is_active r = r.state == ReservationState.active

unfoldable pub display : (stale_after now : ℕ) → Reservation → Shown
display stale_after now r = record {
  row = r;
  activity_age_seconds = now - r.last_activity_at;
  stale = is_active r && leb stale_after (now - r.last_activity_at);
}

pub data Severity : Type 0 where
  warning informational no_conflict : Severity

pub record Annotated : Type 0 where
  pub shown : Shown
  pub conflict : Bool
  pub conflicting_reservations : List Reservation
  pub conflict_severity : Severity

abbrev pub executes : Reservation → Bool
executes r = r.role == Role.execution

abbrev pub nonempty {ℓ} : {A : Type ℓ} → List A → Bool
nonempty [] = false
nonempty (x ∷ xs) = true

unfoldable pub annotate_conflicts : Shown → List Reservation → Annotated
annotate_conflicts row others = record {
  shown = row;
  conflict = nonempty others;
  conflicting_reservations = others;
  conflict_severity =
      if executes row.row && any executes others
      then Severity.warning
      else if nonempty others
      then Severity.informational
      else Severity.no_conflict;
}

abbrev pub reservation_is : ℕ → Reservation → Bool
reservation_is n r = r.id == n

abbrev pub reservation_row : ℕ → Ledger → Option Reservation
reservation_row n s = find (reservation_is n) s.reservations

-- `_release_caller_reservations`: the session's active reservations of the item are released, with
-- an event for each; their ids are returned. An absent or empty session holds none.
abbrev pub held_by : ℕ → String → Reservation → Bool
held_by item_id session r = r.work_item_id == item_id && r.session_id == session && is_active r

abbrev pub released_row : ℕ → Reservation → Reservation
released_row now r = record r {
  state = ReservationState.released;
  released_at = some now;
  last_activity_at = now;
}

unfoldable pub release_events : Item → String → List Reservation → Action (Unit {0})
release_events item actor [] = pure tt
release_events item actor (r ∷ rs) = do
  insert_event item.sprint_id actor "reservation.released" "system" (some item.id)
      (Payload.unreserved r.id)
  release_events item actor rs

unfoldable pub release_rows : Item → String → String → List Reservation → Action (List ℕ)
unfolding release_events
release_rows item session actor [] = pure []
release_rows item session actor (r ∷ rs) = do
  now ← gets (λ s. s.clock)
  update_reservations (held_by item.id session) (released_row now)
  release_events item actor (r ∷ rs)
  pure (map (λ q. q.id) (r ∷ rs))

unfoldable pub release_caller_reservations : Item → Option String → String → Action (List ℕ)
unfolding release_rows
release_caller_reservations item none actor = pure []
release_caller_reservations item (some session) actor = if session == "" then pure [] else do
  rows ← gets (λ s. select (held_by item.id session) s.reservations)
  release_rows item session actor rows
