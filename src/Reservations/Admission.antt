-- ===== src/Reservations/Admission.antt =====
-- `reserve` of sprintctl/db.py with `_reserve_admitted` of sprintctl/reservationcore.py: a
-- reservation reports the active ones that it meets, and interrupts those only that it is asked to
-- take over from; an execution reservation freezes the release of its item.
use sprintctl.Prelude.{
  ℕ, String, Bool, not, ◌&&◌, ◌||◌, Option, none, some, List, [], ◌∷◌, map, select, contains, ◌==◌,
  nat_eq, if◌then◌else◌,
}
use Prim.Native.String.{◌++◌}
use sprintctl.Domain.{
  Role, ReservationState, Item, Reservation, Payload, role_eq, reservation_state_eq,
}
use sprintctl.Domain.Json.{Json, Fields}
use sprintctl.Ledger.{
  Fault, Outcome, Action, ok, err, pure, lift, gets, require, transaction, each, ◌>>=◌, ◌>>◌,
}
use sprintctl.Schema.{is_some}
use sprintctl.Schema.Statements.{get_item, insert_reservation, update_reservations, insert_event}
use sprintctl.Releases.Contract.{normalize_acceptance_contract}
use sprintctl.Releases.Freeze.{Basis, release_basis, basis_matches, freeze, validate_basis}
use sprintctl.Reservations.{
  Annotated, is_active, executes, normalize_role, display, annotate_conflicts, reservation_row,
}
use sprintctl.Reservations.Lifecycle.{interrupted, required_row}

-- The arguments of a reservation once they are validated.
pub record Asked : Type 0 where
  pub actor : String
  pub session_id : String
  pub role : Role
  pub correlation_ref : Option String
  pub interrupt_existing : Bool
  pub expected_revision : Option String
  pub contract : Fields

abbrev pub asked :
    (actor session : String) (correlation : Option String) (take_over : Bool)
    → Role
    → Option String
    → Fields
    → Asked
asked actor session correlation take_over r basis c = record {
  actor = actor;
  session_id = session;
  role = r;
  correlation_ref = correlation;
  interrupt_existing = take_over;
  expected_revision = basis;
  contract = c;
}

abbrev pub active_on : ℕ → Reservation → Bool
active_on item_id r = r.work_item_id == item_id && is_active r

abbrev pub executing_on : ℕ → Reservation → Bool
executing_on item_id r = r.work_item_id == item_id && is_active r && executes r

abbrev pub reservation_of : ℕ → Asked → Option String → ℕ → ℕ → Reservation
reservation_of item_id a digest now n = record {
  id = n;
  work_item_id = item_id;
  session_id = a.session_id;
  actor = a.actor;
  role = a.role;
  state = ReservationState.active;
  created_at = now;
  last_activity_at = now;
  released_at = none;
  interruption_reason = none;
  correlation_ref = a.correlation_ref;
  release_digest = digest;
}

-- The reservations that a takeover displaces, and those that stay beside the new one.
abbrev pub displaced : Asked → List Reservation → List Reservation
displaced a existing = if a.interrupt_existing then select executes existing else []

abbrev pub remaining : Asked → List Reservation → List Reservation
remaining a existing =
    select (λ r. not (contains (map (λ q. q.id) (displaced a existing)) r.id)) existing

abbrev pub takeover_reason : Asked → String
takeover_reason a = "interrupted by " ++ (a.actor ++ (" (" ++ (a.session_id ++ ")")))

abbrev pub required_item : Option Item → Outcome Item
required_item none = err Fault.assertion_error
required_item (some item) = ok item

abbrev pub item_or_missing : ℕ → Option Item → Outcome Item
item_or_missing n none = err (Fault.item_not_found n)
item_or_missing n (some item) = ok item

abbrev pub check_stale : Option String → String → Action (Unit {0})
check_stale none current s = (ok tt, s)
check_stale (some expected) current s =
    if basis_matches expected current
    then (ok tt, s)
    else (err (Fault.stale_basis expected current), s)

abbrev pub interrupt_displaced : ℕ → Asked → ℕ → List Reservation → Action (Unit {0})
interrupt_displaced item_id a now [] = pure tt
interrupt_displaced item_id a now (r ∷ rs) =
    update_reservations (executing_on item_id) (interrupted now (takeover_reason a))

unfoldable pub interruption_event : Item → Asked → ℕ → Reservation → Action ℕ
interruption_event item a n old =
    insert_event item.sprint_id a.actor "reservation.interrupted" "system" (some old.work_item_id)
      (Payload.taken_over old.id n)

abbrev pub validate_expected : Option String → Outcome (Option String)
validate_expected none = ok none
validate_expected (some expected) = elim (validate_basis expected) [
  | ok e ↦ ok (some e)
  | err e ↦ err e
]

-- The parameters of the release, and the policy's horizon in seconds.
module _ (lower : String → String) (sha256 : String → String) (dumps : Json → String)
    (stale_after : ℕ) where
  unfoldable pub freeze_contract : Asked → Basis → Action (Option String)
  freeze_contract a b = do
    digest ← freeze lower sha256 dumps b a.actor a.contract
    pure (some digest)

  unfoldable pub release_at_basis : ℕ → Asked → Action (Option String)
  unfolding freeze_contract
  release_at_basis item_id a = do
    b ← release_basis lower sha256 dumps item_id
    check_stale a.expected_revision b.revision
    if a.role == Role.execution then freeze_contract a b else pure none

  unfoldable pub release_for : ℕ → Asked → Action (Option String)
  unfolding release_at_basis
  release_for item_id a =
      if a.role == Role.execution || is_some a.expected_revision
      then release_at_basis item_id a
      else pure none

  -- From `read_inserted` on: the events of the takeover and of the reservation, and the report.
  unfoldable pub report_reserved : ℕ → Asked → List Reservation → ℕ → Action Annotated
  unfolding interruption_event
  report_reserved item_id a existing n = do
    inserted ← gets (reservation_row n)
    row ← lift (required_row inserted)
    found ← gets (get_item item_id)
    item ← lift (required_item found)
    told ← each (interruption_event item a n) (displaced a existing)
    insert_event item.sprint_id a.actor "reservation.reserved" "system" (some row.work_item_id) (
        Payload.reserved n a.session_id a.role a.correlation_ref a.interrupt_existing
          (map (λ q. q.id) (remaining a existing)) row.release_digest)
    shown ← gets (λ s. display stale_after s.clock row)
    pure (annotate_conflicts shown (remaining a existing))

  unfoldable pub reserve_admitted : ℕ → Asked → ℕ → Action Annotated
  unfolding release_for report_reserved
  reserve_admitted item_id a now = do
    digest ← release_for item_id a
    existing ← gets (λ s. select (active_on item_id) s.reservations)
    interrupt_displaced item_id a now (displaced a existing)
    n ← insert_reservation (reservation_of item_id a digest now)
    report_reserved item_id a existing n

  unfoldable pub reserve_locked : ℕ → Asked → ℕ → Action Annotated
  unfolding reserve_admitted
  reserve_locked item_id a now = do
    disabled ← gets (λ s. s.maintenance)
    require (not disabled) Fault.reservation_conflict
    reserve_admitted item_id a now

  module _ (canonical : Fields → Fields) where
    unfoldable pub reserve :
        (work_item_id : ℕ) (actor session_id : String) (role correlation_ref : Option String)
        (interrupt_existing : Bool) (expected_revision : Option String)
        (acceptance_contract : Option Json)
        → Action Annotated
    unfolding reserve_locked normalize_role normalize_acceptance_contract
    reserve item_id actor session role correlation take_over expected contract = do
      r ← lift (normalize_role lower role)
      basis ← lift (validate_expected expected)
      c ← lift (normalize_acceptance_contract canonical contract)
      found ← gets (get_item item_id)
      item ← lift (item_or_missing item_id found)
      now ← gets (λ s. s.clock)
      transaction (reserve_locked item_id (asked actor session correlation take_over r basis c) now)
