-- ===== src/Reservations/Lifecycle.antt =====
-- `touch`, `reassign`, `release` and `sweep` of sprintctl/reservationcore.py with the SQLite driver
-- `_ReservationLifecycleSqlite`. The peek before the transaction reads what the transaction reads
-- again. `stale_after` is the policy's horizon in seconds.
use sprintctl.Prelude.{
  ℕ, ◌+◌, String, Bool, false, not, ◌&&◌, Option, none, some, List, select, leb, ◌==◌, nat_eq,
  string_eq, if◌then◌else◌,
}
use sprintctl.Domain.{
  Status, ReservationState, Item, Reservation, Payload, reservation_state_eq, status_eq,
}
use sprintctl.Ledger.{
  Fault, Ledger, Outcome, Action, ok, err, pure, raise, gets, transaction, each, ◌>>=◌, ◌>>◌,
}
use sprintctl.Schema.Statements.{get_item, update_reservations, insert_event}
use sprintctl.Reservations.{
  Shown, display, is_active, reservation_is, reservation_row, released_row,
}

abbrev pub touchable : ℕ → String → Reservation → Outcome Reservation
touchable n session r =
    if not (is_active r)
    then err (Fault.value_error "the reservation is not active")
    else if not (r.session_id == session)
    then err (Fault.value_error "the reservation belongs to another session")
    else ok r

abbrev pub touch_basis : ℕ → String → Option Reservation → Outcome Reservation
touch_basis n session none = err (Fault.reservation_not_found n)
touch_basis n session (some r) = touchable n session r

abbrev pub active_or_error : ℕ → Option Reservation → Outcome Reservation
active_or_error n none = err (Fault.value_error "the reservation is not active")
active_or_error n (some r) =
    if is_active r then ok r else err (Fault.value_error "the reservation is not active")

-- `peek`, and `lock_one`, which wants the item of the reservation too
abbrev pub peek : ℕ → Action (Option Reservation)
peek n = gets (reservation_row n)

abbrev pub with_item : Option Item → Reservation → Option (Item × Reservation)
with_item none r = none
with_item (some item) r = some (item, r)

abbrev pub lock_row : Ledger → Option Reservation → Option (Item × Reservation)
lock_row s none = none
lock_row s (some r) = with_item (get_item r.work_item_id s) r

abbrev pub lock_one : ℕ → Action (Option (Item × Reservation))
lock_one n = gets (λ s. lock_row s (reservation_row n s))

abbrev pub row_of : Option (Item × Reservation) → Option Reservation
row_of none = none
row_of (some (item, r)) = some r

-- The rows that the four updates write; `COALESCE` keeps an old correlation.
abbrev pub coalesce : Option String → Option String → Option String
coalesce none old = old
coalesce (some new) old = some new

abbrev pub touched : ℕ → Option String → Reservation → Reservation
touched now correlation r = record r {
  last_activity_at = now;
  correlation_ref = coalesce correlation r.correlation_ref;
}

abbrev pub reassigned : ℕ → (actor session : String) → Option String → Reservation → Reservation
reassigned now actor session correlation r = record r {
  actor = actor;
  session_id = session;
  last_activity_at = now;
  correlation_ref = coalesce correlation r.correlation_ref;
}

abbrev pub interrupted : ℕ → String → Reservation → Reservation
interrupted now reason r = record r {
  state = ReservationState.interrupted;
  released_at = some now;
  interruption_reason = some reason;
}

abbrev pub required_row : Option Reservation → Outcome Reservation
required_row none = err Fault.assertion_error
required_row (some r) = ok r

-- `_update`: the row after the statement
unfoldable pub update_row : ℕ → (Reservation → Reservation) → Action Reservation
update_row n f = do
  update_reservations (reservation_is n) f
  updated ← gets (reservation_row n)
  (λ s. (required_row updated, s))

module _ (stale_after : ℕ) where
  unfoldable pub touch_locked : ℕ → String → Option String → Action Shown
  touch_locked n session correlation = do
    locked ← lock_one n
    row ← (λ s. (touch_basis n session (row_of locked), s))
    now ← gets (λ s. s.clock)
    updated ← update_row n (touched now correlation)
    pure (display stale_after now updated)

  unfoldable pub touch :
      (ident : ℕ) (session_id : String) (correlation_ref : Option String) → Action Shown
  unfolding touch_locked
  touch n session correlation = do
    peeked ← peek n
    (λ s. (touch_basis n session peeked, s))
    transaction (touch_locked n session correlation)

  -- An active row that cannot be locked with its item fails `_active`, which has no row then.
  abbrev pub locked_pair : Option (Item × Reservation) → Outcome (Item × Reservation)
  locked_pair none = err (Fault.value_error "the reservation is not active")
  locked_pair (some (item, r)) =
      if is_active r then ok (item, r) else err (Fault.value_error "the reservation is not active")

  unfoldable pub reassign_row :
      ℕ → (actor session : String) → Option String → Item → Reservation → Action Shown
  reassign_row n actor session correlation item row = do
    now ← gets (λ s. s.clock)
    updated ← update_row n (reassigned now actor session correlation)
    insert_event item.sprint_id actor "reservation.reassigned" "system" (some item.id)
        (Payload.reassigned n row.actor row.session_id)
    pure (display stale_after now updated)

  unfoldable pub reassign_locked : ℕ → (actor session : String) → Option String → Action Shown
  reassign_locked n actor session correlation = do
    locked ← lock_one n
    pair ← (λ s. (locked_pair locked, s))
    reassign_row n actor session correlation pair.0 pair.1

  unfoldable pub reassign : ℕ → (actor session_id : String) → Option String → Action Shown
  unfolding reassign_locked
  reassign n actor session correlation = do
    peeked ← peek n
    (λ s. (active_or_error n peeked, s))
    transaction (reassign_locked n actor session correlation)

  abbrev pub actor_or : Option String → Reservation → String
  actor_or none r = r.actor
  actor_or (some a) r = if a == "" then r.actor else a

  unfoldable pub release_active_row : ℕ → Option String → Item → Reservation → Action Shown
  release_active_row n actor item row = do
    now ← gets (λ s. s.clock)
    updated ← update_row n (released_row now)
    insert_event item.sprint_id (actor_or actor row) "reservation.released" "system" (some item.id)
        (Payload.unreserved n)
    pure (display stale_after now updated)

  -- A released or interrupted row is shown as it is.
  abbrev pub shown_as_is : Reservation → Action Shown
  shown_as_is r = gets (λ s. display stale_after s.clock r)

  abbrev pub release_one : ℕ → Option String → Option (Item × Reservation) → Action Shown
  release_one n actor none = raise (Fault.reservation_not_found n)
  release_one n actor (some (item, r)) =
      if is_active r then release_active_row n actor item r else shown_as_is r

  unfoldable pub release_locked : ℕ → Option String → Action Shown
  release_locked n actor = do locked ← lock_one n; release_one n actor locked

  abbrev pub release_peeked : ℕ → Option String → Option Reservation → Action Shown
  release_peeked n actor none = raise (Fault.reservation_not_found n)
  release_peeked n actor (some r) =
      if is_active r then transaction (release_locked n actor) else shown_as_is r

  unfoldable pub release : ℕ → Option String → Action Shown
  unfolding release_locked
  release n actor = do peeked ← peek n; release_peeked n actor peeked

  -- `lock_stale`: active rows of open items whose last activity is at or before the cutoff, which
  -- is `now - window`; a time before year 1 raises in the source and does not occur here.
  abbrev pub of_open_item : Ledger → Option Item → Bool
  of_open_item s none = false
  of_open_item s (some item) = not (item.status == Status.done)

  abbrev pub is_stale_row : Ledger → (now window : ℕ) → Reservation → Bool
  is_stale_row s now window r =
      is_active r
      && leb (r.last_activity_at + window) now
      && of_open_item s (get_item r.work_item_id s)

  abbrev pub lock_stale : (now window : ℕ) → Ledger → List Reservation
  lock_stale now window s = select (is_stale_row s now window) s.reservations

  abbrev pub sweep_event : Reservation → String → Option Item → Action (Unit {0})
  sweep_event r reason none = raise Fault.assertion_error
  sweep_event r reason (some item) = do
    insert_event item.sprint_id "maintenance" "reservation.interrupted" "system" (some item.id)
        (Payload.swept r.id reason)
    pure tt

  unfoldable pub sweep_row : ℕ → String → Reservation → Action Shown
  sweep_row now reason r = do
    item ← gets (get_item r.work_item_id)
    updated ← update_row r.id (interrupted now reason)
    sweep_event r reason item
    pure (display stale_after now updated)

  -- `reason` is `sweep_reason(window)`.
  unfoldable pub sweep : (now window : ℕ) (reason : String) → Action (List Shown)
  unfolding sweep_row
  sweep now window reason =
      transaction (do selected ← gets (lock_stale now window); each (sweep_row now reason) selected)
