-- ===== src/Reservations/Ends.antt =====
-- The release of a session's reservations of an item.
use sprintctl.Prelude.{
  ℕ, ◌≡◌, refl, ap, ◌∙◌, false, Option, none, some, List, [], ◌∷◌, String, arith, select, update,
  select-update_none, ◌==◌, nat_eq, string_eq,
}
use sprintctl.Domain.{Item, Reservation, Payload, reservation_state_eq}
use sprintctl.Ledger.{Guard, Ledger, ok, outcome, after, bind-ok, after-bind}
use sprintctl.Schema.Statements.{
  update_reservations, update_aborts, insert_event, with_reservations, under,
}
use sprintctl.Reservations.{
  held_by, released_row, release_events, release_rows, release_caller_reservations,
}

abbrev pub held : Item → String → Ledger → List Reservation
held item session s = select (held_by item.id session) s.reservations

released-not_held :
    (item_id : ℕ) (session : String) (now : ℕ) (r : Reservation)
    → held_by item_id session (released_row now r) ≡ false
released-not_held item_id session now r = ground arith

under-none_held :
    (item : Item) (session : String) (now : ℕ) (s : Ledger) (g : Option Guard)
    → (under g tt s (
        with_reservations (update (held_by item.id session) (released_row now) s.reservations) s)).0
      ≡ ok tt
    → held item session
        (under g tt s (
          with_reservations
            (update (held_by item.id session) (released_row now) s.reservations)
            s)).1
      ≡ []
under-none_held item session now s (some g) h = cc
under-none_held item session now s none h =
    select-update_none (held_by item.id session) (held_by item.id session) (released_row now)
      (λ x m. m) (λ x _. released-not_held item.id session now x) s.reservations

updated-none_held :
    (item : Item) (session : String) (now : ℕ) (s : Ledger)
    → outcome (update_reservations (held_by item.id session) (released_row now)) s ≡ ok tt
    → held item session (after (update_reservations (held_by item.id session) (released_row now)) s)
      ≡ []
unfolding update_reservations
updated-none_held item session now s h =
    under-none_held item session now s
      (update_aborts (held_by item.id session) (released_row now) s.reservations) h

release_events-rows :
    (item : Item) (actor : String) (rs : List Reservation) (s : Ledger)
    → (after (release_events item actor rs) s).reservations ≡ s.reservations
unfolding release_events insert_event
release_events-rows item actor [] s = refl
release_events-rows item actor (r ∷ rs) s = release_events-rows item actor rs (
    after
      (insert_event item.sprint_id actor "reservation.released" "system" (some item.id)
        (Payload.unreserved r.id))
      s)

release_events-ok :
    (item : Item) (actor : String) (rs : List Reservation) (s : Ledger)
    → outcome (release_events item actor rs) s ≡ ok tt
unfolding release_events insert_event
release_events-ok item actor [] s = refl
release_events-ok item actor (r ∷ rs) s = release_events-ok item actor rs (
    after
      (insert_event item.sprint_id actor "reservation.released" "system" (some item.id)
        (Payload.unreserved r.id))
      s)

release_rows-none_held :
    (item : Item) (session actor : String) (s : Ledger) (rs : List Reservation) (ids : List ℕ)
    → held item session s ≡ rs
    → outcome (release_rows item session actor rs) s ≡ ok ids
    → held item session (after (release_rows item session actor rs) s) ≡ []
unfolding release_rows
release_rows-none_held item session actor s [] ids e h = e
release_rows-none_held item session actor s (r ∷ rs) ids e h =
    let upd = update_reservations (held_by item.id session) (released_row s.clock) in
    let (u, done, h1) = bind-ok upd _ s ids h in
    let t = after upd s in
    let (v, told, h2) = bind-ok (release_events item actor (r ∷ rs)) _ t ids h1 in
    ap (λ p. held item session p.1) (after-bind upd _ s u done)
    ∙ ap (λ p. held item session p.1) (after-bind (release_events item actor (r ∷ rs)) _ t v told)
    ∙ ap (select (held_by item.id session)) (release_events-rows item actor (r ∷ rs) t)
    ∙ updated-none_held item session s.clock s done

-- When a session's reservations of an item are released and this returns, the session, if it has a
-- name, holds no active reservation of that item.
pub release_caller_reservations-none_held :
    (item : Item) (session actor : String) (s : Ledger) (ids : List ℕ)
    → (session == "") ≡ false
    → outcome (release_caller_reservations item (some session) actor) s ≡ ok ids
    → held item session (after (release_caller_reservations item (some session) actor) s) ≡ []
unfolding release_caller_reservations
release_caller_reservations-none_held item session actor s ids named h =
    rw named
      (release_rows-none_held item session actor s (held item session s) ids refl (rw named at h))
