-- ===== src/Reservations/Released.antt =====
-- The release of one reservation.
use sprintctl.Prelude.{
  ℕ, ◌≡◌, refl, ap, subst, ◌∙◌, sym, true, false, Bool-cases, inl, inr, Option, none, some, String,
  update, find-update, find_sound, nat_eq,
}
use sprintctl.Domain.{Item, Reservation, reservation_state_eq}
use sprintctl.Ledger.{Guard, Ledger, ok, outcome, after, bind-ok, after-bind, transaction-ok}
use sprintctl.Schema.Statements.{
  update_reservations, update_aborts, insert_event, with_reservations, under, get_item,
}
use sprintctl.Reservations.{
  Shown, display, is_active, released_row, reservation_is, reservation_row,
}
use sprintctl.Reservations.Lifecycle.{
  release, release_peeked, release_locked, release_one, release_active_row, update_row, lock_row,
  with_item,
}

released-inactive : (now : ℕ) (r : Reservation) → is_active (released_row now r) ≡ false
released-inactive now r = refl

-- The row that `release` writes is the one that is then read.
under-released :
    (n now : ℕ) (s : Ledger) (g : Option Guard) (r : Reservation)
    → reservation_row n s ≡ some r
    → (under g tt s
        (with_reservations (update (reservation_is n) (released_row now) s.reservations) s)).0
      ≡ ok tt
    → reservation_row n
        (under g tt s
          (with_reservations (update (reservation_is n) (released_row now) s.reservations) s)).1
      ≡ some (released_row now r)
under-released n now s (some g) r e h = cc
under-released n now s none r e h = rw (
  find-update (reservation_is n) (reservation_is n) (released_row now) (λ x _. refl) s.reservations,
  e,
  find_sound (reservation_is n) s.reservations r e,
)

updated-released :
    (n now : ℕ) (s : Ledger) (r : Reservation)
    → reservation_row n s ≡ some r
    → outcome (update_reservations (reservation_is n) (released_row now)) s ≡ ok tt
    → reservation_row n (after (update_reservations (reservation_is n) (released_row now)) s)
      ≡ some (released_row now r)
unfolding update_reservations
updated-released n now s r e h =
    under-released n now s (update_aborts (reservation_is n) (released_row now) s.reservations) r e
      h

update_row-after :
    (n : ℕ) (f : Reservation → Reservation) (s : Ledger) (r : Reservation)
    → outcome (update_row n f) s ≡ ok r
    → (outcome (update_reservations (reservation_is n) f) s ≡ ok tt)
      × (after (update_row n f) s ≡ after (update_reservations (reservation_is n) f) s)
unfolding update_row
update_row-after n f s r h =
    let upd = update_reservations (reservation_is n) f in
    let (u, done, h1) = bind-ok upd _ s r h in (done, ap (λ p. p.1) (after-bind upd _ s u done))

-- A row that is not active is shown as it is.
release-inactive :
    (stale_after n : ℕ) (actor : Option String) (s : Ledger) (r : Reservation)
    → reservation_row n s ≡ some r
    → is_active r ≡ false
    → release stale_after n actor s ≡ (ok (display stale_after s.clock r), s)
unfolding release
release-inactive stale_after n actor s r e h = rw (e, release_peeked) (rw h refl)

module _ (stale_after n : ℕ) (actor : Option String) (item : Item) (r : Reservation) (s : Ledger)
    (here : reservation_row n s ≡ some r) where
  active_row-released :
      (x : Shown)
      → outcome (release_active_row stale_after n actor item r) s ≡ ok x
      → reservation_row n (after (release_active_row stale_after n actor item r) s)
        ≡ some (released_row s.clock r)
  unfolding release_active_row insert_event
  active_row-released x h =
      let upd = update_row n (released_row s.clock) in
      let (u, done, h1) = bind-ok upd _ s x h in
      let (stmt, left) = update_row-after n (released_row s.clock) s u done in
      ap (λ p. reservation_row n p.1) (after-bind upd _ s u done)
      ∙ ap (reservation_row n) left
      ∙ updated-released n s.clock s r here stmt

-- The row that a release leaves, whatever it found.
abbrev Ended : ℕ → Ledger → Type 0
Ended n t = (r : Reservation) × (reservation_row n t ≡ some r) × (is_active r ≡ false)

module _ (stale_after n : ℕ) (actor : Option String) where
  one-Ended :
      (s : Ledger) (r : Reservation) (i : Option Item) (x : Shown)
      → reservation_row n s ≡ some r
      → is_active r ≡ true
      → outcome (release_one stale_after n actor (with_item i r)) s ≡ ok x
      → Ended n (after (release_one stale_after n actor (with_item i r)) s)
  one-Ended s r none x e a h = cc
  one-Ended s r (some item) x e a h = rw a (
    released_row s.clock r,
    active_row-released stale_after n actor item r s e x (rw a at h),
    refl,
  )

  locked-Ended :
      (s : Ledger) (r : Reservation) (x : Shown)
      → reservation_row n s ≡ some r
      → is_active r ≡ true
      → outcome (release_locked stale_after n actor) s ≡ ok x
      → Ended n (after (release_locked stale_after n actor) s)
  unfolding release_locked
  locked-Ended s r x e a h =
      let q : release_locked stale_after n actor s
          ≡ release_one stale_after n actor (with_item (get_item r.work_item_id s) r) s =
        ap (λ o. release_one stale_after n actor (lock_row s o) s) e in
      subst (λ p. Ended n p.1) (sym q)
        (one-Ended s r (get_item r.work_item_id s) x e a (sym (ap (λ p. p.0) q) ∙ h))

  peeked-Ended :
      (s : Ledger) (o : Option Reservation) (x : Shown)
      → reservation_row n s ≡ o
      → outcome (release_peeked stale_after n actor o) s ≡ ok x
      → Ended n (after (release_peeked stale_after n actor o) s)
  peeked-Ended s none x e h = cc
  peeked-Ended s (some r) x e h = elim (Bool-cases (is_active r)) [
    | inl a ↦
        let (h1, k) = transaction-ok (release_locked stale_after n actor) s x (rw a at h) in
        rw a (rw k (locked-Ended s r x e a h1))
    | inr a ↦ rw a (r, e, a)
  ]

-- A release that returns leaves a row with that id that is not active, whether the release or an
-- earlier call ended it; releasing it again returns that row as it is and writes nothing.
pub release-release :
    (stale_after n : ℕ) (actor again : Option String) (s : Ledger) (x : Shown)
    → outcome (release stale_after n actor) s ≡ ok x
    → (r : Reservation) × (reservation_row n (after (release stale_after n actor) s) ≡ some r)
      × (is_active r ≡ false)
      × (release stale_after n again (after (release stale_after n actor) s) ≡ (
        ok (display stale_after (after (release stale_after n actor) s).clock r),
        after (release stale_after n actor) s,
      ))
unfolding release
release-release stale_after n actor again s x h =
    let (r, e, a) = peeked-Ended stale_after n actor s (reservation_row n s) x refl h in
    (r, e, a, release-inactive stale_after n again (after (release stale_after n actor) s) r e a)
