-- ===== src/Reservations/Reserve.antt =====
-- What an admitted reservation leaves in the ledger.
use sprintctl.Prelude.{
  ℕ, ◌+◌, ◌≡◌, refl, sym, ap, ◌∙◌, String, Bool, true, false, Option, none, some, List, [], ◌∷◌,
  ◌++◌, select, update, nat_eq, if◌then◌else◌, arith, Bool-cases, inl, inr,
}
use sprintctl.Domain.{Item, Reservation, Release, Payload, role_eq, reservation_state_eq}
use sprintctl.Domain.Json.{Json}
use sprintctl.Ledger.{Guard, Ledger, ok, outcome, after}
use sprintctl.Schema.Statements.{
  under, insert_reservation, update_reservations, update_aborts, insert_event, insert_release,
  with_reservations, with_reservation_added, with_release_added, release_ignored,
}
use sprintctl.Follows.{
  Preorder, Follows, Follows-pure, Follows-read, Follows-unchanged, Follows-bind, Follows-each,
  Follows-if,
}
use sprintctl.Releases.Freeze.{release_basis, freeze}
use sprintctl.Reservations.{executes}
use sprintctl.Reservations.Lifecycle.{interrupted}
use sprintctl.Reservations.Admission.{
  Asked, active_on, executing_on, displaced, takeover_reason, check_stale, interrupt_displaced,
  interruption_event, freeze_contract, release_at_basis, release_for, report_reserved,
}

-- Neither reservations nor what numbers them is written.
pub record KeepsReservations (s t : Ledger) : Type 0 where
  pub reservations : t.reservations ≡ s.reservations
  pub last : t.last.reservation ≡ s.last.reservation

reservations_order : Preorder KeepsReservations
reservations_order = record {
  stay = λ s. record { reservations = refl; last = refl };
  join = λ s t u p q. record {
    reservations = q.reservations ∙ p.reservations;
    last = q.last ∙ p.last;
  };
}

-- Neither reservations nor releases are written.
pub record KeepsRows (s t : Ledger) : Type 0 where
  pub reservations : t.reservations ≡ s.reservations
  pub releases : t.releases ≡ s.releases

rows_order : Preorder KeepsRows
rows_order = record {
  stay = λ s. record { reservations = refl; releases = refl };
  join = λ s t u p q. record {
    reservations = q.reservations ∙ p.reservations;
    releases = q.releases ∙ p.releases;
  };
}

-- The rows after a takeover, or after a reservation that stands beside the others.
abbrev pub rows_before : ℕ → Asked → ℕ → List Reservation → List Reservation
rows_before item_id a now rs =
    if a.interrupt_existing
    then update (executing_on item_id) (interrupted now (takeover_reason a)) rs
    else rs

update_none :
    (p : Reservation → Bool) (f : Reservation → Reservation) (rs : List Reservation)
    → select p rs ≡ []
    → update p f rs ≡ rs
unfolding select update
update_none p f [] h = refl
update_none p f (r ∷ rs) h = elim (Bool-cases (p r)) [
  | inl e ↦ absurd (cc (rw e at h))
  | inr e ↦ rw e (ap (λ l. r ∷ l) (update_none p f rs (rw e at h)))
]

select-select :
    (n : ℕ) (rs : List Reservation)
    → select executes (select (active_on n) rs) ≡ select (executing_on n) rs
unfolding select
select-select n [] = refl
select-select n (r ∷ rs) = ground (arith, select-select n rs)

-- A statement that returns met no trigger and left its new ledger.
pub under-ok :
    {A : Type 0} (g : Option Guard) (x y : A) (s t : Ledger)
    → (under g x s t).0 ≡ ok y
    → (g ≡ none) × ((under g x s t).1 ≡ t)
under-ok none x y s t h = (refl, refl)
under-ok (some g) x y s t h = cc

module _ (n : ℕ) (a : Asked) (now : ℕ) (s : Ledger) where
  taken :
      (ds : List Reservation)
      → ds ≡ select (executing_on n) s.reservations
      → outcome (interrupt_displaced n a now ds) s ≡ ok tt
      → (after (interrupt_displaced n a now ds) s).reservations
        ≡ update (executing_on n) (interrupted now (takeover_reason a)) s.reservations
  unfolding update_reservations
  taken [] e h =
      sym
        (update_none (executing_on n) (interrupted now (takeover_reason a)) s.reservations (sym e))
  taken (r ∷ rs) e h =
      let f = interrupted now (takeover_reason a) in
      ap (λ t. t.reservations)
        (under-ok (update_aborts (executing_on n) f s.reservations) tt tt s
          (with_reservations (update (executing_on n) f s.reservations) s) h).1

  -- The statement of a takeover, when it returns.
  pub interrupted-rows :
      outcome (interrupt_displaced n a now (displaced a (select (active_on n) s.reservations))) s
        ≡ ok tt
      → (after
          (interrupt_displaced n a now (displaced a (select (active_on n) s.reservations)))
          s).reservations
        ≡ rows_before n a now s.reservations
  interrupted-rows h = elim (Bool-cases a.interrupt_existing) [
    | inl e ↦ rw e (
        taken (select executes (select (active_on n) s.reservations))
          (select-select n s.reservations) (rw e at h))
    | inr e ↦ rw e
  ]

pub inserted-rows :
    (make : ℕ → Reservation) (s : Ledger) (m : ℕ)
    → outcome (insert_reservation make) s ≡ ok m
    → (after (insert_reservation make) s).reservations
      ≡ s.reservations ++ make (s.last.reservation + 1) ∷ []
unfolding insert_reservation
inserted-rows make s m h =
    ap (λ t. t.reservations)
      (under-ok _ (s.last.reservation + 1) m s
        (with_reservation_added (s.last.reservation + 1) (make (s.last.reservation + 1)) s) h).1

ignored-KeepsReservations :
    (b : Bool) (row : Release) (s : Ledger)
    → KeepsReservations s (if b then s else with_release_added row s)
ignored-KeepsReservations true row s = reservations_order.stay s
ignored-KeepsReservations false row s = record { reservations = refl; last = refl }

insert_release-KeepsReservations :
    (make : ℕ → Release) → Follows KeepsReservations (insert_release make)
unfolding insert_release
insert_release-KeepsReservations make = record {
  at = λ s.
      let row = make (s.last.release + 1) in
      ignored-KeepsReservations (release_ignored s.releases row) row s;
}

check_stale-KeepsReservations :
    (e : Option String) (c : String) → Follows KeepsReservations (check_stale e c)
check_stale-KeepsReservations e c =
    Follows-unchanged reservations_order (check_stale e c) (λ s. ground arith)

pub interrupt_displaced-last :
    (n : ℕ) (a : Asked) (now : ℕ) (rs : List Reservation) (s : Ledger)
    → (after (interrupt_displaced n a now rs) s).last.reservation ≡ s.last.reservation
unfolding update_reservations
interrupt_displaced-last n a now [] s = refl
interrupt_displaced-last n a now (r ∷ rs) s = ground arith

insert_event-KeepsRows :
    (sprint_id : ℕ) (actor event_type source_type : String) (work_item_id : Option ℕ)
    (payload : Payload)
    → Follows KeepsRows (insert_event sprint_id actor event_type source_type work_item_id payload)
unfolding insert_event
insert_event-KeepsRows sprint_id actor event_type source_type work_item_id payload = record {
  at = λ s. record { reservations = refl; releases = refl };
}

interruption_event-KeepsRows :
    (item : Item) (a : Asked) (m : ℕ) (old : Reservation)
    → Follows KeepsRows (interruption_event item a m old)
unfolding interruption_event insert_event
interruption_event-KeepsRows item a m old = record {
  at = λ s. record { reservations = refl; releases = refl };
}

module _ (lower : String → String) (sha256 : String → String) (dumps : Json → String)
    (stale_after : ℕ) where
  pub release_for-KeepsReservations :
      (n : ℕ) (a : Asked)
      → Follows KeepsReservations (release_for lower sha256 dumps stale_after n a)
  unfolding release_for release_at_basis release_basis freeze_contract freeze
  release_for-KeepsReservations n a =
      search
        (
          Follows-pure reservations_order,
          Follows-read reservations_order,
          Follows-bind reservations_order,
          Follows-if reservations_order,
          check_stale-KeepsReservations,
          insert_release-KeepsReservations,
        )
        depth 40

  pub report_reserved-KeepsRows :
      (n : ℕ) (a : Asked) (rs : List Reservation) (m : ℕ)
      → Follows KeepsRows (report_reserved lower sha256 dumps stale_after n a rs m)
  unfolding report_reserved
  report_reserved-KeepsRows n a rs m =
      search
        (
          Follows-read rows_order,
          Follows-bind rows_order,
          Follows-each rows_order,
          interruption_event-KeepsRows,
          insert_event-KeepsRows,
        )
        depth 40
