-- ===== src/Reservations/Returns.antt =====
-- That a reservation is registered whatever reservations it meets.
use sprintctl.Prelude.{
  ℕ, ◌+◌, ◌≡◌, refl, ap, ◌∙◌, String, Bool, true, false, not, Option, none, some, List, [], ◌∷◌,
  ◌++◌, select, find, find-append, find-append_none, ◌==◌, nat_eq, string_eq, option_eq, beq_refl,
  arith, Bool-cases, Option-cases, inl, inr,
}
use sprintctl.Domain.{Role, Item, Reservation, role_eq, reservation_state_eq}
use sprintctl.Domain.Json.{Json}
use sprintctl.Ledger.{
  Fault, Ledger, Action, ok, pure, lift, outcome, after, after-bind, ◌>>=◌, transaction,
  transaction-returns, require, each,
}
use sprintctl.Schema.{item_is, reservation_insert_guard, reservation_update_guard}
use sprintctl.Schema.Statements.{
  get_item, insert_reservation, update_reservations, update_aborts, insert_event,
  with_reservation_added,
}
use sprintctl.Follows.{Follows}
use sprintctl.Reservations.{reservation_row, reservation_is}
use sprintctl.Reservations.Lifecycle.{interrupted, required_row}
use sprintctl.Reservations.Admission.{
  Asked, active_on, executing_on, reservation_of, displaced, takeover_reason, interrupt_displaced,
  interruption_event, required_item, release_for, report_reserved, reserve_admitted, reserve_locked,
}

-- The action returns from this ledger.
abbrev pub Succeeds : {A : Type 0} → Action A → Ledger → Type 0
Succeeds {A} m s = (a : A) × (outcome m s ≡ ok a)

pub Succeeds-bind :
    {A B : Type 0} (m : Action A) (f : A → Action B) (s : Ledger) (a : A)
    → outcome m s ≡ ok a
    → Succeeds (f a) (after m s)
    → Succeeds (m >>= f) s
Succeeds-bind m f s a h k = (k.0, ap (λ p. p.0) (after-bind m f s a h) ∙ k.1)

pub Succeeds-transaction :
    {A : Type 0} (m : Action A) (s : Ledger) → Succeeds m s → Succeeds (transaction m) s
Succeeds-transaction m s (a, h) = (a, transaction-returns m s a h)

Succeeds-require :
    {B : Type 0} (b : Bool) (e : Fault) (f : Unit {0} → Action B) (s : Ledger)
    → b ≡ true
    → Succeeds (f tt) s
    → Succeeds (require b e >>= f) s
unfolding require
Succeeds-require true e f s h k = k
Succeeds-require false e f s h k = cc

Succeeds-each :
    {A B : Type 0} (f : A → Action B) (xs : List A) (s : Ledger)
    → ((a : A) (t : Ledger) → Succeeds (f a) t)
    → Succeeds (each f xs) s
unfolding each
Succeeds-each f [] s h = ([], refl)
Succeeds-each f (x ∷ xs) s h =
    let (b, e) = h x s in
    let (rest, k) = Succeeds-each f xs (after (f x) s) h in
    Succeeds-bind (f x) _ s b e
      (Succeeds-bind (each f xs) (λ rest. pure (b ∷ rest)) (after (f x) s) rest k (b ∷ rest, refl))

-- No trigger aborts the statement of a takeover.
interrupted-allowed :
    (n now : ℕ) (reason : String) (r : Reservation)
    → executing_on n r ≡ true
    → reservation_update_guard r (interrupted now reason r) ≡ none
unfolding reservation_update_guard
interrupted-allowed n now reason r h =
    let executing : (r.role == Role.execution) ≡ true = ground arith in
    rw (executing, beq_refl r.release_digest) (ground arith)

interrupts-silently :
    (n now : ℕ) (reason : String) (rs : List Reservation)
    → update_aborts (executing_on n) (interrupted now reason) rs ≡ none
unfolding update_aborts
interrupts-silently n now reason [] = refl
interrupts-silently n now reason (r ∷ rs) = elim (Bool-cases (executing_on n r)) [
  | inl e ↦ rw (e, interrupted-allowed n now reason r e) (interrupts-silently n now reason rs)
  | inr e ↦ rw e (interrupts-silently n now reason rs)
]

Succeeds-interrupt_displaced :
    (n : ℕ) (a : Asked) (now : ℕ) (rs : List Reservation) (s : Ledger)
    → outcome (interrupt_displaced n a now rs) s ≡ ok tt
unfolding update_reservations
Succeeds-interrupt_displaced n a now [] s = refl
Succeeds-interrupt_displaced n a now (r ∷ rs) s =
    rw (interrupts-silently n now (takeover_reason a) s.reservations, outcome) refl

-- Neither items nor releases are written.
record KeepsOthers (s t : Ledger) : Type 0 where
  pub items : t.items ≡ s.items
  pub releases : t.releases ≡ s.releases

interrupt_displaced-KeepsOthers :
    (n : ℕ) (a : Asked) (now : ℕ) (rs : List Reservation)
    → Follows KeepsOthers (interrupt_displaced n a now rs)
unfolding update_reservations
interrupt_displaced-KeepsOthers n a now [] = record {
  at = λ s. record { items = refl; releases = refl };
}
interrupt_displaced-KeepsOthers n a now (r ∷ rs) = record {
  at = λ s. record { items = ground arith; releases = ground arith };
}

Succeeds-insert_reservation :
    (make : ℕ → Reservation) (s : Ledger)
    → reservation_insert_guard s.releases (make (s.last.reservation + 1)) ≡ none
    → insert_reservation make s ≡ (
      ok (s.last.reservation + 1),
      with_reservation_added (s.last.reservation + 1) (make (s.last.reservation + 1)) s,
    )
unfolding insert_reservation
Succeeds-insert_reservation make s h = rw h refl

-- The last of the rows is found by its id, unless an earlier one is.
found-append :
    {A : Type 0} (p : A → Bool) (xs : List A) (x : A)
    → p x ≡ true
    → (y : A) × (find p (xs ++ x ∷ []) ≡ some y)
unfolding find
found-append p xs x h = elim (Option-cases (find p xs)) [
  | inl e ↦ (x, rw (find-append_none p xs (x ∷ []) e, h) refl)
  | inr (y, e) ↦ (y, find-append p xs (x ∷ []) y e)
]

Succeeds-interruption_event :
    (item : Item) (a : Asked) (m : ℕ) (old : Reservation) (s : Ledger)
    → Succeeds (interruption_event item a m old) s
unfolding interruption_event insert_event
Succeeds-interruption_event item a m old s = (s.last.event + 1, refl)

module _ (lower : String → String) (sha256 : String → String) (dumps : Json → String)
    (stale_after n : ℕ) (a : Asked) where
  Succeeds-report_reserved :
      (existing : List Reservation) (m : ℕ) (t : Ledger) (row : Reservation) (item : Item)
      → reservation_row m t ≡ some row
      → get_item n t ≡ some item
      → Succeeds (report_reserved lower sha256 dumps stale_after n a existing m) t
  unfolding report_reserved insert_event
  Succeeds-report_reserved existing m t row item r i =
      let (told, e) =
        Succeeds-each (interruption_event item a m) (displaced a existing) t
          (Succeeds-interruption_event item a m) in
      Succeeds-bind (lift (required_row (reservation_row m t))) _ t row (ap required_row r) (
        Succeeds-bind (lift (required_item (get_item n t))) _ t item (ap required_item i) (
          Succeeds-bind (each (interruption_event item a m) (displaced a existing)) _ t told e
            (_, refl)))

  pub Succeeds-reserve_admitted :
      (now : ℕ) (s : Ledger) (d : Option String) (item : Item)
      → outcome (release_for lower sha256 dumps stale_after n a) s ≡ ok d
      → ((m : ℕ)
          → reservation_insert_guard
              (after (release_for lower sha256 dumps stale_after n a) s).releases
              (reservation_of n a d now m)
            ≡ none)
      → get_item n (after (release_for lower sha256 dumps stale_after n a) s) ≡ some item
      → Succeeds (reserve_admitted lower sha256 dumps stale_after n a now) s
  unfolding reserve_admitted
  Succeeds-reserve_admitted now s d item froze quiet here =
      let t1 = after (release_for lower sha256 dumps stale_after n a) s in
      let existing = select (active_on n) t1.reservations in
      let taking = interrupt_displaced n a now (displaced a existing) in
      let t2 = after taking t1 in
      let insert = insert_reservation (reservation_of n a d now) in
      let t3 = after insert t2 in
      let same = (interrupt_displaced-KeepsOthers n a now (displaced a existing)).at t1 in
      let added =
        Succeeds-insert_reservation (reservation_of n a d now) t2 (rw same.releases (quiet _)) in
      let (row, found) =
        found-append (reservation_is (t2.last.reservation + 1)) t2.reservations
          (reservation_of n a d now (t2.last.reservation + 1))
          (beq_refl (t2.last.reservation + 1)) in
      Succeeds-bind (release_for lower sha256 dumps stale_after n a) _ s d froze (
        Succeeds-bind taking _ t1 tt
          (Succeeds-interrupt_displaced n a now (displaced a existing) t1)
          (Succeeds-bind insert _ t2 (t2.last.reservation + 1) (ap (λ p. p.0) added) (
            Succeeds-report_reserved existing (t2.last.reservation + 1) t3 row item
              (ap (λ p. reservation_row (t2.last.reservation + 1) p.1) added ∙ found)
              (ap (λ p. get_item n p.1) added ∙ ap (find (item_is n)) same.items ∙ here))))

  pub Succeeds-reserve_locked :
      (now : ℕ) (s : Ledger)
      → s.maintenance ≡ false
      → Succeeds (reserve_admitted lower sha256 dumps stale_after n a now) s
      → Succeeds (reserve_locked lower sha256 dumps stale_after n a now) s
  unfolding reserve_locked
  Succeeds-reserve_locked now s shut k =
      Succeeds-require (not s.maintenance) Fault.reservation_conflict
        (λ _. reserve_admitted lower sha256 dumps stale_after n a now) s (ap not shut) k

  -- Other than an execution reservation, on no basis, freezes nothing.
  pub release_for-bare :
      (s : Ledger)
      → (a.role == Role.execution) ≡ false
      → a.expected_revision ≡ none
      → release_for lower sha256 dumps stale_after n a s ≡ (ok none, s)
  unfolding release_for
  release_for-bare s r e = rw (r, e) refl

  pub bare-allowed :
      (s : Ledger) (now m : ℕ)
      → (a.role == Role.execution) ≡ false
      → reservation_insert_guard s.releases (reservation_of n a none now m) ≡ none
  unfolding reservation_insert_guard
  bare-allowed s now m r = ground arith
