-- ===== src/Kept/Reserve.antt =====
-- Admission of reservations.
use sprintctl.Prelude.{ℕ, String, Bool, Option, List, [], ◌∷◌, arith}
use sprintctl.Domain.{Item, Reservation}
use sprintctl.Domain.Json.{Json, Fields}
use sprintctl.Ledger.{Fault, Ledger, require}
use sprintctl.Releases.Freeze.{Basis, release_basis, freeze}
use sprintctl.Reservations.Admission.{
  Asked, check_stale, interrupt_displaced, interruption_event, freeze_contract, release_at_basis,
  release_for, report_reserved, reserve_admitted, reserve_locked, reserve,
}
use sprintctl.Follows.{Follows}
use sprintctl.Kept.{Kept}
use sprintctl.Kept.Decide.{
  Keeps-unchanged, Keeps-pure, Keeps-lift, Keeps-read, Keeps-bind, Keeps-each, Keeps-if,
  Keeps-transaction,
}

module _ {R : Ledger → Ledger → Type 0} (k : Kept R) where
  Keeps-require : (b : Bool) (e : Fault) → Follows R (require b e)
  unfolding require
  Keeps-require b e = Keeps-unchanged k (require b e) (λ s. ground arith)

  Keeps-check_stale : (e : Option String) (c : String) → Follows R (check_stale e c)
  Keeps-check_stale e c = Keeps-unchanged k (check_stale e c) (λ s. ground arith)

  Keeps-interrupt_displaced :
      (n : ℕ) (a : Asked) (now : ℕ) (rs : List Reservation)
      → Follows R (interrupt_displaced n a now rs)
  Keeps-interrupt_displaced n a now [] = Keeps-pure k tt
  Keeps-interrupt_displaced n a now (r ∷ rs) = search (k.by_update_reservations)

  Keeps-interruption_event :
      (item : Item) (a : Asked) (n : ℕ) (old : Reservation)
      → Follows R (interruption_event item a n old)
  unfolding interruption_event
  Keeps-interruption_event item a n old = search (k.by_insert_event)

  module _ (lower : String → String) (sha256 : String → String) (dumps : Json → String)
      (stale_after : ℕ) where
    Keeps-freeze :
        (b : Basis) (actor : String) (c : Fields) → Follows R (freeze lower sha256 dumps b actor c)
    unfolding freeze
    Keeps-freeze b actor c =
        search (Keeps-pure k, Keeps-read k, Keeps-bind k, k.by_insert_release) depth 16

    Keeps-freeze_contract :
        (a : Asked) (b : Basis) → Follows R (freeze_contract lower sha256 dumps stale_after a b)
    unfolding freeze_contract
    Keeps-freeze_contract a b = search (Keeps-pure k, Keeps-bind k, Keeps-freeze) depth 10

    Keeps-release_at_basis :
        (n : ℕ) (a : Asked) → Follows R (release_at_basis lower sha256 dumps stale_after n a)
    unfolding release_at_basis release_basis
    Keeps-release_at_basis n a =
        search
          (
            Keeps-check_stale,
            Keeps-pure k,
            Keeps-read k,
            Keeps-bind k,
            Keeps-if k,
            Keeps-freeze_contract,
          )
          depth 16

    Keeps-release_for :
        (n : ℕ) (a : Asked) → Follows R (release_for lower sha256 dumps stale_after n a)
    unfolding release_for
    Keeps-release_for n a = search (Keeps-pure k, Keeps-if k, Keeps-release_at_basis) depth 16

    Keeps-report_reserved :
        (n : ℕ) (a : Asked) (rs : List Reservation) (m : ℕ)
        → Follows R (report_reserved lower sha256 dumps stale_after n a rs m)
    unfolding report_reserved
    Keeps-report_reserved n a rs m =
        search
          (
            Keeps-lift k,
            Keeps-read k,
            Keeps-bind k,
            Keeps-each k,
            Keeps-interruption_event,
            k.by_insert_event,
          )
          depth 30

    Keeps-reserve_admitted :
        (n : ℕ) (a : Asked) (now : ℕ)
        → Follows R (reserve_admitted lower sha256 dumps stale_after n a now)
    unfolding reserve_admitted
    Keeps-reserve_admitted n a now =
        search
          (
            Keeps-read k,
            Keeps-bind k,
            Keeps-release_for,
            Keeps-interrupt_displaced,
            k.by_insert_reservation,
            Keeps-report_reserved,
          )
          depth 40

    pub Keeps-reserve :
        (canonical : Fields → Fields) (n : ℕ) (actor session : String)
        (role correlation : Option String) (take_over : Bool) (expected : Option String)
        (contract : Option Json)
        → Follows R (
            reserve lower sha256 dumps stale_after canonical n actor session role correlation
              take_over expected contract)
    unfolding reserve reserve_locked
    Keeps-reserve canonical n actor session role correlation take_over expected contract =
        search
          (
            Keeps-lift k,
            Keeps-read k,
            Keeps-bind k,
            Keeps-require,
            Keeps-transaction k,
            Keeps-reserve_admitted,
          )
          depth 40
