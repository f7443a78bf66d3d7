-- ===== src/Kept/Maintain.antt =====
-- Carryover and the sweep of stale items.
use sprintctl.Prelude.{ℕ, Option, none, some, String, Bool, arith}
use sprintctl.Domain.{Item}
use sprintctl.Ledger.{Fault, Ledger}
use sprintctl.Follows.{Follows}
use sprintctl.Maintain.{
  fails_unless, carry_open, carry_locked, carryover_item, carryover, block_now, block_active,
  block_locked, block_stale_item, sweep_stale_items,
}
use sprintctl.Kept.{Kept}
use sprintctl.Kept.Create.{Keeps-create_work_item}
use sprintctl.Kept.Decide.{
  Keeps-unchanged, Keeps-pure, Keeps-read, Keeps-bind, Keeps-each, Keeps-if, Keeps-transaction,
  Keeps-write_decision, Keeps-set_status_locked,
}

module _ {R : Ledger → Ledger → Type 0} (k : Kept R) where
  pub Keeps-fails_unless : (b : Bool) (e : Fault) → Follows R (fails_unless b e)
  Keeps-fails_unless b e = Keeps-unchanged k (fails_unless b e) (λ s. ground arith)

  module _ (fresh : ℕ → String) where
    Keeps-carry_open :
        (source target : ℕ) (item : Item) → Follows R (carry_open fresh source target item)
    unfolding carry_open
    Keeps-carry_open source target item =
        search
          (
            Keeps-bind k,
            Keeps-read k,
            k.by_track,
            k.by_insert_event,
            Keeps-create_work_item k,
            Keeps-write_decision k,
          )
          depth 40

    Keeps-carry_locked :
        (source target : ℕ) (item : Option Item) → Follows R (carry_locked fresh source target item)
    Keeps-carry_locked source target none = Keeps-pure k none
    Keeps-carry_locked source target (some item) =
        search (Keeps-if k, Keeps-pure k, Keeps-carry_open)

    pub Keeps-carryover_item :
        (source target n : ℕ) → Follows R (carryover_item fresh source target n)
    unfolding carryover_item
    Keeps-carryover_item source target n =
        search (Keeps-bind k, Keeps-read k, Keeps-fails_unless, Keeps-carry_locked) depth 20

    pub Keeps-carryover : (source target : ℕ) → Follows R (carryover fresh source target)
    unfolding carryover
    Keeps-carryover source target =
        search
          (
            Keeps-bind k,
            Keeps-read k,
            Keeps-fails_unless,
            Keeps-each k,
            Keeps-transaction k,
            Keeps-carryover_item,
          )
          depth 30

  Keeps-block_now : (n now threshold : ℕ) (item : Item) → Follows R (block_now n now threshold item)
  unfolding block_now
  Keeps-block_now n now threshold item =
      search (Keeps-bind k, Keeps-pure k, Keeps-set_status_locked k, k.by_insert_event) depth 10

  Keeps-block_active :
      (n now threshold : ℕ) (item : Item) → Follows R (block_active n now threshold item)
  unfolding block_active
  Keeps-block_active n now threshold item =
      search (Keeps-bind k, Keeps-read k, Keeps-if k, Keeps-block_now) depth 12

  Keeps-block_locked :
      (n now threshold : ℕ) (item : Option Item) → Follows R (block_locked n now threshold item)
  Keeps-block_locked n now threshold none = Keeps-pure k none
  Keeps-block_locked n now threshold (some item) =
      search (Keeps-if k, Keeps-pure k, Keeps-block_active)

  Keeps-block_stale_item : (n m now threshold : ℕ) → Follows R (block_stale_item n m now threshold)
  unfolding block_stale_item
  Keeps-block_stale_item n m now threshold = search (Keeps-bind k, Keeps-read k, Keeps-block_locked)

  pub Keeps-sweep_stale_items :
      (n now threshold : ℕ) → Follows R (sweep_stale_items n now threshold)
  unfolding sweep_stale_items
  Keeps-sweep_stale_items n now threshold =
      search
        (
          Keeps-bind k,
          Keeps-read k,
          Keeps-if k,
          Keeps-each k,
          Keeps-transaction k,
          Keeps-block_stale_item,
        )
        depth 20
