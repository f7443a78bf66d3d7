-- ===== src/Kept/Create.antt =====
-- Creation and priority of work items.
use sprintctl.Prelude.{ℕ, refl, Option, none, some, String}
use sprintctl.Domain.{Item}
use sprintctl.Ledger.{Ledger, Outcome, Action, ok, err}
use sprintctl.Schema.Statements.{insert_item}
use sprintctl.Schema.Statements.{get_item}
use sprintctl.Follows.{Follows}
use sprintctl.WorkItems.Basics.{
  create_work_item, set_work_item_priority, validate_priority, with_outcome, with_priority,
  set_priority_of,
}
use sprintctl.Kept.{Kept, KeepsIdentity}

module _ {R : Ledger → Ledger → Type 0} (k : Kept R) where
  with_priority-keeps : (p : Option ℕ) (now : ℕ) → KeepsIdentity (with_priority p now)
  with_priority-keeps p now = record { id = λ i. refl; uuid = λ i. refl }

  pub Keeps-with_outcome :
      {A B : Type 0} (r : Outcome A) (f : A → Action B)
      → ((a : A) → Follows R (f a))
      → Follows R (with_outcome r f)
  Keeps-with_outcome (ok a) f h = record { at = (h a).at }
  Keeps-with_outcome (err e) f h = record { at = k.order.stay }

  pub Keeps-create_work_item :
      (sprint_id track_id : ℕ) (title description : String) (assignee : Option String)
      (priority : Option ℕ) (uuid : String)
      → Follows R (create_work_item sprint_id track_id title description assignee priority uuid)
  unfolding create_work_item
  Keeps-create_work_item sprint_id track_id title description assignee priority uuid =
      Keeps-with_outcome (validate_priority priority)
        (λ p. insert_item sprint_id track_id title description assignee p uuid)
        (λ p. k.by_insert_item sprint_id track_id title description assignee p uuid)

  Keeps-set_priority_of :
      (n : ℕ) (p : Option ℕ) (s : Ledger) (old : Option Item) → R s (set_priority_of n p old s).1
  Keeps-set_priority_of n p s none = k.order.stay s
  Keeps-set_priority_of n p s (some old) =
      (k.by_update_item n (with_priority p s.clock) (with_priority-keeps p s.clock)).at s

  pub Keeps-set_work_item_priority :
      (n : ℕ) (priority : Option ℕ) → Follows R (set_work_item_priority n priority)
  unfolding set_work_item_priority
  Keeps-set_work_item_priority n priority =
      Keeps-with_outcome (validate_priority priority) (λ p s. set_priority_of n p (get_item n s) s)
        (λ p. record { at = λ s. Keeps-set_priority_of n p s (get_item n s) })
