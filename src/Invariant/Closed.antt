-- ===== src/Invariant/Closed.antt =====
-- The well-formed ledger under sequences of calls, and the decisions that closed its items.
use sprintctl.Prelude.{
  ℕ, ◌≡◌, sym, true, false, not, ◌&&◌, some, Option-cases, find, find_sound, inl, inr, arith, ◌==◌,
  nat_eq, ◌∙◌, ap,
}
use sprintctl.Domain.{Status, Item, Decision, resolution_for, status_eq}
use sprintctl.Ledger.{Ledger}
use sprintctl.Schema.{is_some}
use sprintctl.Schema.Statements.{get_item}
use sprintctl.Program.{Environment, Reaches}
use sprintctl.Program.Reach.{Keeps-reached}
use sprintctl.Invariant.{WellFormed, bound_decision, is_about}
use sprintctl.Invariant.Statements.{well_kept}

bound_of_done :
    (i : Item)
    → (i.status == Status.done && not i.legacy && not (is_some i.terminal_decision_id)) ≡ false
    → i.status ≡ Status.done
    → i.legacy ≡ false
    → (n : ℕ) × (i.terminal_decision_id ≡ some n)
bound_of_done i h d l = elim (Option-cases i.terminal_decision_id) [
  | inl e ↦ absurd (ground arith)
  | inr k ↦ k
]

is_about_sound :
    (m n : ℕ) (d : Decision) → is_about m n d ≡ true → (d.id ≡ n) × (d.work_item_id ≡ m)
is_about_sound m n d h = (ground arith, ground arith)

module _ (env : Environment) (s t : Ledger) (h : Reaches env s t) where
  -- From a well-formed ledger every sequence of calls leads to a well-formed one: each item that is
  -- found has the shape that the triggers check, each done one is legacy or bound to a decision, and
  -- no decision has an id above the last one given.
  pub Reaches-WellFormed : WellFormed s → WellFormed t
  Reaches-WellFormed = Keeps-reached well_kept env s t h

  -- In a ledger reached from a well-formed one, a done item that is not legacy is bound to a decision
  -- that is in the table, is about that item, and has the item's resolution.
  pub done_is_decided :
      WellFormed s
      → (n : ℕ) (i : Item) → get_item n t ≡ some i
      → i.status ≡ Status.done
      → i.legacy ≡ false
      → (d : Decision) × (i.terminal_decision_id ≡ some d.id)
        × (d.work_item_id ≡ i.id)
        × (i.resolution ≡ resolution_for d.kind)
        × (find (is_about i.id d.id) t.decisions ≡ some d)
  done_is_decided w n i g done l =
      let c = (Reaches-WellFormed w).items n i g in
      let (m, e) = bound_of_done i c.closed done l in
      let (d, f, r) = bound_decision t.decisions i m c.shape e in
      let (id, about) = is_about_sound i.id m d (find_sound (is_about i.id m) t.decisions d f) in
      (d, e ∙ ap some (sym id), about, r, rw id f)
