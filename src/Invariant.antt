-- ===== src/Invariant.antt =====
-- The consistency of items and decisions that the triggers check.
pub mod Statements
pub mod Closed
use sprintctl.Prelude.{
  ℕ, suc, ◌+◌, ◌≤◌, ◌≡◌, refl, sym, Bool, true, false, not, ◌&&◌, Option, none, some, List, [], ◌∷◌,
  ◌++◌, All, All-append, All-mono, find, find-append, Option-cases, inl, inr, arith, ◌==◌, nat_eq,
  if◌then◌else◌,
}
use mathlib.Core.Option.{some-injective}
use sprintctl.Domain.{Status, Resolution, Item, Decision, status_eq, resolution_eq, resolution_for}
use sprintctl.Ledger.{Ledger, empty}
use sprintctl.Schema.{shape_broken, is_some, item_is, bound_kind}
use sprintctl.Schema.Statements.{get_item}

-- The shape that the triggers check; and a done item is legacy or bound to a decision.
pub record IsConsistent (ds : List Decision) (i : Item) : Type 0 where
  pub shape : shape_broken ds i ≡ false
  pub closed :
      (i.status == Status.done && not i.legacy && not (is_some i.terminal_decision_id)) ≡ false

pub record WellFormed (s : Ledger) : Type 0 where
  pub items : (n : ℕ) (i : Item) → get_item n s ≡ some i → IsConsistent s.decisions i
  pub ids : All (λ d. d.id ≤ s.last.decision) s.decisions

-- The decision that an item names, if it is about the item.
abbrev pub is_about : ℕ → ℕ → Decision → Bool
is_about item_id n d = d.id == n && d.work_item_id == item_id

bound_kind-found :
    (ds : List Decision) (item_id n : ℕ) (d : Decision)
    → find (is_about item_id n) ds ≡ some d
    → bound_kind ds item_id (some n) ≡ resolution_for d.kind
bound_kind-found ds item_id n d h = rw (h, bound_kind)

bound_kind-missing :
    (ds : List Decision) (item_id n : ℕ)
    → find (is_about item_id n) ds ≡ none
    → bound_kind ds item_id (some n) ≡ none
bound_kind-missing ds item_id n h = rw (h, bound_kind)

-- What the shape says of an item that names a decision.
pub shape-bound :
    (ds : List Decision) (i : Item) (n : ℕ)
    → shape_broken ds i ≡ false
    → i.terminal_decision_id ≡ some n
    → (i.status ≡ Status.done)
      × (i.resolution ≡ bound_kind ds i.id (some n))
      × (is_some i.resolution ≡ true)
unfolding shape_broken
shape-bound ds i n h e = (ground arith, ground arith, ground arith)

shape-free :
    (ds es : List Decision) (i : Item)
    → shape_broken ds i ≡ false
    → i.terminal_decision_id ≡ none
    → shape_broken es i ≡ false
unfolding shape_broken
shape-free ds es i h e = ground arith

shape-of_bound :
    (ds : List Decision) (i : Item) (n : ℕ)
    → i.terminal_decision_id ≡ some n
    → i.status ≡ Status.done
    → i.resolution ≡ bound_kind ds i.id (some n)
    → is_some i.resolution ≡ true
    → shape_broken ds i ≡ false
unfolding shape_broken
shape-of_bound ds i n e d r k = ground arith

-- The decision that a consistent item names.
pub bound_decision :
    (ds : List Decision) (i : Item) (n : ℕ)
    → shape_broken ds i ≡ false
    → i.terminal_decision_id ≡ some n
    → (d : Decision) × (find (is_about i.id n) ds ≡ some d) × (i.resolution ≡ resolution_for d.kind)
bound_decision ds i n h e =
    let (done, r, k) = shape-bound ds i n h e in
    elim (Option-cases (find (is_about i.id n) ds)) [
      | inl m ↦ absurd (cc (rw (r, bound_kind-missing ds i.id n m) at k))
      | inr (d, f) ↦ (d, f, rw r (bound_kind-found ds i.id n d f))
    ]

-- More decisions leave an item consistent.
pub IsConsistent-append :
    (ds es : List Decision) (i : Item) → IsConsistent ds i → IsConsistent (ds ++ es) i
IsConsistent-append ds es i c = record {
  shape = elim (Option-cases i.terminal_decision_id) [
    | inl e ↦ shape-free ds (ds ++ es) i c.shape e
    | inr (n, e) ↦
        let (done, r, k) = shape-bound ds i n c.shape e in
        let (d, f, q) = bound_decision ds i n c.shape e in
        shape-of_bound (ds ++ es) i n e done
          (rw (bound_kind-found (ds ++ es) i.id n d (find-append (is_about i.id n) ds es d f)) q) k
  ];
  closed = c.closed;
}

pub WellFormed-empty : WellFormed empty
unfolding find
WellFormed-empty = record { items = λ n i h. cc; ids = tt }
