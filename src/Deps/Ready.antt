-- ===== src/Deps/Ready.antt =====
-- `_ready_items` of sprintctl/depcore.py and `get_ready_items` of sprintctl/db.py.
use sprintctl.Prelude.{
  ℕ, Bool, ◌&&◌, ◌||◌, Option, none, some, List, [], ◌∷◌, length, select, leb, ltb, ◌==◌, nat_eq,
  all,
}
use sprintctl.Prelude.Sort.{sort}
use sprintctl.Domain.{Status, Item, status_eq}
use sprintctl.Ledger.{Ledger}
use sprintctl.Deps.{Blocker, list_deps_blocking, unresolved}
use sprintctl.WorkItems.Basics.{effective_priority}

-- The item with the three fields that the report adds.
pub record ReadyItem : Type 0 where
  pub item : Item
  pub blockers_resolved : ℕ
  pub unresolved_blockers : ℕ
  pub effective_priority : Option ℕ

abbrev pub ready_item : Item → List Blocker → ReadyItem
ready_item item blockers = record {
  item = item;
  blockers_resolved = length blockers;
  unresolved_blockers = 0;
  effective_priority = effective_priority item;
}

abbrev pub add_ready : Item → (blockers remaining : List Blocker) → List ReadyItem → List ReadyItem
add_ready item blockers [] rest = ready_item item blockers ∷ rest
add_ready item blockers (b ∷ bs) rest = rest

-- The loop, before the sort.
unfoldable pub unblocked : List Item → (ℕ → List Blocker) → List ReadyItem
unblocked [] blockers_for = []
unblocked (item ∷ items) blockers_for =
    add_ready item (blockers_for item.id) (unresolved (blockers_for item.id))
      (unblocked items blockers_for)

-- The sort's key: `(priority is None, priority or 0, created_at, id)`, compared in order.
abbrev pub or_zero : Option ℕ → ℕ
or_zero none = 0
or_zero (some p) = p

abbrev pub lacks_priority : Option ℕ → ℕ
lacks_priority none = 1
lacks_priority (some p) = 0

abbrev pub key_leb : ReadyItem → ReadyItem → Bool
key_leb a b =
    let a0 = lacks_priority a.effective_priority in
    let b0 = lacks_priority b.effective_priority in
    let a1 = or_zero a.effective_priority in
    let b1 = or_zero b.effective_priority in
    ltb a0 b0
    || (a0 == b0
        && (ltb a1 b1
            || (a1 == b1
                && (ltb a.item.created_at b.item.created_at
                    || (a.item.created_at == b.item.created_at && leb a.item.id b.item.id)))))

unfoldable pub ready_items : List Item → (ℕ → List Blocker) → List ReadyItem
unfolding unblocked
ready_items items blockers_for = sort key_leb (unblocked items blockers_for)

-- `get_ready_items`: the pending items of the sprint
abbrev pub pending_in : ℕ → Item → Bool
pending_in sprint_id item = item.sprint_id == sprint_id && item.status == Status.pending

unfoldable pub get_ready_items : ℕ → Ledger → List ReadyItem
unfolding ready_items
get_ready_items sprint_id s =
    ready_items (select (pending_in sprint_id) s.items) (λ n. list_deps_blocking n s)

-- Every blocker of the item is done.
abbrev pub is_unblocked : (ℕ → List Blocker) → Item → Bool
is_unblocked blockers_for item = all (λ b. b.blocker_status == Status.done) (blockers_for item.id)

abbrev pub report_of : (ℕ → List Blocker) → Item → ReadyItem
report_of blockers_for item = ready_item item (blockers_for item.id)
