-- ===== src/Deps.antt =====
-- sprintctl/depcore.py with its SQLite adapter in sprintctl/db.py: dependencies between work
-- items, and the items that are ready because no dependency blocks them.
pub mod Ready
pub mod Edges
use sprintctl.Prelude.{
  ℕ, suc, ◌+◌, String, Bool, true, false, not, ◌&&◌, ◌||◌, Option, none, some, List, [], ◌∷◌, ◌++◌,
  length, any, all, find, select, delete, ltb, ◌==◌, nat_eq, if◌then◌else◌,
}
use sprintctl.Domain.{Status, Item, Dep, status_eq}
use sprintctl.Ledger.{
  Fault, Ledger, Outcome, Action, ok, err, require, gets, pure, raise, ◌>>=◌, ◌>>◌,
}
use sprintctl.Schema.{item_is, is_some}
use sprintctl.Schema.Statements.{get_item}

-- A row of `list_deps_blocking`: the dependency with its blocker's title and status.
pub record Blocker : Type 0 where
  pub id : ℕ
  pub item_id : ℕ
  pub blocked_item_id : ℕ
  pub created_at : ℕ
  pub blocker_title : String
  pub blocker_status : Status

abbrev pub joined : Dep → Option Item → List Blocker → List Blocker
joined d none rest = rest
joined d (some item) rest =
    record {
      id = d.id;
      item_id = d.item_id;
      blocked_item_id = d.blocked_item_id;
      created_at = d.created_at;
      blocker_title = item.title;
      blocker_status = item.status;
    }
    ∷ rest

-- `dep d JOIN work_item wi ON d.item_id = wi.id WHERE d.blocked_item_id = ?`; the rows stand in
-- the order of their creation.
unfoldable pub blocking : List Item → ℕ → List Dep → List Blocker
blocking items n [] = []
blocking items n (d ∷ ds) =
    let rest = blocking items n ds in
    if d.blocked_item_id == n then joined d (find (item_is d.item_id) items) rest else rest

abbrev pub list_deps_blocking : ℕ → Ledger → List Blocker
list_deps_blocking n s = blocking s.items n s.deps

abbrev pub unresolved : List Blocker → List Blocker
unresolved = select (λ b. not (b.blocker_status == Status.done))

-- `_validate_add_dep`
unfoldable pub validate_add_dep : ℕ → ℕ → Action (Unit {0})
validate_add_dep item_id blocked_item_id s =
    if item_id == blocked_item_id
    then (err (Fault.value_error "An item cannot depend on itself"), s)
    else if not (is_some (get_item item_id s))
    then (err (Fault.item_not_found item_id), s)
    else if not (is_some (get_item blocked_item_id s))
    then (err (Fault.item_not_found blocked_item_id), s)
    else (ok tt, s)

abbrev pub dep_is : ℕ → ℕ → Dep → Bool
dep_is a b d = d.item_id == a && d.blocked_item_id == b

abbrev pub new_dep : (n item_id blocked_item_id now : ℕ) → Dep
new_dep n item_id blocked_item_id now = record {
  id = n;
  item_id = item_id;
  blocked_item_id = blocked_item_id;
  created_at = now;
}

abbrev pub with_dep_added : Dep → Ledger → Ledger
with_dep_added row s = record s { deps = s.deps ++ row ∷ []; last = record s.last { dep = row.id } }

-- `INSERT OR IGNORE INTO dep` under UNIQUE (item_id, blocked_item_id), then the row's id
abbrev pub dep_or_new : ℕ → ℕ → Option Dep → Action ℕ
dep_or_new item_id blocked_item_id (some d) s = (ok d.id, s)
dep_or_new item_id blocked_item_id none s =
    let n = s.last.dep + 1 in (ok n, with_dep_added (new_dep n item_id blocked_item_id s.clock) s)

unfoldable pub insert_dep : ℕ → ℕ → Action ℕ
insert_dep item_id blocked_item_id s =
    dep_or_new item_id blocked_item_id (find (dep_is item_id blocked_item_id) s.deps) s

unfoldable pub add_dep : ℕ → ℕ → Action ℕ
unfolding validate_add_dep insert_dep
add_dep item_id blocked_item_id = do
  validate_add_dep item_id blocked_item_id
  insert_dep item_id blocked_item_id

unfoldable pub remove_dep : ℕ → ℕ → Action (Unit {0})
remove_dep dep_id item_id s =
    if any (λ d. d.id == dep_id && (d.item_id == item_id || d.blocked_item_id == item_id)) s.deps
    then (ok tt, record s { deps = delete (λ d. d.id == dep_id) s.deps })
    else (err (Fault.dep_not_found dep_id), s)
