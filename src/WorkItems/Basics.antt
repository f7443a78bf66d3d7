-- ===== src/WorkItems/Basics.antt =====
-- Validators, revisions, creation and priority of a work item.
use sprintctl.Prelude.{
  ℕ, ◌-◌, String, Bool, true, false, ◌&&◌, ◌||◌, Option, none, some, leb, ◌==◌, nat_eq, string_eq,
  if◌then◌else◌,
}
use Prim.Native.String.{◌++◌}
use Prim.Native.Char.{code}
use sprintctl.Prelude.Text.{
  is_blank, has_nul, is_uuid_char, is_hex_text, is_space, skip, skip_class, skip_number, decimal,
}
use sprintctl.Domain.{Item, status_text}
use sprintctl.Ledger.{Fault, Outcome, Action, ok, err}
use sprintctl.Schema.Statements.{get_item, insert_item, update_item}

-- `item:{aggregate_uuid}@status:{status}`
unfoldable pub item_status_revision : Item → String
item_status_revision item =
    "item:" ++ (item.aggregate_uuid ++ ("@status:" ++ status_text item.status))

-- `item:{aggregate_uuid}@description:v{version}@sha256:{digest}`
unfoldable pub description_revision : (String → String) → Item → ℕ → String
description_revision sha256 item version =
    "item:"
    ++ (item.aggregate_uuid
        ++ ("@description:v" ++ (decimal version ++ ("@sha256:" ++ sha256 item.description))))

infixl 10 ◌▹◌
-- The rest of a match goes on where the match so far ended.
abbrev pub ◌▹◌ : Option String → (String → Option String) → Option String
none ▹ f = none
some s ▹ f = f s

abbrev is_status_text : String → Bool
is_status_text s = s == "pending" || s == "active" || s == "done" || s == "blocked"

abbrev pub fully : Option String → (String → Bool) → Bool
fully none p = false
fully (some s) p = p s

-- `^item:[0-9a-fA-F-]{36}@status:(pending|active|done|blocked)$`
unfoldable pub is_item_status_revision : String → Bool
unfolding skip skip_class
is_item_status_revision r =
    fully (skip "item:" r ▹ skip_class is_uuid_char 36 ▹ skip "@status:") is_status_text

-- `^item:[0-9a-fA-F-]{36}@description:v[0-9]+@sha256:[0-9a-f]{64}$`
unfoldable pub is_item_edit_revision : String → Bool
unfolding skip skip_class skip_number
is_item_edit_revision r =
    fully
      (skip "item:" r
        ▹ skip_class is_uuid_char 36
        ▹ skip "@description:v"
        ▹ skip_number
        ▹ skip "@sha256:")
      (is_hex_text 64)

abbrev pub checked : Bool → String → Option String → Outcome (Option String)
checked true message r = ok r
checked false message r = err (Fault.value_error message)

unfoldable pub validate_item_status_revision : Option String → Outcome (Option String)
validate_item_status_revision none = ok none
validate_item_status_revision (some r) =
    checked (is_item_status_revision r) "expected_revision must be a valid item status revision"
      (some r)

unfoldable pub validate_item_edit_revision : Option String → Outcome (Option String)
validate_item_edit_revision none = ok none
validate_item_edit_revision (some r) =
    checked (is_item_edit_revision r) "expected_revision must be a valid item description revision"
      (some r)

unfoldable pub validate_work_item_description : String → Outcome String
validate_work_item_description description =
    if is_blank description
    then err (Fault.value_error "work item description must contain non-whitespace text")
    else if has_nul description
    then err (Fault.value_error "work item description must not contain NUL bytes")
    else ok description

-- `None`, or an integer from 1 to 9
unfoldable pub validate_priority : Option ℕ → Outcome (Option ℕ)
validate_priority none = ok none
validate_priority (some p) =
    if leb 1 p && leb p 9
    then ok (some p)
    else err (Fault.value_error "priority must be between 1 and 9 (1 = highest)")

-- `^\[p([1-9])\]\s`, matched at the start of the title
unfoldable pub title_priority : String → Option ℕ
title_priority (String.◌∷◌ a (String.◌∷◌ b (String.◌∷◌ c (String.◌∷◌ d (String.◌∷◌ e rest))))) =
    if code a == b'['
      && code b == b'p'
      && leb b'1' (code c)
      && leb (code c) b'9'
      && code d == b']'
      && is_space (code e)
    then some (code c - b'0')
    else none
title_priority _ = none

abbrev or_else {ℓ} : {A : Type ℓ} → Option A → Option A → Option A
or_else none b = b
or_else (some a) b = some a

-- The priority column, or the legacy `[pN]` prefix of the title.
unfoldable pub effective_priority : Item → Option ℕ
unfolding title_priority is_space
effective_priority item = or_else item.priority (title_priority item.title)

abbrev pub with_outcome : {A B : Type 0} → Outcome A → (A → Action B) → Action B
with_outcome (ok a) f s = f a s
with_outcome (err e) f s = (err e, s)

unfoldable pub create_work_item :
    (sprint_id track_id : ℕ) (title description : String) (assignee : Option String)
    (priority : Option ℕ) (uuid : String)
    → Action ℕ
unfolding validate_priority
create_work_item sprint_id track_id title description assignee priority uuid =
    with_outcome (validate_priority priority)
      λ p. insert_item sprint_id track_id title description assignee p uuid

abbrev pub with_priority : Option ℕ → ℕ → Item → Item
with_priority p now i = record i { priority = p; updated_at = now }

abbrev pub set_priority_of : ℕ → Option ℕ → Option Item → Action (Unit {0})
set_priority_of item_id p none s = (err (Fault.item_not_found item_id), s)
set_priority_of item_id p (some item) s = update_item item_id (with_priority p s.clock) s

-- `updated_at` takes the clock; an item that is not there is an error.
unfoldable pub set_work_item_priority : ℕ → Option ℕ → Action (Unit {0})
unfolding validate_priority
set_work_item_priority item_id priority =
    with_outcome (validate_priority priority)
      λ p s. set_priority_of item_id p (get_item item_id s) s
