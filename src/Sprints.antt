-- ===== src/Sprints.antt =====
-- sprintctl/sprintcore.py with its SQLite adapters in sprintctl/db.py: the status and the kind of a
-- sprint under compare-and-set, and the explicit close with its boundary event.
-- `_require_idle_connection` refuses a nested transaction; an operation here starts outside one.
pub mod Steps
use sprintctl.Prelude.{
  ℕ, suc, ◌+◌, String, Bool, true, false, not, ◌&&◌, ◌||◌, Option, none, some, List, [], ◌∷◌, ◌++◌,
  find, update, leb, ltb, ◌==◌, nat_eq, string_eq, if◌then◌else◌,
}
use Prim.Native.String.{◌++◌ as joined}
use sprintctl.Prelude.Text.{strip, is_blank, skip, skip_class, is_hex, is_uuid_char}
use sprintctl.WorkItems.Basics.{◌▹◌, fully, checked}
use sprintctl.Domain.{
  Sprint, SprintStatus, SprintKind, Payload, Track, sprint_status_text, sprint_kind_text,
  sprint_status_eq, sprint_kind_eq,
}
use sprintctl.Ledger.{
  Fault, Ledger, Outcome, Action, ok, err, pure, lift, gets, modify, transaction, ◌>>=◌, ◌>>◌,
}
use sprintctl.Schema.Statements.{insert_event}

abbrev pub sprint_is : ℕ → Sprint → Bool
sprint_is n sprint = sprint.id == n

abbrev pub get_sprint : ℕ → Ledger → Option Sprint
get_sprint n s = find (sprint_is n) s.sprints

-- `sprint:{aggregate_uuid}@status:{status}`
unfoldable pub sprint_status_revision : Sprint → String
sprint_status_revision sprint =
    joined "sprint:"
      (joined sprint.aggregate_uuid (joined "@status:" (sprint_status_text sprint.status)))

-- `sprint:{aggregate_uuid}@kind:{kind}@status:{status}`
unfoldable pub sprint_kind_revision : Sprint → String
sprint_kind_revision sprint = joined "sprint:" (
    joined sprint.aggregate_uuid (
      joined "@kind:" (
        joined (sprint_kind_text sprint.kind)
          (joined "@status:" (sprint_status_text sprint.status)))))

abbrev is_sprint_status_text : String → Bool
is_sprint_status_text s = s == "planned" || s == "active" || s == "closed"

-- `^sprint:[0-9a-fA-F-]{36}@status:(planned|active|closed)$`
unfoldable pub is_sprint_status_revision : String → Bool
unfolding skip skip_class
is_sprint_status_revision r =
    fully (skip "sprint:" r ▹ skip_class is_uuid_char 36 ▹ skip "@status:") is_sprint_status_text

unfoldable pub validate_sprint_status_revision : Option String → Outcome (Option String)
validate_sprint_status_revision none = ok none
validate_sprint_status_revision (some r) =
    checked (is_sprint_status_revision r) "expected_revision must be a valid sprint status revision"
      (some r)

-- `(active_sprint|backlog|archive)@status:(planned|active|closed)`
abbrev is_kind_and_status : String → Bool
is_kind_and_status s =
    fully (skip "active_sprint@status:" s) is_sprint_status_text
    || fully (skip "backlog@status:" s) is_sprint_status_text
    || fully (skip "archive@status:" s) is_sprint_status_text

-- `_KIND_REVISION`: the groups of a lowercase UUID, then the kind and the status.
unfoldable pub is_kind_revision : String → Bool
unfolding skip skip_class
is_kind_revision r =
    fully
      (skip "sprint:" r
        ▹ skip_class is_hex 8
        ▹ skip "-"
        ▹ skip_class is_hex 4
        ▹ skip "-"
        ▹ skip_class is_hex 4
        ▹ skip "-"
        ▹ skip_class is_hex 4
        ▹ skip "-"
        ▹ skip_class is_hex 12
        ▹ skip "@kind:")
      is_kind_and_status

unfoldable pub validate_kind_revision : Option String → Outcome (Option String)
validate_kind_revision none = ok none
validate_kind_revision (some r) =
    checked (is_kind_revision r) "expected_revision must be a valid sprint kind revision" (some r)

-- `validate_sprint_kind_id`
unfoldable pub validate_sprint_kind_id : ℕ → Outcome ℕ
validate_sprint_kind_id n =
    if leb 1 n && ltb n 9223372036854775808
    then ok n
    else err (Fault.value_error "sprint_id must be a positive signed 64-bit integer")

-- SPRINT_TRANSITIONS
unfoldable pub sprint_may_become : SprintStatus → SprintStatus → Bool
sprint_may_become SprintStatus.planned SprintStatus.active = true
sprint_may_become SprintStatus.active SprintStatus.closed = true
sprint_may_become _ _ = false

abbrev pub lock_sprint : ℕ → Action Sprint
lock_sprint n s = elim (get_sprint n s) [
  | none ↦ (err (Fault.sprint_not_found n), s)
  | some sprint ↦ (ok sprint, s)
]

abbrev pub check_basis : Option String → String → Action (Unit {0})
check_basis none current s = (ok tt, s)
check_basis (some expected) current s =
    if expected == current then (ok tt, s) else (err (Fault.status_conflict expected current), s)

abbrev pub permit : Bool → String → Action (Unit {0})
permit true message s = (ok tt, s)
permit false message s = (err (Fault.invalid_transition message), s)

abbrev pub with_sprints : List Sprint → Ledger → Ledger
with_sprints rows s = record s { sprints = rows }

-- `UPDATE sprint SET … WHERE id = ?`
unfoldable pub update_sprint : ℕ → (Sprint → Sprint) → Action (Unit {0})
update_sprint n f s = (ok tt, with_sprints (update (sprint_is n) f s.sprints) s)

abbrev pub with_status : SprintStatus → Sprint → Sprint
with_status status sprint = record sprint { status = status }

abbrev pub with_kind : SprintKind → Sprint → Sprint
with_kind kind sprint = record sprint { kind = kind }

-- `_set_sprint_status_locked`
unfoldable pub set_sprint_status_locked : ℕ → SprintStatus → Option String → Action (Unit {0})
set_sprint_status_locked sprint_id new_status expected_revision = do
  sprint ← lock_sprint sprint_id
  check_basis expected_revision (sprint_status_revision sprint)
  permit (sprint_may_become sprint.status new_status) "transition not allowed"
  permit (not (new_status == SprintStatus.active && sprint.kind == SprintKind.archive))
      "cannot activate an archive sprint"
  update_sprint sprint_id (with_status new_status)

unfoldable pub set_sprint_status : ℕ → SprintStatus → Option String → Action (Unit {0})
unfolding set_sprint_status_locked
set_sprint_status sprint_id new_status expected_revision = do
  expected ← lift (validate_sprint_status_revision expected_revision)
  transaction (set_sprint_status_locked sprint_id new_status expected)

-- `_set_sprint_kind_locked`: a request for the kind it has still writes.
unfoldable pub set_sprint_kind_locked : ℕ → SprintKind → Option String → Action (Sprint × String)
set_sprint_kind_locked sprint_id kind expected_revision = do
  sprint ← lock_sprint sprint_id
  check_basis expected_revision (sprint_kind_revision sprint)
  update_sprint sprint_id (with_kind kind)
  pure (with_kind kind sprint, sprint_kind_revision (with_kind kind sprint))

unfoldable pub set_sprint_kind : ℕ → SprintKind → Option String → Action (Sprint × String)
unfolding set_sprint_kind_locked
set_sprint_kind sprint_id kind expected_revision = do
  lift (validate_sprint_kind_id sprint_id)
  expected ← lift (validate_kind_revision expected_revision)
  transaction (set_sprint_kind_locked sprint_id kind expected)

-- `_close_sprint_with_boundary_event`
unfoldable pub close_locked : ℕ → String → Option String → Action ℕ
close_locked sprint_id actor expected_revision = do
  sprint ← lock_sprint sprint_id
  check_basis expected_revision (sprint_status_revision sprint)
  permit (sprint_may_become sprint.status SprintStatus.closed) "transition not allowed"
  update_sprint sprint_id (with_status SprintStatus.closed)
  insert_event sprint_id (strip actor) "sprint-close-boundary" "actor" none
      (Payload.closed_sprint sprint.status SprintStatus.closed)

abbrev pub named_actor : String → Outcome (Unit {0})
named_actor actor =
    if is_blank actor then err (Fault.value_error "actor must be a non-empty string") else ok tt

unfoldable pub close_sprint_with_boundary_event : ℕ → String → Option String → Action ℕ
unfolding close_locked
close_sprint_with_boundary_event sprint_id actor expected_revision = do
  lift (named_actor actor)
  expected ← lift (validate_sprint_status_revision expected_revision)
  transaction (close_locked sprint_id actor expected)
