-- ===== src/WorkItems/Edit.antt =====
-- The description edit: `update_work_item_description` of sprintctl/workitemcore.py, a
-- compare-and-set on a revision that counts the edits and carries the SHA-256 of the text.
-- The version that the source parses out of the revision is the one that it has just printed.
use sprintctl.Prelude.{
  ℕ, ◌+◌, String, Bool, true, false, not, ◌&&◌, Option, none, some, length, select, ◌==◌, string_eq,
  nat_eq, option_eq, if◌then◌else◌,
}
use sprintctl.Prelude.Text.{strip, is_blank}
use sprintctl.Domain.{Item, Event, Payload}
use sprintctl.Ledger.{Fault, Ledger, Action, ok, err, pure, lift, gets, transaction, ◌>>=◌, ◌>>◌}
use sprintctl.Schema.Statements.{update_item, insert_event}
use sprintctl.WorkItems.Basics.{
  description_revision, validate_work_item_description, validate_item_edit_revision,
}
use sprintctl.WorkItems.Decide.{lock_item}

-- The result: the item after the edit, its event, and the two revisions.
pub record Edited : Type 0 where
  pub item : Item
  pub event_id : ℕ
  pub previous_revision : String
  pub revision : String

-- `edit_version`: how many item-edited events the item has.
abbrev pub is_edit_of : ℕ → Event → Bool
is_edit_of item_id e = e.work_item_id == some item_id && e.event_type == "item-edited"

unfoldable pub edit_version : ℕ → Ledger → ℕ
edit_version item_id s = length (select (is_edit_of item_id) s.events)

abbrev pub check_edit : Option String → String → Action (Unit {0})
check_edit none current s = (ok tt, s)
check_edit (some expected) current s =
    if expected == current then (ok tt, s) else (err (Fault.edit_conflict expected current), s)

abbrev pub accept_text : Bool → String → Action (Unit {0})
accept_text true message s = (ok tt, s)
accept_text false message s = (err (Fault.value_error message), s)

abbrev pub with_description : String → ℕ → Item → Item
with_description description now i = record i { description = description; updated_at = now }

module _ (sha256 : String → String) where
  unfoldable pub edit_locked : ℕ → String → Option String → String → Action Edited
  edit_locked item_id description expected_revision actor = do
    item ← lock_item item_id
    version ← gets (edit_version item_id)
    check_edit expected_revision (description_revision sha256 item version)
    accept_text (not (item.description == description)) "description unchanged: no-op edit rejected"
    now ← gets (λ s. s.clock)
    update_item item_id (with_description description now)
    event_id ← insert_event item.sprint_id (strip actor) "item-edited" "actor" (some item_id) (
        Payload.edited item.description description (description_revision sha256 item version)
          (description_revision sha256 (with_description description now item) (version + 1)))
    updated ← lock_item item_id
    pure (record {
      item = updated;
      event_id = event_id;
      previous_revision = description_revision sha256 item version;
      revision = description_revision sha256 (with_description description now item) (version + 1);
    })

  unfoldable pub update_work_item_description :
      ℕ → String → (expected_revision : Option String) (actor : String) → Action Edited
  unfolding edit_locked
  update_work_item_description item_id description expected_revision actor = do
    text ← lift (validate_work_item_description description)
    expected ← lift (validate_item_edit_revision expected_revision)
    accept_text (not (is_blank actor)) "actor must be a non-empty string"
    transaction (edit_locked item_id text expected actor)
