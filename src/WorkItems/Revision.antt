-- ===== src/WorkItems/Revision.antt =====
-- The compare-and-set of the description edit.
use sprintctl.Prelude.{
  ℕ, ◌+◌, ◌≡◌, refl, sym, ap, ◌∙◌, true, false, Option, none, some, String, List, [], ◌∷◌, ◌++◌,
  length, length-append, select, select-append, arith, ◌==◌, string_eq, option_eq, nat_eq, beq_refl,
  update, inl, inr, ◌⊎◌, find_sound,
}
use sprintctl.Prelude.Text.{strip, is_blank}
use sprintctl.Domain.{Item, Event, Payload, Decision}
use sprintctl.Ledger.{Fault, Ledger, ok, err, outcome, after, transaction}
use sprintctl.Schema.{item_is, item_update_guard, shape_broken}
use sprintctl.Schema.Statements.{
  get_item, update_item, insert_event, under, new_event, with_items, with_event_added,
}
use sprintctl.Kept.{KeepsIdentity}
use sprintctl.History.{find-update_item}
use sprintctl.WorkItems.Basics.{
  description_revision, validate_work_item_description, validate_item_edit_revision,
}
use sprintctl.WorkItems.Decide.{lock_item}
use sprintctl.WorkItems.Edit.{
  Edited, is_edit_of, edit_version, check_edit, edit_locked, update_work_item_description,
  with_description,
}

-- An item-edited event of the item adds one to the count.
counted :
    (n : ℕ) (es : List Event) (e : Event)
    → is_edit_of n e ≡ true
    → length (select (is_edit_of n) (es ++ e ∷ [])) ≡ length (select (is_edit_of n) es) + 1
unfolding select
counted n es e h =
    rw (
      select-append (is_edit_of n) es (e ∷ []),
      h,
      length-append (select (is_edit_of n) es) (e ∷ []),
    )

-- The write of the edit does not touch the events.
update_item-events :
    (n : ℕ) (f : Item → Item) (s : Ledger) → (after (update_item n f) s).events ≡ s.events
unfolding update_item
update_item-events n f s = ground arith

-- A new description keeps every trigger silent on a consistent item.
description_allowed :
    (ds : List Decision) (i : Item) (text : String) (now : ℕ)
    → shape_broken ds i ≡ false
    → item_update_guard ds i (with_description text now i) ≡ none
unfolding item_update_guard shape_broken
description_allowed ds i text now h = ground arith

abbrev written : ℕ → String → Ledger → Ledger
written n text s = with_items (update (item_is n) (with_description text s.clock) s.items) s

update_description :
    (n : ℕ) (text : String) (s : Ledger) (item : Item)
    → get_item n s ≡ some item
    → shape_broken s.decisions item ≡ false
    → update_item n (with_description text s.clock) s ≡ (ok tt, written n text s)
unfolding update_item
update_description n text s item g h =
    rw (g, update_item) (rw (description_allowed s.decisions item text s.clock h, under))

description-keeps : (text : String) (now : ℕ) → KeepsIdentity (with_description text now)
description-keeps text now = record { id = λ i. refl; uuid = λ i. refl }

get_written :
    (n : ℕ) (text : String) (s : Ledger) (item : Item)
    → get_item n s ≡ some item
    → get_item n (written n text s) ≡ some (with_description text s.clock item)
get_written n text s item g = rw (
  find-update_item n (with_description text s.clock) (description-keeps text s.clock) n s.items,
  g,
  find_sound (item_is n) s.items item g,
)

module _ (sha256 : String → String) (n : ℕ) (text actor : String) (s : Ledger) (item : Item)
    (found : get_item n s ≡ some item) where
  abbrev current : String
  current = description_revision sha256 item (edit_version n s)

  abbrev next_revision : String
  next_revision =
      description_revision sha256 (with_description text s.clock item) (edit_version n s + 1)

  abbrev edit_event : Event
  edit_event =
      new_event (s.last.event + 1) item.sprint_id (strip actor) "item-edited" "actor" (some n)
        (Payload.edited item.description text current next_revision) s.clock

  abbrev edited : Ledger
  edited = with_event_added edit_event (written n text s)

  abbrev answered : Edited
  answered = record {
    item = with_description text s.clock item;
    event_id = s.last.event + 1;
    previous_revision = current;
    revision = next_revision;
  }

  edit_locked-edited :
      (expected : Option String)
      → shape_broken s.decisions item ≡ false
      → (item.description == text) ≡ false
      → ((t : Ledger) → check_edit expected current t ≡ (ok tt, t))
      → edit_locked sha256 n text expected actor s ≡ (ok answered, edited)
  unfolding edit_locked insert_event
  edit_locked-edited expected shape new basis =
      rw (found, lock_item)
        (rw (basis s) (
          rw (new) (
            rw (update_description n text s item found shape)
              (rw (get_written n text s item found, lock_item)))))

  -- The count of edits is one more.
  version_edited : edit_version n edited ≡ edit_version n s + 1
  unfolding edit_version
  version_edited = counted n s.events edit_event (rw (beq_refl (some n)) refl)

  update_edited :
      (expected : Option String)
      → validate_work_item_description text ≡ ok text
      → validate_item_edit_revision expected ≡ ok expected
      → is_blank actor ≡ false
      → edit_locked sha256 n text expected actor s ≡ (ok answered, edited)
      → update_work_item_description sha256 n text expected actor s ≡ (ok answered, edited)
  unfolding update_work_item_description transaction
  update_edited expected valid form named h = rw (valid, form, named) (rw h refl)

  passes :
      (expected : Option String)
      → (expected ≡ none) ⊎ (expected ≡ some current)
      → (t : Ledger) → check_edit expected current t ≡ (ok tt, t)
  passes expected (inl e) t = rw e
  passes expected (inr e) t = rw (e, check_edit) (rw (beq_refl current) refl)

  -- An edit whose text and revision are valid, that gives no revision or the current one, by a named
  -- actor, of an item that has another description and the shape that the triggers check, returns. The
  -- item that it returns is the one now stored, with the new description, and the revision that it
  -- returns is the current one: of that item, at one more edit than before.
  pub update_work_item_description-accepts :
      (expected : Option String)
      → validate_work_item_description text ≡ ok text
      → validate_item_edit_revision expected ≡ ok expected
      → is_blank actor ≡ false
      → shape_broken s.decisions item ≡ false
      → (item.description == text) ≡ false
      → (expected ≡ none) ⊎ (expected ≡ some current)
      → (r : Edited) × (outcome (update_work_item_description sha256 n text expected actor) s
          ≡ ok r)
        × (get_item n (after (update_work_item_description sha256 n text expected actor) s)
            ≡ some r.item)
        × (r.item.description ≡ text)
        × (r.previous_revision ≡ current)
        × (r.revision
            ≡ description_revision sha256 r.item (
                edit_version n
                  (after (update_work_item_description sha256 n text expected actor) s)))
        × (edit_version n (after (update_work_item_description sha256 n text expected actor) s)
            ≡ edit_version n s + 1)
  update_work_item_description-accepts expected valid form named shape new basis =
      let e =
        update_edited expected valid form named
          (edit_locked-edited expected shape new (passes expected basis)) in
      (
        answered,
        ap (λ p. p.0) e,
        ap (λ p. get_item n p.1) e ∙ get_written n text s item found,
        refl,
        refl,
        ap (description_revision sha256 (with_description text s.clock item))
            (sym version_edited ∙ ap (λ p. edit_version n p.1) (sym e)),
        ap (λ p. edit_version n p.1) e ∙ version_edited,
      )

  locked_stale :
      (stale : String)
      → (stale == current) ≡ false
      → edit_locked sha256 n text (some stale) actor s
        ≡ (err (Fault.edit_conflict stale current), s)
  unfolding edit_locked
  locked_stale stale other = rw (found, lock_item) (rw other refl)

  -- An edit whose text and revision are valid, by a named actor, that gives a revision other than the
  -- current one is refused as a conflict between the two and writes nothing.
  pub update_work_item_description-stale :
      (stale : String)
      → validate_work_item_description text ≡ ok text
      → validate_item_edit_revision (some stale) ≡ ok (some stale)
      → is_blank actor ≡ false
      → (stale == current) ≡ false
      → update_work_item_description sha256 n text (some stale) actor s
        ≡ (err (Fault.edit_conflict stale current), s)
  unfolding update_work_item_description transaction
  update_work_item_description-stale stale valid form named other =
      rw (valid, form, named) (rw (locked_stale stale other) refl)
