-- ===== src/Schema.antt =====
-- The constraints that the database itself enforces (migrations 23 to 25 of sprintctl/db.py): the
-- triggers on work_item, work_decision and reservation, with `none` where no trigger aborts. The legacy import gate is closed, as it is outside an
-- import. Where several triggers would abort, the first of the list is named.
pub mod Statements
use sprintctl.Prelude.{
  ℕ, suc, ◌+◌, String, Bool, true, false, not, ◌&&◌, ◌||◌, Option, none, some, List, [], ◌∷◌, ◌++◌,
  length, all, any, find, select, update, leb, ◌==◌, bool_eq, nat_eq, string_eq, option_eq,
  if◌then◌else◌,
}
use sprintctl.Prelude.Text.{all_chars}
use sprintctl.Domain.{
  Status, Kind, Resolution, Role, Item, Decision, Release, Reservation, Event, Payload, status_eq,
  kind_eq, resolution_eq, role_eq, is_terminal, resolution_for,
}
use sprintctl.Ledger.{Guard, Fault, Ledger, Sequences, Action, ok, err}
use sprintctl.Decisions.{is_digest, is_nil}

abbrev pub item_is : ℕ → Item → Bool
item_is n item = item.id == n

abbrev pub decision_is : ℕ → Decision → Bool
decision_is n d = d.id == n

abbrev pub is_some {ℓ} : {A : Type ℓ} → Option A → Bool
is_some none = false
is_some (some a) = true

-- The first guard of a list of pairs whose test holds.
abbrev pub first_guard : List (Bool × Guard) → Option Guard
first_guard [] = none
first_guard ((b, g) ∷ rest) = let later = first_guard rest in if b then some g else later

-- The kind of the decision that an item names, if the decision is about the item.
abbrev pub bound_kind : List Decision → ℕ → Option ℕ → Option Resolution
bound_kind ds item_id none = none
bound_kind ds item_id (some n) = elim (find (λ d. d.id == n && d.work_item_id == item_id) ds) [
  | none ↦ none
  | some d ↦ resolution_for d.kind
]

-- `shape_check`: a resolution goes with a terminal decision about the item, of the kind that the
-- resolution names, on a done item.
unfoldable pub shape_broken : List Decision → Item → Bool
shape_broken ds item =
    not (is_some item.resolution == is_some item.terminal_decision_id)
    || (is_some item.terminal_decision_id
        && (not (item.status == Status.done)
            || not (item.resolution == bound_kind ds item.id item.terminal_decision_id)))

-- `trim(text)`, which takes spaces off, and the wider `trim` of the re-mark trigger.
abbrev pub spaces_only : String → Bool
spaces_only = all_chars (λ c. c == 32)

abbrev pub sql_blank : String → Bool
sql_blank = all_chars (λ c. c == 32 || (leb 9 c && leb c 13) || c == 160)

-- The decision that a legacy done item may be bound to.
unfoldable pub is_remark : ℕ → Decision → Bool
is_remark item_id d =
    d.work_item_id == item_id
    && is_terminal d.kind
    && not (sql_blank d.rationale)
    && not (is_nil d.evidence_digests)
    && all is_digest d.evidence_digests

abbrev remark_found : List Decision → ℕ → Option ℕ → Bool
remark_found ds item_id none = false
remark_found ds item_id (some n) = any (λ d. d.id == n && is_remark item_id d) ds

unfoldable pub item_update_guard : List Decision → Item → Item → Option Guard
item_update_guard ds old new = first_guard (
    (not (new.legacy == old.legacy), Guard.legacy_immutable)
    ∷ (old.status == Status.done && not (new.status == Status.done), Guard.done_is_terminal)
    ∷ (
      not (old.status == Status.done)
          && new.status == Status.done
          && not (is_some new.terminal_decision_id),
      Guard.done_requires_decision,
    )
    ∷ (
      is_some old.terminal_decision_id
          && (not (new.terminal_decision_id == old.terminal_decision_id)
              || not (new.resolution == old.resolution)),
      Guard.terminal_immutable,
    )
    ∷ (
      old.status == Status.done
          && not (is_some old.terminal_decision_id)
          && is_some new.terminal_decision_id
          && not (old.legacy && remark_found ds old.id new.terminal_decision_id),
      Guard.legacy_done_remark,
    )
    ∷ (shape_broken ds new, Guard.terminal_shape)
    ∷ [])

unfoldable pub item_insert_guard : List Decision → Item → Option Guard
item_insert_guard ds new = first_guard (
    (new.legacy, Guard.legacy_insert)
    ∷ (
      new.status == Status.done && not new.legacy && not (is_some new.terminal_decision_id),
      Guard.done_requires_decision,
    )
    ∷ (shape_broken ds new, Guard.terminal_shape)
    ∷ [])

-- `SELECT COUNT(*) FROM work_decision WHERE work_item_id = ? AND kind = 'revise'`
unfoldable pub revise_count : List Decision → ℕ → ℕ
revise_count ds item_id =
    length (select (λ d. d.work_item_id == item_id && d.kind == Kind.revise) ds)

abbrev pub release_of : ℕ → String → Release → Bool
release_of item_id digest r = r.release_digest == digest && r.work_item_id == item_id

abbrev pub current_at : ℕ → ℕ → Release → Bool
current_at item_id count r = r.work_item_id == item_id && r.revise_count == count

abbrev foreign_release : List Release → ℕ → Option String → Bool
foreign_release rs item_id none = false
foreign_release rs item_id (some digest) = not (any (release_of item_id digest) rs)

unfoldable pub decision_insert_guard : List Release → List Decision → Decision → Option Guard
decision_insert_guard rs ds new = first_guard (
    (
      spaces_only new.actor
          || not (is_some new.superseded_by_item_id == (new.kind == Kind.supersede))
          || new.superseded_by_item_id == some new.work_item_id,
      Guard.decision_check,
    )
    ∷ (foreign_release rs new.work_item_id new.release_digest, Guard.release_of_item)
    ∷ (
      not (is_some new.release_digest)
          && any (current_at new.work_item_id (revise_count ds new.work_item_id)) rs,
      Guard.binds_current_release,
    )
    ∷ [])

unfoldable pub reservation_insert_guard : List Release → Reservation → Option Guard
reservation_insert_guard rs new = first_guard (
    (is_some new.release_digest && not (new.role == Role.execution), Guard.execution_only)
    ∷ (new.role == Role.execution && not (is_some new.release_digest), Guard.release_required)
    ∷ (foreign_release rs new.work_item_id new.release_digest, Guard.release_same_item)
    ∷ [])

unfoldable pub reservation_update_guard : Reservation → Reservation → Option Guard
reservation_update_guard old new = first_guard (
    (is_some new.release_digest && not (new.role == Role.execution), Guard.execution_only)
    ∷ (not (new.release_digest == old.release_digest), Guard.release_immutable)
    ∷ [])
