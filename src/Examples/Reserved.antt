-- ===== src/Examples/Reserved.antt =====
-- Reservations of the example's items.
use sprintctl.Prelude.{
  ◌≡◌, refl, String, Bool, true, false, Option, none, some, [], ◌∷◌, ◌++◌, select, find, any,
  update,
}
use sprintctl.Prelude.Text.{strip, lstrip, rstrip, is_space, decimal, skip, skip_class, skip_number}
use sprintctl.Domain.{Role, Status}
use sprintctl.Ledger.{Fault, Ledger, Outcome, ok, outcome, after, transaction, require}
use sprintctl.Schema.{revise_count, release_of}
use sprintctl.WorkItems.Basics.{description_revision, is_item_edit_revision}
use sprintctl.WorkItems.Edit.{edit_version}
use sprintctl.Releases.Contract.{normalize_acceptance_contract, default_contract}
use sprintctl.Releases.Freeze.{
  release_revision, release_digest, freeze_digest, Basis, release_basis,
}
use sprintctl.Reservations.{Annotated, normalize_role}
use sprintctl.Reservations.Admission.{reserve, reserve_locked}
use sprintctl.Reservations.Overlap.{
  Returned, reserve-Returned, reserve-beside, reserve-takeover, reserve-atomic, new_row,
  rows_beside, is_executing, taken_over,
}
use sprintctl.Reservations.Accepts.{reserve-returns_beside_work, reserve-returns_execution}
use sprintctl.Examples.Ledgers.{start, row, environment}

abbrev asks : (role : String) (take_over : Bool) → Ledger → Outcome Annotated × Ledger
asks role take_over =
    reserve environment.lower environment.sha256 environment.dumps environment.stale_after
      environment.canonical 1 "bob" "r" (some role) none take_over none none

abbrev basis : Basis
basis = record {
  item = row 1 Status.active none none;
  revision =
      "item:0123abcd-0123-0123-0123-0123456789ab@description:v0@sha256:0123456789abcdef0123456789abcdef0123456789abcdef0123456789abcdef@revise:0";
  revise_count = 0;
}

-- A maintenance window is open.
abbrev closing : Ledger
closing = record start { maintenance = true }

abbrev frozen : String
frozen =
    freeze_digest environment.lower environment.sha256 environment.dumps basis default_contract
      start

watched :
    (x : Annotated) × (outcome (asks "observation" false) start ≡ ok x)
    × ((after (asks "observation" false) start).reservations
        ≡ rows_beside 1 "bob" "r" false start
          ++ new_row 1 "bob" "r" none Role.observation none start ∷ [])
unfolding normalize_acceptance_contract normalize_role strip lstrip rstrip is_space find
watched =
    reserve-returns_beside_work environment.lower environment.sha256 environment.dumps
      environment.stale_after environment.canonical 1 "bob" "r" (some "observation") none false none
      none start none default_contract (row 1 Status.active none none) refl refl refl refl
      Role.observation refl refl refl

reserve-returns_beside_work_example :
    (x : Annotated) × (outcome (asks "observation" false) start ≡ ok x)
    × ((after (asks "observation" false) start).reservations
        ≡ rows_beside 1 "bob" "r" false start
          ++ new_row 1 "bob" "r" none Role.observation none start ∷ [])
unfolding normalize_acceptance_contract normalize_role strip lstrip rstrip is_space find
reserve-returns_beside_work_example =
    reserve-returns_beside_work environment.lower environment.sha256 environment.dumps
      environment.stale_after environment.canonical 1 "bob" "r" (some "observation") none false none
      none start none default_contract (row 1 Status.active none none) refl refl refl refl
      Role.observation refl refl refl

reserve-returns_execution_example :
    (x : Annotated) × (outcome (asks "execution" true) start ≡ ok x)
    × ((after (asks "execution" true) start).reservations
        ≡ rows_beside 1 "bob" "r" true start
          ++ new_row 1 "bob" "r" none Role.execution (some frozen) start ∷ [])
    × (any (release_of 1 frozen) (after (asks "execution" true) start).releases ≡ true)
unfolding normalize_acceptance_contract normalize_role strip lstrip rstrip is_space find
    release_basis edit_version select revise_count description_revision decimal release_revision
    is_item_edit_revision skip skip_class skip_number release_digest
reserve-returns_execution_example =
    reserve-returns_execution environment.lower environment.sha256 environment.dumps
      environment.stale_after environment.canonical 1 "bob" "r" (some "execution") none true none
      none start none default_contract (row 1 Status.active none none) refl refl refl refl basis
      refl refl refl (λ e h. cc) refl refl (λ h. cc)

taken :
    (x : Annotated) × (outcome (asks "execution" true) start ≡ ok x)
    × ((after (asks "execution" true) start).reservations
        ≡ rows_beside 1 "bob" "r" true start
          ++ new_row 1 "bob" "r" none Role.execution (some frozen) start ∷ [])
    × (any (release_of 1 frozen) (after (asks "execution" true) start).releases ≡ true)
unfolding normalize_acceptance_contract normalize_role strip lstrip rstrip is_space find
    release_basis edit_version select revise_count description_revision decimal release_revision
    is_item_edit_revision skip skip_class skip_number release_digest
taken =
    reserve-returns_execution environment.lower environment.sha256 environment.dumps
      environment.stale_after environment.canonical 1 "bob" "r" (some "execution") none true none
      none start none default_contract (row 1 Status.active none none) refl refl refl refl basis
      refl refl refl (λ e h. cc) refl refl (λ h. cc)

reserve-Returned_example :
    Returned environment.lower environment.sha256 environment.dumps environment.stale_after
      environment.canonical 1 "bob" "r"
      (some "execution")
      none
      true
      none
      none
      start
      (after (asks "execution" true) start)
reserve-Returned_example =
    reserve-Returned environment.lower environment.sha256 environment.dumps environment.stale_after
      environment.canonical 1 "bob" "r" (some "execution") none true none none start taken.0 taken.1

reserve-beside_example :
    (r : Role) × (digest : Option String) × ((after (asks "observation" false) start).reservations
      ≡ start.reservations ++ new_row 1 "bob" "r" none r digest start ∷ [])
reserve-beside_example =
    reserve-beside environment.lower environment.sha256 environment.dumps environment.stale_after
      environment.canonical 1 "bob" "r" (some "observation") none false none none start watched.0
      refl watched.1

reserve-takeover_example :
    (digest : Option String) × ((after (asks "execution" true) start).reservations
      ≡ update (is_executing 1) (taken_over 0 "bob" "r") start.reservations
        ++ new_row 1 "bob" "r" none Role.execution digest start ∷ [])
    × (select (is_executing 1) (after (asks "execution" true) start).reservations
        ≡ new_row 1 "bob" "r" none Role.execution digest start ∷ [])
unfolding normalize_role strip lstrip rstrip is_space
reserve-takeover_example =
    reserve-takeover environment.lower environment.sha256 environment.dumps environment.stale_after
      environment.canonical 1 "bob" "r" (some "execution") none true none none start taken.0 refl
      refl taken.1

reserve-atomic_example : after (asks "execution" false) closing ≡ closing
unfolding reserve reserve_locked require transaction normalize_acceptance_contract normalize_role
    strip lstrip rstrip is_space find
reserve-atomic_example =
    reserve-atomic environment.lower environment.sha256 environment.dumps environment.stale_after
      environment.canonical 1 "bob" "r" (some "execution") none false none none closing
      Fault.reservation_conflict refl
