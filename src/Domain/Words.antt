-- ===== src/Domain/Words.antt =====
-- The enumerations. The source keeps them as strings; `…_text` is the string of each.
use sprintctl.Prelude.{◌≡◌, ◌↔◌, Bool, true, false, String, Option, none, some, arith, Equality}

-- work_item.status
pub data Status : Type 0 where
  pending active done blocked : Status

abbrev status_beq : Status → Status → Bool
status_beq Status.pending Status.pending = true
status_beq Status.active Status.active = true
status_beq Status.done Status.done = true
status_beq Status.blocked Status.blocked = true
status_beq _ _ = false

pub status_beq_iff : (a b : Status) → (status_beq a b ≡ true) ↔ (a ≡ b)
status_beq_iff a b = ground arith

instance abbrev pub status_eq : Equality Status
status_eq = record { equal = status_beq; means = status_beq_iff }

abbrev pub status_text : Status → String
status_text Status.pending = "pending"
status_text Status.active = "active"
status_text Status.done = "done"
status_text Status.blocked = "blocked"

-- sprint.status
pub data SprintStatus : Type 0 where
  planned active closed : SprintStatus

abbrev sprint_status_beq : SprintStatus → SprintStatus → Bool
sprint_status_beq SprintStatus.planned SprintStatus.planned = true
sprint_status_beq SprintStatus.active SprintStatus.active = true
sprint_status_beq SprintStatus.closed SprintStatus.closed = true
sprint_status_beq _ _ = false

pub sprint_status_beq_iff : (a b : SprintStatus) → (sprint_status_beq a b ≡ true) ↔ (a ≡ b)
sprint_status_beq_iff a b = ground arith

instance abbrev pub sprint_status_eq : Equality SprintStatus
sprint_status_eq = record { equal = sprint_status_beq; means = sprint_status_beq_iff }

abbrev pub sprint_status_text : SprintStatus → String
sprint_status_text SprintStatus.planned = "planned"
sprint_status_text SprintStatus.active = "active"
sprint_status_text SprintStatus.closed = "closed"

-- SPRINT_KINDS
pub data SprintKind : Type 0 where
  active_sprint backlog archive : SprintKind

abbrev sprint_kind_beq : SprintKind → SprintKind → Bool
sprint_kind_beq SprintKind.active_sprint SprintKind.active_sprint = true
sprint_kind_beq SprintKind.backlog SprintKind.backlog = true
sprint_kind_beq SprintKind.archive SprintKind.archive = true
sprint_kind_beq _ _ = false

pub sprint_kind_beq_iff : (a b : SprintKind) → (sprint_kind_beq a b ≡ true) ↔ (a ≡ b)
sprint_kind_beq_iff a b = ground arith

instance abbrev pub sprint_kind_eq : Equality SprintKind
sprint_kind_eq = record { equal = sprint_kind_beq; means = sprint_kind_beq_iff }

abbrev pub sprint_kind_text : SprintKind → String
sprint_kind_text SprintKind.active_sprint = "active_sprint"
sprint_kind_text SprintKind.backlog = "backlog"
sprint_kind_text SprintKind.archive = "archive"

-- RELEASE_REASONS
pub data Reason : Type 0 where
  rework partial abandoned : Reason

-- reservation.ROLES
pub data Role : Type 0 where
  execution verification observation : Role

abbrev role_beq : Role → Role → Bool
role_beq Role.execution Role.execution = true
role_beq Role.verification Role.verification = true
role_beq Role.observation Role.observation = true
role_beq _ _ = false

pub role_beq_iff : (a b : Role) → (role_beq a b ≡ true) ↔ (a ≡ b)
role_beq_iff a b = ground arith

instance abbrev pub role_eq : Equality Role
role_eq = record { equal = role_beq; means = role_beq_iff }

-- reservation.state
pub data ReservationState : Type 0 where
  active released interrupted : ReservationState

abbrev reservation_state_beq : ReservationState → ReservationState → Bool
reservation_state_beq ReservationState.active ReservationState.active = true
reservation_state_beq ReservationState.released ReservationState.released = true
reservation_state_beq ReservationState.interrupted ReservationState.interrupted = true
reservation_state_beq _ _ = false

pub reservation_state_beq_iff :
    (a b : ReservationState) → (reservation_state_beq a b ≡ true) ↔ (a ≡ b)
reservation_state_beq_iff a b = ground arith

instance abbrev pub reservation_state_eq : Equality ReservationState
reservation_state_eq = record { equal = reservation_state_beq; means = reservation_state_beq_iff }

-- DECISION_KINDS
pub data Kind : Type 0 where
  accept reject withdraw supersede revise : Kind

abbrev kind_beq : Kind → Kind → Bool
kind_beq Kind.accept Kind.accept = true
kind_beq Kind.reject Kind.reject = true
kind_beq Kind.withdraw Kind.withdraw = true
kind_beq Kind.supersede Kind.supersede = true
kind_beq Kind.revise Kind.revise = true
kind_beq _ _ = false

pub kind_beq_iff : (a b : Kind) → (kind_beq a b ≡ true) ↔ (a ≡ b)
kind_beq_iff a b = ground arith

instance abbrev pub kind_eq : Equality Kind
kind_eq = record { equal = kind_beq; means = kind_beq_iff }

abbrev pub kind_text : Kind → String
kind_text Kind.accept = "accept"
kind_text Kind.reject = "reject"
kind_text Kind.withdraw = "withdraw"
kind_text Kind.supersede = "supersede"
kind_text Kind.revise = "revise"

-- RESOLUTIONS
pub data Resolution : Type 0 where
  accepted rejected withdrawn superseded : Resolution

abbrev resolution_beq : Resolution → Resolution → Bool
resolution_beq Resolution.accepted Resolution.accepted = true
resolution_beq Resolution.rejected Resolution.rejected = true
resolution_beq Resolution.withdrawn Resolution.withdrawn = true
resolution_beq Resolution.superseded Resolution.superseded = true
resolution_beq _ _ = false

pub resolution_beq_iff : (a b : Resolution) → (resolution_beq a b ≡ true) ↔ (a ≡ b)
resolution_beq_iff a b = ground arith

instance abbrev pub resolution_eq : Equality Resolution
resolution_eq = record { equal = resolution_beq; means = resolution_beq_iff }

-- TERMINAL_RESOLUTIONS: `resolution_for`, and `is_terminal`, the membership in its keys
abbrev pub resolution_for : Kind → Option Resolution
resolution_for Kind.accept = some Resolution.accepted
resolution_for Kind.reject = some Resolution.rejected
resolution_for Kind.withdraw = some Resolution.withdrawn
resolution_for Kind.supersede = some Resolution.superseded
resolution_for Kind.revise = none

abbrev pub is_terminal : Kind → Bool
is_terminal Kind.accept = true
is_terminal Kind.reject = true
is_terminal Kind.withdraw = true
is_terminal Kind.supersede = true
is_terminal Kind.revise = false
