-- ===== src/Domain/Rows.antt =====
-- The rows of the tables. A timestamp is its number of seconds: the program's texts
-- `%Y-%m-%dT%H:%M:%SZ` sort as these numbers do. An event's JSON payload is a value of `Payload`,
-- with a constructor for each workflow that writes one.
use sprintctl.Prelude.{ℕ, String, Bool, Option, List}
use sprintctl.Domain.Words.{
  Status, SprintStatus, SprintKind, Role, ReservationState, Kind, Resolution, Reason,
}

pub record Sprint : Type 0 where
  pub id : ℕ
  pub name : String
  pub goal : String
  pub start_date : Option ℕ
  pub end_date : Option ℕ
  pub status : SprintStatus
  pub kind : SprintKind
  pub aggregate_uuid : String
  pub created_at : ℕ

pub record Track : Type 0 where
  pub id : ℕ
  pub sprint_id : ℕ
  pub name : String
  pub description : String
  pub created_at : ℕ

pub record Item : Type 0 where
  pub id : ℕ
  pub track_id : ℕ
  pub sprint_id : ℕ
  pub title : String
  pub description : String
  pub status : Status
  pub assignee : Option String
  pub priority : Option ℕ
  pub aggregate_uuid : String
  pub created_at : ℕ
  pub updated_at : ℕ
  pub resolution : Option Resolution
  pub terminal_decision_id : Option ℕ
  pub legacy : Bool

pub record Decision : Type 0 where
  pub id : ℕ
  pub kind : Kind
  pub work_item_id : ℕ
  pub release_digest : Option String
  pub evidence_digests : List String
  pub rationale : String
  pub actor : String
  pub superseded_by_item_id : Option ℕ
  pub created_at : ℕ

pub record Dep : Type 0 where
  pub id : ℕ
  pub item_id : ℕ
  pub blocked_item_id : ℕ
  pub created_at : ℕ

pub record Ref : Type 0 where
  pub id : ℕ
  pub work_item_id : ℕ
  pub ref_type : String
  pub url : String
  pub label : String

-- The contract and the references are stored as canonical JSON texts.
pub record Release : Type 0 where
  pub id : ℕ
  pub work_item_id : ℕ
  pub item_revision : String
  pub revise_count : ℕ
  pub release_digest : String
  pub acceptance_contract : String
  pub context_refs : String
  pub actor : String
  pub created_at : ℕ

pub record Reservation : Type 0 where
  pub id : ℕ
  pub work_item_id : ℕ
  pub session_id : String
  pub actor : String
  pub role : Role
  pub state : ReservationState
  pub created_at : ℕ
  pub last_activity_at : ℕ
  pub released_at : Option ℕ
  pub interruption_reason : Option String
  pub correlation_ref : Option String
  pub release_digest : Option String

pub data Payload : Type 0 where
  note : (summary : Option String) → Payload
  edited : (previous_description description previous_revision revision : String) → Payload
  decided :
      (decision_id : ℕ) (kind : Kind) (resolution : Option Resolution)
      (release_digest : Option String) (legacy_remark : Bool) (idempotency_key : Option String)
      → Payload
  item_released :
      (reason : Option Reason) (previous_status : Status) (released_reservation_ids : List ℕ)
      → Payload
  closed_sprint : (previous_status status : SprintStatus) → Payload
  carried_in : (from_sprint_id original_item_id : ℕ) (original_status : Status) → Payload
  carried_out : (to_sprint_id new_item_id : ℕ) → Payload
  auto_blocked : (idle_seconds threshold_seconds : ℕ) → Payload
  auto_closed : (days_overdue : ℕ) → Payload
  reserved :
      (reservation_id : ℕ) (session_id : String) (role : Role) (correlation_ref : Option String)
      (interrupt_existing : Bool) (conflicting_reservation_ids : List ℕ)
      (release_digest : Option String)
      → Payload
  taken_over : (reservation_id replacement_id : ℕ) → Payload
  reassigned : (reservation_id : ℕ) (previous_actor previous_session_id : String) → Payload
  unreserved : (reservation_id : ℕ) → Payload
  swept : (reservation_id : ℕ) (reason : String) → Payload
  seeded :
      (source_sprint_id : ℕ) (source_item_id : Option ℕ) (source_event_id : ℕ)
      (source_event_type : String)
      → Payload

pub record Event : Type 0 where
  pub id : ℕ
  pub sprint_id : ℕ
  pub work_item_id : Option ℕ
  pub source_type : String
  pub actor : String
  pub event_type : String
  pub payload : Payload
  pub created_at : ℕ
