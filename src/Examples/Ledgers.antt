-- ===== src/Examples/Ledgers.antt =====
-- The example's rows.
use sprintctl.Prelude.{ℕ, String, Option, none, some, [], ◌∷◌, false}
use sprintctl.Domain.{
  Sprint, SprintStatus, SprintKind, Item, Status, Decision, Kind, Dep, Reservation, Role,
  ReservationState, Resolution, Event, Payload,
}
use sprintctl.Ledger.{Ledger, empty, ok}
use sprintctl.Program.{Environment}

abbrev pub digest : String → String
digest s = "0123456789abcdef0123456789abcdef0123456789abcdef0123456789abcdef"

abbrev pub fresh_uuid : ℕ → String
fresh_uuid n = "0123abcd-0123-0123-0123-0123456789ab"

abbrev pub environment : Environment
environment = record {
  lower = λ s. s;
  sha256 = digest;
  dumps = λ j. "{}";
  canonical = λ fs. fs;
  fresh = fresh_uuid;
  urlparse = λ u. ok (record { scheme = ""; netloc = "" });
  normpath = λ p. p;
  stale_after = 14400;
}

abbrev pub sprint_one : Sprint
sprint_one = record {
  id = 1;
  name = "one";
  goal = "";
  start_date = none;
  end_date = none;
  status = SprintStatus.planned;
  kind = SprintKind.active_sprint;
  aggregate_uuid = "a";
  created_at = 0;
}

abbrev pub row : ℕ → Status → Option Resolution → Option ℕ → Item
row n status resolution terminal = record {
  id = n;
  track_id = 1;
  sprint_id = 1;
  title = "t";
  description = "old";
  status = status;
  assignee = none;
  priority = none;
  aggregate_uuid = "0123abcd-0123-0123-0123-0123456789ab";
  created_at = 0;
  updated_at = 0;
  resolution = resolution;
  terminal_decision_id = terminal;
  legacy = false;
}

abbrev pub reserved : Reservation
reserved = record {
  id = 1;
  work_item_id = 1;
  session_id = "s";
  actor = "ann";
  role = Role.observation;
  state = ReservationState.active;
  created_at = 0;
  last_activity_at = 0;
  released_at = none;
  interruption_reason = none;
  correlation_ref = none;
  release_digest = none;
}

abbrev pub dep_row : Dep
dep_row = record { id = 1; item_id = 1; blocked_item_id = 2; created_at = 0 }

-- Item 1 is active; item 2 is pending and waits for it.
abbrev pub start : Ledger
start = record empty {
  sprints = sprint_one ∷ [];
  items = row 1 Status.active none none ∷ row 2 Status.pending none none ∷ [];
  reservations = reserved ∷ [];
  last = record empty.last { sprint = 1; item = 2; reservation = 1 };
}

abbrev pub accepted_row : Decision
accepted_row = record {
  id = 1;
  kind = Kind.accept;
  work_item_id = 1;
  release_digest = none;
  evidence_digests = [];
  rationale = "";
  actor = "ann";
  superseded_by_item_id = none;
  created_at = 0;
}

abbrev pub decided_event : Event
decided_event = record {
  id = 1;
  sprint_id = 1;
  work_item_id = some 1;
  source_type = "actor";
  actor = "ann";
  event_type = "item-decided";
  payload = Payload.decided 1 Kind.accept (some Resolution.accepted) none false (some "k");
  created_at = 0;
}

-- Item 1 was accepted under the key k.
abbrev pub closed : Ledger
closed = record start {
  items =
      row 1 Status.done (some Resolution.accepted) (some 1) ∷ row 2 Status.pending none none ∷ [];
  decisions = accepted_row ∷ [];
  events = decided_event ∷ [];
  last = record start.last { decision = 1; event = 1 };
}
