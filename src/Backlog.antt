-- ===== src/Backlog.antt =====
-- sprintctl/backlogcore.py over the SQLite participant of sprintctl/db.py: the items that the
-- knowledge events of one sprint give in another. The `summary` of a payload is a text. The guard on
-- generic event types lets the constant "backlog-seeded" through, and is left out.
pub mod Seeding
pub mod Lists
pub mod Linked
pub mod Again
use sprintctl.Prelude.{
  ℕ, ◌+◌, String, Bool, true, false, not, ◌&&◌, ◌||◌, Option, none, some, List, [], ◌∷◌, map, find,
  select, somes, contains, ltb, leb, ◌==◌, nat_eq, string_eq, if◌then◌else◌,
}
use Prim.Native.String.{◌++◌ as joined}
use sprintctl.Prelude.Text.{decimal}
use sprintctl.Prelude.Sort.{sort}
use sprintctl.Domain.{Item, Event, Payload}
use sprintctl.Ledger.{
  Fault, Ledger, Outcome, Action, ok, err, pure, lift, gets, transaction, each, ◌>>=◌, ◌>>◌,
}
use sprintctl.Schema.{is_some}
use sprintctl.Schema.Statements.{get_item, insert_event}
use sprintctl.WorkItems.Basics.{create_work_item}
use sprintctl.Sprints.{get_sprint}
use sprintctl.Maintain.{get_or_create_track, fails_unless}

-- `KNOWLEDGE_EVENT_TYPES` of eventcore.py
abbrev pub knowledge_event_types : List String
knowledge_event_types = "decision" ∷ "pattern-noted" ∷ "lesson-learned" ∷ "risk-accepted" ∷ []

abbrev pub is_candidate : ℕ → Event → Bool
is_candidate source e = e.sprint_id == source && contains knowledge_event_types e.event_type

-- ORDER BY created_at ASC, id ASC
abbrev pub earlier : Event → Event → Bool
earlier a b = ltb a.created_at b.created_at || (a.created_at == b.created_at && leb a.id b.id)

unfoldable pub list_knowledge_candidates : ℕ → Ledger → List Event
list_knowledge_candidates source s = sort earlier (select (is_candidate source) s.events)

-- `_BacklogSeedSqlite.candidate`
abbrev pub is_event : ℕ → Event → Bool
is_event ident e = e.id == ident

unfoldable pub candidate : (source ident : ℕ) → Ledger → Option Event
candidate source ident s = find (λ e. is_event ident e && is_candidate source e) s.events

-- `_BacklogSeedSqlite.seeded_event_ids`
abbrev pub source_event_id : Payload → Option ℕ
source_event_id (Payload.seeded sprint item event type) = some event
source_event_id _ = none

abbrev pub seeded_event : ℕ → Event → Option ℕ
seeded_event target e =
    if e.sprint_id == target && e.event_type == "backlog-seeded"
    then source_event_id e.payload
    else none

unfoldable pub seeded_event_ids : ℕ → Ledger → List ℕ
seeded_event_ids target s = somes (map (seeded_event target) s.events)

-- The payload's summary, or the text that stands in for it.
abbrev pub summary_or : String → Payload → String
summary_or default (Payload.note (some summary)) = summary
summary_or default _ = default

abbrev pub seeded_title : Event → String
seeded_title e =
    joined "[knowledge] "
      (summary_or (joined "Knowledge item from event #" (decimal e.id)) e.payload)

unfoldable pub validate_sprints : (source target : ℕ) → Action (Unit {0})
validate_sprints source target = do
  has_source ← gets (λ s. is_some (get_sprint source s))
  fails_unless has_source (Fault.value_error "Source sprint not found")
  has_target ← gets (λ s. is_some (get_sprint target s))
  fails_unless has_target (Fault.value_error "Target sprint not found")

abbrev pub seeded_item : Option Item → Outcome Item
seeded_item none = err (Fault.value_error "Seeded item could not be read")
seeded_item (some item) = ok item

module _ (fresh : ℕ → String) (source target : ℕ) (actor : String) where
  -- The item and its link, in a track that is there.
  unfoldable pub seed_item : Event → ℕ → Action (Option Item)
  seed_item e track_id = do
    uuid ← gets (λ s. fresh (s.last.item + 1))
    item ← create_work_item target track_id (seeded_title e) "" none none uuid
    insert_event target actor "backlog-seeded" "system" (some item)
        (Payload.seeded source e.work_item_id e.id e.event_type)
    result ← gets (get_item item)
    row ← lift (seeded_item result)
    pure (some row)

  -- An event that is no candidate, or that an earlier call has seeded, is passed over.
  abbrev pub seed_found : Option Event → Bool → Action (Option Item)
  seed_found none is_seeded = pure none
  seed_found (some e) true = pure none
  seed_found (some e) false = get_or_create_track target "knowledge" "" >>= seed_item e

  unfoldable pub seed_candidate : (ident : ℕ) → Action (Option Item)
  seed_candidate ident = do
    validate_sprints source target
    found ← gets (candidate source ident)
    is_seeded ← gets (λ s. contains (seeded_event_ids target s) ident)
    seed_found found is_seeded

  -- One transaction for each event; what an earlier one committed stays.
  abbrev pub seed_one : Event → Action (Option Item)
  seed_one e = transaction (seed_candidate e.id)

  abbrev pub is_unseeded : List ℕ → Event → Bool
  is_unseeded already_seeded e = not (contains already_seeded e.id)

  abbrev pub seed_selected :
      (candidates : List Event) → (already_seeded : List ℕ) → Action (List Item)
  seed_selected candidates already_seeded = do
    result ← each seed_one (select (is_unseeded already_seeded) candidates)
    pure (somes result)

  abbrev pub seed_listed : List Event → Action (List Item)
  seed_listed [] = pure []
  seed_listed (e ∷ es) = gets (seeded_event_ids target) >>= seed_selected (e ∷ es)

  -- `seed_candidates`, which `backlog_seed_from_candidates` calls
  unfoldable pub backlog_seed_from_candidates : Action (List Item)
  backlog_seed_from_candidates =
      validate_sprints source target >> (gets (list_knowledge_candidates source) >>= seed_listed)
