-- ===== src/Examples/Seeded.antt =====
-- A backlog that is seeded from the notes of another sprint.
use sprintctl.Prelude.{
  false, ℕ, String, true, Option, none, some, List, [], ◌∷◌, ◌≡◌, refl, All, contains, nat_eq, map,
  find, select,
}
use sprintctl.Prelude.Text.{decimal}
use sprintctl.Domain.{Sprint, SprintKind, Event, Item, Payload}
use sprintctl.Ledger.{Ledger, empty, ok, outcome, after, each, transaction}
use sprintctl.Schema.{item_insert_guard, shape_broken}
use sprintctl.Schema.Statements.{insert_item, insert_event}
use sprintctl.WorkItems.Basics.{create_work_item, validate_priority}
use sprintctl.Maintain.{get_or_create_track}
use sprintctl.Backlog.{
  list_knowledge_candidates, seeded_event_ids, backlog_seed_from_candidates, validate_sprints,
  seed_candidate, candidate, seed_item,
}
use sprintctl.Backlog.Seeding.{ItemOf}
use sprintctl.Backlog.Again.{backlog_seed_from_candidates-links, backlog_seed_from_candidates-again}
use sprintctl.Examples.Ledgers.{sprint_one, fresh_uuid}

abbrev backlog_sprint : Sprint
backlog_sprint = record sprint_one { id = 2; name = "later"; kind = SprintKind.backlog }

abbrev noted : ℕ → String → Option String → Event
noted n event_type summary = record {
  id = n;
  sprint_id = 1;
  work_item_id = none;
  source_type = "actor";
  actor = "ann";
  event_type = event_type;
  payload = Payload.note summary;
  created_at = n;
}

-- Two notes that become items, and one that does not.
abbrev noted_ledger : Ledger
noted_ledger = record empty {
  sprints = sprint_one ∷ backlog_sprint ∷ [];
  events =
      noted 1 "decision" (some "keep it small")
      ∷ noted 2 "update" (some "half done")
      ∷ noted 3 "lesson-learned" none
      ∷ [];
  last = record empty.last { sprint = 2; event = 3 };
}

abbrev seeded_ledger : Ledger
seeded_ledger = after (backlog_seed_from_candidates fresh_uuid 1 2 "ann") noted_ledger

seeded_titles :
    map (λ i. i.title) seeded_ledger.items
    ≡ "[knowledge] keep it small" ∷ "[knowledge] Knowledge item from event #3" ∷ []
unfolding backlog_seed_from_candidates validate_sprints list_knowledge_candidates find select each
    seed_candidate candidate seeded_event_ids seed_item get_or_create_track create_work_item
    validate_priority insert_item insert_event item_insert_guard shape_broken transaction decimal
seeded_titles = refl

backlog_seed_from_candidates-links_example :
    (items : List Item) × (outcome (backlog_seed_from_candidates fresh_uuid 1 2 "ann") noted_ledger
      ≡ ok items)
    × All
        (λ e.
          (contains (seeded_event_ids 2 seeded_ledger) e.id ≡ true)
          × (contains (seeded_event_ids 2 noted_ledger) e.id ≡ false → ItemOf 2 seeded_ledger e.id))
        (list_knowledge_candidates 1 noted_ledger)
unfolding find
backlog_seed_from_candidates-links_example =
    backlog_seed_from_candidates-links fresh_uuid 1 2 "ann" noted_ledger refl refl tt

backlog_seed_from_candidates-again_example :
    backlog_seed_from_candidates fresh_uuid 1 2 "ann" seeded_ledger ≡ (ok [], seeded_ledger)
unfolding find
backlog_seed_from_candidates-again_example =
    backlog_seed_from_candidates-again fresh_uuid 1 2 "ann" noted_ledger refl refl
