-- ===== src/Examples/Takeups.antt =====
-- Take-ups of a sprint.
use sprintctl.Prelude.{ℕ, String, false, Option, none, some, List, [], ◌∷◌}
use sprintctl.Events.Takeups.{TakeupEvent, TakeupPayload}

abbrev payload : Option String → TakeupPayload
payload instance_id = record {
  actor_kind = none;
  instance_id = instance_id;
  hostname = none;
  pid = none;
  runtime_session_id = none;
  context = none;
  forced = false;
  reason = none;
  matched_takeup_event_id = none;
}

abbrev event : ℕ → String → String → Option String → TakeupEvent
event n actor event_type instance_id = record {
  id = n;
  sprint_id = 1;
  actor = actor;
  event_type = event_type;
  created_at = n;
  payload = payload instance_id;
}

-- Ann takes the sprint up twice and lets it go without saying which; Bob lets go of nothing.
abbrev log : List TakeupEvent
log =
    event 1 "ann" "sprint-taken-up" (some "a")
    ∷ event 2 "ann" "sprint-taken-up" (some "b")
    ∷ event 3 "ann" "sprint-released" none
    ∷ event 4 "bob" "sprint-released" none
    ∷ []
