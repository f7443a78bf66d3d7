-- ===== src/Events/Takeups.antt =====
-- `process_takeup_events` of sprintctl/eventcore.py: which take-ups of a sprint are active, and which
-- release ended each of the others. An event is its row with the decoded payload; a dict is the list
-- of its entries, oldest first, and a list that is popped at its end stands last element first.
use sprintctl.Prelude.{
  ℕ, String, Bool, ◌&&◌, ◌||◌, Option, none, some, List, [], ◌∷◌, ◌++◌, map, any, ltb, leb, ◌==◌,
  nat_eq, string_eq, option_eq, if◌then◌else◌,
}
use sprintctl.Prelude.Sort.{sort}

-- A key that is missing reads as a null, but for `actor_kind`, where a null is kept apart.
pub record TakeupPayload : Type 0 where
  pub actor_kind : Option (Option String)
  pub instance_id : Option String
  pub hostname : Option String
  pub pid : Option ℕ
  pub runtime_session_id : Option String
  pub context : Option String
  pub forced : Bool
  pub reason : Option String
  pub matched_takeup_event_id : Option ℕ

pub record TakeupEvent : Type 0 where
  pub id : ℕ
  pub sprint_id : ℕ
  pub actor : String
  pub event_type : String
  pub created_at : ℕ
  pub payload : TakeupPayload

-- `_takeup_key` and `_takeup_actor_key`
abbrev pub same_actor : TakeupEvent → TakeupEvent → Bool
same_actor a b = a.sprint_id == b.sprint_id && a.actor == b.actor

abbrev pub same_key : TakeupEvent → TakeupEvent → Bool
same_key a b = same_actor a b && a.payload.instance_id == b.payload.instance_id

-- `_serialize_takeup_row` and `_serialize_released_takeup`
pub record Takeup : Type 0 where
  pub sprint_id : ℕ
  pub actor : String
  pub actor_kind : Option String
  pub instance_id : Option String
  pub hostname : Option String
  pub pid : Option ℕ
  pub runtime_session_id : Option String
  pub taken_up_at : ℕ
  pub taken_up_event_id : ℕ
  pub context : Option String
  pub forced : Bool

pub record ReleasedTakeup : Type 0 where
  pub takeup : Takeup
  pub released_at : ℕ
  pub released_event_id : ℕ
  pub reason : Option String
  pub matched_takeup_event_id : Option ℕ

pub record UnmatchedRelease : Type 0 where
  pub sprint_id : ℕ
  pub actor : String
  pub actor_kind : Option String
  pub instance_id : Option String
  pub hostname : Option String
  pub pid : Option ℕ
  pub released_at : ℕ
  pub released_event_id : ℕ
  pub reason : Option String
  pub matched_takeup_event_id : Option ℕ

-- `payload.get("actor_kind", "agent")`
abbrev pub kind_or_agent : Option (Option String) → Option String
kind_or_agent none = some "agent"
kind_or_agent (some kind) = kind

unfoldable pub serialize_takeup : TakeupEvent → Takeup
serialize_takeup e = record {
  sprint_id = e.sprint_id;
  actor = e.actor;
  actor_kind = kind_or_agent e.payload.actor_kind;
  instance_id = e.payload.instance_id;
  hostname = e.payload.hostname;
  pid = e.payload.pid;
  runtime_session_id = e.payload.runtime_session_id;
  taken_up_at = e.created_at;
  taken_up_event_id = e.id;
  context = e.payload.context;
  forced = e.payload.forced;
}

unfoldable pub serialize_released : TakeupEvent × TakeupEvent → ReleasedTakeup
unfolding serialize_takeup
serialize_released (e, r) = record {
  takeup = serialize_takeup e;
  released_at = r.created_at;
  released_event_id = r.id;
  reason = r.payload.reason;
  matched_takeup_event_id = r.payload.matched_takeup_event_id;
}

unfoldable pub serialize_unmatched : TakeupEvent → UnmatchedRelease
serialize_unmatched r = record {
  sprint_id = r.sprint_id;
  actor = r.actor;
  actor_kind = kind_or_agent r.payload.actor_kind;
  instance_id = r.payload.instance_id;
  hostname = r.payload.hostname;
  pid = r.payload.pid;
  released_at = r.created_at;
  released_event_id = r.id;
  reason = r.payload.reason;
  matched_takeup_event_id = r.payload.matched_takeup_event_id;
}

-- An entry of `active_by_key` or `active_by_actor`: the take-up that made the key, and the ids.
pub record Bucket : Type 0 where
  pub key : TakeupEvent
  pub ids : List ℕ

-- The loop's variables; a pair in `released` is the take-up with its release.
pub record Matching : Type 0 where
  pub active_by_event_id : List TakeupEvent
  pub active_by_key : List Bucket
  pub active_by_actor : List Bucket
  pub released : List (TakeupEvent × TakeupEvent)
  pub unmatched_releases : List TakeupEvent

abbrev pub nothing_yet : Matching
nothing_yet = record {
  active_by_event_id = [];
  active_by_key = [];
  active_by_actor = [];
  released = [];
  unmatched_releases = [];
}

abbrev pub event_is : ℕ → TakeupEvent → Bool
event_is n e = e.id == n

-- `active_by_event_id[row["id"]] = …`: a new id goes last, an old one keeps its place.
unfoldable pub put_event : TakeupEvent → List TakeupEvent → List TakeupEvent
put_event e [] = e ∷ []
put_event e (x ∷ xs) = let rest = put_event e xs in if event_is e.id x then e ∷ xs else x ∷ rest

-- `active_by_event_id.pop(id, None)`
unfoldable pub pop_event : ℕ → List TakeupEvent → Option TakeupEvent × List TakeupEvent
pop_event n [] = (none, [])
pop_event n (x ∷ xs) =
    let rest = pop_event n xs in if event_is n x then (some x, xs) else (rest.0, x ∷ rest.1)

-- `setdefault(key, []).append(id)`, and the writing back of a list that was popped.
unfoldable pub append_id :
    (TakeupEvent → TakeupEvent → Bool) → TakeupEvent → List Bucket → List Bucket
append_id same e [] = record { key = e; ids = e.id ∷ [] } ∷ []
append_id same e (b ∷ bs) =
    let rest = append_id same e bs in
    if same b.key e then record { key = b.key; ids = e.id ∷ b.ids } ∷ bs else b ∷ rest

unfoldable pub ids_of : (TakeupEvent → TakeupEvent → Bool) → TakeupEvent → List Bucket → List ℕ
ids_of same r [] = []
ids_of same r (b ∷ bs) = let rest = ids_of same r bs in if same b.key r then b.ids else rest

unfoldable pub set_ids :
    (TakeupEvent → TakeupEvent → Bool) → TakeupEvent → List ℕ → List Bucket → List Bucket
set_ids same r ids [] = []
set_ids same r ids (b ∷ bs) =
    let rest = set_ids same r ids bs in
    if same b.key r then record { key = b.key; ids = ids } ∷ bs else b ∷ rest

-- `while candidates and candidates[-1] not in active_by_event_id: candidates.pop()`
unfoldable pub drop_stale : List TakeupEvent → List ℕ → List ℕ
drop_stale active [] = []
drop_stale active (n ∷ ns) =
    let rest = drop_stale active ns in if any (event_is n) active then n ∷ ns else rest

-- `if candidates: takeup_pair = active_by_event_id.pop(candidates.pop(), None)`, with what is left of
-- the candidates and of the active take-ups.
abbrev pub pop_candidate :
    List TakeupEvent → List ℕ → Option TakeupEvent × List TakeupEvent × List ℕ
pop_candidate active [] = (none, active, [])
pop_candidate active (n ∷ ns) = let (e, rest) = pop_event n active in (e, rest, ns)

unfoldable pub take_up : TakeupEvent → Matching → Matching
take_up e m = record m {
  active_by_event_id = put_event e m.active_by_event_id;
  active_by_key = append_id same_key e m.active_by_key;
  active_by_actor = append_id same_actor e m.active_by_actor;
}

-- The three ways to find the take-up that a release ends, each tried when the one before found none.
abbrev pub by_named_id : Option ℕ → Matching → Option TakeupEvent × Matching
by_named_id none m = (none, m)
by_named_id (some n) m =
    let (e, rest) = pop_event n m.active_by_event_id in (e, record m { active_by_event_id = rest })

abbrev pub by_id : TakeupEvent → Matching → Option TakeupEvent × Matching
by_id r m = by_named_id r.payload.matched_takeup_event_id m

abbrev pub by_exact_key : TakeupEvent → Matching → Option TakeupEvent × Matching
by_exact_key r m =
    let (e, active, ids) =
      pop_candidate m.active_by_event_id
        (drop_stale m.active_by_event_id (ids_of same_key r m.active_by_key)) in
    (
      e,
      record m {
        active_by_event_id = active;
        active_by_key = set_ids same_key r ids m.active_by_key;
      },
    )

abbrev pub by_actor_unless : Option String → TakeupEvent → Matching → Option TakeupEvent × Matching
by_actor_unless (some i) r m = (none, m)
by_actor_unless none r m =
    let (e, active, ids) =
      pop_candidate m.active_by_event_id
        (drop_stale m.active_by_event_id (ids_of same_actor r m.active_by_actor)) in
    (
      e,
      record m {
        active_by_event_id = active;
        active_by_actor = set_ids same_actor r ids m.active_by_actor;
      },
    )

abbrev pub by_actor : TakeupEvent → Matching → Option TakeupEvent × Matching
by_actor r m = by_actor_unless r.payload.instance_id r m

-- `if takeup_pair is None`
abbrev pub or_try :
    (Matching → Option TakeupEvent × Matching)
    → Option TakeupEvent × Matching
    → Option TakeupEvent × Matching
or_try next (some e, m) = (some e, m)
or_try next (none, m) = next m

abbrev pub settle : TakeupEvent → Option TakeupEvent × Matching → Matching
settle r (some e, m) = record m { released = m.released ++ (e, r) ∷ [] }
settle r (none, m) = record m { unmatched_releases = m.unmatched_releases ++ r ∷ [] }

unfoldable pub release : TakeupEvent → Matching → Matching
unfolding pop_event drop_stale ids_of set_ids
release r m = settle r (or_try (by_actor r) (or_try (by_exact_key r) (by_id r m)))

abbrev pub is_takeup : TakeupEvent → Bool
is_takeup e = e.event_type == "sprint-taken-up"

unfoldable pub match_events : List TakeupEvent → Matching → Matching
unfolding take_up release
match_events [] m = m
match_events (e ∷ es) m = match_events es (if is_takeup e then take_up e m else release e m)

-- `current_by_key`: the last active take-up of each key, in the place of the first.
unfoldable pub put_current : TakeupEvent → List TakeupEvent → List TakeupEvent
put_current e [] = e ∷ []
put_current e (x ∷ xs) = let rest = put_current e xs in if same_key x e then e ∷ xs else x ∷ rest

unfoldable pub current_by_key : List TakeupEvent → List TakeupEvent → List TakeupEvent
unfolding put_current
current_by_key current [] = current
current_by_key current (e ∷ es) = current_by_key (put_current e current) es

abbrev pub takeup_leb : Takeup → Takeup → Bool
takeup_leb a b =
    ltb a.sprint_id b.sprint_id
    || (a.sprint_id == b.sprint_id
        && (ltb a.taken_up_at b.taken_up_at
            || (a.taken_up_at == b.taken_up_at && leb a.taken_up_event_id b.taken_up_event_id)))

pub record TakeupHistory : Type 0 where
  pub active_takeups : List Takeup
  pub released_takeups : List ReleasedTakeup
  pub unmatched : List UnmatchedRelease

unfoldable pub process_takeup_events : List TakeupEvent → TakeupHistory
unfolding match_events current_by_key serialize_takeup serialize_released serialize_unmatched
process_takeup_events events =
    let m = match_events events nothing_yet in
    record {
      active_takeups =
          sort takeup_leb (map serialize_takeup (current_by_key [] m.active_by_event_id));
      released_takeups = map serialize_released m.released;
      unmatched = map serialize_unmatched m.unmatched_releases;
    }
