-- ===== src/Backlog/Linked.antt =====
-- What the seeding of one event leaves: a track, an item and the link between the event and the item.
use sprintctl.Prelude.{
  ℕ, ◌+◌, String, false, Option, none, some, [], ◌∷◌, find, contains, ◌==◌, nat_eq, ◌≡◌, ◌≤◌, refl,
  ap, ◌∙◌, option_eq, All-append, All-mono, beq_refl, arith, find-append, find-append_none,
  select-append_none,
}
use sprintctl.Domain.{Item, Track, Event, Payload}
use sprintctl.Ledger.{Ledger, Action, ok, after, ◌>>=◌}
use sprintctl.Schema.{item_is, item_insert_guard, shape_broken}
use sprintctl.Schema.Statements.{
  with_item_added, with_event_added, get_item, insert_event, insert_item, new_item, new_event,
}
use sprintctl.WorkItems.Basics.{create_work_item, validate_priority}
use sprintctl.Maintain.{get_or_create_track, track_or_new, track_is}
use sprintctl.Backlog.{is_candidate, seeded_title, seeded_event, seeded_event_ids, seed_item}
use sprintctl.Backlog.Seeding.{IsSeeded, IdsGiven, links, ItemOf, Seeding, join, same-Seeding}
use sprintctl.Backlog.Lists.{
  find-added, find-one, no_item_above, contains-more, contains-added, links-none, contains-last,
}

-- A track is found or made; either way nothing else is touched.
record Opened (m : Action ℕ) (s : Ledger) : Type 0 where
  track : ℕ
  left : Ledger
  answers : m s ≡ (ok track, left)
  sprints : left.sprints ≡ s.sprints
  events : left.events ≡ s.events
  items : left.items ≡ s.items
  last_item : left.last.item ≡ s.last.item

Opened-track_or_new :
    (sprint_id : ℕ) (name description : String) (o : Option Track) (s : Ledger)
    → Opened (track_or_new sprint_id name description o) s
Opened-track_or_new sprint_id name description none s = record {
  track = s.last.track + 1;
  left = after (track_or_new sprint_id name description none) s;
  answers = refl;
  sprints = refl;
  events = refl;
  items = refl;
  last_item = refl;
}
Opened-track_or_new sprint_id name description (some t) s = record {
  track = t.id;
  left = s;
  answers = refl;
  sprints = refl;
  events = refl;
  items = refl;
  last_item = refl;
}

Opened-get_or_create_track :
    (sprint_id : ℕ) (name description : String) (s : Ledger)
    → Opened (get_or_create_track sprint_id name description) s
unfolding get_or_create_track
Opened-get_or_create_track sprint_id name description s =
    let o =
      Opened-track_or_new sprint_id name description (find (track_is sprint_id name) s.tracks) s in
    record {
      track = o.track;
      left = o.left;
      answers = o.answers;
      sprints = o.sprints;
      events = o.events;
      items = o.items;
      last_item = o.last_item;
    }

module _ (fresh : ℕ → String) (source target : ℕ) (actor : String) where
  abbrev link : Event → ℕ → ℕ → ℕ → Event
  link e item n now =
      new_event n target actor "backlog-seeded" "system" (some item)
        (Payload.seeded source e.work_item_id e.id e.event_type) now

  abbrev seeded_row : Event → ℕ → Ledger → Item
  seeded_row e track_id s =
      let n = s.last.item + 1 in
      new_item n target track_id (seeded_title e) "" none none (fresh n) s.clock

  abbrev with_link : Event → ℕ → Ledger → Ledger
  with_link e track_id s =
      with_event_added (link e (s.last.item + 1) (s.last.event + 1) s.clock)
        (with_item_added (seeded_row e track_id s) s)

  seed_item-of_found :
      (e : Event) (track_id : ℕ) (s : Ledger) (row : Item)
      → get_item (s.last.item + 1) (with_link e track_id s) ≡ some row
      → seed_item fresh source target actor e track_id s ≡ (ok (some row), with_link e track_id s)
  unfolding seed_item create_work_item validate_priority insert_item insert_event item_insert_guard
      shape_broken
  seed_item-of_found e track_id s row found = rw found refl

  seed_item-returns :
      (e : Event) (track_id : ℕ) (s : Ledger)
      → (row : Item) × (seed_item fresh source target actor e track_id s
          ≡ (ok (some row), with_link e track_id s))
  seed_item-returns e track_id s =
      let n = s.last.item + 1 in
      let (row, found) = find-added (item_is n) s.items (seeded_row e track_id s) (beq_refl n) in
      (row, seed_item-of_found e track_id s row found)

  link-not_candidate :
      (e : Event) (item n now : ℕ) → is_candidate source (link e item n now) ≡ false
  link-not_candidate e item n now = ground arith

  abbrev new_link : Event → Ledger → Event
  new_link e s = link e (s.last.item + 1) (s.last.event + 1) s.clock

  new_link-seeded : (e : Event) (s : Ledger) → seeded_event target (new_link e s) ≡ some e.id
  new_link-seeded e s = rw (beq_refl target) refl

  linked-kept :
      (e : Event) (track_id : ℕ) (s : Ledger) (n : ℕ)
      → ItemOf target s n
      → ItemOf target (with_link e track_id s) n
  linked-kept e track_id s n k = record {
    link = k.link;
    item = k.item;
    linked = find-append (links target n) s.events (new_link e s ∷ []) k.link k.linked;
    names = k.names;
    there = find-append (item_is k.item.id) s.items (seeded_row e track_id s ∷ []) k.item k.there;
    in_sprint = k.in_sprint;
    is_pending = k.is_pending;
  }

  linked-newly :
      (e : Event) (track_id : ℕ) (s : Ledger) (n : ℕ)
      → IdsGiven s
      → contains (seeded_event_ids target s) n ≡ false
      → IsSeeded target (with_link e track_id s) n
      → ItemOf target (with_link e track_id s) n
  unfolding seeded_event_ids
  linked-newly e track_id s n b unseeded linked_now =
      let same =
        contains-last (seeded_event target) n s.events (new_link e s) e.id (new_link-seeded e s)
          unseeded linked_now in
      let row = seeded_row e track_id s in
      record {
        link = new_link e s;
        item = row;
        linked =
            find-append_none (links target n) s.events (new_link e s ∷ [])
              (links-none (seeded_event target) n s.events unseeded)
            ∙ find-one (links target n) (new_link e s)
                (ap (λ o. o == some n) (new_link-seeded e s ∙ ap some same) ∙ beq_refl (some n));
        names = refl;
        there =
            find-append_none (item_is row.id) s.items (row ∷ [])
              (no_item_above s.last.item s.items b)
            ∙ find-one (item_is row.id) row (beq_refl row.id);
        in_sprint = refl;
        is_pending = refl;
      }

  -- The link is no candidate itself, and names the event.
  Seeding-linked :
      (e : Event) (track_id : ℕ) (s : Ledger)
      → Seeding source target s (with_link e track_id s)
        × IsSeeded target (with_link e track_id s) e.id
  unfolding seeded_event_ids
  Seeding-linked e track_id s = (
    record {
      sprints = refl;
      candidates =
          select-append_none (is_candidate source) s.events (new_link e s)
            (link-not_candidate e (s.last.item + 1) (s.last.event + 1) s.clock);
      seeded = λ m h. contains-more (seeded_event target) m s.events (new_link e s ∷ []) h;
      given = λ b.
          All-append (λ i. i.id ≤ s.last.item + 1) s.items (seeded_row e track_id s ∷ [])
            (All-mono (λ i. i.id ≤ s.last.item) (λ i. i.id ≤ s.last.item + 1) s.items
              (λ i h. omega (arith, h)) b)
            (omega arith, tt);
      kept = linked-kept e track_id s;
      newly = linked-newly e track_id s;
    },
    contains-added (seeded_event target) e.id s.events (new_link e s) (new_link-seeded e s),
  )

  pub record Handled (ident : ℕ) (m : Action (Option Item)) (s : Ledger) : Type 0 where
    pub result : Option Item
    pub left : Ledger
    pub answers : m s ≡ (ok result, left)
    pub seeding : Seeding source target s left
    pub linked : IsSeeded target left ident

  pub Handled-seeded :
      (e : Event) (s : Ledger)
      → Handled e.id
          (get_or_create_track target "knowledge" "" >>= seed_item fresh source target actor e)
          s
  Handled-seeded e s =
      let o = Opened-get_or_create_track target "knowledge" "" s in
      let (row, seeds) = seed_item-returns e o.track o.left in
      let (seeding, linked) = Seeding-linked e o.track o.left in
      let opened = same-Seeding source target s o.left o.sprints o.events o.items o.last_item in
      record {
        result = some row;
        left = with_link e o.track o.left;
        answers = rw o.answers seeds;
        seeding = join source target s o.left (with_link e o.track o.left) opened seeding;
        linked = linked;
      }
