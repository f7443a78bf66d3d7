-- ===== src/Backlog/Seeding.antt =====
-- How seeding moves the ledger, as an order.
use sprintctl.Prelude.{
  ℕ, Bool, true, false, some, List, find, select, contains, ◌==◌, nat_eq, ◌≡◌, ◌≤◌, refl, ap, ◌∙◌,
  option_eq, All, Bool-cases, inl, inr,
}
use sprintctl.Domain.{Status, Item, Event}
use sprintctl.Ledger.{Ledger}
use sprintctl.Schema.{is_some, item_is}
use sprintctl.Schema.Statements.{get_item}
use sprintctl.Sprints.{get_sprint}
use sprintctl.Backlog.{is_candidate, is_event, seeded_event, seeded_event_ids}

abbrev pub Exists : ℕ → Ledger → Type 0
Exists n s = is_some (get_sprint n s) ≡ true

abbrev pub IsSeeded : ℕ → Ledger → ℕ → Type 0
IsSeeded target s n = contains (seeded_event_ids target s) n ≡ true

-- The row of an event is found by its id.
abbrev pub Found : ℕ → List Event → Type 0
Found n es = (e : Event) × (find (is_event n) es ≡ some e)

-- No item has an id that was not given yet.
abbrev pub IdsGiven : Ledger → Type 0
IdsGiven s = All (λ i. i.id ≤ s.last.item) s.items

-- The link of an event in a sprint.
abbrev pub links : ℕ → ℕ → Event → Bool
links target n l = seeded_event target l == some n

-- The first link of an event names an open item of the sprint.
pub record ItemOf (target : ℕ) (t : Ledger) (n : ℕ) : Type 0 where
  pub link : Event
  pub item : Item
  pub linked : find (links target n) t.events ≡ some link
  pub names : link.work_item_id ≡ some item.id
  pub there : get_item item.id t ≡ some item
  pub in_sprint : item.sprint_id ≡ target
  pub is_pending : item.status ≡ Status.pending

-- The candidates stay, the sprints stay, what was seeded stays seeded and linked, and what is newly
-- seeded is linked to an item.
pub record Seeding (source target : ℕ) (s t : Ledger) : Type 0 where
  pub sprints : t.sprints ≡ s.sprints
  pub candidates : select (is_candidate source) t.events ≡ select (is_candidate source) s.events
  pub seeded : (n : ℕ) → IsSeeded target s n → IsSeeded target t n
  pub given : IdsGiven s → IdsGiven t
  pub kept : (n : ℕ) → ItemOf target s n → ItemOf target t n
  pub newly :
      (n : ℕ)
      → IdsGiven s
      → contains (seeded_event_ids target s) n ≡ false
      → IsSeeded target t n
      → ItemOf target t n

not_seeded :
    {A : Type 0} (target : ℕ) (s : Ledger) (n : ℕ)
    → contains (seeded_event_ids target s) n ≡ false
    → IsSeeded target s n
    → A
not_seeded target s n h k = cc

pub stay : (source target : ℕ) (s : Ledger) → Seeding source target s s
stay source target s = record {
  sprints = refl;
  candidates = refl;
  seeded = λ n h. h;
  given = λ h. h;
  kept = λ n h. h;
  newly = λ n b unseeded linked_now. not_seeded target s n unseeded linked_now;
}

pub join :
    (source target : ℕ) (s t u : Ledger)
    → Seeding source target s t
    → Seeding source target t u
    → Seeding source target s u
join source target s t u h k = record {
  sprints = k.sprints ∙ h.sprints;
  candidates = k.candidates ∙ h.candidates;
  seeded = λ n m. k.seeded n (h.seeded n m);
  given = λ b. k.given (h.given b);
  kept = λ n m. k.kept n (h.kept n m);
  newly = λ n b unseeded linked_now. elim (Bool-cases (contains (seeded_event_ids target t) n)) [
    | inl e ↦ k.kept n (h.newly n b unseeded e)
    | inr e ↦ k.newly n (h.given b) e linked_now
  ];
}

-- Where events, items and sprints are as they were, so is what was seeded.
pub same-Seeding :
    (source target : ℕ) (s t : Ledger)
    → t.sprints ≡ s.sprints
    → t.events ≡ s.events
    → t.items ≡ s.items
    → t.last.item ≡ s.last.item
    → Seeding source target s t
unfolding seeded_event_ids
same-Seeding source target s t hs he hi hl = record {
  sprints = hs;
  candidates = ap (select (is_candidate source)) he;
  seeded = λ n h. rw he h;
  given = λ b. rw (hl, hi) b;
  kept = λ n k. record {
    link = k.link;
    item = k.item;
    linked = ap (find (links target n)) he ∙ k.linked;
    names = k.names;
    there = ap (find (item_is k.item.id)) hi ∙ k.there;
    in_sprint = k.in_sprint;
    is_pending = k.is_pending;
  };
  newly = λ n b unseeded linked_now. not_seeded target s n unseeded (rw he at linked_now);
}
