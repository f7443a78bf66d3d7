-- ===== src/Backlog/Again.antt =====
-- Seeding returns where both sprints are there, links every candidate, and has nothing left to do.
use sprintctl.Prelude.{
  ℕ, String, true, false, Option, none, some, List, [], ◌∷◌, find, select, somes, contains, nat_eq,
  ◌≡◌, refl, sym, ap, ◌∙◌, subst, All, All-mono, Bool-cases, inl, inr, beq_refl, eq_of_beq,
  find_sound, arith, find-select, All-select, All-of_select, select-none,
}
use sprintctl.Prelude.Sort.{sort, All-sort}
use sprintctl.Domain.{Item, Event}
use sprintctl.Ledger.{Ledger, Action, ok, outcome, after, transaction-answers, each}
use sprintctl.Schema.{is_some}
use sprintctl.Sprints.{get_sprint}
use sprintctl.Backlog.{
  is_candidate, earlier, list_knowledge_candidates, is_event, candidate, seeded_event_ids,
  validate_sprints, seed_candidate, seed_one, is_unseeded, seed_listed,
  backlog_seed_from_candidates,
}
use sprintctl.Backlog.Seeding.{Exists, IsSeeded, Found, Seeding, IdsGiven, ItemOf, stay, join}
use sprintctl.Backlog.Linked.{Handled, Handled-seeded}

-- Each row of a list is found in it by its id.
members-Found : (es : List Event) → All (λ e. Found e.id es) es
unfolding find
members-Found [] = tt
members-Found (e ∷ es) = (
  (e, rw (beq_refl e.id) refl),
  All-mono (λ x. Found x.id es) (λ x. Found x.id (e ∷ es)) es
      (λ x (y, h). elim (Bool-cases (is_event x.id e)) [
        | inl u ↦ (e, rw u refl)
        | inr u ↦ (y, rw u h)
      ])
      (members-Found es),
)

module _ (fresh : ℕ → String) (source target : ℕ) (actor : String) where
  validated :
      (s : Ledger)
      → Exists source s
      → Exists target s
      → validate_sprints source target s ≡ (ok tt, s)
  unfolding validate_sprints
  validated s hs ht = rw (hs, ht) refl

  Handled-candidate :
      (n : ℕ) (s : Ledger)
      → Exists source s
      → Exists target s
      → Found n (select (is_candidate source) s.events)
      → Handled fresh source target actor n (seed_candidate fresh source target actor n) s
  unfolding seed_candidate candidate
  Handled-candidate n s hs ht (e, he) =
      let found : candidate source n s ≡ some e =
        find-select (is_candidate source) (is_event n) s.events ∙ he in
      let same : e.id ≡ n = eq_of_beq e.id n (find_sound (is_event n) _ e he) in
      elim (Bool-cases (contains (seeded_event_ids target s) n)) [
        | inl u ↦ record {
          result = none;
          left = s;
          answers = rw (validated s hs ht, found, u) refl;
          seeding = stay source target s;
          linked = u;
        }
        | inr u ↦
            let h = Handled-seeded fresh source target actor e s in
            record {
              result = h.result;
              left = h.left;
              answers = rw (validated s hs ht, found, u) h.answers;
              seeding = h.seeding;
              linked = subst (IsSeeded target h.left) same h.linked;
            }
      ]

  abbrev one : Event → Action (Option Item)
  one = seed_one fresh source target actor

  record AllHandled (es : List Event) (s : Ledger) : Type 0 where
    results : List (Option Item)
    left : Ledger
    answers : each one es s ≡ (ok results, left)
    seeding : Seeding source target s left
    linked : All (λ e. IsSeeded target left e.id) es

  AllHandled-each :
      (es : List Event) (s : Ledger)
      → Exists source s
      → Exists target s
      → All (λ e. Found e.id (select (is_candidate source) s.events)) es
      → AllHandled es s
  unfolding each
  AllHandled-each [] s hs ht k = record {
    results = [];
    left = s;
    answers = refl;
    seeding = stay source target s;
    linked = tt;
  }
  AllHandled-each (e ∷ es) s hs ht (k, ks) =
      let h = Handled-candidate e.id s hs ht k in
      let keep : (n : ℕ) → Exists n s → Exists n h.left = λ n x. rw h.seeding.sprints x in
      let later =
        AllHandled-each es h.left (keep source hs) (keep target ht) (rw h.seeding.candidates ks) in
      let first =
        transaction-answers (seed_candidate fresh source target actor e.id) s h.left h.result
          h.answers in
      record {
        results = h.result ∷ later.results;
        left = later.left;
        answers = rw (first, later.answers) refl;
        seeding = join source target s h.left later.left h.seeding later.seeding;
        linked = (later.seeding.seeded e.id h.linked, later.linked);
      }

  record Seeded (m : Action (List Item)) (cs : List Event) (s : Ledger) : Type 0 where
    items : List Item
    left : Ledger
    answers : m s ≡ (ok items, left)
    seeding : Seeding source target s left
    linked : All (λ e. IsSeeded target left e.id) cs

  Seeded-listed :
      (cs : List Event) (s : Ledger)
      → Exists source s
      → Exists target s
      → All (λ e. Found e.id (select (is_candidate source) s.events)) cs
      → Seeded (seed_listed fresh source target actor cs) cs s
  Seeded-listed [] s hs ht k = record {
    items = [];
    left = s;
    answers = refl;
    seeding = stay source target s;
    linked = tt;
  }
  Seeded-listed (c ∷ cs) s hs ht k =
      let test = is_unseeded fresh source target actor (seeded_event_ids target s) in
      let a =
        AllHandled-each (select test (c ∷ cs)) s hs ht
          (All-select (λ e. Found e.id (select (is_candidate source) s.events)) test (c ∷ cs) k) in
      record {
        items = somes a.results;
        left = a.left;
        answers = rw a.answers refl;
        seeding = a.seeding;
        linked =
            All-of_select (λ e. IsSeeded target a.left e.id) test (c ∷ cs)
              (λ e u. a.seeding.seeded e.id (ground arith)) a.linked;
      }

  nothing_left :
      (cs : List Event) (t : Ledger)
      → All (λ e. IsSeeded target t e.id) cs
      → seed_listed fresh source target actor cs t ≡ (ok [], t)
  unfolding each
  nothing_left [] t h = refl
  nothing_left (c ∷ cs) t h =
      rw
        (select-none (is_unseeded fresh source target actor (seeded_event_ids target t)) (c ∷ cs) (
          All-mono (λ e. IsSeeded target t e.id)
            (λ e. is_unseeded fresh source target actor (seeded_event_ids target t) e ≡ false)
            (c ∷ cs) (λ e u. ground arith) h))
        refl

  Seeded-seed :
      (s : Ledger)
      → Exists source s
      → Exists target s
      → Seeded
          (backlog_seed_from_candidates fresh source target actor)
          (list_knowledge_candidates source s)
          s
  unfolding backlog_seed_from_candidates list_knowledge_candidates
  Seeded-seed s hs ht =
      let cs = select (is_candidate source) s.events in
      let l =
        Seeded-listed (sort earlier cs) s hs ht
          (All-sort earlier (λ e. Found e.id cs) cs (members-Found cs)) in
      record {
        items = l.items;
        left = l.left;
        answers = rw (validated s hs ht) l.answers;
        seeding = l.seeding;
        linked = l.linked;
      }

  seed-Seeding :
      (s t : Ledger)
      → Exists source s
      → Exists target s
      → Seeding source target s t
      → All (λ e. IsSeeded target t e.id) (list_knowledge_candidates source s)
      → backlog_seed_from_candidates fresh source target actor t ≡ (ok [], t)
  unfolding backlog_seed_from_candidates list_knowledge_candidates
  seed-Seeding s t hs ht seeding linked =
      rw (validated t (rw seeding.sprints hs) (rw seeding.sprints ht), seeding.candidates)
        (nothing_left (sort earlier (select (is_candidate source) s.events)) t linked)

  -- Where both sprints are there and no item has an id that was not given, seeding returns. Every
  -- knowledge event of the source sprint is then seeded: its id is among those that the links of the
  -- target name; and of each that was not seeded before, the first link names, as its work item, a
  -- pending item of the target sprint that is in the table.
  pub backlog_seed_from_candidates-links :
      (s : Ledger)
      → is_some (get_sprint source s) ≡ true
      → is_some (get_sprint target s) ≡ true
      → IdsGiven s
      → (items : List Item) × (outcome (backlog_seed_from_candidates fresh source target actor) s
          ≡ ok items)
        × (let t = after (backlog_seed_from_candidates fresh source target actor) s in
            All
              (λ e.
                (contains (seeded_event_ids target t) e.id ≡ true)
                × (contains (seeded_event_ids target s) e.id ≡ false → ItemOf target t e.id))
              (list_knowledge_candidates source s))
  backlog_seed_from_candidates-links s hs ht given =
      let k = Seeded-seed s hs ht in
      (
        k.items,
        ap (λ r. r.0) k.answers,
        subst
            (λ t.
              All
                (λ e.
                  IsSeeded target t e.id
                  × (contains (seeded_event_ids target s) e.id ≡ false → ItemOf target t e.id))
                (list_knowledge_candidates source s))
            (sym (ap (λ r. r.1) k.answers))
            (All-mono (λ e. IsSeeded target k.left e.id)
              (λ e.
                IsSeeded target k.left e.id
                × (contains (seeded_event_ids target s) e.id ≡ false → ItemOf target k.left e.id))
              (list_knowledge_candidates source s)
              (λ e h. (h, λ unseeded. k.seeding.newly e.id given unseeded h)) k.linked),
      )

  -- Where both sprints are there, a second seeding right after the first returns no item and leaves
  -- the ledger as it is.
  pub backlog_seed_from_candidates-again :
      (s : Ledger)
      → is_some (get_sprint source s) ≡ true
      → is_some (get_sprint target s) ≡ true
      → let t = after (backlog_seed_from_candidates fresh source target actor) s in
        backlog_seed_from_candidates fresh source target actor t ≡ (ok [], t)
  backlog_seed_from_candidates-again s hs ht =
      let k = Seeded-seed s hs ht in
      subst (λ t. backlog_seed_from_candidates fresh source target actor t ≡ (ok [], t))
        (sym (ap (λ r. r.1) k.answers)) (seed-Seeding s k.left hs ht k.seeding k.linked)
