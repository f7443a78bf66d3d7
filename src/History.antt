-- ===== src/History.antt =====
-- The order in which one ledger extends another: rows that are added, items in a later state.
pub mod Statements
pub mod Terminal
use sprintctl.Prelude.{
  ℕ, ◌≡◌, refl, sym, ap, subst, ◌∙◌, Bool, true, false, Option, none, some, List, [], ◌∷◌, ◌++◌,
  arith, inl, inr, find, find_sound, find-update, find-append, update, Bool-cases, Option-cases,
  eq_of_beq, beq_refl, nat_eq, ◌==◌, if◌then◌else◌, String,
}
use mathlib.Core.Option
use mathlib.Core.Option.{some-injective}
use mathlib.Core.List.{append-nil, append_assoc}
use sprintctl.Domain.{Status, Item, Decision, Event, Release, Reservation, Payload}
use sprintctl.Ledger.{Guard, Ledger, ok, err}
use sprintctl.Schema.{item_is, decision_is, item_update_guard}
use sprintctl.Schema.Statements.{
  get_item, update_item, insert_item, insert_decision, insert_reservation, update_reservations,
  insert_event, under, with_items,
}
use sprintctl.Follows.{Preorder, Follows}
use sprintctl.Kept.{KeepsIdentity}

-- A later state of an item: done stays done, and a terminal decision, with its resolution, is
-- never replaced; identity and the legacy mark do not change.
pub record Later (i j : Item) : Type 0 where
  pub id : j.id ≡ i.id
  pub uuid : j.aggregate_uuid ≡ i.aggregate_uuid
  pub legacy : j.legacy ≡ i.legacy
  pub done : i.status ≡ Status.done → j.status ≡ Status.done
  pub bound : (n : ℕ) → i.terminal_decision_id ≡ some n → j.terminal_decision_id ≡ some n
  pub resolution : (n : ℕ) → i.terminal_decision_id ≡ some n → j.resolution ≡ i.resolution

pub Later-refl : (i : Item) → Later i i
Later-refl i = record {
  id = refl;
  uuid = refl;
  legacy = refl;
  done = λ h. h;
  bound = λ n h. h;
  resolution = λ n h. refl;
}

pub Later-trans : (i j k : Item) → Later i j → Later j k → Later i k
Later-trans i j k p q = record {
  id = q.id ∙ p.id;
  uuid = q.uuid ∙ p.uuid;
  legacy = q.legacy ∙ p.legacy;
  done = λ h. q.done (p.done h);
  bound = λ n h. q.bound n (p.bound n h);
  resolution = λ n h. q.resolution n (p.bound n h) ∙ p.resolution n h;
}

-- Every item is still there, in a later state; decisions, releases and events are only added.
pub record Extends (s t : Ledger) : Type 0 where
  pub items :
      (n : ℕ) (i : Item) → get_item n s ≡ some i → (j : Item) × (get_item n t ≡ some j) × Later i j
  pub decisions : (added : List Decision) × (t.decisions ≡ s.decisions ++ added)
  pub releases : (added : List Release) × (t.releases ≡ s.releases ++ added)
  pub events : (added : List Event) × (t.events ≡ s.events ++ added)

pub grown_refl : {A : Type 0} (xs : List A) → (added : List A) × (xs ≡ xs ++ added)
grown_refl xs = ([], sym (append-nil xs))

pub grown_trans :
    {A : Type 0} (xs ys zs : List A)
    → (added : List A) × (ys ≡ xs ++ added)
    → (added : List A) × (zs ≡ ys ++ added)
    → (added : List A) × (zs ≡ xs ++ added)
grown_trans xs ys zs (a, p) (b, q) = (a ++ b, q ∙ ap (λ l. l ++ b) p ∙ append_assoc xs a b)

pub same_items :
    (s t : Ledger)
    → t.items ≡ s.items
    → (n : ℕ) (i : Item) → get_item n s ≡ some i
    → (j : Item) × (get_item n t ≡ some j) × Later i j
same_items s t e n i h = (i, rw e h, Later-refl i)

pub Extends-refl : (s : Ledger) → Extends s s
Extends-refl s = record {
  items = same_items s s refl;
  decisions = grown_refl s.decisions;
  releases = grown_refl s.releases;
  events = grown_refl s.events;
}

pub Extends-trans : (s t u : Ledger) → Extends s t → Extends t u → Extends s u
Extends-trans s t u p q = record {
  items = λ n i h.
      let (j, hj, ij) = p.items n i h in
      let (k, hk, jk) = q.items n j hj in (k, hk, Later-trans i j k ij jk);
  decisions = grown_trans s.decisions t.decisions u.decisions p.decisions q.decisions;
  releases = grown_trans s.releases t.releases u.releases p.releases q.releases;
  events = grown_trans s.events t.events u.events p.events q.events;
}

abbrev pub extends_order : Preorder Extends
extends_order = record { stay = Extends-refl; join = Extends-trans }

Later-guard :
    (ds : List Decision) (i j : Item)
    → item_update_guard ds i j ≡ none
    → j.id ≡ i.id
    → j.aggregate_uuid ≡ i.aggregate_uuid
    → Later i j
unfolding item_update_guard
Later-guard ds i j h e u = record {
  id = e;
  uuid = u;
  legacy = ground arith;
  done = λ d. ground arith;
  bound = λ n b. ground arith;
  resolution = λ n b. ground arith;
}

module _ (n : ℕ) (f : Item → Item) (keeps : KeepsIdentity f) where
  pub find-update_item :
      (m : ℕ) (items : List Item)
      → find (item_is m) (update (item_is n) f items)
        ≡ Option.map (λ i. if item_is n i then f i else i) (find (item_is m) items)
  find-update_item m = find-update (item_is m) (item_is n) f (λ i _. rw keeps.id)

  -- The one item that the statement touches was found by its id.
  pub touched :
      (s : Ledger) (m : ℕ) (i old : Item)
      → get_item m s ≡ some i
      → item_is n i ≡ true
      → get_item n s ≡ some old
      → old ≡ i
  touched s m i old h e g =
      let here : n ≡ i.id = sym (eq_of_beq i.id n e) in
      let there : i.id ≡ m = eq_of_beq i.id m (find_sound (item_is m) s.items i h) in
      some-injective old i (sym g ∙ ap (λ k. get_item k s) (here ∙ there) ∙ h)

  Extends-write :
      (s : Ledger) (old : Item) (r : Option Guard)
      → get_item n s ≡ some old
      → item_update_guard s.decisions old (f old) ≡ r
      → Extends s (under r tt s (with_items (update (item_is n) f s.items) s)).1
  Extends-write s old (some g) h e = Extends-refl s
  Extends-write s old none h e = record {
    items = λ m i hi. elim (Bool-cases (item_is n i)) [
      | inl here ↦ (
        f i,
        rw (find-update_item m s.items, hi) (rw here),
        subst (λ o. Later o (f o)) (touched s m i old hi here h)
            (Later-guard s.decisions old (f old) e (keeps.id old) (keeps.uuid old)),
      )
      | inr other ↦ (i, rw (find-update_item m s.items, hi) (rw other), Later-refl i)
    ];
    decisions = grown_refl s.decisions;
    releases = grown_refl s.releases;
    events = grown_refl s.events;
  }

  pub Extends-update_item : Follows Extends (update_item n f)
  unfolding update_item
  Extends-update_item = record {
    at = λ s. elim (Option-cases (get_item n s)) [
      | inl e ↦ rw (e, update_item) (Extends-refl s)
      | inr (old, e) ↦
          rw (e, update_item)
            (Extends-write s old (item_update_guard s.decisions old (f old)) e refl)
    ];
  }
