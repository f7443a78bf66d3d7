-- ===== src/Invariant/Statements.antt =====
-- The well-formed ledger under each statement.
use sprintctl.Prelude.{
  ℕ, ◌+◌, ◌≤◌, ◌≡◌, refl, sym, ap, subst, ◌∙◌, Option, none, some, List, [], ◌∷◌, All-append,
  All-mono, find, find-append, find-append_none, Option-cases, Bool-cases, inl, inr, arith, nat_eq,
  String, update, Bool, true, false, if◌then◌else◌,
}
use mathlib.Core.Option.{some-injective}
use sprintctl.Domain.{Item, Decision, Track, Release}
use sprintctl.Ledger.{Guard, Ledger, after}
use sprintctl.Schema.{item_is, item_insert_guard, item_update_guard, decision_insert_guard}
use sprintctl.Schema.Statements.{
  get_item, under, insert_item, insert_decision, update_item, insert_reservation,
  update_reservations, insert_event, with_items, with_item_added, with_decision_added, new_item,
  insert_release, with_release_added, release_ignored,
}
use sprintctl.WorkItems.Decide.{decision_row}
use sprintctl.Sprints.{update_sprint}
use sprintctl.Refs.{insert_ref, remove_ref}
use sprintctl.Deps.{insert_dep, remove_dep}
use sprintctl.Maintain.{get_or_create_track, track_or_new, track_is}
use sprintctl.Program.Clock.{tick}
use sprintctl.Follows.{Follows}
use sprintctl.Kept.{Kept, KeepsIdentity}
use sprintctl.History.{find-update_item, touched}
use sprintctl.Invariant.{IsConsistent, WellFormed, IsConsistent-append}

-- What keeps a ledger well-formed.
abbrev pub KeepsWell : Ledger → Ledger → Type 0
KeepsWell s t = WellFormed s → WellFormed t

well_under :
    {A : Type 0} (r : Option Guard) (a : A) (s t : Ledger)
    → (r ≡ none → KeepsWell s t)
    → KeepsWell s (under r a s t).1
well_under none a s t h = h refl
well_under (some g) a s t h = λ w. w

-- Neither items nor decisions are written.
well_same :
    (s t : Ledger)
    → t.items ≡ s.items
    → t.decisions ≡ s.decisions
    → t.last.decision ≡ s.last.decision
    → KeepsWell s t
well_same s t i d l w = record {
  items = λ n j h. rw d (w.items n j (rw i at h));
  ids = rw (d, l) w.ids;
}

inserted-IsConsistent :
    (ds : List Decision) (row : Item) → item_insert_guard ds row ≡ none → IsConsistent ds row
unfolding item_insert_guard
inserted-IsConsistent ds row h = record { shape = ground arith; closed = ground arith }

updated-IsConsistent :
    (ds : List Decision) (old new : Item)
    → item_update_guard ds old new ≡ none
    → IsConsistent ds old
    → IsConsistent ds new
unfolding item_update_guard
updated-IsConsistent ds old new h c = record {
  shape = ground arith;
  closed = ground (arith, c.closed);
}

only_row :
    (row : Item) (s : Ledger)
    → item_insert_guard s.decisions row ≡ none
    → (n : ℕ) (i : Item) → find (item_is n) (row ∷ []) ≡ some i
    → IsConsistent s.decisions i
unfolding find
only_row row s g n i h = elim (Bool-cases (item_is n row)) [
  | inl e ↦
      subst (IsConsistent s.decisions) (some-injective row i (rw e at h))
        (inserted-IsConsistent s.decisions row g)
  | inr e ↦ absurd (cc (rw e at h))
]

item_added :
    (row : Item) (s : Ledger)
    → item_insert_guard s.decisions row ≡ none
    → KeepsWell s (with_item_added row s)
item_added row s g w = record {
  items = λ n i h. elim (Option-cases (find (item_is n) s.items)) [
    | inl e ↦ only_row row s g n i (sym (find-append_none (item_is n) s.items (row ∷ []) e) ∙ h)
    | inr (old, e) ↦
        subst (IsConsistent s.decisions)
          (some-injective old i (sym (find-append (item_is n) s.items (row ∷ []) old e) ∙ h))
          (w.items n old e)
  ];
  ids = w.ids;
}

decision_added :
    (row : Decision) (s : Ledger)
    → row.id ≡ s.last.decision + 1
    → KeepsWell s (with_decision_added (s.last.decision + 1) row s)
decision_added row s e w = record {
  items = λ n i h. IsConsistent-append s.decisions (row ∷ []) i (w.items n i h);
  ids =
      All-append (λ d. d.id ≤ s.last.decision + 1) s.decisions (row ∷ [])
        (All-mono (λ d. d.id ≤ s.last.decision) (λ d. d.id ≤ s.last.decision + 1) s.decisions
          (λ d k. omega (arith, k)) w.ids)
        (omega (arith, e), tt);
}

item_written :
    (n : ℕ) (f : Item → Item) (keeps : KeepsIdentity f) (s : Ledger) (old : Item)
    → get_item n s ≡ some old
    → item_update_guard s.decisions old (f old) ≡ none
    → KeepsWell s (with_items (update (item_is n) f s.items) s)
item_written n f keeps s old g e w = record {
  items = λ m i h. elim (Option-cases (get_item m s)) [
    | inl none_there ↦ absurd (cc (rw (find-update_item n f keeps m s.items, none_there) at h))
    | inr (before, there) ↦ elim (Bool-cases (item_is n before)) [
      | inl hit ↦
          subst (IsConsistent s.decisions)
            (ap f (touched n f keeps s m before old there hit g)
              ∙ some-injective (f before) i
                  (rw (find-update_item n f keeps m s.items, there, hit) at h))
            (updated-IsConsistent s.decisions old (f old) e (w.items n old g))
      | inr miss ↦
          subst (IsConsistent s.decisions)
            (some-injective before i (rw (find-update_item n f keeps m s.items, there, miss) at h))
            (w.items m before there)
    ]
  ];
  ids = w.ids;
}

update_item-KeepsWell :
    (n : ℕ) (f : Item → Item) → KeepsIdentity f → Follows KeepsWell (update_item n f)
unfolding update_item
update_item-KeepsWell n f keeps = record {
  at = λ s. elim (Option-cases (get_item n s)) [
    | inl e ↦ rw (e, update_item) (λ w. w)
    | inr (old, e) ↦
        rw (e, update_item)
          (well_under (item_update_guard s.decisions old (f old)) tt s
            (with_items (update (item_is n) f s.items) s) (item_written n f keeps s old e))
  ];
}

track-KeepsWell :
    (n : ℕ) (name text : String) (s : Ledger) (t : Option Track)
    → KeepsWell s (after (track_or_new n name text t) s)
track-KeepsWell n name text s (some t) = λ w. w
track-KeepsWell n name text s none =
    well_same s (after (track_or_new n name text none) s) refl refl refl

well_ignored :
    (b : Bool) (row : Release) (s : Ledger)
    → KeepsWell s (if b then s else with_release_added row s)
well_ignored true row s = λ w. w
well_ignored false row s = well_same s (with_release_added row s) refl refl refl

pub well_kept : Kept KeepsWell
unfolding update_sprint insert_item insert_decision insert_reservation update_reservations
    insert_event insert_release get_or_create_track insert_dep remove_dep insert_ref remove_ref
well_kept = record {
  order = record { stay = λ s w. w; join = λ s t u p q w. q (p w) };
  by_insert_item = λ sprint_id track_id title description assignee priority uuid. record {
    at = λ s.
        let row =
          new_item (s.last.item + 1) sprint_id track_id title description assignee priority uuid
            s.clock in
        well_under (item_insert_guard s.decisions row) (s.last.item + 1) s (with_item_added row s)
          (item_added row s);
  };
  by_update_item = update_item-KeepsWell;
  by_insert_decision = λ item_id d release now. record {
    at = λ s.
        let n = s.last.decision + 1 in
        let row = decision_row item_id d release now n in
        well_under (decision_insert_guard s.releases s.decisions row) n s
          (with_decision_added n row s) (λ _. decision_added row s refl);
  };
  by_insert_reservation = λ make. record {
    at = λ s.
        well_same s (after (insert_reservation make) s) (ground arith) (ground arith)
          (ground arith);
  };
  by_update_reservations = λ p f. record {
    at = λ s.
        well_same s (after (update_reservations p f) s) (ground arith) (ground arith)
          (ground arith);
  };
  by_insert_event = λ sprint_id actor event_type source_type n payload. record {
    at = λ s.
        well_same s (after (insert_event sprint_id actor event_type source_type n payload) s) refl
          refl refl;
  };
  by_update_sprint =
      λ n f. record { at = λ s. well_same s (after (update_sprint n f) s) refl refl refl };
  by_track = λ n name text. record {
    at = λ s. track-KeepsWell n name text s (find (track_is n name) s.tracks);
  };
  by_insert_dep = λ a b. record {
    at = λ s. well_same s (after (insert_dep a b) s) (ground arith) (ground arith) (ground arith);
  };
  by_remove_dep = λ a b. record {
    at = λ s. well_same s (after (remove_dep a b) s) (ground arith) (ground arith) (ground arith);
  };
  by_insert_ref = λ n kind url label. record {
    at = λ s. well_same s (after (insert_ref n kind url label) s) refl refl refl;
  };
  by_remove_ref = λ a b. record {
    at = λ s. well_same s (after (remove_ref a b) s) (ground arith) (ground arith) (ground arith);
  };
  by_insert_release = λ make. record {
    at = λ s.
        let row = make (s.last.release + 1) in well_ignored (release_ignored s.releases row) row s;
  };
  by_tick = λ now. record { at = λ s. well_same s (after (tick now) s) refl refl refl };
}
