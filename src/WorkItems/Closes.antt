-- ===== src/WorkItems/Closes.antt =====
-- What a decision writes.
use sprintctl.Prelude.{
  ℕ, ◌+◌, ◌≤◌, ◌≡◌, refl, sym, ap, subst, ◌∙◌, false, Option, none, some, List, [], ◌∷◌, ◌++◌, All,
  find, find-append_none, find_sound, update, String, arith, nat_eq, beq_refl,
}
use mathlib.Core.Option.{some-injective}
use sprintctl.Domain.{Status, Resolution, Item, Decision, resolution_for}
use sprintctl.Ledger.{Guard, Ledger, ok, outcome, after, bind-ok, after-bind, Action, ◌>>=◌}
use sprintctl.Decisions.{Request, decision_error, is_legacy_remark_target}
use sprintctl.Schema.{item_is, decision_is, decision_insert_guard, item_update_guard}
use sprintctl.Schema.Statements.{
  get_item, under, insert_decision, update_item, with_decision_added, with_items,
}
use sprintctl.Releases.{resolve_decision_release}
use sprintctl.Kept.{KeepsIdentity}
use sprintctl.History.{find-update_item}
use sprintctl.WorkItems.Decide.{
  decision_row, refuse, check_successor, close_terminal, apply_resolution, read_decision,
  write_decision, write_admitted,
}

under-ok :
    {A : Type 0} (g : Option Guard) (a b : A) (s t : Ledger)
    → (under g a s t).0 ≡ ok b
    → under g a s t ≡ (ok b, t)
under-ok none a b s t h = ground arith
under-ok (some g) a b s t h = cc

inserted :
    (make : ℕ → Decision) (s : Ledger) (n : ℕ)
    → outcome (insert_decision make) s ≡ ok n
    → insert_decision make s
      ≡ (ok n, with_decision_added (s.last.decision + 1) (make (s.last.decision + 1)) s)
unfolding insert_decision
inserted make s n h =
    under-ok (decision_insert_guard s.releases s.decisions (make (s.last.decision + 1)))
      (s.last.decision + 1) n s
      (with_decision_added (s.last.decision + 1) (make (s.last.decision + 1)) s) h

inserted-id :
    (make : ℕ → Decision) (s : Ledger) (n : ℕ)
    → outcome (insert_decision make) s ≡ ok n
    → n ≡ s.last.decision + 1
unfolding insert_decision
inserted-id make s n h = ground arith

no_decision_above :
    (m : ℕ) (ds : List Decision) → All (λ d. d.id ≤ m) ds → find (decision_is (m + 1)) ds ≡ none
unfolding find
no_decision_above m [] h = refl
no_decision_above m (d ∷ ds) h = ground (arith, h.0, no_decision_above m ds h.1)

pub found_last :
    (m : ℕ) (ds : List Decision) (d : Decision)
    → All (λ x. x.id ≤ m) ds
    → d.id ≡ m + 1
    → find (decision_is (m + 1)) (ds ++ d ∷ []) ≡ some d
unfolding find
found_last m ds d h e =
    find-append_none (decision_is (m + 1)) ds (d ∷ []) (no_decision_above m ds h)
    ∙ rw (e, beq_refl (m + 1)) refl

updated :
    (n : ℕ) (f : Item → Item) (s : Ledger) (old : Item)
    → get_item n s ≡ some old
    → outcome (update_item n f) s ≡ ok tt
    → update_item n f s ≡ (ok tt, with_items (update (item_is n) f s.items) s)
unfolding update_item
updated n f s old g h =
    let q : update_item n f s
        ≡ under (item_update_guard s.decisions old (f old)) tt s
            (with_items (update (item_is n) f s.items) s) =
      rw (g, update_item) refl in
    q
    ∙ under-ok (item_update_guard s.decisions old (f old)) tt tt s
        (with_items (update (item_is n) f s.items) s) (sym (ap (λ p. p.0) q) ∙ h)

refuse-after : (e : Option String) (s : Ledger) → after (refuse e) s ≡ s
refuse-after e s = ground arith

check_successor-after : (n : ℕ) (o : Option ℕ) (s : Ledger) → after (check_successor n o) s ≡ s
unfolding check_successor
check_successor-after n o s = ground arith

resolve-after :
    (n : ℕ) (o : Option String) (s : Ledger) → after (resolve_decision_release n o) s ≡ s
unfolding resolve_decision_release
resolve-after n o s = ground arith

-- The action goes on from where a step that only reads leaves it.
step :
    {A B : Type 0} (m : Action A) (f : A → Action B) (s : Ledger) (a : A)
    → outcome m s ≡ ok a
    → after m s ≡ s
    → (m >>= f) s ≡ f a s
step m f s a h e = after-bind m f s a h ∙ ap (f a) e

abbrev pub ledger_with : ℕ → Request → Option String → Ledger → Ledger
ledger_with n d release s =
    with_decision_added (s.last.decision + 1)
      (decision_row n d release s.clock (s.last.decision + 1)) s

written-admitted :
    (item : Item) (d : Request) (s : Ledger) (x : Decision)
    → outcome (write_decision item d) s ≡ ok x
    → (release : Option String) × (outcome (resolve_decision_release item.id d.release_digest) s
        ≡ ok release)
      × (write_decision item d s ≡ write_admitted item d release s)
unfolding write_decision
written-admitted item d s x h =
    let (u1, a1, h1) = bind-ok (refuse (decision_error item d)) _ s x h in
    let (u2, a2, h2) =
      bind-ok (check_successor item.id d.superseded_by_item_id) _ s x
        (rw (refuse-after (decision_error item d) s) at h1) in
    let (release, a3, h3) =
      bind-ok (resolve_decision_release item.id d.release_digest) _ s x
        (rw (check_successor-after item.id d.superseded_by_item_id s) at h2) in
    (
      release,
      a3,
      step (refuse (decision_error item d)) _ s u1 a1 (refuse-after (decision_error item d) s)
          ∙ step (check_successor item.id d.superseded_by_item_id) _ s u2 a2
              (check_successor-after item.id d.superseded_by_item_id s)
          ∙ step (resolve_decision_release item.id d.release_digest) (λ q. write_admitted item d q)
              s release a3 (resolve-after item.id d.release_digest s),
    )

apply_resolution-terminal :
    (r : Resolution) (n h : ℕ) (s : Ledger)
    → apply_resolution false (some r) n h s ≡ update_item n (close_terminal r h s.clock) s
unfolding apply_resolution
apply_resolution-terminal r n h s = refl

close_terminal-keeps : (r : Resolution) (h now : ℕ) → KeepsIdentity (close_terminal r h now)
close_terminal-keeps r h now = record { id = λ i. refl; uuid = λ i. refl }

read-found :
    (h : ℕ) (s : Ledger) (x : Decision)
    → outcome (read_decision h) s ≡ ok x
    → (find (decision_is h) s.decisions ≡ some x) × (after (read_decision h) s ≡ s)
unfolding read_decision
read-found h s x e = (ground arith, ground arith)

abbrev pub closed_in : ℕ → (Item → Item) → Ledger → Ledger
closed_in n f s = with_items (update (item_is n) f s.items) s

module _ (item : Item) (d : Request) (r : Resolution) (s : Ledger)
    (found : get_item item.id s ≡ some item) (ids : All (λ x. x.id ≤ s.last.decision) s.decisions)
    (ordinary : is_legacy_remark_target item ≡ false)
    (terminal : resolution_for d.kind ≡ some r) where
  abbrev pub handle : ℕ
  handle = s.last.decision + 1

  abbrev pub closing : Item → Item
  closing = close_terminal r handle s.clock

  -- From the inserted row on.
  ends :
      (t : Ledger) (x : Decision)
      → outcome (update_item item.id closing >>= λ _. read_decision handle) t ≡ ok x
      → get_item item.id t ≡ some item
      → ((update_item item.id closing >>= λ _. read_decision handle) t).1
          ≡ closed_in item.id closing t
        × (find (decision_is handle) t.decisions ≡ some x)
  ends t x h g =
      let (u, a, h1) = bind-ok (update_item item.id closing) (λ _. read_decision handle) t x h in
      let q = updated item.id closing t item g a in
      let (f, k) =
        read-found handle (closed_in item.id closing t) x
          (subst (λ v. outcome (read_decision handle) v ≡ ok x) (ap (λ p. p.1) q) h1) in
      (
        ap (λ p. p.1) (after-bind (update_item item.id closing) (λ _. read_decision handle) t u a)
            ∙ ap (λ v. after (read_decision handle) v) (ap (λ p. p.1) q)
            ∙ k,
        f,
      )

  admitted-inserted :
      (release : Option String) (x : Decision)
      → outcome (write_admitted item d release) s ≡ ok x
      → write_admitted item d release s
        ≡ (update_item item.id closing >>= λ _. read_decision handle)
            (ledger_with item.id d release s)
  unfolding write_admitted apply_resolution
  admitted-inserted release x h =
      let row = decision_row item.id d release s.clock in
      let (n, a, h1) = bind-ok (insert_decision row) _ s x h in
      after-bind (insert_decision row) _ s n a
      ∙ ap
          (λ v.
            (apply_resolution (is_legacy_remark_target item) (resolution_for d.kind) item.id n
                >>= λ _. read_decision n)
              v)
          (ap (λ p. p.1) (inserted row s n a))
      ∙ ap
          (λ m.
            (apply_resolution (is_legacy_remark_target item) (resolution_for d.kind) item.id m
                >>= λ _. read_decision m)
              (ledger_with item.id d release s))
          (inserted-id row s n a)
      ∙ ap
          (λ b.
            (apply_resolution b (resolution_for d.kind) item.id handle >>= λ _.
            read_decision handle)
              (ledger_with item.id d release s))
          ordinary
      ∙ ap
          (λ o.
            (apply_resolution false o item.id handle >>= λ _. read_decision handle)
              (ledger_with item.id d release s))
          terminal

  pub get_closed :
      (t : Ledger)
      → get_item item.id t ≡ some item
      → get_item item.id (closed_in item.id closing t) ≡ some (closing item)
  get_closed t g = rw (
    find-update_item item.id closing (close_terminal-keeps r handle s.clock) item.id t.items,
    g,
    find_sound (item_is item.id) t.items item g,
  )

  -- The ledger that such a decision leaves, and the row that it returns.
  pub write_decision-left :
      (x : Decision)
      → outcome (write_decision item d) s ≡ ok x
      → (release : Option String) × (outcome (resolve_decision_release item.id d.release_digest) s
          ≡ ok release)
        × (x ≡ decision_row item.id d release s.clock handle)
        × (after (write_decision item d) s
            ≡ closed_in item.id closing (ledger_with item.id d release s))
  write_decision-left x h =
      let (release, bound, e) = written-admitted item d s x h in
      let t = ledger_with item.id d release s in
      let row = decision_row item.id d release s.clock handle in
      let e2 = admitted-inserted release x (sym (ap (λ p. p.0) e) ∙ h) in
      let e3 = e ∙ e2 in
      let (left, f) = ends t x (sym (ap (λ p. p.0) e3) ∙ h) found in
      (
        release,
        bound,
        sym (some-injective row x (sym (found_last s.last.decision s.decisions row ids refl) ∙ f)),
        ap (λ p. p.1) e3 ∙ left,
      )

  -- The row of the decision, and the item once it is closed, written out.
  abbrev pub decided_row : Option String → Decision
  decided_row release = record {
    id = s.last.decision + 1;
    kind = d.kind;
    work_item_id = item.id;
    release_digest = release;
    evidence_digests = d.evidence_digests;
    rationale = d.rationale;
    actor = d.actor;
    superseded_by_item_id = d.superseded_by_item_id;
    created_at = s.clock;
  }

  abbrev pub closed_item : Item
  closed_item = record {
    id = item.id;
    track_id = item.track_id;
    sprint_id = item.sprint_id;
    title = item.title;
    description = item.description;
    status = Status.done;
    assignee = item.assignee;
    priority = item.priority;
    aggregate_uuid = item.aggregate_uuid;
    created_at = item.created_at;
    updated_at = s.clock;
    resolution = some r;
    terminal_decision_id = some (s.last.decision + 1);
    legacy = item.legacy;
  }
