-- ===== src/WorkItems/Repeated.antt =====
-- A keyed decision that is recorded, then asked for again.
use sprintctl.Prelude.{
  ℕ, ◌+◌, ◌≤◌, ◌≡◌, refl, sym, ap, subst, ◌∙◌, Bool, true, false, ◌&&◌, Option, none, some, List,
  [], ◌∷◌, ◌++◌, All, any, find, find_sound, String, arith, nat_eq, string_eq, ◌==◌, beq_refl,
  eq_of_beq, ◌⊎◌, inl, inr, if◌then◌else◌,
}
use mathlib.Core.List.{append-nil}
use sprintctl.Domain.{Resolution, Item, Decision, Event, Payload, resolution_for}
use sprintctl.Ledger.{
  Fault, Ledger, Action, ok, err, outcome, after, bind-ok, after-bind, ◌>>=◌, pure, transaction,
  transaction-ok, ◌>>◌,
}
use sprintctl.Decisions.{
  Request, replay_or_conflict, is_legacy_remark_target, normalize_decision,
  validate_idempotency_key,
}
use sprintctl.Decisions.Replay.{Repeats}
use sprintctl.Schema.{item_is, decision_is}
use sprintctl.Schema.Statements.{get_item, insert_event, new_event, with_event_added}
use sprintctl.Releases.{resolve_decision_release}
use sprintctl.WorkItems.Basics.{validate_item_status_revision, item_status_revision}
use sprintctl.WorkItems.Decide.{
  decision_row, write_decision, check_revision, keyed_decision, event_decision,
  decided_event_payload, record_fresh, record_locked, replay, answer, record_decision_keyed,
}
use sprintctl.WorkItems.Replay.{record_decision_keyed-replay, locked-answer}
use sprintctl.WorkItems.Closes.{
  write_decision-left, closing, closed_in, ledger_with, found_last, get_closed,
}

-- The event of a decision that was recorded under the key.
abbrev payload_carries : String → Payload → Bool
payload_carries key (Payload.decided n kind resolution release remark (some k)) = k == key
payload_carries key _ = false

abbrev pub carries : String → Event → Bool
carries key e = e.event_type == "item-decided" && payload_carries key e.payload

unused_payload :
    (ds : List Decision) (key : String) (e : Event)
    → carries key e ≡ false
    → event_decision ds key e ≡ none
unused_payload ds key e h = ground arith

keyed_decision-skip :
    (ds : List Decision) (key : String) (e : Event) (es : List Event)
    → event_decision ds key e ≡ none
    → keyed_decision ds key (e ∷ es) ≡ keyed_decision ds key es
unfolding keyed_decision
keyed_decision-skip ds key e es h = rw (h, keyed_decision) refl

keyed_decision-unused :
    (ds : List Decision) (key : String) (es rest : List Event)
    → any (carries key) es ≡ false
    → keyed_decision ds key (es ++ rest) ≡ keyed_decision ds key rest
keyed_decision-unused ds key [] rest h = refl
keyed_decision-unused ds key (e ∷ es) rest h =
    keyed_decision-skip ds key e (es ++ rest) (unused_payload ds key e (ground arith))
    ∙ keyed_decision-unused ds key es rest (ground arith)

chosen : {A : Type 0} (b : Bool) (x y : A) (e : Fault) → (if b then ok x else err e) ≡ ok y → y ≡ x
chosen true x y e h = cc (h)
chosen false x y e h = cc

keyed_decision-last :
    (ds : List Decision) (key : String) (e : Event) (x : Decision)
    → event_decision ds key e ≡ some x
    → keyed_decision ds key (e ∷ []) ≡ some x
unfolding keyed_decision
keyed_decision-last ds key e x h = rw (h, keyed_decision) refl

-- A release that a request names is the one that its decision binds.
release-bound :
    (n : ℕ) (o release : Option String) (s : Ledger)
    → outcome (resolve_decision_release n o) s ≡ ok release
    → (o ≡ none) ⊎ (release ≡ o)
unfolding resolve_decision_release
release-bound n none release s h = inl refl
release-bound n (some digest) release s h = inr (chosen _ (some digest) release _ h)

check_revision-same :
    (x : Option String) (c : String) (s : Ledger) → after (check_revision x c) s ≡ s
check_revision-same x c s = ground arith

module _ (n : ℕ) (k : String) (s : Ledger) (d : Request) (item : Item) (r : Resolution)
    (found : get_item n s ≡ some item) (ids : All (λ x. x.id ≤ s.last.decision) s.decisions)
    (ordinary : is_legacy_remark_target item ≡ false) (terminal : resolution_for d.kind ≡ some r)
    (unused : any (carries k) s.events ≡ false) where
  own_id : item.id ≡ n
  own_id = eq_of_beq item.id n (find_sound (item_is n) s.items item found)

  found_here : get_item item.id s ≡ some item
  found_here = ap (λ m. get_item m s) own_id ∙ found

  -- What recording leaves: the decision under its key, and the item to be found.
  pub record Recorded (x : Decision) (t : Ledger) : Type 0 where
    pub under_key : keyed_decision t.decisions k t.events ≡ some x
    pub repeats : Repeats x n d
    pub closed : (i : Item) × (get_item n t ≡ some i)

  abbrev audit : Decision → Payload
  audit x = decided_event_payload x (some k) (is_legacy_remark_target item)

  abbrev told : Decision → Action (Decision × Bool)
  told y = do
    insert_event item.sprint_id d.actor "item-decided" "actor" (some item.id) (audit y)
    pure (y, false)

  abbrev ends_with : Option String → Decision → Ledger
  ends_with release x =
      with_event_added
        (new_event (s.last.event + 1) item.sprint_id d.actor "item-decided" "actor" (some item.id)
          (audit x) s.clock)
        (closed_in item.id (closing item d r s found_here ids ordinary terminal)
          (ledger_with item.id d release s))

  recorded :
      (release : Option String) (x : Decision)
      → outcome (resolve_decision_release item.id d.release_digest) s ≡ ok release
      → x ≡ decision_row item.id d release s.clock (s.last.decision + 1)
      → Recorded x (ends_with release x)
  recorded release x bound row = record {
    under_key =
        let rows =
          s.decisions ++ decision_row item.id d release s.clock (s.last.decision + 1) ∷ [] in
        keyed_decision-unused rows k s.events _ unused
        ∙ keyed_decision-last rows k _ x (
            rw (beq_refl k) (
              ap (λ m. find (decision_is m) rows) (ap (λ q. q.id) row)
              ∙ found_last s.last.decision s.decisions
                  (decision_row item.id d release s.clock (s.last.decision + 1)) ids refl
              ∙ ap some (sym row)));
    repeats = record {
      item = ap (λ q. q.work_item_id) row ∙ own_id;
      kind = ap (λ q. q.kind) row;
      actor = ap (λ q. q.actor) row;
      rationale = ap (λ q. q.rationale) row;
      evidence = ap (λ q. q.evidence_digests) row;
      successor = ap (λ q. q.superseded_by_item_id) row;
      release = elim (release-bound item.id d.release_digest release s bound) [
        | inl e ↦ inl e
        | inr e ↦ inr (ap (λ q. q.release_digest) row ∙ e)
      ];
    };
    closed = (
      closing item d r s found_here ids ordinary terminal item,
      ap (λ m. get_item m (ends_with release x)) (sym own_id)
          ∙ get_closed item d r s found_here ids ordinary terminal (ledger_with item.id d release s)
              found_here,
    );
  }

  record_fresh-Recorded :
      (expected : Option String) (p : Decision × Bool)
      → outcome (record_fresh item d (some k) expected) s ≡ ok p
      → Recorded p.0 (after (record_fresh item d (some k) expected) s)
  unfolding record_fresh insert_event
  record_fresh-Recorded expected p h =
      let basis = check_revision expected (item_status_revision item) in
      let (u, current, h1) = bind-ok basis _ s p h in
      let same = check_revision-same expected (item_status_revision item) s in
      let (y, written, h2) =
        bind-ok (write_decision item d) told s p
          (subst (λ v. outcome (write_decision item d >>= told) v ≡ ok p) same h1) in
      let (release, bound, row, left) =
        write_decision-left item d r s found_here ids ordinary terminal y written in
      let answered : y ≡ p.0 = cc (h2) in
      let whole : after (record_fresh item d (some k) expected) s ≡ ends_with release y =
        ap (λ q. q.1) (after-bind basis _ s u current)
        ∙ ap (after (write_decision item d >>= told)) same
        ∙ ap (λ q. q.1) (after-bind (write_decision item d) told s y written)
        ∙ ap (after (told y)) left in
      subst (λ q. Recorded q (after (record_fresh item d (some k) expected) s)) answered
        (subst (Recorded y) (sym whole) (recorded release y bound row))

module _ (n : ℕ) (kind actor rationale : String) (digests : List String) (release : Option String)
    (successor : Option ℕ) (expected again : Option String) (k : String) (s : Ledger) (d : Request)
    (item : Item) (r : Resolution)
    (normal : normalize_decision kind actor rationale digests release successor ≡ ok d)
    (key : validate_idempotency_key (some k) ≡ ok (some k))
    (basis : validate_item_status_revision expected ≡ ok expected)
    (later : validate_item_status_revision again ≡ ok again) (found : get_item n s ≡ some item)
    (ids : All (λ x. x.id ≤ s.last.decision) s.decisions)
    (ordinary : is_legacy_remark_target item ≡ false) (terminal : resolution_for d.kind ≡ some r)
    (unused : any (carries k) s.events ≡ false) where
  abbrev request : Option String → Action (Decision × Bool)
  request x = record_decision_keyed n kind actor rationale digests release successor x (some k)

  reduced : request expected s ≡ transaction (record_locked n d (some k) expected) s
  unfolding record_decision_keyed
  reduced = rw (normal, key, basis)

  fresh : record_locked n d (some k) expected s ≡ record_fresh item d (some k) expected s
  unfolding replay_or_conflict keyed_decision
  fresh =
      let none_yet : keyed_decision s.decisions k s.events ≡ none =
        ap (keyed_decision s.decisions k) (sym (append-nil s.events))
        ∙ keyed_decision-unused s.decisions k s.events [] unused in
      locked-answer n d k expected s item found
      ∙ after-bind (λ t. (replay (some k) n d t, t)) (answer item d (some k) expected) s none
          (ap (λ o. replay_or_conflict o n d) none_yet)

  request-Recorded :
      (p : Decision × Bool)
      → outcome (request expected) s ≡ ok p
      → Recorded n k s d item r found ids ordinary terminal unused p.0 (after (request expected) s)
  request-Recorded p h =
      let body = record_locked n d (some k) expected in
      let (done, left) = transaction-ok body s p (sym (ap (λ q. q.0) reduced) ∙ h) in
      subst (Recorded n k s d item r found ids ordinary terminal unused p.0)
        (sym (ap (λ q. q.1) reduced ∙ left ∙ ap (λ q. q.1) fresh))
        (record_fresh-Recorded n k s d item r found ids ordinary terminal unused expected p
          (sym (ap (λ q. q.0) fresh) ∙ done))

  -- A request for a terminal decision, on an item that is no legacy re-mark and under a key that no
  -- event carries, in a ledger whose decision ids are at most the last one given: once it has
  -- returned, the same request, with any valid expected revision, returns the same decision, marked
  -- as a replay, and writes nothing.
  pub record_decision_keyed-repeated :
      (p : Decision × Bool)
      → outcome (request expected) s ≡ ok p
      → request again (after (request expected) s) ≡ (ok (p.0, true), after (request expected) s)
  record_decision_keyed-repeated p h =
      let q = request-Recorded p h in
      (record_decision_keyed-replay n kind actor rationale digests release successor again k
          (after (request expected) s) d p.0 q.closed.0 normal key later q.closed.1 q.under_key).0
        q.repeats
