-- ===== src/WorkItems/Replay.antt =====
-- A repeated keyed decision.
use sprintctl.Prelude.{ℕ, ◌≡◌, ◌∙◌, true, Option, some, String, List}
use sprintctl.Domain.{Item, Decision}
use sprintctl.Ledger.{Fault, Ledger, ok, err, transaction, ◌>>=◌}
use sprintctl.Decisions.{Request, normalize_decision, validate_idempotency_key}
use sprintctl.Decisions.Replay.{Repeats, replay_or_conflict_iff}
use sprintctl.Schema.Statements.{get_item}
use sprintctl.WorkItems.Basics.{validate_item_status_revision}
use sprintctl.WorkItems.Decide.{
  lock_item, replay, answer, keyed_decision, record_locked, record_decision_keyed,
}

module _ (n : ℕ) (d : Request) (k : String) (x : Option String) (s : Ledger) (item : Item)
    (found : get_item n s ≡ some item) where
  pub locked-answer :
      record_locked n d (some k) x s
      ≡ ((λ t. (replay (some k) n d t, t)) >>= answer item d (some k) x) s
  unfolding record_locked
  locked-answer = rw (found, lock_item)

  locked-replayed :
      (stored : Decision)
      → replay (some k) n d s ≡ ok (some stored)
      → transaction (record_locked n d (some k) x) s ≡ (ok (stored, true), s)
  unfolding transaction
  locked-replayed stored h = rw (locked-answer, h)

  locked-refused :
      (e : Fault)
      → replay (some k) n d s ≡ err e
      → transaction (record_locked n d (some k) x) s ≡ (err e, s)
  unfolding transaction
  locked-refused e h = rw (locked-answer, h)

module _ (n : ℕ) (kind actor rationale : String) (digests : List String) (release : Option String)
    (successor : Option ℕ) (expected : Option String) (k : String) (s : Ledger) (d : Request)
    (stored : Decision) (item : Item)
    (normal : normalize_decision kind actor rationale digests release successor ≡ ok d)
    (key : validate_idempotency_key (some k) ≡ ok (some k))
    (basis : validate_item_status_revision expected ≡ ok expected)
    (found : get_item n s ≡ some item)
    (recorded : keyed_decision s.decisions k s.events ≡ some stored) where
  reduced :
      record_decision_keyed n kind actor rationale digests release successor expected (some k) s
      ≡ transaction (record_locked n d (some k) expected) s
  unfolding record_decision_keyed
  reduced = rw (normal, key, basis)

  -- A valid request whose key has recorded a decision writes nothing, whatever its expected revision
  -- and the item's status now are: it returns the stored decision, marked as a replay, if it repeats
  -- it, and is refused as a conflict otherwise.
  pub record_decision_keyed-replay :
      (Repeats stored n d
        → record_decision_keyed n kind actor rationale digests release successor expected (some k) s
          ≡ (ok (stored, true), s))
      × (¬ Repeats stored n d
          → (why : String) × (record_decision_keyed n kind actor rationale digests release successor
                expected
                (some k)
                s
              ≡ (err (Fault.idempotency_conflict why), s)))
  record_decision_keyed-replay =
      let (same, other) = replay_or_conflict_iff stored n d in
      (
        λ r.
            reduced
            ∙ locked-replayed n d k expected s item found stored (rw (recorded, replay) (same.1 r)),
        λ r.
            let (why, e) = other r in
            (
              why,
              reduced
                  ∙ locked-refused n d k expected s item found (Fault.idempotency_conflict why)
                      (rw (recorded, replay) e),
            ),
      )
