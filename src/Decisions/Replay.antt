-- ===== src/Decisions/Replay.antt =====
-- When a repeated request replays the decision that is stored under its key.
use sprintctl.Prelude.{
  ℕ, ◌≡◌, ◌↔◌, String, false, Option, none, some, arith, inl, inr, refl, ◌⊎◌, string_eq, option_eq,
  list_eq, nat_eq, eq_of_beq, beq_refl, Option-cases,
}
use sprintctl.Domain.{Decision, kind_eq}
use sprintctl.Ledger.{Fault, ok, err}
use sprintctl.Decisions.{Request, replay_mismatch, replay_or_conflict, release_differs}

-- The stored decision is about the item and says what the request says; the release is compared
-- only when the request names one.
pub record Repeats (stored : Decision) (item_id : ℕ) (decision : Request) : Type 0 where
  pub item : stored.work_item_id ≡ item_id
  pub kind : stored.kind ≡ decision.kind
  pub actor : stored.actor ≡ decision.actor
  pub rationale : stored.rationale ≡ decision.rationale
  pub evidence : stored.evidence_digests ≡ decision.evidence_digests
  pub successor : stored.superseded_by_item_id ≡ decision.superseded_by_item_id
  pub release : (decision.release_digest ≡ none) ⊎ (stored.release_digest ≡ decision.release_digest)

release_differs_iff :
    (stored asked : Option String)
    → (release_differs stored asked ≡ false) ↔ ((asked ≡ none) ⊎ (stored ≡ asked))
release_differs_iff stored none = (λ _. inl refl, λ _. refl)
release_differs_iff stored (some d) = (
  λ h. inr (eq_of_beq stored (some d) (ground arith)),
  λ h. elim h [ inl e ↦ cc | inr e ↦ rw (e, beq_refl (some d)) refl ],
)

module _ (stored : Decision) (item_id : ℕ) (decision : Request) where
  mismatch-none : replay_mismatch stored item_id decision ≡ none → Repeats stored item_id decision
  unfolding replay_mismatch
  mismatch-none h = record {
    item = eq_of_beq stored.work_item_id item_id (ground arith);
    kind = eq_of_beq stored.kind decision.kind (ground arith);
    actor = eq_of_beq stored.actor decision.actor (ground arith);
    rationale = eq_of_beq stored.rationale decision.rationale (ground arith);
    evidence = eq_of_beq stored.evidence_digests decision.evidence_digests (ground arith);
    successor =
        eq_of_beq stored.superseded_by_item_id decision.superseded_by_item_id (ground arith);
    release = (release_differs_iff stored.release_digest decision.release_digest).0 (ground arith);
  }

  none-mismatch : Repeats stored item_id decision → replay_mismatch stored item_id decision ≡ none
  unfolding replay_mismatch
  none-mismatch r = rw (
    r.item,
    r.kind,
    r.actor,
    r.rationale,
    r.evidence,
    r.successor,
    beq_refl item_id,
    beq_refl decision.kind,
    beq_refl decision.actor,
    beq_refl decision.rationale,
    beq_refl decision.evidence_digests,
    beq_refl decision.superseded_by_item_id,
    (release_differs_iff stored.release_digest decision.release_digest).1 r.release,
  )

  -- A stored decision answers a request exactly when it repeats it; any other request under the
  -- key is refused with a conflict.
  pub replay_or_conflict_iff :
      ((replay_or_conflict (some stored) item_id decision ≡ ok (some stored))
        ↔ Repeats stored item_id decision)
      × (¬ Repeats stored item_id decision
          → (why : String) × (replay_or_conflict (some stored) item_id decision
              ≡ err (Fault.idempotency_conflict why)))
  unfolding replay_or_conflict
  replay_or_conflict_iff = (
    (λ h. mismatch-none (ground arith), λ r. rw (none-mismatch r)),
    λ n. elim (Option-cases (replay_mismatch stored item_id decision)) [
      | inl e ↦ absurd (n (mismatch-none e))
      | inr (why, e) ↦ (why, rw e)
    ],
  )
