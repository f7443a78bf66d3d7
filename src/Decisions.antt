-- ===== src/Decisions.antt =====
-- sprintctl/decisions.py: validation of a decision request, the rule that says which decision an
-- item accepts, and the comparison of a repeated request with the decision that it recorded.
-- The isinstance tests of the source hold by typing; messages that print values are shortened.
pub mod Normalize
pub mod Admission
pub mod Replay
use sprintctl.Prelude.{
  ℕ, zero, suc, ◌++◌, String, Bool, true, false, not, ◌&&◌, ◌||◌, Option, none, some, List, [], ◌∷◌,
  ltb, leb, ◌==◌, nat_eq, string_eq, option_eq, list_eq, if◌then◌else◌, length, contains,
}
use sprintctl.Prelude.Text.{len, strip, is_empty, is_blank, has_nul, is_hex_text}
use sprintctl.Domain.{
  Status, Kind, Resolution, Item, Decision, status_eq, kind_eq, kind_text, is_terminal,
  resolution_for,
}
use sprintctl.Ledger.{Fault, Outcome, ok, err}

abbrev pub max_evidence_digests : ℕ
max_evidence_digests = 64

abbrev pub max_rationale_length : ℕ
max_rationale_length = 4000

abbrev pub max_idempotency_key_length : ℕ
max_idempotency_key_length = 200

infixl 10 ◌>>=◌
abbrev pub ◌>>=◌ {ℓ κ} : {A : Type ℓ} {B : Type κ} → Outcome A → (A → Outcome B) → Outcome B
ok a >>= f = f a
err e >>= f = err e

-- The canonical form of a decision request.
pub record Request : Type 0 where
  pub kind : Kind
  pub rationale : String
  pub evidence_digests : List String
  pub release_digest : Option String
  pub actor : String
  pub superseded_by_item_id : Option ℕ

-- The subject-independent part.
pub record Fields : Type 0 where
  pub kind : Kind
  pub rationale : String
  pub evidence_digests : List String
  pub release_digest : Option String

-- `kind in DECISION_KINDS`
unfoldable pub parse_kind : String → Option Kind
parse_kind s =
    if s == "accept"
    then some Kind.accept
    else if s == "reject"
    then some Kind.reject
    else if s == "withdraw"
    then some Kind.withdraw
    else if s == "supersede"
    then some Kind.supersede
    else if s == "revise"
    then some Kind.revise
    else none

abbrev pub is_digest : String → Bool
is_digest = is_hex_text 64

-- The loop over `evidence_digests`; `digests` is the list built so far.
unfoldable pub collect_digests : List String → List String → Outcome (List String)
collect_digests digests [] = ok digests
collect_digests digests (d ∷ ds) =
    let rest = collect_digests (if contains digests d then digests else digests ++ d ∷ []) ds in
    if is_digest d
    then rest
    else err (Fault.value_error "evidence digests must be 64 lowercase hexadecimal characters")

abbrev is_digest_or_none : Option String → Bool
is_digest_or_none none = true
is_digest_or_none (some d) = is_digest d

abbrev check : Bool → String → Outcome (Unit {0})
check true message = ok tt
check false message = err (Fault.value_error message)

abbrev known_kind : Option Kind → Outcome Kind
known_kind none = err (Fault.value_error "unknown decision kind")
known_kind (some k) = ok k

unfoldable pub normalize_decision_fields :
    (kind rationale : String) → List String → Option String → Outcome Fields
normalize_decision_fields kind rationale evidence_digests release_digest =
    known_kind (parse_kind kind) >>= λ k.
    check (not (has_nul rationale)) "decision rationale must not contain NUL characters" >>= λ _.
    check (leb (len rationale) max_rationale_length) "decision rationale is too long" >>= λ _.
    collect_digests [] evidence_digests >>= λ digests.
    check (leb (length digests) max_evidence_digests) "too many evidence digests" >>= λ _.
    check (is_digest_or_none release_digest)
      "release_digest must be 64 lowercase hexadecimal characters"
    >>= λ _. ok (record {
      kind = k;
      rationale = rationale;
      evidence_digests = digests;
      release_digest = release_digest;
    })

-- The test on `superseded_by_item_id`: named exactly by a supersede decision, and at least 1.
abbrev successor_fits : Kind → Option ℕ → Bool
successor_fits Kind.supersede none = false
successor_fits Kind.supersede (some n) = leb 1 n
successor_fits _ none = true
successor_fits _ (some n) = false

unfoldable pub normalize_decision :
    (kind actor rationale : String) → List String → Option String → Option ℕ → Outcome Request
unfolding normalize_decision_fields
normalize_decision kind actor rationale evidence_digests release_digest superseded_by =
    normalize_decision_fields kind rationale evidence_digests release_digest >>= λ fields.
    check (not (is_blank actor)) "decision actor must be a non-empty string" >>= λ _.
    check (not (has_nul actor)) "decision actor must not contain NUL characters" >>= λ _.
    check (successor_fits fields.kind superseded_by)
      "exactly a supersede decision names the superseding item"
    >>= λ _. ok (record {
      kind = fields.kind;
      rationale = fields.rationale;
      evidence_digests = fields.evidence_digests;
      release_digest = fields.release_digest;
      actor = strip actor;
      superseded_by_item_id = superseded_by;
    })

-- Why `kind` cannot be decided on an item in a status, or `none`.
unfoldable pub transition_error : Kind → Status → Option String
transition_error kind current =
    if current == Status.done
    then some "item is terminal; it accepts no further decisions"
    else if kind == Kind.accept && not (current == Status.active)
    then some "an accept decision requires an active item"
    else none

unfoldable pub is_legacy_remark_target : Item → Bool
is_legacy_remark_target item =
    item.status == Status.done && item.legacy && item.terminal_decision_id == none

abbrev pub closes_without_acceptance : Kind → Bool
closes_without_acceptance Kind.reject = true
closes_without_acceptance Kind.withdraw = true
closes_without_acceptance Kind.supersede = true
closes_without_acceptance _ = false

abbrev ordinary_error : Option String → Request → Option String
ordinary_error (some e) decision = some e
ordinary_error none decision =
    if closes_without_acceptance decision.kind && is_blank decision.rationale
    then some "the decision requires a non-empty rationale"
    else none

abbrev pub is_nil {ℓ} : {A : Type ℓ} → List A → Bool
is_nil [] = true
is_nil (x ∷ xs) = false

unfoldable pub decision_error : Item → Request → Option String
unfolding transition_error is_legacy_remark_target
decision_error item decision =
    if not (is_legacy_remark_target item)
    then ordinary_error (transition_error decision.kind item.status) decision
    else if not (is_terminal decision.kind)
    then some "only a terminal decision can re-mark a legacy item"
    else if is_blank decision.rationale || is_nil decision.evidence_digests
    then some "re-marking needs a rationale and at least one evidence digest"
    else none

unfoldable pub validate_idempotency_key : Option String → Outcome (Option String)
validate_idempotency_key none = ok none
validate_idempotency_key (some key) =
    if is_blank key
    then err (Fault.value_error "idempotency key must be a non-empty string")
    else if has_nul key
    then err (Fault.value_error "idempotency key must not contain NUL characters")
    else if ltb max_idempotency_key_length (len key)
    then err (Fault.value_error "idempotency key is too long")
    else ok (some key)

-- A request that named no release accepts whichever release the original bound.
abbrev release_differs : Option String → Option String → Bool
release_differs stored none = false
release_differs stored (some d) = not (stored == some d)

unfoldable pub replay_mismatch : Decision → ℕ → Request → Option String
replay_mismatch stored item_id decision =
    if not (stored.work_item_id == item_id)
    then some "it decided another item"
    else if not (stored.kind == decision.kind)
    then some "its kind differs"
    else if not (stored.actor == decision.actor)
    then some "its actor differs"
    else if not (stored.rationale == decision.rationale)
    then some "its rationale differs"
    else if not (stored.evidence_digests == decision.evidence_digests)
    then some "its evidence_digests differs"
    else if not (stored.superseded_by_item_id == decision.superseded_by_item_id)
    then some "its superseded_by_item_id differs"
    else if release_differs stored.release_digest decision.release_digest
    then some "its release_digest differs"
    else none

abbrev replayed : Decision → Option String → Outcome (Option Decision)
replayed stored none = ok (some stored)
replayed stored (some reason) = err (Fault.idempotency_conflict reason)

unfoldable pub replay_or_conflict : Option Decision → ℕ → Request → Outcome (Option Decision)
unfolding replay_mismatch
replay_or_conflict none item_id decision = ok none
replay_or_conflict (some stored) item_id decision =
    replayed stored (replay_mismatch stored item_id decision)
