-- ===== src/WorkItems/Admission.antt =====
-- When a status transition goes through, and what a failed operation leaves.
use sprintctl.Prelude.{
  ℕ, ◌≡◌, refl, subst, Bool, true, false, Option, none, some, String, arith, ◌⊎◌, inl, inr, All,
  List, [], ◌∷◌, select, string_eq, eq_of_beq,
}
use sprintctl.Domain.{Status, Reason, Item, status_eq}
use sprintctl.Ledger.{
  Fault, Ledger, ok, err, outcome, after, transaction-ok, transaction-atomic, bind-ok, lift-atomic,
  lift,
}
use sprintctl.Decisions.{normalize_decision, validate_idempotency_key}
use sprintctl.Schema.Statements.{get_item}
use sprintctl.Deps.{list_deps_blocking, unresolved, Blocker}
use sprintctl.WorkItems.Basics.{item_status_revision, validate_item_status_revision}
use sprintctl.WorkItems.Decide.{lock_item, check_revision, record_decision_keyed, record_locked}
use sprintctl.WorkItems.Status.{
  may_become, reason_fits, guard, check_blockers, set_status_locked, set_work_item_status,
  is_resolved,
}

-- An optional basis is absent, or is the current revision.
abbrev pub IsBasis : Option String → String → Type 0
IsBasis expected current = (expected ≡ none) ⊎ (expected ≡ some current)

abbrev pub IsResolved : Ledger → ℕ → Type 0
IsResolved s n = All (λ b. b.blocker_status ≡ Status.done) (list_deps_blocking n s)

-- What a transition that went through found.
pub record Admitted (s : Ledger) (n : ℕ) (st : Status) (expected : Option String)
    (reason : Option Reason) : Type 0 where
  pub item : Item
  pub found : get_item n s ≡ some item
  pub allowed : may_become item.status st ≡ true
  pub basis : IsBasis expected (item_status_revision item)
  pub reasoned : reason_fits st reason ≡ true
  pub unblocked : st ≡ Status.active → IsResolved s n

check_revision-ok :
    (e : Option String) (c : String) (s : Ledger)
    → outcome (check_revision e c) s ≡ ok tt
    → IsBasis e c
check_revision-ok none c s h = inl refl
check_revision-ok (some r) c s h = inr (rw (eq_of_beq r c (ground arith)))

guard-ok : (b : Bool) (m : String) (s : Ledger) → outcome (guard b m) s ≡ ok tt → b ≡ true
guard-ok true m s h = refl
guard-ok false m s h = cc

All-unresolved :
    (bs : List Blocker)
    → is_resolved (unresolved bs) ≡ true
    → All (λ b. b.blocker_status ≡ Status.done) bs
unfolding select
All-unresolved [] h = tt
All-unresolved (b ∷ bs) h = (ground arith, All-unresolved bs (ground arith))

check_blockers-ok :
    (n : ℕ) (st : Status) (s : Ledger)
    → outcome (check_blockers n st) s ≡ ok tt
    → st ≡ Status.active
    → IsResolved s n
unfolding check_blockers
check_blockers-ok n Status.active s h e =
    All-unresolved (list_deps_blocking n s)
      (guard-ok (is_resolved (unresolved (list_deps_blocking n s))) _ s h)
check_blockers-ok n Status.pending s h e = cc
check_blockers-ok n Status.done s h e = cc
check_blockers-ok n Status.blocked s h e = cc

lock_item-ok :
    (n : ℕ) (s : Ledger) (i : Item) → outcome (lock_item n) s ≡ ok i → get_item n s ≡ some i
lock_item-ok n s i h = ground arith

-- These only read.
lock_item-after : (n : ℕ) (s : Ledger) → after (lock_item n) s ≡ s
lock_item-after n s = ground arith

check_revision-after :
    (e : Option String) (c : String) (s : Ledger) → after (check_revision e c) s ≡ s
check_revision-after e c s = ground arith

guard-after : (b : Bool) (m : String) (s : Ledger) → after (guard b m) s ≡ s
guard-after b m s = ground arith

check_blockers-after : (n : ℕ) (st : Status) (s : Ledger) → after (check_blockers n st) s ≡ s
unfolding check_blockers
check_blockers-after n st s = ground arith

validated : (e x : Option String) → validate_item_status_revision e ≡ ok x → x ≡ e
unfolding validate_item_status_revision
validated e x h = ground arith

module _ (n : ℕ) (st : Status) (actor expected : Option String) (reason : Option Reason)
    (session : Option String) (s : Ledger) where
  locked-Admitted :
      outcome (set_status_locked n st actor expected reason session) s ≡ ok tt
      → Admitted s n st expected reason
  unfolding set_status_locked
  locked-Admitted h =
      let (item, a, h1) = bind-ok (lock_item n) _ s tt h in
      let (u1, b, h2) =
        bind-ok (check_revision expected (item_status_revision item)) _ s tt
          (rw (lock_item-after n s) at h1) in
      let (u2, c, h3) =
        bind-ok (guard (may_become item.status st) "transition not allowed") _ s tt
          (rw (check_revision-after expected (item_status_revision item) s) at h2) in
      let (u3, d, h4) =
        bind-ok (guard (reason_fits st reason) "a reason goes exactly with a move to pending") _ s
          tt (rw (guard-after (may_become item.status st) "transition not allowed" s) at h3) in
      let (u4, e, h5) = bind-ok (check_blockers n st) _ s tt (
        rw (guard-after (reason_fits st reason) "a reason goes exactly with a move to pending" s) at
          h4) in
      record {
        item = item;
        found = lock_item-ok n s item a;
        allowed = guard-ok (may_become item.status st) "transition not allowed" s c;
        basis = check_revision-ok expected (item_status_revision item) s b;
        reasoned = guard-ok (reason_fits st reason) _ s d;
        unblocked = check_blockers-ok n st s e;
      }

  -- A status transition that returns found its item, moved along an edge of VALID_TRANSITIONS, was
  -- given no revision or the current one, a reason exactly for a move to pending, and, for a move to
  -- active, only blockers that are done.
  pub set_work_item_status-Admitted :
      outcome (set_work_item_status n st actor expected reason session) s ≡ ok tt
      → Admitted s n st expected reason
  unfolding set_work_item_status
  set_work_item_status-Admitted h =
      let (e, valid, h1) = bind-ok (lift (validate_item_status_revision expected)) _ s tt h in
      let (h2, _) = transaction-ok (set_status_locked n st actor e reason session) s tt h1 in
      locked-Admitted (
        subst (λ x. outcome (set_status_locked n st actor x reason session) s ≡ ok tt)
          (validated expected e valid) h2)

  -- A status transition that raises leaves the ledger as it was.
  pub set_work_item_status-atomic :
      (e : Fault)
      → outcome (set_work_item_status n st actor expected reason session) s ≡ err e
      → after (set_work_item_status n st actor expected reason session) s ≡ s
  unfolding set_work_item_status
  set_work_item_status-atomic e h =
      lift-atomic (validate_item_status_revision expected) _ s e
        (λ x f. transaction-atomic (set_status_locked n st actor x reason session) s f) h

-- A decision that raises leaves the ledger as it was.
pub record_decision_keyed-atomic :
    (n : ℕ) (kind actor rationale : String) (digests : List String) (release : Option String)
    (successor : Option ℕ) (expected key : Option String) (s : Ledger) (e : Fault)
    → outcome
        (record_decision_keyed n kind actor rationale digests release successor expected key)
        s
      ≡ err e
    → after (record_decision_keyed n kind actor rationale digests release successor expected key) s
      ≡ s
unfolding record_decision_keyed
record_decision_keyed-atomic n kind actor rationale digests release successor expected key s e h =
    lift-atomic (normalize_decision kind actor rationale digests release successor) _ s e
      (λ d e1 h1.
        lift-atomic (validate_idempotency_key key) _ s e1
          (λ k e2 h2.
            lift-atomic (validate_item_status_revision expected) _ s e2
              (λ x f. transaction-atomic (record_locked n d k x) s f) h2)
          h1)
      h
