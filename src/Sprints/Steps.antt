-- ===== src/Sprints/Steps.antt =====
-- The status moves of a sprint.
use sprintctl.Prelude.{
  ℕ, ◌≡◌, refl, Bool, true, false, not, ◌&&◌, Option, none, some, String, arith, ◌⊎◌, inl, inr, ap,
  ◌∙◌, sym, find-update, find_sound, update, string_eq, nat_eq, eq_of_beq, subst, ◌==◌,
}
use sprintctl.Domain.{Sprint, SprintStatus, SprintKind, sprint_status_eq, sprint_kind_eq}
use sprintctl.Ledger.{
  Ledger, Outcome, ok, outcome, after, transaction, transaction-ok, bind-ok, after-bind, lift,
}
use sprintctl.Sprints.{
  sprint_is, get_sprint, sprint_status_revision, sprint_may_become, lock_sprint, check_basis,
  permit, update_sprint, with_status, set_sprint_status_locked, set_sprint_status,
  validate_sprint_status_revision,
}

get_updated :
    (n : ℕ) (f : Sprint → Sprint)
    → ((x : Sprint) → (f x).id ≡ x.id)
    → (s : Ledger) (sprint : Sprint) → get_sprint n s ≡ some sprint
    → get_sprint n (after (update_sprint n f) s) ≡ some (f sprint)
unfolding update_sprint
get_updated n f keeps s sprint g = rw (
  find-update (sprint_is n) (sprint_is n) f (λ x _. rw keeps) s.sprints,
  g,
  find_sound (sprint_is n) s.sprints sprint g,
)

-- What a sprint status change that went through found and left.
pub record Moved (s t : Ledger) (n : ℕ) (st : SprintStatus) (expected : Option String)
    : Type 0 where
  pub sprint : Sprint
  pub found : get_sprint n s ≡ some sprint
  pub allowed : sprint_may_become sprint.status st ≡ true
  pub basis : (expected ≡ none) ⊎ (expected ≡ some (sprint_status_revision sprint))
  pub not_archive : st ≡ SprintStatus.active → (sprint.kind == SprintKind.archive) ≡ false
  pub moved : get_sprint n t ≡ some (record sprint { status = st })
  pub whole :
      t ≡ record s { sprints = update (λ x. x.id == n) (λ x. record x { status = st }) s.sprints }

check_basis-ok :
    (e : Option String) (c : String) (s : Ledger)
    → outcome (check_basis e c) s ≡ ok tt
    → (e ≡ none) ⊎ (e ≡ some c)
check_basis-ok none c s h = inl refl
check_basis-ok (some r) c s h = inr (rw (eq_of_beq r c (ground arith)))

permit-ok : (b : Bool) (m : String) (s : Ledger) → outcome (permit b m) s ≡ ok tt → b ≡ true
permit-ok true m s h = refl
permit-ok false m s h = cc

lock_sprint-ok :
    (n : ℕ) (s : Ledger) (x : Sprint) → outcome (lock_sprint n) s ≡ ok x → get_sprint n s ≡ some x
lock_sprint-ok n s x h = ground arith

lock_sprint-after : (n : ℕ) (s : Ledger) → after (lock_sprint n) s ≡ s
lock_sprint-after n s = ground arith

check_basis-after : (e : Option String) (c : String) (s : Ledger) → after (check_basis e c) s ≡ s
check_basis-after e c s = ground arith

permit-after : (b : Bool) (m : String) (s : Ledger) → after (permit b m) s ≡ s
permit-after b m s = ground arith

abbrev not_archive_move : SprintStatus → Sprint → Bool
not_archive_move st sprint = not (st == SprintStatus.active && sprint.kind == SprintKind.archive)

archive_refused :
    (st : SprintStatus) (sprint : Sprint)
    → not_archive_move st sprint ≡ true
    → st ≡ SprintStatus.active
    → (sprint.kind == SprintKind.archive) ≡ false
archive_refused st sprint h e = ground arith

-- The ledger that the guards leave to the write.
locked-write :
    (n : ℕ) (st : SprintStatus) (expected : Option String) (s : Ledger) (sprint : Sprint)
    → get_sprint n s ≡ some sprint
    → check_basis expected (sprint_status_revision sprint) s ≡ (ok tt, s)
    → sprint_may_become sprint.status st ≡ true
    → not_archive_move st sprint ≡ true
    → set_sprint_status_locked n st expected s ≡ update_sprint n (with_status st) s
unfolding set_sprint_status_locked
locked-write n st expected s sprint g b a k = rw (g, lock_sprint) (rw b (rw a (rw (k, permit))))

pair-of :
    {A : Type 0} (p : Outcome A × Ledger) (s : Ledger) {a : A}
    → p.0 ≡ ok a
    → p.1 ≡ s
    → p ≡ (ok a, s)
pair-of p s h k = ground arith

update_sprint-whole :
    (n : ℕ) (st : SprintStatus) (s : Ledger)
    → after (update_sprint n (with_status st)) s
      ≡ record s { sprints = update (λ x. x.id == n) (λ x. record x { status = st }) s.sprints }
unfolding update_sprint
update_sprint-whole n st s = refl

validated : (e x : Option String) → validate_sprint_status_revision e ≡ ok x → x ≡ e
unfolding validate_sprint_status_revision
validated e x h = ground arith

module _ (n : ℕ) (st : SprintStatus) (expected : Option String) (s : Ledger) where
  locked-Moved :
      outcome (set_sprint_status_locked n st expected) s ≡ ok tt
      → Moved s (after (set_sprint_status_locked n st expected) s) n st expected
  unfolding set_sprint_status_locked
  locked-Moved h =
      let (sprint, a, h1) = bind-ok (lock_sprint n) _ s tt h in
      let (u1, b, h2) =
        bind-ok (check_basis expected (sprint_status_revision sprint)) _ s tt
          (rw (lock_sprint-after n s) at h1) in
      let (u2, c, h3) =
        bind-ok (permit (sprint_may_become sprint.status st) "transition not allowed") _ s tt
          (rw (check_basis-after expected (sprint_status_revision sprint) s) at h2) in
      let (u3, d, h4) =
        bind-ok (permit (not_archive_move st sprint) "cannot activate an archive sprint") _ s tt (
          rw (permit-after (sprint_may_become sprint.status st) "transition not allowed" s) at
            h3) in
      let e =
        locked-write n st expected s sprint (lock_sprint-ok n s sprint a)
          (pair-of (check_basis expected (sprint_status_revision sprint) s) s b
            (check_basis-after expected (sprint_status_revision sprint) s))
          (permit-ok _ _ s c) (permit-ok _ _ s d) in
      record {
        sprint = sprint;
        found = lock_sprint-ok n s sprint a;
        allowed = permit-ok (sprint_may_become sprint.status st) "transition not allowed" s c;
        basis = check_basis-ok expected (sprint_status_revision sprint) s b;
        not_archive =
            archive_refused st sprint
              (permit-ok (not_archive_move st sprint) "cannot activate an archive sprint" s d);
        moved =
            ap (λ p. get_sprint n p.1) e
            ∙ get_updated n (with_status st) (λ x. refl) s sprint (lock_sprint-ok n s sprint a);
        whole = ap (λ p. p.1) e ∙ update_sprint-whole n st s;
      }

  -- A sprint status change that returns moved an existing sprint along an edge of SPRINT_TRANSITIONS,
  -- from no revision or the current one, never an archive sprint to active; the sprint now has the new
  -- status and is otherwise the same, and so is the whole ledger: no other sprint, no row of another
  -- table and no event was written.
  pub set_sprint_status-Moved :
      outcome (set_sprint_status n st expected) s ≡ ok tt
      → Moved s (after (set_sprint_status n st expected) s) n st expected
  unfolding set_sprint_status
  set_sprint_status-Moved h =
      let (e, valid, h1) = bind-ok (lift (validate_sprint_status_revision expected)) _ s tt h in
      let (h2, k) = transaction-ok (set_sprint_status_locked n st e) s tt h1 in
      let q =
        after-bind (lift (validate_sprint_status_revision expected))
          (λ x. transaction (set_sprint_status_locked n st x)) s e valid in
      let same = validated expected e valid in
      subst (λ t. Moved s t n st expected)
        (ap (λ x. after (set_sprint_status_locked n st x) s) (sym same)
          ∙ sym k
          ∙ sym (ap (λ p. p.1) q))
        (locked-Moved (subst (λ x. outcome (set_sprint_status_locked n st x) s ≡ ok tt) same h2))
