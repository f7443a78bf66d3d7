-- ===== src/Kept/Decide.antt =====
-- Decisions, status transitions, creation and priority of work items.
use sprintctl.Prelude.{
  ℕ, ◌≡◌, refl, Option, none, some, List, [], ◌∷◌, String, Bool, true, false, nat_eq, string_eq,
  arith, if◌then◌else◌,
}
use sprintctl.Domain.{Status, Resolution, Item, Decision, Reservation, Reason, Payload}
use sprintctl.Ledger.{Fault, Ledger, Outcome, Action, pure, raise, lift, transaction, each, ◌>>=◌}
use sprintctl.Decisions.{Request}
use sprintctl.Schema.Statements.{insert_event}
use sprintctl.Follows.{
  Follows, Follows-pure, Follows-raise, Follows-lift, Follows-read, Follows-transaction,
  Follows-bind, Follows-each, Follows-if,
}
use sprintctl.Releases.{resolve_decision_release}
use sprintctl.Reservations.{release_caller_reservations, release_rows, release_events}
use sprintctl.WorkItems.Decide.{
  check_successor, apply_resolution, write_decision, write_admitted, read_decision, refuse,
  record_decision_keyed, record_locked, record_fresh, lock_item, check_revision, bind_legacy,
  close_terminal, answer,
}
use sprintctl.WorkItems.Status.{
  set_work_item_status, set_status_locked, guard, with_status, check_blockers, write_status,
  after_release,
}
use sprintctl.Kept.{Kept, KeepsIdentity}

module _ {R : Ledger → Ledger → Type 0} (k : Kept R) where
  -- An action that writes nothing.
  pub Keeps-unchanged : {A : Type 0} (m : Action A) → ((s : Ledger) → (m s).1 ≡ s) → Follows R m
  Keeps-unchanged m h = record { at = λ s. rw h (k.order.stay s) }

  module _ {A : Type 0} where
    pub Keeps-pure : (a : A) → Follows R (pure a)
    Keeps-pure = Follows-pure k.order

    pub Keeps-raise : (e : Fault) → Follows R (raise {A = A} e)
    Keeps-raise = Follows-raise k.order

    pub Keeps-lift : (r : Outcome A) → Follows R (lift r)
    Keeps-lift = Follows-lift k.order

    pub Keeps-read : (f : Ledger → Outcome A) → Follows R (λ s. (f s, s))
    Keeps-read = Follows-read k.order

    pub Keeps-if :
        (b : Bool) (m n : Action A) → Follows R m → Follows R n → Follows R (if b then m else n)
    Keeps-if = Follows-if k.order

    pub Keeps-transaction : (m : Action A) → Follows R m → Follows R (transaction m)
    Keeps-transaction = Follows-transaction k.order

  pub Keeps-bind :
      {A B : Type 0} (m : Action A) (f : A → Action B)
      → Follows R m
      → ((a : A) → Follows R (f a))
      → Follows R (m >>= f)
  Keeps-bind = Follows-bind k.order

  pub Keeps-each :
      {A B : Type 0} (f : A → Action B) (xs : List A)
      → ((a : A) → Follows R (f a))
      → Follows R (each f xs)
  Keeps-each = Follows-each k.order

  Keeps-guard : (b : Bool) (m : String) → Follows R (guard b m)
  Keeps-guard b m = Keeps-unchanged (guard b m) (λ s. ground arith)

  pub Keeps-lock_item : (n : ℕ) → Follows R (lock_item n)
  Keeps-lock_item n = Keeps-unchanged (lock_item n) (λ s. ground arith)

  pub Keeps-check_revision : (e : Option String) (c : String) → Follows R (check_revision e c)
  Keeps-check_revision e c = Keeps-unchanged (check_revision e c) (λ s. ground arith)

  pub Keeps-refuse : (e : Option String) → Follows R (refuse e)
  Keeps-refuse e = Keeps-unchanged (refuse e) (λ s. ground arith)

  Keeps-check_successor : (n : ℕ) (o : Option ℕ) → Follows R (check_successor n o)
  unfolding check_successor
  Keeps-check_successor n o = Keeps-unchanged (check_successor n o) (λ s. ground arith)

  Keeps-resolve : (n : ℕ) (o : Option String) → Follows R (resolve_decision_release n o)
  unfolding resolve_decision_release
  Keeps-resolve n o = Keeps-unchanged (resolve_decision_release n o) (λ s. ground arith)

  Keeps-read_decision : (n : ℕ) → Follows R (read_decision n)
  unfolding read_decision
  Keeps-read_decision n = Keeps-unchanged (read_decision n) (λ s. ground arith)

  bind_legacy-keeps : (r : Option Resolution) (n : ℕ) → KeepsIdentity (bind_legacy r n)
  bind_legacy-keeps r n = record { id = λ i. refl; uuid = λ i. refl }

  close_terminal-keeps : (r : Resolution) (n now : ℕ) → KeepsIdentity (close_terminal r n now)
  close_terminal-keeps r n now = record { id = λ i. refl; uuid = λ i. refl }

  with_status-keeps : (st : Status) (now : ℕ) → KeepsIdentity (with_status st now)
  with_status-keeps st now = record { id = λ i. refl; uuid = λ i. refl }

  Keeps-apply_resolution :
      (remark : Bool) (r : Option Resolution) (n h : ℕ) → Follows R (apply_resolution remark r n h)
  unfolding apply_resolution
  Keeps-apply_resolution true r n h = k.by_update_item n (bind_legacy r h) (bind_legacy-keeps r h)
  Keeps-apply_resolution false none n h = record { at = k.order.stay }
  Keeps-apply_resolution false (some r) n h = record {
    at = λ s.
        (k.by_update_item n (close_terminal r h s.clock) (close_terminal-keeps r h s.clock)).at s;
  }

  ruleset decide_rules = (
    Keeps-pure, Keeps-lift, Keeps-read, Keeps-bind, Keeps-refuse, Keeps-check_successor,
    Keeps-resolve, Keeps-apply_resolution, Keeps-read_decision, Keeps-lock_item,
    Keeps-check_revision, Keeps-guard,
  )

  pub Keeps-write_decision : (item : Item) (d : Request) → Follows R (write_decision item d)
  unfolding write_decision write_admitted
  Keeps-write_decision item d = search (decide_rules, k.by_insert_decision) depth 12

  Keeps-record_fresh :
      (item : Item) (d : Request) (key expected : Option String)
      → Follows R (record_fresh item d key expected)
  unfolding record_fresh
  Keeps-record_fresh item d key expected =
      search (decide_rules, k.by_insert_event, Keeps-write_decision) depth 8

  Keeps-answer :
      (item : Item) (d : Request) (key expected : Option String) (stored : Option Decision)
      → Follows R (answer item d key expected stored)
  Keeps-answer item d key expected none = Keeps-record_fresh item d key expected
  Keeps-answer item d key expected (some stored) = Keeps-pure (stored, true)

  Keeps-record_locked :
      (n : ℕ) (d : Request) (key expected : Option String)
      → Follows R (record_locked n d key expected)
  unfolding record_locked
  Keeps-record_locked n d key expected = search (decide_rules, Keeps-answer) depth 8

  pub Keeps-record_decision_keyed :
      (n : ℕ) (kind actor rationale : String) (digests : List String) (release : Option String)
      (successor : Option ℕ) (expected key : Option String)
      → Follows R
          (record_decision_keyed n kind actor rationale digests release successor expected key)
  unfolding record_decision_keyed
  Keeps-record_decision_keyed n kind actor rationale digests release successor expected key =
      search (decide_rules, Keeps-transaction, Keeps-record_locked) depth 10

  Keeps-release_events :
      (item : Item) (actor : String) (rs : List Reservation)
      → Follows R (release_events item actor rs)
  unfolding release_events
  Keeps-release_events item actor [] = Keeps-pure tt
  Keeps-release_events item actor (r ∷ rs) =
      Keeps-bind
        (insert_event item.sprint_id actor "reservation.released" "system" (some item.id)
          (Payload.unreserved r.id))
        (λ _. release_events item actor rs)
        (k.by_insert_event item.sprint_id actor "reservation.released" "system" (some item.id)
          (Payload.unreserved r.id))
        (λ _. Keeps-release_events item actor rs)

  Keeps-release_rows :
      (item : Item) (session actor : String) (rs : List Reservation)
      → Follows R (release_rows item session actor rs)
  unfolding release_rows
  Keeps-release_rows item session actor [] = Keeps-pure []
  Keeps-release_rows item session actor (r ∷ rs) =
      search (decide_rules, k.by_update_reservations, Keeps-release_events) depth 9

  pub Keeps-release_caller_reservations :
      (item : Item) (session : Option String) (actor : String)
      → Follows R (release_caller_reservations item session actor)
  unfolding release_caller_reservations
  Keeps-release_caller_reservations item none actor = Keeps-pure []
  Keeps-release_caller_reservations item (some session) actor =
      search (decide_rules, Keeps-if, Keeps-release_rows)

  Keeps-check_blockers : (n : ℕ) (st : Status) → Follows R (check_blockers n st)
  unfolding check_blockers
  Keeps-check_blockers n st = Keeps-unchanged (check_blockers n st) (λ s. ground arith)

  Keeps-write_status :
      (item : Item) (st : Status) (actor : Option String) → Follows R (write_status item st actor)
  unfolding write_status
  Keeps-write_status item Status.done actor = search (decide_rules, Keeps-write_decision) depth 8
  Keeps-write_status item st actor = search (decide_rules, k.by_update_item, with_status-keeps)

  Keeps-after_release :
      (item : Item) (st : Status) (actor : Option String) (reason : Option Reason)
      (session : Option String)
      → Follows R (after_release item st actor reason session)
  unfolding after_release
  Keeps-after_release item Status.pending actor reason session =
      search (decide_rules, k.by_insert_event, Keeps-release_caller_reservations) depth 8
  Keeps-after_release item _ actor reason session = Keeps-pure tt

  pub Keeps-set_status_locked :
      (n : ℕ) (st : Status) (actor expected : Option String) (reason : Option Reason)
      (session : Option String)
      → Follows R (set_status_locked n st actor expected reason session)
  unfolding set_status_locked
  Keeps-set_status_locked n st actor expected reason session =
      search (decide_rules, Keeps-check_blockers, Keeps-write_status, Keeps-after_release) depth 16

  pub Keeps-set_work_item_status :
      (n : ℕ) (st : Status) (actor expected : Option String) (reason : Option Reason)
      (session : Option String)
      → Follows R (set_work_item_status n st actor expected reason session)
  unfolding set_work_item_status
  Keeps-set_work_item_status n st actor expected reason session =
      search (decide_rules, Keeps-transaction, Keeps-set_status_locked) depth 8
