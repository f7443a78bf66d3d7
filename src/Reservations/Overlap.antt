-- ===== src/Reservations/Overlap.antt =====
-- What `reserve` does to the other reservations of the item.
use sprintctl.Prelude.{
  ℕ, ◌+◌, ◌≡◌, refl, sym, ap, ◌∙◌, String, Bool, true, false, not, ◌&&◌, ◌==◌, Option, none, some,
  List, [], ◌∷◌, ◌++◌, select, select-append, select-update_none, update, beq_refl, nat_eq,
  if◌then◌else◌, arith, subst,
}
use Prim.Native.String.{◌++◌ as joined}
use sprintctl.Domain.{Role, ReservationState, Reservation, role_eq, reservation_state_eq}
use sprintctl.Domain.Json.{Json, Fields}
use sprintctl.Ledger.{
  Fault, Ledger, Outcome, ok, err, lift, outcome, after, bind-ok, after-bind, transaction-ok,
  transaction-atomic, lift-atomic, require, require-ok,
}
use sprintctl.Schema.Statements.{get_item}
use sprintctl.Releases.Contract.{normalize_acceptance_contract}
use sprintctl.Reservations.{Annotated, normalize_role}
use sprintctl.Reservations.Admission.{
  Asked, asked, item_or_missing, validate_expected, reserve_admitted, reserve_locked, reserve,
}
use sprintctl.Reservations.Admitted.{Admitted, reserve_admitted-Admitted}

ok-injective : {A : Type 0} {x y : A} → ok x ≡ ok y → x ≡ y
ok-injective h = cc (h)

-- The row of a new reservation: it is active and new, and holds what was asked for.
abbrev pub new_row :
    ℕ
    → (actor session : String) (correlation : Option String) → Role
    → (digest : Option String) → Ledger
    → Reservation
new_row n actor session correlation r digest s = record {
  id = s.last.reservation + 1;
  work_item_id = n;
  session_id = session;
  actor = actor;
  role = r;
  state = ReservationState.active;
  created_at = s.clock;
  last_activity_at = s.clock;
  released_at = none;
  interruption_reason = none;
  correlation_ref = correlation;
  release_digest = digest;
}

-- A reservation that another takes over from is interrupted, now, by the actor and session of that.
abbrev pub taken_over : (now : ℕ) (actor session : String) → Reservation → Reservation
taken_over now actor session r = record r {
  state = ReservationState.interrupted;
  released_at = some now;
  interruption_reason =
      some (joined "interrupted by " (joined actor (joined " (" (joined session ")"))));
}

-- The active execution reservations of an item.
abbrev pub is_executing : ℕ → Reservation → Bool
is_executing n r =
    r.work_item_id == n && r.state == ReservationState.active && r.role == Role.execution

-- The rows that a call finds, once it has interrupted those that it takes over from.
abbrev pub rows_beside : ℕ → (actor session : String) (take_over : Bool) → Ledger → List Reservation
rows_beside n actor session take_over s =
    if take_over
    then update (is_executing n) (taken_over s.clock actor session) s.reservations
    else s.reservations

module _ (lower : String → String) (sha256 : String → String) (dumps : Json → String)
    (stale_after : ℕ) (canonical : Fields → Fields) (n : ℕ) (actor session : String)
    (role correlation : Option String) (take_over : Bool) (expected : Option String)
    (contract : Option Json) where
  abbrev request : Role → Option String → Fields → Asked
  request = asked actor session correlation take_over

  abbrev pub call : Ledger → Outcome Annotated × Ledger
  call =
      reserve lower sha256 dumps stale_after canonical n actor session role correlation take_over
        expected contract

  reserve_locked-Admitted :
      (a : Asked) (now : ℕ) (s : Ledger) (x : Annotated)
      → outcome (reserve_locked lower sha256 dumps stale_after n a now) s ≡ ok x
      → (s.maintenance ≡ false)
        × Admitted lower sha256 dumps stale_after n a now s
            (after (reserve_locked lower sha256 dumps stale_after n a now) s)
  unfolding reserve_locked require
  reserve_locked-Admitted a now s x h =
      let shut = require (not s.maintenance) Fault.reservation_conflict in
      let (u, passed, h1) = bind-ok shut _ s x h in
      let (open_now, same) = require-ok (not s.maintenance) Fault.reservation_conflict s passed in
      let body = reserve_admitted lower sha256 dumps stale_after n a now in
      let gone : after (reserve_locked lower sha256 dumps stale_after n a now) s ≡ after body s =
        ap (λ p. p.1) (after-bind shut _ s u passed) ∙ ap (λ p. after body p.1) same in
      (
        ground arith,
        subst (Admitted lower sha256 dumps stale_after n a now s) (sym gone) (
            reserve_admitted-Admitted lower sha256 dumps stale_after n a now s x
              (sym (ap (λ p. outcome body p.1) same) ∙ h1)),
      )

  -- What a call that returns was asked for and found.
  pub record Returned (s t : Ledger) : Type 0 where
    pub role_of : Role
    pub basis : Option String
    pub terms : Fields
    pub role_named : normalize_role lower role ≡ ok role_of
    pub basis_valid : validate_expected expected ≡ ok basis
    pub terms_valid : normalize_acceptance_contract canonical contract ≡ ok terms
    pub window_shut : s.maintenance ≡ false
    pub admitted :
        Admitted lower sha256 dumps stale_after n (request role_of basis terms) s.clock s t

  -- A call that returns named a role and a valid basis and contract, met no maintenance window, and
  -- left what it was asked for.
  pub reserve-Returned :
      (s : Ledger) (x : Annotated) → outcome call s ≡ ok x → Returned s (after call s)
  unfolding reserve
  reserve-Returned s x h =
      let (r, named, h1) = bind-ok (lift (normalize_role lower role)) _ s x h in
      let (b, valid, h2) = bind-ok (lift (validate_expected expected)) _ s x h1 in
      let (c, terms, h3) =
        bind-ok (lift (normalize_acceptance_contract canonical contract)) _ s x h2 in
      let (i, found, h4) = bind-ok (lift (item_or_missing n (get_item n s))) _ s x h3 in
      let body = reserve_locked lower sha256 dumps stale_after n (request r b c) s.clock in
      let (h5, left) = transaction-ok body s x h4 in
      let (shut, admitted) = reserve_locked-Admitted (request r b c) s.clock s x h5 in
      let gone : after call s ≡ after body s =
        ap (λ p. p.1) (after-bind (lift (normalize_role lower role)) _ s r named)
        ∙ ap (λ p. p.1) (after-bind (lift (validate_expected expected)) _ s b valid)
        ∙ ap (λ p. p.1)
            (after-bind (lift (normalize_acceptance_contract canonical contract)) _ s c terms)
        ∙ ap (λ p. p.1) (after-bind (lift (item_or_missing n (get_item n s))) _ s i found)
        ∙ left in
      subst (Returned s) (sym gone) (record {
        role_of = r;
        basis = b;
        terms = c;
        role_named = named;
        basis_valid = valid;
        terms_valid = terms;
        window_shut = shut;
        admitted = admitted;
      })

  -- The reservations that a call leaves.
  pub reserve-rows :
      (s : Ledger) (x : Annotated) (h : outcome call s ≡ ok x)
      → let k = reserve-Returned s x h in
        (after call s).reservations
        ≡ rows_beside n actor session take_over s
          ++ new_row n actor session correlation k.role_of k.admitted.digest s ∷ []
  reserve-rows s x h = (reserve-Returned s x h).admitted.rows

  -- Unless it is asked to take over, a reservation that is admitted leaves every other row as it was
  -- and adds its own, which is active, at the end.
  pub reserve-beside :
      (s : Ledger) (x : Annotated)
      → take_over ≡ false
      → outcome call s ≡ ok x
      → (r : Role) × (digest : Option String) × ((after call s).reservations
          ≡ s.reservations ++ new_row n actor session correlation r digest s ∷ [])
  reserve-beside s x beside h =
      let k = reserve-Returned s x h in
      (
        k.role_of,
        k.admitted.digest,
        reserve-rows s x h
            ∙ ap
                (λ b.
                  rows_beside n actor session b s
                  ++ new_row n actor session correlation k.role_of k.admitted.digest s ∷ [])
                beside,
      )

  taken_over-executing :
      (now : ℕ) (r : Reservation) → is_executing n (taken_over now actor session r) ≡ false
  taken_over-executing now r = ground arith

  -- A takeover by an execution reservation interrupts every active execution reservation of the item,
  -- at the clock's time and with a reason that names the actor and the session, leaves the other rows
  -- as they were and adds its own, active one at the end; that is then the only active execution
  -- reservation of the item.
  pub reserve-takeover :
      (s : Ledger) (x : Annotated)
      → take_over ≡ true
      → normalize_role lower role ≡ ok Role.execution
      → outcome call s ≡ ok x
      → (digest : Option String) × ((after call s).reservations
          ≡ update (is_executing n) (taken_over s.clock actor session) s.reservations
            ++ new_row n actor session correlation Role.execution digest s ∷ [])
        × (select (is_executing n) (after call s).reservations
            ≡ new_row n actor session correlation Role.execution digest s ∷ [])
  unfolding select
  reserve-takeover s x taking executing h =
      let k = reserve-Returned s x h in
      let row = new_row n actor session correlation Role.execution k.admitted.digest s in
      let interrupted_rows = rows_beside n actor session true s in
      let rows : (after call s).reservations ≡ interrupted_rows ++ row ∷ [] =
        reserve-rows s x h ∙ (λ i.
          rows_beside n actor session (taking i) s
          ++ new_row n actor session correlation (ok-injective (sym k.role_named ∙ executing) i)
              k.admitted.digest s
            ∷ []) in
      (
        k.admitted.digest,
        rows,
        ap (select (is_executing n)) rows
            ∙ select-append (is_executing n) interrupted_rows (row ∷ [])
            ∙ ap (λ l. l ++ select (is_executing n) (row ∷ []))
                (select-update_none (is_executing n) (is_executing n)
                  (taken_over s.clock actor session) (λ r e. e)
                  (λ r e. taken_over-executing s.clock r) s.reservations)
            ∙ rw (beq_refl n) refl,
      )

  -- A reservation that is refused or fails leaves the ledger unchanged, the release that it may have
  -- frozen included.
  pub reserve-atomic : (s : Ledger) (e : Fault) → outcome call s ≡ err e → after call s ≡ s
  unfolding reserve
  reserve-atomic s e h =
      lift-atomic (normalize_role lower role) _ s e
        (λ r x h1.
          lift-atomic (validate_expected expected) _ s x
            (λ b y h2.
              lift-atomic (normalize_acceptance_contract canonical contract) _ s y
                (λ c z h3.
                  lift-atomic (item_or_missing n (get_item n s)) _ s z
                    (λ i w h4.
                      transaction-atomic
                        (reserve_locked lower sha256 dumps stale_after n (request r b c) s.clock) s
                        w h4)
                    h3)
                h2)
            h1)
        h
