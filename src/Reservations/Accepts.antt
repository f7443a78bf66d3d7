-- ===== src/Reservations/Accepts.antt =====
-- When `reserve` returns, and what it then leaves.
use sprintctl.Prelude.{
  ℕ, ◌≡◌, refl, sym, ap, ◌∙◌, String, Bool, true, false, Option, none, some, [], ◌∷◌, ◌++◌, any,
  ◌==◌, nat_eq, string_eq, option_eq,
}
use sprintctl.Domain.{Role, Item, role_eq}
use sprintctl.Domain.Json.{Json, Fields}
use sprintctl.Ledger.{Ledger, Outcome, ok, lift, outcome, after}
use sprintctl.Decisions.{is_digest}
use sprintctl.Schema.{release_of, spaces_only, reservation_insert_guard}
use sprintctl.Schema.Statements.{get_item, digest_is}
use sprintctl.Releases.Contract.{normalize_acceptance_contract}
use sprintctl.Releases.Freeze.{Basis, release_basis, basis_matches, freeze_digest}
use sprintctl.Reservations.{Annotated, normalize_role}
use sprintctl.Reservations.Admission.{
  Asked, asked, reservation_of, item_or_missing, validate_expected, reserve_admitted,
  reserve_locked, reserve,
}
use sprintctl.Reservations.Overlap.{Returned, reserve-Returned, rows_beside, new_row}
use sprintctl.Reservations.Returns.{
  Succeeds, Succeeds-bind, Succeeds-transaction, Succeeds-reserve_admitted, Succeeds-reserve_locked,
  release_for-bare, bare-allowed,
}
use sprintctl.Reservations.Executes.{check_stale-passes, Succeeds-execution}

ok_same : {A : Type 0} {x y : A} → ok x ≡ ok y → x ≡ y
ok_same h = cc (h)

module _ (lower : String → String) (sha256 : String → String) (dumps : Json → String)
    (stale_after : ℕ) (canonical : Fields → Fields) (n : ℕ) (actor session : String)
    (role correlation : Option String) (take_over : Bool) (expected : Option String)
    (contract : Option Json) (s : Ledger) (basis : Option String) (c : Fields) (item : Item)
    (valid : validate_expected expected ≡ ok basis)
    (terms : normalize_acceptance_contract canonical contract ≡ ok c)
    (here : get_item n s ≡ some item) (shut : s.maintenance ≡ false) where
  abbrev pub call : Ledger → Outcome Annotated × Ledger
  call =
      reserve lower sha256 dumps stale_after canonical n actor session role correlation take_over
        expected contract

  abbrev request : Role → Asked
  request r = asked actor session correlation take_over r basis c

  Succeeds-reserve :
      (r : Role)
      → normalize_role lower role ≡ ok r
      → Succeeds (reserve_admitted lower sha256 dumps stale_after n (request r) s.clock) s
      → Succeeds call s
  unfolding reserve
  Succeeds-reserve r named k =
      let body = reserve_locked lower sha256 dumps stale_after n (request r) s.clock in
      Succeeds-bind (lift (normalize_role lower role)) _ s r named (
        Succeeds-bind (lift (validate_expected expected)) _ s basis valid (
          Succeeds-bind (lift (normalize_acceptance_contract canonical contract)) _ s c terms (
            Succeeds-bind (lift (item_or_missing n (get_item n s))) _ s item
              (ap (item_or_missing n) here)
              (Succeeds-transaction body s (
                Succeeds-reserve_locked lower sha256 dumps stale_after n (request r) s.clock s shut
                  k)))))

  -- What `reserve` leaves when it returns: the rows that it found beside the row of a reservation
  -- under the role and with the digest, and the release of that digest in the table.
  record Registered (r : Role) (digest : Option String) (x : Annotated) : Type 0 where
    returns : outcome call s ≡ ok x
    rows :
        (after call s).reservations
        ≡ rows_beside n actor session take_over s
          ++ new_row n actor session correlation r digest s ∷ []
    in_table : (d : String) → digest ≡ some d → any (release_of n d) (after call s).releases ≡ true

  abbrev LeftBy : (x : Annotated) → outcome call s ≡ ok x → Type 0
  LeftBy x h =
      Returned lower sha256 dumps stale_after canonical n actor session role correlation take_over
        expected contract s (after call s)

  found_by : (x : Annotated) (h : outcome call s ≡ ok x) → LeftBy x h
  found_by x h =
      reserve-Returned lower sha256 dumps stale_after canonical n actor session role correlation
        take_over expected contract s x h

  Registered-returned :
      (r : Role) (digest : Option String) (x : Annotated) (h : outcome call s ≡ ok x)
      → normalize_role lower role ≡ ok r
      → (found_by x h).admitted.digest ≡ digest
      → Registered r digest x
  Registered-returned r digest x h named chosen =
      let k = found_by x h in
      let same = ok_same (sym k.role_named ∙ named) in
      record {
        returns = h;
        rows = k.admitted.rows ∙ (λ i.
            rows_beside n actor session take_over s
            ++ new_row n actor session correlation (same i) (chosen i) s ∷ []);
        in_table = λ d e. k.admitted.in_table d (chosen ∙ e);
      }

  -- Outside a maintenance window a verification or observation reservation of an existing item, on
  -- no basis and with a valid contract, is registered, whatever other reservations the item has and
  -- whether it takes over from them or not: the call returns, and leaves the rows that it found, those
  -- that it takes over from interrupted, with one new active row of the item at the end, which has
  -- the actor, the session and the role that were asked for and no release.
  pub reserve-returns_beside_work :
      (r : Role)
      → normalize_role lower role ≡ ok r
      → (r == Role.execution) ≡ false
      → basis ≡ none
      → (x : Annotated) × (outcome call s ≡ ok x)
        × ((after call s).reservations
            ≡ rows_beside n actor session take_over s
              ++ new_row n actor session correlation r none s ∷ [])
  reserve-returns_beside_work r named other free =
      let bare = release_for-bare lower sha256 dumps stale_after n (request r) s other free in
      let (x, h) = Succeeds-reserve r named (
        Succeeds-reserve_admitted lower sha256 dumps stale_after n (request r) s.clock s none item
          (ap (λ p. p.0) bare)
          (λ m.
            ap
              (λ p.
                reservation_insert_guard p.1.releases (reservation_of n (request r) none s.clock m))
              bare
            ∙ bare-allowed lower sha256 dumps stale_after n (request r) s s.clock m other)
          (ap (λ p. get_item n p.1) bare ∙ here)) in
      let k = found_by x h in
      let same = ok_same (sym k.role_named ∙ named) in
      let g =
        Registered-returned r none x h named
          (k.admitted.release.bare (ap (λ q. q == Role.execution) same ∙ other)) in
      (x, h, g.rows)

  -- Outside a maintenance window an execution reservation of an existing item is registered with the
  -- release of the item's current state, whatever other reservations the item has, when the basis it
  -- was asked on, if any, is current, the actor is not blank, the SHA-256 of the release is a digest,
  -- and no other item has a release with that digest: the call returns, and leaves the rows that it
  -- found, those that it takes over from interrupted, with one new active execution row of the item at
  -- the end, which has the actor and the session that were asked for and the digest of the release of
  -- the item's current state under the contract; that release of the item is in the table.
  pub reserve-returns_execution :
      (b : Basis)
      → normalize_role lower role ≡ ok Role.execution
      → b.item ≡ item
      → release_basis lower sha256 dumps n s ≡ (ok b, s)
      → ((e : String) → basis ≡ some e → basis_matches e b.revision ≡ true)
      → spaces_only actor ≡ false
      → is_digest (freeze_digest lower sha256 dumps b c s) ≡ true
      → (any (digest_is (freeze_digest lower sha256 dumps b c s)) s.releases ≡ true
          → any (release_of n (freeze_digest lower sha256 dumps b c s)) s.releases ≡ true)
      → (x : Annotated) × (outcome call s ≡ ok x)
        × ((after call s).reservations
            ≡ rows_beside n actor session take_over s
              ++ new_row n actor session correlation Role.execution
                  (some (freeze_digest lower sha256 dumps b c s))
                  s
                ∷ [])
        × (any (release_of n (freeze_digest lower sha256 dumps b c s)) (after call s).releases
            ≡ true)
  reserve-returns_execution b named same found fresh written hex unshared =
      let (x, h) = Succeeds-reserve Role.execution named (
        Succeeds-execution lower sha256 dumps stale_after n (request Role.execution) s s.clock b
          (here ∙ ap some (sym same)) refl found (check_stale-passes basis b.revision s fresh) hex
          written unshared) in
      let k = found_by x h in
      let executing = ap (λ q. q == Role.execution) (ok_same (sym k.role_named ∙ named)) in
      let (b', found', digest) = k.admitted.release.frozen executing in
      let bases = ok_same (sym found' ∙ ap (λ p. p.0) found) in
      let agreed = ok_same (sym k.terms_valid ∙ terms) in
      let g =
        Registered-returned Role.execution (some (freeze_digest lower sha256 dumps b c s)) x h named
          (digest ∙ (λ i. some (freeze_digest lower sha256 dumps (bases i) (agreed i) s))) in
      (x, h, g.rows, g.in_table (freeze_digest lower sha256 dumps b c s) refl)
