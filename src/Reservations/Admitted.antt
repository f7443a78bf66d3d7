-- ===== src/Reservations/Admitted.antt =====
-- Reservations that are admitted.
use mathlib.Core.Option.{some-injective}
use sprintctl.Prelude.{
  ℕ, ◌+◌, ◌≡◌, sym, ap, ◌∙◌, String, Bool, true, false, ◌||◌, Option, none, some, List, [], ◌∷◌,
  ◌++◌, any, select, ◌==◌, nat_eq, string_eq, if◌then◌else◌, arith, Bool-cases, inl, inr, subst,
}
use sprintctl.Domain.{Role, Reservation, Release, role_eq}
use sprintctl.Domain.Json.{Json}
use sprintctl.Ledger.{Ledger, ok, pure, outcome, after, bind-ok, after-bind}
use sprintctl.Schema.{is_some, release_of, reservation_insert_guard}
use sprintctl.Schema.Statements.{insert_reservation, insert_release, with_reservation_added}
use sprintctl.Releases.Freeze.{Basis, release_basis, basis_matches, freeze, freeze_digest}
use sprintctl.Reservations.{Annotated}
use sprintctl.Reservations.Admission.{
  Asked, active_on, reservation_of, displaced, check_stale, interrupt_displaced, freeze_contract,
  release_at_basis, release_for, report_reserved, reserve_admitted,
}
use sprintctl.Reservations.Reserve.{
  under-ok, rows_before, interrupted-rows, interrupt_displaced-last, inserted-rows,
  release_for-KeepsReservations, report_reserved-KeepsRows,
}

check_stale-ok :
    (x : Option String) (c e : String) (s : Ledger)
    → outcome (check_stale x c) s ≡ ok tt
    → x ≡ some e
    → basis_matches e c ≡ true
check_stale-ok none c e s h k = cc
check_stale-ok (some f) c e s h k = elim (Bool-cases (basis_matches f c)) [
  | inl u ↦ cc (u, ap (λ x. basis_matches x c) (some-injective f e k))
  | inr u ↦ absurd (cc (rw (u, outcome, check_stale) at h))
]

check_stale-same : (x : Option String) (c : String) (s : Ledger) → after (check_stale x c) s ≡ s
check_stale-same x c s = ground arith

guarded-release :
    (rs : List Release) (r : Reservation) (d : String)
    → reservation_insert_guard rs r ≡ none
    → r.release_digest ≡ some d
    → any (release_of r.work_item_id d) rs ≡ true
unfolding reservation_insert_guard
guarded-release rs r d h k = ground arith

module _ (lower : String → String) (sha256 : String → String) (dumps : Json → String)
    (stale_after n : ℕ) (a : Asked) where
  abbrev pub BasisAt : Ledger → Basis → Type 0
  BasisAt s b = outcome (release_basis lower sha256 dumps n) s ≡ ok b

  -- The release that is recorded with a reservation.
  pub record Bound (s : Ledger) (digest : Option String) : Type 0 where
    pub frozen :
        (a.role == Role.execution) ≡ true
        → (b : Basis) × BasisAt s b
          × (digest ≡ some (freeze_digest lower sha256 dumps b a.contract s))
    pub bare : (a.role == Role.execution) ≡ false → digest ≡ none
    pub current :
        (e : String)
        → a.expected_revision ≡ some e
        → (b : Basis) × BasisAt s b × (basis_matches e b.revision ≡ true)

  freeze_contract-digest :
      (b : Basis) (s : Ledger) (d : Option String)
      → outcome (freeze_contract lower sha256 dumps stale_after a b) s ≡ ok d
      → d ≡ some (freeze_digest lower sha256 dumps b a.contract s)
  unfolding freeze_contract freeze insert_release
  freeze_contract-digest b s d h = cc (h)

  chosen-digest :
      (r : Bool) (b : Basis) (s : Ledger) (d : Option String)
      → outcome (if r then freeze_contract lower sha256 dumps stale_after a b else pure none) s
        ≡ ok d
      → (r ≡ true → d ≡ some (freeze_digest lower sha256 dumps b a.contract s))
        × (r ≡ false → d ≡ none)
  chosen-digest true b s d h = (λ _. freeze_contract-digest b s d h, λ e. cc)
  chosen-digest false b s d h = (λ e. cc, λ _. cc (h))

  release_at_basis-Bound :
      (s : Ledger) (d : Option String)
      → outcome (release_at_basis lower sha256 dumps stale_after n a) s ≡ ok d
      → Bound s d
  unfolding release_at_basis release_basis
  release_at_basis-Bound s d h =
      let (b, found, h1) = bind-ok (release_basis lower sha256 dumps n) _ s d h in
      let (u, fresh, h2) = bind-ok (check_stale a.expected_revision b.revision) _ s d h1 in
      let (if_executing, otherwise) = chosen-digest (a.role == Role.execution) b s d (
        subst
          (λ t.
            outcome
              (if a.role == Role.execution
                then freeze_contract lower sha256 dumps stale_after a b
                else pure none)
              t
            ≡ ok d)
          (check_stale-same a.expected_revision b.revision s) h2) in
      record {
        frozen = λ e. (b, found, if_executing e);
        bare = otherwise;
        current = λ e k. (b, found, check_stale-ok a.expected_revision b.revision e s fresh k);
      }

  release_for-Bound :
      (s : Ledger) (d : Option String)
      → outcome (release_for lower sha256 dumps stale_after n a) s ≡ ok d
      → Bound s d
  unfolding release_for
  release_for-Bound s d h =
      elim (Bool-cases (a.role == Role.execution || is_some a.expected_revision)) [
        | inl e ↦ release_at_basis-Bound s d (rw e at h)
        | inr e ↦ record {
          frozen = λ r. absurd (cc (rw r at e));
          bare = λ _. cc (rw e at h);
          current = λ x k. absurd (ground arith);
        }
      ]

  -- What an admission leaves: the earlier rows, with those of a takeover interrupted, and one new
  -- active row; an execution reservation names a release of its item that is in the table.
  pub record Admitted (now : ℕ) (s t : Ledger) : Type 0 where
    pub digest : Option String
    pub rows :
        t.reservations
        ≡ rows_before n a now s.reservations
          ++ reservation_of n a digest now (s.last.reservation + 1) ∷ []
    pub release : Bound s digest
    pub in_table : (d : String) → digest ≡ some d → any (release_of n d) t.releases ≡ true

  inserted-guard :
      (make : ℕ → Reservation) (s : Ledger) (m : ℕ)
      → outcome (insert_reservation make) s ≡ ok m
      → (reservation_insert_guard s.releases (make (s.last.reservation + 1)) ≡ none)
        × ((after (insert_reservation make) s).releases ≡ s.releases)
  unfolding insert_reservation
  inserted-guard make s m h =
      let row = make (s.last.reservation + 1) in
      let (quiet, left) =
        under-ok (reservation_insert_guard s.releases row) (s.last.reservation + 1) m s
          (with_reservation_added (s.last.reservation + 1) row s) h in
      (quiet, ap (λ t. t.releases) left)

  pub reserve_admitted-Admitted :
      (now : ℕ) (s : Ledger) (x : Annotated)
      → outcome (reserve_admitted lower sha256 dumps stale_after n a now) s ≡ ok x
      → Admitted now s (after (reserve_admitted lower sha256 dumps stale_after n a now) s)
  unfolding reserve_admitted
  reserve_admitted-Admitted now s x h =
      let (d, froze, h1) = bind-ok (release_for lower sha256 dumps stale_after n a) _ s x h in
      let t1 = after (release_for lower sha256 dumps stale_after n a) s in
      let same = (release_for-KeepsReservations lower sha256 dumps stale_after n a).at s in
      let existing = select (active_on n) t1.reservations in
      let (u, took, h2) = bind-ok (interrupt_displaced n a now (displaced a existing)) _ t1 x h1 in
      let t2 = after (interrupt_displaced n a now (displaced a existing)) t1 in
      let (m, added, h3) = bind-ok (insert_reservation (reservation_of n a d now)) _ t2 x h2 in
      let t3 = after (insert_reservation (reservation_of n a d now)) t2 in
      let report = report_reserved lower sha256 dumps stale_after n a existing m in
      let kept = (report_reserved-KeepsRows lower sha256 dumps stale_after n a existing m).at t3 in
      let left : after (reserve_admitted lower sha256 dumps stale_after n a now) s
          ≡ after report t3 =
        ap (λ p. p.1) (after-bind (release_for lower sha256 dumps stale_after n a) _ s d froze)
        ∙ ap (λ p. p.1)
            (after-bind (interrupt_displaced n a now (displaced a existing)) _ t1 u took)
        ∙ ap (λ p. p.1) (after-bind (insert_reservation (reservation_of n a d now)) _ t2 m added) in
      subst (Admitted now s) (sym left) (record {
        digest = d;
        rows =
            kept.reservations
            ∙ inserted-rows (reservation_of n a d now) t2 m added
            ∙ (λ i.
                interrupted-rows n a now t1 took i
                ++ reservation_of n a d now
                    (interrupt_displaced-last n a now (displaced a existing) t1 i + 1)
                  ∷ [])
            ∙ (λ i.
                rows_before n a now (same.reservations i)
                ++ reservation_of n a d now (same.last i + 1) ∷ []);
        release = release_for-Bound s d froze;
        in_table = λ e k.
            let (quiet, releases) = inserted-guard (reservation_of n a d now) t2 m added in
            ap (any (release_of n e)) (kept.releases ∙ releases)
            ∙ guarded-release t2.releases (reservation_of n a d now (t2.last.reservation + 1)) e
                quiet k;
      })
