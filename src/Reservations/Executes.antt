-- ===== src/Reservations/Executes.antt =====
-- When the admission of an execution reservation returns.
use sprintctl.Prelude.{
  ℕ, ◌+◌, ◌≡◌, refl, sym, ap, ◌∙◌, String, Bool, true, false, Option, none, some, List, any,
  any-append, find, find_sound, ◌==◌, nat_eq, string_eq, option_eq, eq_of_beq, beq_refl,
  if◌then◌else◌, arith, subst, Bool-cases, inl, inr,
}
use sprintctl.Domain.{Role, Reservation, Release, role_eq}
use sprintctl.Domain.Json.{Json}
use sprintctl.Ledger.{Ledger, ok, after, after-bind}
use sprintctl.Decisions.{is_digest}
use sprintctl.Schema.{release_of, item_is, spaces_only, reservation_insert_guard}
use sprintctl.Schema.Statements.{
  get_item, insert_release, digest_is, release_ignored, with_release_added,
}
use sprintctl.Releases.Freeze.{
  Basis, release_basis, basis_matches, freeze, freeze_digest, release_row, canonical_context_refs,
  refs_of,
}
use sprintctl.Reservations.Admission.{
  Asked, reservation_of, check_stale, freeze_contract, release_at_basis, release_for,
  reserve_admitted,
}
use sprintctl.Reservations.Returns.{Succeeds, Succeeds-reserve_admitted}

-- A release that was not in the table under another item is in it after the statement.
frozen_in_table :
    (row : Release) (s : Ledger)
    → is_digest row.release_digest ≡ true
    → spaces_only row.actor ≡ false
    → (any (digest_is row.release_digest) s.releases ≡ true
        → any (release_of row.work_item_id row.release_digest) s.releases ≡ true)
    → any
        (release_of row.work_item_id row.release_digest)
        (if release_ignored s.releases row then s else with_release_added row s).releases
      ≡ true
frozen_in_table row s hex named unshared =
    elim (Bool-cases (any (digest_is row.release_digest) s.releases)) [
      | inl e ↦ rw e (unshared e)
      | inr e ↦
          rw (e, hex, named)
            (any-append (release_of row.work_item_id row.release_digest) s.releases row
              (rw (beq_refl row.release_digest, beq_refl row.work_item_id) refl))
    ]

execution-allowed :
    (rs : List Release) (r : Reservation) (d : String)
    → (r.role == Role.execution) ≡ true
    → r.release_digest ≡ some d
    → any (release_of r.work_item_id d) rs ≡ true
    → reservation_insert_guard rs r ≡ none
unfolding reservation_insert_guard
execution-allowed rs r d e k h = ground arith

ignored-items :
    (b : Bool) (row : Release) (s : Ledger)
    → (if b then s else with_release_added row s).items ≡ s.items
ignored-items true row s = refl
ignored-items false row s = refl

pub check_stale-passes :
    (x : Option String) (c : String) (s : Ledger)
    → ((e : String) → x ≡ some e → basis_matches e c ≡ true)
    → check_stale x c s ≡ (ok tt, s)
check_stale-passes none c s h = refl
check_stale-passes (some e) c s h = rw (h e refl, check_stale) refl

module _ (lower : String → String) (sha256 : String → String) (dumps : Json → String)
    (stale_after n : ℕ) (a : Asked) where
  -- The release of an execution reservation.
  release_for-execution :
      (s : Ledger) (b : Basis)
      → (a.role == Role.execution) ≡ true
      → release_basis lower sha256 dumps n s ≡ (ok b, s)
      → check_stale a.expected_revision b.revision s ≡ (ok tt, s)
      → release_for lower sha256 dumps stale_after n a s ≡ (
        ok (some (freeze_digest lower sha256 dumps b a.contract s)),
        after (freeze lower sha256 dumps b a.actor a.contract) s,
      )
  unfolding release_for release_at_basis release_basis freeze_contract freeze insert_release
  release_for-execution s b r found fresh = rw r (
      after-bind (release_basis lower sha256 dumps n) _ s b (ap (λ p. p.0) found)
      ∙ after-bind (check_stale a.expected_revision b.revision) _ s tt (ap (λ p. p.0) fresh)
      ∙ ap (λ p. freeze_contract lower sha256 dumps stale_after a b p.1) fresh)

  pub Succeeds-execution :
      (s : Ledger) (now : ℕ) (b : Basis)
      → get_item n s ≡ some b.item
      → (a.role == Role.execution) ≡ true
      → release_basis lower sha256 dumps n s ≡ (ok b, s)
      → check_stale a.expected_revision b.revision s ≡ (ok tt, s)
      → is_digest (freeze_digest lower sha256 dumps b a.contract s) ≡ true
      → spaces_only a.actor ≡ false
      → (any (digest_is (freeze_digest lower sha256 dumps b a.contract s)) s.releases ≡ true
          → any (release_of n (freeze_digest lower sha256 dumps b a.contract s)) s.releases ≡ true)
      → Succeeds (reserve_admitted lower sha256 dumps stale_after n a now) s
  unfolding freeze insert_release
  Succeeds-execution s now b here r found fresh hex named unshared =
      let d = freeze_digest lower sha256 dumps b a.contract s in
      let froze = release_for-execution s b r found fresh in
      let id : b.item.id ≡ n = eq_of_beq b.item.id n (find_sound (item_is n) s.items b.item here) in
      let row =
        release_row lower sha256 dumps b d a.actor a.contract
          (canonical_context_refs (refs_of b.item.id s)) s.clock (s.last.release + 1) in
      let there : any (release_of n d)
            (if release_ignored s.releases row then s else with_release_added row s).releases
          ≡ true =
        subst
          (λ m.
            any (release_of m d)
              (if release_ignored s.releases row then s else with_release_added row s).releases
            ≡ true)
          id
          (frozen_in_table row s hex named
            (λ e. subst (λ m. any (release_of m d) s.releases ≡ true) (sym id) (unshared e))) in
      Succeeds-reserve_admitted lower sha256 dumps stale_after n a now s (some d) b.item
        (ap (λ p. p.0) froze)
        (λ m.
          execution-allowed _ (reservation_of n a (some d) now m) d r refl
            (ap (λ p. any (release_of n d) p.1.releases) froze ∙ there))
        (ap (λ p. get_item n p.1) froze
          ∙ ap (find (item_is n)) (ignored-items (release_ignored s.releases row) row s)
          ∙ here)
