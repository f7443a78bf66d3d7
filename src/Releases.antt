-- ===== src/Releases.antt =====
-- sprintctl/releasecore.py: the current release of an item, and the release that a decision binds.
pub mod Contract
pub mod Freeze
pub mod Content
pub mod Terms
pub mod Stale
use sprintctl.Prelude.{
  ℕ, String, Bool, true, false, ◌&&◌, ◌||◌, Option, none, some, List, [], ◌∷◌, any, select, ltb,
  ◌==◌, nat_eq, string_eq, option_eq, if◌then◌else◌,
}
use mathlib.Core.Option
use sprintctl.Domain.{Release, Reservation}
use sprintctl.Ledger.{Fault, Ledger, Action, ok, err}
use sprintctl.Schema.{release_of, current_at, revise_count}

-- `MAX(r.id) … WHERE r.release_digest = ?`
unfoldable pub last_frozen : String → List Reservation → Option ℕ
last_frozen digest [] = none
last_frozen digest (r ∷ rs) =
    let rest = last_frozen digest rs in
    if r.release_digest == some digest
    then elim rest [ none ↦ some r.id | some m ↦ if ltb m r.id then some r.id else some m ]
    else rest

-- `ORDER BY MAX(r.id) DESC NULLS LAST, wr.id DESC`: does the first release come before the second?
abbrev ranks_before : Option ℕ → ℕ → Option ℕ → ℕ → Bool
ranks_before none a none b = ltb b a
ranks_before none a (some n) b = false
ranks_before (some m) a none b = true
ranks_before (some m) a (some n) b = ltb n m || (m == n && ltb b a)

-- `LIMIT 1`
unfoldable pub newest : List Reservation → List Release → Option Release
newest rs [] = none
newest rs (r ∷ more) = elim (newest rs more) [
  | none ↦ some r
  | some q ↦
      if ranks_before (last_frozen r.release_digest rs) r.id (last_frozen q.release_digest rs) q.id
      then some r
      else some q
]

unfoldable pub current_release : ℕ → Ledger → Option Release
unfolding revise_count newest last_frozen
current_release item_id s =
    newest s.reservations
      (select (current_at item_id (revise_count s.decisions item_id)) s.releases)

-- A decision's release: the current one by default, and never a release of another item.
unfoldable pub resolve_decision_release : ℕ → Option String → Action (Option String)
resolve_decision_release item_id none s =
    (ok (Option.map (λ r. r.release_digest) (current_release item_id s)), s)
resolve_decision_release item_id (some digest) s = (
  if any (release_of item_id digest) s.releases
      then ok (some digest)
      else err (Fault.release_mismatch digest),
  s,
)
