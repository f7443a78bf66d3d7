-- ===== src/Kept/Backlog.antt =====
-- The seeding of a backlog.
use sprintctl.Prelude.{ℕ, Option, none, some, String, Bool, true, false, List, [], ◌∷◌}
use sprintctl.Domain.{Event}
use sprintctl.Ledger.{Ledger}
use sprintctl.Follows.{Follows}
use sprintctl.Backlog.{
  validate_sprints, seed_item, seed_found, seed_candidate, seed_listed,
  backlog_seed_from_candidates,
}
use sprintctl.Kept.{Kept}
use sprintctl.Kept.Create.{Keeps-create_work_item}
use sprintctl.Kept.Decide.{Keeps-pure, Keeps-read, Keeps-bind, Keeps-each, Keeps-transaction}
use sprintctl.Kept.Maintain.{Keeps-fails_unless}

module _ {R : Ledger → Ledger → Type 0} (k : Kept R) where
  Keeps-validate_sprints : (source target : ℕ) → Follows R (validate_sprints source target)
  unfolding validate_sprints
  Keeps-validate_sprints source target =
      search (Keeps-bind k, Keeps-read k, Keeps-fails_unless k) depth 20

  module _ (fresh : ℕ → String) (source target : ℕ) (actor : String) where
    Keeps-seed_item : (e : Event) (n : ℕ) → Follows R (seed_item fresh source target actor e n)
    unfolding seed_item
    Keeps-seed_item e n =
        search
          (Keeps-bind k, Keeps-read k, Keeps-pure k, k.by_insert_event, Keeps-create_work_item k)
          depth 20

    Keeps-seed_found :
        (e : Option Event) (b : Bool) → Follows R (seed_found fresh source target actor e b)
    Keeps-seed_found none b = Keeps-pure k none
    Keeps-seed_found (some e) true = Keeps-pure k none
    Keeps-seed_found (some e) false = search (Keeps-bind k, k.by_track, Keeps-seed_item)

    Keeps-seed_candidate : (n : ℕ) → Follows R (seed_candidate fresh source target actor n)
    unfolding seed_candidate
    Keeps-seed_candidate n =
        search (Keeps-bind k, Keeps-read k, Keeps-validate_sprints, Keeps-seed_found) depth 20

    Keeps-seed_listed : (es : List Event) → Follows R (seed_listed fresh source target actor es)
    Keeps-seed_listed [] = Keeps-pure k []
    Keeps-seed_listed (e ∷ es) =
        search
          (
            Keeps-bind k,
            Keeps-read k,
            Keeps-pure k,
            Keeps-each k,
            Keeps-transaction k,
            Keeps-seed_candidate,
          )
          depth 20

    pub Keeps-backlog_seed_from_candidates :
        Follows R (backlog_seed_from_candidates fresh source target actor)
    unfolding backlog_seed_from_candidates
    Keeps-backlog_seed_from_candidates =
        search (Keeps-bind k, Keeps-read k, Keeps-validate_sprints, Keeps-seed_listed) depth 20
