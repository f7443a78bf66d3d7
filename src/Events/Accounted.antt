-- ===== src/Events/Accounted.antt =====
-- Every take-up and every release is accounted for once.
use sprintctl.Prelude.{Bool, not, List, [], ◌∷◌, All, nat_eq}
use mathlib.Core.List.Perm
use mathlib.Core.List.{Perm}
use sprintctl.Events.Takeups.{TakeupEvent, Matching, is_takeup}
use sprintctl.Events.Paired.{Other}

-- No two events have the same id, and none has the id of an active take-up.
abbrev pub Distinct : List TakeupEvent → Type 0
Distinct [] = Unit
Distinct (e ∷ es) = All (λ f. Other f.id e) es × Distinct es

abbrev Ahead : List TakeupEvent → Matching → Type 0
Ahead es m = All (λ f. All (Other f.id) m.active_by_event_id) es

abbrev pub is_release : TakeupEvent → Bool
is_release e = not (is_takeup e)
