-- ===== src/Calc.antt =====
-- sprintctl/calc.py: staleness of an item, resolution counts, track health and overrun risk.
-- A timestamp and a duration are numbers of seconds. A difference of two timestamps may be negative
-- in the source: `is_stale` compares it without subtracting, and `idle_seconds` is 0 there.
pub mod Counts
use sprintctl.Prelude.{
  ℕ, zero, suc, ◌+◌, ◌-◌, ◌/◌, Bool, true, false, ◌&&◌, not, Option, none, some, List, [], ◌∷◌,
  length, ltb, leb, ◌==◌, if◌then◌else◌,
}
use sprintctl.Domain.{
  Status, SprintStatus, Resolution, Item, Sprint, status_eq, sprint_status_eq, resolution_eq,
}

abbrev pub default_stale_threshold : ℕ
default_stale_threshold = 14400

pub record Staleness : Type 0 where
  pub item_id : ℕ
  pub idle_seconds : ℕ
  pub is_stale : Bool
  pub status : Status

-- `now - updated > threshold`
abbrev pub idle_longer : (threshold updated now : ℕ) → Bool
idle_longer threshold updated now = ltb (updated + threshold) now

abbrev pub stale_at : Status → (threshold : ℕ) → Option ℕ → (updated now : ℕ) → Bool
stale_at Status.active threshold pending_threshold updated now = idle_longer threshold updated now
stale_at Status.pending threshold none updated now = false
stale_at Status.pending threshold (some t) updated now = idle_longer t updated now
stale_at _ threshold pending_threshold updated now = false

unfoldable pub item_staleness :
    Item → (now threshold : ℕ) → (pending_threshold : Option ℕ) → Staleness
item_staleness item now threshold pending_threshold = record {
  item_id = item.id;
  idle_seconds = now - item.updated_at;
  is_stale = stale_at item.status threshold pending_threshold item.updated_at now;
  status = item.status;
}

pub record Resolutions : Type 0 where
  pub accepted : ℕ
  pub rejected : ℕ
  pub withdrawn : ℕ
  pub superseded : ℕ
  pub decided_done : ℕ
  pub legacy_done : ℕ
  pub legacy_remarked : ℕ
  pub done : ℕ

-- The counters of the loop.
pub record Tally : Type 0 where
  pub accepted : ℕ
  pub rejected : ℕ
  pub withdrawn : ℕ
  pub superseded : ℕ
  pub legacy_done : ℕ
  pub legacy_remarked : ℕ

abbrev pub no_tally : Tally
no_tally = record {
  accepted = 0;
  rejected = 0;
  withdrawn = 0;
  superseded = 0;
  legacy_done = 0;
  legacy_remarked = 0;
}

abbrev pub counted : Resolution → Tally → Tally
counted Resolution.accepted t = record t { accepted = t.accepted + 1 }
counted Resolution.rejected t = record t { rejected = t.rejected + 1 }
counted Resolution.withdrawn t = record t { withdrawn = t.withdrawn + 1 }
counted Resolution.superseded t = record t { superseded = t.superseded + 1 }

abbrev pub remarked : Bool → Tally → Tally
remarked legacy t = if legacy then record t { legacy_remarked = t.legacy_remarked + 1 } else t

abbrev pub count_done : Item → Option Resolution → Tally → Tally
count_done item none t = record t { legacy_done = t.legacy_done + 1 }
count_done item (some r) t = remarked item.legacy (counted r t)

abbrev pub count_item : Item → Tally → Tally
count_item item t = if item.status == Status.done then count_done item item.resolution t else t

unfoldable pub tally : Tally → List Item → Tally
tally t [] = t
tally t (item ∷ items) = tally (count_item item t) items

abbrev pub totals : Tally → Resolutions
totals t =
    let decided = t.accepted + t.rejected + t.withdrawn + t.superseded in
    record {
      accepted = t.accepted;
      rejected = t.rejected;
      withdrawn = t.withdrawn;
      superseded = t.superseded;
      decided_done = decided;
      legacy_done = t.legacy_done;
      legacy_remarked = t.legacy_remarked;
      done = decided + t.legacy_done;
    }

unfoldable pub resolution_counts : List Item → Resolutions
unfolding tally
resolution_counts items = totals (tally no_tally items)

pub record StatusCounts : Type 0 where
  pub pending : ℕ
  pub active : ℕ
  pub done : ℕ
  pub blocked : ℕ

abbrev pub count_status : Status → StatusCounts → StatusCounts
count_status Status.pending c = record c { pending = c.pending + 1 }
count_status Status.active c = record c { active = c.active + 1 }
count_status Status.done c = record c { done = c.done + 1 }
count_status Status.blocked c = record c { blocked = c.blocked + 1 }

unfoldable pub status_counts : StatusCounts → List Item → StatusCounts
status_counts c [] = c
status_counts c (item ∷ items) = status_counts (count_status item.status c) items

-- A ratio is kept as its two terms; the source divides them, and gives 0.0 for no items.
pub record TrackHealth : Type 0 where
  pub total : ℕ
  pub counts : StatusCounts
  pub resolutions : Resolutions
  pub blocked_ratio : ℕ × ℕ
  pub done_ratio : ℕ × ℕ

abbrev pub ratio : ℕ → ℕ → ℕ × ℕ
ratio n zero = (0, 1)
ratio n (suc total) = (n, suc total)

abbrev pub no_counts : StatusCounts
no_counts = record { pending = 0; active = 0; done = 0; blocked = 0 }

unfoldable pub track_health : List Item → TrackHealth
unfolding status_counts resolution_counts
track_health items =
    let counts = status_counts no_counts items in
    record {
      total = length items;
      counts = counts;
      resolutions = resolution_counts items;
      blocked_ratio = ratio counts.blocked (length items);
      done_ratio = ratio counts.done (length items);
    }

-- `remaining.days`, a floor: whole days left, or how many days began since the end.
pub data Days : Type 0 where
  left : ℕ → Days
  past : ℕ → Days

abbrev pub days_between : (end now : ℕ) → Days
days_between end now =
    if leb now end then Days.left ((end - now) / 86400) else Days.past ((now - end + 86399) / 86400)

pub record Risk : Type 0 where
  pub date_bound : Bool
  pub days_remaining : Option Days
  pub active_items : ℕ
  pub at_risk : Bool
  pub overdue : Bool

abbrev pub few_left : Days → Bool
few_left (Days.left n) = leb n 2
few_left (Days.past n) = true

abbrev pub is_past : Days → Bool
is_past (Days.left n) = false
is_past (Days.past n) = true

abbrev pub risk_by : Option ℕ → SprintStatus → (active_items now : ℕ) → Risk
risk_by none status active_items now = record {
  date_bound = false;
  days_remaining = none;
  active_items = active_items;
  at_risk = false;
  overdue = false;
}
risk_by (some end) status active_items now = record {
  date_bound = true;
  days_remaining = some (days_between end now);
  active_items = active_items;
  at_risk = few_left (days_between end now) && ltb 0 active_items;
  overdue = is_past (days_between end now) && status == SprintStatus.active;
}

unfoldable pub sprint_overrun_risk : Sprint → (active_items now : ℕ) → Risk
sprint_overrun_risk sprint active_items now = risk_by sprint.end_date sprint.status active_items now
