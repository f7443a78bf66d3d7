-- ===== src/Calc/Counts.antt =====
-- The counts of sprintctl/calc.py against a count of the items that have a property.
use sprintctl.Prelude.{
  ℕ, ◌+◌, ◌≡◌, Bool, ◌&&◌, not, some, List, [], ◌∷◌, length, arith, ◌==◌, option_eq, if◌then◌else◌,
}
use sprintctl.Domain.{Status, Resolution, Item, status_eq, resolution_eq}
use sprintctl.Schema.{is_some}
use sprintctl.Calc.{
  Tally, no_tally, tally, count_item, resolution_counts, StatusCounts, status_counts, no_counts,
  track_health, count_status,
}

-- How many items pass a test.
abbrev pub count : (Item → Bool) → List Item → ℕ
count p [] = 0
count p (i ∷ is) = (if p i then 1 else 0) + count p is

abbrev pub is_done : Item → Bool
is_done i = i.status == Status.done

abbrev pub closed_as : Resolution → Item → Bool
closed_as r i = i.status == Status.done && i.resolution == some r

abbrev pub undecided : Item → Bool
undecided i = i.status == Status.done && not (is_some i.resolution)

abbrev pub remarked_item : Item → Bool
remarked_item i = i.status == Status.done && i.legacy && is_some i.resolution

record Tallied (t u : Tally) (items : List Item) : Type 0 where
  accepted : u.accepted ≡ t.accepted + count (closed_as Resolution.accepted) items
  rejected : u.rejected ≡ t.rejected + count (closed_as Resolution.rejected) items
  withdrawn : u.withdrawn ≡ t.withdrawn + count (closed_as Resolution.withdrawn) items
  superseded : u.superseded ≡ t.superseded + count (closed_as Resolution.superseded) items
  legacy_done : u.legacy_done ≡ t.legacy_done + count undecided items
  legacy_remarked : u.legacy_remarked ≡ t.legacy_remarked + count remarked_item items

Tallied-count_item : (t : Tally) (i : Item) → Tallied t (count_item i t) (i ∷ [])
Tallied-count_item t i = record {
  accepted = ground arith;
  rejected = ground arith;
  withdrawn = ground arith;
  superseded = ground arith;
  legacy_done = ground arith;
  legacy_remarked = ground arith;
}

Tallied-cons :
    (t u v : Tally) (i : Item) (is : List Item)
    → Tallied t u (i ∷ [])
    → Tallied u v is
    → Tallied t v (i ∷ is)
Tallied-cons t u v i is p q = record {
  accepted = omega (arith, p.accepted, q.accepted);
  rejected = omega (arith, p.rejected, q.rejected);
  withdrawn = omega (arith, p.withdrawn, q.withdrawn);
  superseded = omega (arith, p.superseded, q.superseded);
  legacy_done = omega (arith, p.legacy_done, q.legacy_done);
  legacy_remarked = omega (arith, p.legacy_remarked, q.legacy_remarked);
}

tally-Tallied : (t : Tally) (items : List Item) → Tallied t (tally t items) items
unfolding tally
tally-Tallied t [] = record {
  accepted = omega arith;
  rejected = omega arith;
  withdrawn = omega arith;
  superseded = omega arith;
  legacy_done = omega arith;
  legacy_remarked = omega arith;
}
tally-Tallied t (i ∷ is) =
    Tallied-cons t (count_item i t) (tally (count_item i t) is) i is (Tallied-count_item t i)
      (tally-Tallied (count_item i t) is)

-- Every done item has exactly one of the four resolutions, or none.
count_done_split :
    (items : List Item)
    → count (closed_as Resolution.accepted) items
        + count (closed_as Resolution.rejected) items
        + count (closed_as Resolution.withdrawn) items
        + count (closed_as Resolution.superseded) items
        + count undecided items
      ≡ count is_done items
count_done_split [] = omega arith
count_done_split (i ∷ is) = ground (arith, count_done_split is)

-- Each resolution counts the done items closed with it, `legacy_done` those with none,
-- `legacy_remarked` the legacy ones with one, and `done` counts every done item once.
pub resolution_counts-count :
    (items : List Item)
    → ((resolution_counts items).accepted ≡ count (closed_as Resolution.accepted) items)
      × ((resolution_counts items).rejected ≡ count (closed_as Resolution.rejected) items)
      × ((resolution_counts items).withdrawn ≡ count (closed_as Resolution.withdrawn) items)
      × ((resolution_counts items).superseded ≡ count (closed_as Resolution.superseded) items)
      × ((resolution_counts items).legacy_done ≡ count undecided items)
      × ((resolution_counts items).legacy_remarked ≡ count remarked_item items)
      × ((resolution_counts items).done ≡ count is_done items)
unfolding resolution_counts
resolution_counts-count items =
    let h = tally-Tallied no_tally items in
    (
      omega (arith, h.accepted),
      omega (arith, h.rejected),
      omega (arith, h.withdrawn),
      omega (arith, h.superseded),
      omega (arith, h.legacy_done),
      omega (arith, h.legacy_remarked),
      omega (
        arith,
        h.accepted,
        h.rejected,
        h.withdrawn,
        h.superseded,
        h.legacy_done,
        count_done_split items,
      ),
    )

resolutions_done : (items : List Item) → (resolution_counts items).done ≡ count is_done items
resolutions_done items = let (a, b, c, d, e, f, g) = resolution_counts-count items in g

abbrev pub sum_of : StatusCounts → ℕ
sum_of c = c.pending + c.active + c.done + c.blocked

status_counts-sum :
    (c : StatusCounts) (items : List Item)
    → sum_of (status_counts c items) ≡ sum_of c + length items
unfolding status_counts
status_counts-sum c [] = omega arith
status_counts-sum c (i ∷ is) =
    omega (arith, status_counts-sum (count_status i.status c) is, one c i.status)
  where
    one : (c : StatusCounts) (s : Status) → sum_of (count_status s c) ≡ sum_of c + 1
    one c s = ground arith

done_counts :
    (c : StatusCounts) (items : List Item)
    → (status_counts c items).done ≡ c.done + count is_done items
unfolding status_counts
done_counts c [] = omega arith
done_counts c (i ∷ is) = ground (arith, done_counts (count_status i.status c) is)

-- The four status counts of a track add up to its items, and its done count is the `done` of its
-- resolutions.
pub track_health-total :
    (items : List Item)
    → (sum_of (track_health items).counts ≡ (track_health items).total)
      × ((track_health items).counts.done ≡ (track_health items).resolutions.done)
unfolding track_health
track_health-total items = (
  omega (arith, status_counts-sum no_counts items),
  omega (arith, done_counts no_counts items, resolutions_done items),
)
