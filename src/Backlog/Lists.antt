-- ===== src/Backlog/Lists.antt =====
-- Rows that are added to a table, and the answers that a list of rows gives.
use sprintctl.Prelude.{
  ℕ, ◌+◌, Bool, true, false, ◌||◌, Option, none, some, List, [], ◌∷◌, ◌++◌, map, find, somes,
  contains, ◌==◌, nat_eq, ◌≡◌, ◌≤◌, refl, ◌∙◌, option_eq, All, eq_of_beq, Option-cases, inl, inr,
  beq_refl, arith, find-append, find-append_none,
}
use sprintctl.Domain.{Item}
use sprintctl.Schema.{item_is}

-- A row at the end of the table is found, or one before it with the same id.
pub find-added :
    {A : Type 0} (p : A → Bool) (xs : List A) (x : A)
    → p x ≡ true
    → (a : A) × (find p (xs ++ x ∷ []) ≡ some a)
unfolding find
find-added p xs x h = elim (Option-cases (find p xs)) [
  | inl e ↦ (x, find-append_none p xs (x ∷ []) e ∙ rw h refl)
  | inr (a, e) ↦ (a, find-append p xs (x ∷ []) a e)
]

pub find-one : {A : Type 0} (p : A → Bool) (x : A) → p x ≡ true → find p (x ∷ []) ≡ some x
unfolding find
find-one p x h = rw h refl

neither : (a b : Bool) → (a || b) ≡ false → (a ≡ false) × (b ≡ false)
neither a b h = (ground arith, ground arith)

other_of : (a b : Bool) → (a || b) ≡ true → a ≡ false → b ≡ true
other_of a b h k = ground arith

or_false : (a : Bool) → (a || false) ≡ true → a ≡ true
or_false a h = ground arith

-- What a list of answers holds stays when rows are added, and a new row adds its answer.
module _ {A : Type 0} (f : A → Option ℕ) (n : ℕ) where
  pub contains-more :
      (xs ys : List A)
      → contains (somes (map f xs)) n ≡ true
      → contains (somes (map f (xs ++ ys))) n ≡ true
  contains-more [] ys h = cc
  contains-more (x ∷ xs) ys h = elim (Option-cases (f x)) [
    | inl e ↦ rw e (contains-more xs ys (rw e at h))
    | inr (m, e) ↦
        let k : (m == n || contains (somes (map f xs)) n) ≡ true = rw e at h in
        rw e (ground (arith, contains-more xs ys, k))
  ]

  pub contains-added :
      (xs : List A) (x : A) → f x ≡ some n → contains (somes (map f (xs ++ x ∷ []))) n ≡ true
  contains-added [] x h = rw (h, beq_refl n) refl
  contains-added (y ∷ ys) x h = elim (Option-cases (f y)) [
    | inl e ↦ rw e (contains-added ys x h)
    | inr (m, e) ↦ rw e (ground (arith, contains-added ys x h))
  ]

  pub links-none :
      (xs : List A) → contains (somes (map f xs)) n ≡ false → find (λ x. f x == some n) xs ≡ none
  unfolding find
  links-none [] h = refl
  links-none (x ∷ xs) h = elim (Option-cases (f x)) [
    | inl e ↦ rw e (links-none xs (rw e at h))
    | inr (m, e) ↦
        let k : (m == n || contains (somes (map f xs)) n) ≡ false = rw e at h in
        let (apart, rest) = neither (m == n) (contains (somes (map f xs)) n) k in
        rw (e, apart) (links-none xs rest)
  ]

  pub contains-last :
      (xs : List A) (x : A) (m : ℕ)
      → f x ≡ some m
      → contains (somes (map f xs)) n ≡ false
      → contains (somes (map f (xs ++ x ∷ []))) n ≡ true
      → m ≡ n
  contains-last [] x m e unseeded linked_now =
      let k : (m == n || false) ≡ true = rw e at linked_now in eq_of_beq m n (or_false (m == n) k)
  contains-last (y ∷ ys) x m e unseeded linked_now = elim (Option-cases (f y)) [
    | inl u ↦ contains-last ys x m e (rw u at unseeded) (rw u at linked_now)
    | inr (i, u) ↦
        let k : (i == n || contains (somes (map f ys)) n) ≡ false = rw u at unseeded in
        let l : (i == n || contains (somes (map f (ys ++ x ∷ []))) n) ≡ true = rw u at linked_now in
        let (apart, rest) = neither (i == n) (contains (somes (map f ys)) n) k in
        contains-last ys x m e rest
          (other_of (i == n) (contains (somes (map f (ys ++ x ∷ []))) n) l apart)
  ]

pub no_item_above :
    (m : ℕ) (is : List Item) → All (λ i. i.id ≤ m) is → find (item_is (m + 1)) is ≡ none
unfolding find
no_item_above m [] h = refl
no_item_above m (i ∷ is) h = ground (arith, h.0, no_item_above m is h.1)
