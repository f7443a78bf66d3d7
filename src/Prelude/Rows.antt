-- ===== src/Prelude/Rows.antt =====
-- A table is the list of its rows, oldest first. The four statements of SQL that the program uses,
-- with a Boolean for the WHERE clause.
use Prim.Native.Nat.{suc}
use mathlib.Core.Path.{◌≡◌, refl, sym, ap, subst}
use mathlib.Core.Logic.{inl, inr}
use mathlib.Core.Option
use mathlib.Core.Bool.{Bool, true, false, ◌&&◌}
use mathlib.Core.List.{List, [], ◌∷◌, ◌++◌}
use mathlib.Core.Option.{Option, none, some, some-injective}
use native.Mathlib.Omega.{arith}
use sprintctl.Prelude.Tests.{if◌then◌else◌, Bool-cases}
use sprintctl.Prelude.Lists.{All, length}

module _ {ℓ} {A : Type ℓ} where
  -- `SELECT … WHERE p`, and its first row
  unfoldable pub select : (A → Bool) → List A → List A
  select p [] = []
  select p (x ∷ xs) = let rest = select p xs in if p x then x ∷ rest else rest

  unfoldable pub find : (A → Bool) → List A → Option A
  find p [] = none
  find p (x ∷ xs) = let rest = find p xs in if p x then some x else rest

  -- `UPDATE … SET f WHERE p`
  unfoldable pub update : (A → Bool) → (A → A) → List A → List A
  update p f [] = []
  update p f (x ∷ xs) = (if p x then f x else x) ∷ update p f xs

  -- `DELETE … WHERE p`
  unfoldable pub delete : (A → Bool) → List A → List A
  delete p [] = []
  delete p (x ∷ xs) = let rest = delete p xs in if p x then rest else x ∷ rest

  -- What is found passes the test, and has whatever every row has.
  pub find_sound : (p : A → Bool) (xs : List A) (a : A) → find p xs ≡ some a → p a ≡ true
  unfolding find
  find_sound p [] a h = cc
  find_sound p (x ∷ xs) a h = elim (Bool-cases (p x)) [
    | inl e ↦ ground arith
    | inr e ↦ find_sound p xs a (rw e at h)
  ]

  pub find-All {κ} :
      (P : A → Type κ) (p : A → Bool) (xs : List A) (a : A) → find p xs ≡ some a → All P xs → P a
  unfolding find
  find-All P p [] a h k = cc
  find-All P p (x ∷ xs) a h k = elim (Bool-cases (p x)) [
    | inl e ↦ subst P (some-injective x a (rw e at h)) k.0
    | inr e ↦ find-All P p xs a (rw e at h) k.1
  ]

  -- A row that is found stays the first one when rows are added at the end.
  pub find-append :
      (p : A → Bool) (xs ys : List A) (a : A) → find p xs ≡ some a → find p (xs ++ ys) ≡ some a
  unfolding find
  find-append p [] ys a h = cc
  find-append p (x ∷ xs) ys a h = elim (Bool-cases (p x)) [
    | inl e ↦ rw e (rw e at h)
    | inr e ↦ rw e (find-append p xs ys a (rw e at h))
  ]

  pub find-append_none :
      (p : A → Bool) (xs ys : List A) → find p xs ≡ none → find p (xs ++ ys) ≡ find p ys
  unfolding find
  find-append_none p [] ys h = refl
  find-append_none p (x ∷ xs) ys h = elim (Bool-cases (p x)) [
    | inl e ↦ absurd (cc (rw e at h))
    | inr e ↦ rw e (find-append_none p xs ys (rw e at h))
  ]

  -- An update that does not disturb the test finds the updated row.
  pub find-update :
      (p q : A → Bool) (f : A → A)
      → ((x : A) → q x ≡ true → p (f x) ≡ p x)
      → (xs : List A)
      → find p (update q f xs) ≡ Option.map (λ x. if q x then f x else x) (find p xs)
  unfolding find update
  find-update p q f keep [] = refl
  find-update p q f keep (x ∷ xs) = elim (Bool-cases (p x)) [
    | inl e ↦ elim (Bool-cases (q x)) [
      | inl u ↦ rw (u, keep x u, e) (ap some (sym (rw u)))
      | inr u ↦ rw (u, e) (ap some (sym (rw u)))
    ]
    | inr e ↦ elim (Bool-cases (q x)) [
      | inl u ↦ rw (u, keep x u, e) (find-update p q f keep xs)
      | inr u ↦ rw (u, e) (find-update p q f keep xs)
    ]
  ]

  pub All-update {κ} :
      (P : A → Type κ) (p : A → Bool) (f : A → A) (xs : List A)
      → ((x : A) → p x ≡ true → P x → P (f x))
      → All P xs
      → All P (update p f xs)
  unfolding update
  All-update P p f [] step h = tt
  All-update P p f (x ∷ xs) step h = elim (Bool-cases (p x)) [
    | inl e ↦ rw e (step x e h.0, All-update P p f xs step h.1)
    | inr e ↦ rw e (h.0, All-update P p f xs step h.1)
  ]

  pub All-delete {κ} :
      (P : A → Type κ) (p : A → Bool) (xs : List A) → All P xs → All P (delete p xs)
  unfolding delete
  All-delete P p [] h = tt
  All-delete P p (x ∷ xs) h = elim (Bool-cases (p x)) [
    | inl e ↦ rw e (All-delete P p xs h.1)
    | inr e ↦ rw e (h.0, All-delete P p xs h.1)
  ]

  pub length-update : (p : A → Bool) (f : A → A) (xs : List A) → length (update p f xs) ≡ length xs
  unfolding update
  length-update p f [] = refl
  length-update p f (x ∷ xs) = ap suc (length-update p f xs)

  -- Nothing is left of the rows that an update takes out of the test.
  pub select-update_none :
      (p q : A → Bool) (f : A → A)
      → ((x : A) → q x ≡ false → p x ≡ false)
      → ((x : A) → q x ≡ true → p (f x) ≡ false)
      → (xs : List A) → select p (update q f xs) ≡ []
  unfolding select update
  select-update_none p q f miss out [] = refl
  select-update_none p q f miss out (x ∷ xs) = elim (Bool-cases (q x)) [
    | inl e ↦ rw (e, out x e) (select-update_none p q f miss out xs)
    | inr e ↦ rw (e, miss x e) (select-update_none p q f miss out xs)
  ]

  pub select-append :
      (p : A → Bool) (xs ys : List A) → select p (xs ++ ys) ≡ select p xs ++ select p ys
  unfolding select
  select-append p [] ys = refl
  select-append p (x ∷ xs) ys = elim (Bool-cases (p x)) [
    | inl e ↦ rw e (ap (λ l. x ∷ l) (select-append p xs ys))
    | inr e ↦ rw e (select-append p xs ys)
  ]

  -- A row of the answer is found again in the answer, and in the table with the query's test.
  pub find-select :
      (p q : A → Bool) (xs : List A) → find (λ x. q x && p x) xs ≡ find q (select p xs)
  unfolding find select
  find-select p q [] = refl
  find-select p q (x ∷ xs) = elim (Bool-cases (p x)) [
    | inl e ↦ elim (Bool-cases (q x)) [
      | inl u ↦ rw (e, u) refl
      | inr u ↦ rw (e, u) (find-select p q xs)
    ]
    | inr e ↦ elim (Bool-cases (q x)) [
      | inl u ↦ rw (e, u) (find-select p q xs)
      | inr u ↦ rw (e, u) (find-select p q xs)
    ]
  ]

  pub All-select {κ} :
      (P : A → Type κ) (p : A → Bool) (xs : List A) → All P xs → All P (select p xs)
  unfolding select
  All-select P p [] h = tt
  All-select P p (x ∷ xs) h = elim (Bool-cases (p x)) [
    | inl e ↦ rw e (h.0, All-select P p xs h.1)
    | inr e ↦ rw e (All-select P p xs h.1)
  ]

  -- What holds of the answer and of the rows left out holds of the table.
  pub All-of_select {κ} :
      (P : A → Type κ) (p : A → Bool) (xs : List A)
      → ((x : A) → p x ≡ false → P x)
      → All P (select p xs)
      → All P xs
  unfolding select
  All-of_select P p [] out h = tt
  All-of_select P p (x ∷ xs) out h = elim (Bool-cases (p x)) [
    | inl e ↦ let k : All P (x ∷ select p xs) = rw e at h in (k.0, All-of_select P p xs out k.1)
    | inr e ↦ (out x e, All-of_select P p xs out (rw e at h))
  ]

  pub select-none : (p : A → Bool) (xs : List A) → All (λ x. p x ≡ false) xs → select p xs ≡ []
  unfolding select
  select-none p [] h = refl
  select-none p (x ∷ xs) h = rw h.0 (select-none p xs h.1)

  pub select-append_none :
      (p : A → Bool) (xs : List A) (x : A) → p x ≡ false → select p (xs ++ x ∷ []) ≡ select p xs
  unfolding select
  select-append_none p [] x h = rw h refl
  select-append_none p (y ∷ ys) x h = elim (Bool-cases (p y)) [
    | inl e ↦ rw e (ap (λ l. y ∷ l) (select-append_none p ys x h))
    | inr e ↦ rw e (select-append_none p ys x h)
  ]

  -- Deleting the one row that the test takes, at the end.
  pub delete-append :
      (p : A → Bool) (xs : List A) (x : A)
      → p x ≡ true
      → All (λ y. p y ≡ false) xs
      → delete p (xs ++ x ∷ []) ≡ xs
  unfolding delete
  delete-append p [] x h k = rw h refl
  delete-append p (y ∷ ys) x h k = rw k.0 (ap (λ l. y ∷ l) (delete-append p ys x h k.1))
