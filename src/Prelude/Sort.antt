-- ===== src/Prelude/Sort.antt =====
-- Python's `sort`, which is stable: an insertion of each row before those whose key is not smaller.
use mathlib.Core.Path.{◌≡◌, refl, sym, ap, ◌∙◌}
use mathlib.Core.Logic.{inl, inr}
use mathlib.Core.Bool.{Bool, true, false}
use mathlib.Core.List.{List, [], ◌∷◌}
use mathlib.Core.List.Perm
use mathlib.Core.List.{Perm, Permᴰ}
use mathlib.Core.List.Permᴰ.{nil, cons, swap, trans}
use sprintctl.Prelude.Tests.{if◌then◌else◌, Bool-cases}
use sprintctl.Prelude.Lists.{All, All-mono}
use sprintctl.Prelude.Order.{IsOrder}

module _ {A : Type 0} (le : A → A → Bool) where
  abbrev pub insert : A → List A → List A
  insert x [] = x ∷ []
  insert x (y ∷ ys) = let later = insert x ys in if le x y then x ∷ y ∷ ys else y ∷ later

  abbrev pub sort : List A → List A
  sort [] = []
  sort (x ∷ xs) = insert x (sort xs)

  -- Every later row has a key at least as large.
  abbrev pub IsSorted : List A → Type 0
  IsSorted [] = Unit
  IsSorted (x ∷ xs) = All (λ y. le x y ≡ true) xs × IsSorted xs

  insert-here : (x y : A) (ys : List A) → le x y ≡ true → insert x (y ∷ ys) ≡ x ∷ y ∷ ys
  insert-here x y ys h = rw h

  insert-there : (x y : A) (ys : List A) → le x y ≡ false → insert x (y ∷ ys) ≡ y ∷ insert x ys
  insert-there x y ys h = rw h

  All-insert {κ} : (P : A → Type κ) (x : A) (ys : List A) → P x → All P ys → All P (insert x ys)
  All-insert P x [] h k = (h, tt)
  All-insert P x (y ∷ ys) h k = elim (Bool-cases (le x y)) [
    | inl e ↦ rw e (h, k)
    | inr e ↦ rw e (k.0, All-insert P x ys h k.1)
  ]

  pub All-sort {κ} : (P : A → Type κ) (xs : List A) → All P xs → All P (sort xs)
  All-sort P [] h = tt
  All-sort P (x ∷ xs) h = All-insert P x (sort xs) h.0 (All-sort P xs h.1)

  Perm-insert : (x : A) (ys : List A) → Perm (insert x ys) (x ∷ ys)
  Perm-insert x [] = Perm.refl (x ∷ [])
  Perm-insert x (y ∷ ys) = elim (Bool-cases (le x y)) [
    | inl e ↦ rw e (Perm.refl (x ∷ y ∷ ys))
    | inr e ↦ rw e (Perm.trans (Perm.cons y (Perm-insert x ys)) (Perm.swap x y ys))
  ]

  pub Perm-sort : (xs : List A) → Perm (sort xs) xs
  Perm-sort [] = Perm.nil
  Perm-sort (x ∷ xs) = Perm.trans (Perm-insert x (sort xs)) (Perm.cons x (Perm-sort xs))

  module _ (o_total : (a b : A) → le a b ≡ false → le b a ≡ true)
      (o_trans : (a b c : A) → le a b ≡ true → le b c ≡ true → le a c ≡ true) where
    All-le :
        (x y : A) (ys : List A)
        → le x y ≡ true
        → All (λ z. le y z ≡ true) ys
        → All (λ z. le x z ≡ true) ys
    All-le x y ys h k =
        All-mono (λ z. le y z ≡ true) (λ z. le x z ≡ true) ys (λ z. o_trans x y z h) k

    IsSorted-insert : (x : A) (ys : List A) → IsSorted ys → IsSorted (insert x ys)
    IsSorted-insert x [] h = (tt, tt)
    IsSorted-insert x (y ∷ ys) h = elim (Bool-cases (le x y)) [
      | inl e ↦ rw e ((e, All-le x y ys e h.0), h)
      | inr e ↦
          rw e (All-insert (λ z. le y z ≡ true) x ys (o_total x y e) h.0, IsSorted-insert x ys h.1)
    ]

    pub IsSorted-sort : (xs : List A) → IsSorted (sort xs)
    IsSorted-sort [] = tt
    IsSorted-sort (x ∷ xs) = IsSorted-insert x (sort xs) (IsSorted-sort xs)

  -- A sort by an order that tells different rows apart forgets the order that they came in.
  module _ (o : IsOrder le) where
    insert-ordered :
        (x y : A) (zs : List A)
        → le x y ≡ true
        → le y x ≡ false
        → insert x (insert y zs) ≡ insert y (insert x zs)
    insert-ordered x y [] h k = rw (h, k)
    insert-ordered x y (z ∷ zs) h k = elim (Bool-cases (le y z)) [
      | inl e ↦
          ap (insert x) (insert-here y z zs e)
          ∙ insert-here x y (z ∷ zs) h
          ∙ ap (λ l. x ∷ l) (sym (insert-here y z zs e))
          ∙ sym (insert-there y x (z ∷ zs) k)
          ∙ ap (insert y) (sym (insert-here x z zs (o.trans x y z h e)))
      | inr e ↦ elim (Bool-cases (le x z)) [
        | inl u ↦
            ap (insert x) (insert-there y z zs e)
            ∙ insert-here x z (insert y zs) u
            ∙ ap (λ l. x ∷ l) (sym (insert-there y z zs e))
            ∙ sym (insert-there y x (z ∷ zs) k)
            ∙ ap (insert y) (sym (insert-here x z zs u))
        | inr u ↦
            ap (insert x) (insert-there y z zs e)
            ∙ insert-there x z (insert y zs) u
            ∙ ap (λ l. z ∷ l) (insert-ordered x y zs h k)
            ∙ sym (insert-there y z (insert x zs) e)
            ∙ ap (insert y) (sym (insert-there x z zs u))
      ]
    ]

    insert-insert : (x y : A) (zs : List A) → insert x (insert y zs) ≡ insert y (insert x zs)
    insert-insert x y zs = elim (Bool-cases (le x y)) [
      | inl h ↦ elim (Bool-cases (le y x)) [
        | inl k ↦
            let same = o.antisym x y h k in
            ap (λ w. insert w (insert y zs)) same ∙ ap (λ w. insert y (insert w zs)) (sym same)
        | inr k ↦ insert-ordered x y zs h k
      ]
      | inr h ↦ sym (insert-ordered y x zs (o.total x y h) h)
    ]

    pub sort_permuted : (xs ys : List A) → Permᴰ xs ys → sort xs ≡ sort ys
    sort_permuted _ _ nil = refl
    sort_permuted _ _ (cons e p) = (λ i. insert (e i) (sort_permuted _ _ p i))
    sort_permuted _ _ (swap {l = zs} e f) =
        insert-insert _ _ (sort zs) ∙ (λ i. insert (f i) (insert (e i) (sort zs)))
    sort_permuted _ _ (trans p q) = sort_permuted _ _ p ∙ sort_permuted _ _ q
