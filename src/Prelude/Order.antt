-- ===== src/Prelude/Order.antt =====
-- Orders as Boolean tests, Python's order of texts and of tuples, and Python's `sort`.
use Prim.Native.Nat.{ℕ}
use Prim.Native.Char.{code}
use Prim.Native.String.{String}
use mathlib.Core.Path.{◌≡◌, refl, sym, ap, ◌∙◌}
use mathlib.Core.Logic.{inl, inr}
use mathlib.Core.Bool.{Bool, true, false}
use mathlib.Core.List.{List, [], ◌∷◌}
use native.Mathlib.Omega.{arith}
use text.Mathlib.TextEquality.{Char-path}
use sprintctl.Prelude.Tests.{
  leb, ◌==◌, Equality, eq_of_beq, beq_refl, nat_eq, if◌then◌else◌, Bool-cases,
}

-- An order that compares any two, and tells different ones apart.
pub record IsOrder {A : Type 0} (le : A → A → Bool) : Type 0 where
  pub total : (a b : A) → le a b ≡ false → le b a ≡ true
  pub trans : (a b c : A) → le a b ≡ true → le b c ≡ true → le a c ≡ true
  pub antisym : (a b : A) → le a b ≡ true → le b a ≡ true → a ≡ b

pub leb-IsOrder : IsOrder leb
leb-IsOrder = record {
  total = λ a b h. ground arith;
  trans = λ a b c h k. ground arith;
  antisym = λ a b h k. ground arith;
}

-- Python compares two sequences by the first place where they differ.
module _ {A : Type 0} ⦃e : Equality A⦄ (le : A → A → Bool) where
  abbrev pub list_leb : List A → List A → Bool
  list_leb [] ys = true
  list_leb (x ∷ xs) [] = false
  list_leb (x ∷ xs) (y ∷ ys) = let rest = list_leb xs ys in if x == y then rest else le x y

  beq_false_sym : (x y : A) → (x == y) ≡ false → (y == x) ≡ false
  beq_false_sym x y h = elim (Bool-cases (y == x)) [
    | inl u ↦ absurd (cc (h, ap (λ z. z == y) (eq_of_beq y x u), beq_refl y))
    | inr u ↦ u
  ]

  list_leb-same :
      (x y : A) (xs ys : List A)
      → (x == y) ≡ true
      → (list_leb (x ∷ xs) (y ∷ ys) ≡ list_leb xs ys)
        × (list_leb (y ∷ ys) (x ∷ xs) ≡ list_leb ys xs)
  list_leb-same x y xs ys u =
      let back : (y == x) ≡ true = ap (λ z. z == x) (sym (eq_of_beq x y u)) ∙ beq_refl x in
      (rw u, rw back)

  list_leb-other :
      (x y : A) (xs ys : List A)
      → (x == y) ≡ false
      → (list_leb (x ∷ xs) (y ∷ ys) ≡ le x y) × (list_leb (y ∷ ys) (x ∷ xs) ≡ le y x)
  list_leb-other x y xs ys u = (rw u, rw (beq_false_sym x y u))

  module _ (o : IsOrder le) where
    list_leb-total : (xs ys : List A) → list_leb xs ys ≡ false → list_leb ys xs ≡ true
    list_leb-total [] ys h = cc
    list_leb-total (x ∷ xs) [] h = refl
    list_leb-total (x ∷ xs) (y ∷ ys) h = elim (Bool-cases (x == y)) [
      | inl u ↦ let (l, r) = list_leb-same x y xs ys u in r ∙ list_leb-total xs ys (sym l ∙ h)
      | inr u ↦ let (l, r) = list_leb-other x y xs ys u in r ∙ o.total x y (sym l ∙ h)
    ]

    list_leb-antisym : (xs ys : List A) → list_leb xs ys ≡ true → list_leb ys xs ≡ true → xs ≡ ys
    list_leb-antisym [] [] h k = refl
    list_leb-antisym [] (y ∷ ys) h k = cc
    list_leb-antisym (x ∷ xs) [] h k = cc
    list_leb-antisym (x ∷ xs) (y ∷ ys) h k = elim (Bool-cases (x == y)) [
      | inl u ↦
          let (l, r) = list_leb-same x y xs ys u in
          cc (eq_of_beq x y u, list_leb-antisym xs ys (sym l ∙ h) (sym r ∙ k))
      | inr u ↦
          let (l, r) = list_leb-other x y xs ys u in
          absurd (cc (u, ap (λ z. z == y) (o.antisym x y (sym l ∙ h) (sym r ∙ k)), beq_refl y))
    ]

    list_leb_apart :
        (x y z : A) (xs zs : List A)
        → (x == y) ≡ false
        → le x y ≡ true
        → le y z ≡ true
        → list_leb (x ∷ xs) (z ∷ zs) ≡ true
    list_leb_apart x y z xs zs u h k = elim (Bool-cases (x == z)) [
      | inl w ↦
          let back : le y x ≡ true = ap (le y) (eq_of_beq x z w) ∙ k in
          absurd (cc (u, ap (λ a. a == y) (o.antisym x y h back), beq_refl y))
      | inr w ↦ (list_leb-other x z xs zs w).0 ∙ o.trans x y z h k
    ]

    list_leb_trans :
        (xs ys zs : List A) → list_leb xs ys ≡ true → list_leb ys zs ≡ true → list_leb xs zs ≡ true
    list_leb_trans [] ys zs h k = refl
    list_leb_trans (x ∷ xs) [] zs h k = cc
    list_leb_trans (x ∷ xs) (y ∷ ys) [] h k = cc
    list_leb_trans (x ∷ xs) (y ∷ ys) (z ∷ zs) h k = elim (Bool-cases (x == y)) [
      | inl u ↦ elim (Bool-cases (y == z)) [
        | inl v ↦
            let q : (x == z) ≡ true = ap (λ w. w == z) (eq_of_beq x y u) ∙ v in
            (list_leb-same x z xs zs q).0
            ∙ list_leb_trans xs ys zs (sym (list_leb-same x y xs ys u).0 ∙ h)
                (sym (list_leb-same y z ys zs v).0 ∙ k)
        | inr v ↦
            ap (λ w. list_leb (w ∷ xs) (z ∷ zs)) (eq_of_beq x y u)
            ∙ (list_leb-other y z xs zs v).0
            ∙ sym (list_leb-other y z ys zs v).0
            ∙ k
      ]
      | inr u ↦ elim (Bool-cases (y == z)) [
        | inl v ↦
            ap (λ w. list_leb (x ∷ xs) (w ∷ zs)) (sym (eq_of_beq y z v))
            ∙ (list_leb-other x y xs zs u).0
            ∙ sym (list_leb-other x y xs ys u).0
            ∙ h
        | inr v ↦
            list_leb_apart x y z xs zs u (sym (list_leb-other x y xs ys u).0 ∙ h)
              (sym (list_leb-other y z ys zs v).0 ∙ k)
      ]
    ]

    pub list_leb-IsOrder : IsOrder list_leb
    list_leb-IsOrder = record {
      total = list_leb-total;
      trans = list_leb_trans;
      antisym = list_leb-antisym;
    }

-- The order along a function, which is an order when the function tells different values apart.
abbrev pub by_key : {A B : Type 0} → (B → B → Bool) → (A → B) → A → A → Bool
by_key le key a b = le (key a) (key b)

pub by_key-IsOrder :
    {A B : Type 0} (le : B → B → Bool) (key : A → B)
    → ((a b : A) → key a ≡ key b → a ≡ b)
    → IsOrder le
    → IsOrder (by_key le key)
by_key-IsOrder le key apart o = record {
  total = λ a b. o.total (key a) (key b);
  trans = λ a b c. o.trans (key a) (key b) (key c);
  antisym = λ a b h k. apart a b (o.antisym (key a) (key b) h k);
}

-- Two texts compare as the code points that they hold.
abbrev pub codes : String → List ℕ
codes String.[] = []
codes (String.◌∷◌ c s) = code c ∷ codes s

codes-apart : (s t : String) → codes s ≡ codes t → s ≡ t
codes-apart String.[] String.[] h = refl
codes-apart String.[] (String.◌∷◌ d t) h = cc
codes-apart (String.◌∷◌ c s) String.[] h = cc
codes-apart (String.◌∷◌ c s) (String.◌∷◌ d t) h = cc (Char-path c d (cc), codes-apart s t (cc))

abbrev pub text_leb : String → String → Bool
text_leb = by_key (list_leb leb) codes

pub text_leb-IsOrder : IsOrder text_leb
text_leb-IsOrder =
    by_key-IsOrder (list_leb leb) codes codes-apart (list_leb-IsOrder leb leb-IsOrder)
