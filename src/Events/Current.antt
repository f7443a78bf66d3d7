-- ===== src/Events/Current.antt =====
-- The active take-ups that are reported: of those with the same key, the last.
use sprintctl.Prelude.{
  ◌≡◌, refl, sym, ap, ◌∙◌, subst, Bool, true, false, not, List, [], ◌∷◌, ◌++◌, any, select, All,
  All-mono, ◌==◌, Equality, nat_eq, string_eq, option_eq, eq_of_beq, if◌then◌else◌, arith,
  Bool-cases, inl, inr,
}
use mathlib.Core.List.Perm
use mathlib.Core.List.{Perm, append-nil, append_assoc, perm_append_singleton}
use sprintctl.Events.Takeups.{TakeupEvent, same_key, put_current, current_by_key}

-- The rows that no later one has the key of.
unfoldable pub latest : List TakeupEvent → List TakeupEvent
latest [] = []
latest (e ∷ es) = let rest = latest es in if any (same_key e) es then rest else e ∷ rest

beq_sym : {A : Type 0} ⦃q : Equality A⦄ (x y : A) → (x == y) ≡ (y == x)
beq_sym x y = elim (Bool-cases (x == y)) [
  | inl u ↦ ap (λ z. z == y) (eq_of_beq x y u) ∙ ap (λ z. y == z) (sym (eq_of_beq x y u))
  | inr u ↦ elim (Bool-cases (y == x)) [
    | inl v ↦ ap (λ z. z == y) (sym (eq_of_beq y x v)) ∙ ap (λ z. y == z) (eq_of_beq y x v)
    | inr v ↦ u ∙ sym v
  ]
]

same_key_sym : (a b : TakeupEvent) → same_key a b ≡ same_key b a
same_key_sym a b =
    rw
      (
        beq_sym a.sprint_id b.sprint_id,
        beq_sym a.actor b.actor,
        beq_sym a.payload.instance_id b.payload.instance_id,
      )
      refl

-- Rows with one key have it or not together.
same_key_trans : (a b c : TakeupEvent) → same_key a b ≡ true → same_key b c ≡ same_key a c
same_key_trans a b c h =
    let sprints : a.sprint_id ≡ b.sprint_id = eq_of_beq a.sprint_id b.sprint_id (ground arith) in
    let actors : a.actor ≡ b.actor = eq_of_beq a.actor b.actor (ground arith) in
    let instances : a.payload.instance_id ≡ b.payload.instance_id =
      eq_of_beq a.payload.instance_id b.payload.instance_id (ground arith) in
    rw (sprints, actors, instances) refl

apart_too :
    (x y e : TakeupEvent) → same_key x e ≡ true → same_key x y ≡ false → same_key y e ≡ false
apart_too x y e h k = same_key_sym y e ∙ same_key_trans x e y h ∙ k

-- No two rows have the same key.
abbrev Apart : List TakeupEvent → Type 0
Apart [] = Unit
Apart (x ∷ xs) = All (λ y. same_key x y ≡ false) xs × Apart xs

All-put_current :
    (P : TakeupEvent → Type 0) (e : TakeupEvent) (xs : List TakeupEvent)
    → P e
    → All P xs
    → All P (put_current e xs)
unfolding put_current
All-put_current P e [] h k = (h, tt)
All-put_current P e (x ∷ xs) h k = elim (Bool-cases (same_key x e)) [
  | inl u ↦ rw u (h, k.1)
  | inr u ↦ rw u (k.0, All-put_current P e xs h k.1)
]

put_current-Apart : (e : TakeupEvent) (xs : List TakeupEvent) → Apart xs → Apart (put_current e xs)
unfolding put_current
put_current-Apart e [] h = (tt, tt)
put_current-Apart e (x ∷ xs) h = elim (Bool-cases (same_key x e)) [
  | inl u ↦ rw u (
    All-mono (λ y. same_key x y ≡ false) (λ y. same_key e y ≡ false) xs
        (λ y k. same_key_trans x e y u ∙ k) h.0,
    h.1,
  )
  | inr u ↦
      rw u (All-put_current (λ y. same_key x y ≡ false) e xs u h.0, put_current-Apart e xs h.1)
]

-- The rows of a table that no row of a list has the key of, and a row unless one has.
abbrev passes : List TakeupEvent → TakeupEvent → Bool
passes es x = not (any (same_key x) es)

abbrev unless_later : TakeupEvent → List TakeupEvent → List TakeupEvent
unless_later e es = if any (same_key e) es then [] else e ∷ []

select-same :
    (e : TakeupEvent) (es xs : List TakeupEvent)
    → All (λ y. same_key y e ≡ false) xs
    → select (passes (e ∷ es)) xs ≡ select (passes es) xs
unfolding select
select-same e es [] h = refl
select-same e es (x ∷ xs) h =
    rw (h.0) (ap (λ l. if passes es x then x ∷ l else l) (select-same e es xs h.1))

select-all : (xs : List TakeupEvent) → select (passes []) xs ≡ xs
unfolding select
select-all [] = refl
select-all (x ∷ xs) = ap (λ l. x ∷ l) (select-all xs)

put_current-kept :
    (e : TakeupEvent) (es xs : List TakeupEvent)
    → Apart xs
    → Perm
        (select (passes es) (put_current e xs))
        (select (passes (e ∷ es)) xs ++ unless_later e es)
unfolding select put_current
put_current-kept e es [] h = elim (Bool-cases (any (same_key e) es)) [
  | inl u ↦ rw u Perm.nil
  | inr u ↦ rw u (Perm.refl (e ∷ []))
]
put_current-kept e es (x ∷ xs) h = elim (Bool-cases (same_key x e)) [
  | inl u ↦
      let others = select-same e es xs (
        All-mono (λ y. same_key x y ≡ false) (λ y. same_key y e ≡ false) xs
          (λ y k. apart_too x y e u k) h.0) in
      elim (Bool-cases (any (same_key e) es)) [
        | inl v ↦
            rw (u, v, others)
              (subst (Perm (select (passes es) xs)) (sym (append-nil (select (passes es) xs)))
                (Perm.refl (select (passes es) xs)))
        | inr v ↦ rw (u, v, others) (Perm.symm (perm_append_singleton e (select (passes es) xs)))
      ]
  | inr u ↦ elim (Bool-cases (any (same_key x) es)) [
    | inl v ↦ rw (u, v) (put_current-kept e es xs h.1)
    | inr v ↦ rw (u, v) (Perm.cons x (put_current-kept e es xs h.1))
  ]
]

latest-cons :
    (e : TakeupEvent) (es : List TakeupEvent) → latest (e ∷ es) ≡ unless_later e es ++ latest es
unfolding latest
latest-cons e es = elim (Bool-cases (any (same_key e) es)) [ inl u ↦ rw u refl | inr u ↦ rw u refl ]

current-Perm :
    (es xs : List TakeupEvent)
    → Apart xs
    → Perm (current_by_key xs es) (select (passes es) xs ++ latest es)
unfolding current_by_key latest
current-Perm [] xs h = rw (select-all xs, append-nil xs) (Perm.refl xs)
current-Perm (e ∷ es) xs h =
    let later = current-Perm es (put_current e xs) (put_current-Apart e xs h) in
    let kept = Perm.append_right (latest es) (put_current-kept e es xs h) in
    let shape : (select (passes (e ∷ es)) xs ++ unless_later e es) ++ latest es
        ≡ select (passes (e ∷ es)) xs ++ latest (e ∷ es) =
      append_assoc (select (passes (e ∷ es)) xs) (unless_later e es) (latest es)
      ∙ ap (λ l. select (passes (e ∷ es)) xs ++ l) (sym (latest-cons e es)) in
    subst (Perm (current_by_key xs (e ∷ es))) shape (Perm.trans later kept)

-- The rows that are reported are the last of each key.
pub current_by_key-Perm : (es : List TakeupEvent) → Perm (current_by_key [] es) (latest es)
unfolding select
current_by_key-Perm es = current-Perm es [] tt
