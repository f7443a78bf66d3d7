-- ===== src/Events/Paired.antt =====
-- What the search for the take-up of a release keeps.
use sprintctl.Prelude.{
  ℕ, ◌≡◌, refl, sym, ap, ◌∙◌, false, Option, none, some, List, [], ◌∷◌, ◌++◌, map, String, All,
  nat_eq, Bool-cases, inl, inr, subst,
}
use mathlib.Core.List.Perm
use mathlib.Core.List.{Perm, append_assoc, perm_append_singleton, perm_middle}
use sprintctl.Events.Takeups.{
  TakeupEvent, Matching, event_is, pop_event, drop_stale, ids_of, set_ids, pop_candidate,
  by_named_id, by_id, by_exact_key, by_actor_unless, by_actor, or_try, settle, same_key, same_actor,
}

abbrev pub the_one : Option TakeupEvent → List TakeupEvent
the_one none = []
the_one (some e) = e ∷ []

pub map-append :
    {A B : Type 0} (f : A → B) (xs ys : List A) → map f (xs ++ ys) ≡ map f xs ++ map f ys
map-append f [] ys = refl
map-append f (x ∷ xs) ys = ap (λ l. f x ∷ l) (map-append f xs ys)

-- The event has another id.
abbrev pub Other : ℕ → TakeupEvent → Type 0
Other n e = event_is n e ≡ false

-- What a search for a take-up does to the variables of the loop.
pub record Taken (m : Matching) (found : Option TakeupEvent × Matching) : Type 0 where
  pub active : Perm m.active_by_event_id (the_one found.0 ++ found.1.active_by_event_id)
  pub released : found.1.released ≡ m.released
  pub unmatched : found.1.unmatched_releases ≡ m.unmatched_releases
  pub inherits :
      (n : ℕ) → All (Other n) m.active_by_event_id → All (Other n) found.1.active_by_event_id

pop_event-Perm :
    (n : ℕ) (xs : List TakeupEvent) → Perm xs (the_one (pop_event n xs).0 ++ (pop_event n xs).1)
unfolding pop_event
pop_event-Perm n [] = Perm.nil
pop_event-Perm n (x ∷ xs) = elim (Bool-cases (event_is n x)) [
  | inl e ↦ rw e (Perm.refl (x ∷ xs))
  | inr e ↦ rw e (
      Perm.trans (Perm.cons x (pop_event-Perm n xs))
        (Perm.symm (perm_middle (the_one (pop_event n xs).0) (pop_event n xs).1)))
]

pop_event-All :
    (n : ℕ) (P : TakeupEvent → Type 0) (xs : List TakeupEvent) → All P xs → All P (pop_event n xs).1
unfolding pop_event
pop_event-All n P [] h = tt
pop_event-All n P (x ∷ xs) h = elim (Bool-cases (event_is n x)) [
  | inl e ↦ rw e h.1
  | inr e ↦ rw e (h.0, pop_event-All n P xs h.1)
]

Taken-none : (m : Matching) → Taken m (none, m)
Taken-none m = record {
  active = Perm.refl m.active_by_event_id;
  released = refl;
  unmatched = refl;
  inherits = λ n h. h;
}

popped-Taken :
    (n : ℕ) (m : Matching) (f : List TakeupEvent → Matching)
    → ((l : List TakeupEvent) → (f l).active_by_event_id ≡ l)
    → ((l : List TakeupEvent) → (f l).released ≡ m.released)
    → ((l : List TakeupEvent) → (f l).unmatched_releases ≡ m.unmatched_releases)
    → Taken m ((pop_event n m.active_by_event_id).0, f (pop_event n m.active_by_event_id).1)
popped-Taken n m f active released unmatched =
    let (o, rest) = pop_event n m.active_by_event_id in
    record {
      active = rw active (pop_event-Perm n m.active_by_event_id);
      released = released rest;
      unmatched = unmatched rest;
      inherits = λ k h. rw active (pop_event-All n (Other k) m.active_by_event_id h);
    }

candidate-Taken :
    (ids : List ℕ) (m : Matching) (f : List TakeupEvent → List ℕ → Matching)
    → ((l : List TakeupEvent) (ns : List ℕ) → (f l ns).active_by_event_id ≡ l)
    → ((l : List TakeupEvent) (ns : List ℕ) → (f l ns).released ≡ m.released)
    → ((l : List TakeupEvent) (ns : List ℕ) → (f l ns).unmatched_releases ≡ m.unmatched_releases)
    → Taken m (
      (pop_candidate m.active_by_event_id ids).0,
      f (pop_candidate m.active_by_event_id ids).1 (pop_candidate m.active_by_event_id ids).2,
    )
candidate-Taken [] m f active released unmatched = record {
  active = rw active (Perm.refl m.active_by_event_id);
  released = released m.active_by_event_id [];
  unmatched = unmatched m.active_by_event_id [];
  inherits = λ k h. rw active h;
}
candidate-Taken (n ∷ ns) m f active released unmatched =
    popped-Taken n m (λ l. f l ns) (λ l. active l ns) (λ l. released l ns) (λ l. unmatched l ns)

by_id-Taken : (n : Option ℕ) (m : Matching) → Taken m (by_named_id n m)
by_id-Taken none m = Taken-none m
by_id-Taken (some n) m =
    popped-Taken n m (λ l. record m { active_by_event_id = l }) (λ l. refl) (λ l. refl) (λ l. refl)

by_exact_key-Taken : (r : TakeupEvent) (m : Matching) → Taken m (by_exact_key r m)
by_exact_key-Taken r m =
    candidate-Taken (drop_stale m.active_by_event_id (ids_of same_key r m.active_by_key)) m
      (λ l ns. record m {
        active_by_event_id = l;
        active_by_key = set_ids same_key r ns m.active_by_key;
      })
      (λ l ns. refl) (λ l ns. refl) (λ l ns. refl)

by_actor-Taken :
    (i : Option String) (r : TakeupEvent) (m : Matching) → Taken m (by_actor_unless i r m)
by_actor-Taken (some i) r m = Taken-none m
by_actor-Taken none r m =
    candidate-Taken (drop_stale m.active_by_event_id (ids_of same_actor r m.active_by_actor)) m
      (λ l ns. record m {
        active_by_event_id = l;
        active_by_actor = set_ids same_actor r ns m.active_by_actor;
      })
      (λ l ns. refl) (λ l ns. refl) (λ l ns. refl)

or_try-Taken :
    (m : Matching) (next : Matching → Option TakeupEvent × Matching)
    (p : Option TakeupEvent × Matching)
    → Taken m p
    → ((k : Matching) → Taken k (next k))
    → Taken m (or_try next p)
or_try-Taken m next (some e, k) t h = t
or_try-Taken m next (none, k) t h =
    let u = h k in
    record {
      active = Perm.trans t.active u.active;
      released = u.released ∙ t.released;
      unmatched = u.unmatched ∙ t.unmatched;
      inherits = λ n a. u.inherits n (t.inherits n a);
    }

pub search-Taken :
    (r : TakeupEvent) (m : Matching)
    → Taken m (or_try (by_actor r) (or_try (by_exact_key r) (by_id r m)))
search-Taken r m =
    or_try-Taken m (by_actor r) (or_try (by_exact_key r) (by_id r m))
      (or_try-Taken m (by_exact_key r) (by_id r m) (by_id-Taken r.payload.matched_takeup_event_id m)
        (by_exact_key-Taken r))
      (by_actor-Taken r.payload.instance_id r)

-- The take-ups and the releases that the variables hold.
abbrev pub held_takeups : Matching → List TakeupEvent
held_takeups m = m.active_by_event_id ++ map (λ p. p.0) m.released

abbrev pub held_releases : Matching → List TakeupEvent
held_releases m = map (λ p. p.1) m.released ++ m.unmatched_releases

pub settle-takeups :
    (r : TakeupEvent) (m : Matching) (p : Option TakeupEvent × Matching)
    → Taken m p
    → Perm (held_takeups m) (held_takeups (settle r p))
settle-takeups r m (none, k) t =
    rw (sym t.released) (Perm.append_right (map (λ p. p.0) k.released) t.active)
settle-takeups r m (some e, k) t =
    let firsts = map (λ (p : TakeupEvent × TakeupEvent). p.0) k.released in
    let shape : held_takeups (settle r (some e, k)) ≡ (k.active_by_event_id ++ firsts) ++ e ∷ [] =
      ap (λ l. k.active_by_event_id ++ l) (map-append (λ p. p.0) k.released ((e, r) ∷ []))
      ∙ sym (append_assoc k.active_by_event_id firsts (e ∷ [])) in
    rw (sym t.released) (
      subst (Perm (m.active_by_event_id ++ firsts)) (sym shape) (
        Perm.trans (Perm.append_right firsts t.active)
          (Perm.symm (perm_append_singleton e (k.active_by_event_id ++ firsts)))))

pub settle-releases :
    (r : TakeupEvent) (m : Matching) (p : Option TakeupEvent × Matching)
    → Taken m p
    → Perm (r ∷ held_releases m) (held_releases (settle r p))
settle-releases r m (none, k) t =
    let seconds = map (λ (p : TakeupEvent × TakeupEvent). p.1) k.released in
    rw (sym t.released, sym t.unmatched)
      (subst (Perm (r ∷ (seconds ++ k.unmatched_releases)))
        (append_assoc seconds k.unmatched_releases (r ∷ []))
        (Perm.symm (perm_append_singleton r (seconds ++ k.unmatched_releases))))
settle-releases r m (some e, k) t =
    let seconds = map (λ (p : TakeupEvent × TakeupEvent). p.1) k.released in
    let shape : held_releases (settle r (some e, k)) ≡ seconds ++ r ∷ k.unmatched_releases =
      ap (λ l. l ++ k.unmatched_releases) (map-append (λ p. p.1) k.released ((e, r) ∷ []))
      ∙ append_assoc seconds (r ∷ []) k.unmatched_releases in
    rw (sym t.released, sym t.unmatched)
      (subst (Perm (r ∷ (seconds ++ k.unmatched_releases))) (sym shape)
        (Perm.symm (perm_middle seconds k.unmatched_releases)))
