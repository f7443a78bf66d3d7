-- ===== src/Deps/Edges.antt =====
-- Adding a dependency.
use sprintctl.Prelude.{
  ℕ, ◌+◌, ◌≡◌, refl, ap, ◌∙◌, true, false, Option, none, some, List, [], ◌∷◌, ◌++◌, arith, find,
  find-append_none, ◌==◌, nat_eq, beq_refl,
}
use sprintctl.Domain.{Dep}
use sprintctl.Ledger.{Ledger, ok, outcome, after, bind-ok, after-bind}
use sprintctl.Schema.{is_some}
use sprintctl.Schema.Statements.{get_item}
use sprintctl.Deps.{validate_add_dep, insert_dep, add_dep, dep_is, new_dep, dep_or_new}

-- What an added dependency found and left.
pub record Linked (s t : Ledger) (a b n : ℕ) : Type 0 where
  pub distinct : (a == b) ≡ false
  pub blocker : is_some (get_item a s) ≡ true
  pub blocked : is_some (get_item b s) ≡ true
  pub edge : (d : Dep) × (find (dep_is a b) t.deps ≡ some d) × (d.id ≡ n)
  pub items : t.items ≡ s.items

new_dep-found :
    (n a b now : ℕ) (ds : List Dep)
    → find (dep_is a b) ds ≡ none
    → find (dep_is a b) (ds ++ new_dep n a b now ∷ []) ≡ some (new_dep n a b now)
unfolding find
new_dep-found n a b now ds h =
    find-append_none (dep_is a b) ds (new_dep n a b now ∷ []) h ∙ rw (beq_refl a, beq_refl b) refl

dep_or_new-edge :
    (a b : ℕ) (s : Ledger) (o : Option Dep) (n : ℕ)
    → find (dep_is a b) s.deps ≡ o
    → outcome (dep_or_new a b o) s ≡ ok n
    → (d : Dep) × (find (dep_is a b) (after (dep_or_new a b o) s).deps ≡ some d) × (d.id ≡ n)
dep_or_new-edge a b s none n e h = (
  new_dep (s.last.dep + 1) a b s.clock,
  new_dep-found (s.last.dep + 1) a b s.clock s.deps e,
  ground arith,
)
dep_or_new-edge a b s (some d) n e h = (d, e, ground arith)

insert_dep-edge :
    (a b : ℕ) (s : Ledger) (n : ℕ)
    → outcome (insert_dep a b) s ≡ ok n
    → (d : Dep) × (find (dep_is a b) (after (insert_dep a b) s).deps ≡ some d) × (d.id ≡ n)
unfolding insert_dep
insert_dep-edge a b s n h = dep_or_new-edge a b s (find (dep_is a b) s.deps) n refl h

insert_dep-items : (a b : ℕ) (s : Ledger) → (after (insert_dep a b) s).items ≡ s.items
unfolding insert_dep
insert_dep-items a b s = ground arith

insert_dep-again :
    (a b : ℕ) (s : Ledger) (d : Dep)
    → find (dep_is a b) s.deps ≡ some d
    → insert_dep a b s ≡ (ok d.id, s)
unfolding insert_dep
insert_dep-again a b s d h = rw (h, insert_dep)

valid_parts :
    (a b : ℕ) (s : Ledger)
    → outcome (validate_add_dep a b) s ≡ ok tt
    → ((a == b) ≡ false) × (is_some (get_item a s) ≡ true) × (is_some (get_item b s) ≡ true)
unfolding validate_add_dep
valid_parts a b s h = (ground arith, ground arith, ground arith)

valid-again :
    (a b : ℕ) (t : Ledger)
    → (a == b) ≡ false
    → is_some (get_item a t) ≡ true
    → is_some (get_item b t) ≡ true
    → validate_add_dep a b t ≡ (ok tt, t)
unfolding validate_add_dep
valid-again a b t d p q = ground arith

validate_add_dep-after : (a b : ℕ) (s : Ledger) → after (validate_add_dep a b) s ≡ s
unfolding validate_add_dep
validate_add_dep-after a b s = ground arith

module _ (a b n : ℕ) (s : Ledger) (h : outcome (add_dep a b) s ≡ ok n) where
  -- Adding a dependency that returns an id found two different existing items and left an edge with
  -- that id between them; the items are unchanged.
  pub add_dep-Linked : Linked s (after (add_dep a b) s) a b n
  unfolding add_dep
  add_dep-Linked =
      let (u, valid, rest) = bind-ok (validate_add_dep a b) (λ _. insert_dep a b) s n h in
      let same = validate_add_dep-after a b s in
      let (d, p, q) = valid_parts a b s valid in
      let inserted : outcome (insert_dep a b) s ≡ ok n = rw same at rest in
      let left : after (add_dep a b) s ≡ after (insert_dep a b) s =
        ap (λ p. p.1) (after-bind (validate_add_dep a b) (λ _. insert_dep a b) s tt valid)
        ∙ ap (λ t. after (insert_dep a b) t) same in
      record {
        distinct = d;
        blocker = p;
        blocked = q;
        edge = rw left (insert_dep-edge a b s n inserted);
        items = rw left (insert_dep-items a b s);
      }

  -- Adding the same dependency again returns the same id and writes nothing.
  pub add_dep-add_dep : add_dep a b (after (add_dep a b) s) ≡ (ok n, after (add_dep a b) s)
  unfolding add_dep
  add_dep-add_dep =
      let l = add_dep-Linked in
      let t = after (add_dep a b) s in
      let (d, f, e) = l.edge in
      after-bind (validate_add_dep a b) (λ _. insert_dep a b) t tt (ap (λ p. p.0) (again l))
      ∙ ap (λ u. insert_dep a b u) (ap (λ p. p.1) (again l))
      ∙ insert_dep-again a b t d f
      ∙ ap (λ m. (ok m, t)) e
    where
      again :
          (l : Linked s (after (add_dep a b) s) a b n)
          → validate_add_dep a b (after (add_dep a b) s) ≡ (ok tt, after (add_dep a b) s)
      again l =
          valid-again a b (after (add_dep a b) s) l.distinct (rw l.items l.blocker)
            (rw l.items l.blocked)
