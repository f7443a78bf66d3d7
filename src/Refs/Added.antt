-- ===== src/Refs/Added.antt =====
-- What adding a reference leaves, and that the reference can be removed again.
use sprintctl.Prelude.{
  ℕ, ◌+◌, ◌≤◌, String, Bool, true, false, ◌&&◌, ◌≡◌, refl, ap, ◌∙◌, sym, any, any-append, delete,
  contains, ◌==◌, nat_eq, string_eq, All, All-mono, delete-append, beq_refl, arith,
}
use sprintctl.Domain.{Ref}
use sprintctl.Ledger.{Fault, Ledger, Outcome, Action, ok, err, outcome, after, lift, ◌>>=◌, ◌>>◌}
use sprintctl.Schema.{is_some}
use sprintctl.Schema.Statements.{get_item}
use sprintctl.Maintain.{fails_unless}
use sprintctl.Refs.{
  Url, ref_types, add_target, normalize_ref_target, new_ref, with_ref_added, insert_ref, add_ref,
  remove_ref,
}
use sprintctl.Refs.Scoped.{Answer}

fails_unless-ok :
    {A : Type 0} (b : Bool) (e : Fault) (m : Action A) (s : Ledger) (a : A)
    → outcome (fails_unless b e >> m) s ≡ ok a
    → (b ≡ true) × ((fails_unless b e >> m) s ≡ m s)
fails_unless-ok true e m s a h = (refl, refl)
fails_unless-ok false e m s a h = cc

lift-ok :
    {A B : Type 0} (r : Outcome A) (f : A → Action B) (s : Ledger) (b : B)
    → outcome (lift r >>= f) s ≡ ok b
    → (a : A) × (r ≡ ok a) × ((lift r >>= f) s ≡ f a s)
lift-ok (ok a) f s b h = (a, refl, refl)
lift-ok (err e) f s b h = cc

ok_id : (a b : ℕ) → ok a ≡ ok b → a ≡ b
ok_id a b h = ground arith

other_id : (m n : ℕ) → m ≤ n → (m == (n + 1)) ≡ false
other_id m n h = ground arith

remove_ref-found :
    (n item : ℕ) (t : Ledger)
    → any (λ r. r.id == n && r.work_item_id == item) t.refs ≡ true
    → remove_ref n item t ≡ (ok tt, record t { refs = delete (λ r. r.id == n) t.refs })
unfolding remove_ref
remove_ref-found n item t h = rw h refl

remove_ref-added :
    (row : Ref) (s : Ledger)
    → row.id ≡ s.last.ref + 1
    → All (λ r. r.id ≤ s.last.ref) s.refs
    → (outcome (remove_ref row.id row.work_item_id) (with_ref_added row s) ≡ ok tt)
      × ((after (remove_ref row.id row.work_item_id) (with_ref_added row s)).refs ≡ s.refs)
remove_ref-added row s e below =
    let found =
      any-append (λ r. r.id == row.id && r.work_item_id == row.work_item_id) s.refs row
        (rw (beq_refl row.id, beq_refl row.work_item_id) refl) in
    let left =
      delete-append (λ r. r.id == row.id) s.refs row (beq_refl row.id)
        (All-mono (λ r. r.id ≤ s.last.ref) (λ r. (r.id == row.id) ≡ false) s.refs
          (λ r k. rw e (other_id r.id s.last.ref k)) below) in
    let e = remove_ref-found row.id row.work_item_id (with_ref_added row s) found in
    (ap (λ r. r.0) e, ap (λ r. r.1.refs) e ∙ left)

module _ (urlparse : String → Outcome Url) (normpath : String → String) where
  abbrev add : ℕ → String → String → String → Action ℕ
  add = add_ref urlparse normpath

  add_target-Added :
      (item : ℕ) (kind label target : String) (s : Ledger) (n : ℕ)
      → outcome (add_target item kind label target) s ≡ ok n
      → (is_some (get_item item s) ≡ true)
        × (add_target item kind label target s
            ≡ (ok n, with_ref_added (new_ref n item kind target label) s))
        × (n ≡ s.last.ref + 1)
  unfolding insert_ref
  add_target-Added item kind label target s n h =
      let (has_item, e) =
        fails_unless-ok (is_some (get_item item s)) (Fault.item_not_found item)
          (insert_ref item kind target label) s n h in
      let same : s.last.ref + 1 ≡ n = ok_id _ _ (ap (λ r. r.0) (sym e) ∙ h) in
      (
        has_item,
        e ∙ ap (λ m. (ok m, with_ref_added (new_ref m item kind target label) s)) same,
        sym same,
      )

  module _ (item : ℕ) (kind url label : String) (s : Ledger) (n : ℕ)
      (h : outcome (add item kind url label) s ≡ ok n) where
    target_step :
        (target : String) × (Answer urlparse normpath kind url target)
        × (add item kind url label s ≡ add_target item kind label target s)
    unfolding add_ref
    target_step =
        let m =
          lift (normalize_ref_target urlparse normpath url kind) >>= add_target item kind label in
        let (known, e1) =
          fails_unless-ok (contains ref_types kind) (Fault.value_error "Invalid ref_type") m s n
            h in
        let (target, answer, e2) =
          lift-ok (normalize_ref_target urlparse normpath url kind) (add_target item kind label) s n
            (ap (λ r. r.0) (sym e1) ∙ h) in
        (target, answer, e1 ∙ e2)

    record Added (target : String) : Type 0 where
      answer : Answer urlparse normpath kind url target
      fresh : n ≡ s.last.ref + 1
      has_item : is_some (get_item item s) ≡ true
      left : after (add item kind url label) s ≡ with_ref_added (new_ref n item kind target label) s

    add_ref-Added : (target : String) × Added target
    add_ref-Added =
        let (target, answer, e) = target_step in
        let (has_item, e', fresh) =
          add_target-Added item kind label target s n (ap (λ r. r.0) (sym e) ∙ h) in
        (
          target,
          record {
            answer = answer;
            fresh = fresh;
            has_item = has_item;
            left = ap (λ r. r.1) (e ∙ e');
          },
        )

    -- A reference that is added without an exception where every row has an id that was given can be
    -- removed from its item, and the table is then as it was before.
    pub remove_ref-add_ref :
        All (λ r. r.id ≤ s.last.ref) s.refs
        → let t = after (add_ref urlparse normpath item kind url label) s in
          (outcome (remove_ref n item) t ≡ ok tt) × ((after (remove_ref n item) t).refs ≡ s.refs)
    remove_ref-add_ref below =
        let (target, a) = add_ref-Added in
        rw a.left (remove_ref-added (new_ref n item kind target label) s a.fresh below)
