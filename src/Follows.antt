-- ===== src/Follows.antt =====
-- How an action moves the ledger: `Follows R m` says that `R` relates the ledger before `m` to the
-- ledger after it, whether `m` returns or raises. One rule for each way to build an action.
use sprintctl.Prelude.{◌≡◌, refl, Bool, true, false, if◌then◌else◌, List, [], ◌∷◌}
use sprintctl.Ledger.{
  Fault, Ledger, Outcome, Action, ok, err, pure, raise, lift, transaction, each, ◌>>=◌,
}

pub record Preorder (R : Ledger → Ledger → Type 0) : Type 0 where
  pub stay : (s : Ledger) → R s s
  pub join : (s t u : Ledger) → R s t → R t u → R s u

pub record Follows (R : Ledger → Ledger → Type 0) {A : Type 0} (m : Action A) : Type 0 where
  pub at : (s : Ledger) → R s (m s).1

module _ {R : Ledger → Ledger → Type 0} (o : Preorder R) where
  module _ {A : Type 0} where
    pub Follows-pure : (a : A) → Follows R (pure a)
    Follows-pure a = record { at = λ s. o.stay s }

    pub Follows-raise : (e : Fault) → Follows R (raise {A = A} e)
    Follows-raise e = record { at = λ s. o.stay s }

    pub Follows-lift : (r : Outcome A) → Follows R (lift r)
    Follows-lift r = record { at = λ s. o.stay s }

    pub Follows-read : (f : Ledger → Outcome A) → Follows R (λ s. (f s, s))
    Follows-read f = record { at = λ s. o.stay s }

    pub Follows-unchanged : (m : Action A) → ((s : Ledger) → (m s).1 ≡ s) → Follows R m
    Follows-unchanged m h = record { at = λ s. rw (h s) (o.stay s) }

    pub Follows-if :
        (b : Bool) (m n : Action A) → Follows R m → Follows R n → Follows R (if b then m else n)
    Follows-if true m n km kn = km
    Follows-if false m n km kn = kn

    settled :
        (m : Action A) (r : Outcome A) (s t : Ledger)
        → (m s ≡ (r, t))
        → R s t
        → R s (transaction m s).1
    unfolding transaction
    settled m (ok a) s t e h = rw e h
    settled m (err x) s t e h = rw e (o.stay s)

    pub Follows-transaction : (m : Action A) → Follows R m → Follows R (transaction m)
    Follows-transaction m f = record { at = λ s. settled m (m s).0 s (m s).1 refl (f.at s) }

  module _ {A B : Type 0} where
    next :
        (r : Outcome A) (f : A → Action B) (s t : Ledger)
        → R s t
        → ((a : A) → r ≡ ok a → Follows R (f a))
        → R s (◌>>=◌ (λ _. (r, t)) f s).1
    next (ok a) f s t h k = o.join s t _ h ((k a refl).at t)
    next (err e) f s t h k = h

    pub Follows-bind :
        (m : Action A) (f : A → Action B)
        → Follows R m
        → ((a : A) → Follows R (f a))
        → Follows R (m >>= f)
    Follows-bind m f km kf = record { at = λ s. next (m s).0 f s (m s).1 (km.at s) (λ a _. kf a) }

    -- The rest of a block may use what a pure check returned.
    pub Follows-bind_lift :
        (r : Outcome A) (f : A → Action B)
        → ((a : A) → r ≡ ok a → Follows R (f a))
        → Follows R (lift r >>= f)
    Follows-bind_lift r f k = record { at = λ s. next r f s s (o.stay s) k }

  pub Follows-each :
      {A B : Type 0} (f : A → Action B) (xs : List A)
      → ((a : A) → Follows R (f a))
      → Follows R (each f xs)
  unfolding each
  Follows-each f [] h = record { at = o.stay }
  Follows-each f (x ∷ xs) h =
      Follows-bind (f x) (λ b. each f xs >>= λ rest. pure (b ∷ rest)) (h x)
        (λ b.
          Follows-bind (each f xs) (λ rest. pure (b ∷ rest)) (Follows-each f xs h)
            (λ rest. Follows-pure (b ∷ rest)))
