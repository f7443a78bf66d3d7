-- ===== src/Ledger/Actions.antt =====
-- Statements that read and write the ledger and may raise.
use sprintctl.Prelude.{List, [], ◌∷◌, ◌≡◌, refl, Bool, true, false}
use sprintctl.Ledger.Faults.{Fault}
use sprintctl.Ledger.State.{Ledger}

pub data Outcome {ℓ} (A : Type ℓ) : Type ℓ where
  ok : A → Outcome A
  err : Fault → Outcome A

abbrev pub Action : Type 0 → Type 0
Action A = Ledger → Outcome A × Ledger

module _ {A : Type 0} where
  abbrev pub pure : A → Action A
  pure a s = (ok a, s)

  abbrev pub raise : Fault → Action A
  raise e s = (err e, s)

  abbrev pub lift : Outcome A → Action A
  lift r s = (r, s)

  abbrev pub gets : (Ledger → A) → Action A
  gets f s = (ok (f s), s)

  abbrev pub outcome : Action A → Ledger → Outcome A
  outcome m s = (m s).0

  abbrev pub after : Action A → Ledger → Ledger
  after m s = (m s).1

  abbrev settle : Outcome A → Ledger → Ledger → Outcome A × Ledger
  settle (ok a) before s = (ok a, s)
  settle (err e) before s = (err e, before)

  -- BEGIN IMMEDIATE, the body, COMMIT; on an exception ROLLBACK, and the exception goes on.
  unfoldable pub transaction : Action A → Action A
  transaction m s = let (r, s') = m s in settle r s s'

  settle-err :
      (r : Outcome A) (s t : Ledger) (e : Fault) → (settle r s t).0 ≡ err e → (settle r s t).1 ≡ s
  settle-err (ok a) s t e h = cc
  settle-err (err e') s t e h = refl

  pub transaction-atomic :
      (m : Action A) (s : Ledger) (e : Fault)
      → outcome (transaction m) s ≡ err e
      → after (transaction m) s ≡ s
  unfolding transaction
  transaction-atomic m s e h = settle-err (m s).0 s (m s).1 e h

abbrev pub modify : (Ledger → Ledger) → Action (Unit {0})
modify f s = (ok tt, f s)

-- `if not test: raise e`
unfoldable pub require : Bool → Fault → Action (Unit {0})
require true e s = (ok tt, s)
require false e s = (err e, s)

pub require-ok :
    (b : Bool) (e : Fault) (s : Ledger)
    → (require b e s).0 ≡ ok tt
    → (b ≡ true) × (require b e s ≡ (ok tt, s))
unfolding require
require-ok true e s h = (refl, refl)
require-ok false e s h = cc

module _ {A B : Type 0} where
  abbrev pub continue : Outcome A → (A → Action B) → Ledger → Outcome B × Ledger
  continue (ok a) f s = f a s
  continue (err e) f s = (err e, s)

  infixl 10 ◌>>=◌ ◌>>◌
  abbrev pub ◌>>=◌ : Action A → (A → Action B) → Action B
  ◌>>=◌ m f s = let (r, s') = m s in continue r f s'

  abbrev pub ◌>>◌ : Action A → Action B → Action B
  m >> n = m >>= λ _. n

-- What a result says of the parts of the action.
module _ {A B : Type 0} where
  continue-ok :
      (r : Outcome A) (f : A → Action B) (s : Ledger) (b : B)
      → (continue r f s).0 ≡ ok b
      → (a : A) × (r ≡ ok a) × ((f a s).0 ≡ ok b)
  continue-ok (ok a) f s b h = (a, refl, h)
  continue-ok (err e) f s b h = cc

  pub bind-ok :
      (m : Action A) (f : A → Action B) (s : Ledger) (b : B)
      → outcome (m >>= f) s ≡ ok b
      → (a : A) × (outcome m s ≡ ok a) × (outcome (f a) (after m s) ≡ ok b)
  bind-ok m f s b h = continue-ok (m s).0 f (m s).1 b h

  pub after-bind :
      (m : Action A) (f : A → Action B) (s : Ledger) (a : A)
      → outcome m s ≡ ok a
      → (m >>= f) s ≡ f a (after m s)
  after-bind m f s a h = rw (h, continue)

module _ {A : Type 0} where
  settle-ok :
      (r : Outcome A) (s t : Ledger) (a : A)
      → (settle r s t).0 ≡ ok a
      → (r ≡ ok a) × ((settle r s t).1 ≡ t)
  settle-ok (ok b) s t a h = (h, refl)
  settle-ok (err e) s t a h = cc

  -- A transaction that returns has the result and the ledger of its body.
  pub transaction-ok :
      (m : Action A) (s : Ledger) (a : A)
      → outcome (transaction m) s ≡ ok a
      → (outcome m s ≡ ok a) × (after (transaction m) s ≡ after m s)
  unfolding transaction
  transaction-ok m s a h = settle-ok (m s).0 s (m s).1 a h

  settle-returns : (r : Outcome A) (s t : Ledger) (a : A) → r ≡ ok a → (settle r s t).0 ≡ ok a
  settle-returns (ok b) s t a h = h
  settle-returns (err e) s t a h = h

  pub transaction-returns :
      (m : Action A) (s : Ledger) (a : A) → outcome m s ≡ ok a → outcome (transaction m) s ≡ ok a
  unfolding transaction
  transaction-returns m s a h = settle-returns (m s).0 s (m s).1 a h

  pub transaction-answers :
      (m : Action A) (s t : Ledger) (a : A) → m s ≡ (ok a, t) → transaction m s ≡ (ok a, t)
  unfolding transaction
  transaction-answers m s t a h = rw h refl

-- A transaction after a check of the arguments fails without a trace.
module _ {A B : Type 0} where
  pub lift-atomic :
      (r : Outcome A) (f : A → Action B) (s : Ledger) (e : Fault)
      → ((a : A) (x : Fault) → outcome (f a) s ≡ err x → after (f a) s ≡ s)
      → outcome (lift r >>= f) s ≡ err e
      → after (lift r >>= f) s ≡ s
  lift-atomic (ok a) f s e k h = k a e h
  lift-atomic (err x) f s e k h = refl

-- A `for` loop that collects what its body gives. An exception ends it.
unfoldable pub each : {A B : Type 0} → (A → Action B) → List A → Action (List B)
each f [] = pure []
each f (x ∷ xs) = f x >>= λ b. each f xs >>= λ rest. pure (b ∷ rest)
