-- ===== src/Releases/Stale.antt =====
-- The comparison of a basis with the current revision of an item.
use sprintctl.Prelude.{
  ℕ, suc, zero, ◌≡◌, refl, sym, ap, ◌∙◌, String, Bool, true, false, not, none, some, ◌==◌,
  string_eq, nat_eq, if◌then◌else◌, arith, Bool-cases, inl, inr, ◌↔◌, eq_of_beq, beq_refl, ltb,
}
use Prim.Native.Nat.{◌/◌, ◌%◌}
use Prim.Native.Char.{Char, char, code}
use Prim.Native.String.{◌++◌}
use Prim.Native.String.append
use text.Mathlib.TextLemmas.{append-nil}
use sprintctl.Prelude.Text.{all_chars, is_digit, skip, decimal, decimal_fuel, digit}
use sprintctl.Ledger.{Outcome, ok}
use sprintctl.WorkItems.Basics.{is_item_edit_revision}
use sprintctl.Releases.Freeze.{
  release_revision, is_release_revision, or_whole, before_last, rsplit_head, basis_matches,
}

all_chars-append :
    (p : ℕ → Bool) (s t : String)
    → all_chars p s ≡ true
    → all_chars p t ≡ true
    → all_chars p (s ++ t) ≡ true
all_chars-append p String.[] t h k = rw (append.nil t) k
all_chars-append p (String.◌∷◌ c s) t h k =
    rw (append.cons c s t) (ground (arith, all_chars-append p s t))

either_digits :
    (b : Bool) (s t : String)
    → all_chars is_digit s ≡ true
    → all_chars is_digit t ≡ true
    → all_chars is_digit (if b then s else t) ≡ true
either_digits true s t h k = h
either_digits false s t h k = k

digit-is_digit : (n : ℕ) → all_chars is_digit (digit n) ≡ true
unfolding digit
digit-is_digit n = either_digits (n == 0) _ _ refl (
    either_digits (n == 1) _ _ refl (
      either_digits (n == 2) _ _ refl (
        either_digits (n == 3) _ _ refl (
          either_digits (n == 4) _ _ refl (
            either_digits (n == 5) _ _ refl (
              either_digits (n == 6) _ _ refl
                (either_digits (n == 7) _ _ refl (either_digits (n == 8) _ _ refl refl))))))))

decimal_fuel-digits : (f n : ℕ) → all_chars is_digit (decimal_fuel f n) ≡ true
unfolding decimal_fuel
decimal_fuel-digits zero n = refl
decimal_fuel-digits (suc f) n = elim (Bool-cases (ltb n 10)) [
  | inl e ↦ rw e (digit-is_digit n)
  | inr e ↦ rw e (
      all_chars-append is_digit (decimal_fuel f (n / 10)) (digit (n % 10))
        (decimal_fuel-digits f (n / 10)) (digit-is_digit (n % 10)))
]

-- `@`, which starts the mark, is in no decimal.
abbrev no_at : ℕ → Bool
no_at c = not (c == 64)

digits-no_at : (s : String) → all_chars is_digit s ≡ true → all_chars no_at s ≡ true
digits-no_at String.[] h = refl
digits-no_at (String.◌∷◌ c s) h = ground (arith, digits-no_at s)

no_mark : (s : String) → all_chars no_at s ≡ true → before_last "@revise:" s ≡ none
unfolding before_last skip
no_mark String.[] h = refl
no_mark (String.◌∷◌ c s) h =
    let other : (64 == code c) ≡ false = ground arith in
    let rest = no_mark s (ground arith) in rw (rest, other) refl

skip-append : (p s : String) → skip p (p ++ s) ≡ some s
unfolding skip
skip-append String.[] s = rw (append.nil s) refl
skip-append (String.◌∷◌ c p) s = rw (append.cons c p s) (rw (beq_refl (code c)) (skip-append p s))

before_last-later :
    (mark : String) (c : Char) (s u : String)
    → before_last mark s ≡ some u
    → before_last mark (String.◌∷◌ c s) ≡ some (String.◌∷◌ c u)
unfolding before_last
before_last-later mark c s u h = rw h refl

before_last-here :
    (mark : String) (c : Char) (s d : String)
    → before_last mark s ≡ none
    → skip mark (String.◌∷◌ c s) ≡ some d
    → before_last mark (String.◌∷◌ c s) ≡ some ""
unfolding before_last
before_last-here mark c s d h k = rw (h, k) refl

before_last-append :
    (mark s t u : String) → before_last mark t ≡ some u → before_last mark (s ++ t) ≡ some (s ++ u)
unfolding before_last
before_last-append mark String.[] t u h = rw (append.nil t, append.nil u) h
before_last-append mark (String.◌∷◌ c s) t u h =
    rw (append.cons c s t, append.cons c s u)
      (before_last-later mark c (s ++ t) (s ++ u) (before_last-append mark s t u h))

-- Behind the last character there is no mark, so the mark stands here.
at_mark :
    (c : Char) (m d : String)
    → before_last (String.◌∷◌ c m) (m ++ d) ≡ none
    → before_last (String.◌∷◌ c m) (String.◌∷◌ c m ++ d) ≡ some ""
unfolding before_last
at_mark c m d h =
    ap (before_last (String.◌∷◌ c m)) (append.cons c m d)
    ∙ before_last-here (String.◌∷◌ c m) c (m ++ d) d h
        (ap (skip (String.◌∷◌ c m)) (sym (append.cons c m d)) ∙ skip-append (String.◌∷◌ c m) d)

marked :
    (d : String) → all_chars is_digit d ≡ true → before_last "@revise:" ("@revise:" ++ d) ≡ some ""
marked d h =
    at_mark (char 64 tt) "revise:" d
      (no_mark ("revise:" ++ d) (all_chars-append no_at "revise:" d refl (digits-no_at d h)))

-- The edit revision is what stands before the mark of a release revision.
rsplit_head-release_revision :
    (e : String) (n : ℕ) → rsplit_head "@revise:" (e ++ ("@revise:" ++ decimal n)) ≡ e
unfolding rsplit_head decimal
rsplit_head-release_revision e n =
    let digits = decimal_fuel-digits (suc n) n in
    ap (or_whole (e ++ ("@revise:" ++ decimal_fuel (suc n) n))) (
      before_last-append "@revise:" e ("@revise:" ++ decimal_fuel (suc n) n) ""
        (marked (decimal_fuel (suc n) n) digits))
    ∙ append-nil e

revised :
    (valid : Bool) (e : String) (n : ℕ) (r : String) (x : Outcome String)
    → (if valid then ok (e ++ ("@revise:" ++ decimal n)) else x) ≡ ok r
    → valid ≡ true
    → r ≡ e ++ ("@revise:" ++ decimal n)
revised true e n r x h k = cc (h)
revised false e n r x h k = cc

beq_iff : (a b : String) → ((a == b) ≡ true) ↔ (a ≡ b)
beq_iff a b = (eq_of_beq a b, λ h. ap (λ x. x == b) h ∙ beq_refl b)

-- A basis in the form of an item revision with a revise count matches the current release revision
-- exactly when it is that revision; any other basis, exactly when it is the edit revision from which
-- the current release revision was made.
pub basis_matches_iff :
    (basis edit_revision current : String) (count : ℕ)
    → is_item_edit_revision edit_revision ≡ true
    → release_revision edit_revision count ≡ ok current
    → (is_release_revision basis ≡ true → (basis_matches basis current ≡ true) ↔ (basis ≡ current))
      × (is_release_revision basis ≡ false
          → (basis_matches basis current ≡ true) ↔ (basis ≡ edit_revision))
unfolding basis_matches release_revision
basis_matches_iff basis e current count valid h =
    let shape = revised (is_item_edit_revision e) e count current _ h valid in
    let head : rsplit_head "@revise:" current ≡ e =
      ap (rsplit_head "@revise:") shape ∙ rsplit_head-release_revision e count in
    (λ k. rw k (beq_iff basis current), λ k. rw (k, head) (beq_iff basis e))
