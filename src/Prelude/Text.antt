-- ===== src/Prelude/Text.antt =====
-- What the program uses of Python's `str`: `strip`, `lower`, `len`, the decimal print, and the
-- pieces of the regular expressions that it matches whole texts with.
use Prim.Native.Nat.{ℕ, zero, suc, ◌/◌, ◌%◌}
use Prim.Native.Char.{Char, code}
use Prim.Native.String.{String, ◌++◌}
use mathlib.Core.Path.{◌≡◌, refl, ap, ◌∙◌}
use mathlib.Core.Logic.{inl, inr}
use mathlib.Core.Bool.{Bool, true, false, ◌&&◌, ◌||◌}
use mathlib.Core.Option.{Option, none, some}
use native.Mathlib.Omega.{arith}
use sprintctl.Prelude.Tests.{ltb, leb, ◌==◌, nat_eq, if◌then◌else◌, Bool-cases}

-- `len(s)` counts code points
abbrev pub len : String → ℕ
len String.[] = 0
len (String.◌∷◌ c s) = suc (len s)

-- `str.isspace` of one character
unfoldable pub is_space : ℕ → Bool
is_space c =
    (leb 9 c && leb c 13)
    || (leb 28 c && leb c 32)
    || c == 133
    || c == 160
    || c == 5760
    || (leb 8192 c && leb c 8202)
    || c == 8232
    || c == 8233
    || c == 8239
    || c == 8287
    || c == 12288

abbrev snoc_unless_blank : Char → String → String
snoc_unless_blank c String.[] = if is_space (code c) then String.[] else String.◌∷◌ c String.[]
snoc_unless_blank c s = String.◌∷◌ c s

unfoldable pub lstrip : String → String
lstrip String.[] = String.[]
lstrip (String.◌∷◌ c s) = let rest = lstrip s in if is_space (code c) then rest else String.◌∷◌ c s

unfoldable pub rstrip : String → String
rstrip String.[] = String.[]
rstrip (String.◌∷◌ c s) = snoc_unless_blank c (rstrip s)

unfoldable pub strip : String → String
unfolding lstrip rstrip is_space
strip s = rstrip (lstrip s)

abbrev pub is_empty : String → Bool
is_empty String.[] = true
is_empty (String.◌∷◌ c s) = false

-- `not s.strip()`
abbrev pub is_blank : String → Bool
is_blank s = is_empty (strip s)

-- `"\x00" in s`
abbrev pub has_nul : String → Bool
has_nul String.[] = false
has_nul (String.◌∷◌ c s) = code c == 0 || has_nul s

abbrev pub all_chars : (ℕ → Bool) → String → Bool
all_chars p String.[] = true
all_chars p (String.◌∷◌ c s) = p (code c) && all_chars p s

-- `[0-9]`, `[0-9a-f]` and `[0-9a-fA-F-]`
abbrev pub is_digit : ℕ → Bool
is_digit c = leb b'0' c && leb c b'9'

abbrev pub is_hex : ℕ → Bool
is_hex c = is_digit c || (leb b'a' c && leb c b'f')

abbrev pub is_uuid_char : ℕ → Bool
is_uuid_char c = is_hex c || (leb b'A' c && leb c b'F') || c == b'-'

-- `^[0-9a-f]{n}$`
abbrev pub is_hex_text : ℕ → String → Bool
is_hex_text n s = len s == n && all_chars is_hex s

-- The rest of the text behind a literal, behind `n` characters of a class, behind `[0-9]+`.
unfoldable pub skip : String → String → Option String
skip String.[] s = some s
skip (String.◌∷◌ c p) String.[] = none
skip (String.◌∷◌ c p) (String.◌∷◌ d s) =
    let rest = skip p s in if code c == code d then rest else none

unfoldable pub skip_class : (ℕ → Bool) → ℕ → String → Option String
skip_class p zero s = some s
skip_class p (suc n) String.[] = none
skip_class p (suc n) (String.◌∷◌ c s) =
    let rest = skip_class p n s in if p (code c) then rest else none

unfoldable pub skip_digits : String → String
skip_digits String.[] = String.[]
skip_digits (String.◌∷◌ c s) =
    let rest = skip_digits s in if is_digit (code c) then rest else String.◌∷◌ c s

unfoldable pub skip_number : String → Option String
unfolding skip_digits
skip_number String.[] = none
skip_number (String.◌∷◌ c s) = if is_digit (code c) then some (skip_digits s) else none

-- `str(n)`: the last digit is printed last; `n + 1` rounds are enough.
unfoldable pub digit : ℕ → String
digit n =
    if n == 0
    then "0"
    else if n == 1
    then "1"
    else if n == 2
    then "2"
    else if n == 3
    then "3"
    else if n == 4
    then "4"
    else if n == 5
    then "5"
    else if n == 6
    then "6"
    else if n == 7
    then "7"
    else if n == 8
    then "8"
    else "9"

unfoldable pub decimal_fuel : ℕ → ℕ → String
decimal_fuel zero n = ""
decimal_fuel (suc f) n =
    let more = decimal_fuel f (n / 10) in if ltb n 10 then digit n else more ++ digit (n % 10)

unfoldable pub decimal : ℕ → String
unfolding decimal_fuel digit
decimal n = decimal_fuel (suc n) n

decimal_2026 : decimal 2026 ≡ "2026"
unfolding decimal
decimal_2026 = refl

strip_example : strip "  a b " ≡ "a b"
unfolding strip
strip_example = refl

-- A text whose first character is no space.
abbrev Starts : String → Type 0
Starts String.[] = Unit
Starts (String.◌∷◌ c s) = is_space (code c) ≡ false

lstrip-Starts : (s : String) → Starts (lstrip s)
unfolding lstrip
lstrip-Starts String.[] = tt
lstrip-Starts (String.◌∷◌ c s) = elim (Bool-cases (is_space (code c))) [
  | inl e ↦ rw e (lstrip-Starts s)
  | inr e ↦ rw e e
]

lstrip_of_Starts : (s : String) → Starts s → lstrip s ≡ s
unfolding lstrip
lstrip_of_Starts String.[] h = refl
lstrip_of_Starts (String.◌∷◌ c s) h = rw h

snoc-Starts : (c : Char) (r : String) → is_space (code c) ≡ false → Starts (snoc_unless_blank c r)
snoc-Starts c String.[] h = rw h h
snoc-Starts c (String.◌∷◌ d r) h = h

rstrip-Starts : (s : String) → Starts s → Starts (rstrip s)
unfolding rstrip
rstrip-Starts String.[] h = tt
rstrip-Starts (String.◌∷◌ c s) h = snoc-Starts c (rstrip s) h

rstrip-snoc :
    (c : Char) (r : String) → rstrip r ≡ r → rstrip (snoc_unless_blank c r) ≡ snoc_unless_blank c r
unfolding rstrip
rstrip-snoc c String.[] h = elim (Bool-cases (is_space (code c))) [
  | inl e ↦ rw e
  | inr e ↦ rw e (rw e)
]
rstrip-snoc c (String.◌∷◌ d r) h = rw h

rstrip-rstrip : (s : String) → rstrip (rstrip s) ≡ rstrip s
unfolding rstrip
rstrip-rstrip String.[] = refl
rstrip-rstrip (String.◌∷◌ c s) = rstrip-snoc c (rstrip s) (rstrip-rstrip s)

-- Stripping twice is stripping once.
pub strip-strip : (s : String) → strip (strip s) ≡ strip s
unfolding strip
strip-strip s =
    ap rstrip (lstrip_of_Starts (rstrip (lstrip s)) (rstrip-Starts (lstrip s) (lstrip-Starts s)))
    ∙ rstrip-rstrip (lstrip s)

has_nul-lstrip : (s : String) → has_nul s ≡ false → has_nul (lstrip s) ≡ false
unfolding lstrip
has_nul-lstrip String.[] h = refl
has_nul-lstrip (String.◌∷◌ c s) h = elim (Bool-cases (is_space (code c))) [
  | inl e ↦ rw e (has_nul-lstrip s (ground arith))
  | inr e ↦ rw e h
]

has_nul-snoc :
    (c : Char) (r : String)
    → (code c == 0) ≡ false
    → has_nul r ≡ false
    → has_nul (snoc_unless_blank c r) ≡ false
has_nul-snoc c String.[] e h = elim (Bool-cases (is_space (code c))) [
  | inl u ↦ rw u
  | inr u ↦ rw u (rw e)
]
has_nul-snoc c (String.◌∷◌ d r) e h = rw e h

has_nul-rstrip : (s : String) → has_nul s ≡ false → has_nul (rstrip s) ≡ false
unfolding rstrip
has_nul-rstrip String.[] h = refl
has_nul-rstrip (String.◌∷◌ c s) h =
    has_nul-snoc c (rstrip s) (ground arith) (has_nul-rstrip s (ground arith))

pub has_nul-strip : (s : String) → has_nul s ≡ false → has_nul (strip s) ≡ false
unfolding strip
has_nul-strip s h = has_nul-rstrip (lstrip s) (has_nul-lstrip s h)
