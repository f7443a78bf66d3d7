-- ===== src/Refs/Scoped.antt =====
-- The paths that scope references accept.
use sprintctl.Prelude.{
  String, Bool, true, false, not, ◌&&◌, ◌||◌, ◌≡◌, refl, ap, ◌∙◌, sym, contains, ◌==◌, nat_eq,
  string_eq, if◌then◌else◌, eq_of_beq, subst, Bool-cases, inl, inr, arith,
}
use sprintctl.Ledger.{Fault, Outcome, ok, err}
use sprintctl.Prelude.Text.{skip}
use sprintctl.Schema.{is_some}
use sprintctl.Refs.{
  Url, scope_ref_types, is_unfit, any_char, is_control, is_backslash, climbs, has_glob, in_root,
  scoped, normalize_scope_path, target_of, is_remote, normalize_ref_target,
}

-- The path of the repository's root, or one that leads out of it.
abbrev leaves : String → Bool
leaves path = path == "" || path == "." || is_some (skip "../" path)

-- A scope reference: its argument is portable and relative, with no empty or parent part; its path is
-- the argument's normal form, below the root, and a pattern exactly where one is asked for.
pub record Scope (normpath : String → String) (value : String) (is_pattern : Bool) (path : String)
    : Type 0 where
  pub fit : is_unfit value ≡ false
  pub printable : any_char is_control value ≡ false
  pub portable : any_char is_backslash value ≡ false
  pub below : climbs value ≡ false
  pub normal : path ≡ normpath value
  pub rooted : leaves path ≡ false
  pub pattern : has_glob path ≡ is_pattern

-- A result behind a refusal passed the test.
unrefused :
    {A : Type 0} (b : Bool) (e : Fault) (r : Outcome A) (a : A)
    → (if b then err e else r) ≡ ok a
    → (b ≡ false) × (r ≡ ok a)
unrefused true e r a h = cc
unrefused false e r a h = (refl, h)

unrefused_pattern : (g b : Bool) → (g && not b) ≡ false → (not g && b) ≡ false → b ≡ g
unrefused_pattern g b h k = ground arith

only_last : (a b c : Bool) → (a || (b || (c || false))) ≡ true → a ≡ false → b ≡ false → c ≡ true
only_last a b c h k l = ground arith

ok_same : (p path : String) → ok p ≡ ok path → path ≡ p
ok_same p path h = ground arith

in_root-Root :
    (p : String) (g : Bool) (path : String)
    → in_root p g ≡ ok path
    → (path ≡ p) × (leaves path ≡ false) × (has_glob path ≡ g)
in_root-Root p g path h =
    let (rooted, h1) = unrefused _ _ _ path h in
    let (globbed, h2) = unrefused _ _ _ path h1 in
    let (exact, h3) = unrefused _ _ _ path h2 in
    let same = ok_same p path h3 in
    (
      same,
      ap leaves same ∙ rooted,
      ap has_glob same ∙ unrefused_pattern g (has_glob p) globbed exact,
    )

module _ (urlparse : String → Outcome Url) (normpath : String → String) where
  scoped-Scope :
      (value : String) (g : Bool) (o : Outcome Url) (path : String)
      → scoped urlparse normpath value g o ≡ ok path
      → (climbs value ≡ false) × (in_root (normpath value) g ≡ ok path)
  scoped-Scope value g (err e) path h = cc
  scoped-Scope value g (ok u) path h =
      let (local, h1) = unrefused _ _ _ path h in unrefused _ _ _ path h1

  normalize_scope_path-Scope :
      (value : String) (g : Bool) (path : String)
      → normalize_scope_path urlparse normpath value g ≡ ok path
      → Scope normpath value g path
  unfolding normalize_scope_path
  normalize_scope_path-Scope value g path h =
      let (fit, h1) = unrefused _ _ _ path h in
      let (printable, h2) = unrefused _ _ _ path h1 in
      let (portable, h3) = unrefused _ _ _ path h2 in
      let (below, h4) = scoped-Scope value g (urlparse value) path h3 in
      let (normal, rooted, pattern) = in_root-Root (normpath value) g path h4 in
      record {
        fit = fit;
        printable = printable;
        portable = portable;
        below = below;
        normal = normal;
        rooted = rooted;
        pattern = pattern;
      }

  abbrev remote_scope : Fault
  remote_scope = Fault.value_error "Scope refs require repo-relative paths, not remote URLs."

  target_of-Scope :
      (kind : String) (g : Bool) (url : String) (o : Outcome Url) (path : String)
      → ((u : Url)
          → target_of urlparse normpath url kind (ok u) ≡ (
              if is_remote urlparse normpath u
              then err remote_scope
              else normalize_scope_path urlparse normpath url g))
      → target_of urlparse normpath url kind o ≡ ok path
      → Scope normpath url g path
  target_of-Scope kind g url (err e) path shape h = cc
  target_of-Scope kind g url (ok u) path shape h =
      normalize_scope_path-Scope url g path (unrefused _ _ _ path (sym (shape u) ∙ h)).1

  abbrev pub Answer : String → String → String → Type 0
  Answer kind url path = normalize_ref_target urlparse normpath url kind ≡ ok path

  pub normalize_ref_target-Scope :
      (kind url path : String)
      → contains scope_ref_types kind ≡ true
      → Answer kind url path
      → Scope normpath url (kind == "glob") path
  unfolding normalize_ref_target
  normalize_ref_target-Scope kind url path k h = elim (Bool-cases ("file" == kind)) [
    | inl e ↦
        let same = eq_of_beq "file" kind e in
        subst (λ t. Scope normpath url (t == "glob") path) same
          (target_of-Scope "file" false url (urlparse url) path (λ u. refl)
            (subst (λ t. Answer t url path) (sym same) h))
    | inr e ↦ elim (Bool-cases ("glob" == kind)) [
      | inl f ↦
          let same = eq_of_beq "glob" kind f in
          subst (λ t. Scope normpath url (t == "glob") path) same
            (target_of-Scope "glob" true url (urlparse url) path (λ u. refl)
              (subst (λ t. Answer t url path) (sym same) h))
      | inr f ↦
          let same : "manifest" ≡ kind = eq_of_beq "manifest" kind (only_last _ _ _ k e f) in
          subst (λ t. Scope normpath url (t == "glob") path) same
            (target_of-Scope "manifest" false url (urlparse url) path (λ u. refl)
              (subst (λ t. Answer t url path) (sym same) h))
    ]
  ]
