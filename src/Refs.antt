-- ===== src/Refs.antt =====
-- sprintctl/refcore.py and the reference validation of sprintctl/db.py. `urlparse` (which may raise)
-- and `posixpath.normpath` are parameters. A row's created_at, which only orders queries, is left out.
pub mod Scoped
pub mod Added
use sprintctl.Prelude.{
  ℕ, ◌+◌, String, Bool, true, false, not, ◌&&◌, ◌||◌, List, [], ◌∷◌, ◌++◌, any, delete, contains,
  ltb, ◌==◌, nat_eq, string_eq, if◌then◌else◌,
}
use Prim.Native.Char.{code}
use sprintctl.Prelude.Text.{strip, is_empty, is_blank, has_nul, skip}
use sprintctl.Domain.{Ref}
use sprintctl.Ledger.{Fault, Ledger, Outcome, Action, ok, err, lift, gets, ◌>>=◌, ◌>>◌}
use sprintctl.Schema.{is_some}
use sprintctl.Schema.Statements.{get_item}
use sprintctl.Maintain.{fails_unless}

-- The two parts of a parsed URL that are read.
pub record Url : Type 0 where
  pub scheme : String
  pub netloc : String

abbrev pub scope_ref_types : List String
scope_ref_types = "file" ∷ "glob" ∷ "manifest" ∷ []

abbrev pub ref_types : List String
ref_types = "pr" ∷ "issue" ∷ "doc" ∷ "other" ∷ scope_ref_types ++ "command" ∷ []

-- `any(test(char) for char in s)`
abbrev pub any_char : (ℕ → Bool) → String → Bool
any_char test String.[] = false
any_char test (String.◌∷◌ c s) = test (code c) || any_char test s

abbrev pub first_is : ℕ → String → Bool
first_is n String.[] = false
first_is n (String.◌∷◌ c s) = code c == n

-- `s.endswith(suffix)`
abbrev pub ends_with : String → String → Bool
ends_with suffix String.[] = is_empty suffix
ends_with suffix (String.◌∷◌ c s) = String.◌∷◌ c s == suffix || ends_with suffix s

-- `s.split("/")`
abbrev pub before_first : ℕ → String → List String → List String
before_first n one [] = []
before_first n one (part ∷ parts) =
    if n == b'/' then "" ∷ part ∷ parts else Prim.Native.String.◌++◌ one part ∷ parts

unfoldable pub split_slash : String → List String
split_slash String.[] = "" ∷ []
split_slash (String.◌∷◌ c s) = before_first (code c) (String.◌∷◌ c String.[]) (split_slash s)

abbrev pub is_glob_magic : ℕ → Bool
is_glob_magic n = n == b'*' || n == b'?' || n == b'['

abbrev pub is_control : ℕ → Bool
is_control n = ltb n 32 || n == 127

abbrev pub is_backslash : ℕ → Bool
is_backslash n = n == b'\\'

abbrev pub is_slash : ℕ → Bool
is_slash n = n == b'/'

-- `not value or value != value.strip() or value.startswith(("/", "~"))`
abbrev pub is_unfit : String → Bool
is_unfit value =
    is_empty value || not (value == strip value) || first_is b'/' value || first_is b'~' value

abbrev pub climbs : String → Bool
climbs value = contains (split_slash value) ".." || contains (split_slash value) ""

abbrev pub has_glob : String → Bool
has_glob value = any_char is_glob_magic value

abbrev pub refused : {A : Type 0} → String → Outcome A
refused message = err (Fault.value_error message)

abbrev pub in_root : (normalized : String) → (require_glob : Bool) → Outcome String
in_root normalized require_glob =
    if normalized == "" || normalized == "." || is_some (skip "../" normalized)
    then refused "Scope refs require a path below the repository root."
    else if require_glob && not (has_glob normalized)
    then refused "Glob refs must contain at least one glob expression (*, ?, or [])."
    else if not require_glob && has_glob normalized
    then refused "File and manifest refs must be exact paths without glob expressions."
    else ok normalized

unfoldable pub normalize_command_target : String → Outcome String
normalize_command_target command =
    if is_blank command
    then refused "Command refs require a non-empty shell command."
    else if has_nul command
    then refused "Command refs must not contain NUL bytes."
    else ok (strip command)

module _ (urlparse : String → Outcome Url) (normpath : String → String) where
  abbrev pub scoped : (value : String) → (require_glob : Bool) → Outcome Url → Outcome String
  scoped value require_glob (err e) = err e
  scoped value require_glob (ok u) =
      if not (is_empty u.scheme)
      then refused "Scope refs require portable POSIX repo-relative paths."
      else if climbs value
      then refused "Scope refs must not contain empty or parent path segments."
      else in_root (normpath value) require_glob

  unfoldable pub normalize_scope_path : String → (require_glob : Bool) → Outcome String
  normalize_scope_path value require_glob =
      if is_unfit value
      then refused "Scope refs require a non-empty repo-relative path."
      else if any_char is_control value
      then refused "Scope refs must not contain control characters."
      else if any_char is_backslash value
      then refused "Scope refs require portable POSIX repo-relative paths."
      else scoped value require_glob (urlparse value)

  abbrev pub doc_path : String → Outcome Url → Outcome Bool
  doc_path url (err e) = err e
  doc_path url (ok u) =
      if not (is_empty u.scheme)
      then ok false
      else if not (any_char is_slash url) && not (ends_with ".md" url)
      then ok false
      else ok (not (climbs url))

  unfoldable pub is_repo_relative_doc_path : String → Outcome Bool
  is_repo_relative_doc_path url = if is_unfit url then ok false else doc_path url (urlparse url)

  abbrev pub doc_target : String → Outcome Bool → Outcome String
  doc_target url (err e) = err e
  doc_target url (ok true) = ok (normpath url)
  doc_target url (ok false) = refused "Invalid ref URL. Doc refs accept a URL or a doc path."

  abbrev pub is_remote : Url → Bool
  is_remote u = (u.scheme == "http" || u.scheme == "https") && not (is_empty u.netloc)

  abbrev pub target_of : (url ref_type : String) → Outcome Url → Outcome String
  target_of url ref_type (err e) = err e
  target_of url ref_type (ok u) =
      if is_remote u
      then (if contains scope_ref_types ref_type
          then refused "Scope refs require repo-relative paths, not remote URLs."
          else ok url)
      else if ref_type == "file" || ref_type == "manifest"
      then normalize_scope_path url false
      else if ref_type == "glob"
      then normalize_scope_path url true
      else if ref_type == "doc"
      then doc_target url (is_repo_relative_doc_path url)
      else refused "Invalid ref URL. Use an absolute http(s) URL."

  unfoldable pub normalize_ref_target : (url ref_type : String) → Outcome String
  normalize_ref_target url ref_type =
      if ref_type == "command"
      then normalize_command_target url
      else target_of url ref_type (urlparse url)

abbrev pub new_ref : ℕ → (work_item_id : ℕ) → (ref_type url label : String) → Ref
new_ref n work_item_id ref_type url label = record {
  id = n;
  work_item_id = work_item_id;
  ref_type = ref_type;
  url = url;
  label = label;
}

abbrev pub with_ref_added : Ref → Ledger → Ledger
with_ref_added row s = record s { refs = s.refs ++ row ∷ []; last = record s.last { ref = row.id } }

-- `INSERT INTO ref`
unfoldable pub insert_ref : (work_item_id : ℕ) → (ref_type url label : String) → Action ℕ
insert_ref work_item_id ref_type url label s =
    let n = s.last.ref + 1 in (ok n, with_ref_added (new_ref n work_item_id ref_type url label) s)

abbrev pub add_target : (work_item_id : ℕ) → (ref_type label target : String) → Action ℕ
add_target work_item_id ref_type label target =
    gets (λ s. is_some (get_item work_item_id s)) >>= λ has_item.
    fails_unless has_item (Fault.item_not_found work_item_id)
    >> insert_ref work_item_id ref_type target label

unfoldable pub add_ref :
    (urlparse : String → Outcome Url) (normpath : String → String) (work_item_id : ℕ)
    (ref_type url label : String)
    → Action ℕ
add_ref urlparse normpath work_item_id ref_type url label =
    fails_unless (contains ref_types ref_type) (Fault.value_error "Invalid ref_type")
    >> (lift (normalize_ref_target urlparse normpath url ref_type)
        >>= add_target work_item_id ref_type label)

unfoldable pub remove_ref : (ref_id work_item_id : ℕ) → Action (Unit {0})
remove_ref ref_id work_item_id s =
    if any (λ r. r.id == ref_id && r.work_item_id == work_item_id) s.refs
    then (ok tt, record s { refs = delete (λ r. r.id == ref_id) s.refs })
    else (err (Fault.ref_not_found ref_id), s)
