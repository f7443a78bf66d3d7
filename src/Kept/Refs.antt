-- ===== src/Kept/Refs.antt =====
-- References.
use sprintctl.Prelude.{ℕ, String}
use sprintctl.Ledger.{Ledger, Outcome}
use sprintctl.Follows.{Follows}
use sprintctl.Refs.{Url, add_target, add_ref}
use sprintctl.Kept.{Kept}
use sprintctl.Kept.Decide.{Keeps-bind, Keeps-read}
use sprintctl.Kept.Maintain.{Keeps-fails_unless}

module _ {R : Ledger → Ledger → Type 0} (k : Kept R) where
  Keeps-add_target :
      (item : ℕ) (kind label target : String) → Follows R (add_target item kind label target)
  Keeps-add_target item kind label target =
      search (Keeps-bind k, Keeps-read k, Keeps-fails_unless k, k.by_insert_ref) depth 12

  pub Keeps-add_ref :
      (urlparse : String → Outcome Url) (normpath : String → String) (item : ℕ)
      (kind url label : String)
      → Follows R (add_ref urlparse normpath item kind url label)
  unfolding add_ref
  Keeps-add_ref urlparse normpath item kind url label =
      search (Keeps-bind k, Keeps-read k, Keeps-fails_unless k, Keeps-add_target) depth 12
