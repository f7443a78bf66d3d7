-- ===== src/Examples/Linked.antt =====
-- References of an item.
use sprintctl.Prelude.{String, ◌≡◌, refl, string_eq, find}
use Prim.Native.String.{String}
use sprintctl.Prelude.Text.{strip, lstrip, rstrip, is_space, skip}
use sprintctl.Ledger.{Outcome, ok, outcome, after}
use sprintctl.Refs.{
  Url, add_ref, remove_ref, normalize_ref_target, normalize_scope_path, split_slash, insert_ref,
}
use sprintctl.Refs.Added.{remove_ref-add_ref}
use sprintctl.Examples.Ledgers.{start, environment}

abbrev local : String → Outcome Url
local = environment.urlparse

abbrev same_path : String → String
same_path p = p

linked : outcome (add_ref local same_path 1 "glob" "docs/*.md" "plans") start ≡ ok 1
unfolding add_ref insert_ref normalize_ref_target normalize_scope_path split_slash find strip lstrip
    rstrip is_space skip
linked = refl

remove_ref-add_ref_example :
    (outcome (remove_ref 1 1) (after (add_ref local same_path 1 "glob" "docs/*.md" "plans") start)
      ≡ ok tt)
    × ((after
          (remove_ref 1 1)
          (after (add_ref local same_path 1 "glob" "docs/*.md" "plans") start)).refs
        ≡ start.refs)
remove_ref-add_ref_example =
    remove_ref-add_ref local same_path 1 "glob" "docs/*.md" "plans" start 1 linked tt
