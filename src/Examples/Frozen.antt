-- ===== src/Examples/Frozen.antt =====
-- Releases and contracts of the example's items.
use sprintctl.Prelude.{List, ℕ, ◌≡◌, refl, String, true, false, none, [], ◌∷◌, ◌↔◌, string_eq}
use mathlib.Core.List.Permᴰ.{swap}
use sprintctl.Prelude.Text.{skip, skip_class, skip_number, decimal}
use sprintctl.Domain.{Ref, Status}
use sprintctl.Domain.Json.{Json, Elements, Fields}
use sprintctl.Ledger.{ok, after}
use sprintctl.WorkItems.Basics.{is_item_edit_revision}
use sprintctl.Releases.Contract.{default_contract}
use sprintctl.Releases.Freeze.{
  Basis, canonical_context_refs, freeze, freeze_digest, release_revision, is_release_revision,
  basis_matches,
}
use sprintctl.Releases.Content.{canonical_context_refs_permuted, freeze-freeze}
use sprintctl.Releases.Stale.{basis_matches_iff}
use sprintctl.Examples.Ledgers.{start, row, digest, environment}

abbrev link : ℕ → String → Ref
link n url = record { id = n; work_item_id = 1; ref_type = "doc"; url = url; label = "" }

canonical_context_refs_permuted_example :
    canonical_context_refs (link 1 "b" ∷ link 2 "a" ∷ [])
    ≡ canonical_context_refs (link 2 "a" ∷ link 1 "b" ∷ [])
canonical_context_refs_permuted_example =
    canonical_context_refs_permuted (link 1 "b" ∷ link 2 "a" ∷ []) (link 2 "a" ∷ link 1 "b" ∷ [])
      (swap refl refl)

abbrev edit_revision : String
edit_revision =
    "item:0123abcd-0123-0123-0123-0123456789ab@description:v0@sha256:0123456789abcdef0123456789abcdef0123456789abcdef0123456789abcdef"

abbrev current_revision : String
current_revision =
    "item:0123abcd-0123-0123-0123-0123456789ab@description:v0@sha256:0123456789abcdef0123456789abcdef0123456789abcdef0123456789abcdef@revise:2"

abbrev basis : Basis
basis = record {
  item = row 1 Status.active none none;
  revision = current_revision;
  revise_count = 2;
}

freeze-freeze_example :
    freeze environment.lower digest environment.dumps basis "ann" default_contract
      (after (freeze environment.lower digest environment.dumps basis "ann" default_contract) start)
    ≡ (
      ok (freeze_digest environment.lower digest environment.dumps basis default_contract start),
      after (freeze environment.lower digest environment.dumps basis "ann" default_contract) start,
    )
freeze-freeze_example =
    freeze-freeze environment.lower digest environment.dumps basis "ann" default_contract start

abbrev profile : String
profile = "checked"

abbrev checked_contract : Fields
checked_contract = Fields.field "verification_profile" (Json.text "checked") (
    Fields.field "evidence_obligations"
      (Json.array (Elements.element (Json.text "test-run") Elements.no_elements)) Fields.no_fields)

basis_matches_iff_example :
    (is_release_revision edit_revision ≡ true
      → (basis_matches edit_revision current_revision ≡ true) ↔ (edit_revision ≡ current_revision))
    × (is_release_revision edit_revision ≡ false
        → (basis_matches edit_revision current_revision ≡ true) ↔ (edit_revision ≡ edit_revision))
unfolding is_item_edit_revision skip skip_class skip_number release_revision decimal
basis_matches_iff_example =
    basis_matches_iff edit_revision edit_revision current_revision 2 refl refl
