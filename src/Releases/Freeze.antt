-- ===== src/Releases/Freeze.antt =====
-- The freezing of a release: `release_revision`, `validate_basis`, `basis_matches`,
-- `canonical_context_refs` and `release_digest` of sprintctl/releases.py, `_basis_from_item` and
-- `_freeze` of sprintctl/releasecore.py, with the statements of sprintctl/db.py. `sha256` is the
-- hexadecimal SHA-256 of a text, `dumps` prints canonical JSON, `lower` is Python's `str.lower`.
use sprintctl.Prelude.{
  ℕ, String, Bool, Option, none, some, List, [], ◌∷◌, map, select, ◌==◌, nat_eq, string_eq,
  if◌then◌else◌,
}
use Prim.Native.String.{◌++◌}
use sprintctl.Prelude.Text.{is_empty, is_uuid_char, is_hex, skip, skip_class, skip_number, decimal}
use sprintctl.Prelude.Order.{by_key, list_leb, text_leb}
use sprintctl.Prelude.Sort.{sort}
use sprintctl.Domain.{Item, Ref, Release}
use sprintctl.Domain.Json.{Json, Elements, Fields}
use sprintctl.Ledger.{Fault, Ledger, Outcome, Action, ok, err, pure, gets, ◌>>=◌, ◌>>◌}
use sprintctl.Schema.{revise_count}
use sprintctl.Schema.Statements.{get_item, insert_release}
use sprintctl.WorkItems.Basics.{◌▹◌, fully, is_item_edit_revision, description_revision}
use sprintctl.WorkItems.Edit.{edit_version}

-- `{edit_revision}@revise:{revise_count}`
unfoldable pub release_revision : String → ℕ → Outcome String
release_revision edit_revision count =
    if is_item_edit_revision edit_revision
    then ok (edit_revision ++ ("@revise:" ++ decimal count))
    else err (Fault.value_error "invalid item edit revision")

-- `^item:[0-9a-fA-F-]{36}@description:v[0-9]+@sha256:[0-9a-f]{64}@revise:[0-9]+$`
unfoldable pub is_release_revision : String → Bool
unfolding skip skip_class skip_number
is_release_revision r =
    fully
      (skip "item:" r
        ▹ skip_class is_uuid_char 36
        ▹ skip "@description:v"
        ▹ skip_number
        ▹ skip "@sha256:"
        ▹ skip_class is_hex 64
        ▹ skip "@revise:"
        ▹ skip_number)
      is_empty

unfoldable pub validate_basis : String → Outcome String
validate_basis expected =
    if is_release_revision expected
    then ok expected
    else if is_item_edit_revision expected
    then ok expected
    else err (Fault.value_error "expected_revision must be a valid item revision")

-- `s.rsplit(mark, 1)[0]`: what stands before the last place of the mark, or the whole text.
abbrev pub starts_at : Option String → Option String
starts_at none = none
starts_at (some rest) = some ""

unfoldable pub before_last : String → String → Option String
unfolding skip
before_last mark String.[] = starts_at (skip mark String.[])
before_last mark (String.◌∷◌ c s) = elim (before_last mark s) [
  | none ↦ starts_at (skip mark (String.◌∷◌ c s))
  | some before ↦ some (String.◌∷◌ c before)
]

abbrev pub or_whole : String → Option String → String
or_whole s none = s
or_whole s (some before) = before

unfoldable pub rsplit_head : String → String → String
unfolding before_last
rsplit_head mark s = or_whole s (before_last mark s)

unfoldable pub basis_matches : (expected current : String) → Bool
basis_matches expected current =
    if is_release_revision expected
    then expected == current
    else expected == rsplit_head "@revise:" current

-- What a release keeps of a reference, in the order of type, URL and label.
pub record ContextRef : Type 0 where
  pub ref_type : String
  pub url : String
  pub label : String

abbrev pub frozen_ref : Ref → ContextRef
frozen_ref r = record { ref_type = r.ref_type; url = r.url; label = r.label }

abbrev pub ref_key : ContextRef → List String
ref_key r = r.ref_type ∷ r.url ∷ r.label ∷ []

abbrev pub ref_leb : ContextRef → ContextRef → Bool
ref_leb = by_key (list_leb text_leb) ref_key

unfoldable pub canonical_context_refs : List Ref → List ContextRef
canonical_context_refs refs = sort ref_leb (map frozen_ref refs)

abbrev pub refs_json : List ContextRef → Elements
refs_json [] = Elements.no_elements
refs_json (r ∷ rs) =
    Elements.element
      (Json.object (
        Fields.field "ref_type" (Json.text r.ref_type) (
          Fields.field "url" (Json.text r.url)
            (Fields.field "label" (Json.text r.label) Fields.no_fields))))
      (refs_json rs)

abbrev pub release_document : (uuid revision : String) → Fields → List ContextRef → Json
release_document uuid revision contract refs = Json.object (
    Fields.field "aggregate_uuid" (Json.text uuid) (
      Fields.field "item_revision" (Json.text revision) (
        Fields.field "acceptance_contract" (Json.object contract)
          (Fields.field "context_refs" (Json.array (refs_json refs)) Fields.no_fields))))

-- The item, its current release revision, and how often it was revised.
pub record Basis : Type 0 where
  pub item : Item
  pub revision : String
  pub revise_count : ℕ

abbrev pub basis_outcome : Item → ℕ → Outcome String → Outcome Basis
basis_outcome item count (err e) = err e
basis_outcome item count (ok revision) =
    ok (record { item = item; revision = revision; revise_count = count })

abbrev pub refs_of : ℕ → Ledger → List Ref
refs_of item_id s = select (λ r. r.work_item_id == item_id) s.refs

module _ (lower : String → String) (sha256 : String → String) (dumps : Json → String) where
  unfoldable pub release_digest :
      (aggregate_uuid item_revision : String) → Fields → List ContextRef → String
  release_digest uuid revision contract refs =
      sha256 (dumps (release_document (lower uuid) revision contract refs))

  -- `_basis_query` counts the edits and the revise decisions of the item.
  abbrev pub basis_from_item : ℕ → Ledger → Option Item → Outcome Basis
  basis_from_item item_id s none = err (Fault.item_not_found item_id)
  basis_from_item item_id s (some item) =
      let count = revise_count s.decisions item_id in
      basis_outcome item count
        (release_revision (description_revision sha256 item (edit_version item_id s)) count)

  unfoldable pub release_basis : ℕ → Action Basis
  unfolding revise_count release_revision
  release_basis item_id s = (basis_from_item item_id s (get_item item_id s), s)

  abbrev pub release_row :
      Basis → (digest actor : String) → Fields → List ContextRef → ℕ → ℕ → Release
  release_row b digest actor contract refs now n = record {
    id = n;
    work_item_id = b.item.id;
    item_revision = b.revision;
    revise_count = b.revise_count;
    release_digest = digest;
    acceptance_contract = dumps (Json.object contract);
    context_refs = dumps (Json.array (refs_json refs));
    actor = actor;
    created_at = now;
  }

  abbrev pub freeze_digest : Basis → Fields → Ledger → String
  freeze_digest b contract s =
      release_digest b.item.aggregate_uuid b.revision contract
        (canonical_context_refs (refs_of b.item.id s))

  unfoldable pub freeze : Basis → (actor : String) → (contract : Fields) → Action String
  unfolding release_digest canonical_context_refs
  freeze b actor contract = do
    refs ← gets (λ s. canonical_context_refs (refs_of b.item.id s))
    now ← gets (λ s. s.clock)
    let digest = release_digest b.item.aggregate_uuid b.revision contract refs
    insert_release (release_row b digest actor contract refs now)
    pure digest
