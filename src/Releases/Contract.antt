-- ===== src/Releases/Contract.antt =====
-- `normalize_acceptance_contract` of sprintctl/releases.py and the table of verification profiles.
-- `canonical` is the reading back of the canonical JSON text, `json.loads(canonical_json(…))`.
use sprintctl.Prelude.{
  String, Bool, true, false, not, ◌&&◌, Option, none, some, List, [], ◌∷◌, leb, ◌==◌, nat_eq,
  string_eq, if◌then◌else◌, contains, all, select,
}
use sprintctl.Prelude.Text.{is_blank, len, skip, is_hex_text}
use sprintctl.Domain.Json.{Json, Elements, Fields, get, size}
use sprintctl.Ledger.{Fault, Outcome, ok, err}
use sprintctl.WorkItems.Basics.{fully}

-- What a profile requires of the outcome of a work item. The table has no other profile: a lookup of
-- one is a KeyError, here none.
abbrev pub profiles : List String
profiles =
    "self-reported" ∷ "checked" ∷ "role-separated" ∷ "identity-separated" ∷ "human-authorized" ∷ []

abbrev pub requirements : String → Option (List String)
requirements profile =
    if profile == "self-reported"
    then some []
    else if profile == "checked"
    then some ("checks" ∷ [])
    else if profile == "role-separated"
    then some ("checks" ∷ "verifier-role" ∷ [])
    else if profile == "identity-separated"
    then some ("checks" ∷ "verifier-identity" ∷ [])
    else if profile == "human-authorized"
    then some ("human-authorization" ∷ [])
    else none

abbrev pub enforced_requirements : List String
enforced_requirements = "checks" ∷ []

-- `VERIFICATION_REQUIREMENTS[profile] <= ENFORCED_REQUIREMENTS`, for a profile of the table, as each
-- of `VERIFICATION_PROFILES` is
abbrev pub are_enforced : Option (List String) → Bool
are_enforced none = false
are_enforced (some needs) = all (contains enforced_requirements) needs

abbrev pub is_enforced : String → Bool
is_enforced profile = are_enforced (requirements profile)

unfoldable pub supported_profiles : List String
unfolding select
supported_profiles = select is_enforced profiles

-- A list of texts that are not blank.
abbrev pub is_label : Json → Bool
is_label (Json.text s) = not (is_blank s)
is_label _ = false

abbrev pub all_labels : Elements → Bool
all_labels Elements.no_elements = true
all_labels (Elements.element value rest) = is_label value && all_labels rest

abbrev pub obligations_ok : Option Json → Bool
obligations_ok none = true
obligations_ok (some (Json.array labels)) = all_labels labels
obligations_ok (some _) = false

abbrev pub boolean_ok : Option Json → Bool
boolean_ok none = true
boolean_ok (some (Json.boolean b)) = true
boolean_ok (some _) = false

-- `sha256:[0-9a-f]{64}`
unfoldable pub is_check_revision : String → Bool
unfolding skip
is_check_revision r = fully (skip "sha256:" r) (is_hex_text 64)

abbrev pub is_revision : Json → Bool
is_revision (Json.text r) = is_check_revision r
is_revision _ = false

abbrev pub all_revisions : Fields → Bool
all_revisions Fields.no_fields = true
all_revisions (Fields.field name value rest) =
    not (is_blank name) && leb (len name) 200 && is_revision value && all_revisions rest

abbrev pub revisions_ok : Option Json → Bool
revisions_ok none = true
revisions_ok (some (Json.object checks)) =
    leb 1 (size checks) && leb (size checks) 64 && all_revisions checks
revisions_ok (some _) = false

abbrev pub profile_ok : Option Json → Bool
profile_ok none = true
profile_ok (some (Json.text profile)) = contains supported_profiles profile
profile_ok (some _) = false

-- `contract.get("evidence_obligations")` as a truth value, of a list
abbrev pub owes_evidence : Option Json → Bool
owes_evidence (some (Json.array (Elements.element label rest))) = true
owes_evidence _ = false

abbrev pub is_self_reported : Option Json → Bool
is_self_reported (some (Json.text profile)) = profile == "self-reported"
is_self_reported _ = false

-- The checks in the order of the source; each names the error that it raises.
unfoldable pub contract_error : Fields → Option String
contract_error contract =
    if not (obligations_ok (get "evidence_obligations" contract))
    then some "evidence_obligations must be a list of non-empty strings"
    else if not (boolean_ok (get "effect_verification_required" contract))
    then some "effect_verification_required must be a boolean"
    else if not (revisions_ok (get "effect_check_revisions" contract))
    then some "effect_check_revisions must map one to 64 check names to exact sha256 revisions"
    else if not (profile_ok (get "verification_profile" contract))
    then some "verification_profile must be one of the supported profiles"
    else if is_self_reported (get "verification_profile" contract)
        && owes_evidence (get "evidence_obligations" contract)
    then some "'self-reported' cannot be combined with evidence_obligations"
    else none

abbrev pub default_contract : Fields
default_contract = Fields.field "review_required" (Json.boolean true) Fields.no_fields

abbrev pub accepted_contract : Option String → Fields → Outcome Fields
accepted_contract none normalized = ok normalized
accepted_contract (some message) normalized = err (Fault.value_error message)

module _ (canonical : Fields → Fields) where
  unfoldable pub normalize_acceptance_contract : Option Json → Outcome Fields
  normalize_acceptance_contract none = ok default_contract
  normalize_acceptance_contract (some (Json.object contract)) =
      accepted_contract (contract_error contract) (canonical contract)
  normalize_acceptance_contract (some _) =
      err (Fault.value_error "acceptance_contract must be an object")
