-- ===== src/Domain/Json.antt =====
-- The JSON values that requests hold. A number is kept as the text that prints it.
use sprintctl.Prelude.{ℕ, suc, String, Bool, Option, none, some, ◌==◌, string_eq, if◌then◌else◌}

mutual
  pub data Json : Type 0 where
    null : Json
    boolean : Bool → Json
    number : String → Json
    text : String → Json
    array : Elements → Json
    object : Fields → Json

  pub data Elements : Type 0 where
    no_elements : Elements
    element : Json → Elements → Elements

  pub data Fields : Type 0 where
    no_fields : Fields
    field : String → Json → Fields → Fields

-- `value.get(key)`
unfoldable pub get : String → Fields → Option Json
get key Fields.no_fields = none
get key (Fields.field name value fs) =
    let rest = get key fs in if name == key then some value else rest

-- `len(value)`
abbrev pub size : Fields → ℕ
size Fields.no_fields = 0
size (Fields.field name value fs) = suc (size fs)
