-- ===== src/Prelude/JsonValues.antt =====
-- Values of `JSON.parse`. Of the numbers, those that are no integers are one constructor: the code
-- only ever refuses them.
use mathlib.Core.Bool.{Bool}
use mathlib.Core.Option.{Option, none, some}
use mathlib.Core.List.{List, [], ◌∷◌}
use program_capacity_invoice.Prelude.Tests.{if◌then◌else◌}
use program_capacity_invoice.Prelude.Int.{ℤ}
use program_capacity_invoice.Prelude.Strings.{Text, text_eq}

mutual
  pub data Json : Type 0 where
    null fraction : Json
    boolean : Bool → Json
    integer : ℤ → Json
    string : Text → Json
    array : Items → Json
    object : Fields → Json

  pub data Items : Type 0 where
    nil : Items
    cons : Json → Items → Items

  pub data Fields : Type 0 where
    end : Fields
    field : Text → Json → Fields → Fields

-- `value[key]`, where `JSON.parse` has kept one field of each name
abbrev pub get_field : Text → Fields → Option Json
get_field key end = none
get_field key (field k v rest) = if text_eq k key then some v else get_field key rest

-- the names of the fields
abbrev pub field_names : Fields → List Text
field_names end = []
field_names (field k v rest) = k ∷ field_names rest
