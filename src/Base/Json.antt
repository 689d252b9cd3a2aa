-- ===== src/Base/Json.antt =====
-- The values that `JSON.parse` makes. Only whole numbers are told apart.
use Prim.Native.Nat.{ℕ}
use Prim.Native.String.{String}
use mathlib.Core.Bool.{Bool, true, false, not}
use mathlib.Core.List.{List, [], ◌∷◌}
use mathlib.Core.Option.{Option, none, some}
use vault_drive.Base.Tests.{eqb, if◌then◌else◌}
use vault_drive.Base.Lists.{is_empty}
use vault_drive.Base.Keys.{◌==◌, text_eq}
use vault_drive.Base.JsText.{Text}

mutual
  pub data Json : Type 0 where
    null : Json
    boolean : Bool → Json
    number : ℕ → Json
    other_number : Json
    text : Text → Json
    array : Items → Json
    object : Members → Json

  pub data Items : Type 0 where
    last_item : Items
    item : Json → Items → Items

  pub data Members : Type 0 where
    last_member : Members
    member : String → Json → Members → Members

-- `value[name]`, `none` for `undefined`; only objects have the names that the program reads.
abbrev pub member_of : String → Members → Option Json
member_of name last_member = none
member_of name (member key value rest) = if key == name then some value else member_of name rest

abbrev pub field : String → Json → Option Json
field name (object members) = member_of name members
field name _ = none

-- `typeof value === "object" && value !== null`
abbrev pub is_object : Json → Bool
is_object (array items) = true
is_object (object members) = true
is_object _ = false

-- The truth value of a property.
abbrev pub truthy_json : Option Json → Bool
truthy_json none = false
truthy_json (some null) = false
truthy_json (some (boolean b)) = b
truthy_json (some (number n)) = not (eqb n 0)
truthy_json (some (text t)) = not (is_empty t)
truthy_json (some _) = true

-- `typeof value === "string"`
abbrev pub as_text : Option Json → Option Text
as_text (some (text t)) = some t
as_text _ = none

abbrev pub items_of : Items → List Json
items_of last_item = []
items_of (item j rest) = j ∷ items_of rest

-- `Array.isArray(value)`
abbrev pub as_array : Option Json → Option (List Json)
as_array (some (array items)) = some (items_of items)
as_array _ = none
