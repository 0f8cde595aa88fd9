-- ===== src/Json.antt =====
-- The values that encoding/json decodes into an `any`: an object's fields, where a name that occurs
-- twice has the first of its values here; numbers, Booleans and null are not told apart.
use caddy_dynamic_routing.Base.{Option, none, some, Text, str_eq, if◌then◌else◌, []}

mutual
  pub data Json : Type 0 where
    text : Text → Json
    array : Items → Json
    object : Fields → Json
    other : Json

  pub data Items : Type 0 where
    nil : Items
    item : Json → Items → Items

  pub data Fields : Type 0 where
    no_field : Fields
    field : Text → Json → Fields → Fields

-- `m[k]`
unfoldable pub lookup : Text → Fields → Option Json
lookup k no_field = none
lookup k (field j v fs) = let rest = lookup k fs in if str_eq j k then some v else rest

-- `s, ok := v.(string)`
abbrev pub as_text? : Option Json → Option Text
as_text? (some (text s)) = some s
as_text? _ = none

-- `s, _ := v.(string)`
abbrev pub as_text : Option Json → Text
as_text (some (text s)) = s
as_text _ = []
