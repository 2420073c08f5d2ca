-- ===== src/Signing/Values.antt =====
-- Go's `map[string]any` as the actions use it, and the schemas of typed data.
use hyperliquid_go.Base.{[], ◌∷◌, ℕ, Bool, Option, none, some, List, ◌==◌, str_eq, if◌then◌else◌}
use hyperliquid_go.Base.Dict.{Dict}
use hyperliquid_go.Base.Text.{Str}
use hyperliquid_go.Base.Int.{ℤ}

-- info.PerpDexSchemaInput
pub record PerpDexSchemaInput : Type 0 where
  pub full_name : Str
  pub collateral_token : ℤ
  pub oracle_updater : Option Str

-- The dynamic values: a text, an int or int64, a bool, a float64 by its bits, a *big.Int, a slice of
-- texts, a map of floats, a dex schema, and a map again. A map is the list of its entries.
mutual
  pub data Value : Type 0 where
    text : Str → Value
    int : ℤ → Value
    flag : Bool → Value
    float : ℕ → Value
    big : ℤ → Value
    texts : List Str → Value
    floats : Dict Str ℕ → Value
    dex_schema : PerpDexSchemaInput → Value
    object : Fields → Value

  pub data Fields : Type 0 where
    no_fields : Fields
    field : Str → Value → Fields → Fields

unfoldable pub get_field : Str → Fields → Option Value
get_field k no_fields = none
get_field k (field j v m) = if j == k then some v else get_field k m

-- `m[k] = v`
unfoldable pub set_field : Str → Value → Fields → Fields
set_field k v no_fields = field k v no_fields
set_field k v (field j w m) = if j == k then field k v m else field j w (set_field k v m)

-- apitypes.Type: a field's name and its EIP-712 type.
pub record SchemaField : Type 0 where
  pub name : Str
  pub kind : Str

abbrev pub Schema : Type 0
Schema = List SchemaField

-- A map literal, whose keys are distinct.
abbrev pub map_of : List (Str × Value) → Fields
map_of [] = no_fields
map_of ((k, v) ∷ rest) = field k v (map_of rest)
