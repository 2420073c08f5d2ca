-- ===== src/Types/Mixed.antt =====
-- types/mixed.go: the JSON kind of a raw value, from its first byte.
use hyperliquid_go.Base.{ℕ, [], ◌∷◌, ◌==◌, nat_eq, if◌then◌else◌, ◌||◌}
use hyperliquid_go.Base.Text.{Str, codes}

abbrev kind_of_byte : ℕ → Str
kind_of_byte c =
    if c == b'"'
    then codes "string"
    else if c == b'{'
    then codes "object"
    else if c == b'['
    then codes "array"
    else if c == b't' || c == b'f'
    then codes "boolean"
    else if c == b'n'
    then codes "null"
    else codes "number"

-- `Type()`. A value is the raw bytes of its JSON text.
unfoldable pub json_type : Str → Str
json_type [] = codes "null"
json_type (c ∷ s) = kind_of_byte c
