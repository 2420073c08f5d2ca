-- ===== src/Signing/Lenient.antt =====
-- `HashStructLenient` up to the hash: the declared fields alone, with the uint64 ones as big numbers.
use hyperliquid_go.Base.{
  ℕ, ◌^◌, Bool, ◌||◌, not, Option, none, some, [], ◌∷◌, ◌==◌, str_eq, if◌then◌else◌, Result, ok,
  err, ◌>>=◌,
}
use hyperliquid_go.Base.Text.{Str, codes}
use hyperliquid_go.Base.Int.{ℤ, pos, negsuc}
use hyperliquid_go.Float.{Float, zero_f}
use hyperliquid_go.Signing.Values.{
  Fields, Value, text, int, flag, float, big, texts, floats, dex_schema, object, get_field,
  set_field, Schema,
}

-- float64 by its bits, its conversion to uint64, and `big.Int.SetString` in base ten.
pub record Numbers : Type 1 where
  pub fl : Float
  pub float_of_bits : ℕ → fl.F
  pub to_uint64 : fl.F → ℕ
  pub parse_big : Str → Option ℤ

pub data FieldError : Type 0 where
  missing_field : Str → FieldError
  not_uint64 : Str → FieldError

module _ (numbers : Numbers) where
  open numbers use {fl, float_of_bits, to_uint64, parse_big}
  open fl use {F, lt, eq, of_int}

  -- `x < 0 || x > 1<<63 || float64(uint64(x)) != x`
  unfoldable pub is_no_uint64 : F → Bool
  is_no_uint64 x =
      lt x (zero_f fl) || lt (of_int (pos (2 ^ 63))) x || not (eq (of_int (pos (to_uint64 x))) x)

  -- `toBigUint64`
  unfoldable pub to_big_uint64 : Value → Str → Result FieldError ℤ
  to_big_uint64 (big n) name = ok n
  to_big_uint64 (int (pos n)) name = ok (pos n)
  to_big_uint64 (int (negsuc n)) name = err (not_uint64 name)
  to_big_uint64 (float bits) name =
      if is_no_uint64 (float_of_bits bits)
      then err (not_uint64 name)
      else ok (pos (to_uint64 (float_of_bits bits)))
  to_big_uint64 (text s) name = elim (parse_big s) [ none ↦ err (not_uint64 name) | some n ↦ ok n ]
  to_big_uint64 (flag b) name = err (not_uint64 name)
  to_big_uint64 (texts xs) name = err (not_uint64 name)
  to_big_uint64 (floats m) name = err (not_uint64 name)
  to_big_uint64 (dex_schema d) name = err (not_uint64 name)
  to_big_uint64 (object m) name = err (not_uint64 name)

  -- The value of one declared field.
  unfoldable pub declared_value : Str → Str → Fields → Result FieldError Value
  declared_value name kind msg = elim (get_field name msg) [
    | none ↦ err (missing_field name)
    | some v ↦ if kind == codes "uint64" then (do n ← to_big_uint64 v name; ok (big n)) else ok v
  ]

  -- The loop over the declared fields; `filtered` is the map so far.
  unfoldable pub filter_fields : Schema → Fields → Fields → Result FieldError Fields
  filter_fields [] msg filtered = ok filtered
  filter_fields (t ∷ ts) msg filtered = do
    v ← declared_value t.name t.kind msg
    filter_fields ts msg (set_field t.name v filtered)
