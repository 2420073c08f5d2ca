-- ===== src/Wire.antt =====
-- internal/wire/wire.go: floats as the decimal texts that go over the wire.
pub mod Zeros
use hyperliquid_go.Base.{
  ℕ, Bool, false, not, ◌&&◌, ◌||◌, Option, none, some, [], ◌∷◌, ◌++◌, ◌==◌, str_eq, nat_eq,
  if◌then◌else◌,
}
use hyperliquid_go.Base.Text.{Str, codes}
use hyperliquid_go.Base.Int.{pos, sub_ℤ}
use hyperliquid_go.Float.{Float, zero_f, le}

-- `strings.TrimRight(s, c)` for a cutset of one byte.
unfoldable pub trim_right : Str → ℕ → Str
trim_right [] c = []
trim_right (x ∷ s) c = let t = trim_right s c in if t == [] && x == c then [] else x ∷ t

-- `strings.TrimPrefix` and `strings.HasPrefix` together: what follows the prefix, if it is there.
unfoldable pub after_prefix : Str → Str → Option Str
after_prefix [] s = some s
after_prefix (p ∷ ps) [] = none
after_prefix (p ∷ ps) (c ∷ s) = let rest = after_prefix ps s in if p == c then rest else none

-- The last two steps of every function of the file.
unfoldable pub trim_zeros : Str → Str
trim_zeros rounded = trim_right (trim_right rounded b'0') b'.'

-- A text "-0." followed by zeros alone loses its sign.
unfoldable pub drop_zero_sign : Str → Str
drop_zero_sign rounded = elim (after_prefix (codes "-0.") rounded) [
  | none ↦ rounded
  | some rest ↦ if trim_right rest b'0' == [] then codes "0." ++ rest else rounded
]

module _ (fl : Float) where
  open fl use {
    F, lit, of_int, lt, eq, neg, add, sub, mul, div, round, ceil, log10, pow, abs, to_int,
  }
  open fl use {sprintf_f, parse_float, format_shortest}

  unfoldable pub round_to_decimals : F → ℕ → F
  round_to_decimals value decimals =
      let p = pow (lit 10 0) (of_int (pos decimals)) in div (round (mul value p)) p

  -- `ParseFloat`: zero where the text does not parse.
  unfoldable pub parse_float_or_zero : Str → F
  parse_float_or_zero s = let (f, parsed) = parse_float s in if parsed then f else zero_f fl

  -- `Abs`
  unfoldable pub abs_of : F → F
  abs_of x = if lt x (zero_f fl) then neg x else x

  unfoldable pub format_float : F → Str
  format_float f = sprintf_f 6 f

  -- `FormatUsdAmount`: a text without a point or an exponent gets ".0".
  unfoldable pub contains_point : Str → Bool
  contains_point [] = false
  contains_point (c ∷ s) = (c == b'.' || (c == b'e' || c == b'E')) || contains_point s

  unfoldable pub format_usd_amount : F → Str
  format_usd_amount f = let s = format_shortest f in if contains_point s then s else s ++ codes ".0"

  -- The comparison with "-0.000" is the whole text here.
  unfoldable pub size_to_wire : F → Str
  size_to_wire x =
      let rounded = sprintf_f 3 x in
      trim_zeros (if rounded == codes "-0.000" then codes "0.000" else rounded)

  unfoldable pub size_to_wire_decimals : F → ℕ → Str
  size_to_wire_decimals x decimals = trim_zeros (drop_zero_sign (sprintf_f decimals x))

  -- `none` where rounding to eight decimals changes the value, or the text does not parse.
  unfoldable pub float_to_wire : F → Option Str
  float_to_wire x =
      let rounded = sprintf_f 8 x in
      let (parsed, parses) = parse_float rounded in
      if not parses
      then none
      else if le fl (lit 1 12) (abs (sub parsed x))
      then none
      else some
          (trim_zeros (if rounded == codes "-0.00000000" then codes "0.00000000" else rounded))

  unfoldable pub round_to_significant_figures : F → ℕ → Option F
  round_to_significant_figures x n =
      if eq x (zero_f fl)
      then some (zero_f fl)
      else if n == 0
      then none
      else let power = sub_ℤ (pos n) (to_int (ceil (log10 (abs x)))) in
        let magnitude = pow (lit 10 0) (of_int power) in
        some (div (round (mul x magnitude)) magnitude)

  -- A negative count of decimals counts as zero, which the subtraction of its callers gives.
  unfoldable pub price_to_wire_decimals : F → ℕ → Option Str
  price_to_wire_decimals x allowed = elim (round_to_significant_figures x 5) [
    | none ↦ none
    | some rounded_sig ↦ some (trim_zeros (drop_zero_sign (sprintf_f allowed rounded_sig)))
  ]
