-- ===== src/Tests/Floats.antt =====
-- A concrete instance of the float operations: whole tenths, with truncated products and quotients
-- and literals rounded up.
use hyperliquid_go.Base.{
  nat_beq, ℕ, zero, suc, ◌+◌, ◌*◌, ◌/◌, ◌%◌, ◌-◌, ◌^◌, Bool, true, false, not, if◌then◌else◌, [],
  ◌∷◌, ◌++◌, arith, ltb,
}
use hyperliquid_go.Base.Int.{magnitude, ℤ, pos, negsuc, ltb_ℤ, sub_ℤ, int_beq}
use hyperliquid_go.Base.Text.{Str}
use hyperliquid_go.Float.{Float, OrderLaws}

abbrev is_negative : ℤ → Bool
is_negative (pos n) = false
is_negative (negsuc n) = true

abbrev pub signed : Bool → ℕ → ℤ
signed false n = pos n
signed true zero = pos 0
signed true (suc n) = negsuc n

abbrev same_sign : ℤ → ℤ → Bool
same_sign a b = if is_negative a then is_negative b else not (is_negative b)

abbrev negate : ℤ → ℤ
negate z = signed (not (is_negative z)) (magnitude z)

abbrev pub times : ℤ → ℤ → ℤ
times a b = signed (not (same_sign a b)) (magnitude a * magnitude b / 10)

abbrev quotient : ℤ → ℤ → ℤ
quotient a b = signed (not (same_sign a b)) (magnitude a * 10 / magnitude b)

abbrev pub whole : ℤ → ℤ
whole a = signed (is_negative a) (magnitude a / 10)

abbrev pub tenths_of : ℤ → ℤ
tenths_of a = signed (is_negative a) (magnitude a * 10)

-- The decimal digits of a number, by as many steps as are given.
abbrev digits : ℕ → ℕ → Str
digits zero n = []
digits (suc k) n =
    let rest = digits k (n / 10) in if ltb n 10 then (48 + n) ∷ [] else rest ++ (48 + n % 10) ∷ []

abbrev text : ℤ → Str
text a =
    let body = digits 20 (magnitude a / 10) ++ 46 ∷ digits 20 (magnitude a % 10) in
    if is_negative a then 45 ∷ body else body

-- The tenths that a text of at most one decimal stands for.
abbrev read : Bool → ℕ → Str → ℕ
read seen n [] = if seen then n else n * 10
read seen n (c ∷ s) = if ltb c 48 then read true n s else read seen (n * 10 + (c - 48)) s

abbrev pub tenths : Float
tenths = record {
  F = ℤ;
  lit = λ m d. pos ((m * 10 + 10 ^ d - 1) / 10 ^ d);
  of_int = tenths_of;
  lt = ltb_ℤ;
  eq = int_beq;
  neg = negate;
  add = λ a b. sub_ℤ a (negate b);
  sub = sub_ℤ;
  mul = times;
  div = quotient;
  round = λ a. tenths_of (whole a);
  floor = λ a. tenths_of (whole a);
  ceil = λ a. tenths_of (whole a);
  log10 = λ a. pos 0;
  pow = λ a b. pos 10;
  abs = λ a. pos (magnitude a);
  to_int = whole;
  sprintf_f = λ d a. if nat_beq d 0 then digits 20 (magnitude a / 10) else text a;
  parse_float = λ s. (pos (read false 0 s), true);
  format_shortest = text;
}

pub tenths_laws : OrderLaws tenths
tenths_laws = record {
  lt_asym = λ x y h. ground arith;
  lt_ne = λ x y h. ground arith;
  eq_sym = λ x y. ground arith;
  lt_left = λ x y h. ground arith;
  lt_right = λ x y h. ground arith;
  total = λ x y a b c d. ground arith;
}
