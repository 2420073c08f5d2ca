-- ===== src/Float.antt =====
-- Go's float64 and the functions of packages math, strconv and fmt that the code applies to it.
-- The language has no floats: the type and its operations are a parameter of the models.
use hyperliquid_go.Base.{ℕ, Bool, ◌≡◌, true, false, ◌||◌}
use hyperliquid_go.Base.Text.{Str}
use hyperliquid_go.Base.Int.{ℤ}

pub record Float : Type 1 where
  pub F : Type 0
  -- The decimal literal `m` times ten to the power `-d`.
  pub lit : ℕ → ℕ → F
  pub of_int : ℤ → F
  -- `x < y` and `x == y`; both are false on NaN.
  pub lt : F → F → Bool
  pub eq : F → F → Bool
  pub neg : F → F
  pub add : F → F → F
  pub sub : F → F → F
  pub mul : F → F → F
  pub div : F → F → F
  pub round : F → F
  pub floor : F → F
  pub ceil : F → F
  pub log10 : F → F
  pub pow : F → F → F
  pub abs : F → F
  -- `int(x)` of a float.
  pub to_int : F → ℤ
  -- `fmt.Sprintf("%.*f", d, x)`
  pub sprintf_f : ℕ → F → Str
  -- `strconv.ParseFloat(s, 64)`: the value, and whether the error is nil.
  pub parse_float : Str → F × Bool
  -- `strconv.FormatFloat(x, 'f', -1, 64)`
  pub format_shortest : F → Str

module _ (fl : Float) where
  open fl use {F, lit, lt, eq}

  abbrev pub zero_f : F
  zero_f = lit 0 0

  -- `x <= y`
  abbrev pub le : F → F → Bool
  le x y = lt x y || eq x y

  -- `x > 0`
  abbrev pub is_pos : F → Bool
  is_pos x = lt zero_f x

-- What IEEE 754 says of `<` and `==` on all values, NaN included.
pub record OrderLaws (fl : Float) : Type 0 where
  pub lt_asym : (x y : fl.F) → fl.lt x y ≡ true → fl.lt y x ≡ false
  pub lt_ne : (x y : fl.F) → fl.lt x y ≡ true → fl.eq x y ≡ false
  pub eq_sym : (x y : fl.F) → fl.eq x y ≡ fl.eq y x
  -- What is less or greater than something is not NaN, so it equals itself.
  pub lt_left : (x y : fl.F) → fl.lt x y ≡ true → fl.eq x x ≡ true
  pub lt_right : (x y : fl.F) → fl.lt x y ≡ true → fl.eq y y ≡ true
  -- Two values that equal themselves, so neither is NaN, are comparable.
  pub total :
      (x y : fl.F)
      → fl.eq x x ≡ true
      → fl.eq y y ≡ true
      → fl.lt x y ≡ false
      → fl.eq x y ≡ false
      → fl.lt y x ≡ true
