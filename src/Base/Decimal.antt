-- ===== src/Base/Decimal.antt =====
-- Decimal texts: `%d` of package fmt and `strconv.ParseUint(s, 10, 64)`.
use hyperliquid_go.Base.Test.{
  ltb, leb, Bool-cases, if_eq_true, if_eq_false, if◌then◌else◌, lt→ltb, ltb→lt,
}
use hyperliquid_go.Base.Text.{Str}
use hyperliquid_go.Base.Lists.{All, All-append}
use Prim.Native.Nat.{ℕ, zero, suc, ◌+◌, ◌-◌, ◌*◌, ◌/◌, ◌%◌, ◌^◌, ◌<◌, ◌≤◌}
use mathlib.Core.Path.{◌≡◌, refl, ap, ◌∙◌, sym, subst}
use mathlib.Core.Logic.{◌≢◌, inl, inr}
use mathlib.Core.Bool.{false, ◌&&◌}
use mathlib.Core.List.{[], ◌∷◌, ◌++◌}
use mathlib.Core.Option.{Option, none, some}
use native.Mathlib.Omega.{arith}

-- The digits of a number, by as many steps as are given.
unfoldable pub decimal_from : ℕ → ℕ → Str
decimal_from zero n = []
decimal_from (suc k) n =
    let rest = decimal_from k (n / 10) in
    if ltb n 10 then (48 + n) ∷ [] else rest ++ ((48 + n % 10) ∷ [])

-- A number has fewer digits than its successor says.
unfoldable pub decimal : ℕ → Str
decimal n = decimal_from (suc n) n

unfoldable pub read_digits : ℕ → Str → Option ℕ
read_digits acc [] = some acc
read_digits acc (c ∷ s) =
    let rest = read_digits (acc * 10 + (c - 48)) s in if leb 48 c && leb c 57 then rest else none

unfoldable pub parse_uint : Str → Option ℕ
parse_uint [] = none
parse_uint (c ∷ s) = elim (read_digits 0 (c ∷ s)) [
  | none ↦ none
  | some n ↦ if ltb n (2 ^ 64) then some n else none
]

some_inj : (m n : ℕ) → some m ≡ some n → m ≡ n
some_inj m n h = cc

cons_ne : (c : ℕ) (s : Str) → c ∷ s ≢ []
cons_ne c s h = cc

read_digits-snoc :
    (acc d n : ℕ) (s : Str)
    → d < 10
    → read_digits acc s ≡ some n
    → read_digits acc (s ++ ((48 + d) ∷ [])) ≡ some (n * 10 + d)
unfolding read_digits
read_digits-snoc acc d n [] h e = ground (arith, e, h)
read_digits-snoc acc d n (c ∷ s) h e =
    ground (arith, read_digits-snoc (acc * 10 + (c - 48)) d n s h)

read_digits-digit : (n : ℕ) → n < 10 → read_digits 0 ((48 + n) ∷ []) ≡ some n
unfolding read_digits
read_digits-digit n h = ground (arith, h)

ge_ten : (n : ℕ) → ltb n 10 ≡ false → 10 ≤ n
ge_ten n h = ground arith

read_digits-decimal_from : (k n : ℕ) → n < k → read_digits 0 (decimal_from k n) ≡ some n
unfolding decimal_from
read_digits-decimal_from zero n h = absurd (omega (arith, h))
read_digits-decimal_from (suc k) n h = elim (Bool-cases (ltb n 10)) [
  | inl e ↦ ap (read_digits 0) (if_eq_true (ltb n 10) _ _ e) ∙ read_digits-digit n (ltb→lt n 10 e)
  | inr e ↦
      ap (read_digits 0) (if_eq_false (ltb n 10) _ _ e)
      ∙ read_digits-snoc 0 (n % 10) (n / 10) (decimal_from k (n / 10)) (omega arith)
          (read_digits-decimal_from k (n / 10) (omega (arith, h, ge_ten n e)))
      ∙ ap (λ (i : ℕ). some i) (omega arith)
]

pub read_digits-decimal : (n : ℕ) → read_digits 0 (decimal n) ≡ some n
unfolding decimal
read_digits-decimal n = read_digits-decimal_from (suc n) n (omega arith)

pub decimal-injective : (m n : ℕ) → decimal m ≡ decimal n → m ≡ n
decimal-injective m n h =
    some_inj m n (sym (read_digits-decimal m) ∙ ap (read_digits 0) h ∙ read_digits-decimal n)

snoc_ne : (s : Str) (c : ℕ) → s ++ (c ∷ []) ≢ []
snoc_ne [] c h = cc
snoc_ne (x ∷ s) c h = cc

decimal-ne : (n : ℕ) → decimal n ≢ []
unfolding decimal decimal_from
decimal-ne n h = elim (Bool-cases (ltb n 10)) [
  | inl e ↦ cons_ne (48 + n) [] (sym (if_eq_true (ltb n 10) _ _ e) ∙ h)
  | inr e ↦ snoc_ne (decimal_from n (n / 10)) (48 + n % 10) (sym (if_eq_false (ltb n 10) _ _ e) ∙ h)
]

parse_uint-read :
    (s : Str) (n : ℕ) → s ≢ [] → n < 2 ^ 64 → read_digits 0 s ≡ some n → parse_uint s ≡ some n
unfolding parse_uint
parse_uint-read [] n h l e = absurd (h refl)
parse_uint-read (c ∷ s) n h l e =
    rw (e, parse_uint) (if_eq_true (ltb n (2 ^ 64)) _ _ (lt→ltb n (2 ^ 64) l))

-- Reading the text of a number that fits an uint64 gives the number.
pub parse_uint-decimal : (n : ℕ) → n < 2 ^ 64 → parse_uint (decimal n) ≡ some n
parse_uint-decimal n l = parse_uint-read (decimal n) n (decimal-ne n) l (read_digits-decimal n)

-- The bytes of a decimal text are digits.
abbrev pub IsDigit : ℕ → Type 0
IsDigit c = (48 ≤ c) × (c ≤ 57)

decimal_from-IsDigit : (k n : ℕ) → All IsDigit (decimal_from k n)
unfolding decimal_from
decimal_from-IsDigit zero n = tt
decimal_from-IsDigit (suc k) n = elim (Bool-cases (ltb n 10)) [
  | inl e ↦
      let l = ltb→lt n 10 e in
      subst (All IsDigit) (sym (if_eq_true (ltb n 10) _ _ e)) ((omega arith, omega (arith, l)), tt)
  | inr e ↦ subst (All IsDigit) (sym (if_eq_false (ltb n 10) _ _ e)) (
      All-append IsDigit (decimal_from k (n / 10)) _ (decimal_from-IsDigit k (n / 10))
        ((omega arith, omega arith), tt))
]

pub decimal-IsDigit : (n : ℕ) → All IsDigit (decimal n)
unfolding decimal
decimal-IsDigit n = decimal_from-IsDigit (suc n) n
