-- ===== src/Wire/Zeros.antt =====
-- The trailing zeros of a text without decimals.
use hyperliquid_go.Base.{
  ℕ, ◌≤◌, true, false, none, [], ◌∷◌, ◌++◌, ◌≡◌, refl, arith, All, Bool-cases, inl, inr, ==_iff,
  ◌==◌, str_eq, nat_eq, ◌∙◌, ap, sym,
}
use hyperliquid_go.Base.Text.{Str}
use hyperliquid_go.Float.{Float}
use hyperliquid_go.Wire.{
  trim_right, after_prefix, trim_zeros, drop_zero_sign, size_to_wire_decimals,
}

abbrev pub IsDigit : ℕ → Type 0
IsDigit c = (48 ≤ c) × (c ≤ 57)

trim_right-snoc : (s : Str) (c : ℕ) → trim_right (s ++ (c ∷ [])) c ≡ trim_right s c
unfolding trim_right hyperliquid_go.Base.str_beq
trim_right-snoc [] c = ground (arith, ==_iff c c)
trim_right-snoc (x ∷ s) c = rw (trim_right-snoc s c) refl

drop_zero_sign-digits : (s : Str) → All IsDigit s → drop_zero_sign s ≡ s
unfolding drop_zero_sign after_prefix
drop_zero_sign-digits [] h = refl
drop_zero_sign-digits (c ∷ s) ((lo, hi), h) = ground arith

All-snoc : (s : Str) → All IsDigit s → All IsDigit (s ++ (b'0' ∷ []))
All-snoc [] h = ((omega arith, omega arith), tt)
All-snoc (c ∷ s) (d, h) = (d, All-snoc s h)

-- Where a size of no decimals prints as the digits of another one and a zero, the two go over the
-- wire as the same text: the zeros of the whole part are trimmed too.
pub size_to_wire_decimals-zero :
    (fl : Float) (x y : fl.F)
    → All IsDigit (fl.sprintf_f 0 y)
    → fl.sprintf_f 0 x ≡ fl.sprintf_f 0 y ++ (b'0' ∷ [])
    → size_to_wire_decimals fl x 0 ≡ size_to_wire_decimals fl y 0
unfolding size_to_wire_decimals trim_zeros
size_to_wire_decimals-zero fl x y digits e =
    let t = fl.sprintf_f 0 y in
    let both = λ (s : Str). trim_right (trim_right s b'0') b'.' in
    ap both (ap drop_zero_sign e ∙ drop_zero_sign-digits (t ++ (b'0' ∷ [])) (All-snoc t digits))
    ∙ ap (λ s. trim_right s b'.') (trim_right-snoc t b'0')
    ∙ sym (ap both (drop_zero_sign-digits t digits))
