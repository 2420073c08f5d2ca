-- ===== src/Info/Proofs/Canonical.antt =====
-- The canonical names of the outcomes: what they name after the registration, and what they parse to.
use hyperliquid_go.Base.{
  Any, subst, ℕ, zero, suc, ◌+◌, ◌*◌, ◌<◌, ◌≡◌, ◌∙◌, sym, ◌≢◌, inl, inr, false, Bool-cases, Option,
  none, some, List, [], ◌∷◌, ◌++◌, arith, All, length, ◌==◌, ==_iff, nat_eq, str_eq,
}
use hyperliquid_go.Base.Dict.{lookup, lookup-insert_self, lookup-insert_ne}
use hyperliquid_go.Base.Text.{Str}
use hyperliquid_go.Base.Decimal.{decimal, decimal-injective, decimal-IsDigit, IsDigit}
use hyperliquid_go.Types.Asset.{asset_outcome_base}
use hyperliquid_go.Info.{Tables}
use hyperliquid_go.Info.Outcome.{OutcomeInfo, OutcomeMeta, canonical}
use hyperliquid_go.Info.Registry.{
  friendly, register_name, register_decimals, register_prefixed, register_side, register_sides,
  register_outcome, register_outcomes,
}

ne_of_false : (m n : ℕ) → m == n ≡ false → m ≢ n
ne_of_false m n h = ground (arith, h)

-- A text with a colon.
digits_ne_colon : (s a b : Str) → All IsDigit s → s ≢ a ++ (b':' ∷ b)
digits_ne_colon [] [] b h e = cc
digits_ne_colon [] (c ∷ a) b h e = cc
digits_ne_colon (d ∷ s) [] b ((l, u), h) e = let k : d ≡ b':' = cc in absurd (omega (arith, k, u))
digits_ne_colon (d ∷ s) (c ∷ a) b (l, h) e =
    let k : s ≡ a ++ (b':' ∷ b) = cc in digits_ne_colon s a b h k

canonical-friendly : (enc : ℕ) (name side : Str) → friendly name side ≢ canonical enc
unfolding friendly canonical
canonical-friendly enc [] side e = let k : ◌≡◌ {A = ℕ} b':' b'#' = cc in absurd (omega (arith, k))
canonical-friendly enc (c ∷ name) side e =
    let k : name ++ (b':' ∷ side) ≡ decimal enc = cc in
    digits_ne_colon (decimal enc) name side (decimal-IsDigit enc) (sym k)

canonical-injective : (m n : ℕ) → canonical m ≡ canonical n → m ≡ n
unfolding canonical
canonical-injective m n e = let k : decimal m ≡ decimal n = cc in decimal-injective m n k

-- The canonical name stands for the outcome's asset, which has no size decimals.
abbrev pub Named : ℕ → Tables → Type 0
Named enc t =
    (lookup (canonical enc) t.coin_to_asset ≡ some (asset_outcome_base + enc))
    × (lookup (canonical enc) t.name_to_coin ≡ some (canonical enc))
    × (lookup (asset_outcome_base + enc) t.asset_to_decimal ≡ some 0)

-- The last write of a side.
abbrev registered : ℕ → Tables → Tables
registered e t =
    register_decimals (asset_outcome_base + e) 0
      (register_name (canonical e) (canonical e) (asset_outcome_base + e) t)

registered-Named : (e : ℕ) (t : Tables) → Named e (registered e t)
unfolding register_name register_decimals
registered-Named e t = (
  lookup-insert_self (canonical e) _ t.coin_to_asset,
  lookup-insert_self (canonical e) _ t.name_to_coin,
  lookup-insert_self (asset_outcome_base + e) _ t.asset_to_decimal,
)

registered-keeps : (e enc : ℕ) (t : Tables) → Named enc t → Named enc (registered e t)
unfolding register_name register_decimals
registered-keeps e enc t (p, q, r) = elim (Bool-cases (e == enc)) [
  | inl b ↦ subst (λ (x : ℕ). Named x (registered e t)) ((==_iff e enc).0 b) (registered-Named e t)
  | inr b ↦
      let n : e ≢ enc = λ k. ne_of_false e enc b k in
      let c : canonical e ≢ canonical enc = λ k. n (canonical-injective e enc k) in
      let d : asset_outcome_base + e ≢ asset_outcome_base + enc = λ k. n (omega (arith, k)) in
      (
        lookup-insert_ne (canonical e) (canonical enc) _ t.coin_to_asset c ∙ p,
        lookup-insert_ne (canonical e) (canonical enc) _ t.name_to_coin c ∙ q,
        lookup-insert_ne (asset_outcome_base + e) (asset_outcome_base + enc) _ t.asset_to_decimal d
            ∙ r,
      )
]

friendly-keeps :
    (name side coin : Str) (asset enc : ℕ) (t : Tables)
    → Named enc t
    → Named enc (register_name (friendly name side) coin asset t)
unfolding register_name
friendly-keeps name side coin asset enc t (p, q, r) =
    let c = canonical-friendly enc name side in
    (
      lookup-insert_ne (friendly name side) (canonical enc) asset t.coin_to_asset c ∙ p,
      lookup-insert_ne (friendly name side) (canonical enc) coin t.name_to_coin c ∙ q,
      r,
    )

register_side-keeps :
    (oc : OutcomeInfo) (prefix : Option Str) (i enc : ℕ) (side : Str) (t : Tables)
    → Named enc t
    → Named enc (register_side oc prefix i side t)
unfolding register_side register_prefixed
register_side-keeps oc none i enc side t h =
    registered-keeps (10 * oc.outcome + i) enc _ (friendly-keeps oc.name side _ _ enc t h)
register_side-keeps oc (some p) i enc side t h =
    registered-keeps (10 * oc.outcome + i) enc _
      (friendly-keeps p side _ _ enc _ (friendly-keeps oc.name side _ _ enc t h))

register_side-Named :
    (oc : OutcomeInfo) (prefix : Option Str) (i : ℕ) (side : Str) (t : Tables)
    → Named (10 * oc.outcome + i) (register_side oc prefix i side t)
unfolding register_side
register_side-Named oc prefix i side t = registered-Named (10 * oc.outcome + i) _

register_sides-keeps :
    (oc : OutcomeInfo) (prefix : Option Str) (i enc : ℕ) (sides : List Str) (t : Tables)
    → Named enc t
    → Named enc (register_sides oc prefix i sides t)
unfolding register_sides
register_sides-keeps oc prefix i enc [] t h = h
register_sides-keeps oc prefix i enc (side ∷ sides) t h =
    register_sides-keeps oc prefix (suc i) enc sides _
      (register_side-keeps oc prefix i enc side t h)

register_sides-Named :
    (oc : OutcomeInfo) (prefix : Option Str) (i j : ℕ) (sides : List Str) (t : Tables)
    → j < length sides
    → Named (10 * oc.outcome + (i + j)) (register_sides oc prefix i sides t)
unfolding register_sides
register_sides-Named oc prefix i j [] t h = absurd (omega (arith, h))
register_sides-Named oc prefix i zero (side ∷ sides) t h =
    register_sides-keeps oc prefix (suc i) _ sides _ (
      subst (λ (x : ℕ). Named (10 * oc.outcome + x) (register_side oc prefix i side t))
        (omega arith) (register_side-Named oc prefix i side t))
register_sides-Named oc prefix i (suc j) (side ∷ sides) t h =
    subst
      (λ (x : ℕ).
        Named (10 * oc.outcome + x)
          (register_sides oc prefix (suc i) sides (register_side oc prefix i side t)))
      (omega arith) (register_sides-Named oc prefix (suc i) j sides _ (omega (arith, h)))

sides_of-Named :
    (oc : OutcomeInfo) (prefix : Option Str) (j : ℕ) (sides : List Str) (t : Tables)
    → j < length sides
    → Named (10 * oc.outcome + j) (register_sides oc prefix 0 sides t)
sides_of-Named oc prefix j sides t h =
    subst (λ (x : ℕ). Named (10 * oc.outcome + x) (register_sides oc prefix 0 sides t))
      (omega arith) (register_sides-Named oc prefix 0 j sides t h)

register_outcomes-keeps :
    (meta : OutcomeMeta) (enc : ℕ) (ocs : List OutcomeInfo) (t : Tables)
    → Named enc t
    → Named enc (register_outcomes meta ocs t)
unfolding register_outcomes register_outcome
register_outcomes-keeps meta enc [] t h = h
register_outcomes-keeps meta enc (oc ∷ ocs) t h =
    register_outcomes-keeps meta enc ocs _ (register_sides-keeps oc _ 0 enc oc.side_specs t h)

-- Each side of an outcome that is registered is named in the tables.
pub register_outcomes-Named :
    (meta : OutcomeMeta) (ocs : List OutcomeInfo) (t : Tables) (oc : OutcomeInfo) (j : ℕ)
    → Any (λ x. x ≡ oc) ocs
    → j < length oc.side_specs
    → Named (10 * oc.outcome + j) (register_outcomes meta ocs t)
unfolding register_outcomes register_outcome
register_outcomes-Named meta [] t oc j h l = elim h [ ]
register_outcomes-Named meta (o ∷ ocs) t oc j (inl e) l =
    subst (λ (x : OutcomeInfo). Named (10 * x.outcome + j) (register_outcomes meta (o ∷ ocs) t)) e
      (register_outcomes-keeps meta _ ocs _ (sides_of-Named o _ j o.side_specs t (rw e l)))
register_outcomes-Named meta (o ∷ ocs) t oc j (inr h) l =
    register_outcomes-Named meta ocs _ oc j h l
