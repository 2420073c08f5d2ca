-- ===== src/Trade/Account/Convert.antt =====
-- trade/convert.go: conversions between spot tokens as market orders.
use hyperliquid_go.Base.{Bool, false, ◌&&◌, Option, none, some, List, [], ◌∷◌, ◌==◌, if◌then◌else◌}
use hyperliquid_go.Base.Text.{Str, codes}
use hyperliquid_go.Base.Int.{int_eq, ℤ, pos, negsuc, ltb_ℤ}
use hyperliquid_go.Float.{le, zero_f}
use hyperliquid_go.Types.{OrderResult, Side, buy, sell}
use hyperliquid_go.Info.{asset}
use hyperliquid_go.Trade.Spec.{PlaceOpt, with_slippage}
use hyperliquid_go.Trade.Market.{mid_price, place_market}
use hyperliquid_go.Trade.Client.{
  Env, Config, M, ◌>>=◌, throw, or_throw, bad_amount, no_spot_meta, no_spot_pair, bad_midprice,
  below_step,
}
use hyperliquid_go.Trade.Account.Toolkit.{Toolkit, SpotToken, SpotPair, SpotUniverse}

module _ (equal_fold : Str → Str → Bool) where
  -- The index of the last token of that name in any case, or -1.
  unfoldable pub token_index : Str → List SpotToken → ℤ → ℤ
  token_index name [] found = found
  token_index name (t ∷ ts) found =
      token_index name ts (if equal_fold t.name name then t.index else found)

-- Whether a pair has two tokens at least, and these are the first two.
unfoldable pub starts_with : ℤ → ℤ → List ℤ → Bool
starts_with base quote [] = false
starts_with base quote (b ∷ []) = false
starts_with base quote (b ∷ q ∷ more) = b == base && q == quote

-- The first pair of these two tokens.
unfoldable pub pair_of : ℤ → ℤ → List SpotPair → Option Str
pair_of base quote [] = none
pair_of base quote (p ∷ ps) =
    let rest = pair_of base quote ps in
    if starts_with base quote p.tokens then some p.name else rest

-- `findSpotPair` on the metadata.
unfoldable pub find_pair : (Str → Str → Bool) → Str → Str → SpotUniverse → Option Str
find_pair equal_fold base quote universe =
    let base_index = token_index equal_fold base universe.tokens (negsuc 0) in
    let quote_index = token_index equal_fold quote universe.tokens (negsuc 0) in
    if ltb_ℤ base_index (pos 0)
    then none
    else if ltb_ℤ quote_index (pos 0)
    then none
    else pair_of base_index quote_index universe.pairs

module _ (env : Env) (kit : Toolkit env.fl.F env.World) (cfg : Config) where
  open env use {World, fl}
  open fl use {F, lit, lt, mul, div, floor}
  open kit use {equal_fold, spot_meta}

  -- `findSpotPair`
  unfoldable pub find_spot_pair : Str → Str → M World Str
  find_spot_pair base quote = do
    universe ←
        λ s. let (w, r) = spot_meta s.world in or_throw r no_spot_meta (record s { world = w })
    or_throw (find_pair equal_fold base quote universe) no_spot_pair

  -- `snapSpotSize`
  unfoldable pub snap_spot_size : Str → F → Option F
  snap_spot_size pair size =
      let step = (asset fl cfg.tables pair).min_size in
      let steps = floor (div size step) in
      if le fl step (zero_f fl)
      then some size
      else if lt steps (lit 1 0)
      then none
      else some (mul steps step)

  -- The slippage of a conversion: 5%.
  abbrev pub slippage_opts : List (PlaceOpt F)
  slippage_opts = with_slippage (lit 5 2) ∷ []

  unfoldable pub place_snapped : Str → Side → F → M World OrderResult
  place_snapped pair side size = do
    snapped ← or_throw (snap_spot_size pair size) below_step
    place_market env cfg pair side snapped slippage_opts

  -- `convertSpot` once the mid price is known.
  unfoldable pub convert_at : Str → Side → F → F → M World OrderResult
  convert_at pair side quote_amount mid =
      if le fl mid (zero_f fl)
      then throw bad_midprice
      else place_snapped pair side (div quote_amount mid)

  -- `convertSpot`
  unfoldable pub convert_spot : Str → Str → Side → F → M World OrderResult
  convert_spot base quote side quote_amount =
      if le fl quote_amount (zero_f fl) then throw bad_amount else do
        pair ← find_spot_pair base quote
        mid ← mid_price env cfg pair
        convert_at pair side quote_amount mid

  -- `convertSpotSize`
  unfoldable pub convert_spot_size : Str → Str → Side → F → M World OrderResult
  convert_spot_size base quote side base_amount =
      if le fl base_amount (zero_f fl)
      then throw bad_amount
      else do pair ← find_spot_pair base quote; place_snapped pair side base_amount

  -- `USDCToUSDH`
  unfoldable pub usdc_to_usdh : F → M World OrderResult
  usdc_to_usdh amount = convert_spot (codes "USDH") (codes "USDC") buy amount

  -- `USDHToUSDC`
  unfoldable pub usdh_to_usdc : F → M World OrderResult
  usdh_to_usdc amount = convert_spot_size (codes "USDH") (codes "USDC") sell amount
