-- ===== src/Trade/Market.antt =====
-- trade/place.go: the slippage price, market orders and the close of a position.
pub mod Priced
pub mod Close
pub mod Unpriced
use hyperliquid_go.Base.{
  Bool, true, Option, none, some, List, [], str_eq, nat_eq, if◌then◌else◌, ltb,
}
use hyperliquid_go.Base.Dict.{lookup}
use hyperliquid_go.Base.Text.{Str, codes, index_of, take}
use hyperliquid_go.Float.{zero_f, is_pos}
use hyperliquid_go.Types.{OrderSpec, OrderResult, Side, is_buy, buy, sell, tif_ioc}
use hyperliquid_go.Types.Asset.{classify_asset, is_outcome}
use hyperliquid_go.Info.{asset_id, sz_decimals}
use hyperliquid_go.Trade.Spec.{PlaceOpt, apply_opts, empty_spec, market}
use hyperliquid_go.Trade.Validate.{position_for}
use hyperliquid_go.Trade.Action.{format_price_to_tick_size, validate_and_adjust_price}
use hyperliquid_go.Trade.Client.{
  query, Env, Config, M, ◌>>=◌, ◌>>◌, return, or_throw, throw, no_mids, no_midprice, bad_midprice,
  refresh_state, UserState,
}
use hyperliquid_go.Trade.Place.{place}

-- The dex of a HIP-3 coin "<dex>:<coin>", or the empty text.
unfoldable pub dex_prefix : Str → Str
dex_prefix name = elim (index_of name b':') [
  | none ↦ []
  | some i ↦ if ltb 0 i then take i name else []
]

-- `sideFromIsBuy`
unfoldable pub side_from_is_buy : Bool → Side
side_from_is_buy b = if b then buy else sell

module _ (env : Env) (cfg : Config) where
  open env use {World, fl}
  open fl use {F, lit, lt, eq, add, sub, mul, abs, parse_float}

  -- The two bounds of HIP-4 prices, one after the other.
  unfoldable pub clamp_outcome : F → F
  clamp_outcome price =
      let high = if lt (lit 9999 4) price then lit 9999 4 else price in
      if lt high (lit 1 4) then lit 1 4 else high

  -- `SlippagePrice` after the mid price is known.
  unfoldable pub slippage_adjust : Str → Bool → F → F → F
  slippage_adjust name is_buy slippage mid =
      let worst =
        if is_buy then mul mid (add (lit 1 0) slippage) else mul mid (sub (lit 1 0) slippage) in
      let id = asset_id cfg.tables name in
      let class = classify_asset id in
      let clamped = if is_outcome class then clamp_outcome worst else worst in
      validate_and_adjust_price fl
        (format_price_to_tick_size fl clamped (sz_decimals cfg.tables id) class) id

  -- The mid price that the venue reports.
  unfoldable pub mid_price : Str → M World F
  mid_price name = do
    mids ← query env cfg (λ w. env.all_mids w (dex_prefix name)) no_mids
    text ← or_throw (lookup name mids) no_midprice
    if (parse_float text).1 then return (parse_float text).0 else throw bad_midprice

  -- `SlippagePrice`; a given price takes the place of the mid.
  unfoldable pub slippage_price : Str → Bool → F → Option F → M World F
  slippage_price name is_buy slippage none = do
    mid ← mid_price name
    return (slippage_adjust name is_buy slippage mid)
  slippage_price name is_buy slippage (some px) = return (slippage_adjust name is_buy slippage px)

  -- The default of five percent.
  unfoldable pub slippage_or_default : F → F
  slippage_or_default s = if eq s (zero_f fl) then lit 5 2 else s

  -- `PlaceMarket`
  unfoldable pub place_market : Str → Side → F → List (PlaceOpt F) → M World OrderResult
  place_market coin side size opts = do
    let spec = market fl coin side size opts
    px ← slippage_price coin (is_buy side) (slippage_or_default spec.slippage) none
    place env cfg (record spec { price = px })

  -- The signed size of the cached position, zero where there is none.
  unfoldable pub cached_size : Option UserState → Str → F
  cached_size none coin = zero_f fl
  cached_size (some u) coin = elim (position_for fl u.positions coin) [
    | none ↦ zero_f fl
    | some szi ↦ szi
  ]

  -- The spec of `ClosePosition` once the options are applied and `WithSize` is taken over.
  unfoldable pub close_spec : Str → F → List (PlaceOpt F) → OrderSpec F
  close_spec coin szi opts =
      let tmp = apply_opts opts (record (empty_spec fl) {
        method = codes "close";
        coin = coin;
        size = abs szi;
        side = side_from_is_buy (lt szi (zero_f fl));
        tif = tif_ioc;
      }) in
      if is_pos fl tmp.override_size then record tmp { size = tmp.override_size } else tmp

  -- `WithLimit`, or the slippage price.
  unfoldable pub close_price : OrderSpec F → Str → Bool → M World F
  close_price spec coin is_buy =
      if is_pos fl spec.limit_price
      then return spec.limit_price
      else slippage_price coin is_buy (slippage_or_default spec.slippage) none

  -- `ClosePosition` after the refresh.
  unfoldable pub close_cached : Str → List (PlaceOpt F) → M World OrderResult
  close_cached coin opts s =
      let szi = cached_size s.cached coin in
      let spec = close_spec coin szi opts in
      (close_price spec coin (lt szi (zero_f fl)) >>= λ px.
      place env cfg (record spec { price = px; reduce_only = true }))
        s

  -- `ClosePosition`
  unfoldable pub close_position : Str → List (PlaceOpt F) → M World OrderResult
  close_position coin opts = do refresh_state env cfg; close_cached coin opts
