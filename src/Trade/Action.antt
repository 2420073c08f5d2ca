-- ===== src/Trade/Action.antt =====
-- trade/wire.go and the action builders of trade/exchange_orders.go.
pub mod Orders
use hyperliquid_go.Base.{
  ℕ, ◌-◌, Bool, Option, none, some, List, [], ◌∷◌, ◌==◌, nat_eq, if◌then◌else◌, ltb,
}
use hyperliquid_go.Base.Dict.{lookup}
use hyperliquid_go.Base.Text.{Str}
use hyperliquid_go.Base.Int.{pos}
use hyperliquid_go.Float.{Float}
use hyperliquid_go.Types.{OrderType, OrderTypeWire, BuilderInfo, Grouping}
use hyperliquid_go.Types.Asset.{AssetClass, classify_asset, max_price_decimals}
use hyperliquid_go.Info.{Tables, asset_id}
use hyperliquid_go.Wire
use hyperliquid_go.Trade.Requests.{CreateOrderRequest}
use hyperliquid_go.Trade.Client.{OrderWire, OrderAction, OrderRef, ModifyAction}

infixl 5 ◌>>=?◌
abbrev ◌>>=?◌ : {A B : Type 0} → Option A → (A → Option B) → Option B
none >>=? f = none
some a >>=? f = f a

module _ (fl : Float) where
  open fl use {F, lit, of_int, mul, div, round, pow}

  unfoldable pub size_to_wire_with_asset : F → ℕ → Tables → Str
  size_to_wire_with_asset x asset t = elim (lookup asset t.asset_to_decimal) [
    | none ↦ Wire.size_to_wire fl x
    | some decimals ↦ Wire.size_to_wire_decimals fl x decimals
  ]

  unfoldable pub price_to_wire : F → ℕ → Tables → AssetClass → Option Str
  price_to_wire x asset t class = elim (lookup asset t.asset_to_decimal) [
    | none ↦ Wire.float_to_wire fl x
    | some decimals ↦ Wire.price_to_wire_decimals fl x (max_price_decimals class - decimals)
  ]

  -- `FormatPriceToTickSize`
  unfoldable pub format_price_to_tick_size : F → ℕ → AssetClass → F
  format_price_to_tick_size price decimals class =
      elim (Wire.round_to_significant_figures fl price 5) [
        | none ↦ price
        | some sig ↦ Wire.round_to_decimals fl sig (max_price_decimals class - decimals)
      ]

  unfoldable pub round_to_tick_size : F → F → F
  round_to_tick_size price tick_size = mul (round (div price tick_size)) tick_size

  unfoldable pub get_asset_tick_size : ℕ → F
  get_asset_tick_size id = if ltb id 10000 then if id == 0 then lit 1 1 else lit 1 2 else lit 1 4

  -- `validateAndAdjustPrice`, whose error is always nil.
  unfoldable pub validate_and_adjust_price : F → ℕ → F
  validate_and_adjust_price price id = round_to_tick_size price (get_asset_tick_size id)

  module _ (t : Tables) where
    -- The order type with its prices as text; a limit wins over a trigger.
    unfoldable pub order_type_wire : OrderType F → ℕ → Option OrderTypeWire
    order_type_wire ot asset = elim ot.limit [
      | some l ↦ some (record { limit = some l; trigger = none })
      | none ↦ elim ot.trigger [
        | none ↦ some (record { limit = none; trigger = none })
        | some tr ↦ price_to_wire tr.trigger_px asset t (classify_asset asset) >>=? λ px.
            some (record {
              limit = none;
              trigger = some (record { is_market = tr.is_market; trigger_px = px; tpsl = tr.tpsl });
            })
      ]
    ]

    -- One order on the wire: the body of the loop, and of `newModifyOrderAction`.
    unfoldable pub order_wire : CreateOrderRequest F → Option OrderWire
    order_wire o =
        let asset = asset_id t o.coin in
        price_to_wire o.price asset t (classify_asset asset) >>=? λ px.
        order_type_wire o.order_type asset >>=? λ ot. some (record {
          asset = asset;
          is_buy = o.is_buy;
          limit_px = px;
          size = size_to_wire_with_asset o.size asset t;
          reduce_only = o.reduce_only;
          order_type = ot;
          cloid = o.client_order_id;
        })

    unfoldable pub order_wires : List (CreateOrderRequest F) → Option (List OrderWire)
    order_wires [] = some []
    order_wires (o ∷ os) =
        let rest = order_wires os in order_wire o >>=? λ w. rest >>=? λ ws. some (w ∷ ws)

    -- `newCreateOrderActionWithGrouping`
    unfoldable pub new_create_order_action :
        List (CreateOrderRequest F) → Option BuilderInfo → Grouping → Option OrderAction
    new_create_order_action os builder grouping = order_wires os >>=? λ ws.
        some (record { orders = ws; grouping = grouping; builder = builder })

    -- `newModifyOrderAction`
    unfoldable pub new_modify_order_action : OrderRef → CreateOrderRequest F → Option ModifyAction
    new_modify_order_action oid o = order_wire o >>=? λ w. some (record { oid = oid; order = w })
