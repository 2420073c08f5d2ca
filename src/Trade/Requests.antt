-- ===== src/Trade/Requests.antt =====
-- trade/bracket.go and the conversion of a spec into order requests in trade/trade.go.
use hyperliquid_go.Base.{
  Bool, true, not, ◌&&◌, ◌||◌, Option, none, some, List, [], ◌∷◌, ◌++◌, ◌==◌, str_eq, if◌then◌else◌,
  Result, ok, err,
}
use hyperliquid_go.Base.Text.{Str, codes}
use hyperliquid_go.Float.{Float, zero_f, is_pos}
use hyperliquid_go.Types.{
  OrderSpec, OrderType, BuilderInfo, Tif, Grouping, is_buy, tif_alo, tif_ioc, tif_gtc, grouping_na,
  grouping_normal_tpsl,
}

-- `CreateOrderRequest` of trade/exchange_orders.go.
pub record CreateOrderRequest (A : Type 0) : Type 0 where
  pub coin : Str
  pub is_buy : Bool
  pub price : A
  pub size : A
  pub reduce_only : Bool
  pub order_type : OrderType A
  pub client_order_id : Option Str

-- `if s != "" { x = &s }`
abbrev pub non_empty : Str → Option Str
non_empty s = if s == [] then none else some s

module _ (fl : Float) where
  open fl use {F, eq}

  -- One leg of `bracketOrders`: a reduce-only market trigger on the other side.
  unfoldable pub bracket_leg : OrderSpec F → F → F → Str → Str → CreateOrderRequest F
  bracket_leg spec price leg_size tpsl cloid = record {
    coin = spec.coin;
    is_buy = not (is_buy spec.side);
    price = price;
    size = if is_pos fl leg_size then leg_size else spec.size;
    reduce_only = true;
    order_type = record {
      limit = none;
      trigger = some (record { trigger_px = price; is_market = true; tpsl = tpsl });
    };
    client_order_id = non_empty cloid;
  }

  -- A leg stands only where its price is positive.
  unfoldable pub leg_if : F → CreateOrderRequest F → List (CreateOrderRequest F)
  leg_if price leg = if is_pos fl price then leg ∷ [] else []

  unfoldable pub bracket_orders : OrderSpec F → List (CreateOrderRequest F)
  bracket_orders spec =
      if eq spec.take_profit (zero_f fl) && eq spec.stop_loss (zero_f fl)
      then []
      else leg_if spec.take_profit
          (bracket_leg spec spec.take_profit spec.tp_size (codes "tp") spec.tp_cloid)
        ++ leg_if spec.stop_loss
            (bracket_leg spec spec.stop_loss spec.sl_size (codes "sl") spec.sl_cloid)

  -- `bracketGrouping`
  unfoldable pub bracket_grouping : OrderSpec F → Grouping
  bracket_grouping spec =
      if is_pos fl spec.take_profit || is_pos fl spec.stop_loss
      then grouping_normal_tpsl
      else grouping_na

  -- `tifFromMethod`
  unfoldable pub tif_from_method : OrderSpec F → Tif
  tif_from_method spec =
      let m = spec.method in
      if m == codes "alo"
      then tif_alo
      else if m == codes "ioc" || m == codes "market"
      then tif_ioc
      else if m == codes "gtc" || (m == codes "close" || m == codes "modify")
      then tif_gtc
      else if spec.tif == []
      then tif_gtc
      else spec.tif

  -- `triggerTpsl`
  unfoldable pub trigger_tpsl : OrderSpec F → Str
  trigger_tpsl spec = if is_buy spec.side then codes "sl" else codes "tp"

  unfoldable pub parent_order_type : OrderSpec F → OrderType F
  parent_order_type spec =
      if spec.method == codes "trigger"
      then record {
        limit = none;
        trigger = some (record {
          trigger_px = spec.trigger_px;
          is_market = spec.is_market;
          tpsl = trigger_tpsl spec;
        });
      }
      else record { limit = some (record { tif = tif_from_method spec }); trigger = none }

  unfoldable pub parent_request : OrderSpec F → CreateOrderRequest F
  parent_request spec = record {
    coin = spec.coin;
    is_buy = is_buy spec.side;
    price = spec.price;
    size = spec.size;
    reduce_only = spec.reduce_only;
    order_type = parent_order_type spec;
    client_order_id = non_empty spec.cloid;
  }

  unfoldable pub builder_of : OrderSpec F → Option BuilderInfo
  builder_of spec =
      if spec.builder_addr == []
      then none
      else some (record { builder = spec.builder_addr; fee = spec.builder_fee_bps })

  -- `specToRequests`; the error is "OrderSpec.Coin is required".
  unfoldable pub spec_to_requests :
      OrderSpec F → Result (Unit {0}) (List (CreateOrderRequest F) × Option BuilderInfo)
  spec_to_requests spec =
      if spec.coin == []
      then err tt
      else ok (parent_request spec ∷ bracket_orders spec, builder_of spec)
