-- ===== src/Tests/Orders.antt =====
-- Concrete placements and modifications.
use hyperliquid_go.Trade.Market.Unpriced.{place_many-Unpriced, Unpriced, market_specs, MarketOrder}
use hyperliquid_go.Trade.Market.Close.{close_position-Closed, Closed}
use hyperliquid_go.Trade.Market.{close_position}
use hyperliquid_go.Trade.Cancel.Posts.{kept-IsWanted, IsWanted, cancel_all-posts, CancelledAll}
use hyperliquid_go.Trade.Cancel.{kept, cancel_all}
use hyperliquid_go.Base.{
  suc, ◌↔◌, Any, arith, refl, [], ◌∷◌, ◌≡◌, ok, List, Option, ◌⊎◌, All, some, false, true, none,
  length,
}
use hyperliquid_go.Base.Text.{codes}
use hyperliquid_go.Base.Int.{ℤ, pos}
use hyperliquid_go.Types.{OrderSpec, BuilderInfo, buy, sell, tif_gtc}
use hyperliquid_go.Info.{asset_id}
use hyperliquid_go.Trade.Spec.{
  with_reduce_only, PlaceOpt, gtc, apply_opts, with_take_profit, with_stop_loss, with_size,
  with_limit,
}
use hyperliquid_go.Trade.Validate.{position_for}
use hyperliquid_go.Trade.Client.{OpenOrder, Env, UserState, ModifyAction, OrderWire, modify}
use hyperliquid_go.Trade.Requests.{
  CreateOrderRequest, bracket_grouping, parent_request, bracket_orders,
}
use hyperliquid_go.Trade.Validate.Bracket.{SafeLeg}
use hyperliquid_go.Trade.Action.{order_wires}
use hyperliquid_go.Trade.Action.Orders.{SameOrders, order_wires-SameOrders}
use hyperliquid_go.Trade.Place.{place, place_many}
use hyperliquid_go.Trade.Place.Batch.{Batched, place_many-posts}
use hyperliquid_go.Wire.{size_to_wire_decimals}
use hyperliquid_go.Wire.Zeros.{size_to_wire_decimals-zero}
use hyperliquid_go.Trade.Place.Legs.{place-SafeLeg}
use hyperliquid_go.Trade.Place.Posts.{Placed, Submitted, Posted, place-posts}
use hyperliquid_go.Trade.Modify.{do_modify, modify_by_oid}
use hyperliquid_go.Trade.Modify.Target.{ModifyPosts, modify_by_oid-sells, do_modify-posts}
use hyperliquid_go.Tests.Floats.{tenths, tenths_laws}
use hyperliquid_go.Tests.World.{venue, client, start, tables}

-- A buy of 1.0 at 100.0, with a take-profit at 110.0 and a stop-loss at 90.0.
abbrev bracketed : OrderSpec ℤ
bracketed =
    gtc tenths (codes "BTC") buy (pos 10) (pos 1000)
      (with_take_profit (pos 1100) ∷ with_stop_loss (pos 900) ∷ [])

place-SafeLeg_example :
    let s' = (place venue client bracketed start).0 in
    (s'.posted ≡ [])
    ⊎ ((legs : List (CreateOrderRequest ℤ)) × (b : Option BuilderInfo) × All
          (SafeLeg tenths bracketed)
          legs
        × Submitted venue client
            (bracket_grouping tenths bracketed)
            (parent_request tenths bracketed ∷ legs, b)
            start
            s')
unfolding gtc apply_opts with_take_profit with_stop_loss hyperliquid_go.Base.str_beq
place-SafeLeg_example =
    place-SafeLeg venue client bracketed start tenths_laws refl refl refl refl refl

place-posts_example :
    let s' = (place venue client bracketed start).0 in
    (s'.posted ≡ []) ⊎ Placed venue client bracketed start s'
place-posts_example = place-posts venue client bracketed start

-- The new size and the new limit of a resting order.
abbrev amended : List (PlaceOpt ℤ)
amended = with_size (pos 20) ∷ with_limit (pos 1010) ∷ []

modify_by_oid-sells_example :
    let s' = (modify_by_oid venue client (pos 42) amended start).0 in
    (s'.posted ≡ [])
    ⊎ ((a : ModifyAction) × (a.order.asset ≡ asset_id tables [])
        × (a.order.is_buy ≡ false)
        × Posted venue client [] (modify a) start s')
unfolding with_size with_limit
modify_by_oid-sells_example =
    modify_by_oid-sells venue client (pos 42) amended start
      (λ spec. (refl, refl), (λ spec. (refl, refl), tt))

do_modify-posts_example :
    ModifyPosts venue client bracketed start (do_modify venue client bracketed start).0
do_modify-posts_example = do_modify-posts venue client bracketed start

amended_posts : length (modify_by_oid venue client (pos 42) amended start).0.posted ≡ 1
unfolding modify_by_oid do_modify hyperliquid_go.Trade.Place.validate apply_opts with_limit
    with_size hyperliquid_go.Trade.Validate.validate_option_compatibility
    hyperliquid_go.Base.str_beq hyperliquid_go.Trade.Validate.validate_modify
    hyperliquid_go.Trade.Action.new_modify_order_action hyperliquid_go.Trade.Action.order_wire
    hyperliquid_go.Trade.Action.price_to_wire hyperliquid_go.Base.Dict.lookup asset_id
    hyperliquid_go.Trade.Modify.modify_request hyperliquid_go.Wire.float_to_wire
    hyperliquid_go.Trade.Client.execute_action hyperliquid_go.Trade.Client.sign_and_post
    hyperliquid_go.Trade.Client.post_action hyperliquid_go.Trade.Action.order_type_wire
    hyperliquid_go.Trade.Modify.modify_result
amended_posts = refl

abbrev plain : CreateOrderRequest ℤ
plain = record {
  coin = codes "BTC";
  is_buy = true;
  price = pos 1000;
  size = pos 10;
  reduce_only = false;
  order_type = record { limit = some (record { tif = tif_gtc }); trigger = none };
  client_order_id = none;
}

abbrev plain_wire : OrderWire
plain_wire = record {
  asset = 3;
  is_buy = true;
  limit_px = codes "100";
  size = codes "1";
  reduce_only = false;
  order_type = record { limit = some (record { tif = tif_gtc }); trigger = none };
  cloid = none;
}

order_wires-SameOrders_example : SameOrders tables (plain ∷ []) (plain_wire ∷ [])
unfolding order_wires hyperliquid_go.Trade.Action.order_wire
    hyperliquid_go.Trade.Action.price_to_wire hyperliquid_go.Base.Dict.lookup asset_id
    hyperliquid_go.Base.str_beq hyperliquid_go.Wire.price_to_wire_decimals
    hyperliquid_go.Wire.round_to_significant_figures hyperliquid_go.Trade.Action.order_type_wire
    hyperliquid_go.Wire.trim_zeros hyperliquid_go.Trade.Action.size_to_wire_with_asset
    hyperliquid_go.Wire.trim_right hyperliquid_go.Wire.size_to_wire_decimals
    hyperliquid_go.Wire.drop_zero_sign hyperliquid_go.Wire.after_prefix
    hyperliquid_go.Types.Asset.max_price_decimals hyperliquid_go.Types.Asset.classify_asset
order_wires-SameOrders_example =
    order_wires-SameOrders tenths tables (plain ∷ []) (plain_wire ∷ []) refl

-- 100 and 10, with no decimals: both are sent as "1".
size_to_wire_decimals-zero_example :
    size_to_wire_decimals tenths (pos 1000) 0 ≡ size_to_wire_decimals tenths (pos 100) 0
size_to_wire_decimals-zero_example =
    size_to_wire_decimals-zero tenths (pos 1000) (pos 100)
      ((omega arith, omega arith), ((omega arith, omega arith), tt)) refl

place_many-posts_example :
    Batched venue client
      (bracketed ∷ bracketed ∷ [])
      start
      (place_many venue client (bracketed ∷ bracketed ∷ []) start).0
place_many-posts_example = place_many-posts venue client (bracketed ∷ bracketed ∷ []) start

abbrev resting : List OpenOrder
resting =
    record { coin = codes "BTC"; oid = pos 1 } ∷ record { coin = codes "ETH"; oid = pos 2 } ∷ []

-- The venue with two resting orders.
abbrev busy_venue : Env
busy_venue = record venue { open_orders = λ w a. (w, some resting) }

cancel_all-posts_example :
    let s' = (cancel_all busy_venue client (codes "ETH" ∷ []) start).0 in
    (s'.posted ≡ []) ⊎ CancelledAll busy_venue client (codes "ETH" ∷ []) start s'
cancel_all-posts_example = cancel_all-posts busy_venue client (codes "ETH" ∷ []) start

abbrev eth_order : OpenOrder
eth_order = record { coin = codes "ETH"; oid = pos 2 }

kept-IsWanted_example :
    Any (λ x. x ≡ eth_order) (kept (codes "ETH" ∷ []) resting)
    ↔ (Any (λ x. x ≡ eth_order) resting × IsWanted (codes "ETH" ∷ []) eth_order)
kept-IsWanted_example = kept-IsWanted (codes "ETH" ∷ []) resting eth_order

-- The venue with a long position of 2.5.
abbrev long_venue : Env
long_venue = record venue {
  user_state = λ w a d.
      (suc w, some (record { positions = record { coin = codes "BTC"; szi = codes "2.5" } ∷ [] }));
}

close_position-Closed_example :
    let s' = (close_position long_venue client (codes "BTC") amended start).0 in
    (s'.posted ≡ []) ⊎ Closed long_venue client (codes "BTC") start s'
unfolding with_size with_limit
close_position-Closed_example =
    close_position-Closed long_venue client (codes "BTC") amended start
      ((λ x. (refl, refl, refl)), ((λ x. (refl, refl, refl)), tt))

-- The exit is posted.
close_posted : length (close_position long_venue client (codes "BTC") amended start).0.posted ≡ 1
unfolding hyperliquid_go.Trade.Market.slippage_price hyperliquid_go.Trade.Market.mid_price
    hyperliquid_go.Trade.Market.slippage_adjust hyperliquid_go.Trade.Market.slippage_or_default
    hyperliquid_go.Trade.Market.dex_prefix hyperliquid_go.Trade.Market.clamp_outcome
    hyperliquid_go.Base.Text.index_of hyperliquid_go.Base.Text.take
    hyperliquid_go.Trade.Action.format_price_to_tick_size
    hyperliquid_go.Trade.Action.validate_and_adjust_price
    hyperliquid_go.Trade.Action.round_to_tick_size hyperliquid_go.Trade.Action.get_asset_tick_size
    hyperliquid_go.Wire.round_to_decimals hyperliquid_go.Trade.Place.place
    hyperliquid_go.Trade.Place.validate hyperliquid_go.Trade.Validate.validate_option_compatibility
    hyperliquid_go.Base.str_beq hyperliquid_go.Trade.Place.validate_placement
    hyperliquid_go.Trade.Validate.validate_static hyperliquid_go.Trade.Validate.known_coin
    hyperliquid_go.Info.asset_id hyperliquid_go.Base.Dict.lookup
    hyperliquid_go.Trade.Validate.validate_size hyperliquid_go.Info.asset
    hyperliquid_go.Info.divide_by_ten hyperliquid_go.Info.sz_decimals
    hyperliquid_go.Trade.Validate.is_multiple_of hyperliquid_go.Trade.Action.new_create_order_action
    hyperliquid_go.Trade.Action.order_wire hyperliquid_go.Trade.Action.order_wires
    hyperliquid_go.Trade.Action.price_to_wire hyperliquid_go.Trade.Action.order_type_wire
    hyperliquid_go.Trade.Client.effective_addr hyperliquid_go.Trade.Client.execute_action
    hyperliquid_go.Trade.Client.post_action hyperliquid_go.Trade.Client.refresh_state
    hyperliquid_go.Trade.Client.sign_and_post hyperliquid_go.Trade.Place.requests_of
    hyperliquid_go.Trade.Place.submit hyperliquid_go.Trade.Place.validate_cached
    hyperliquid_go.Trade.Requests.bracket_orders hyperliquid_go.Trade.Requests.bracket_grouping
    hyperliquid_go.Trade.Requests.spec_to_requests hyperliquid_go.Trade.Requests.parent_request
    hyperliquid_go.Trade.Requests.parent_order_type apply_opts
    hyperliquid_go.Trade.Validate.is_first_asset hyperliquid_go.Trade.Validate.position_for
    hyperliquid_go.Trade.Validate.position_rules hyperliquid_go.Trade.Validate.validate_bracket
    hyperliquid_go.Trade.Validate.validate_position_state
    hyperliquid_go.Trade.Validate.validate_price
    hyperliquid_go.Trade.Validate.validate_significant_figures
    hyperliquid_go.Trade.Validate.reduce_rules hyperliquid_go.Types.Asset.classify_asset
    hyperliquid_go.Types.Asset.is_outcome hyperliquid_go.Types.is_buy
    hyperliquid_go.Wire.price_to_wire_decimals hyperliquid_go.Wire.round_to_significant_figures
    close_position hyperliquid_go.Trade.Market.close_cached hyperliquid_go.Trade.Market.close_spec
    hyperliquid_go.Trade.Market.close_price hyperliquid_go.Trade.Market.cached_size
    hyperliquid_go.Trade.Market.side_from_is_buy hyperliquid_go.Trade.Validate.close_rules with_size
    with_limit
close_posted = refl

-- A market buy of 1.0 that only reduces.
abbrev market_buy : MarketOrder venue client
market_buy = (codes "BTC", buy, pos 10, with_reduce_only ∷ [])

place_many-Unpriced_example :
    let s' = (place_many venue client (market_specs venue client (market_buy ∷ [])) start).0 in
    (s'.posted ≡ []) ⊎ Unpriced venue client (market_buy ∷ []) start s'
unfolding with_reduce_only
place_many-Unpriced_example =
    place_many-Unpriced venue client (market_buy ∷ []) start tenths_laws
      (((λ x. (refl, refl, refl)), tt), tt)

-- The batch passes its checks and is posted.
market_buy_posted :
    length (place_many venue client (market_specs venue client (market_buy ∷ [])) start).0.posted
    ≡ 1
unfolding place_many hyperliquid_go.Trade.Place.collect hyperliquid_go.Trade.Place.validate
    hyperliquid_go.Trade.Spec.market with_reduce_only
    hyperliquid_go.Trade.Validate.validate_option_compatibility hyperliquid_go.Base.str_beq
    hyperliquid_go.Trade.Place.validate_placement hyperliquid_go.Trade.Validate.validate_static
    hyperliquid_go.Trade.Validate.known_coin asset_id hyperliquid_go.Base.Dict.lookup
    hyperliquid_go.Trade.Validate.validate_size hyperliquid_go.Info.asset
    hyperliquid_go.Info.divide_by_ten hyperliquid_go.Info.sz_decimals
    hyperliquid_go.Trade.Validate.is_multiple_of hyperliquid_go.Trade.Action.new_create_order_action
    hyperliquid_go.Trade.Action.order_wire order_wires hyperliquid_go.Trade.Action.price_to_wire
    hyperliquid_go.Trade.Action.order_type_wire hyperliquid_go.Trade.Client.effective_addr
    hyperliquid_go.Trade.Client.execute_action hyperliquid_go.Trade.Client.post_action
    hyperliquid_go.Trade.Client.refresh_state hyperliquid_go.Trade.Client.sign_and_post
    hyperliquid_go.Trade.Place.requests_of hyperliquid_go.Trade.Place.submit
    hyperliquid_go.Trade.Place.validate_cached bracket_orders
    hyperliquid_go.Trade.Requests.spec_to_requests parent_request
    hyperliquid_go.Trade.Requests.parent_order_type apply_opts
    hyperliquid_go.Trade.Validate.is_first_asset position_for
    hyperliquid_go.Trade.Validate.position_rules hyperliquid_go.Trade.Validate.validate_bracket
    hyperliquid_go.Trade.Validate.validate_position_state
    hyperliquid_go.Trade.Validate.validate_price hyperliquid_go.Trade.Validate.reduce_rules
    hyperliquid_go.Types.Asset.classify_asset hyperliquid_go.Wire.price_to_wire_decimals
    hyperliquid_go.Wire.round_to_significant_figures
market_buy_posted = refl
