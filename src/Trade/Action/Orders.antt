-- ===== src/Trade/Action/Orders.antt =====
-- The orders of an action against the requests that they are built from.
use hyperliquid_go.Base.{◌≡◌, some, arith, List, [], ◌∷◌}
use hyperliquid_go.Float.{Float}
use hyperliquid_go.Info.{Tables, asset_id}
use hyperliquid_go.Trade.Requests.{CreateOrderRequest}
use hyperliquid_go.Trade.Client.{OrderWire}
use hyperliquid_go.Trade.Action.{order_wire, order_wires}

-- A wire order sends the id of its request's coin, its side, its flag and its client order id.
abbrev pub SameOrder : {A : Type 0} → Tables → CreateOrderRequest A → OrderWire → Type 0
SameOrder t o w =
    (w.asset ≡ asset_id t o.coin)
    × (w.is_buy ≡ o.is_buy)
    × (w.reduce_only ≡ o.reduce_only)
    × (w.cloid ≡ o.client_order_id)

-- One wire order for each request, in their order.
abbrev pub SameOrders :
    {A : Type 0} → Tables → List (CreateOrderRequest A) → List OrderWire → Type 0
SameOrders t [] [] = Unit
SameOrders t (o ∷ os) (w ∷ ws) = SameOrder t o w × SameOrders t os ws
SameOrders t _ _ = ⊥

module _ (fl : Float) (t : Tables) where
  pub order_wire-SameOrder :
      (o : CreateOrderRequest fl.F) (w : OrderWire) → order_wire fl t o ≡ some w → SameOrder t o w
  unfolding order_wire
  order_wire-SameOrder o w h = ground arith

  -- Requests that convert to wire orders convert one by one and in order, each to an order with the
  -- asset id of its coin, its side, its reduce-only flag and its client order id.
  pub order_wires-SameOrders :
      (os : List (CreateOrderRequest fl.F)) (ws : List OrderWire)
      → order_wires fl t os ≡ some ws
      → SameOrders t os ws
  unfolding order_wires
  order_wires-SameOrders [] [] h = tt
  order_wires-SameOrders [] (w ∷ ws) h = cc
  order_wires-SameOrders (o ∷ os) [] h = ground arith
  order_wires-SameOrders (o ∷ os) (w ∷ ws) h =
      ground (arith, order_wires-SameOrders os ws, order_wire-SameOrder o w)
