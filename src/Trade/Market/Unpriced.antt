-- ===== src/Trade/Market/Unpriced.antt =====
-- Market orders in a batch of `PlaceMany`.
use hyperliquid_go.Base.{
  false, Option, some, List, [], ◌∷◌, ◌≡◌, refl, ap, ◌∙◌, ◌⊎◌, inl, inr, All, Bool-cases,
  if_eq_true, ◌&&◌, arith, length, suc,
}
use hyperliquid_go.Base.Text.{Str}
use hyperliquid_go.Float.{OrderLaws, zero_f, is_pos}
use hyperliquid_go.Types.{OrderSpec, Side, BuilderInfo, grouping_na}
use hyperliquid_go.Types.Asset.{classify_asset}
use hyperliquid_go.Trade.Spec.{PlaceOpt, apply_opts, market}
use hyperliquid_go.Trade.Requests.{CreateOrderRequest, parent_request, bracket_orders, leg_if}
use hyperliquid_go.Trade.Client.{Env, Config, St, OrderWire, OrderAction, order}
use hyperliquid_go.Trade.Action.{price_to_wire, order_wire, order_wires, new_create_order_action}
use hyperliquid_go.Trade.Place.{place_many}
use hyperliquid_go.Trade.Place.Posts.{Posted}
use hyperliquid_go.Trade.Place.Batch.{all_requests, place_many-posts}

module _ (env : Env) (cfg : Config) where
  open env use {World, fl}
  open fl use {F, lt, eq}

  -- The arguments of `Market`.
  abbrev pub MarketOrder : Type 0
  MarketOrder = Str × Side × F × List (PlaceOpt F)

  abbrev pub market_spec : MarketOrder → OrderSpec F
  market_spec (coin, side, size, opts) = market fl coin side size opts

  abbrev pub market_specs : List MarketOrder → List (OrderSpec F)
  market_specs [] = []
  market_specs (o ∷ os) = market_spec o ∷ market_specs os

  -- Options that leave the price and the bracket alone.
  abbrev pub KeepsPrice : MarketOrder → Type 0
  KeepsPrice (coin, side, size, opts) =
      All
        (λ o.
          (x : OrderSpec F)
          → ((o x).price ≡ x.price)
            × ((o x).take_profit ≡ x.take_profit)
            × ((o x).stop_loss ≡ x.stop_loss))
        opts

  abbrev HasNoPrice : OrderSpec F → Type 0
  HasNoPrice x = (x.price ≡ zero_f fl) × (x.take_profit ≡ zero_f fl) × (x.stop_loss ≡ zero_f fl)

  apply_opts-HasNoPrice :
      (opts : List (PlaceOpt F)) (x : OrderSpec F)
      → All
          (λ o.
            (x : OrderSpec F)
            → ((o x).price ≡ x.price)
              × ((o x).take_profit ≡ x.take_profit)
              × ((o x).stop_loss ≡ x.stop_loss))
          opts
      → HasNoPrice x
      → HasNoPrice (apply_opts opts x)
  unfolding apply_opts
  apply_opts-HasNoPrice [] x k p = p
  apply_opts-HasNoPrice (o ∷ os) x (h, k) (a, b, c) =
      let (d, e, f) = h x in apply_opts-HasNoPrice os (o x) k (d ∙ a, e ∙ b, f ∙ c)

  market_spec-HasNoPrice : (o : MarketOrder) → KeepsPrice o → HasNoPrice (market_spec o)
  unfolding market
  market_spec-HasNoPrice (coin, side, size, opts) k =
      apply_opts-HasNoPrice opts _ k (refl, refl, refl)

  zero-is_pos : OrderLaws fl → is_pos fl (zero_f fl) ≡ false
  zero-is_pos laws = elim (Bool-cases (is_pos fl (zero_f fl))) [
    | inl h ↦ laws.lt_asym (zero_f fl) (zero_f fl) h
    | inr h ↦ h
  ]

  -- Without a bracket there are no legs.
  bracket_orders-none : OrderLaws fl → (x : OrderSpec F) → HasNoPrice x → bracket_orders fl x ≡ []
  unfolding bracket_orders leg_if
  bracket_orders-none laws x (a, b, c) =
      let tp = zero-is_pos laws in
      elim (Bool-cases (eq x.take_profit (zero_f fl) && eq x.stop_loss (zero_f fl))) [
        | inl h ↦ if_eq_true _ _ _ h
        | inr h ↦ rw (h, b, c, tp) refl
      ]

  abbrev AllAtZero : List (CreateOrderRequest F) → Type 0
  AllAtZero = All λ r. r.price ≡ zero_f fl

  all_requests-AllAtZero :
      OrderLaws fl
      → (os : List MarketOrder) → All KeepsPrice os
      → let rs = all_requests env cfg (market_specs os) in AllAtZero rs × (length rs ≡ length os)
  unfolding parent_request
  all_requests-AllAtZero laws [] k = (tt, refl)
  all_requests-AllAtZero laws (o ∷ os) (h, k) =
      let p = market_spec-HasNoPrice o h in
      let (i, n) = all_requests-AllAtZero laws os k in
      rw (bracket_orders-none laws (market_spec o) p) ((p.0, i), ap suc n)

  -- A wire order whose price is the wire form of zero.
  abbrev pub IsUnpriced : OrderWire → Type 0
  IsUnpriced w =
      price_to_wire fl (zero_f fl) w.asset cfg.tables (classify_asset w.asset) ≡ some w.limit_px

  order_wire-price :
      (r : CreateOrderRequest F) (w : OrderWire)
      → order_wire fl cfg.tables r ≡ some w
      → price_to_wire fl r.price w.asset cfg.tables (classify_asset w.asset) ≡ some w.limit_px
  unfolding order_wire
  order_wire-price r w h = ground arith

  order_wires_cons :
      (r : CreateOrderRequest F) (rs : List (CreateOrderRequest F)) (w : OrderWire)
      (ws : List OrderWire)
      → order_wires fl cfg.tables (r ∷ rs) ≡ some (w ∷ ws)
      → (order_wire fl cfg.tables r ≡ some w) × (order_wires fl cfg.tables rs ≡ some ws)
  unfolding order_wires
  order_wires_cons r rs w ws h = ground arith

  order_wires-IsUnpriced :
      (rs : List (CreateOrderRequest F)) (ws : List OrderWire)
      → order_wires fl cfg.tables rs ≡ some ws
      → AllAtZero rs
      → All IsUnpriced ws × (length ws ≡ length rs)
  unfolding order_wires
  order_wires-IsUnpriced [] [] h z = (tt, refl)
  order_wires-IsUnpriced [] (w ∷ ws) h z = cc
  order_wires-IsUnpriced (r ∷ rs) [] h z = ground arith
  order_wires-IsUnpriced (r ∷ rs) (w ∷ ws) h (z, zs) =
      let (a, b) = order_wires_cons r rs w ws h in
      let (us, m) = order_wires-IsUnpriced rs ws b zs in
      let q = order_wire-price r w a in ((rw z at q, us), ap suc m)

  -- One order action was posted, with one order for each argument, all at the price zero.
  abbrev pub Unpriced : List MarketOrder → St World → St World → Type 0
  Unpriced os s s' =
      (a : OrderAction) × Posted env cfg cfg.vault (order a) s s'
      × All IsUnpriced a.orders
      × (length a.orders ≡ length os)

  action_orders :
      (rs : List (CreateOrderRequest F)) (b : Option BuilderInfo) (a : OrderAction)
      → new_create_order_action fl cfg.tables rs b grouping_na ≡ some a
      → order_wires fl cfg.tables rs ≡ some a.orders
  unfolding new_create_order_action
  action_orders rs b a h = ground arith

  -- For floats that obey the order laws, `PlaceMany` of specs that `Market` made, with options that
  -- leave the price and the bracket alone, posts nothing, or one action with an order for each spec,
  -- each of them at the limit price zero, whatever the mid prices are.
  pub place_many-Unpriced :
      (os : List MarketOrder) (s : St World)
      → OrderLaws fl
      → All KeepsPrice os
      → let s' = (place_many env cfg (market_specs os) s).0 in
        (s'.posted ≡ s.posted) ⊎ Unpriced os s s'
  place_many-Unpriced os s laws k = elim (place_many-posts env cfg (market_specs os) s) [
    | inl p ↦ inl p
    | inr (h, (a, e, p)) ↦
        let (z, n) = all_requests-AllAtZero laws os k in
        let (u, m) = order_wires-IsUnpriced _ a.orders (action_orders _ _ a e) z in
        inr (a, p, u, m ∙ n)
  ]
