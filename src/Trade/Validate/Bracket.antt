-- ===== src/Trade/Validate/Bracket.antt =====
-- What `validateBracket` guarantees of the legs that `bracketOrders` builds.
use hyperliquid_go.Base.{
  ◌≡◌, refl, ◌⊎◌, inl, inr, Bool, true, false, not, ◌&&◌, some, ok, err, arith, All, [], Bool-cases,
  if◌then◌else◌, All-append,
}
use hyperliquid_go.Base.Text.{Str, codes}
use hyperliquid_go.Float.{Float, OrderLaws, zero_f, is_pos, le}
use hyperliquid_go.Types.{OrderSpec, is_buy}
use hyperliquid_go.Trade.Requests.{CreateOrderRequest, bracket_leg, leg_if, bracket_orders}
use hyperliquid_go.Trade.Validate.{
  Check, ◌and_then◌, bracket_sides, bracket_sizes, validate_bracket,
}

pub and_then-ok : (a b : Check) → (a and_then b) ≡ ok tt → (a ≡ ok tt) × (b ≡ ok tt)
and_then-ok (ok tt) b h = (refl, h)
and_then-ok (err e) b h = cc

module _ (fl : Float) where
  open fl use {F, lt, eq}

  -- The order in which a leg of the given kind has to stand to the entry price.
  abbrev pub profit_side : OrderSpec F → F → Bool
  profit_side spec price = if is_buy spec.side then lt spec.price price else lt price spec.price

  abbrev pub loss_side : OrderSpec F → F → Bool
  loss_side spec price = if is_buy spec.side then lt price spec.price else lt spec.price price

  -- A market trigger of the given kind at the price of the leg.
  abbrev pub IsTrigger : CreateOrderRequest F → Str → Type 0
  IsTrigger leg kind =
      leg.order_type.trigger
      ≡ some (record { trigger_px = leg.price; is_market = true; tpsl = kind })

  -- A leg closes no more than the entry opens, on the other side, above or below the entry price as
  -- its kind says.
  pub record SafeLeg (spec : OrderSpec F) (leg : CreateOrderRequest F) : Type 0 where
    pub reduces : leg.reduce_only ≡ true
    pub exits : leg.is_buy ≡ not (is_buy spec.side)
    pub same_coin : leg.coin ≡ spec.coin
    pub within : lt spec.size leg.size ≡ false
    pub placed :
        (IsTrigger leg (codes "tp") × (profit_side spec leg.price ≡ true))
        ⊎ (IsTrigger leg (codes "sl") × (loss_side spec leg.price ≡ true))

  bracket_orders_none :
      (spec : OrderSpec F)
      → (eq spec.take_profit (zero_f fl) && eq spec.stop_loss (zero_f fl)) ≡ true
      → bracket_orders fl spec ≡ []
  unfolding bracket_orders
  bracket_orders_none spec e = rw e

  module _ (laws : OrderLaws fl) where
    not_le→lt : (x y : F) → eq x x ≡ true → eq y y ≡ true → le fl x y ≡ false → lt y x ≡ true
    not_le→lt x y hx hy h = ground (arith, laws.total x y hx hy)

    lt_irrefl : (x : F) → lt x x ≡ false
    lt_irrefl x = ground (arith, laws.lt_asym x x)

    module _ (spec : OrderSpec F) (number : eq spec.price spec.price ≡ true)
        (sides : bracket_sides fl spec ≡ ok tt) (sizes : bracket_sizes fl spec ≡ ok tt)
        (sized : is_pos fl spec.size ≡ true) where
      leg_within :
          (leg_size : F)
          → (is_pos fl leg_size && (is_pos fl spec.size && lt spec.size leg_size)) ≡ false
          → lt spec.size (if is_pos fl leg_size then leg_size else spec.size) ≡ false
      leg_within leg_size h = ground (arith, lt_irrefl spec.size)

      sizes_tp : lt spec.size (if is_pos fl spec.tp_size then spec.tp_size else spec.size) ≡ false
      unfolding bracket_sizes
      sizes_tp = leg_within spec.tp_size (ground arith)

      sizes_sl : lt spec.size (if is_pos fl spec.sl_size then spec.sl_size else spec.size) ≡ false
      unfolding bracket_sizes
      sizes_sl = leg_within spec.sl_size (ground arith)

      profit_of : is_pos fl spec.take_profit ≡ true → profit_side spec spec.take_profit ≡ true
      unfolding bracket_sides
      profit_of h = ground (
        arith,
        not_le→lt spec.take_profit spec.price,
        not_le→lt spec.price spec.take_profit,
        laws.lt_right (zero_f fl) spec.take_profit,
      )

      loss_of : is_pos fl spec.stop_loss ≡ true → loss_side spec spec.stop_loss ≡ true
      unfolding bracket_sides
      loss_of h = ground (
        arith,
        not_le→lt spec.stop_loss spec.price,
        not_le→lt spec.price spec.stop_loss,
        laws.lt_right (zero_f fl) spec.stop_loss,
      )

      tp_leg-SafeLeg :
          is_pos fl spec.take_profit ≡ true
          → SafeLeg spec
              (bracket_leg fl spec spec.take_profit spec.tp_size (codes "tp") spec.tp_cloid)
      unfolding bracket_leg
      tp_leg-SafeLeg h = record {
        reduces = refl;
        exits = refl;
        same_coin = refl;
        within = sizes_tp;
        placed = inl (refl, profit_of h);
      }

      sl_leg-SafeLeg :
          is_pos fl spec.stop_loss ≡ true
          → SafeLeg spec
              (bracket_leg fl spec spec.stop_loss spec.sl_size (codes "sl") spec.sl_cloid)
      unfolding bracket_leg
      sl_leg-SafeLeg h = record {
        reduces = refl;
        exits = refl;
        same_coin = refl;
        within = sizes_sl;
        placed = inr (refl, loss_of h);
      }

      leg_if-All :
          (price : F) (leg : CreateOrderRequest F)
          → (is_pos fl price ≡ true → SafeLeg spec leg)
          → All (SafeLeg spec) (leg_if fl price leg)
      unfolding leg_if
      leg_if-All price leg safe = elim (Bool-cases (is_pos fl price)) [
        | inl e ↦ rw e (safe e, tt)
        | inr e ↦ rw e tt
      ]

      legs-SafeLeg : All (SafeLeg spec) (bracket_orders fl spec)
      unfolding bracket_orders
      legs-SafeLeg =
          elim (Bool-cases (eq spec.take_profit (zero_f fl) && eq spec.stop_loss (zero_f fl))) [
            | inl e ↦ rw e tt
            | inr e ↦ rw e (
                All-append (SafeLeg spec) (leg_if fl spec.take_profit _)
                  (leg_if fl spec.stop_loss _) (leg_if-All spec.take_profit _ tp_leg-SafeLeg)
                  (leg_if-All spec.stop_loss _ sl_leg-SafeLeg))
          ]

    -- For floats that obey the order laws, a non-zero price that is a number and a positive size, the
    -- legs of a spec that passes `validateBracket` are safe: reduce-only, on the other side, of at
    -- most the entry's size, and market triggers above or below the entry price as their kind says.
    pub bracket_orders-SafeLeg :
        (spec : OrderSpec F)
        → eq spec.price spec.price ≡ true
        → eq spec.price (zero_f fl) ≡ false
        → is_pos fl spec.size ≡ true
        → validate_bracket fl spec ≡ ok tt
        → All (SafeLeg spec) (bracket_orders fl spec)
    unfolding validate_bracket
    bracket_orders-SafeLeg spec number priced sized valid =
        elim (Bool-cases (eq spec.take_profit (zero_f fl) && eq spec.stop_loss (zero_f fl))) [
          | inl e ↦ rw (bracket_orders_none spec e) tt
          | inr e ↦
              let p = and_then-ok (bracket_sides fl spec) (bracket_sizes fl spec) (ground arith) in
              legs-SafeLeg spec number p.0 p.1 sized
        ]
