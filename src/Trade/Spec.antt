-- ===== src/Trade/Spec.antt =====
-- trade/opts.go and the spec constructors of trade/place.go.
use hyperliquid_go.Base.{true, false, List, [], ◌∷◌}
use hyperliquid_go.Base.Text.{Str, codes}
use hyperliquid_go.Base.Int.{ℤ, pos}
use hyperliquid_go.Float.{Float, zero_f}
use hyperliquid_go.Types.{OrderSpec, Side, Tif, tif_alo, tif_ioc, tif_gtc}

-- An option is any function on the spec.
abbrev pub PlaceOpt : Type 0 → Type 0
PlaceOpt A = OrderSpec A → OrderSpec A

-- `for _, o := range opts { o(&s) }`
unfoldable pub apply_opts : {A : Type 0} → List (PlaceOpt A) → OrderSpec A → OrderSpec A
apply_opts [] s = s
apply_opts (o ∷ os) s = apply_opts os (o s)

module _ {A : Type 0} where
  unfoldable pub with_take_profit : A → PlaceOpt A
  with_take_profit price s = record s { take_profit = price }

  unfoldable pub with_stop_loss : A → PlaceOpt A
  with_stop_loss price s = record s { stop_loss = price }

  unfoldable pub with_bracket : A → A → PlaceOpt A
  with_bracket tp sl s = record s { take_profit = tp; stop_loss = sl }

  unfoldable pub with_slippage : A → PlaceOpt A
  with_slippage frac s = record s { slippage = frac }

  unfoldable pub with_size : A → PlaceOpt A
  with_size size s = record s { override_size = size }

  unfoldable pub with_limit : A → PlaceOpt A
  with_limit price s = record s { limit_price = price }

  unfoldable pub as_limit : A → PlaceOpt A
  as_limit px s = record s { is_market = false; price = px }

  unfoldable pub with_tp_size : A → PlaceOpt A
  with_tp_size size s = record s { tp_size = size }

  unfoldable pub with_sl_size : A → PlaceOpt A
  with_sl_size size s = record s { sl_size = size }

unfoldable pub with_reduce_only : {A : Type 0} → OrderSpec A → OrderSpec A
with_reduce_only s = record s { reduce_only = true }

unfoldable pub with_cloid : {A : Type 0} → Str → OrderSpec A → OrderSpec A
with_cloid cloid s = record s { cloid = cloid }

unfoldable pub with_builder : {A : Type 0} → Str → ℤ → OrderSpec A → OrderSpec A
with_builder addr fee_bps s = record s { builder_addr = addr; builder_fee_bps = fee_bps }

unfoldable pub as_market : {A : Type 0} → OrderSpec A → OrderSpec A
as_market s = record s { is_market = true }

unfoldable pub with_tp_cloid : {A : Type 0} → Str → OrderSpec A → OrderSpec A
with_tp_cloid cloid s = record s { tp_cloid = cloid }

unfoldable pub with_sl_cloid : {A : Type 0} → Str → OrderSpec A → OrderSpec A
with_sl_cloid cloid s = record s { sl_cloid = cloid }

unfoldable pub skip_validation : {A : Type 0} → OrderSpec A → OrderSpec A
skip_validation s = record s { skip_validate = true }

module _ (fl : Float) where
  open fl use {F}

  -- Go's zero value of the struct.
  abbrev pub empty_spec : OrderSpec F
  empty_spec = record {
    method = [];
    coin = [];
    side = [];
    size = zero_f fl;
    price = zero_f fl;
    reduce_only = false;
    cloid = [];
    tif = [];
    slippage = zero_f fl;
    trigger_px = zero_f fl;
    is_market = false;
    take_profit = zero_f fl;
    stop_loss = zero_f fl;
    tp_size = zero_f fl;
    sl_size = zero_f fl;
    tp_cloid = [];
    sl_cloid = [];
    builder_addr = [];
    builder_fee_bps = pos 0;
    override_size = zero_f fl;
    limit_price = zero_f fl;
    modify_oid = pos 0;
    modify_cloid = [];
    skip_validate = false;
  }

  -- The common part of `ALO`, `IOC` and `GTC`.
  abbrev limit_spec : Str → Tif → Str → Side → F → F → List (PlaceOpt F) → OrderSpec F
  limit_spec method tif coin side size px opts = apply_opts opts (record empty_spec {
    method = method;
    coin = coin;
    side = side;
    size = size;
    price = px;
    tif = tif;
  })

  unfoldable pub alo : Str → Side → F → F → List (PlaceOpt F) → OrderSpec F
  unfolding apply_opts
  alo = limit_spec (codes "alo") tif_alo

  unfoldable pub ioc : Str → Side → F → F → List (PlaceOpt F) → OrderSpec F
  unfolding apply_opts
  ioc = limit_spec (codes "ioc") tif_ioc

  unfoldable pub gtc : Str → Side → F → F → List (PlaceOpt F) → OrderSpec F
  unfolding apply_opts
  gtc = limit_spec (codes "gtc") tif_gtc

  unfoldable pub market : Str → Side → F → List (PlaceOpt F) → OrderSpec F
  unfolding apply_opts
  market coin side size opts = apply_opts opts (record empty_spec {
    method = codes "market";
    coin = coin;
    side = side;
    size = size;
    tif = tif_ioc;
  })

  unfoldable pub trigger : Str → Side → F → F → List (PlaceOpt F) → OrderSpec F
  unfolding apply_opts
  trigger coin side size trigger_px opts = apply_opts opts (record empty_spec {
    method = codes "trigger";
    coin = coin;
    side = side;
    size = size;
    trigger_px = trigger_px;
    price = trigger_px;
    is_market = true;
  })
