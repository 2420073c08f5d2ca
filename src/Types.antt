-- ===== src/Types.antt =====
-- Package types (types/*.go): sides, asset classes, order specs and results.
pub mod Asset
pub mod Mixed
pub mod Response
use hyperliquid_go.Base.{ℕ, Bool, ◌==◌, str_eq, Option, List}
use hyperliquid_go.Base.Text.{Str, codes}
use hyperliquid_go.Base.Int.{ℤ}

-- types/side.go: `Side` is a string type; an order spec may hold the empty one.
abbrev pub Side : Type 0
Side = Str

abbrev pub buy : Side
buy = codes "B"

abbrev pub sell : Side
sell = codes "A"

unfoldable pub is_buy : Side → Bool
is_buy s = s == buy

-- types/grouping.go and the `TIF` type of types/side.go.
abbrev pub Tif : Type 0
Tif = Str

abbrev pub tif_alo : Tif
tif_alo = codes "Alo"

abbrev pub tif_ioc : Tif
tif_ioc = codes "Ioc"

abbrev pub tif_gtc : Tif
tif_gtc = codes "Gtc"

abbrev pub Grouping : Type 0
Grouping = Str

abbrev pub grouping_na : Grouping
grouping_na = codes "na"

abbrev pub grouping_normal_tpsl : Grouping
grouping_normal_tpsl = codes "normalTpsl"

-- types/orderspec.go, over the type `A` of floats.
pub record OrderSpec (A : Type 0) : Type 0 where
  pub method : Str
  pub coin : Str
  pub side : Side
  pub size : A
  pub price : A
  pub reduce_only : Bool
  pub cloid : Str
  pub tif : Tif
  pub slippage : A
  pub trigger_px : A
  pub is_market : Bool
  pub take_profit : A
  pub stop_loss : A
  pub tp_size : A
  pub sl_size : A
  pub tp_cloid : Str
  pub sl_cloid : Str
  pub builder_addr : Str
  pub builder_fee_bps : ℤ
  pub override_size : A
  pub limit_price : A
  pub modify_oid : ℤ
  pub modify_cloid : Str
  pub skip_validate : Bool

-- types/order_type.go. An order type has two optional fields, of which one should be set.
pub record LimitOrderType : Type 0 where
  pub tif : Str

pub record TriggerOrderType (A : Type 0) : Type 0 where
  pub trigger_px : A
  pub is_market : Bool
  pub tpsl : Str

pub record OrderType (A : Type 0) : Type 0 where
  pub limit : Option LimitOrderType
  pub trigger : Option (TriggerOrderType A)

pub record BuilderInfo : Type 0 where
  pub builder : Str
  pub fee : ℤ

-- The wire form of a trigger has its price as text.
pub record TriggerOrderTypeWire : Type 0 where
  pub is_market : Bool
  pub trigger_px : Str
  pub tpsl : Str

pub record OrderTypeWire : Type 0 where
  pub limit : Option LimitOrderType
  pub trigger : Option TriggerOrderTypeWire

-- types/result.go. `oid` is an int64.
pub record OrderResult : Type 0 where
  pub oid : ℤ
  pub cloid : Str
  pub status : Str
  pub avg_px : Str
  pub total_sz : Str
  pub error : Str

pub record BatchResult : Type 0 where
  pub results : List OrderResult
  pub error : Str

pub record CancelResult : Type 0 where
  pub status : Str
  pub error : Str

pub record BatchCancelResult : Type 0 where
  pub results : List CancelResult
  pub error : Str
