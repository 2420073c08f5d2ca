-- ===== src/Info/Responses/Orders.antt =====
-- The structs of info/orders.go.
use hyperliquid_go.Base.{Option, List, Bool}
use hyperliquid_go.Base.Text.{Str}
use hyperliquid_go.Base.Int.{ℤ}

pub record OpenOrder (A : Type 0) : Type 0 where
  pub coin : Str
  pub limit_px : A
  pub oid : ℤ
  pub side : Str
  pub size : A
  pub timestamp : ℤ

pub record FrontendOpenOrder (A : Type 0) : Type 0 where
  pub coin : Str
  pub is_position_tpsl : Bool
  pub is_trigger : Bool
  pub limit_px : A
  pub oid : ℤ
  pub order_type : Str
  pub orig_sz : A
  pub reduce_only : Bool
  pub side : Str
  pub size : A
  pub timestamp : ℤ
  pub trigger_condition : Str
  pub trigger_px : A

pub record Fill : Type 0 where
  pub closed_pnl : Str
  pub coin : Str
  pub crossed : Bool
  pub dir : Str
  pub hash : Str
  pub oid : ℤ
  pub price : Str
  pub side : Str
  pub start_position : Str
  pub size : Str
  pub time : ℤ
  pub fee : Str
  pub fee_token : Str

pub record ReferredBy : Type 0 where
  pub referrer : Str
  pub code : Str

pub record ReferralMember : Type 0 where
  pub cum_vlm : Str
  pub cum_rewarded_fees_since_referred : Str
  pub cum_fees_rewarded_to_referrer : Str
  pub time_joined : ℤ
  pub user : Str

pub record ReferrerData : Type 0 where
  pub code : Str
  pub referral_states : List ReferralMember

pub record ReferrerState : Type 0 where
  pub stage : Str
  pub data_ : Option ReferrerData

pub record ReferralState : Type 0 where
  pub referred_by : Option ReferredBy
  pub cum_vlm : Str
  pub unclaimed_rewards : Str
  pub claimed_rewards : Str
  pub builder_rewards : Str
  pub referrer_state : Option ReferrerState
  pub reward_history : List Str

-- The order inside an `OrderStatusResponse`.
pub record StatusOrder : Type 0 where
  pub coin : Str
  pub side : Str
  pub limit_px : Str
  pub sz : Str
  pub oid : ℤ
  pub timestamp : ℤ
  pub trigger_condition : Str
  pub is_trigger : Bool
  pub trigger_px : Str
  pub children : List Str
  pub is_position_tpsl : Bool
  pub reduce_only : Bool
  pub order_type : Str
  pub orig_sz : Str
  pub tif : Option Str
  pub cloid : Option Str

-- The two nested structs are one level here.
pub record OrderStatusResponse : Type 0 where
  pub status : Str
  pub order : StatusOrder
  pub order_status : Str
  pub status_timestamp : ℤ
