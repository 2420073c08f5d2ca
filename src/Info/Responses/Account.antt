-- ===== src/Info/Responses/Account.antt =====
-- The structs of info/account.go.
use hyperliquid_go.Base.{Option, List}
use hyperliquid_go.Base.Text.{Str}
use hyperliquid_go.Base.Int.{ℤ}

pub record Leverage : Type 0 where
  pub type_ : Str
  pub value : ℤ
  pub raw_usd : Option Str

pub record Position : Type 0 where
  pub coin : Str
  pub entry_px : Option Str
  pub leverage : Leverage
  pub liquidation_px : Option Str
  pub margin_used : Str
  pub position_value : Str
  pub return_on_equity : Str
  pub szi : Str
  pub unrealized_pnl : Str

pub record AssetPosition : Type 0 where
  pub position : Position
  pub type_ : Str

pub record MarginSummary : Type 0 where
  pub account_value : Str
  pub total_margin_used : Str
  pub total_ntl_pos : Str
  pub total_raw_usd : Str

pub record UserState : Type 0 where
  pub asset_positions : List AssetPosition
  pub cross_margin_summary : MarginSummary
  pub margin_summary : MarginSummary
  pub withdrawable : Str

pub record UserVolume : Type 0 where
  pub date : Str
  pub exchange : Str
  pub user_add : Str
  pub user_cross : Str

pub record MmTier : Type 0 where
  pub add : Str
  pub maker_fraction_cutoff : Str

pub record VipTier : Type 0 where
  pub add : Str
  pub cross : Str
  pub ntl_cutoff : Str

pub record Tiers : Type 0 where
  pub mm : List MmTier
  pub vip : List VipTier

pub record FeeSchedule : Type 0 where
  pub add : Str
  pub cross : Str
  pub referral_discount : Str
  pub tiers : Tiers

pub record UserFees : Type 0 where
  pub active_referral_discount : Str
  pub daily_user_volume : List UserVolume
  pub fee_schedule : FeeSchedule
  pub user_add_rate : Str
  pub user_cross_rate : Str

pub record SubAccount : Type 0 where
  pub name : Str
  pub user : Str
  pub permissions : List Str

pub record MultiSigSigner : Type 0 where
  pub user : Str
  pub threshold : ℤ

pub record SpotBalance : Type 0 where
  pub coin : Str
  pub token : ℤ
  pub hold : Str
  pub total : Str
  pub entry_ntl : Str

pub record TokenAvailable : Type 0 where
  pub token : ℤ
  pub available : Str

pub record SpotClearinghouseState : Type 0 where
  pub balances : List SpotBalance
  pub token_to_available_after_maintenance : List TokenAvailable
