-- ===== src/Info/Responses/Staking.antt =====
-- The structs of info/staking.go.
use hyperliquid_go.Base.Text.{Str}
use hyperliquid_go.Base.Int.{ℤ}

pub record StakingSummary : Type 0 where
  pub delegated : Str
  pub undelegated : Str
  pub total_pending_withdrawal : Str
  pub n_pending_withdrawals : ℤ

pub record StakingDelegation : Type 0 where
  pub validator : Str
  pub amount : Str
  pub locked_until_timestamp : ℤ

pub record StakingReward : Type 0 where
  pub time : ℤ
  pub source : Str
  pub total_amount : Str
