-- ===== src/Info/Queries/Staking.antt =====
-- The staking queries of info/staking.go.
use hyperliquid_go.Info.Responses.Staking.{StakingSummary, StakingDelegation, StakingReward}
use hyperliquid_go.Base.{List}
use hyperliquid_go.Base.Text.{Str, codes}
use hyperliquid_go.Float.{Float}
use hyperliquid_go.Http.{Http, Transport}
use hyperliquid_go.Info.Query.{Q, typed_user, fetch}
use hyperliquid_go.Info.Queries.Json.{Json}

module _ (fl : Float) (http : Http) (json : Json fl.F) (client : Transport http) where
  open http use {World}

  -- `Summary`
  unfoldable pub summary : Str → Q World StakingSummary
  summary addr = fetch http client (typed_user (codes "delegatorSummary") addr) json.staking_summary

  -- `Delegations`
  unfoldable pub delegations : Str → Q World (List StakingDelegation)
  delegations addr = fetch http client (typed_user (codes "delegations") addr) json.delegations

  -- `Rewards`
  unfoldable pub rewards : Str → Q World (List StakingReward)
  rewards addr = fetch http client (typed_user (codes "delegatorRewards") addr) json.rewards
