-- ===== src/Info/Responses/Meta.antt =====
-- The structs of info/meta.go. What `New` does not read of an asset, a token, an outcome or a question
-- is left out of Info.Registry and Info.Outcome and stands here.
use hyperliquid_go.Base.{Option, List, Bool}
use hyperliquid_go.Base.Text.{Str}
use hyperliquid_go.Base.Int.{ℤ}

pub record AssetInfo : Type 0 where
  pub name : Str
  pub sz_decimals : ℤ
  pub max_leverage : ℤ
  pub margin_table_id : ℤ
  pub only_isolated : Bool
  pub is_delisted : Bool

pub record MarginTier : Type 0 where
  pub lower_bound : Str
  pub max_leverage : ℤ

pub record MarginTable : Type 0 where
  pub id : ℤ
  pub description : Str
  pub margin_tiers : List MarginTier

pub record Meta : Type 0 where
  pub universe : List AssetInfo
  pub margin_tables : List MarginTable
  pub collateral_token : ℤ

pub record SpotAssetInfo : Type 0 where
  pub name : Str
  pub tokens : List ℤ
  pub index : ℤ
  pub is_canonical : Bool

pub record EvmContract : Type 0 where
  pub address : Str
  pub evm_extra_wei_decimals : ℤ

pub record SpotTokenInfo : Type 0 where
  pub name : Str
  pub sz_decimals : ℤ
  pub wei_decimals : ℤ
  pub index : ℤ
  pub token_id : Str
  pub is_canonical : Bool
  pub evm_contract : Option EvmContract
  pub full_name : Option Str

pub record SpotMeta : Type 0 where
  pub universe : List SpotAssetInfo
  pub tokens : List SpotTokenInfo

pub record OutcomeSideSpec : Type 0 where
  pub name : Str

pub record OutcomeInfo : Type 0 where
  pub outcome : ℤ
  pub name : Str
  pub description : Str
  pub side_specs : List OutcomeSideSpec
  pub quote_token : Str

pub record Question : Type 0 where
  pub question : ℤ
  pub name : Str
  pub description : Str
  pub fallback_outcome : ℤ
  pub named_outcomes : List ℤ
  pub settled_named_outcomes : List ℤ

pub record OutcomeMeta : Type 0 where
  pub outcomes : List OutcomeInfo
  pub questions : List Question

pub record AssetCtx : Type 0 where
  pub day_ntl_vlm : Str
  pub funding : Str
  pub impact_pxs : List Str
  pub mark_px : Str
  pub mid_px : Str
  pub open_interest : Str
  pub oracle_px : Str
  pub premium : Str
  pub prev_day_px : Str

pub record MetaAndAssetCtxsResponse : Type 0 where
  pub meta : Meta
  pub asset_ctxs : List AssetCtx

pub record PerpDex : Type 0 where
  pub name : Str
  pub full_name : Str
  pub deployer : Str
  pub oracle_updater : Option Str
  pub fee_recipient : Option Str
  pub asset_to_streaming_oi_cap : List (List Str)
  pub asset_to_funding_multiplier : List (List Str)
