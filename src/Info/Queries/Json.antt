-- ===== src/Info/Queries/Json.antt =====
-- The decoders that the queries call: package json on plain structs, as a parameter, and the types
-- that decode themselves.
use hyperliquid_go.Base.{Option, none, some, List, [], ◌∷◌}
use hyperliquid_go.Base.Dict.{Dict}
use hyperliquid_go.Base.Text.{Str}
use hyperliquid_go.Base.Int.{ℤ}
use hyperliquid_go.Info.Responses.Account.{
  UserState, UserFees, SubAccount, MultiSigSigner, TokenAvailable, SpotClearinghouseState,
}
use hyperliquid_go.Info.Responses.Orders.{
  OpenOrder, FrontendOpenOrder, Fill, OrderStatusResponse, ReferralState,
}
use hyperliquid_go.Info.Responses.Market.{L2Book, Candle, FundingHistory, UserFundingHistory}
use hyperliquid_go.Info.Responses.Meta.{
  AssetInfo, MarginTier, MarginTable, Meta, SpotMeta, OutcomeMeta, AssetCtx,
}
use hyperliquid_go.Info.Responses.Staking.{StakingSummary, StakingDelegation, StakingReward}

-- `json.Unmarshal` into the types of the code; `none` is an error, and a text of no bytes is one.
-- A dynamic value is of the type `Any`, with the assertions and the encoder that the code applies to
-- it. A struct whose parts decode themselves takes their decoder.
pub record Json (F : Type 0) : Type 1 where
  pub Any : Type 0
  pub nil : Any
  pub raw_array : Str → Option (List Str)
  pub raw_object : Str → Option (Dict Str Str)
  pub int : Str → Option ℤ
  pub text : Str → Option Str
  pub texts : Str → Option (Dict Str Str)
  pub rows : Str → Option (List (List Any))
  pub pair : Str → Option (Any × Any)
  pub fields : Str → Option (Dict Str Any)
  -- `json.Marshal`
  pub marshal : Any → Option Str
  -- `int(v.(float64))` and `v.(string)`
  pub as_float : Any → Option ℤ
  pub as_text : Any → Option Str
  pub user_state : Str → Option UserState
  pub user_fees : Str → Option UserFees
  pub sub_accounts : Str → Option (List SubAccount)
  pub signers : Str → Option (List MultiSigSigner)
  pub spot_state : (Str → Option TokenAvailable) → Str → Option SpotClearinghouseState
  pub open_orders : Str → Option (List (OpenOrder F))
  pub frontend_orders : Str → Option (List (FrontendOpenOrder F))
  pub fills : Str → Option (List Fill)
  pub order_status : Str → Option OrderStatusResponse
  pub referral : Str → Option ReferralState
  pub book : Str → Option (L2Book F)
  pub candles : Str → Option (List Candle)
  pub funding : Str → Option (List FundingHistory)
  pub user_funding : Str → Option (List UserFundingHistory)
  pub universe : Str → Option (List AssetInfo)
  pub margin_tiers : Str → Option (List MarginTier)
  -- The body of a margin table: its description and tiers.
  pub margin_body : Str → Option (Str × List MarginTier)
  pub meta : (Str → Option MarginTable) → Str → Option Meta
  pub asset_ctxs : Str → Option (List AssetCtx)
  pub spot_meta : Str → Option SpotMeta
  pub outcome_meta : Str → Option OutcomeMeta
  pub staking_summary : Str → Option StakingSummary
  pub delegations : Str → Option (List StakingDelegation)
  pub rewards : Str → Option (List StakingReward)

-- `v, err := f(); if err != nil { return err }`
abbrev pub and_then : {A B : Type 0} → Option A → (A → Option B) → Option B
and_then none f = none
and_then (some a) f = f a

infixl 5 ◌>>=◌
abbrev ◌>>=◌ : {A B : Type 0} → Option A → (A → Option B) → Option B
m >>= f = and_then m f

-- The two parts of a tuple of the wire.
abbrev pub two : List Str → Option (Str × Str)
two (a ∷ b ∷ []) = some (a, b)
two _ = none

module _ {F : Type 0} (json : Json F) where
  open json use {raw_array, int, text, margin_body}

  -- `TokenAvailable.UnmarshalJSON`: the tuple of an index and an amount.
  unfoldable pub token_available : Str → Option TokenAvailable
  token_available b = do
    parts ← raw_array b
    (index, amount) ← two parts
    token ← int index
    available ← text amount
    some (record { token = token; available = available })

  -- `MarginTable.UnmarshalJSON`: the tuple of an id and a table.
  unfoldable pub margin_table : Str → Option MarginTable
  margin_table b = do
    parts ← raw_array b
    (index, table) ← two parts
    id ← int index
    body ← margin_body table
    some (record { id = id; description = body.0; margin_tiers = body.1 })

-- `MixedArray.UnmarshalJSON` keeps the elements as raw JSON.
abbrev pub mixed_array : {F : Type 0} → Json F → Str → Option (List Str)
mixed_array json = json.raw_array
