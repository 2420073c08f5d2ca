-- ===== src/Types/Asset.antt =====
-- types/asset_class.go: the class of a numeric asset id.
use hyperliquid_go.Base.{ℕ, leb, if◌then◌else◌, Bool, true, false}

abbrev pub asset_spot_offset : ℕ
asset_spot_offset = 10_000

abbrev pub asset_builder_perp_base : ℕ
asset_builder_perp_base = 100_000

abbrev pub asset_outcome_base : ℕ
asset_outcome_base = 100_000_000

pub data AssetClass : Type 0 where
  perp spot builder_perp outcome : AssetClass

unfoldable pub classify_asset : ℕ → AssetClass
classify_asset asset =
    if leb asset_outcome_base asset
    then outcome
    else if leb asset_builder_perp_base asset
    then builder_perp
    else if leb asset_spot_offset asset
    then spot
    else perp

unfoldable pub max_price_decimals : AssetClass → ℕ
max_price_decimals spot = 8
max_price_decimals _ = 6

unfoldable pub is_outcome : AssetClass → Bool
is_outcome outcome = true
is_outcome _ = false
