-- ===== src/Info.antt =====
-- Package info (info/*.go): the asset tables of the read-only client and the look-ups on them.
pub mod Outcome
pub mod Registry
pub mod Responses
pub mod Query
pub mod Queries
pub mod Proofs
use hyperliquid_go.Base.{ℕ, zero, suc, ◌-◌, Option, none, some, [], str_eq, nat_eq}
use hyperliquid_go.Base.Dict.{Dict, lookup}
use hyperliquid_go.Base.Text.{Str}
use hyperliquid_go.Float.{Float}
use hyperliquid_go.Types.Asset.{AssetClass, classify_asset, max_price_decimals}

-- The three maps of `Client` in info/info.go.
pub record Tables : Type 0 where
  pub coin_to_asset : Dict Str ℕ
  pub name_to_coin : Dict Str Str
  pub asset_to_decimal : Dict ℕ ℕ

-- Go's read of a missing key gives the zero value.
abbrev pub or_zero : Option ℕ → ℕ
or_zero none = 0
or_zero (some n) = n

abbrev pub or_empty : Option Str → Str
or_empty none = []
or_empty (some s) = s

-- `AssetID`: zero for a name that is not registered.
unfoldable pub asset_id : Tables → Str → ℕ
asset_id t coin = or_zero (lookup (or_empty (lookup coin t.name_to_coin)) t.coin_to_asset)

-- `SzDecimals`
unfoldable pub sz_decimals : Tables → ℕ → ℕ
sz_decimals t asset = or_zero (lookup asset t.asset_to_decimal)

module _ (fl : Float) where
  open fl use {F, lit, div}

  -- `for k := 0; k < n; k++ { x /= 10 }`
  unfoldable pub divide_by_ten : ℕ → F → F
  divide_by_ten zero x = x
  divide_by_ten (suc n) x = divide_by_ten n (div x (lit 10 0))

  pub record AssetMeta : Type 0 where
    pub id : ℕ
    pub sz_dec : ℕ
    pub tick_size : F
    pub min_size : F
    pub class : AssetClass

  -- `Asset`, whose error is always nil. The subtraction is cut off at zero in the source too.
  unfoldable pub asset : Tables → Str → AssetMeta
  asset t coin =
      let id = asset_id t coin in
      let sz = sz_decimals t id in
      record {
        id = id;
        sz_dec = sz;
        tick_size = divide_by_ten (max_price_decimals (classify_asset id) - sz) (lit 1 0);
        min_size = divide_by_ten sz (lit 1 0);
        class = classify_asset id;
      }
