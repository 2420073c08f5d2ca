-- ===== src/Info/Queries/Account.antt =====
-- The queries of info/account.go, and the accessors of a spot state.
use hyperliquid_go.Info.Responses.Account.{
  TokenAvailable, SpotClearinghouseState, SpotBalance, AssetPosition, Position, UserState, UserFees,
}
use hyperliquid_go.Base.{if◌then◌else◌, ◌==◌, str_eq, Bool, map}
use hyperliquid_go.Base.Int.{int_eq}
use hyperliquid_go.Info.Queries.Json.{token_available}
use hyperliquid_go.Base.{Option, none, some, List, [], ◌∷◌}
use hyperliquid_go.Base.Text.{Str, codes}
use hyperliquid_go.Base.Int.{ℤ}
use hyperliquid_go.Float.{Float}
use hyperliquid_go.Http.{Http, Transport}
use hyperliquid_go.Info.Query.{Q, return, with_dex, typed_user, fetch, ◌>>=◌}
use hyperliquid_go.Info.Queries.Json.{Json}

-- `AvailableAfterMaintenance`: the first entry of the token.
unfoldable pub available_of : List TokenAvailable → ℤ → Option Str
available_of [] token = none
available_of (a ∷ rest) token =
    let later = available_of rest token in if a.token == token then some a.available else later

unfoldable pub available_after_maintenance : SpotClearinghouseState → ℤ → Option Str
available_after_maintenance s token = available_of s.token_to_available_after_maintenance token

-- The token of the first balance of the coin, in any case of its letters.
unfoldable pub balance_token : (Str → Str → Bool) → List SpotBalance → Str → Option ℤ
balance_token equal_fold [] coin = none
balance_token equal_fold (b ∷ bs) coin =
    let later = balance_token equal_fold bs coin in
    if equal_fold b.coin coin then some b.token else later

-- `Available`; `equal_fold` is `strings.EqualFold`.
unfoldable pub available : (Str → Str → Bool) → SpotClearinghouseState → Str → Option Str
available equal_fold s coin = elim (balance_token equal_fold s.balances coin) [
  | none ↦ none
  | some token ↦ available_after_maintenance s token
]

unfoldable pub position_of : List AssetPosition → Str → Option Position
position_of [] coin = none
position_of (a ∷ rest) coin =
    let later = position_of rest coin in if a.position.coin == coin then some a.position else later

module _ (fl : Float) (http : Http) (json : Json fl.F) (client : Transport http) where
  open http use {World}

  -- `UserState`
  unfoldable pub user_state : Str → List Str → Q World UserState
  user_state address dex =
      fetch http client (with_dex dex (typed_user (codes "clearinghouseState") address))
        json.user_state

  -- `SpotBalances`
  unfoldable pub spot_balances : Str → Q World SpotClearinghouseState
  spot_balances addr =
      fetch http client (typed_user (codes "spotClearinghouseState") addr)
        (json.spot_state (token_available json))

  -- `Positions`
  unfoldable pub positions : Str → List Str → Q World (List Position)
  positions addr dex = do
    state ← user_state addr dex
    return (map (λ (a : AssetPosition). a.position) state.asset_positions)

  -- `Position`; nil is `none`.
  unfoldable pub position : Str → Str → Q World (Option Position)
  position addr coin = do
    state ← user_state addr []
    return (position_of state.asset_positions coin)

  -- `Fees`
  unfoldable pub fees : Str → Q World UserFees
  fees addr = fetch http client (typed_user (codes "userFees") addr) json.user_fees
