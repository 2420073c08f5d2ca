-- ===== src/Info/Queries/Market.antt =====
-- The queries of info/market.go and info/funding.go.
use hyperliquid_go.Info.Responses.Market.{L2Book, Candle, FundingHistory, UserFundingHistory}
use hyperliquid_go.Base.Dict.{Dict, lookup}
use hyperliquid_go.Base.{str_eq, ltb, if◌then◌else◌}
use hyperliquid_go.Base.Text.{index_of, take}
use hyperliquid_go.Info.{or_empty}
use hyperliquid_go.Info.Query.{no_mid, bad_mid}
use hyperliquid_go.Base.{Option, none, some, List, [], ◌∷◌}
use hyperliquid_go.Base.Text.{Str, codes}
use hyperliquid_go.Base.Int.{ℤ}
use hyperliquid_go.Float.{Float}
use hyperliquid_go.Signing.Values.{text, int, object, map_of}
use hyperliquid_go.Http.{Http, Transport}
use hyperliquid_go.Info.{Tables}
use hyperliquid_go.Info.Query.{
  Q, return, throw, decoded, with_dex, typed, fetch, post_time_range_request, ◌>>=◌,
}
use hyperliquid_go.Info.Queries.Json.{Json}

-- The dex of a coin: what stands before a colon that is not its first byte.
unfoldable pub coin_dex : Str → List Str
coin_dex coin = elim (index_of coin b':') [
  | none ↦ []
  | some i ↦ if ltb 0 i then take i coin ∷ [] else []
]

module _ (fl : Float) (http : Http) (json : Json fl.F) (client : Transport http) (t : Tables) where
  open http use {World}
  open fl use {F, parse_float}

  -- `c.nameToCoin[coin]`
  abbrev coin_name : Str → Str
  coin_name coin = or_empty (lookup coin t.name_to_coin)

  -- `AllMids`
  unfoldable pub all_mids : List Str → Q World (Dict Str Str)
  all_mids dex = fetch http client (with_dex dex (typed (codes "allMids"))) json.texts

  -- `AllMidsOn`
  unfoldable pub all_mids_on : Str → Q World (Dict Str Str)
  all_mids_on dex = all_mids (dex ∷ [])

  -- The price of a coin in a table of mids.
  unfoldable pub mid_in : Str → Dict Str Str → Q World F
  mid_in coin mids = elim (lookup coin mids) [
    | none ↦ throw no_mid
    | some s ↦
        let (price, is_number) = parse_float s in if is_number then return price else throw bad_mid
  ]

  -- `Mid`
  unfoldable pub mid : Str → Q World F
  mid coin = all_mids (coin_dex coin) >>= mid_in coin

  -- `Book`
  unfoldable pub book : Str → Q World (L2Book F)
  book coin =
      fetch http client
        (map_of
          ((codes "type", text (codes "l2Book")) ∷ (codes "coin", text (coin_name coin)) ∷ []))
        json.book

  -- `Candles`
  unfoldable pub candles : Str → Str → ℤ → ℤ → Q World (List Candle)
  candles coin interval start end_time =
      let req = map_of (
        (codes "coin", text (coin_name coin))
        ∷ (codes "interval", text interval)
        ∷ (codes "startTime", int start)
        ∷ (codes "endTime", int end_time)
        ∷ []) in
      fetch http client
        (map_of ((codes "type", text (codes "candleSnapshot")) ∷ (codes "req", object req) ∷ []))
        json.candles

  -- `Funding`
  unfoldable pub funding : Str → ℤ → Option ℤ → Q World (List FundingHistory)
  funding coin start end_time =
      post_time_range_request http client (codes "fundingHistory") [] start end_time
        ((codes "coin", text (coin_name coin)) ∷ [])
      >>= λ body. decoded (json.funding body)

  -- `UserFunding`
  unfoldable pub user_funding : Str → ℤ → Option ℤ → Q World (List UserFundingHistory)
  user_funding addr start end_time =
      post_time_range_request http client (codes "userFunding") addr start end_time [] >>= λ body.
      decoded (json.user_funding body)
