-- ===== src/Info/Queries/Orders.antt =====
-- The queries of info/orders.go.
use hyperliquid_go.Info.Responses.Orders.{
  OpenOrder, FrontendOpenOrder, Fill, OrderStatusResponse, ReferralState,
}
use hyperliquid_go.Info.Responses.Account.{SubAccount, MultiSigSigner}
use hyperliquid_go.Base.{not, ◌||◌, if◌then◌else◌, ◌==◌, str_eq}
use hyperliquid_go.Base.Int.{int_eq, pos}
use hyperliquid_go.Info.Query.{fill_not_found}
use hyperliquid_go.Base.{Option, none, some, List, [], ◌∷◌}
use hyperliquid_go.Base.Text.{Str, codes}
use hyperliquid_go.Base.Int.{ℤ}
use hyperliquid_go.Float.{Float}
use hyperliquid_go.Signing.Values.{text, int, map_of}
use hyperliquid_go.Http.{Http, Transport}
use hyperliquid_go.Info.Query.{
  Q, return, throw, decoded, with_dex, typed_user, fetch, post_time_range_request, ◌>>=◌,
}
use hyperliquid_go.Info.Queries.Json.{Json}

-- The first fill of the order.
unfoldable pub fill_of : List Fill → ℤ → Option Fill
fill_of [] oid = none
fill_of (f ∷ fs) oid = let later = fill_of fs oid in if f.oid == oid then some f else later

module _ (fl : Float) (http : Http) (json : Json fl.F) (client : Transport http) where
  open http use {World}
  open fl use {F, parse_float}

  -- `OpenOrders`
  unfoldable pub open_orders : Str → List Str → Q World (List (OpenOrder F))
  open_orders address dex =
      fetch http client (with_dex dex (typed_user (codes "openOrders") address)) json.open_orders

  -- `FrontendOpenOrders`
  unfoldable pub frontend_open_orders : Str → List Str → Q World (List (FrontendOpenOrder F))
  frontend_open_orders address dex =
      fetch http client (with_dex dex (typed_user (codes "frontendOpenOrders") address))
        json.frontend_orders

  -- `Fills`
  unfoldable pub fills : Str → Q World (List Fill)
  fills addr = fetch http client (typed_user (codes "userFills") addr) json.fills

  -- `FillsBetween`
  unfoldable pub fills_between : Str → ℤ → Option ℤ → Q World (List Fill)
  fills_between addr start end_time =
      post_time_range_request http client (codes "userFillsByTime") addr start end_time []
      >>= λ body. decoded (json.fills body)

  -- `Order`
  unfoldable pub order : Str → ℤ → Q World OrderStatusResponse
  order addr oid =
      fetch http client
        (map_of (
          (codes "type", text (codes "orderStatus"))
          ∷ (codes "user", text addr)
          ∷ (codes "oid", int oid)
          ∷ []))
        json.order_status

  -- `Fill`
  unfoldable pub fill : Str → ℤ → Q World Fill
  fill addr oid =
      fills addr >>= λ fs. elim (fill_of fs oid) [ none ↦ throw fill_not_found | some f ↦ return f ]

  -- The slim row of a status, where it is that of a live order. Errors of the two numbers are dropped.
  unfoldable pub live_order : OrderStatusResponse → Option (OpenOrder F)
  live_order r =
      let o = r.order in
      if not (r.status == codes "order") || o.oid == pos 0
      then none
      else some (record {
        coin = o.coin;
        limit_px = (parse_float o.limit_px).0;
        oid = o.oid;
        side = o.side;
        size = (parse_float o.sz).0;
        timestamp = o.timestamp;
      })

  -- `OrderByCloid`; nil is `none`.
  unfoldable pub order_by_cloid : Str → Str → Q World (Option (OpenOrder F))
  order_by_cloid addr cloid = do
    status ←
        fetch http client
          (map_of (
            (codes "type", text (codes "orderStatus"))
            ∷ (codes "user", text addr)
            ∷ (codes "oid", text cloid)
            ∷ []))
          json.order_status
    return (live_order status)

  -- `Referral`
  unfoldable pub referral : Str → Q World ReferralState
  referral addr = fetch http client (typed_user (codes "referral") addr) json.referral

  -- `SubAccounts`
  unfoldable pub sub_accounts : Str → Q World (List SubAccount)
  sub_accounts addr = fetch http client (typed_user (codes "subAccounts") addr) json.sub_accounts

  -- `MultiSigSigners`
  unfoldable pub multi_sig_signers : Str → Q World (List MultiSigSigner)
  multi_sig_signers addr =
      fetch http client (typed_user (codes "userToMultiSigSigners") addr) json.signers
