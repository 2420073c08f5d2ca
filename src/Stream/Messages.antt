-- ===== src/Stream/Messages.antt =====
-- stream/ws_types.go and stream/subscriptions.go: the frames, the keys of the subscription map and the
-- constructors of subscription filters.
use hyperliquid_go.Base.{Bool, true, ◌&&◌, [], Eq, str_eq, str_beq, str_beq_iff, arith, ◌≡◌, ◌↔◌}
use hyperliquid_go.Base.Text.{Str, codes}
use hyperliquid_go.Base.Int.{ℤ}

pub record WsMessage : Type 0 where
  pub channel : Str
  -- The raw JSON.
  pub data_ : Str

-- A field that JSON omits when empty is the empty string.
pub record SubscriptionFilter : Type 0 where
  pub type_ : Str
  pub coin : Str
  pub user : Str
  pub interval : Str
  pub dex : Str

pub record SubKey : Type 0 where
  pub typ : Str
  pub coin : Str
  pub user : Str
  pub interval : Str
  pub dex : Str

-- `SubscriptionFilter.key`
unfoldable pub key : SubscriptionFilter → SubKey
key f = record { typ = f.type_; coin = f.coin; user = f.user; interval = f.interval; dex = f.dex }

abbrev pub key_beq : SubKey → SubKey → Bool
key_beq a b =
    str_beq a.typ b.typ
    && str_beq a.coin b.coin
    && str_beq a.user b.user
    && str_beq a.interval b.interval
    && str_beq a.dex b.dex

pub key_beq_iff : (a b : SubKey) → (key_beq a b ≡ true) ↔ (a ≡ b)
key_beq_iff a b = ground (
  arith,
  str_beq_iff a.typ b.typ,
  str_beq_iff a.coin b.coin,
  str_beq_iff a.user b.user,
  str_beq_iff a.interval b.interval,
  str_beq_iff a.dex b.dex,
)

instance abbrev pub key_eq : Eq SubKey
key_eq = record { same = key_beq; same_iff = key_beq_iff }

-- `WsPostResponseData`: the request's id, the response's type and its raw payload.
pub record PostResponse : Type 0 where
  pub id : ℤ
  pub response_type : Str
  pub payload : Str

-- `WsCommand` and `WsPostRequest`; the payload of a request is its raw JSON.
pub data Frame : Type 0 where
  subscribe_frame : SubscriptionFilter → Frame
  unsubscribe_frame : SubscriptionFilter → Frame
  ping_frame : Frame
  post_frame : ℤ → Str → Str → Frame

abbrev filter : Str → Str → Str → SubscriptionFilter
filter t coin user = record { type_ = t; coin = coin; user = user; interval = []; dex = [] }

unfoldable pub trades : Str → SubscriptionFilter
trades coin = filter (codes "trades") coin []

unfoldable pub book : Str → SubscriptionFilter
book coin = filter (codes "l2Book") coin []

unfoldable pub bbo : Str → SubscriptionFilter
bbo coin = filter (codes "bbo") coin []

unfoldable pub active_asset_ctx : Str → SubscriptionFilter
active_asset_ctx coin = filter (codes "activeAssetCtx") coin []

unfoldable pub candles : Str → Str → SubscriptionFilter
candles coin interval = record (filter (codes "candle") coin []) { interval = interval }

unfoldable pub all_mids : SubscriptionFilter
all_mids = filter (codes "allMids") [] []

unfoldable pub all_mids_on : Str → SubscriptionFilter
all_mids_on dex = record (filter (codes "allMids") [] []) { dex = dex }

unfoldable pub user_events : Str → SubscriptionFilter
user_events addr = filter (codes "userEvents") [] addr

unfoldable pub user_fills : Str → SubscriptionFilter
user_fills addr = filter (codes "userFills") [] addr

unfoldable pub order_updates : Str → SubscriptionFilter
order_updates addr = filter (codes "orderUpdates") [] addr

unfoldable pub user_fundings : Str → SubscriptionFilter
user_fundings addr = filter (codes "userFundings") [] addr

unfoldable pub user_ledger : Str → SubscriptionFilter
user_ledger addr = filter (codes "userNonFundingLedgerUpdates") [] addr

unfoldable pub web_data : Str → SubscriptionFilter
web_data addr = filter (codes "webData2") [] addr

unfoldable pub notifications : Str → SubscriptionFilter
notifications addr = filter (codes "notification") [] addr

unfoldable pub active_asset_data : Str → Str → SubscriptionFilter
active_asset_data addr coin = filter (codes "activeAssetData") coin addr

unfoldable pub user_twap_fills : Str → SubscriptionFilter
user_twap_fills addr = filter (codes "userTwapSliceFills") [] addr

unfoldable pub user_twap_history : Str → SubscriptionFilter
user_twap_history addr = filter (codes "userTwapHistory") [] addr
