-- ===== src/Stream/Match.antt =====
-- stream/stream.go, `matchSubscription`.
use hyperliquid_go.Base.{
  Bool, true, false, not, ◌&&◌, none, some, [], ◌∷◌, ◌==◌, str_eq, if◌then◌else◌,
}
use hyperliquid_go.Base.Dict.{Dict, lookup}
use hyperliquid_go.Base.Text.{Str, codes}
use hyperliquid_go.Stream.Messages.{WsMessage, SubKey}
use hyperliquid_go.Stream.State.{Net}

-- The cases of the switch on the subscription's type, each with the channel of its messages.
unfoldable pub channel_table : Dict Str Str
channel_table =
    (codes "allMids", codes "allMids")
    ∷ (codes "notification", codes "notification")
    ∷ (codes "webData2", codes "webData2")
    ∷ (codes "candle", codes "candle")
    ∷ (codes "l2Book", codes "l2Book")
    ∷ (codes "trades", codes "trades")
    ∷ (codes "orderUpdates", codes "orderUpdates")
    ∷ (codes "userEvents", codes "user")
    ∷ (codes "userFills", codes "userFills")
    ∷ (codes "userFundings", codes "userFundings")
    ∷ (codes "userNonFundingLedgerUpdates", codes "userNonFundingLedgerUpdates")
    ∷ (codes "activeAssetCtx", codes "activeAssetCtx")
    ∷ (codes "activeAssetData", codes "activeAssetData")
    ∷ (codes "userTwapSliceFills", codes "userTwapSliceFills")
    ∷ (codes "userTwapHistory", codes "userTwapHistory")
    ∷ (codes "bbo", codes "bbo")
    ∷ []

unfoldable pub channel_match : Str → Str → Bool
channel_match typ channel = elim (lookup typ channel_table) [ none ↦ false | some c ↦ channel == c ]

module _ (net : Net) where
  -- The tests on the decoded fields.
  unfoldable pub fields_match : SubKey → Str × Str → Bool
  fields_match key (coin, user) =
      if not (key.coin == []) && not (coin == key.coin)
      then false
      else if not (key.user == []) && not (net.equal_fold user key.user)
      then false
      else true

  unfoldable pub match_subscription : SubKey → WsMessage → Bool
  match_subscription key msg =
      if not (channel_match key.typ msg.channel)
      then false
      else if key.coin == [] && key.user == []
      then true
      else if key.typ == codes "orderUpdates"
      then true
      else elim (net.coin_and_user msg.data_) [ none ↦ false | some d ↦ fields_match key d ]
