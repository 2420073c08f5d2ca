-- ===== src/Stream/Dispatch.antt =====
-- stream/stream.go, `dispatch`.
use hyperliquid_go.Base.{
  ℕ, none, some, List, [], ◌∷◌, ◌++◌, map, ◌==◌, str_eq, nat_eq, if◌then◌else◌,
}
use hyperliquid_go.Base.Dict.{Dict, lookup, insert}
use hyperliquid_go.Base.Text.{codes}
use hyperliquid_go.Base.Int.{int_eq, ℤ}
use hyperliquid_go.Stream.Messages.{WsMessage, SubKey, PostResponse}
use hyperliquid_go.Stream.State.{Net, Chan, Stream}
use hyperliquid_go.Stream.Match.{match_subscription}

-- The callbacks of a map of listeners, in the order in which `range` visits it.
abbrev pub callbacks_of : Dict ℤ ℕ → List ℕ
callbacks_of subs = map (λ (id, cb). cb) subs

-- `select` with a default: a full buffer drops the response.
abbrev pub offer : PostResponse → Chan → Chan
offer r ch = elim ch.buffer [ none ↦ record ch { buffer = some r } | some _ ↦ ch ]

-- The send to the channel of a pending request. A send on a closed channel panics.
unfoldable pub deliver : Dict ℤ ℕ → PostResponse → Dict ℕ Chan → Dict ℕ Chan
deliver pending r heap = elim (lookup r.id pending) [
  | none ↦ heap
  | some c ↦ elim (lookup c heap) [ none ↦ heap | some ch ↦ insert c (offer r ch) heap ]
]

module _ (net : Net) where
  open net use {World, decode_post}

  -- The callbacks that are copied under the lock.
  unfoldable pub matching : WsMessage → Dict SubKey (Dict ℤ ℕ) → List ℕ
  matching msg [] = []
  matching msg ((k, subs) ∷ m) =
      let rest = matching msg m in
      if match_subscription net k msg then callbacks_of subs ++ rest else rest

  unfoldable pub dispatch : WsMessage → Stream World → Stream World
  dispatch msg s =
      if msg.channel == codes "pong"
      then s
      else if msg.channel == codes "subscriptionResponse"
      then s
      else if msg.channel == codes "post"
      then elim (decode_post msg.data_) [
        | none ↦ s
        | some r ↦ record s { channels = deliver s.pending_requests r s.channels }
      ]
      else record s { called = s.called ++ map (λ cb. (cb, msg)) (matching msg s.subscriptions) }
