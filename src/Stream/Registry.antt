-- ===== src/Stream/Registry.antt =====
-- stream/stream.go: `Subscribe`, `unsubscribe` and `Subscription.Close`.
use hyperliquid_go.Base.{ℕ, Bool, true, false, not, Option, none, some, [], if◌then◌else◌}
use hyperliquid_go.Base.Dict.{Dict, lookup, insert, erase, has_key}
use hyperliquid_go.Base.Int.{int_eq, ℤ}
use hyperliquid_go.Stream.Messages.{SubscriptionFilter, SubKey, key, key_eq}
use hyperliquid_go.Stream.State.{
  Net, Stream, Outcome, done, failed, blocked, callback_nil, subscription_not_found,
  subscription_id_not_found, next32, int32,
}
use hyperliquid_go.Stream.Connection.{send_subscribe, send_unsubscribe, non_empty}

-- `Subscription`
pub record Subscription : Type 0 where
  pub filter : SubscriptionFilter
  pub id : ℤ
  pub closed : Bool

-- The listeners of a key; a missing key reads as the empty map.
unfoldable pub listeners : SubKey → Dict SubKey (Dict ℤ ℕ) → Dict ℤ ℕ
listeners k m = elim (lookup k m) [ none ↦ [] | some subs ↦ subs ]

-- `delete(c.subscriptions[key], id)`, on the map under a key that is there.
unfoldable pub drop_listener : SubKey → ℤ → Dict SubKey (Dict ℤ ℕ) → Dict SubKey (Dict ℤ ℕ)
drop_listener k id m = elim (lookup k m) [ none ↦ m | some subs ↦ insert k (erase id subs) m ]

module _ (net : Net) where
  open net use {World}

  -- The end of `Subscribe`, after the frame.
  abbrev pub subscribe_end :
      SubscriptionFilter
      → ℤ
      → Stream World × Outcome (Unit {0})
      → Stream World × Outcome Subscription
  subscribe_end f id (s, done _) = (s, done (record { filter = f; id = id; closed = false }))
  subscribe_end f id (s, failed e) =
      (record s { subscriptions = drop_listener (key f) id s.subscriptions }, failed e)
  subscribe_end f id (s, blocked) = (s, blocked)

  -- The state with the callback registered under the next id.
  unfoldable pub register : SubscriptionFilter → ℕ → Stream World → Stream World
  register f cb s =
      let id = next32 s.next_sub_id in
      record s {
        next_sub_id = id;
        subscriptions =
            insert (key f) (insert (int32 id) cb (listeners (key f) s.subscriptions))
              s.subscriptions;
      }

  -- `Subscribe`; a nil callback is `none`.
  unfoldable pub subscribe :
      SubscriptionFilter → Option ℕ → Stream World → Stream World × Outcome Subscription
  subscribe f none s = (s, failed callback_nil)
  subscribe f (some cb) s =
      subscribe_end f (int32 (next32 s.next_sub_id)) (send_subscribe net f (register f cb s))

  -- `unsubscribe`, by the listeners of the key.
  abbrev pub unsubscribe_from :
      Subscription → Option (Dict ℤ ℕ) → Stream World → Stream World × Outcome (Unit {0})
  unsubscribe_from sub none s = (s, failed subscription_not_found)
  unsubscribe_from sub (some subs) s =
      let rest = erase sub.id subs in
      let k = key sub.filter in
      if not (has_key sub.id subs)
      then (s, failed subscription_id_not_found)
      else if non_empty rest
      then (record s { subscriptions = insert k rest s.subscriptions }, done tt)
      else send_unsubscribe net sub.filter (record s { subscriptions = erase k s.subscriptions })

  unfoldable pub unsubscribe : Subscription → Stream World → Stream World × Outcome (Unit {0})
  unsubscribe sub s = unsubscribe_from sub (lookup (key sub.filter) s.subscriptions) s

  -- `Subscription.Close`, with the handle it leaves; a nil handle is `none`.
  unfoldable pub close_subscription :
      Option Subscription → Stream World → Option Subscription × (Stream World × Outcome (Unit {0}))
  close_subscription none s = (none, (s, done tt))
  close_subscription (some sub) s =
      if sub.closed
      then (some sub, (s, done tt))
      else (some (record sub { closed = true }), unsubscribe sub s)
