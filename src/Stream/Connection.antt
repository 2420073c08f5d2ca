-- ===== src/Stream/Connection.antt =====
-- stream/stream.go: `writeJSON`, the three frames built on it, `resubscribeAll`, `Connect` and `Close`.
use hyperliquid_go.Base.{
  ℕ, Bool, true, false, not, none, some, List, [], ◌∷◌, if◌then◌else◌, nat_eq,
}
use hyperliquid_go.Base.Dict.{Dict, insert, lookup}
use hyperliquid_go.Base.Int.{ℤ}
use hyperliquid_go.Stream.Messages.{
  SubscriptionFilter, SubKey, Frame, subscribe_frame, unsubscribe_frame, ping_frame,
}
use hyperliquid_go.Stream.State.{
  Net, Chan, Stream, Outcome, done, failed, blocked, after, client_closed, not_connected,
  connection_closed, write_failed, dial_failed, resubscribe_failed,
}

-- `len(subs) > 0`
abbrev pub non_empty {ℓ} : {A : Type ℓ} → List A → Bool
non_empty [] = false
non_empty (x ∷ xs) = true

-- The keys that have a listener.
unfoldable pub active_keys : Dict SubKey (Dict ℤ ℕ) → List SubKey
active_keys [] = []
active_keys ((k, subs) ∷ m) = let rest = active_keys m in if non_empty subs then k ∷ rest else rest

-- The filter that is sent again for a key.
unfoldable pub filter_of : SubKey → SubscriptionFilter
filter_of k = record {
  type_ = k.typ;
  coin = k.coin;
  user = k.user;
  interval = k.interval;
  dex = k.dex;
}

-- The channels of the pending requests, closed.
unfoldable pub close_pending : Dict ℤ ℕ → Dict ℕ Chan → Dict ℕ Chan
close_pending [] heap = heap
close_pending ((id, c) ∷ m) heap =
    let rest = close_pending m heap in
    elim (lookup c rest) [ none ↦ rest | some ch ↦ insert c (record ch { is_closed = true }) rest ]

module _ (net : Net) where
  open net use {World, dial, write}

  abbrev wrote : Stream World → World × Bool → Stream World × Outcome (Unit {0})
  wrote s (w, true) = (record s { world = w }, done tt)
  wrote s (w, false) = (record s { world = w }, failed write_failed)

  -- `writeJSON`: the read lock waits for a writer, here one that never releases the lock, and keeps
  -- writeMu meanwhile.
  unfoldable pub write_json : Frame → Stream World → Stream World × Outcome (Unit {0})
  write_json f s =
      if s.writing
      then (s, blocked)
      else if not s.connected
      then (s, failed not_connected)
      else if s.locked
      then (record s { writing = true }, blocked)
      else if not s.conn
      then (s, failed connection_closed)
      else wrote s (write s.world f)

  unfoldable pub send_subscribe :
      SubscriptionFilter → Stream World → Stream World × Outcome (Unit {0})
  send_subscribe f s = write_json (subscribe_frame f) s

  unfoldable pub send_unsubscribe :
      SubscriptionFilter → Stream World → Stream World × Outcome (Unit {0})
  send_unsubscribe f s = write_json (unsubscribe_frame f) s

  unfoldable pub send_ping : Stream World → Stream World × Outcome (Unit {0})
  send_ping s = write_json ping_frame s

  abbrev pub resubscribe : List SubKey → Stream World → Stream World × Outcome (Unit {0})
  resubscribe [] s = (s, done tt)
  resubscribe (k ∷ ks) s = after (send_subscribe (filter_of k) s) λ _. resubscribe ks

  -- `resubscribeAll`
  unfoldable pub resubscribe_all : Stream World → Stream World × Outcome (Unit {0})
  resubscribe_all s = resubscribe (active_keys s.subscriptions) s

  -- The end of `Connect`: the deferred unlock runs when the function returns.
  abbrev pub connect_end : Stream World × Outcome (Unit {0}) → Stream World × Outcome (Unit {0})
  connect_end (s, done _) = (record s { locked = false }, done tt)
  connect_end (s, failed _) =
      (record s { connected = false; conn = false; locked = false }, failed resubscribe_failed)
  connect_end (s, blocked) = (s, blocked)

  -- `Connect` from the dial on, under the lock.
  abbrev pub connect_dialed : Stream World → World × Bool → Stream World × Outcome (Unit {0})
  connect_dialed s (w, false) = (record s { world = w; locked = false }, failed dial_failed)
  connect_dialed s (w, true) = connect_end (
      resubscribe_all
        (record s { world = w; conn = true; connected = true; reconnect_attempts = 0 }))

  -- `Connect`, run by one goroutine once the pumps of the connection before have ended.
  unfoldable pub connect : Stream World → Stream World × Outcome (Unit {0})
  connect s =
      if s.closed
      then (s, failed client_closed)
      else if s.connected
      then (s, done tt)
      else if s.locked
      then (s, blocked)
      else connect_dialed (record s { locked = true; conn = false }) (dial s.world)

  -- `Close`; a second call waits for the first. It waits for the lock last; the flags, the timer and the requests are done with by then.
  unfoldable pub close : Stream World → Stream World × Outcome (Unit {0})
  close s =
      if s.closed
      then (s, (if s.locked then blocked else done tt))
      else let t = record s {
        closed = true;
        connected = false;
        reconnect_timer = none;
        channels = close_pending s.pending_requests s.channels;
        pending_requests = [];
      } in
        if s.locked then (t, blocked) else (record t { conn = false }, done tt)
