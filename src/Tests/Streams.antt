-- ===== src/Tests/Streams.antt =====
-- Concrete runs of the WebSocket client.
use hyperliquid_go.Stream.Proofs.Closing.{close-cancelled}
use Prim.Native.Nat.{ℕ, ◌*◌, ◌/◌, ◌^◌, ◌<◌, suc, ◌-◌}
use hyperliquid_go.Base.{
  ==_iff, refl, [], ◌∷◌, ◌≡◌, Option, some, none, true, false, str_beq, arith, ==_iff, ◌∙◌,
}
use hyperliquid_go.Base.Text.{codes}
use hyperliquid_go.Base.Dict.{lookup}
use hyperliquid_go.Base.Int.{int_eq, ℤ, pos, ◌≤ℤ◌}
use hyperliquid_go.Stream.Messages.{WsMessage, SubKey, SubscriptionFilter, key, book}
use hyperliquid_go.Stream.State.{request_cancelled, failed, Net, Stream, done, blocked}
use hyperliquid_go.Stream.Connection.{active_keys, connect, close}
use hyperliquid_go.Stream.Registry.{subscribe, Subscription, close_subscription, listeners}
use hyperliquid_go.Stream.Dispatch.{dispatch}
use hyperliquid_go.Stream.Post.{Waiting, post_start, post_end, from_channel}
use hyperliquid_go.Stream.Reconnect.{schedule_reconnect, jitter_of, second, reconnect_base_wait}
use hyperliquid_go.Stream.Proofs.Connecting.{connect-deadlock}
use hyperliquid_go.Stream.Proofs.Delays.{schedule_reconnect-overflow}
use hyperliquid_go.Stream.Proofs.ListenerMap.{listener}
use hyperliquid_go.Stream.Proofs.Listeners.{Subscribed, subscribe-Subscribed, subscribe-close}
use hyperliquid_go.Stream.Proofs.Requests.{IsWaiting, post_end-response, post_start-IsWaiting}
use hyperliquid_go.Tests.Floats.{tenths}

-- A server that accepts every connection and every frame; each message is about BTC.
abbrev server : Net
server = record {
  World = ℕ;
  dial = λ w. (suc w, true);
  write = λ w f. (suc w, true);
  coin_and_user = λ d. some (codes "BTC", []);
  decode_post = λ d. some (record { id = pos 1; response_type = codes "info"; payload = d });
  equal_fold = str_beq;
}

abbrev idle : Stream ℕ
idle = record {
  world = 0;
  connected = false;
  closed = false;
  conn = false;
  locked = false;
  writing = false;
  subscriptions = [];
  next_sub_id = 0;
  reconnect_timer = none;
  reconnect_attempts = 0;
  max_reconnect_attempts = 0;
  reconnect_wait = reconnect_base_wait;
  next_post_id = 0;
  pending_requests = [];
  channels = [];
  next_channel = 0;
  called = [];
}

abbrev btc_trades : SubKey
btc_trades = record { typ = codes "trades"; coin = codes "BTC"; user = []; interval = []; dex = [] }

-- The same client with a listener, number 9, on the trades of BTC.
abbrev listening : Stream ℕ
listening = record idle { subscriptions = (btc_trades, (pos 1, 9) ∷ []) ∷ []; next_sub_id = 1 }

connect-deadlock_example :
    let (t, r) = connect server listening in
    (r ≡ blocked)
    × (t.locked ≡ true)
    × ((f : SubscriptionFilter) (cb : ℕ) → (subscribe server f (some cb) t).1 ≡ blocked)
    × ((close server t).1 ≡ blocked)
    × ((f : SubscriptionFilter) (cb : ℕ)
        → (subscribe server f (some cb) (close server t).0).1 ≡ blocked)
unfolding active_keys
connect-deadlock_example =
    connect-deadlock server listening (refl, refl, refl) refl (λ e. absurd (ground arith))

-- The same client after 54 failed attempts.
abbrev failing : Stream ℕ
failing = record idle { reconnect_attempts = 54 }

schedule_reconnect-overflow_example :
    (d : ℤ) × ((schedule_reconnect server tenths (pos 9) failing).reconnect_timer ≡ some d)
    × (pos (100 * 365 * 24 * 3600 * second) ≤ℤ d)
unfolding jitter_of
schedule_reconnect-overflow_example =
    schedule_reconnect-overflow server tenths (pos 9) failing (2 ^ 64 * 8 / 100 - 1) refl refl refl
      refl refl (omega arith)

abbrev trade : WsMessage
trade = record { channel = codes "trades"; data_ = [] }

subscribe-Subscribed_example :
    Subscribed server
      (book (codes "ETH"))
      5
      listening
      (subscribe server (book (codes "ETH")) (some 5) listening)
unfolding listeners lookup key book hyperliquid_go.Base.str_beq
subscribe-Subscribed_example = subscribe-Subscribed server (book (codes "ETH")) 5 listening refl

-- The handle that a subscription to the book of ETH returns.
abbrev book_handle : Subscription
book_handle = record { filter = book (codes "ETH"); id = pos 2; closed = false }

-- The listening client, connected.
abbrev online : Stream ℕ
online = record listening { connected = true; conn = true }

subscribe-close_example :
    listener
      (key (book (codes "ETH")))
      (pos 2)
      (close_subscription server
        (some book_handle)
        (subscribe server (book (codes "ETH")) (some 5) online).0).1.0.subscriptions
    ≡ none
unfolding listeners lookup key book hyperliquid_go.Base.str_beq subscribe
    hyperliquid_go.Stream.Connection.send_subscribe hyperliquid_go.Stream.Connection.write_json
    hyperliquid_go.Stream.Registry.register
subscribe-close_example =
    subscribe-close server (book (codes "ETH")) 5 online
      (subscribe server (book (codes "ETH")) (some 5) online).0 book_handle refl refl
      (key (book (codes "ETH"))) (pos 2)

-- One request is under way, on a connected client.
abbrev asked : Stream ℕ
asked = record idle {
  connected = true;
  conn = true;
  next_post_id = 1;
  pending_requests = (pos 1, 0) ∷ [];
  channels = (0, record { buffer = none; is_closed = false }) ∷ [];
  next_channel = 1;
}

abbrev request : Waiting
request = record { id = pos 1; chan = 0 }

asked-IsWaiting : IsWaiting request asked
unfolding lookup
asked-IsWaiting = (refl, refl, λ id h. ground (arith, ==_iff (pos 1) id))

abbrev answer : WsMessage
answer = record { channel = codes "post"; data_ = codes "{}" }

post_end-response_example :
    (post_end server request from_channel (dispatch server answer asked)).1
    ≡ done (record { id = pos 1; response_type = codes "info"; payload = codes "{}" })
post_end-response_example =
    post_end-response server request answer
      (record { id = pos 1; response_type = codes "info"; payload = codes "{}" }) asked
      asked-IsWaiting refl refl

no_request : (id : ℤ) (c : ℕ) → lookup id idle.pending_requests ≡ some c → c < 0
unfolding lookup
no_request id c h = absurd (ground arith)

post_start-IsWaiting_example :
    IsWaiting request
      (post_start server
        (codes "info")
        (codes "{}")
        (record idle { connected = true; conn = true })).0
unfolding post_start hyperliquid_go.Stream.Connection.write_json
    hyperliquid_go.Stream.Post.open_request
post_start-IsWaiting_example =
    post_start-IsWaiting server (codes "info") (codes "{}")
      (record idle { connected = true; conn = true }) _ request (λ id c h. no_request id c h) refl

-- A client with one request that waits.
abbrev asking : Stream ℕ
asking = record idle {
  connected = true;
  conn = true;
  pending_requests = (pos 1, 0) ∷ [];
  channels = (0, record { buffer = none; is_closed = false }) ∷ [];
}

close-cancelled_example :
    (post_end server (record { id = pos 1; chan = 0 }) from_channel (close server asking).0).1
    ≡ failed request_cancelled
unfolding lookup
close-cancelled_example =
    close-cancelled server (record { id = pos 1; chan = 0 })
      (record { buffer = none; is_closed = false }) asking refl refl refl refl
