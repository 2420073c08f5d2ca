-- ===== src/Stream/State.antt =====
-- stream/stream.go: the state of the WebSocket client, and the network it runs on.
use hyperliquid_go.Base.{ℕ, ◌+◌, ◌%◌, ◌^◌, ◌-◌, Bool, Option, List, ltb, if◌then◌else◌}
use hyperliquid_go.Base.Dict.{Dict}
use hyperliquid_go.Base.Text.{Str}
use hyperliquid_go.Base.Int.{ℤ, pos, negsuc}
use hyperliquid_go.Stream.Messages.{WsMessage, SubKey, Frame, PostResponse}

-- What stands outside the repository: the server behind the socket with a state of its own, and the
-- decoders of package json. `none` is an error.
pub record Net : Type 1 where
  pub World : Type 0
  -- `DialContext`; true is success.
  pub dial : World → World × Bool
  -- `conn.WriteMessage`; true is success.
  pub write : World → Frame → World × Bool
  -- The fields `coin` and `user` of a JSON object; a missing one is empty.
  pub coin_and_user : Str → Option (Str × Str)
  pub decode_post : Str → Option PostResponse
  -- `strings.EqualFold`
  pub equal_fold : Str → Str → Bool

-- A channel with a buffer of one.
pub record Chan : Type 0 where
  pub buffer : Option PostResponse
  pub is_closed : Bool

-- `Client`. Callbacks are known by a number. `locked` is the write lock of connMu, held, and `writing`
-- is writeMu, held by a call that never returns; the other locks are released before the operation
-- that takes them returns. Channels live on a heap, since the
-- map of pending requests and the waiting call share them. `called` records the callbacks' runs.
pub record Stream (W : Type 0) : Type 0 where
  pub world : W
  pub connected : Bool
  pub closed : Bool
  pub conn : Bool
  pub locked : Bool
  pub writing : Bool
  pub subscriptions : Dict SubKey (Dict ℤ ℕ)
  -- The bit pattern of the int32.
  pub next_sub_id : ℕ
  pub reconnect_timer : Option ℤ
  pub reconnect_attempts : ℕ
  pub max_reconnect_attempts : ℕ
  pub reconnect_wait : ℤ
  pub next_post_id : ℕ
  pub pending_requests : Dict ℤ ℕ
  pub channels : Dict ℕ Chan
  pub next_channel : ℕ
  pub called : List (ℕ × WsMessage)

pub data Fault : Type 0 where
  client_closed not_connected connection_closed write_failed dial_failed resubscribe_failed : Fault
  callback_nil subscription_not_found subscription_id_not_found : Fault
  request_cancelled request_timeout : Fault
  info_error action_error : Str → Fault

-- A call returns a value or an error, or waits for ever.
pub data Outcome (A : Type 0) : Type 0 where
  done : A → Outcome A
  failed : Fault → Outcome A
  blocked : Outcome A

-- Runs the rest of a function after a call that must succeed.
abbrev pub after :
    {W A B : Type 0}
    → Stream W × Outcome A
    → (A → Stream W → Stream W × Outcome B)
    → Stream W × Outcome B
after (s, done a) k = k a s
after (s, failed e) k = (s, failed e)
after (s, blocked) k = (s, blocked)

-- `atomic.Int32.Add(1)` on the bit pattern, and the value of a bit pattern.
abbrev pub next32 : ℕ → ℕ
next32 n = (n + 1) % 2 ^ 32

abbrev pub int32 : ℕ → ℤ
int32 n = if ltb n (2 ^ 31) then pos n else negsuc (2 ^ 32 - n - 1)
