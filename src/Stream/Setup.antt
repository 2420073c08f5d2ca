-- ===== src/Stream/Setup.antt =====
-- stream/stream.go and stream/logger.go: `New` and the setters that the facade calls.
use hyperliquid_go.Base.{ℕ, false, Option, none, some, [], if◌then◌else◌}
use hyperliquid_go.Base.Text.{Str, codes}
use hyperliquid_go.Base.Int.{ℤ, pos, pos_part, ltb_ℤ}
use hyperliquid_go.Http.{base_or_mainnet}
use hyperliquid_go.Stream.State.{Stream}
use hyperliquid_go.Stream.Reconnect.{reconnect_base_wait}

-- Package net/url: the parser, the two fields that are set, and the printer.
pub record Urls : Type 1 where
  pub Url : Type 0
  pub parse : Str → Option Url
  pub set_scheme : Str → Url → Url
  pub set_path : Str → Url → Url
  pub print : Url → Str

-- `Logger`, known by a number; the logger that discards every call is `none`.
abbrev pub Logger : Type 0
Logger = Option ℕ

-- A client with its URL and its logger, which the operations on the connection do not change.
pub record StreamClient (W : Type 0) : Type 0 where
  pub url : Str
  pub logger : Logger
  pub stream : Stream W

-- The state of a new client.
abbrev pub fresh_stream : {W : Type 0} → W → Stream W
fresh_stream w = record {
  world = w;
  connected = false;
  closed = false;
  conn = false;
  locked = false;
  writing = false;
  subscriptions = [];
  next_sub_id = 0;
  reconnect_timer = none;
  reconnect_attempts = 0;
  max_reconnect_attempts = 0;
  reconnect_wait = reconnect_base_wait;
  next_post_id = 0;
  pending_requests = [];
  channels = [];
  next_channel = 0;
  called = [];
}

-- The address of the socket: the base URL, mainnet where it is empty, as `wss` and at `/ws`.
unfoldable pub ws_url : Urls → Str → Option Str
ws_url urls base_url = elim (urls.parse (base_or_mainnet base_url)) [
  | none ↦ none
  | some u ↦ some (urls.print (urls.set_path (codes "/ws") (urls.set_scheme (codes "wss") u)))
]

-- The new client at an address, where there is one.
abbrev pub stream_at : {W : Type 0} → W → Option Str → Option (StreamClient W)
stream_at w none = none
stream_at w (some url) = some (record { url = url; logger = none; stream = fresh_stream w })

-- `New`; `none` is the error of a base URL that does not parse.
unfoldable pub new_stream : {W : Type 0} → Urls → Str → W → Option (StreamClient W)
new_stream urls base_url w = stream_at w (ws_url urls base_url)

-- `SetLogger`
unfoldable pub set_logger : {W : Type 0} → Logger → StreamClient W → StreamClient W
set_logger l c = record c { logger = l }

-- `SetMaxReconnectAttempts`. A maximum below zero acts as zero: both mean no maximum.
unfoldable pub set_max_reconnect_attempts : {W : Type 0} → ℤ → StreamClient W → StreamClient W
set_max_reconnect_attempts n c = record c {
  stream = record c.stream { max_reconnect_attempts = pos_part n };
}

-- `SetReconnectWait`
unfoldable pub set_reconnect_wait : {W : Type 0} → ℤ → StreamClient W → StreamClient W
set_reconnect_wait d c =
    if ltb_ℤ (pos 0) d then record c { stream = record c.stream { reconnect_wait = d } } else c
