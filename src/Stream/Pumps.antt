-- ===== src/Stream/Pumps.antt =====
-- stream/stream.go: the two goroutines of a connection, each run by itself.
use hyperliquid_go.Base.{
  zero, suc, ℕ, Option, none, some, List, [], ◌∷◌, ◌==◌, str_eq, if◌then◌else◌,
}
use hyperliquid_go.Base.Text.{Str, codes}
use hyperliquid_go.Float.{Float}
use hyperliquid_go.Stream.Messages.{WsMessage}
use hyperliquid_go.Stream.State.{Net, Stream, Outcome}
use hyperliquid_go.Stream.Connection.{send_ping}
use hyperliquid_go.Stream.Dispatch.{dispatch}
use hyperliquid_go.Stream.Reconnect.{handle_disconnect}

module _ (net : Net) (fl : Float) (decode_message : Str → Option WsMessage) where
  open net use {World}
  open fl use {F}

  -- One message: the server's greeting and what does not parse are skipped.
  unfoldable pub read_message : Str → Stream World → Stream World
  read_message raw s =
      if raw == codes "Websocket connection established."
      then s
      else elim (decode_message raw) [ none ↦ s | some msg ↦ dispatch net msg s ]

  unfoldable pub read_messages : List Str → Stream World → Stream World
  read_messages [] s = s
  read_messages (raw ∷ raws) s = read_messages raws (read_message raw s)

  -- `readPump`: the messages up to the read error, then the deferred teardown.
  unfoldable pub read_pump : F → List Str → Stream World → Stream World × Outcome (Unit {0})
  read_pump r raws s = handle_disconnect net fl r (if s.conn then read_messages raws s else s)

  -- `pingPump`, for as many ticks. An error of a ping is logged only, and a ping that waits for the lock
  -- changes nothing.
  unfoldable pub ping_pump : ℕ → Stream World → Stream World
  ping_pump zero s = s
  ping_pump (suc ticks) s = ping_pump ticks (send_ping net s).0
