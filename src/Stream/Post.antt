-- ===== src/Stream/Post.antt =====
-- stream/post.go: a request over the socket, as its two halves, before and after the wait.
use hyperliquid_go.Base.{ℕ, ◌+◌, false, not, Option, none, some, str_eq, nat_eq, if◌then◌else◌}
use hyperliquid_go.Base.Dict.{lookup, insert, erase}
use hyperliquid_go.Base.Text.{Str}
use hyperliquid_go.Base.Int.{int_eq, ℤ}
use hyperliquid_go.Stream.Messages.{PostResponse, post_frame}
use hyperliquid_go.Stream.State.{
  Net, Chan, Stream, Outcome, done, failed, blocked, not_connected, request_cancelled,
  request_timeout, next32, int32,
}
use hyperliquid_go.Stream.Connection.{write_json}

-- The waiting call: its request's id and its channel.
pub record Waiting : Type 0 where
  pub id : ℤ
  pub chan : ℕ

-- What ends the wait. Which of two ready cases `select` takes is not determined, so it is an argument.
pub data Wake : Type 0 where
  from_channel from_timer : Wake

module _ (net : Net) where
  open net use {World}

  -- The deferred removal.
  unfoldable pub forget : ℤ → Stream World → Stream World
  forget id s = record s { pending_requests = erase id s.pending_requests }

  -- The state with a new channel, pending under the next id.
  unfoldable pub open_request : Stream World → Stream World
  open_request s =
      let id = next32 s.next_post_id in
      record s {
        next_post_id = id;
        channels = insert s.next_channel (record { buffer = none; is_closed = false }) s.channels;
        next_channel = s.next_channel + 1;
        pending_requests = insert (int32 id) s.next_channel s.pending_requests;
      }

  abbrev pub post_sent :
      Waiting → Stream World × Outcome (Unit {0}) → Stream World × Outcome Waiting
  post_sent w (s, done _) = (s, done w)
  post_sent w (s, failed e) = (forget w.id s, failed e)
  post_sent w (s, blocked) = (s, blocked)

  -- `Post` up to the `select`.
  unfoldable pub post_start : Str → Str → Stream World → Stream World × Outcome Waiting
  post_start request_type payload s =
      let id = int32 (next32 s.next_post_id) in
      if not s.connected
      then (s, failed not_connected)
      else post_sent (record { id = id; chan = s.next_channel })
          (write_json net (post_frame id request_type payload) (open_request s))

  -- A receive: the buffer first, then the closed channel; an empty open channel is not ready.
  unfoldable pub receive : Option Chan → Outcome PostResponse
  receive none = blocked
  receive (some ch) = elim ch.buffer [
    | some r ↦ done r
    | none ↦ if ch.is_closed then failed request_cancelled else blocked
  ]

  -- `Post` from the `select` on.
  unfoldable pub post_end : Waiting → Wake → Stream World → Stream World × Outcome PostResponse
  post_end w from_timer s = (forget w.id s, failed request_timeout)
  post_end w from_channel s = elim (receive (lookup w.chan s.channels)) [
    | done r ↦ (forget w.id s, done r)
    | failed e ↦ (forget w.id s, failed e)
    | blocked ↦ (s, blocked)
  ]
