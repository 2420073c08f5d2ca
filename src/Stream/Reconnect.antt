-- ===== src/Stream/Reconnect.antt =====
-- stream/reconnect.go: the teardown of a lost connection and the delay of the next attempt.
use hyperliquid_go.Base.{
  List, [], ◌∷◌, ℕ, ◌+◌, ◌-◌, ◌*◌, ◌^◌, false, ◌&&◌, ◌||◌, none, some, ltb, if◌then◌else◌,
}
use hyperliquid_go.Base.Int.{ℤ, pos, to_int64, of_int64, add64, ltb_ℤ}
use hyperliquid_go.Float.{Float}
use hyperliquid_go.Stream.State.{Net, Stream, Outcome, done, failed, blocked}
use hyperliquid_go.Stream.Connection.{connect}

-- Durations count nanoseconds.
abbrev pub second : ℕ
second = 1000000000

abbrev pub max_reconnect_wait : ℤ
max_reconnect_wait = pos (60 * second)

abbrev pub reconnect_base_wait : ℤ
reconnect_base_wait = pos second

-- `wait * time.Duration(1<<(attempts-1))` on int64: the product modulo 2 ^ 64, the shift included.
unfoldable pub raw_backoff : ℤ → ℕ → ℤ
raw_backoff wait attempts = to_int64 (of_int64 wait * 2 ^ (attempts - 1))

unfoldable pub backoff_of : ℤ → ℕ → ℤ
backoff_of wait attempts =
    let b = raw_backoff wait attempts in
    if ltb_ℤ max_reconnect_wait b then max_reconnect_wait else b

-- The delay, by the backoff and the jitter.
unfoldable pub delay_of : ℤ → ℤ → ℤ
delay_of backoff jitter =
    let d = add64 backoff jitter in if ltb_ℤ d (pos second) then pos second else d

module _ (fl : Float) where
  open fl use {F, lit, of_int, mul, sub, to_int}

  -- `time.Duration(float64(backoff) * 0.2 * (2*r - 1))`, with `r` from the random source.
  unfoldable pub jitter_of : ℤ → F → ℤ
  jitter_of backoff r =
      to_int (mul (mul (of_int backoff) (lit 2 1)) (sub (mul (lit 2 0) r) (lit 1 0)))

module _ (net : Net) (fl : Float) where
  open net use {World}
  open fl use {F}

  -- `scheduleReconnect`; `r` is the next random number. Giving up leaves the stopped timer.
  unfoldable pub schedule_reconnect : F → Stream World → Stream World
  schedule_reconnect r s =
      let attempts = s.reconnect_attempts + 1 in
      let backoff = backoff_of s.reconnect_wait attempts in
      let t = record s { reconnect_attempts = attempts; reconnect_timer = none } in
      if s.closed
      then s
      else if ltb 0 s.max_reconnect_attempts && ltb s.max_reconnect_attempts attempts
      then t
      else record t { reconnect_timer = some (delay_of backoff (jitter_of fl backoff r)) }

  -- `handleDisconnect`
  unfoldable pub handle_disconnect : F → Stream World → Stream World × Outcome (Unit {0})
  handle_disconnect r s =
      let t = record s { connected = false } in
      if s.closed
      then (s, done tt)
      else if s.locked
      then (t, blocked)
      else (schedule_reconnect r (record t { conn = false }), done tt)

  abbrev pub reconnected : F → Stream World × Outcome (Unit {0}) → Stream World × Outcome (Unit {0})
  reconnected r (s, done _) = (s, done tt)
  reconnected r (s, failed e) = (schedule_reconnect r s, failed e)
  reconnected r (s, blocked) = (s, blocked)

  -- The function of the timer; it has fired, so it is no longer armed.
  unfoldable pub reconnect_fired : F → Stream World → Stream World × Outcome (Unit {0})
  reconnect_fired r s =
      let t = record s { reconnect_timer = none } in
      if s.closed || s.connected then (t, done tt) else reconnected r (connect net t)

  -- The timer runs its function as often as it is armed again, at most once for each random number.
  unfoldable pub run_timer : List F → Stream World → Stream World
  run_timer [] s = s
  run_timer (r ∷ rs) s = elim s.reconnect_timer [
    | none ↦ s
    | some d ↦ run_timer rs (reconnect_fired r s).0
  ]
