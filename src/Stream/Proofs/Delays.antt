-- ===== src/Stream/Proofs/Delays.antt =====
-- The delay before a reconnection attempt.
use Prim.Native.Nat.{ℕ, ◌+◌, ◌-◌, ◌*◌, ◌^◌, ◌≤◌, ◌<◌}
use hyperliquid_go.Base.{◌≡◌, refl, arith, false, true, if◌then◌else◌, leb, ltb, some, ◌&&◌}
use hyperliquid_go.Base.Int.{magnitude, ℤ, pos, negsuc, ◌≤ℤ◌}
use hyperliquid_go.Float.{Float, le, zero_f}
use hyperliquid_go.Stream.State.{Net, Stream}
use hyperliquid_go.Stream.Reconnect.{
  second, raw_backoff, backoff_of, delay_of, jitter_of, schedule_reconnect, reconnect_base_wait,
}

abbrev pub min : ℕ → ℕ → ℕ
min a b = if leb a b then a else b

-- The backoff without overflow: the base wait doubled for each attempt, up to a minute.
abbrev pub ideal_backoff : ℕ → ℕ
ideal_backoff n = min (second * 2 ^ (n - 1)) (60 * second)

-- The 55th backoff is the least int64.
backoff_of-55 : backoff_of reconnect_base_wait 55 ≡ negsuc (2 ^ 63 - 1)
unfolding backoff_of raw_backoff
backoff_of-55 = refl

abbrev times_five : ℤ → ℤ
times_five (pos n) = pos (5 * n)
times_five (negsuc n) = negsuc (5 * n + 4)

-- Between a second and six fifths of the backoff, and no less than four fifths of it.
abbrev pub InRange : ℕ → ℤ → Type 0
InRange b d = (pos second ≤ℤ d) × (pos (4 * b) ≤ℤ times_five d) × (times_five d ≤ℤ pos (6 * b))

delay-wraps :
    (m : ℕ)
    → m < 2 ^ 62
    → pos (100 * 365 * 24 * 3600 * second) ≤ℤ delay_of (negsuc (2 ^ 63 - 1)) (negsuc m)
unfolding delay_of
delay-wraps m h = ground arith

module _ (net : Net) (fl : Float) where
  open net use {World}
  open fl use {F, lt, lit, of_int, mul, sub, abs, to_int}

  -- Three laws of IEEE 754, for a backoff of up to a minute in nanoseconds: twice a number in [0, 1)
  -- less one is at most one in absolute value; the truncated product with 0.2 is at most a fifth; and
  -- a factor of at most one in absolute value does not make a truncated product larger.
  pub record JitterLaws : Type 0 where
    pub centred :
        (r : F)
        → le fl (zero_f fl) r ≡ true
        → lt r (lit 1 0) ≡ true
        → le fl (abs (sub (mul (lit 2 0) r) (lit 1 0))) (lit 1 0) ≡ true
    pub fifth :
        (b : ℕ) → b ≤ 60 * second → magnitude (to_int (mul (of_int (pos b)) (lit 2 1))) * 5 ≤ b
    pub damped :
        (x y : F)
        → le fl (abs y) (lit 1 0) ≡ true
        → magnitude (to_int (mul x y)) ≤ magnitude (to_int x)

  abbrev Retries : Stream World → Type 0
  Retries s =
      (s.closed ≡ false)
      × ((ltb 0 s.max_reconnect_attempts && ltb s.max_reconnect_attempts (s.reconnect_attempts + 1))
          ≡ false)

  -- What `scheduleReconnect` does short of giving up, by the backoff.
  schedule_reconnect-timer :
      (r : F) (s : Stream World) (b : ℤ)
      → Retries s
      → backoff_of s.reconnect_wait (s.reconnect_attempts + 1) ≡ b
      → let t = schedule_reconnect net fl r s in
        (t.reconnect_attempts ≡ s.reconnect_attempts + 1)
        × (t.reconnect_timer ≡ some (delay_of b (jitter_of fl b r)))
  unfolding schedule_reconnect
  schedule_reconnect-timer r s b (open_, going) e = rw (open_, going, e) (refl, refl)

  -- At the 55th attempt of an open client with the base wait and no cap on its attempts, a negative
  -- jitter above -(2 ^ 62) - 1 takes the sum past the least int64: the timer is set to more than a
  -- hundred years.
  pub schedule_reconnect-overflow :
      (r : F) (s : Stream World) (m : ℕ)
      → s.closed ≡ false
      → s.max_reconnect_attempts ≡ 0
      → s.reconnect_wait ≡ reconnect_base_wait
      → s.reconnect_attempts ≡ 54
      → jitter_of fl (negsuc (2 ^ 63 - 1)) r ≡ negsuc m
      → m < 2 ^ 62
      → (d : ℤ) × ((schedule_reconnect net fl r s).reconnect_timer ≡ some d)
        × (pos (100 * 365 * 24 * 3600 * second) ≤ℤ d)
  schedule_reconnect-overflow r s m open_ free base n j small =
      let b = negsuc (2 ^ 63 - 1) in
      let e : (backoff_of s.reconnect_wait (s.reconnect_attempts + 1) ≡ b) =
        rw (base, n) backoff_of-55 in
      (
        delay_of b (jitter_of fl b r),
        (schedule_reconnect-timer r s b (open_, ground arith) e).1,
        rw j (delay-wraps m small),
      )
