-- ===== src/Stream/Proofs/GivingUp.antt =====
-- The reconnect timer under a maximum of attempts: one series of failed attempts ends.
use hyperliquid_go.Base.{
  ◌≤◌, if_eq_true, if_eq_false, ap, suc, ℕ, ◌+◌, ◌<◌, Bool, true, false, ◌||◌, none, some, List, [],
  ◌∷◌, ◌≡◌, refl, ◌⊎◌, inl, inr, arith, length, ltb, Bool-cases, subst, sym,
}
use hyperliquid_go.Base.Int.{ℤ}
use hyperliquid_go.Float.{Float}
use hyperliquid_go.Stream.State.{Net, Stream, Outcome, done, failed, blocked}
use hyperliquid_go.Stream.Connection.{
  connect, connect_end, connect_dialed, resubscribe, resubscribe_all, send_subscribe, write_json,
  active_keys,
}
use hyperliquid_go.Stream.Proofs.Connecting.{connect-Dials, first-blocked}
use hyperliquid_go.Stream.Reconnect.{
  jitter_of, backoff_of, delay_of, schedule_reconnect, reconnect_fired, reconnected, run_timer,
}

module _ (net : Net) where
  open net use {World}

  -- Why a client does not try again by itself: a connected one does only after the next disconnect.
  abbrev pub HasStopped : Stream World → Type 0
  HasStopped s =
      (s.closed ≡ true)
      ⊎ (s.connected ≡ true)
      ⊎ (s.locked ≡ true)
      ⊎ (s.max_reconnect_attempts < s.reconnect_attempts)

  -- What a `Connect` leaves behind whose timer is not armed: the client has stopped, or it failed
  -- and has its attempts as before.
  abbrev Connected : Stream World → Stream World × Outcome (Unit {0}) → Type 0
  Connected s (t, done _) = (t.reconnect_timer ≡ none) × HasStopped t
  Connected s (t, blocked) = (t.reconnect_timer ≡ none) × HasStopped t
  Connected s (t, failed e) =
      (t.reconnect_attempts ≡ s.reconnect_attempts)
      × (t.max_reconnect_attempts ≡ s.max_reconnect_attempts)
      × (t.closed ≡ s.closed)

  resubscribe-Connected :
      (ks : List _) (s t : Stream World)
      → t.connected ≡ true
      → t.locked ≡ true
      → t.reconnect_timer ≡ none
      → Connected s (connect_end net (resubscribe net ks t))
  unfolding send_subscribe write_json
  resubscribe-Connected [] s t c l n = (n, inr (inl c))
  resubscribe-Connected (k ∷ ks) s t c l n =
      rw (first-blocked net (k ∷ ks) t (λ e. absurd cc) c l) (n, inr (inr (inl l)))

  dialed-Connected :
      (s t : Stream World) (d : World × Bool)
      → t.locked ≡ true
      → t.reconnect_timer ≡ none
      → t.reconnect_attempts ≡ s.reconnect_attempts
      → t.max_reconnect_attempts ≡ s.max_reconnect_attempts
      → t.closed ≡ s.closed
      → Connected s (connect_dialed net t d)
  unfolding resubscribe_all
  dialed-Connected s t (w, true) l n a m o =
      resubscribe-Connected (active_keys t.subscriptions) s
        (record t { world = w; conn = true; connected = true; reconnect_attempts = 0 }) refl l n
  dialed-Connected s t (w, false) l n a m o = (a, m, o)

  connect-locked :
      (s : Stream World)
      → s.closed ≡ false
      → s.connected ≡ false
      → s.locked ≡ true
      → (s, blocked) ≡ connect net s
  unfolding connect
  connect-locked s o c l = ground arith

  connect-Connected :
      (s : Stream World)
      → s.closed ≡ false
      → s.connected ≡ false
      → s.reconnect_timer ≡ none
      → Connected s (connect net s)
  connect-Connected s o c n = elim (Bool-cases s.locked) [
    | inl l ↦ subst (Connected s) (connect-locked s o c l) (n, inr (inr (inl l)))
    | inr l ↦ subst (Connected s) (sym (connect-Dials net s (o, c, l))) (
        dialed-Connected s (record s { locked = true; conn = false }) (net.dial s.world) refl n refl
          refl refl)
  ]

module _ (net : Net) (fl : Float) where
  open net use {World}
  open fl use {F}

  -- A client that has stopped with its timer off, or is to try again in `left` rounds at most.
  abbrev Ends : ℕ → Stream World → Type 0
  Ends left s =
      ((s.reconnect_timer ≡ none) × HasStopped net s)
      ⊎ ((d : ℤ) × (s.reconnect_timer ≡ some d)
          × (0 < s.max_reconnect_attempts)
          × (s.reconnect_attempts ≤ s.max_reconnect_attempts)
          × (s.max_reconnect_attempts < s.reconnect_attempts + left))

  schedule-Ends :
      (left : ℕ) (r : F) (s t : Stream World)
      → 0 < s.max_reconnect_attempts
      → s.max_reconnect_attempts < s.reconnect_attempts + suc left
      → (t.reconnect_attempts ≡ s.reconnect_attempts)
        × (t.max_reconnect_attempts ≡ s.max_reconnect_attempts)
        × (t.closed ≡ s.closed)
      → s.closed ≡ false
      → Ends left (schedule_reconnect net fl r t)
  unfolding schedule_reconnect
  schedule-Ends left r s t p h (a, m, o) c =
      elim (Bool-cases (ltb t.max_reconnect_attempts (t.reconnect_attempts + 1))) [
        | inl over ↦
            inl (ground (arith, over, a, m, o), inr (inr (inr (ground (arith, over, a, m, o)))))
        | inr more ↦ inr (
          delay_of (backoff_of t.reconnect_wait (t.reconnect_attempts + 1))
              (jitter_of fl (backoff_of t.reconnect_wait (t.reconnect_attempts + 1)) r),
          ground (arith, a, m, o),
          ground (arith, a, m, o),
          ground (arith, a, m, o),
          ground (arith, a, m, o),
        )
      ]

  reconnected-Ends :
      (left : ℕ) (r : F) (s : Stream World) (c : Stream World × Outcome (Unit {0}))
      → 0 < s.max_reconnect_attempts
      → s.max_reconnect_attempts < s.reconnect_attempts + suc left
      → s.closed ≡ false
      → Connected net s c
      → Ends left (reconnected net fl r c).0
  reconnected-Ends left r s (t, done _) p h o k = inl k
  reconnected-Ends left r s (t, blocked) p h o k = inl k
  reconnected-Ends left r s (t, failed e) p h o k = schedule-Ends left r s t p h k o

  fired_off :
      (r : F) (s : Stream World)
      → s.closed || s.connected ≡ true
      → (reconnect_fired net fl r s).0 ≡ record s { reconnect_timer = none }
  unfolding reconnect_fired
  fired_off r s e = ap (λ (x : Stream World × Outcome (Unit {0})). x.0) (if_eq_true _ _ _ e)

  fired_on :
      (r : F) (s : Stream World)
      → s.closed || s.connected ≡ false
      → reconnect_fired net fl r s
        ≡ reconnected net fl r (connect net (record s { reconnect_timer = none }))
  unfolding reconnect_fired
  fired_on r s e = if_eq_false _ _ _ e

  reconnect_fired-Ends :
      (left : ℕ) (r : F) (s : Stream World)
      → 0 < s.max_reconnect_attempts
      → s.max_reconnect_attempts < s.reconnect_attempts + suc left
      → Ends left (reconnect_fired net fl r s).0
  reconnect_fired-Ends left r s p h = elim (Bool-cases (s.closed || s.connected)) [
    | inl e ↦ subst (Ends left) (sym (fired_off r s e)) (inl (refl, ground (arith, e)))
    | inr e ↦
        let o : s.closed ≡ false = ground (arith, e) in
        let t = record s { reconnect_timer = none } in
        rw (fired_on r s e) (
          reconnected-Ends left r s (connect net t) p h o
            (connect-Connected net t o (ground (arith, e)) refl))
  ]

  run_timer-Ends :
      (rs : List F) (s : Stream World)
      → Ends (length rs) s
      → let t = run_timer net fl rs s in (t.reconnect_timer ≡ none) × HasStopped net t
  unfolding run_timer
  run_timer-Ends [] s (inl k) = k
  run_timer-Ends [] s (inr (d, e, p, a, h)) = absurd (omega arith)
  run_timer-Ends (r ∷ rs) s (inl (e, k)) = rw (e, run_timer) (e, k)
  run_timer-Ends (r ∷ rs) s (inr (d, e, p, a, h)) =
      rw (e, run_timer)
        (run_timer-Ends rs (reconnect_fired net fl r s).0
          (reconnect_fired-Ends (length rs) r s p h))

  -- A client with a maximum of attempts, whose timer is armed, ends its series of attempts after as
  -- many rounds of the timer as there are attempts left and one, whatever the network does: then the
  -- timer is off, and the client is closed, connected, holds its write lock, or has counted more
  -- attempts than the maximum. A client that is connected starts a new series when it disconnects.
  pub run_timer-HasStopped :
      (rs : List F) (s : Stream World) (d : ℤ)
      → s.reconnect_timer ≡ some d
      → 0 < s.max_reconnect_attempts
      → s.reconnect_attempts ≤ s.max_reconnect_attempts
      → s.max_reconnect_attempts < s.reconnect_attempts + length rs
      → let t = run_timer net fl rs s in (t.reconnect_timer ≡ none) × HasStopped net t
  run_timer-HasStopped rs s d e p a h = run_timer-Ends rs s (inr (d, e, p, a, h))
