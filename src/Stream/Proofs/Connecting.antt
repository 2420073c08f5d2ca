-- ===== src/Stream/Proofs/Connecting.antt =====
-- `Connect` of the WebSocket client, with and without subscriptions.
use hyperliquid_go.Base.{
  arith, not, ap, inl, inr, Bool-cases, if_eq_true, if_eq_false, ℕ, Bool, true, false, some, List,
  [], ◌∷◌, ◌≡◌, refl, ◌≢◌, ◌∙◌,
}
use hyperliquid_go.Stream.Messages.{SubKey, SubscriptionFilter, Frame, subscribe_frame}
use hyperliquid_go.Stream.State.{Net, Stream, done, failed, blocked, dial_failed, after}
use hyperliquid_go.Stream.Connection.{
  active_keys, write_json, send_subscribe, resubscribe_all, connect, connect_dialed, close,
  resubscribe, connect_end, filter_of,
}
use hyperliquid_go.Stream.Registry.{subscribe, register}

module _ (net : Net) where
  open net use {World, dial}

  -- A call of `Connect` that gets as far as the dial.
  abbrev pub Dials : Stream World → Type 0
  Dials s = (s.closed ≡ false) × (s.connected ≡ false) × (s.locked ≡ false)

  pub connect-Dials :
      (s : Stream World)
      → Dials s
      → connect net s ≡ connect_dialed net (record s { locked = true; conn = false }) (dial s.world)
  unfolding connect
  connect-Dials s (c, u, l) = rw (c, u, l)

  idle :
      (s : Stream World)
      → active_keys s.subscriptions ≡ []
      → s.connected ≡ false
      → s.conn ≡ false
      → (d : World × Bool)
      → let (t, r) = connect_dialed net s d in
        (t.locked ≡ false)
        × (t.connected ≡ d.1)
        × (t.conn ≡ d.1)
        × (r ≡ (elim d.1 [ true ↦ done tt | false ↦ failed dial_failed ]))
  unfolding resubscribe_all
  idle s e c n (w, true) = rw e (refl, refl, refl, refl)
  idle s e c n (w, false) = (refl, c, n, refl)

  -- A `Connect` that gets to the dial and has no subscription to send again returns with the lock
  -- released: connected if the dial succeeded, and with the dial's error and no connection if not.
  pub connect-idle :
      (s : Stream World)
      → Dials s
      → active_keys s.subscriptions ≡ []
      → let (t, r) = connect net s in
        (t.locked ≡ false)
        × (t.connected ≡ (dial s.world).1)
        × (t.conn ≡ (dial s.world).1)
        × (r ≡ (elim (dial s.world).1 [ true ↦ done tt | false ↦ failed dial_failed ]))
  connect-idle s d none_active =
      rw (connect-Dials s d)
        (idle (record s { locked = true; conn = false }) none_active d.1 refl (dial s.world))

  -- A write under the write lock waits for ever, and keeps writeMu.
  write_json-blocked :
      (f : Frame) (s : Stream World)
      → s.connected ≡ true
      → s.locked ≡ true
      → write_json net f s ≡ (record s { writing = true }, blocked)
  unfolding write_json
  write_json-blocked f s c l = elim (Bool-cases s.writing) [
    | inl w ↦ if_eq_true _ _ _ w ∙ ap (λ b. (record s { writing = b }, blocked)) w
    | inr w ↦ if_eq_false _ _ _ w ∙ if_eq_false _ _ _ (ap not c) ∙ if_eq_true _ _ _ l
  ]

  -- A write where writeMu is kept waits for ever.
  write_json-waits :
      (f : Frame) (s : Stream World) → s.writing ≡ true → write_json net f s ≡ (s, blocked)
  unfolding write_json
  write_json-waits f s w = if_eq_true _ _ _ w

  pub first-blocked :
      (ks : List SubKey) (s : Stream World)
      → ks ≢ []
      → s.connected ≡ true
      → s.locked ≡ true
      → resubscribe net ks s ≡ (record s { writing = true }, blocked)
  unfolding send_subscribe
  first-blocked [] s h c l = absurd (h refl)
  first-blocked (k ∷ ks) s h c l =
      ap (λ r. after r (λ _. resubscribe net ks))
        (write_json-blocked (subscribe_frame (filter_of k)) s c l)

  -- The state in which `Connect` sends the subscriptions again, and the one in which it is stuck.
  abbrev dialed : Stream World → World → Stream World
  dialed s w = record s {
    world = w;
    conn = true;
    connected = true;
    locked = true;
    reconnect_attempts = 0;
  }

  abbrev stuck : Stream World → World → Stream World
  stuck s w = record (dialed s w) { writing = true }

  dialed-blocked :
      (s : Stream World) (d : World × Bool)
      → active_keys s.subscriptions ≢ []
      → d.1 ≡ true
      → connect_dialed net (record s { locked = true; conn = false }) d ≡ (stuck s d.0, blocked)
  unfolding resubscribe_all
  dialed-blocked s (w, true) h up =
      ap (connect_end net) (first-blocked (active_keys s.subscriptions) (dialed s w) h refl refl)
  dialed-blocked s (w, false) h up = cc

  subscribe-blocked :
      (f : SubscriptionFilter) (cb : ℕ) (s : Stream World)
      → s.writing ≡ true
      → (subscribe net f (some cb) s).1 ≡ blocked
  unfolding subscribe send_subscribe register
  subscribe-blocked f cb s w =
      rw (write_json-waits (subscribe_frame f) (register net f cb s) w) refl

  closed-writing : (s : Stream World) → (close net s).0.writing ≡ s.writing
  unfolding close
  closed-writing s = ground arith

  close-blocked :
      (s : Stream World) → s.closed ≡ false → s.locked ≡ true → (close net s).1 ≡ blocked
  unfolding close
  close-blocked s c l = rw (c, l)

  -- A `Connect` that gets to the dial, succeeds in it and has a subscription to send again never
  -- returns and keeps the write lock; after it no `Subscribe` with a callback and no `Close` returns,
  -- and no `Subscribe` does after a `Close`.
  pub connect-deadlock :
      (s : Stream World)
      → Dials s
      → (dial s.world).1 ≡ true
      → active_keys s.subscriptions ≢ []
      → let (t, r) = connect net s in
        (r ≡ blocked)
        × (t.locked ≡ true)
        × ((f : SubscriptionFilter) (cb : ℕ) → (subscribe net f (some cb) t).1 ≡ blocked)
        × ((close net t).1 ≡ blocked)
        × ((f : SubscriptionFilter) (cb : ℕ)
            → (subscribe net f (some cb) (close net t).0).1 ≡ blocked)
  connect-deadlock s (c, u, l) up active =
      rw (connect-Dials s (c, u, l) ∙ dialed-blocked s (dial s.world) active up) (
        refl,
        refl,
        (λ f cb. subscribe-blocked f cb (stuck s _) refl),
        close-blocked (stuck s _) c refl,
        (λ f cb. subscribe-blocked f cb (close net (stuck s _)).0 (closed-writing (stuck s _))),
      )
