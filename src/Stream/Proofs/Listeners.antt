-- ===== src/Stream/Proofs/Listeners.antt =====
-- The listeners after `Subscribe` and `Subscription.Close`.
use hyperliquid_go.Base.{
  ℕ, false, not, ◌&&◌, Option, none, some, [], ◌∷◌, ◌≡◌, refl, arith, ==_iff, ◌==◌, Bool-cases, inl,
  inr, if◌then◌else◌, if_eq_true, if_eq_false, ◌∙◌, ap, sym, subst, Option-cases,
}
use hyperliquid_go.Base.Dict.{Dict, lookup, insert, erase, has_key, lookup-erase}
use hyperliquid_go.Base.Int.{int_eq, ℤ}
use hyperliquid_go.Stream.Messages.{SubscriptionFilter, SubKey, key, key_eq}
use hyperliquid_go.Stream.State.{Net, Stream, Outcome, done, failed, blocked, next32, int32}
use hyperliquid_go.Stream.Connection.{write_json, send_subscribe, send_unsubscribe, non_empty}
use hyperliquid_go.Stream.Registry.{
  Subscription, listeners, register, subscribe, subscribe_end, unsubscribe, unsubscribe_from,
  close_subscription,
}
use hyperliquid_go.Stream.Proofs.ListenerMap.{
  listener, listeners-insert, listeners-erase, listener-insert, lookup-nil, listeners-none,
  listeners-some, listeners-eq, listener-eq, listener-drop,
}

module _ (net : Net) where
  open net use {World}

  write_json-subscriptions :
      (f : _) (s : Stream World) → (write_json net f s).0.subscriptions ≡ s.subscriptions
  unfolding write_json
  write_json-subscriptions f s = ground arith

  -- The listeners after a call of `Subscribe` that returned.
  abbrev pub Subscribed :
      SubscriptionFilter → ℕ → Stream World → Stream World × Outcome Subscription → Type 0
  Subscribed f cb s (t, done sub) =
      (j : SubKey) (i : ℤ)
      → listener j i t.subscriptions
        ≡ (if key f == j && sub.id == i then some cb else listener j i s.subscriptions)
  Subscribed f cb s (t, failed e) =
      (j : SubKey) (i : ℤ) → listener j i t.subscriptions ≡ listener j i s.subscriptions
  Subscribed f cb s (t, blocked) = Unit

  subscribe_end-Subscribed :
      (f : SubscriptionFilter) (cb : ℕ) (id : ℤ) (s : Stream World)
      (r : Stream World × Outcome (Unit {0}))
      → listener (key f) id s.subscriptions ≡ none
      → r.0.subscriptions
        ≡ insert (key f) (insert id cb (listeners (key f) s.subscriptions)) s.subscriptions
      → Subscribed f cb s (subscribe_end net f id r)
  subscribe_end-Subscribed f cb id s (t, done _) fresh e =
      λ j i. rw e (listener-insert (key f) id cb s.subscriptions j i)
  subscribe_end-Subscribed f cb id s (t, failed x) fresh e = λ j i.
      rw
        (
          listener-drop (key f) id t.subscriptions j i,
          e,
          listener-insert (key f) id cb s.subscriptions j i,
        )
        (ground (arith, fresh, listener-eq (key f) j id i s.subscriptions))
  subscribe_end-Subscribed f cb id s (t, blocked) fresh e = tt

  -- A `Subscribe` whose id is free adds the callback under the filter's key and the id of the handle
  -- it returns, and changes no other listener; when it fails, the listeners are those before the call.
  pub subscribe-Subscribed :
      (f : SubscriptionFilter) (cb : ℕ) (s : Stream World)
      → listener (key f) (int32 (next32 s.next_sub_id)) s.subscriptions ≡ none
      → Subscribed f cb s (subscribe net f (some cb) s)
  unfolding subscribe send_subscribe register
  subscribe-Subscribed f cb s fresh =
      subscribe_end-Subscribed f cb (int32 (next32 s.next_sub_id)) s
        (send_subscribe net f (register net f cb s)) fresh
        (write_json-subscriptions _ (register net f cb s))

  has_key-some :
      (id : ℤ) (cb : ℕ) (m : Dict ℤ ℕ) → lookup id m ≡ some cb → not (has_key id m) ≡ false
  unfolding has_key
  has_key-some id cb m h = rw (h, has_key) refl

  removed-map :
      (sub : Subscription) (cb : ℕ) (subs : Dict ℤ ℕ) (s : Stream World)
      → lookup sub.id subs ≡ some cb
      → (unsubscribe_from net sub (some subs) s).0.subscriptions ≡ (
          if non_empty (erase sub.id subs)
          then insert (key sub.filter) (erase sub.id subs) s.subscriptions
          else erase (key sub.filter) s.subscriptions)
  unfolding send_unsubscribe
  removed-map sub cb subs s h =
      let subscriptions_of = λ (r : Stream World × Outcome (Unit {0})). r.0.subscriptions in
      ap subscriptions_of (if_eq_false _ _ _ (has_key-some sub.id cb subs h))
      ∙ elim (Bool-cases (non_empty (erase sub.id subs))) [
        | inl ne ↦ ap subscriptions_of (if_eq_true _ _ _ ne) ∙ sym (if_eq_true _ _ _ ne)
        | inr em ↦
            ap subscriptions_of (if_eq_false _ _ _ em)
            ∙ write_json-subscriptions _ _
            ∙ sym (if_eq_false _ _ _ em)
      ]

  empty-list : (m : Dict ℤ ℕ) → non_empty m ≡ false → m ≡ []
  empty-list [] h = refl
  empty-list (x ∷ m) h = cc

  removed :
      (sub : Subscription) (cb : ℕ) (subs : Dict ℤ ℕ) (s : Stream World)
      → lookup (key sub.filter) s.subscriptions ≡ some subs
      → lookup sub.id subs ≡ some cb
      → (j : SubKey) (i : ℤ)
      → listener j i (unsubscribe_from net sub (some subs) s).0.subscriptions
        ≡ (if key sub.filter == j && sub.id == i then none else listener j i s.subscriptions)
  removed sub cb subs s e h j i =
      let k = key sub.filter in
      let m = s.subscriptions in
      let rest = erase sub.id subs in
      rw (removed-map sub cb subs s h) (
        ground (
          arith,
          listeners-insert k j rest m,
          listeners-erase k j m,
          lookup-erase sub.id i subs,
          listeners-some k m subs e,
          listeners-eq k j m,
          empty-list rest,
          lookup-nil i,
        ))

  -- Closing a handle whose callback is registered removes that callback and no other.
  unsubscribe-listener :
      (sub : Subscription) (cb : ℕ) (s : Stream World)
      → listener (key sub.filter) sub.id s.subscriptions ≡ some cb
      → (j : SubKey) (i : ℤ)
      → listener j i (unsubscribe net sub s).0.subscriptions
        ≡ (if key sub.filter == j && sub.id == i then none else listener j i s.subscriptions)
  unfolding unsubscribe
  unsubscribe-listener sub cb s h j i =
      elim (Option-cases (lookup (key sub.filter) s.subscriptions)) [
        | inl e ↦ absurd (
            ground (arith, h, listeners-none (key sub.filter) s.subscriptions e, lookup-nil sub.id))
        | inr (subs, e) ↦
            rw (e, unsubscribe)
              (removed sub cb subs s e
                (ap (lookup sub.id) (sym (listeners-some (key sub.filter) s.subscriptions subs e))
                  ∙ h)
                j i)
      ]

  handle :
      (f : SubscriptionFilter) (id : ℤ) (r : Stream World × Outcome (Unit {0})) (t : Stream World)
      (sub : Subscription)
      → subscribe_end net f id r ≡ (t, done sub)
      → (sub.filter ≡ f) × (sub.id ≡ id) × (sub.closed ≡ false)
  handle f id (u, done _) t sub h = ground arith
  handle f id (u, failed e) t sub h = ground arith
  handle f id (u, blocked) t sub h = ground arith

  subscribe-handle :
      (f : SubscriptionFilter) (cb : ℕ) (s t : Stream World) (sub : Subscription)
      → subscribe net f (some cb) s ≡ (t, done sub)
      → (sub.filter ≡ f) × (sub.id ≡ int32 (next32 s.next_sub_id)) × (sub.closed ≡ false)
  unfolding subscribe
  subscribe-handle f cb s t sub h = handle f _ (send_subscribe net f (register net f cb s)) t sub h

  -- Closing the handle that a successful `Subscribe` with a free id returned brings the listeners back
  -- to what they were before the subscription, whether or not the unsubscribe frame is sent.
  pub subscribe-close :
      (f : SubscriptionFilter) (cb : ℕ) (s t : Stream World) (sub : Subscription)
      → listener (key f) (int32 (next32 s.next_sub_id)) s.subscriptions ≡ none
      → subscribe net f (some cb) s ≡ (t, done sub)
      → (j : SubKey) (i : ℤ)
      → listener j i (close_subscription net (some sub) t).1.0.subscriptions
        ≡ listener j i s.subscriptions
  unfolding close_subscription
  subscribe-close f cb s t sub fresh h j i =
      let (ef, ei, ec) = subscribe-handle f cb s t sub h in
      let after_subscribe : Subscribed f cb s (t, done sub) =
        subst (Subscribed f cb s) h (subscribe-Subscribed f cb s fresh) in
      let there : (listener (key sub.filter) sub.id t.subscriptions ≡ some cb) = rw ef (
        after_subscribe (key f) sub.id
        ∙ ground (arith, ==_iff (key f) (key f), ==_iff sub.id sub.id)) in
      let free : (listener (key f) sub.id s.subscriptions ≡ none) = rw ei fresh in
      ap
        (λ (r : Option Subscription × (Stream World × Outcome (Unit {0}))).
          listener j i r.1.0.subscriptions)
        (if_eq_false sub.closed _ _ ec)
      ∙ unsubscribe-listener sub cb t there j i
      ∙ rw ef (
          ground (arith, after_subscribe j i, free, listener-eq (key f) j sub.id i s.subscriptions))
