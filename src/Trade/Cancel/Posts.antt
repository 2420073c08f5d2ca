-- ===== src/Trade/Cancel/Posts.antt =====
-- What `CancelAll` cancels.
use hyperliquid_go.Base.{
  ◌++◌, ap, ◌≡◌, ◌≢◌, refl, ◌∙◌, ◌⊎◌, ◌↔◌, inl, inr, true, false, Bool-cases, some, List, [], ◌∷◌,
  map, arith, Any, ==_iff, str_eq, if_eq_true, if_eq_false, subst, sym,
}
use hyperliquid_go.Base.Text.{Str}
use hyperliquid_go.Trade.Client.{
  envelope, Envelope, Env, Config, St, OpenOrder, cancel, query, no_open_orders, CancelOrderWire,
}
use hyperliquid_go.Info.{asset_id}
use hyperliquid_go.Trade.Client.Bind.{bind_cases, or_throw-ok}
use hyperliquid_go.Trade.Place.Posts.{Posted, query-Quiet, execute_action-Posted}
use hyperliquid_go.Trade.Cancel.{
  mem_coin, keep_coin, kept, cancel_wire, bulk_cancel, orders_addr, cancel_kept, cancel_all,
}

-- No coin was named, or this one was.
abbrev pub IsWanted : List Str → OpenOrder → Type 0
IsWanted coins o = (coins ≡ []) ⊎ Any (λ k. k ≡ o.coin) coins

cons_ne {ℓ} : {A : Type ℓ} (x : A) (xs : List A) → x ∷ xs ≢ []
cons_ne x xs h = cc

mem_coin-Any :
    (coins : List Str) (coin : Str) → (mem_coin coins coin ≡ true) ↔ Any (λ k. k ≡ coin) coins
unfolding mem_coin
mem_coin-Any [] coin = ((λ h. cc), (λ h. absurd h))
mem_coin-Any (k ∷ ks) coin = ground (arith, mem_coin-Any ks coin, ==_iff k coin)

keep_coin-IsWanted :
    (coins : List Str) (o : OpenOrder) → (keep_coin coins o.coin ≡ true) ↔ IsWanted coins o
unfolding keep_coin
keep_coin-IsWanted [] o = ((λ h. inl refl), (λ h. refl))
keep_coin-IsWanted (k ∷ ks) o =
    let m = mem_coin-Any (k ∷ ks) o.coin in
    ((λ h. inr (m.0 h)), (λ h. elim h [ inl e ↦ absurd (cons_ne k ks e) | inr a ↦ m.1 a ]))

-- The orders that `CancelAll` cancels are the open orders whose coin is wanted.
pub kept-IsWanted :
    (coins : List Str) (os : List OpenOrder) (o : OpenOrder)
    → Any (λ x. x ≡ o) (kept coins os) ↔ (Any (λ x. x ≡ o) os × IsWanted coins o)
unfolding kept
kept-IsWanted coins [] o = ((λ h. absurd h), (λ h. h.0))
kept-IsWanted coins (p ∷ ps) o =
    let rest = kept-IsWanted coins ps o in
    let k = keep_coin-IsWanted coins p in
    let Goal = λ (os : List OpenOrder).
      Any (λ x. x ≡ o) os ↔ (Any (λ x. x ≡ o) (p ∷ ps) × IsWanted coins o) in
    elim (Bool-cases (keep_coin coins p.coin)) [
      | inl e ↦ subst Goal (sym (if_eq_true (keep_coin coins p.coin) _ _ e)) (
        (λ h. elim h [
          | inl q ↦ (inl q, subst (IsWanted coins) q (k.0 e))
          | inr a ↦ (inr (rest.0 a).0, (rest.0 a).1)
        ]),
        (λ (h, w). elim h [ inl q ↦ inl q | inr a ↦ inr (rest.1 (a, w)) ]),
      )
      | inr e ↦ subst Goal (sym (if_eq_false (keep_coin coins p.coin) _ _ e)) (
        (λ h. (inr (rest.0 h).0, (rest.0 h).1)),
        (λ (h, w). elim h [
          | inl q ↦
              let t : true ≡ false = sym (k.1 (subst (IsWanted coins) (sym q) w)) ∙ e in absurd cc
          | inr a ↦ rest.1 (a, w)
        ]),
      )
    ]

module _ (env : Env) (cfg : Config) where
  open env use {World}

  -- One wire for each order, in their order: the id of its coin's asset, and its own order id.
  abbrev pub Cancels : List OpenOrder → List CancelOrderWire → Type 0
  Cancels [] [] = Unit
  Cancels (o ∷ os) (w ∷ ws) =
      (w.asset ≡ asset_id cfg.tables o.coin) × (w.order_id ≡ o.oid) × Cancels os ws
  Cancels _ _ = ⊥

  cancel_wire-Cancels : (os : List OpenOrder) → Cancels os (map (cancel_wire cfg.tables) os)
  unfolding cancel_wire
  cancel_wire-Cancels [] = tt
  cancel_wire-Cancels (o ∷ os) = (refl, refl, cancel_wire-Cancels os)

  -- One cancellation of the wanted orders among those that the venue reported was posted.
  abbrev pub CancelledAll : List Str → St World → St World → Type 0
  CancelledAll coins s s' =
      (orders : List OpenOrder) × (wires : List CancelOrderWire) × ((env.open_orders s.world
          (orders_addr env cfg)).1
        ≡ some orders)
      × (kept coins orders ≢ [])
      × Cancels (kept coins orders) wires
      × Posted env cfg cfg.vault (cancel wires) s s'

  -- One cancellation of these orders was posted, for the client's vault.
  abbrev Cancelled : List OpenOrder → St World → St World → Type 0
  Cancelled os s s' =
      (os ≢ []) × Posted env cfg cfg.vault (cancel (map (cancel_wire cfg.tables) os)) s s'

  cancel_kept-Cancelled :
      (os : List OpenOrder) (s t : St World)
      → t.posted ≡ s.posted
      → let s' = (cancel_kept env cfg os t).0 in (s'.posted ≡ s.posted) ⊎ Cancelled os s s'
  unfolding cancel_kept bulk_cancel
  cancel_kept-Cancelled [] s t e = inl e
  cancel_kept-Cancelled (o ∷ os) s t e =
      let k = execute_action-Posted env cfg (cancel (map (cancel_wire cfg.tables) (o ∷ os))) t in
      let P = λ (s' : St World). (s'.posted ≡ s.posted) ⊎ Cancelled (o ∷ os) s s' in
      let r : P (bulk_cancel env cfg (o ∷ os) t).0 = elim k [
        | inl p ↦ inl (p ∙ e)
        | inr (n, sig, g, p) ↦ inr (
          (λ h. cons_ne o os h),
          (
            n,
            sig,
            g,
            p
                ∙ ap
                    (λ (l : List Envelope).
                      l
                      ++ (envelope env cfg (cancel (map (cancel_wire cfg.tables) (o ∷ os))) n sig
                          ∷ []))
                    e,
          ),
        )
      ] in
      bind_cases (bulk_cancel env cfg (o ∷ os)) _ t (λ u. P u.0) (λ x h. r) (λ x h. r)

  -- `CancelAll` posts nothing, or one cancellation, for the client's vault, where the venue reported a
  -- wanted open order: it names each of the wanted ones, in their order, by the asset id of its coin
  -- and its own order id.
  pub cancel_all-posts :
      (coins : List Str) (s : St World)
      → let s' = (cancel_all env cfg coins s).0 in (s'.posted ≡ s.posted) ⊎ CancelledAll coins s s'
  unfolding cancel_all
  cancel_all-posts coins s =
      let f = λ (w : World). env.open_orders w (orders_addr env cfg) in
      let quiet = query-Quiet env cfg f no_open_orders s in
      bind_cases (query env cfg f no_open_orders) _ s
        (λ t. (t.0.posted ≡ s.posted) ⊎ CancelledAll coins s t.0) (λ e h. inl quiet)
        (λ orders h.
          let o = or_throw-ok (f s.world).1 no_open_orders _ orders h in
          elim (cancel_kept-Cancelled (kept coins orders) s (query env cfg f no_open_orders s).0
            quiet) [
              | inl p ↦ inl p
              | inr (n, p) ↦ inr (orders, _, o.0, n, cancel_wire-Cancels (kept coins orders), p)
            ])
