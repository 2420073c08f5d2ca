-- ===== src/Trade/Market/Close.antt =====
-- What `ClosePosition` posts.
use hyperliquid_go.Base.{
  false, ap, arith, ◌≢◌, ==_iff, Result, Bool, true, Option, none, some, List, [], ◌∷◌, ◌≡◌, refl,
  sym, ◌∙◌, ◌⊎◌, inl, inr, All, ok, ◌==◌, str_eq, if◌then◌else◌, Bool-cases, if_eq_true,
  if_eq_false, subst,
}
use hyperliquid_go.Base.Text.{Str, codes}
use hyperliquid_go.Float.{zero_f, is_pos}
use hyperliquid_go.Types.{Side, OrderSpec, OrderResult, tif_ioc}
use hyperliquid_go.Trade.Client.{Position}
use hyperliquid_go.Trade.Validate.{position_for}
use hyperliquid_go.Trade.Spec.{PlaceOpt, apply_opts, empty_spec}
use hyperliquid_go.Trade.Client.{
  or_throw, Error, continue, M, Env, Config, St, UserState, ◌>>=◌, query, set_cached, no_user_state,
  refresh_state, effective_addr,
}
use hyperliquid_go.Trade.Client.Bind.{Quiet, bind_cases}
use hyperliquid_go.Trade.Market.{
  side_from_is_buy, cached_size, close_spec, close_price, close_cached, close_position,
}
use hyperliquid_go.Trade.Place.Posts.{Placed, place-posts, refresh_state-Quiet}
use hyperliquid_go.Trade.Market.Priced.{slippage_price-Quiet}

module _ (env : Env) (cfg : Config) where
  open env use {World, fl}
  open fl use {F, lt, abs}

  -- Options that leave the coin, the side and the size alone.
  abbrev pub KeepsOrder : List (PlaceOpt F) → Type 0
  KeepsOrder =
      All λ o.
        (x : OrderSpec F) → ((o x).coin ≡ x.coin) × ((o x).side ≡ x.side) × ((o x).size ≡ x.size)

  apply_opts_kept :
      (opts : List (PlaceOpt F)) (x : OrderSpec F)
      → KeepsOrder opts
      → let y = apply_opts opts x in (y.coin ≡ x.coin) × (y.side ≡ x.side) × (y.size ≡ x.size)
  unfolding apply_opts
  apply_opts_kept [] x k = (refl, refl, refl)
  apply_opts_kept (o ∷ os) x (h, k) =
      let (c, d, e) = apply_opts_kept os (o x) k in
      let (c', d', e') = h x in (c ∙ c', d ∙ d', e ∙ e')

  -- The side that exits a position of the size `szi`: a buy for a short one, else a sell.
  abbrev pub ExitSide : F → Side → Type 0
  ExitSide szi side =
      (lt szi (zero_f fl) ≡ true → side ≡ codes "B")
      × (lt szi (zero_f fl) ≡ false → side ≡ codes "A")

  side_from_is_buy-ExitSide : (szi : F) → ExitSide szi (side_from_is_buy (lt szi (zero_f fl)))
  unfolding side_from_is_buy
  side_from_is_buy-ExitSide szi = (λ h. if_eq_true _ _ _ h, λ h. if_eq_false _ _ _ h)

  -- The size in the first of the positions in the coin, zero where there is none.
  abbrev pub HasSize : Str → F → List Position → Type 0
  HasSize coin szi [] = szi ≡ zero_f fl
  HasSize coin szi (p ∷ ps) =
      ((p.coin ≡ coin) × (szi ≡ (fl.parse_float p.szi).0)) ⊎ ((p.coin ≢ coin) × HasSize coin szi ps)

  abbrev or_none : Option F → F
  or_none o = elim o [ none ↦ zero_f fl | some x ↦ x ]

  position_for-HasSize :
      (coin : Str) (ps : List Position) → HasSize coin (or_none (position_for fl ps coin)) ps
  unfolding position_for
  position_for-HasSize coin [] = refl
  position_for-HasSize coin (p ∷ ps) = elim (Bool-cases (p.coin == coin)) [
    | inl h ↦ inl ((==_iff p.coin coin).0 h, ap or_none (if_eq_true _ _ _ h))
    | inr h ↦ inr (
      (λ e. absurd (ground (arith, h, e, ==_iff p.coin coin))),
      subst (λ o. HasSize coin (or_none o) ps) (sym (if_eq_false _ _ _ h))
          (position_for-HasSize coin ps),
    )
  ]

  cached_size-HasSize :
      (u : UserState) (coin : Str) → HasSize coin (cached_size env cfg (some u) coin) u.positions
  unfolding cached_size
  cached_size-HasSize u coin = position_for-HasSize coin u.positions

  -- A spec that exits a position of the size `szi`, in full or by the size that its options set.
  abbrev pub Exits : Str → F → OrderSpec F → Type 0
  Exits coin szi spec =
      (spec.coin ≡ coin)
      × ExitSide szi spec.side
      × (is_pos fl spec.override_size ≡ true → spec.size ≡ spec.override_size)
      × (is_pos fl spec.override_size ≡ false → spec.size ≡ abs szi)

  -- `WithSize`, taken over.
  sized_Exits :
      (coin : Str) (szi : F) (x : OrderSpec F)
      → x.coin ≡ coin
      → ExitSide szi x.side
      → x.size ≡ abs szi
      → Exits coin szi
          (if is_pos fl x.override_size then record x { size = x.override_size } else x)
  sized_Exits coin szi x c d e = elim (Bool-cases (is_pos fl x.override_size)) [
    | inl h ↦
        subst (Exits coin szi) (sym (if_eq_true _ _ _ h))
          (c, d, (λ t. refl), (λ f. ground (arith, h, f)))
    | inr h ↦
        subst (Exits coin szi) (sym (if_eq_false _ _ _ h))
          (c, d, (λ t. ground (arith, h, t)), (λ f. e))
  ]

  close_spec-Exits :
      (coin : Str) (szi : F) (opts : List (PlaceOpt F))
      → KeepsOrder opts
      → Exits coin szi (close_spec env cfg coin szi opts)
  unfolding close_spec
  close_spec-Exits coin szi opts k =
      let (c, d, e) =
        apply_opts_kept opts
          (record (empty_spec fl) {
            method = codes "close";
            coin = coin;
            size = abs szi;
            side = side_from_is_buy (lt szi (zero_f fl));
            tif = tif_ioc;
          })
          k in
      sized_Exits coin szi _ c (subst (ExitSide szi) (sym d) (side_from_is_buy-ExitSide szi)) e

  set_cached_parts :
      (o : Option UserState) (t : St World)
      → (continue (or_throw o no_user_state t) (set_cached env cfg)).1 ≡ ok tt
      → (u : UserState) × (o ≡ some u)
        × ((continue (or_throw o no_user_state t) (set_cached env cfg)).0.cached ≡ some u)
  set_cached_parts none t h = cc
  set_cached_parts (some u) t h = (u, refl, refl)

  -- The query of `RefreshState`, once there is an address.
  abbrev fetched : M World (Unit {0})
  fetched =
      query env cfg (λ w. env.user_state w (effective_addr env cfg) cfg.dex) no_user_state
      >>= set_cached env cfg

  abbrev Cached : M World (Unit {0}) → St World → Type 0
  Cached m s =
      (m s).1 ≡ ok tt
      → (u : UserState) × ((env.user_state s.world (effective_addr env cfg) cfg.dex).1 ≡ some u)
        × ((m s).0.cached ≡ some u)

  fetched-Cached : (s : St World) → Cached fetched s
  fetched-Cached s h =
      let (w, o) = env.user_state s.world (effective_addr env cfg) cfg.dex in
      set_cached_parts o (record s { world = w }) h

  refresh_state-Cached : (s : St World) → Cached (refresh_state env cfg) s
  unfolding refresh_state
  refresh_state-Cached s = elim (Bool-cases (effective_addr env cfg == [])) [
    | inl e ↦ subst (λ (m : M World (Unit {0})). Cached m s) (sym (if_eq_true _ _ _ e)) (λ h. cc)
    | inr e ↦
        subst (λ (m : M World (Unit {0})). Cached m s) (sym (if_eq_false _ _ _ e))
          (fetched-Cached s)
  ]

  close_price-Quiet :
      (spec : OrderSpec F) (coin : Str) (b : Bool) → Quiet (close_price env cfg spec coin b)
  unfolding close_price
  close_price-Quiet spec coin b s = elim (Bool-cases (is_pos fl spec.limit_price)) [
    | inl h ↦ rw h refl
    | inr h ↦ rw h (slippage_price-Quiet env cfg coin b _ s)
  ]

  -- An order that only reduces was placed, at some price, to exit the first position in the coin that
  -- the venue reported.
  abbrev pub Closed : Str → St World → St World → Type 0
  Closed coin s s' =
      (u : UserState) × (szi : F) × (spec : OrderSpec F) × (t : St World) × ((env.user_state s.world
          (effective_addr env cfg) cfg.dex).1
        ≡ some u)
      × HasSize coin szi u.positions
      × Exits coin szi spec
      × (spec.reduce_only ≡ true)
      × (t.posted ≡ s.posted)
      × Placed env cfg spec t s'

  -- `ClosePosition` with options that leave the coin, the side and the size alone posts nothing, or
  -- places an order that only reduces, under the checks of a placement: of the coin, a buy where the
  -- first position in the coin that the venue reported is short and a sell where it is not, of the
  -- size that the options set where it is positive and of the position's size where it is not.
  pub close_position-Closed :
      (coin : Str) (opts : List (PlaceOpt F)) (s : St World)
      → KeepsOrder opts
      → let s' = (close_position env cfg coin opts s).0 in (s'.posted ≡ s.posted) ⊎ Closed coin s s'
  unfolding close_position close_cached
  close_position-Closed coin opts s k =
      let P =
        λ (r : St World × Result Error OrderResult). (r.0.posted ≡ s.posted) ⊎ Closed coin s r.0 in
      let quiet = refresh_state-Quiet env cfg s in
      bind_cases (refresh_state env cfg) _ s P (λ e h. inl quiet)
        (λ done h.
          let (u, reported, cached) = refresh_state-Cached s h in
          let t = (refresh_state env cfg s).0 in
          let szi = cached_size env cfg t.cached coin in
          let spec = close_spec env cfg coin szi opts in
          let b = lt szi (zero_f fl) in
          let q = close_price-Quiet spec coin b t ∙ quiet in
          bind_cases (close_price env cfg spec coin b) _ t P (λ e h'. inl q)
            (λ px h'.
              let v = (close_price env cfg spec coin b t).0 in
              let order = record spec { price = px; reduce_only = true } in
              elim (place-posts env cfg order v) [
                | inl p ↦ inl (p ∙ q)
                | inr p ↦ inr (
                  u,
                  cached_size env cfg (some u) coin,
                  order,
                  v,
                  reported,
                  cached_size-HasSize u coin,
                  subst (λ (o : Option UserState). Exits coin (cached_size env cfg o coin) order)
                      cached (close_spec-Exits coin szi opts k),
                  refl,
                  q,
                  p,
                )
              ]))
