-- ===== src/Trade/Account/Proofs/Conversions.antt =====
-- What a conversion between spot tokens posts.
use hyperliquid_go.Base.{
  Result, ◌≡◌, ◌∙◌, ◌⊎◌, inl, inr, refl, true, false, Bool-cases, some, arith, err, ok, Any, subst,
  ap,
}
use hyperliquid_go.Base.Text.{Str}
use hyperliquid_go.Base.Int.{ℤ}
use hyperliquid_go.Float.{le, zero_f}
use hyperliquid_go.Types.{OrderResult, Side}
use hyperliquid_go.Info.{asset}
use hyperliquid_go.Trade.Spec.{with_slippage, apply_opts}
use hyperliquid_go.Trade.Market.{mid_price}
use hyperliquid_go.Trade.Market.Priced.{
  asked_mids, HasMid, mid_price-ok, mid_price-Quiet, MarketPlaced, place_market-posts, KeepsMarket,
  SetsSlippage,
}
use hyperliquid_go.Trade.Client.{
  Error, query, Env, Config, St, or_throw, bad_amount, below_step, no_spot_meta, no_spot_pair,
}
use hyperliquid_go.Trade.Client.Bind.{Quiet, bind-Quiet, bind_cases, or_throw-Quiet, or_throw-ok}
use hyperliquid_go.Trade.Place.Posts.{query-Quiet}
use hyperliquid_go.Trade.Account.Toolkit.{Toolkit, SpotUniverse}
use hyperliquid_go.Trade.Account.Proofs.Pairs.{HasIndex, Trades, find_pair-Trades}
use hyperliquid_go.Trade.Account.Convert.{
  find_pair, find_spot_pair, snap_spot_size, slippage_opts, place_snapped, convert_at, convert_spot,
  convert_spot_size,
}

module _ (env : Env) (kit : Toolkit env.fl.F env.World) (cfg : Config) where
  open env use {World, fl}
  open fl use {F, lit, lt, mul, div, floor}

  find_spot_pair-Quiet : (base quote : Str) → Quiet (find_spot_pair env kit cfg base quote)
  unfolding find_spot_pair
  find_spot_pair-Quiet base quote =
      bind-Quiet (query env cfg kit.spot_meta no_spot_meta) _
        (query-Quiet env cfg kit.spot_meta no_spot_meta)
        (λ u. or_throw-Quiet (find_pair kit.equal_fold base quote u) no_spot_pair)

  -- The venue's state after it was asked for the spot metadata.
  abbrev pub asked_meta : World → World
  asked_meta w = (kit.spot_meta w).0

  -- A pair of the metadata that the venue reports in the state `w`, whose first two tokens have the
  -- names of the base and of the quote.
  abbrev pub IsPairOf : Str → Str → World → Str → Type 0
  IsPairOf base quote w pair =
      (u : SpotUniverse) × (b : ℤ) × (q : ℤ) × ((kit.spot_meta w).1 ≡ some u)
      × Any (HasIndex kit.equal_fold base b) u.tokens
      × Any (HasIndex kit.equal_fold quote q) u.tokens
      × Any (Trades b q pair) u.pairs

  find_spot_pair-ok :
      (base quote : Str) (s : St World) (pair : Str)
      → (find_spot_pair env kit cfg base quote s).1 ≡ ok pair
      → IsPairOf base quote s.world pair
        × ((find_spot_pair env kit cfg base quote s).0 ≡ record s { world = asked_meta s.world })
  unfolding find_spot_pair
  find_spot_pair-ok base quote s pair =
      let P = λ (r : St World × Result Error Str).
        r.1 ≡ ok pair
        → IsPairOf base quote s.world pair × (r.0 ≡ record s { world = asked_meta s.world }) in
      bind_cases (query env cfg kit.spot_meta no_spot_meta) _ s P (λ e h k. cc)
        (λ u h k.
          let (m, v) =
            or_throw-ok (kit.spot_meta s.world).1 no_spot_meta
              (record s { world = asked_meta s.world }) u h in
          let (f, v') =
            or_throw-ok (find_pair kit.equal_fold base quote u) no_spot_pair
              (query env cfg kit.spot_meta no_spot_meta s).0 pair k in
          let (b, q, x, y, z) = find_pair-Trades kit.equal_fold base quote pair u f in
          ((u, b, q, m, x, y, z), v' ∙ v))

  -- A size rounded down to whole steps of the pair, of which it holds one at least; a pair without a
  -- step leaves it as it is.
  abbrev pub IsSnapped : Str → F → F → Type 0
  IsSnapped pair size snapped =
      let step = (asset fl cfg.tables pair).min_size in
      ((le fl step (zero_f fl) ≡ true) × (snapped ≡ size))
      ⊎ ((le fl step (zero_f fl) ≡ false)
          × (lt (floor (div size step)) (lit 1 0) ≡ false)
          × (snapped ≡ mul (floor (div size step)) step))

  snap_spot_size-IsSnapped :
      (pair : Str) (size snapped : F)
      → snap_spot_size env kit cfg pair size ≡ some snapped
      → IsSnapped pair size snapped
  unfolding snap_spot_size
  snap_spot_size-IsSnapped pair size snapped h = ground arith

  -- A market order was placed on that side, with a slippage of 5%, whose size is a size snapped to
  -- the step of its pair, from the venue's state `w`.
  abbrev pub SnapPlaced : Str → Side → F → World → St World → St World → Type 0
  SnapPlaced pair side size w s s' =
      (snapped : F) × (t : St World) × IsSnapped pair size snapped
      × (t.world ≡ w)
      × (t.posted ≡ s.posted)
      × MarketPlaced env cfg pair side snapped (lit 5 2) t s'

  opts-keep : KeepsMarket env cfg (slippage_opts env kit cfg)
  unfolding with_slippage
  opts-keep = ((λ x. (refl, refl, refl, refl)), tt)

  opts-set : SetsSlippage env cfg (slippage_opts env kit cfg) (lit 5 2)
  unfolding with_slippage apply_opts
  opts-set x e = refl

  place_snapped-posts :
      (pair : Str) (side : Side) (size : F) (s t : St World)
      → t.posted ≡ s.posted
      → let s' = (place_snapped env kit cfg pair side size t).0 in
        (s'.posted ≡ s.posted) ⊎ SnapPlaced pair side size t.world s s'
  unfolding place_snapped
  place_snapped-posts pair side size s t e =
      let o = snap_spot_size env kit cfg pair size in
      bind_cases (or_throw o below_step) _ t
        (λ u. (u.0.posted ≡ s.posted) ⊎ SnapPlaced pair side size t.world s u.0)
        (λ x h. inl (or_throw-Quiet o below_step t ∙ e))
        (λ snapped h.
          let k = or_throw-ok o below_step t snapped h in
          rw (k.1)
            (elim (place_market-posts env cfg pair side snapped (lit 5 2)
              (slippage_opts env kit cfg) t opts-keep opts-set) [
                | inl p ↦ inl (p ∙ e)
                | inr p ↦
                    inr (snapped, t, snap_spot_size-IsSnapped pair size snapped k.0, refl, e, p)
              ]))

  -- A conversion of an amount of the quote token: the size is the amount by the mid price of the pair.
  abbrev pub QuoteConverted : Str → Str → Side → F → St World → St World → Type 0
  QuoteConverted base quote side amount s s' =
      (pair : Str) × (mid : F) × IsPairOf base quote s.world pair
      × HasMid env cfg pair (asked_meta s.world) mid
      × (le fl mid (zero_f fl) ≡ false)
      × SnapPlaced pair side (div amount mid) (asked_mids env cfg pair (asked_meta s.world)) s s'

  -- A conversion of an amount of the base token.
  abbrev pub BaseConverted : Str → Str → Side → F → St World → St World → Type 0
  BaseConverted base quote side amount s s' =
      (pair : Str) × IsPairOf base quote s.world pair
      × SnapPlaced pair side amount (asked_meta s.world) s s'

  -- The amount was not positive and the conversion failed at once, or it posted nothing or what is
  -- said of a conversion.
  abbrev pub ConvertsBy :
      (St World → St World → Type 0) → F → St World → St World × Result Error OrderResult → Type 0
  ConvertsBy Converted amount s r =
      ((le fl amount (zero_f fl) ≡ true) × (r ≡ (s, err bad_amount)))
      ⊎ ((le fl amount (zero_f fl) ≡ false) × ((r.0.posted ≡ s.posted) ⊎ Converted s r.0))

  convert_at-posts :
      (pair : Str) (side : Side) (amount mid : F) (s t : St World)
      → t.posted ≡ s.posted
      → let s' = (convert_at env kit cfg pair side amount mid t).0 in
        (s'.posted ≡ s.posted)
        ⊎ ((le fl mid (zero_f fl) ≡ false) × SnapPlaced pair side (div amount mid) t.world s s')
  unfolding convert_at
  convert_at-posts pair side amount mid s t e = elim (Bool-cases (le fl mid (zero_f fl))) [
    | inl h ↦ inl (rw h e)
    | inr h ↦ rw h (elim (place_snapped-posts pair side (div amount mid) s t e) [
      | inl p ↦ inl p
      | inr p ↦ inr (refl, p)
    ])
  ]

  convert_spot-posts :
      (base quote : Str) (side : Side) (amount : F) (s : St World)
      → ConvertsBy
          (QuoteConverted base quote side amount)
          amount
          s
          (convert_spot env kit cfg base quote side amount s)
  unfolding convert_spot
  convert_spot-posts base quote side amount s = elim (Bool-cases (le fl amount (zero_f fl))) [
    | inl h ↦ inl (h, rw h refl)
    | inr h ↦ inr (
      h,
      rw h (
          let Goal = λ (r : St World × Result Error OrderResult).
            (r.0.posted ≡ s.posted) ⊎ QuoteConverted base quote side amount s r.0 in
          let q = find_spot_pair-Quiet base quote s in
          bind_cases (find_spot_pair env kit cfg base quote) _ s Goal (λ e k. inl q)
            (λ pair k.
              let t = (find_spot_pair env kit cfg base quote s).0 in
              let (is_pair, at) = find_spot_pair-ok base quote s pair k in
              let r = mid_price-Quiet env cfg pair t ∙ q in
              let met = ap (λ (x : St World). x.world) at in
              bind_cases (mid_price env cfg pair) _ t Goal (λ e m. inl r)
                (λ mid m.
                  let t' = (mid_price env cfg pair t).0 in
                  let (has, at') = mid_price-ok env cfg pair t mid m in
                  let asked =
                    ap (λ (x : St World). x.world) at' ∙ ap (asked_mids env cfg pair) met in
                  elim (convert_at-posts pair side amount mid s t' r) [
                    | inl p ↦ inl p
                    | inr (l, p) ↦ inr (
                      pair,
                      mid,
                      is_pair,
                      subst (λ w. HasMid env cfg pair w mid) met has,
                      l,
                      subst
                          (λ w.
                            SnapPlaced pair side (div amount mid) w s
                              (convert_at env kit cfg pair side amount mid t').0)
                          asked p,
                    )
                  ]))),
    )
  ]

  convert_spot_size-posts :
      (base quote : Str) (side : Side) (amount : F) (s : St World)
      → ConvertsBy
          (BaseConverted base quote side amount)
          amount
          s
          (convert_spot_size env kit cfg base quote side amount s)
  unfolding convert_spot_size
  convert_spot_size-posts base quote side amount s = elim (Bool-cases (le fl amount (zero_f fl))) [
    | inl h ↦ inl (h, rw h refl)
    | inr h ↦ inr (
      h,
      rw h (
          let q = find_spot_pair-Quiet base quote s in
          bind_cases (find_spot_pair env kit cfg base quote) _ s
            (λ u. (u.0.posted ≡ s.posted) ⊎ BaseConverted base quote side amount s u.0)
            (λ e k. inl q)
            (λ pair k.
              let t = (find_spot_pair env kit cfg base quote s).0 in
              let (is_pair, at) = find_spot_pair-ok base quote s pair k in
              elim (place_snapped-posts pair side amount s t q) [
                | inl p ↦ inl p
                | inr p ↦ inr (
                  pair,
                  is_pair,
                  subst
                      (λ w.
                        SnapPlaced pair side amount w s
                          (place_snapped env kit cfg pair side amount t).0)
                      (ap (λ (x : St World). x.world) at) p,
                )
              ])),
    )
  ]

  -- A conversion fails in the state it started in where the amount is zero or less; else it posts
  -- nothing, or places a market order, on its side and with a slippage of 5%, in a pair that the
  -- venue reports of the base and the quote token. Its size is rounded down to whole steps of the
  -- pair: for an amount of the quote token the amount divided by the mid price of the pair that the
  -- venue reports, which is positive or no number, and for an amount of the base token that amount.
  pub conversions-ConvertsBy :
      (base quote : Str) (side : Side) (amount : F) (s : St World)
      → ConvertsBy
          (QuoteConverted base quote side amount)
          amount
          s
          (convert_spot env kit cfg base quote side amount s)
        × ConvertsBy
            (BaseConverted base quote side amount)
            amount
            s
            (convert_spot_size env kit cfg base quote side amount s)
  conversions-ConvertsBy base quote side amount s = (
    convert_spot-posts base quote side amount s,
    convert_spot_size-posts base quote side amount s,
  )
