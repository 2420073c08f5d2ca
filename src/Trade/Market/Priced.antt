-- ===== src/Trade/Market/Priced.antt =====
-- The price and the order of `PlaceMarket`.
use hyperliquid_go.Base.{
  ◌≡◌, ◌≢◌, ◌∙◌, ◌⊎◌, inl, inr, refl, ap, true, false, Bool-cases, some, none, arith, ok, List, [],
  ◌∷◌, Bool, All, Result, if◌then◌else◌, if_eq_true, if_eq_false, ==_iff, str_eq, subst, ◌==◌,
}
use hyperliquid_go.Base.Text.{Str, codes}
use hyperliquid_go.Base.Dict.{Dict, lookup}
use hyperliquid_go.Float.{zero_f}
use hyperliquid_go.Types.{OrderSpec, Side, is_buy}
use hyperliquid_go.Types.Asset.{classify_asset, is_outcome}
use hyperliquid_go.Info.{asset_id, sz_decimals}
use hyperliquid_go.Trade.Spec.{PlaceOpt, apply_opts, market}
use hyperliquid_go.Trade.Action.{format_price_to_tick_size, validate_and_adjust_price}
use hyperliquid_go.Trade.Market.{
  mid_price, slippage_price, slippage_adjust, clamp_outcome, place_market, slippage_or_default,
  dex_prefix,
}
use hyperliquid_go.Trade.Client.{
  Error, query, Env, Config, St, M, or_throw, no_mids, no_midprice, return, throw, bad_midprice,
}
use hyperliquid_go.Trade.Client.Bind.{
  Quiet, bind-Quiet, bind-ok, bind_cases, or_throw-Quiet, or_throw-ok,
}
use hyperliquid_go.Trade.Place.Posts.{query-Quiet, Placed, place-posts}

module _ (env : Env) (cfg : Config) where
  open env use {World, fl}
  open fl use {F, lit, eq, add, sub, mul, parse_float}

  pub mid_price-Quiet : (name : Str) → Quiet (mid_price env cfg name)
  unfolding mid_price
  mid_price-Quiet name =
      let f = λ (w : World). env.all_mids w (dex_prefix name) in
      bind-Quiet (query env cfg f no_mids) _ (query-Quiet env cfg f no_mids) (λ mids.
        bind-Quiet (or_throw (lookup name mids) no_midprice) _
          (or_throw-Quiet (lookup name mids) no_midprice) (λ digits s. ground arith))

  pub slippage_price-Quiet :
      (name : Str) (b : Bool) (x : F) → Quiet (slippage_price env cfg name b x none)
  unfolding slippage_price
  slippage_price-Quiet name b x =
      bind-Quiet (mid_price env cfg name) _ (mid_price-Quiet name) (λ mid s. refl)

  -- The venue's state after it was asked for the mid prices of a coin's dex.
  abbrev pub asked_mids : Str → World → World
  asked_mids name w = (env.all_mids w (dex_prefix name)).0

  -- The mid price of a coin that the venue reports in the state `w`.
  abbrev pub HasMid : Str → World → F → Type 0
  HasMid name w mid =
      (mids : Dict Str Str) × (text : Str) × ((env.all_mids w (dex_prefix name)).1 ≡ some mids)
      × (lookup name mids ≡ some text)
      × (parse_float text ≡ (mid, true))

  abbrev Found : Str → St World → St World × Result Error F → Type 0
  Found name s r =
      (mid : F)
      → r.1 ≡ ok mid
      → HasMid name s.world mid × (r.0 ≡ record s { world = asked_mids name s.world })

  abbrev parsed_mid : F × Bool → M World F
  parsed_mid p = if p.1 then return p.0 else throw bad_midprice

  parsed_mid-ok :
      (p : F × Bool) (s : St World) (mid : F)
      → (parsed_mid p s).1 ≡ ok mid
      → (p ≡ (mid, true)) × ((parsed_mid p s).0 ≡ s)
  parsed_mid-ok (x, true) s mid h = let e : x ≡ mid = cc in (rw e refl, refl)
  parsed_mid-ok (x, false) s mid h = cc

  pub mid_price-ok : (name : Str) (s : St World) → Found name s (mid_price env cfg name s)
  unfolding mid_price
  mid_price-ok name s =
      let f = λ (w : World). env.all_mids w (dex_prefix name) in
      bind_cases (query env cfg f no_mids) _ s (Found name s) (λ e h mid k. cc)
        (λ mids h.
          let (m, u) =
            or_throw-ok (f s.world).1 no_mids (record s { world = asked_mids name s.world }) mids
              h in
          bind_cases (or_throw (lookup name mids) no_midprice) _ (query env cfg f no_mids s).0
            (Found name s) (λ e h' mid k. cc)
            (λ text h' mid k.
              let t = (query env cfg f no_mids s).0 in
              let (l, v) = or_throw-ok (lookup name mids) no_midprice t text h' in
              let (p, q) = parsed_mid-ok (parse_float text) _ mid k in
              ((mids, text, m, l, p), q ∙ v ∙ u)))

  -- A price on the grid of a coin: capped where the coin is an outcome, then rounded to five figures
  -- and to the decimals of the coin, and to its tick.
  abbrev pub on_grid : Str → F → F
  on_grid coin x =
      let id = asset_id cfg.tables coin in
      let class = classify_asset id in
      validate_and_adjust_price fl
        (format_price_to_tick_size fl (if is_outcome class then clamp_outcome env cfg x else x)
          (sz_decimals cfg.tables id) class)
        id

  -- The worst price of a market order: above the mid by the slippage for a buy, else below.
  abbrev pub IsWorst : Str → Side → F → F → F → Type 0
  IsWorst coin side slippage mid px =
      (side ≡ codes "B" → px ≡ on_grid coin (mul mid (add (lit 1 0) slippage)))
      × (side ≢ codes "B" → px ≡ on_grid coin (mul mid (sub (lit 1 0) slippage)))

  slippage_adjust-IsWorst :
      (coin : Str) (side : Side) (slippage mid : F)
      → IsWorst coin side slippage mid (slippage_adjust env cfg coin (is_buy side) slippage mid)
  unfolding slippage_adjust is_buy
  slippage_adjust-IsWorst coin side slippage mid =
      let (a, b) = ==_iff side (codes "B") in
      (
        (λ e. ap (on_grid coin) (if_eq_true _ _ _ (b e))),
        (λ n. elim (Bool-cases (side == codes "B")) [
          | inl h ↦ absurd (n (a h))
          | inr h ↦ ap (on_grid coin) (if_eq_false _ _ _ h)
        ]),
      )

  slippage_price-ok :
      (coin : Str) (side : Side) (slippage : F) (s : St World) (px : F)
      → (slippage_price env cfg coin (is_buy side) slippage none s).1 ≡ ok px
      → (mid : F) × HasMid coin s.world mid × IsWorst coin side slippage mid px
  unfolding slippage_price
  slippage_price-ok coin side slippage s px h =
      let (mid, k, e) = bind-ok (mid_price env cfg coin) _ s px h in
      let q : slippage_adjust env cfg coin (is_buy side) slippage mid ≡ px = cc in
      (
        mid,
        (mid_price-ok coin s mid k).0,
        subst (IsWorst coin side slippage mid) q (slippage_adjust-IsWorst coin side slippage mid),
      )

  -- Options that leave the method, the coin, the side and the size alone.
  abbrev pub KeepsMarket : List (PlaceOpt F) → Type 0
  KeepsMarket = All λ o.
      (x : OrderSpec F)
      → ((o x).method ≡ x.method)
        × ((o x).coin ≡ x.coin)
        × ((o x).side ≡ x.side)
        × ((o x).size ≡ x.size)

  -- Options that set the slippage to this, or leave it zero.
  abbrev pub SetsSlippage : List (PlaceOpt F) → F → Type 0
  SetsSlippage opts slippage =
      (x : OrderSpec F) → x.slippage ≡ zero_f fl → (apply_opts opts x).slippage ≡ slippage

  abbrev IsMarket : Str → Side → F → OrderSpec F → Type 0
  IsMarket coin side size x =
      (x.method ≡ codes "market") × (x.coin ≡ coin) × (x.side ≡ side) × (x.size ≡ size)

  apply_opts-IsMarket :
      (opts : List (PlaceOpt F)) (x : OrderSpec F) (coin : Str) (side : Side) (size : F)
      → KeepsMarket opts
      → IsMarket coin side size x
      → IsMarket coin side size (apply_opts opts x)
  unfolding apply_opts
  apply_opts-IsMarket [] x coin side size k p = p
  apply_opts-IsMarket (o ∷ os) x coin side size (h, k) (m, c, d, e) =
      let (m', c', d', e') = h x in
      apply_opts-IsMarket os (o x) coin side size k (m' ∙ m, c' ∙ c, d' ∙ d, e' ∙ e)

  market-IsMarket :
      (coin : Str) (side : Side) (size : F) (opts : List (PlaceOpt F))
      → KeepsMarket opts
      → IsMarket coin side size (market fl coin side size opts)
  unfolding market
  market-IsMarket coin side size opts k =
      apply_opts-IsMarket opts _ coin side size k (refl, refl, refl, refl)

  market-slippage :
      (coin : Str) (side : Side) (size slippage : F) (opts : List (PlaceOpt F))
      → SetsSlippage opts slippage
      → (market fl coin side size opts).slippage ≡ slippage
  unfolding market
  market-slippage coin side size slippage opts k = k _ refl

  -- A slippage of zero stands for 5%.
  abbrev pub effective : F → F
  effective slippage = if eq slippage (zero_f fl) then lit 5 2 else slippage

  -- A market order of that coin, side and size was placed at the worst price of a mid price that the
  -- venue reported.
  abbrev pub MarketPlaced : Str → Side → F → F → St World → St World → Type 0
  MarketPlaced coin side size slippage s s' =
      (spec : OrderSpec F) × (mid : F) × (t : St World) × HasMid coin s.world mid
      × IsWorst coin side (effective slippage) mid spec.price
      × IsMarket coin side size spec
      × (t.posted ≡ s.posted)
      × Placed env cfg spec t s'

  pub place_market-posts :
      (coin : Str) (side : Side) (size slippage : F) (opts : List (PlaceOpt F)) (s : St World)
      → KeepsMarket opts
      → SetsSlippage opts slippage
      → let s' = (place_market env cfg coin side size opts s).0 in
        (s'.posted ≡ s.posted) ⊎ MarketPlaced coin side size slippage s s'
  unfolding place_market slippage_or_default
  place_market-posts coin side size slippage opts s keeps sets =
      let spec = market fl coin side size opts in
      let slip = slippage_or_default env cfg spec.slippage in
      let quiet = slippage_price-Quiet coin (is_buy side) slip s in
      bind_cases (slippage_price env cfg coin (is_buy side) slip none) _ s
        (λ u. (u.0.posted ≡ s.posted) ⊎ MarketPlaced coin side size slippage s u.0)
        (λ e h. inl quiet)
        (λ px h.
          let t = (slippage_price env cfg coin (is_buy side) slip none s).0 in
          let (mid, m, w) = slippage_price-ok coin side slip s px h in
          let same = market-slippage coin side size slippage opts sets in
          elim (place-posts env cfg (record spec { price = px }) t) [
            | inl p ↦ inl (p ∙ quiet)
            | inr p ↦ inr (
              record spec { price = px },
              mid,
              t,
              m,
              subst (λ x. IsWorst coin side (effective x) mid px) same w,
              market-IsMarket coin side size opts keeps,
              quiet,
              p,
            )
          ])
