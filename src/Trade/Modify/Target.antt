-- ===== src/Trade/Modify/Target.antt =====
-- What `Modify` and `ModifyByCloid` post.
use hyperliquid_go.Base.{
  Option-cases, All, ◌≡◌, refl, ◌⊎◌, inl, inr, some, none, ok, err, [], ◌∷◌, ◌++◌, arith, true,
  false, Bool, ◌∙◌, List, Option, subst, ap,
}
use hyperliquid_go.Base.Text.{codes}
use hyperliquid_go.Base.Int.{ℤ}
use hyperliquid_go.Types.{OrderSpec, is_buy, tif_gtc}
use hyperliquid_go.Trade.Requests.{CreateOrderRequest}
use hyperliquid_go.Info.{asset_id}
use hyperliquid_go.Trade.Spec.{empty_spec, PlaceOpt, apply_opts}
use hyperliquid_go.Trade.Client.{
  envelope, ApiResponse, execute_action, Env, Config, St, OrderRef, ModifyAction, modify, or_throw,
  wire_failed, ◌>>=◌,
}
use hyperliquid_go.Trade.Client.Bind.{bind_cases, or_throw-ok, or_throw-Quiet}
use hyperliquid_go.Trade.Action.{new_modify_order_action, order_wire}
use hyperliquid_go.Trade.Action.Orders.{SameOrder, order_wire-SameOrder}
use hyperliquid_go.Trade.Place.{validate}
use hyperliquid_go.Trade.Place.Posts.{Posted, validate-Quiet, execute_action-Posted}
use hyperliquid_go.Trade.Modify.{
  modify_request, modify_target, modify_result, do_modify, modify_by_oid,
}

module _ (env : Env) (cfg : Config) where
  open env use {World, fl}
  open fl use {F}

  -- What a modification posted: one action, for the target of the spec.
  abbrev pub Modified : OrderSpec F → St World → St World → Type 0
  Modified spec s s' =
      (a : ModifyAction) × (new_modify_order_action fl cfg.tables (modify_target env cfg spec)
          (modify_request env cfg spec)
        ≡ some a)
      × Posted env cfg cfg.vault (modify a) s s'

  modify_result-Quiet :
      (r : Option ApiResponse) (s : St World) → (modify_result env cfg r s).0.posted ≡ s.posted
  unfolding modify_result
  modify_result-Quiet r s = ground arith

  -- The state after a modification, for the posts before it.
  abbrev pub ModifyPosts : OrderSpec F → St World → St World → Type 0
  ModifyPosts spec s s' =
      (s'.posted ≡ s.posted) ⊎ (((validate env cfg spec s).1 ≡ ok tt) × Modified spec s s')

  executed :
      (spec : OrderSpec F) (s t : St World) (a : ModifyAction)
      → t.posted ≡ s.posted
      → (validate env cfg spec s).1 ≡ ok tt
      → new_modify_order_action fl cfg.tables
          (modify_target env cfg spec)
          (modify_request env cfg spec)
        ≡ some a
      → (s' : St World) → s'.posted ≡ (execute_action env cfg (modify a) t).0.posted
      → ModifyPosts spec s s'
  executed spec s t a q v k s' e = elim (execute_action-Posted env cfg (modify a) t) [
    | inl p ↦ inl (e ∙ p ∙ q)
    | inr (n, sig, sg, p) ↦
        inr (
          v,
          (a, k, (n, sig, sg, e ∙ p ∙ ap (λ x. x ++ (envelope env cfg (modify a) n sig ∷ [])) q)),
        )
  ]

  wired :
      (spec : OrderSpec F) (s t : St World)
      → t.posted ≡ s.posted
      → (validate env cfg spec s).1 ≡ ok tt
      → ModifyPosts spec s
          ((or_throw
                (new_modify_order_action fl cfg.tables
                  (modify_target env cfg spec)
                  (modify_request env cfg spec))
                wire_failed
              >>= λ a. execute_action env cfg (modify a) >>= modify_result env cfg)
            t).0
  wired spec s t q v =
      let o =
        new_modify_order_action fl cfg.tables (modify_target env cfg spec)
          (modify_request env cfg spec) in
      bind_cases (or_throw o wire_failed) _ t (λ u. ModifyPosts spec s u.0)
        (λ e h. inl (or_throw-Quiet o wire_failed t ∙ q))
        (λ a h.
          let (k, same) = or_throw-ok o wire_failed t a h in
          rw same (
            bind_cases (execute_action env cfg (modify a)) (modify_result env cfg) t
              (λ u. ModifyPosts spec s u.0)
              (λ e _. executed spec s t a q v k (execute_action env cfg (modify a) t).0 refl)
              (λ r _.
                let u = (execute_action env cfg (modify a) t).0 in
                executed spec s t a q v k (modify_result env cfg r u).0 (modify_result-Quiet r u))))

  -- A modification posts nothing, or exactly one body: the modify action of its target and request,
  -- signed for the client's vault, and only after its checks passed.
  pub do_modify-posts :
      (spec : OrderSpec F) (s : St World) → ModifyPosts spec s (do_modify env cfg spec s).0
  unfolding do_modify
  do_modify-posts spec s =
      bind_cases (validate env cfg spec) _ s (λ u. ModifyPosts spec s u.0)
        (λ e h. inl (validate-Quiet env cfg spec s))
        (λ v h. wired spec s (validate env cfg spec s).0 (validate-Quiet env cfg spec s) h)

  -- An option that leaves the coin and the side alone.
  abbrev pub Keeps : PlaceOpt F → Type 0
  Keeps o = (spec : OrderSpec F) → ((o spec).coin ≡ spec.coin) × ((o spec).side ≡ spec.side)

  apply_opts-Keeps :
      (opts : List (PlaceOpt F)) (spec : OrderSpec F)
      → All Keeps opts
      → let r = apply_opts opts spec in (r.coin ≡ spec.coin) × (r.side ≡ spec.side)
  unfolding apply_opts
  apply_opts-Keeps [] spec h = (refl, refl)
  apply_opts-Keeps (o ∷ opts) spec (k, h) =
      let (c, d) = apply_opts-Keeps opts (o spec) h in let (c', d') = k spec in (c ∙ c', d ∙ d')

  modify_action-order :
      (oid : OrderRef) (o : CreateOrderRequest F) (a : ModifyAction)
      → new_modify_order_action fl cfg.tables oid o ≡ some a
      → (a.oid ≡ oid) × SameOrder cfg.tables o a.order
  unfolding new_modify_order_action
  modify_action-order oid o a h = elim (Option-cases (order_wire fl cfg.tables o)) [
    | inl e ↦ absurd (ground arith)
    | inr (w, e) ↦ ground (arith, order_wire-SameOrder fl cfg.tables o w e)
  ]

  no_side : (spec : OrderSpec F) → spec.side ≡ [] → is_buy spec.side ≡ false
  unfolding is_buy hyperliquid_go.Base.str_beq
  no_side spec d = ap is_buy d

  -- The order of a modification whose spec names no coin and no side.
  blind :
      (spec : OrderSpec F) (a : ModifyAction)
      → spec.coin ≡ []
      → spec.side ≡ []
      → new_modify_order_action fl cfg.tables
          (modify_target env cfg spec)
          (modify_request env cfg spec)
        ≡ some a
      → (a.order.asset ≡ asset_id cfg.tables []) × (a.order.is_buy ≡ false)
  unfolding modify_request
  blind spec a c d h =
      let (_, (p, q, _, _)) =
        modify_action-order (modify_target env cfg spec) (modify_request env cfg spec) a h in
      (p ∙ ap (asset_id cfg.tables) c, q ∙ no_side spec d)

  -- For options that leave coin and side alone, `Modify` posts nothing, or one modification whose
  -- order is a sell of the asset id of the empty coin name.
  pub modify_by_oid-sells :
      (oid : ℤ) (opts : List (PlaceOpt F)) (s : St World)
      → All Keeps opts
      → let s' = (modify_by_oid env cfg oid opts s).0 in
        (s'.posted ≡ s.posted)
        ⊎ ((a : ModifyAction) × (a.order.asset ≡ asset_id cfg.tables [])
            × (a.order.is_buy ≡ false)
            × Posted env cfg cfg.vault (modify a) s s')
  unfolding modify_by_oid
  modify_by_oid-sells oid opts s h =
      let start = record (empty_spec fl) {
        method = codes "modify";
        modify_oid = oid;
        tif = tif_gtc;
      } in
      let spec = apply_opts opts start in
      let (c, d) = apply_opts-Keeps opts start h in
      elim (do_modify-posts spec s) [
        | inl p ↦ inl p
        | inr (_, (a, e, p)) ↦ let (asset, side) = blind spec a c d e in inr (a, asset, side, p)
      ]
