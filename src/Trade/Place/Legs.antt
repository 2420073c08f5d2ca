-- ===== src/Trade/Place/Legs.antt =====
-- The legs of a placement, from the spec to the orders of the posted action.
use hyperliquid_go.Base.{
  ◌≡◌, ◌⊎◌, if_eq_false, fail_if, subst, inl, inr, true, false, Option, ok, arith, All, List, [],
  ◌∷◌, ◌==◌, str_eq, ◌∙◌, ap,
}
use hyperliquid_go.Base.Text.{codes}
use hyperliquid_go.Float.{Float, OrderLaws, zero_f, is_pos}
use hyperliquid_go.Types.{OrderSpec, BuilderInfo}
use hyperliquid_go.Trade.Requests.{
  builder_of, bracket_grouping, CreateOrderRequest, parent_request, bracket_orders,
  spec_to_requests,
}
use hyperliquid_go.Trade.Client.{Env, Config, St, M, ◌>>◌, checked, coin_required}
use hyperliquid_go.Trade.Client.Bind.{bind-ok, checked-ok}
use hyperliquid_go.Trade.Validate.{
  is_method, validate_option_compatibility, validate_static, validate_bracket, validate_price,
  validate_size, known_coin,
}
use hyperliquid_go.Trade.Validate.Bracket.{and_then-ok, SafeLeg, bracket_orders-SafeLeg}
use hyperliquid_go.Trade.Place.{place, validate, validate_placement}
use hyperliquid_go.Trade.Place.Posts.{Submitted, place-posts}

pub spec_to_requests-ok :
    (fl : Float) (spec : OrderSpec fl.F) (r : List (CreateOrderRequest fl.F) × Option BuilderInfo)
    → spec_to_requests fl spec ≡ ok r
    → r ≡ (parent_request fl spec ∷ bracket_orders fl spec, builder_of fl spec)
unfolding spec_to_requests
spec_to_requests-ok fl spec r e = ground arith

module _ (env : Env) (cfg : Config) where
  open env use {World, fl}
  open fl use {F, eq}

  validate-placement :
      (spec : OrderSpec F)
      → spec.skip_validate ≡ false
      → is_method fl spec (codes "modify") ≡ false
      → validate env cfg spec
        ≡ (checked (validate_option_compatibility fl spec) >> validate_placement env cfg spec)
  unfolding validate
  validate-placement spec noskip nomod =
      if_eq_false spec.skip_validate _ _ noskip
      ∙ ap {B = M World (Unit {0})}
          (λ (m : M World (Unit {0})). checked (validate_option_compatibility fl spec) >> m)
          (if_eq_false (is_method fl spec (codes "modify")) _ _ nomod)

  validate-ok :
      (spec : OrderSpec F) (s : St World)
      → spec.skip_validate ≡ false
      → is_method fl spec (codes "modify") ≡ false
      → (validate env cfg spec s).1 ≡ ok tt
      → validate_static fl cfg.tables spec ≡ ok tt
  unfolding validate_placement
  validate-ok spec s noskip nomod h =
      let (u, _, k) =
        bind-ok (checked (validate_option_compatibility fl spec))
          (λ _. validate_placement env cfg spec) s tt
          (rw (validate-placement spec noskip nomod) at h) in
      let (u', v, _) = bind-ok (checked (validate_static fl cfg.tables spec)) _ _ tt k in
      checked-ok (validate_static fl cfg.tables spec) _ tt v

  static-bracket :
      (spec : OrderSpec F)
      → validate_static fl cfg.tables spec ≡ ok tt
      → validate_bracket fl spec ≡ ok tt
  unfolding validate_static
  static-bracket spec h =
      let (_, a) = and_then-ok (fail_if (spec.coin == []) coin_required) _ h in
      let (_, b) = and_then-ok (known_coin fl cfg.tables spec.coin) _ a in
      let (_, c) = and_then-ok (validate_size fl cfg.tables spec) _ b in
      (and_then-ok (validate_price fl spec) _ c).1

  -- For floats that obey the order laws and a spec that is checked, is no modification and has a
  -- non-zero price that is a number and a positive size, `place` posts nothing, or one action for the
  -- parent and legs that all are safe: reduce-only, on the other side, of at most the entry's size,
  -- and market triggers above or below the entry price as their kind says.
  pub place-SafeLeg :
      (spec : OrderSpec F) (s : St World)
      → OrderLaws fl
      → spec.skip_validate ≡ false
      → is_method fl spec (codes "modify") ≡ false
      → eq spec.price spec.price ≡ true
      → eq spec.price (zero_f fl) ≡ false
      → is_pos fl spec.size ≡ true
      → let s' = (place env cfg spec s).0 in
        (s'.posted ≡ s.posted)
        ⊎ ((legs : List (CreateOrderRequest F)) × (b : Option BuilderInfo) × All
              (SafeLeg fl spec)
              legs
            × Submitted env cfg (bracket_grouping fl spec) (parent_request fl spec ∷ legs, b) s s')
  place-SafeLeg spec s laws noskip nomod number priced sized = elim (place-posts env cfg spec s) [
    | inl p ↦ inl p
    | inr (r, v, e, sub) ↦ inr (
      bracket_orders fl spec,
      builder_of fl spec,
      bracket_orders-SafeLeg fl laws spec number priced sized
          (static-bracket spec (validate-ok spec s noskip nomod v)),
      subst (λ q. Submitted env cfg (bracket_grouping fl spec) q s (place env cfg spec s).0)
          (spec_to_requests-ok fl spec r e) sub,
    )
  ]
