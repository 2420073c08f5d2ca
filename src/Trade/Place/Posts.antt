-- ===== src/Trade/Place/Posts.antt =====
-- What the placement pipeline posts, and when.
use hyperliquid_go.Trade.Client.Bind.{
  or_throw-ok, or_throw-Quiet, checked-Quiet, bind-Quiet, bind_cases, Quiet,
}
use hyperliquid_go.Base.{
  ◌==◌, str_eq, ◌∙◌, ◌≡◌, refl, ◌⊎◌, inl, inr, ◌++◌, ◌∷◌, [], Option, some, ok, List, arith,
  Bool-cases, Option-cases,
}
use hyperliquid_go.Base.{ℕ}
use hyperliquid_go.Base.Text.{Str}
use hyperliquid_go.Types.{OrderSpec, BuilderInfo, Grouping}
use hyperliquid_go.Trade.Requests.{CreateOrderRequest, spec_to_requests, bracket_grouping}
use hyperliquid_go.Trade.Action.{new_create_order_action}
use hyperliquid_go.Trade.Client.{
  set_cached, ◌>>=◌, return, no_user_state, query, wire_failed, checked, post_failed, or_throw,
  effective_addr, decode_failed, post_action, Error, Env, Config, St, M, Action, Envelope,
  OrderAction, order, refresh_state, execute_action, sign_and_post, envelope,
}
use hyperliquid_go.Trade.Place.{
  result_from_response, OrderResult, validate, validate_placement, validate_cached, requests_of,
  submit, place,
}

module _ (env : Env) (cfg : Config) where
  open env use {World, fl}
  open fl use {F}

  pub query-Quiet :
      {A : Type 0} (f : World → World × Option A) (e : Error) → Quiet (query env cfg f e)
  query-Quiet f e s = or_throw-Quiet (f s.world).1 e (record s { world = (f s.world).0 })

  pub refresh_state-Quiet : Quiet (refresh_state env cfg)
  unfolding refresh_state
  refresh_state-Quiet s =
      let f = λ (w : World). env.user_state w (effective_addr env cfg) cfg.dex in
      elim (Bool-cases (effective_addr env cfg == [])) [
        | inl e ↦ rw e
        | inr e ↦ rw e (
            bind-Quiet (query env cfg f no_user_state) (set_cached env cfg)
              (query-Quiet f no_user_state) (λ u t. refl) s)
      ]

  validate_cached-Quiet : (spec : OrderSpec F) → Quiet (validate_cached env cfg spec)
  unfolding validate_cached
  validate_cached-Quiet spec s = checked-Quiet _ s

  validate_placement-Quiet : (spec : OrderSpec F) → Quiet (validate_placement env cfg spec)
  unfolding validate_placement
  validate_placement-Quiet spec = bind-Quiet (checked _) _ (checked-Quiet _) (λ _.
      bind-Quiet (refresh_state env cfg) _ refresh_state-Quiet (λ _. validate_cached-Quiet spec))

  pub validate-Quiet : (spec : OrderSpec F) → Quiet (validate env cfg spec)
  unfolding validate
  validate-Quiet spec s = ground (arith, validate_placement-Quiet spec s)

  -- The state after the post of an action that was signed for `vault`.
  abbrev pub Posted : Str → Action → St World → St World → Type 0
  Posted vault a s s' =
      (nonce : ℕ) × (sig : Str) × (env.sign_l1 a vault nonce cfg.expires_after cfg.is_mainnet
        ≡ some sig)
      × (s'.posted ≡ s.posted ++ (envelope env cfg a nonce sig ∷ []))

  pub post_action-posted :
      (e : Envelope) (s : St World) → (post_action env cfg e s).0.posted ≡ s.posted ++ (e ∷ [])
  unfolding post_action
  post_action-posted e s = or_throw-Quiet (env.post_exchange s.world e).1 post_failed _

  pub sign_and_post-Posted :
      (vault : Str) (a : Action) (s : St World)
      → let s' = (sign_and_post env cfg vault a s).0 in (s'.posted ≡ s.posted) ⊎ Posted vault a s s'
  unfolding sign_and_post
  sign_and_post-Posted vault a s =
      elim (Option-cases
        (env.sign_l1 a vault (env.now_ms s.world) cfg.expires_after cfg.is_mainnet)) [
          | inl e ↦ inl (rw (e, sign_and_post))
          | inr (sig, e) ↦ inr (
            env.now_ms s.world,
            sig,
            e,
            rw (e, sign_and_post) (post_action-posted (envelope env cfg a _ sig) s),
          )
        ]

  -- An action is posted once, or not at all.
  pub execute_action-Posted :
      (a : Action) (s : St World)
      → let s' = (execute_action env cfg a s).0 in (s'.posted ≡ s.posted) ⊎ Posted cfg.vault a s s'
  unfolding execute_action
  execute_action-Posted a s =
      bind_cases (sign_and_post env cfg cfg.vault a) _ s
        (λ t. (t.0.posted ≡ s.posted) ⊎ Posted cfg.vault a s t.0)
        (λ e h. sign_and_post-Posted cfg.vault a s)
        (λ body h.
          rw (or_throw-Quiet (env.decode_response body) decode_failed _)
            (sign_and_post-Posted cfg.vault a s))

  abbrev pub Submitted :
      Grouping → List (CreateOrderRequest F) × Option BuilderInfo → St World → St World → Type 0
  Submitted g r s s' =
      (a : OrderAction) × (new_create_order_action fl cfg.tables r.0 r.1 g ≡ some a)
      × Posted cfg.vault (order a) s s'

  pub submit-Submitted :
      (g : Grouping) (r : List (CreateOrderRequest F) × Option BuilderInfo) (s : St World)
      → let s' = (submit env cfg g r s).0 in (s'.posted ≡ s.posted) ⊎ Submitted g r s s'
  unfolding submit
  submit-Submitted g r s =
      bind_cases (or_throw (new_create_order_action fl cfg.tables r.0 r.1 g) wire_failed) _ s
        (λ t. (t.0.posted ≡ s.posted) ⊎ Submitted g r s t.0) (λ e h. inl (or_throw-Quiet _ _ s))
        (λ a h.
          let k = or_throw-ok (new_create_order_action fl cfg.tables r.0 r.1 g) wire_failed s a h in
          rw (k.1)
            (elim (execute_action-Posted (order a) s) [ inl p ↦ inl p | inr p ↦ inr (a, k.0, p) ]))

  pub requests_of-ok :
      (spec : OrderSpec F) (s : St World) (r : List (CreateOrderRequest F) × Option BuilderInfo)
      → (requests_of env cfg spec s).1 ≡ ok r
      → (spec_to_requests fl spec ≡ ok r) × ((requests_of env cfg spec s).0 ≡ s)
  unfolding requests_of
  requests_of-ok spec s r h = ground arith

  pub requests_of-Quiet : (spec : OrderSpec F) → Quiet (requests_of env cfg spec)
  unfolding requests_of
  requests_of-Quiet spec s = ground arith

  -- What `place` did between the two states.
  abbrev pub Placed : OrderSpec F → St World → St World → Type 0
  Placed spec s s' =
      (r : List (CreateOrderRequest F) × Option BuilderInfo) × ((validate env cfg spec s).1 ≡ ok tt)
      × (spec_to_requests fl spec ≡ ok r)
      × Submitted (bracket_grouping fl spec) r s s'

  pub Submitted-from :
      (g : Grouping) (r : List (CreateOrderRequest F) × Option BuilderInfo) (s t s' : St World)
      → t.posted ≡ s.posted
      → Submitted g r t s'
      → Submitted g r s s'
  Submitted-from g r s t s' e (a, h, (n, sig, k, p)) = (a, h, (n, sig, k, rw (← e) p))

  -- `place` once the checks have passed.
  abbrev submit_requests : OrderSpec F → M World OrderResult
  submit_requests spec = requests_of env cfg spec >>= λ r.
      submit env cfg (bracket_grouping fl spec) r >>= λ resp.
      return (result_from_response env.parse_status resp)

  submit_requests-posts :
      (spec : OrderSpec F) (s t : St World)
      → t.posted ≡ s.posted
      → (validate env cfg spec s).1 ≡ ok tt
      → let s' = (submit_requests spec t).0 in (s'.posted ≡ s.posted) ⊎ Placed spec s s'
  submit_requests-posts spec s t e v =
      bind_cases (requests_of env cfg spec) _ t (λ u. (u.0.posted ≡ s.posted) ⊎ Placed spec s u.0)
        (λ x h. inl (requests_of-Quiet spec t ∙ e))
        (λ r h.
          let u = (requests_of env cfg spec t).0 in
          let g = bracket_grouping fl spec in
          let q = requests_of-Quiet spec t ∙ e in
          let k : (((submit env cfg g r u).0.posted ≡ s.posted)
              ⊎ Placed spec s (submit env cfg g r u).0) =
            elim (submit-Submitted g r u) [
              | inl p ↦ inl (p ∙ q)
              | inr p ↦ inr (
                r,
                v,
                (requests_of-ok spec t r h).0,
                Submitted-from g r s u (submit env cfg g r u).0 q p,
              )
            ] in
          bind_cases (submit env cfg g r) _ u (λ w. (w.0.posted ≡ s.posted) ⊎ Placed spec s w.0)
            (λ x _. k) (λ resp _. k))

  -- A placement posts nothing, or one order action: the wire form of the requests of the spec, under
  -- the grouping of its bracket, signed for the vault, after every check has passed.
  pub place-posts :
      (spec : OrderSpec F) (s : St World)
      → let s' = (place env cfg spec s).0 in (s'.posted ≡ s.posted) ⊎ Placed spec s s'
  unfolding place
  place-posts spec s =
      bind_cases (validate env cfg spec) _ s (λ t. (t.0.posted ≡ s.posted) ⊎ Placed spec s t.0)
        (λ e h. inl (validate-Quiet spec s))
        (λ v h. submit_requests-posts spec s (validate env cfg spec s).0 (validate-Quiet spec s) h)
