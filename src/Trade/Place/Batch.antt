-- ===== src/Trade/Place/Batch.antt =====
-- What `placeMany` posts.
use hyperliquid_go.Base.{
  subst, Result, ◌≡◌, refl, ◌⊎◌, inl, inr, Option, none, ok, List, [], ◌∷◌, ◌++◌, append_assoc,
  append-nil, ◌∙◌, ap, sym,
}
use hyperliquid_go.Types.{OrderSpec, BuilderInfo, grouping_na}
use hyperliquid_go.Trade.Requests.{CreateOrderRequest, parent_request, bracket_orders, builder_of}
use hyperliquid_go.Trade.Client.{Error, Env, Config, St}
use hyperliquid_go.Trade.Client.Bind.{bind_cases, bind-ok, bind-Quiet, Quiet}
use hyperliquid_go.Trade.Place.{validate, requests_of, submit, later, collect, place_many}
use hyperliquid_go.Trade.Place.Posts.{
  validate-Quiet, requests_of-ok, requests_of-Quiet, Submitted, Submitted-from, submit-Submitted,
}
use hyperliquid_go.Trade.Place.Legs.{spec_to_requests-ok}

module _ (env : Env) (cfg : Config) where
  open env use {World, fl}
  open fl use {F}

  -- The requests of all specs, in their order: each parent is followed by its legs.
  abbrev pub all_requests : List (OrderSpec F) → List (CreateOrderRequest F)
  all_requests [] = []
  all_requests (spec ∷ specs) =
      (parent_request fl spec ∷ bracket_orders fl spec) ++ all_requests specs

  -- The builder of the last spec that names one.
  abbrev pub last_builder : Option BuilderInfo → List (OrderSpec F) → Option BuilderInfo
  last_builder b [] = b
  last_builder b (spec ∷ specs) = last_builder (later env cfg b (builder_of fl spec)) specs

  collect-Quiet :
      (specs : List (OrderSpec F)) (reqs : List (CreateOrderRequest F)) (b : Option BuilderInfo)
      → Quiet (collect env cfg specs reqs b)
  unfolding collect
  collect-Quiet [] reqs b s = refl
  collect-Quiet (spec ∷ specs) reqs b s =
      bind-Quiet (validate env cfg spec) _ (validate-Quiet env cfg spec)
        (λ _.
          bind-Quiet (requests_of env cfg spec) _ (requests_of-Quiet env cfg spec)
            (λ r. collect-Quiet specs (reqs ++ r.0) (later env cfg b r.1)))
        s

  -- Every spec passed its checks: the first from the state `s`, each later one from the state that
  -- the checks before it left.
  abbrev pub AllPass : List (OrderSpec F) → St World → Type 0
  AllPass [] s = Unit
  AllPass (spec ∷ specs) s = let (t, r) = validate env cfg spec s in (r ≡ ok tt) × AllPass specs t

  abbrev Requests : Type 0
  Requests = List (CreateOrderRequest F) × Option BuilderInfo

  same : (q r : Requests) → ◌≡◌ {A = Result Error Requests} (ok q) (ok r) → r ≡ q
  same q r h = cc

  collect-ok :
      (specs : List (OrderSpec F)) (reqs : List (CreateOrderRequest F)) (b : Option BuilderInfo)
      (s : St World) (r : List (CreateOrderRequest F) × Option BuilderInfo)
      → (collect env cfg specs reqs b s).1 ≡ ok r
      → r ≡ (reqs ++ all_requests specs, last_builder b specs)
  unfolding collect
  collect-ok [] reqs b s r h =
      same (reqs, b) r h
      ∙ ap {A = List (CreateOrderRequest F)} (λ xs. (xs, b)) (sym (append-nil reqs))
  collect-ok (spec ∷ specs) reqs b s r h =
      let (_, _, k) = bind-ok (validate env cfg spec) _ s r h in
      let (q, v, k') = bind-ok (requests_of env cfg spec) _ _ r k in
      let e = spec_to_requests-ok fl spec q (requests_of-ok env cfg spec _ q v).0 in
      let rest = all_requests specs in
      collect-ok specs (reqs ++ q.0) (later env cfg b q.1) _ r k'
      ∙ ap {A = Requests} {B = Requests}
          (λ q. ((reqs ++ q.0) ++ rest, last_builder (later env cfg b q.1) specs)) e
      ∙ ap {A = List (CreateOrderRequest F)} {B = Requests}
          (λ xs. (xs, last_builder b (spec ∷ specs)))
          (append_assoc reqs (parent_request fl spec ∷ bracket_orders fl spec) rest)

  collect-AllPass :
      (specs : List (OrderSpec F)) (reqs : List (CreateOrderRequest F)) (b : Option BuilderInfo)
      (s : St World) (r : Requests)
      → (collect env cfg specs reqs b s).1 ≡ ok r
      → AllPass specs s
  unfolding collect
  collect-AllPass [] reqs b s r h = tt
  collect-AllPass (spec ∷ specs) reqs b s r h =
      let (_, v, k) = bind-ok (validate env cfg spec) _ s r h in
      let (q, v', k') = bind-ok (requests_of env cfg spec) _ _ r k in
      let same_state = (requests_of-ok env cfg spec _ q v').1 in
      (v, subst (AllPass specs) same_state (collect-AllPass specs _ _ _ r k'))

  -- Nothing was posted, or the action of all requests after all checks.
  abbrev pub Batched : List (OrderSpec F) → St World → St World → Type 0
  Batched specs s s' =
      let r : Requests = (all_requests specs, last_builder none specs) in
      (s'.posted ≡ s.posted) ⊎ (AllPass specs s × Submitted env cfg grouping_na r s s')

  batched :
      (specs : List (OrderSpec F)) (s : St World) (r : Requests)
      → (collect env cfg specs [] none s).1 ≡ ok r
      → Batched specs s (submit env cfg grouping_na r (collect env cfg specs [] none s).0).0
  batched specs s r h =
      let t = (collect env cfg specs [] none s).0 in
      let q = collect-Quiet specs [] none s in
      let e : (r ≡ (all_requests specs, last_builder none specs)) =
        collect-ok specs [] none s r h in
      elim (submit-Submitted env cfg grouping_na r t) [
        | inl p ↦ inl (p ∙ q)
        | inr p ↦ inr (
          collect-AllPass specs [] none s r h,
          subst
              (λ (x : Requests).
                Submitted env cfg grouping_na x s (submit env cfg grouping_na r t).0)
              e (Submitted-from env cfg grouping_na r s t (submit env cfg grouping_na r t).0 q p),
        )
      ]

  -- `placeMany` posts nothing, or exactly one order action without a grouping: the requests of all
  -- specs in their order, under the last builder that a spec names, and only after every spec has
  -- passed its checks, one spec after the other.
  pub place_many-posts :
      (specs : List (OrderSpec F)) (s : St World) → Batched specs s (place_many env cfg specs s).0
  unfolding place_many
  place_many-posts specs s =
      bind_cases (collect env cfg specs [] none) _ s (λ t. Batched specs s t.0)
        (λ e h. inl (collect-Quiet specs [] none s))
        (λ r h.
          let t = (collect env cfg specs [] none s).0 in
          bind_cases (submit env cfg grouping_na r) _ t (λ u. Batched specs s u.0)
            (λ e _. batched specs s r h) (λ resp _. batched specs s r h))
