-- ===== src/Trade/Place.antt =====
-- The placement pipeline of trade/trade.go, with the stateful part of trade/validate.go.
pub mod Posts
pub mod Legs
pub mod Batch
pub mod Verbs
use hyperliquid_go.Base.{
  ℕ, Bool, true, false, Option, none, some, List, [], ◌∷◌, ◌++◌, ◌==◌, str_eq, if◌then◌else◌,
  Result, ok, err,
}
use hyperliquid_go.Base.Text.{Str, codes}
use hyperliquid_go.Types.{OrderSpec, BuilderInfo, Grouping, OrderResult, BatchResult, grouping_na}
use hyperliquid_go.Trade.Requests.{CreateOrderRequest, spec_to_requests, bracket_grouping}
use hyperliquid_go.Trade.Validate.{
  is_method, validate_option_compatibility, validate_modify, validate_static,
  validate_position_state,
}
use hyperliquid_go.Trade.Action.{new_create_order_action}
use hyperliquid_go.Trade.Response.{result_from_response, batch_result_from_response}
use hyperliquid_go.Trade.Client.{
  Env, Config, ApiResponse, Error, St, M, ◌>>=◌, ◌>>◌, return, throw, or_throw, checked, order,
  spec_without_coin, wire_failed, refresh_state, execute_action,
}

module _ (env : Env) (cfg : Config) where
  open env use {World, fl}
  open fl use {F}

  -- The position rules, over the state that is in the cache by then.
  unfoldable pub validate_cached : OrderSpec F → M World (Unit {0})
  validate_cached spec s = checked (validate_position_state fl spec s.cached) s

  -- The checks of a placement: the fields, a fresh user state, then the position.
  unfoldable pub validate_placement : OrderSpec F → M World (Unit {0})
  validate_placement spec = do
    checked (validate_static fl cfg.tables spec)
    refresh_state env cfg
    validate_cached spec

  -- `validate`
  unfoldable pub validate : OrderSpec F → M World (Unit {0})
  validate spec =
      if spec.skip_validate
      then return tt
      else checked (validate_option_compatibility fl spec)
        >> (if is_method fl spec (codes "modify")
            then checked (validate_modify fl spec)
            else validate_placement spec)

  -- `specToRequests` with its error among the others.
  unfoldable pub requests_of :
      OrderSpec F → M World (List (CreateOrderRequest F) × Option BuilderInfo)
  requests_of spec s = elim (spec_to_requests fl spec) [
    | ok r ↦ (s, ok r)
    | err _ ↦ (s, err spec_without_coin)
  ]

  -- The last steps of `place` and `placeMany`: one action for all requests, signed and posted.
  unfoldable pub submit :
      Grouping → List (CreateOrderRequest F) × Option BuilderInfo → M World (Option ApiResponse)
  submit grouping r = do
    action ← or_throw (new_create_order_action fl cfg.tables r.0 r.1 grouping) wire_failed
    execute_action env cfg (order action)

  -- `place`
  unfoldable pub place : OrderSpec F → M World OrderResult
  place spec = do
    validate spec
    r ← requests_of spec
    resp ← submit (bracket_grouping fl spec) r
    return (result_from_response env.parse_status resp)

  -- `if b != nil { builder = b }`
  abbrev pub later : Option BuilderInfo → Option BuilderInfo → Option BuilderInfo
  later builder none = builder
  later builder (some b) = some b

  -- The loop of `placeMany`: each spec is checked, and its requests are appended.
  unfoldable pub collect :
      List (OrderSpec F)
      → List (CreateOrderRequest F)
      → Option BuilderInfo
      → M World (List (CreateOrderRequest F) × Option BuilderInfo)
  collect [] reqs builder = return (reqs, builder)
  collect (spec ∷ specs) reqs builder = do
    validate spec
    r ← requests_of spec
    collect specs (reqs ++ r.0) (later builder r.1)

  -- `placeMany`
  unfoldable pub place_many : List (OrderSpec F) → M World BatchResult
  place_many specs = do
    r ← collect specs [] none
    resp ← submit grouping_na r
    return (batch_result_from_response env.parse_status resp)
