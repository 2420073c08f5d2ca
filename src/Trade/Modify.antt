-- ===== src/Trade/Modify.antt =====
-- `Modify`, `ModifyByCloid` and `doModify` of trade/modify_cancel.go.
pub mod Target
use hyperliquid_go.Base.{
  ℕ, Bool, true, false, not, ◌&&◌, Option, none, some, List, [], ◌∷◌, ◌==◌, str_eq, if◌then◌else◌,
}
use hyperliquid_go.Base.Text.{Str, codes}
use hyperliquid_go.Base.Int.{ℤ, pos, ltb_ℤ}
use hyperliquid_go.Float.{is_pos}
use hyperliquid_go.Types.{OrderSpec, OrderResult, is_buy, tif_alo, tif_gtc}
use hyperliquid_go.Types.Mixed.{json_type}
use hyperliquid_go.Trade.Spec.{PlaceOpt, apply_opts, empty_spec}
use hyperliquid_go.Trade.Requests.{CreateOrderRequest, non_empty}
use hyperliquid_go.Trade.Validate.{is_zero_ℤ}
use hyperliquid_go.Trade.Action.{new_modify_order_action}
use hyperliquid_go.Trade.Response.{result_of_status, empty_result}
use hyperliquid_go.Trade.Client.{
  Env, Config, M, ApiResponse, OrderRef, by_oid, by_cloid, modify, ◌>>=◌, ◌>>◌, return, throw,
  or_throw, wire_failed, rejected, no_status, bad_status_type, bad_status, execute_action,
}
use hyperliquid_go.Trade.Place.{validate}

module _ (env : Env) (cfg : Config) where
  open env use {World, fl}
  open fl use {F}

  -- `LimitPrice` and `OverrideSize` take the place of the price and the size.
  unfoldable pub modify_request : OrderSpec F → CreateOrderRequest F
  modify_request spec = record {
    coin = spec.coin;
    is_buy = is_buy spec.side;
    price = if is_pos fl spec.limit_price then spec.limit_price else spec.price;
    size = if is_pos fl spec.override_size then spec.override_size else spec.size;
    reduce_only = spec.reduce_only;
    order_type = record { limit = some (record { tif = tif_alo }); trigger = none };
    client_order_id = non_empty spec.cloid;
  }

  unfoldable pub modify_target : OrderSpec F → OrderRef
  modify_target spec =
      if is_zero_ℤ fl spec.modify_oid then by_cloid spec.modify_cloid else by_oid spec.modify_oid

  -- The reading of the response: the first status has to be an object that decodes. The response is
  -- a value here, so a JSON null leaves the zero value, which is not ok.
  unfoldable pub modify_result : Option ApiResponse → M World OrderResult
  modify_result none = throw (rejected [])
  modify_result (some resp) =
      if resp.is_ok
      then elim resp.statuses [
        | [] ↦ throw no_status
        | first ∷ rest ↦
            if json_type first == codes "object"
            then elim (env.parse_status first) [
              | none ↦ throw bad_status
              | some st ↦ return (result_of_status st)
            ]
            else throw bad_status_type
      ]
      else throw (rejected resp.error)

  -- `doModify`
  unfoldable pub do_modify : OrderSpec F → M World OrderResult
  do_modify spec = do
    validate env cfg spec
    action ←
        or_throw (new_modify_order_action fl cfg.tables (modify_target spec) (modify_request spec))
          wire_failed
    resp ← execute_action env cfg (modify action)
    modify_result resp

  unfoldable pub modify_by_oid : ℤ → List (PlaceOpt F) → M World OrderResult
  modify_by_oid oid opts = do_modify (
      apply_opts opts
        (record (empty_spec fl) { method = codes "modify"; modify_oid = oid; tif = tif_gtc }))

  unfoldable pub modify_by_cloid : Str → List (PlaceOpt F) → M World OrderResult
  modify_by_cloid cloid opts = do_modify (
      apply_opts opts
        (record (empty_spec fl) { method = codes "modify"; modify_cloid = cloid; tif = tif_gtc }))
