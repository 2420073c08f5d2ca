-- ===== src/Trade/Cancel.antt =====
-- trade/exchange_orders_cancel.go, and `CancelAll` of trade/modify_cancel.go.
pub mod Posts
use hyperliquid_go.Base.{
  Bool, true, false, ◌||◌, Option, none, some, List, [], ◌∷◌, ◌==◌, str_eq, if◌then◌else◌, map,
}
use hyperliquid_go.Base.Text.{Str}
use hyperliquid_go.Base.Int.{ℤ}
use hyperliquid_go.Types.{CancelResult, BatchCancelResult}
use hyperliquid_go.Info.{Tables, asset_id}
use hyperliquid_go.Trade.Response.{cancel_batch_from_response, empty_batch_cancel}
use hyperliquid_go.Trade.Client.{
  Env, Config, M, ApiResponse, OpenOrder, CancelOrderWire, cancel, cancel_by_cloid, ◌>>=◌, return,
  throw, or_throw, rejected, no_status, no_open_orders, execute_action, query,
}

-- `keep` of `CancelAll`: no coins means every coin.
unfoldable pub mem_coin : List Str → Str → Bool
mem_coin [] coin = false
mem_coin (k ∷ ks) coin = k == coin || mem_coin ks coin

unfoldable pub keep_coin : List Str → Str → Bool
keep_coin [] coin = true
keep_coin (k ∷ ks) coin = mem_coin (k ∷ ks) coin

-- The orders of the kept coins, in their order.
unfoldable pub kept : List Str → List OpenOrder → List OpenOrder
kept coins [] = []
kept coins (o ∷ os) = let rest = kept coins os in if keep_coin coins o.coin then o ∷ rest else rest

unfoldable pub cancel_wire : Tables → OpenOrder → CancelOrderWire
cancel_wire t o = record { asset = asset_id t o.coin; order_id = o.oid }

module _ (env : Env) (cfg : Config) where
  open env use {World}

  -- `bulkCancel`
  unfoldable pub bulk_cancel : List OpenOrder → M World (Option ApiResponse)
  bulk_cancel orders = execute_action env cfg (cancel (map (cancel_wire cfg.tables) orders))

  -- `cancelResultOrError`
  unfoldable pub cancel_result_or_error : Option ApiResponse → M World CancelResult
  cancel_result_or_error none = throw no_status
  cancel_result_or_error (some resp) =
      if resp.is_ok
      then elim resp.statuses [
        | [] ↦ return (record { status = []; error = [] })
        | first ∷ rest ↦ elim (env.parse_cancel_error first) [
          | none ↦ return (record { status = first; error = [] })
          | some e ↦
              if e == [] then return (record { status = first; error = [] }) else throw (rejected e)
        ]
      ]
      else throw (rejected resp.error)

  -- `Cancel`
  unfoldable pub cancel_order : Str → ℤ → M World CancelResult
  cancel_order coin oid = do
    resp ← bulk_cancel (record { coin = coin; oid = oid } ∷ [])
    cancel_result_or_error resp

  -- `CancelByCloid`
  unfoldable pub cancel_order_by_cloid : Str → Str → M World CancelResult
  cancel_order_by_cloid coin cloid = do
    resp ←
        execute_action env cfg
          (cancel_by_cloid (record { asset = asset_id cfg.tables coin; client_id = cloid } ∷ []))
    cancel_result_or_error resp

  -- The address whose orders `CancelAll` asks for.
  unfoldable pub orders_addr : Str
  orders_addr = if cfg.account_addr == [] then cfg.vault else cfg.account_addr

  -- The end of `CancelAll`: nothing is sent where no order is left.
  unfoldable pub cancel_kept : List OpenOrder → M World BatchCancelResult
  cancel_kept [] = return empty_batch_cancel
  cancel_kept (o ∷ os) = do resp ← bulk_cancel (o ∷ os); return (cancel_batch_from_response resp)

  -- `CancelAll`
  unfoldable pub cancel_all : List Str → M World BatchCancelResult
  cancel_all coins = do
    orders ← query env cfg (λ w. env.open_orders w orders_addr) no_open_orders
    cancel_kept (kept coins orders)
