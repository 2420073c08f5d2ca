-- ===== src/Trade/Account/Settings.antt =====
-- trade/account.go and trade/multisig.go.
use hyperliquid_go.Base.{
  Bool, true, false, ◌&&◌, not, Option, none, some, List, [], ◌∷◌, ◌==◌, str_eq, if◌then◌else◌,
}
use hyperliquid_go.Base.Text.{Str, codes}
use hyperliquid_go.Base.Int.{ℤ, pos}
use hyperliquid_go.Info.{asset_id}
use hyperliquid_go.Signing.Values.{Fields, map_of, text, texts, int, object}
use hyperliquid_go.Signing.Schemas.{
  approve_agent_schema, approve_builder_fee_schema, convert_to_multi_sig_user_schema,
}
use hyperliquid_go.Trade.Client.{
  query, Env, Config, M, UserState, ◌>>=◌, or_throw, return, throw, rejected, wire_failed,
  update_leverage, update_isolated_margin, schedule_cancel, set_referrer, evm_user_modify,
  map_action,
}
use hyperliquid_go.Trade.Account.Toolkit.{
  Toolkit, TransferResponse, StatusResponse, BriefResponse, DefaultResponse, l1_call, with_nonce,
  execute_user_signed_action,
}

-- types.MarginMode
pub data MarginMode : Type 0 where
  cross isolated : MarginMode

unfoldable pub is_cross : MarginMode → Bool
is_cross cross = true
is_cross isolated = false

-- time.Time: `IsZero` and `UnixMilli`.
pub record Time : Type 0 where
  pub is_zero : Bool
  pub unix_milli : ℤ

-- `SetExpiresAfter`
unfoldable pub set_expires_after : Config → Time → Config
set_expires_after cfg deadline = record cfg {
  expires_after = if deadline.is_zero then none else some deadline.unix_milli;
}

-- `Agent`
pub record Agent : Type 0 where
  pub address : Str
  pub private_key : Str

-- Whether a status says that the venue refused.
unfoldable pub is_refused : Str → Bool
is_refused status = not (status == []) && not (status == codes "ok")

module _ (env : Env) (kit : Toolkit env.fl.F env.World) (cfg : Config) where
  open env use {World, fl}
  open fl use {F, lit, mul, round, to_int}
  open kit use {
    to_lower, sort_strings, marshal_signers, fresh_agent, decode_transfer, decode_status,
    decode_brief, decode_user_state, decode_default, decode_reason,
  }

  -- `SetLeverage`, under the asset id zero for a coin that is not registered.
  unfoldable pub set_leverage : Str → ℤ → MarginMode → M World UserState
  set_leverage coin leverage mode =
      l1_call env kit cfg cfg.vault
        (update_leverage (asset_id cfg.tables coin) (is_cross mode) leverage) decode_user_state

  -- `AdjustMargin`
  unfoldable pub adjust_margin : Str → F → M World DefaultResponse
  adjust_margin coin amount =
      l1_call env kit cfg cfg.vault
        (update_isolated_margin (asset_id cfg.tables coin) true
          (to_int (round (mul amount (lit 1_000_000 0)))))
        decode_default

  -- `ScheduleCancelAll`
  unfoldable pub schedule_cancel_all : Option Time → M World BriefResponse
  schedule_cancel_all deadline =
      l1_call env kit cfg cfg.vault
        (schedule_cancel (elim deadline [ none ↦ none | some t ↦ some t.unix_milli ])) decode_brief

  -- `SetReferrer`, which signs for no vault.
  unfoldable pub set_referrer_code : Str → M World BriefResponse
  set_referrer_code code = l1_call env kit cfg [] (set_referrer code) decode_brief

  -- `UseBigBlocks`, which signs for no vault.
  unfoldable pub use_big_blocks : Bool → M World StatusResponse
  use_big_blocks enable = l1_call env kit cfg [] (evm_user_modify enable) decode_status

  -- The message of a rejection: the error, the reason in the response, or the status.
  unfoldable pub rejection_message : TransferResponse → Str
  rejection_message r =
      if r.error == []
      then if decode_reason r.response == [] then r.status else decode_reason r.response
      else r.error

  -- The end of `ApproveAgent`, once the response is there.
  unfoldable pub approved : Str → Str → TransferResponse → M World Agent
  approved address key result =
      if is_refused result.status
      then throw (rejected (rejection_message result))
      else return (record { address = address; private_key = key })

  -- The random key.
  unfoldable pub new_agent : M World (Str × Str)
  new_agent = query env cfg fresh_agent wire_failed

  -- The post of `ApproveAgent`.
  unfoldable pub register_agent : Str → Str → M World TransferResponse
  register_agent name address = with_nonce env kit cfg λ nonce.
      execute_user_signed_action env kit cfg
        (map_of (
          (codes "type", text (codes "approveAgent"))
          ∷ (codes "agentAddress", text address)
          ∷ (codes "agentName", text name)
          ∷ (codes "nonce", int (pos nonce))
          ∷ []))
        approve_agent_schema (codes "HyperliquidTransaction:ApproveAgent") nonce decode_transfer

  -- `ApproveAgent`
  unfoldable pub approve_agent : Str → M World Agent
  approve_agent name = do
    agent ← new_agent
    result ← register_agent name agent.0
    approved agent.0 agent.1 result

  -- `ApproveBuilderFee`
  unfoldable pub approve_builder_fee : Str → Str → M World StatusResponse
  approve_builder_fee builder max_fee_rate = with_nonce env kit cfg λ nonce.
      execute_user_signed_action env kit cfg
        (map_of (
          (codes "type", text (codes "approveBuilderFee"))
          ∷ (codes "maxFeeRate", text max_fee_rate)
          ∷ (codes "builder", text (to_lower builder))
          ∷ (codes "nonce", int (pos nonce))
          ∷ []))
        approve_builder_fee_schema (codes "HyperliquidTransaction:ApproveBuilderFee") nonce
        decode_status

  -- `Convert` of `MultiSigGroup`
  unfoldable pub convert_to_multi_sig : List Str → ℤ → M World StatusResponse
  convert_to_multi_sig authorized threshold = with_nonce env kit cfg λ nonce. do
    signers ← or_throw (marshal_signers (sort_strings authorized) threshold) wire_failed
    execute_user_signed_action env kit cfg
        (map_of (
          (codes "type", text (codes "convertToMultiSigUser"))
          ∷ (codes "signers", text signers)
          ∷ (codes "nonce", int (pos nonce))
          ∷ []))
        convert_to_multi_sig_user_schema (codes "HyperliquidTransaction:ConvertToMultiSigUser")
        nonce decode_status

  -- `Execute` of `MultiSigGroup`
  unfoldable pub execute_multi_sig : Fields → List Str → List Str → M World StatusResponse
  execute_multi_sig action signers signatures =
      l1_call env kit cfg cfg.vault
        (map_action (
          map_of (
            (codes "type", text (codes "multiSig"))
            ∷ (codes "action", object action)
            ∷ (codes "signers", texts signers)
            ∷ (codes "signatures", texts signatures)
            ∷ [])))
        decode_status
