-- ===== src/Trade/Account/Transfers.antt =====
-- trade/transfer.go, trade/withdraw.go and trade/stake.go.
use hyperliquid_go.Base.{Bool, true, false, [], ◌∷◌, ◌++◌, ◌==◌, str_eq, if◌then◌else◌}
use hyperliquid_go.Base.Text.{Str, codes}
use hyperliquid_go.Base.Int.{ℤ, pos}
use hyperliquid_go.Wire.{format_usd_amount}
use hyperliquid_go.Signing.Values.{map_of, text, int, flag}
use hyperliquid_go.Signing.Schemas.{
  usd_send_schema, spot_transfer_schema, withdraw_schema, usd_class_transfer_schema,
  send_asset_schema, token_delegate_schema,
}
use hyperliquid_go.Trade.Client.{Env, Config, M, throw, no_address, effective_addr, vault_transfer}
use hyperliquid_go.Trade.Account.Toolkit.{
  Toolkit, TransferResponse, l1_call, with_nonce, execute_user_signed_action,
}

module _ (env : Env) (kit : Toolkit env.fl.F env.World) (cfg : Config) where
  open env use {World, fl}
  open fl use {F, lit, mul, to_int}
  open kit use {decode_transfer}

  -- `FloatToUsdInt`
  unfoldable pub float_to_usd_int : F → ℤ
  float_to_usd_int value = to_int (mul value (lit 1_000_000 0))

  -- `SendUSD`
  unfoldable pub send_usd : Str → F → M World TransferResponse
  send_usd to_addr amount = with_nonce env kit cfg λ nonce.
      execute_user_signed_action env kit cfg
        (map_of (
          (codes "type", text (codes "usdSend"))
          ∷ (codes "destination", text to_addr)
          ∷ (codes "amount", text (format_usd_amount fl amount))
          ∷ (codes "time", int (pos nonce))
          ∷ []))
        usd_send_schema (codes "HyperliquidTransaction:UsdSend") nonce decode_transfer

  -- `SendSpot`
  unfoldable pub send_spot : Str → Str → F → M World TransferResponse
  send_spot to_addr token amount = with_nonce env kit cfg λ nonce.
      execute_user_signed_action env kit cfg
        (map_of (
          (codes "type", text (codes "spotSend"))
          ∷ (codes "destination", text to_addr)
          ∷ (codes "token", text token)
          ∷ (codes "amount", text (format_usd_amount fl amount))
          ∷ (codes "time", int (pos nonce))
          ∷ []))
        spot_transfer_schema (codes "HyperliquidTransaction:SpotSend") nonce decode_transfer

  -- `vaultTransfer`, which signs for no vault.
  unfoldable pub transfer_to_vault : Str → Bool → ℤ → M World TransferResponse
  transfer_to_vault address is_deposit usd =
      l1_call env kit cfg [] (vault_transfer address is_deposit usd) decode_transfer

  -- `DepositToVault`
  unfoldable pub deposit_to_vault : Str → F → M World TransferResponse
  deposit_to_vault address amount = transfer_to_vault address true (float_to_usd_int amount)

  -- `WithdrawFromVault`
  unfoldable pub withdraw_from_vault : Str → F → M World TransferResponse
  withdraw_from_vault address amount = transfer_to_vault address false (float_to_usd_int amount)

  -- The amount of `usdClassTransfer`, with the vault as the sub-account.
  unfoldable pub class_amount : F → Str
  class_amount amount =
      let s = format_usd_amount fl amount in
      if cfg.vault == [] then s else s ++ (codes " subaccount:" ++ cfg.vault)

  -- `usdClassTransfer`
  unfoldable pub usd_class_transfer : F → Bool → M World TransferResponse
  usd_class_transfer amount to_perp = with_nonce env kit cfg λ nonce.
      execute_user_signed_action env kit cfg
        (map_of (
          (codes "type", text (codes "usdClassTransfer"))
          ∷ (codes "amount", text (class_amount amount))
          ∷ (codes "toPerp", flag to_perp)
          ∷ (codes "nonce", int (pos nonce))
          ∷ []))
        usd_class_transfer_schema (codes "HyperliquidTransaction:UsdClassTransfer") nonce
        decode_transfer

  -- `PerpToSpot`
  unfoldable pub perp_to_spot : F → M World TransferResponse
  perp_to_spot amount = usd_class_transfer amount false

  -- `SpotToPerp`
  unfoldable pub spot_to_perp : F → M World TransferResponse
  spot_to_perp amount = usd_class_transfer amount true

  -- `sendAsset`, to the client's own address.
  unfoldable pub send_asset : Str → Str → Str → F → M World TransferResponse
  send_asset source destination token amount = with_nonce env kit cfg λ nonce.
      if effective_addr env cfg == []
      then throw no_address
      else execute_user_signed_action env kit cfg
          (map_of (
            (codes "type", text (codes "sendAsset"))
            ∷ (codes "destination", text (effective_addr env cfg))
            ∷ (codes "sourceDex", text source)
            ∷ (codes "destinationDex", text destination)
            ∷ (codes "token", text token)
            ∷ (codes "amount", text (format_usd_amount fl amount))
            ∷ (codes "fromSubAccount", text cfg.vault)
            ∷ (codes "nonce", int (pos nonce))
            ∷ []))
          send_asset_schema (codes "HyperliquidTransaction:SendAsset") nonce decode_transfer

  -- `MoveToDex`
  unfoldable pub move_to_dex : Str → Str → F → M World TransferResponse
  move_to_dex dex token amount = send_asset [] dex token amount

  -- `MoveFromDex`
  unfoldable pub move_from_dex : Str → Str → F → M World TransferResponse
  move_from_dex dex token amount = send_asset dex [] token amount

  -- `Withdraw`
  unfoldable pub withdraw : F → Str → M World TransferResponse
  withdraw amount destination = with_nonce env kit cfg λ nonce.
      execute_user_signed_action env kit cfg
        (map_of (
          (codes "type", text (codes "withdraw3"))
          ∷ (codes "destination", text destination)
          ∷ (codes "amount", text (format_usd_amount fl amount))
          ∷ (codes "time", int (pos nonce))
          ∷ []))
        withdraw_schema (codes "HyperliquidTransaction:Withdraw") nonce decode_transfer

  -- `tokenDelegate`
  unfoldable pub token_delegate : Str → ℤ → Bool → M World TransferResponse
  token_delegate validator wei is_undelegate = with_nonce env kit cfg λ nonce.
      execute_user_signed_action env kit cfg
        (map_of (
          (codes "type", text (codes "tokenDelegate"))
          ∷ (codes "validator", text validator)
          ∷ (codes "wei", int wei)
          ∷ (codes "isUndelegate", flag is_undelegate)
          ∷ (codes "nonce", int (pos nonce))
          ∷ []))
        token_delegate_schema (codes "HyperliquidTransaction:TokenDelegate") nonce decode_transfer

  -- `Delegate`
  unfoldable pub delegate : Str → ℤ → M World TransferResponse
  delegate validator wei = token_delegate validator wei false

  -- `Undelegate`
  unfoldable pub undelegate : Str → ℤ → M World TransferResponse
  undelegate validator wei = token_delegate validator wei true
