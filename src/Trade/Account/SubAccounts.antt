-- ===== src/Trade/Account/SubAccounts.antt =====
-- trade/subaccount.go.
use hyperliquid_go.Base.{Bool, true, false, []}
use hyperliquid_go.Base.Text.{Str}
use hyperliquid_go.Base.Int.{ℤ}
use hyperliquid_go.Trade.Client.{
  Env, Config, M, create_sub_account, sub_account_transfer, sub_account_spot_transfer,
}
use hyperliquid_go.Trade.Account.Toolkit.{
  Toolkit, TransferResponse, CreateSubAccountResponse, l1_call,
}
use hyperliquid_go.Trade.Account.Transfers.{float_to_usd_int}

module _ (env : Env) (kit : Toolkit env.fl.F env.World) (cfg : Config) where
  open env use {World, fl}
  open fl use {F}
  open kit use {decode_transfer, decode_sub_account, float_bits}

  -- `Create`, which signs for no vault.
  unfoldable pub create : Str → M World CreateSubAccountResponse
  create name = l1_call env kit cfg [] (create_sub_account name) decode_sub_account

  -- `transfer`, which signs for no vault.
  unfoldable pub transfer : Str → Bool → ℤ → M World TransferResponse
  transfer user is_deposit usd =
      l1_call env kit cfg [] (sub_account_transfer user is_deposit usd) decode_transfer

  -- `DepositUSD`
  unfoldable pub deposit_usd : Str → F → M World TransferResponse
  deposit_usd user amount = transfer user true (float_to_usd_int env kit cfg amount)

  -- `WithdrawUSD`
  unfoldable pub withdraw_usd : Str → F → M World TransferResponse
  withdraw_usd user amount = transfer user false (float_to_usd_int env kit cfg amount)

  -- `spotTransfer`, which signs for the client's vault.
  unfoldable pub spot_transfer : Str → Bool → Str → F → M World TransferResponse
  spot_transfer user is_deposit token amount =
      l1_call env kit cfg cfg.vault
        (sub_account_spot_transfer user is_deposit token (float_bits amount)) decode_transfer

  -- `DepositSpot`
  unfoldable pub deposit_spot : Str → Str → F → M World TransferResponse
  deposit_spot user token amount = spot_transfer user true token amount

  -- `WithdrawSpot`
  unfoldable pub withdraw_spot : Str → Str → F → M World TransferResponse
  withdraw_spot user token amount = spot_transfer user false token amount
