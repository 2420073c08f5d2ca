-- ===== src/Trade/Account/Deploy.antt =====
-- trade/deploy_spot.go and trade/deploy_perp.go: the deployment of tokens and markets.
use hyperliquid_go.Base.{[], ◌∷◌, ℕ, List}
use hyperliquid_go.Base.Dict.{Dict}
use hyperliquid_go.Base.Text.{Str, codes}
use hyperliquid_go.Base.Int.{ℤ}
use hyperliquid_go.Signing.Values.{
  PerpDexSchemaInput, dex_schema, Fields, map_of, text, texts, int, float, floats, object,
}
use hyperliquid_go.Trade.Client.{Env, Config, M, map_action}
use hyperliquid_go.Trade.Account.Toolkit.{Toolkit, PerpDeployResponse, StatusResponse, l1_call}

-- The keys of a Go map with its floats by their bits.
unfoldable pub bits_of {ℓ} : {F : Type ℓ} → (F → ℕ) → Dict Str F → Dict Str ℕ
bits_of float_bits [] = []
bits_of float_bits ((k, x) ∷ m) = (k, float_bits x) ∷ bits_of float_bits m

module _ (env : Env) (kit : Toolkit env.fl.F env.World) (cfg : Config) where
  open env use {World, fl}
  open fl use {F}
  open kit use {decode_status, decode_perp_deploy, float_bits}

  -- `SpotDeployRegisterToken`, which signs for no vault.
  unfoldable pub register_token : Str → ℤ → ℤ → ℤ → Str → M World StatusResponse
  register_token token_name sz_decimals wei_decimals max_gas full_name =
      l1_call env kit cfg []
        (map_action (
          map_of (
            (codes "type", text (codes "spotDeploy"))
            ∷ (
              codes "registerToken2",
              object (
                  map_of (
                    (
                      codes "spec",
                      object (
                          map_of (
                            (codes "name", text token_name)
                            ∷ (codes "szDecimals", int sz_decimals)
                            ∷ (codes "weiDecimals", int wei_decimals)
                            ∷ [])),
                    )
                    ∷ (codes "maxGas", int max_gas)
                    ∷ (codes "fullName", text full_name)
                    ∷ [])),
            )
            ∷ [])))
        decode_status

  abbrev vault_call : Fields → M World StatusResponse
  vault_call action = l1_call env kit cfg cfg.vault (map_action action) decode_status

  -- `SpotDeployUserGenesis`
  unfoldable pub user_genesis : Dict Str F → M World StatusResponse
  user_genesis balances = vault_call (
      map_of (
        (codes "type", text (codes "spotDeployUserGenesis"))
        ∷ (codes "balances", floats (bits_of float_bits balances))
        ∷ []))

  -- `SpotDeployEnableFreezePrivilege`
  unfoldable pub enable_freeze_privilege : M World StatusResponse
  enable_freeze_privilege =
      vault_call (map_of ((codes "type", text (codes "spotDeployEnableFreezePrivilege")) ∷ []))

  -- `SpotDeployFreezeUser`
  unfoldable pub freeze_user : Str → M World StatusResponse
  freeze_user user = vault_call (
      map_of (
        (codes "type", text (codes "spotDeployFreezeUser"))
        ∷ (codes "userAddress", text user)
        ∷ []))

  -- `SpotDeployRevokeFreezePrivilege`
  unfoldable pub revoke_freeze_privilege : M World StatusResponse
  revoke_freeze_privilege =
      vault_call (map_of ((codes "type", text (codes "spotDeployRevokeFreezePrivilege")) ∷ []))

  -- `SpotDeployGenesis`
  unfoldable pub genesis : Str → Str → M World StatusResponse
  genesis deployer dex = vault_call (
      map_of (
        (codes "type", text (codes "spotDeployGenesis"))
        ∷ (codes "deployer", text deployer)
        ∷ (codes "dexName", text dex)
        ∷ []))

  -- `SpotDeployRegisterSpot`
  unfoldable pub register_spot : Str → Str → M World StatusResponse
  register_spot base quote = vault_call (
      map_of (
        (codes "type", text (codes "spotDeployRegisterSpot"))
        ∷ (codes "baseToken", text base)
        ∷ (codes "quoteToken", text quote)
        ∷ []))

  -- `SpotDeployRegisterHyperliquidity`
  unfoldable pub register_hyperliquidity : Str → List Str → M World StatusResponse
  register_hyperliquidity name tokens = vault_call (
      map_of (
        (codes "type", text (codes "spotDeployRegisterHyperliquidity"))
        ∷ (codes "name", text name)
        ∷ (codes "tokens", texts tokens)
        ∷ []))

  -- `SpotDeploySetDeployerTradingFeeShare`
  unfoldable pub set_deployer_trading_fee_share : F → M World StatusResponse
  set_deployer_trading_fee_share fee_share = vault_call (
      map_of (
        (codes "type", text (codes "spotDeploySetDeployerTradingFeeShare"))
        ∷ (codes "feeShare", float (float_bits fee_share))
        ∷ []))

  -- `PerpDeployRegisterAsset`
  unfoldable pub register_asset : Str → PerpDexSchemaInput → M World PerpDeployResponse
  register_asset asset input =
      l1_call env kit cfg cfg.vault
        (map_action (
          map_of (
            (codes "type", text (codes "perpDeployRegisterAsset"))
            ∷ (codes "asset", text asset)
            ∷ (codes "perpDexInput", dex_schema input)
            ∷ [])))
        decode_perp_deploy

  -- `PerpDeploySetOracle`
  unfoldable pub set_oracle : Str → Str → M World StatusResponse
  set_oracle asset oracle_address = vault_call (
      map_of (
        (codes "type", text (codes "perpDeploySetOracle"))
        ∷ (codes "asset", text asset)
        ∷ (codes "oracleAddress", text oracle_address)
        ∷ []))
