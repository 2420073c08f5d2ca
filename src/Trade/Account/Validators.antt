-- ===== src/Trade/Account/Validators.antt =====
-- trade/validators.go: the consensus signer and validator actions, all signed for the client's vault.
use hyperliquid_go.Base.{[], ◌∷◌}
use hyperliquid_go.Base.Text.{codes}
use hyperliquid_go.Signing.Values.{Fields, map_of, text, object}
use hyperliquid_go.Trade.Client.{Env, Config, M, map_action}
use hyperliquid_go.Trade.Account.Toolkit.{Toolkit, StatusResponse, l1_call}

module _ (env : Env) (kit : Toolkit env.fl.F env.World) (cfg : Config) where
  open env use {World}
  open kit use {decode_status}

  abbrev vault_call : Fields → M World StatusResponse
  vault_call action = l1_call env kit cfg cfg.vault (map_action action) decode_status

  -- `CSignerUnjailSelf`
  unfoldable pub c_signer_unjail_self : M World StatusResponse
  c_signer_unjail_self = vault_call (map_of ((codes "type", text (codes "cSignerUnjailSelf")) ∷ []))

  -- `CSignerJailSelf`
  unfoldable pub c_signer_jail_self : M World StatusResponse
  c_signer_jail_self = vault_call (map_of ((codes "type", text (codes "cSignerJailSelf")) ∷ []))

  -- `CSignerInner`
  unfoldable pub c_signer_inner : Fields → M World StatusResponse
  c_signer_inner inner = vault_call (
      map_of
        ((codes "type", text (codes "cSignerInner")) ∷ (codes "innerAction", object inner) ∷ []))

  -- `CValidatorRegister`
  unfoldable pub c_validator_register : Fields → M World StatusResponse
  c_validator_register profile = vault_call (
      map_of (
        (codes "type", text (codes "cValidatorRegister"))
        ∷ (codes "validatorProfile", object profile)
        ∷ []))

  -- `CValidatorChangeProfile`
  unfoldable pub c_validator_change_profile : Fields → M World StatusResponse
  c_validator_change_profile profile = vault_call (
      map_of (
        (codes "type", text (codes "cValidatorChangeProfile"))
        ∷ (codes "newProfile", object profile)
        ∷ []))

  -- `CValidatorUnregister`
  unfoldable pub c_validator_unregister : M World StatusResponse
  c_validator_unregister =
      vault_call (map_of ((codes "type", text (codes "cValidatorUnregister")) ∷ []))
