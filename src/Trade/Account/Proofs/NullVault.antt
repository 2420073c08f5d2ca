-- ===== src/Trade/Account/Proofs/NullVault.antt =====
-- The user-signed actions go under the vault null.
use hyperliquid_go.Trade.Place.Posts.{query-Quiet}
use hyperliquid_go.Base.{
  true, Option, ℕ, Bool, ◌≡◌, inl, inr, refl, [], List, arith, Bool-cases, ◌==◌, str_eq, str_beq,
}
use hyperliquid_go.Base.Text.{Str, codes}
use hyperliquid_go.Base.Int.{ℤ}
use hyperliquid_go.Signing.Values.{field, Fields, Schema, get_field, text}
use hyperliquid_go.Trade.Client.{
  ◌>>=◌, Env, Config, St, is_user_signed, effective_addr, or_throw, wire_failed,
}
use hyperliquid_go.Trade.Client.Bind.{Quiet, or_throw-ok, bind_cases, or_throw-Quiet}
use hyperliquid_go.Trade.Account.Toolkit.{
  TransferResponse, Toolkit, with_nonce, execute_user_signed_action,
}
use hyperliquid_go.Trade.Account.Transfers.{
  send_usd, send_spot, usd_class_transfer, send_asset, withdraw, token_delegate,
}
use hyperliquid_go.Trade.Account.Settings.{
  register_agent, new_agent, approve_agent, approved, approve_builder_fee, convert_to_multi_sig,
}
use hyperliquid_go.Trade.Account.Proofs.Calls.{NullVault, execute_user_signed_action-NullVault}

module _ (env : Env) (kit : Toolkit env.fl.F env.World) (cfg : Config) where
  open env use {World, fl}
  open fl use {F}

  -- A literal map whose first key is its type.
  typed :
      {A : Type 0} (t : Str) (m : Fields) (schema : Schema) (primary : Str) (nonce : ℕ)
      (decode : Str → Option A) (s : St World)
      → is_user_signed t ≡ true
      → NullVault env kit cfg t s
          (execute_user_signed_action env kit cfg
            (field (codes "type") (text t) m)
            schema
            primary
            nonce
            decode
            s).0
  unfolding get_field str_beq
  typed t m schema primary nonce decode s u =
      execute_user_signed_action-NullVault env kit cfg _ schema primary nonce decode s t refl u

  send_asset-NullVault :
      (s : St World) (a b c : Str) (amount : F)
      → NullVault env kit cfg (codes "sendAsset") s (send_asset env kit cfg a b c amount s).0
  unfolding send_asset with_nonce is_user_signed str_beq
  send_asset-NullVault s a b c amount = elim (Bool-cases (effective_addr env cfg == [])) [
    | inl e ↦ inl (rw e refl)
    | inr e ↦ rw e (typed (codes "sendAsset") _ _ _ _ _ s refl)
  ]

  convert-NullVault :
      (s : St World) (names : List Str) (n : ℤ)
      → NullVault env kit cfg
          (codes "convertToMultiSigUser")
          s
          (convert_to_multi_sig env kit cfg names n s).0
  unfolding convert_to_multi_sig with_nonce is_user_signed str_beq
  convert-NullVault s names n =
      let t = codes "convertToMultiSigUser" in
      let o = kit.marshal_signers (kit.sort_strings names) n in
      bind_cases (or_throw o wire_failed) _ s (λ u. NullVault env kit cfg t s u.0)
        (λ e h. inl (or_throw-Quiet o wire_failed s))
        (λ signers h. rw ((or_throw-ok o wire_failed s signers h).1) (typed t _ _ _ _ _ s refl))

  approved-state :
      (address key : Str) (r : TransferResponse) (s : St World)
      → (approved env kit cfg address key r s).0 ≡ s
  unfolding approved
  approved-state address key r s = ground arith

  register_agent-NullVault :
      (s : St World) (name address : Str)
      → NullVault env kit cfg (codes "approveAgent") s (register_agent env kit cfg name address s).0
  unfolding register_agent with_nonce is_user_signed str_beq
  register_agent-NullVault s name address = typed (codes "approveAgent") _ _ _ _ _ s refl

  NullVault-from :
      (t : Str) (r s s' : St World)
      → s.posted ≡ r.posted
      → NullVault env kit cfg t s s'
      → NullVault env kit cfg t r s'
  NullVault-from t r s s' e h = rw (← e) h

  new_agent-Quiet : Quiet (new_agent env kit cfg)
  unfolding new_agent
  new_agent-Quiet = query-Quiet env cfg kit.fresh_agent wire_failed

  approve_agent-NullVault :
      (s : St World) (name : Str)
      → NullVault env kit cfg (codes "approveAgent") s (approve_agent env kit cfg name s).0
  unfolding approve_agent
  approve_agent-NullVault s name =
      let t = codes "approveAgent" in
      bind_cases (new_agent env kit cfg) _ s (λ u. NullVault env kit cfg t s u.0)
        (λ e h. inl (new_agent-Quiet s))
        (λ agent h.
          let u = (new_agent env kit cfg s).0 in
          NullVault-from t s u
            ((register_agent env kit cfg name agent.0 >>= approved env kit cfg agent.0 agent.1) u).0
            (new_agent-Quiet s)
            (bind_cases (register_agent env kit cfg name agent.0) _ u
              (λ w. NullVault env kit cfg t u w.0) (λ e k. register_agent-NullVault u name agent.0)
              (λ r k.
                rw (approved-state agent.0 agent.1 r _) (register_agent-NullVault u name agent.0))))

  -- Each user-signed operation posts nothing, or one body: an action of its type, under the vault
  -- null.
  pub user_signed-NullVault :
      (s : St World) (a b c : Str) (amount : F) (switch : Bool) (n : ℤ) (names : List Str)
      → NullVault env kit cfg (codes "usdSend") s (send_usd env kit cfg a amount s).0
        × NullVault env kit cfg (codes "spotSend") s (send_spot env kit cfg a b amount s).0
        × NullVault env kit cfg
            (codes "usdClassTransfer")
            s
            (usd_class_transfer env kit cfg amount switch s).0
        × NullVault env kit cfg (codes "sendAsset") s (send_asset env kit cfg a b c amount s).0
        × NullVault env kit cfg (codes "withdraw3") s (withdraw env kit cfg amount a s).0
        × NullVault env kit cfg
            (codes "tokenDelegate")
            s
            (token_delegate env kit cfg a n switch s).0
        × NullVault env kit cfg (codes "approveAgent") s (approve_agent env kit cfg a s).0
        × NullVault env kit cfg
            (codes "approveBuilderFee")
            s
            (approve_builder_fee env kit cfg a b s).0
        × NullVault env kit cfg
            (codes "convertToMultiSigUser")
            s
            (convert_to_multi_sig env kit cfg names n s).0
  unfolding send_usd send_spot usd_class_transfer withdraw token_delegate approve_builder_fee
      with_nonce is_user_signed str_beq
  user_signed-NullVault s a b c amount switch n names = (
    typed (codes "usdSend") _ _ _ _ _ s refl,
    typed (codes "spotSend") _ _ _ _ _ s refl,
    typed (codes "usdClassTransfer") _ _ _ _ _ s refl,
    send_asset-NullVault s a b c amount,
    typed (codes "withdraw3") _ _ _ _ _ s refl,
    typed (codes "tokenDelegate") _ _ _ _ _ s refl,
    approve_agent-NullVault s a,
    typed (codes "approveBuilderFee") _ _ _ _ _ s refl,
    convert-NullVault s names n,
  )
