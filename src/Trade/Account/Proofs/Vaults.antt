-- ===== src/Trade/Account/Proofs/Vaults.antt =====
-- The actions that are signed for no vault and posted under the client's vault.
use hyperliquid_go.Base.{
  All, str_beq, false, Option, ℕ, Bool, ◌≡◌, ◌∙◌, ap, ◌≢◌, some, [], ◌∷◌, ◌++◌, ◌==◌, ==_ne, str_eq,
  if_eq_false, refl,
}
use hyperliquid_go.Base.Text.{Str}
use hyperliquid_go.Base.Int.{ℤ}
use hyperliquid_go.Trade.Client.{
  Env, Config, St, Action, vault_is, VaultKey, Envelope, envelope, action_type_of, is_user_signed,
  vault_transfer, create_sub_account, sub_account_transfer, set_referrer, evm_user_modify,
}
use hyperliquid_go.Trade.Account.Toolkit.{l1_call, Toolkit}
use hyperliquid_go.Trade.Account.Transfers.{transfer_to_vault}
use hyperliquid_go.Trade.Account.SubAccounts.{create, transfer}
use hyperliquid_go.Trade.Account.Settings.{set_referrer_code, use_big_blocks}
use hyperliquid_go.Trade.Account.Proofs.Calls.{l1_call-posts}

module _ (env : Env) (kit : Toolkit env.fl.F env.World) (cfg : Config) where
  open env use {World}

  -- The body that names the client's vault, with a signature made for no vault.
  abbrev pub mismatched : (Action → ℕ → Str) → Action → St World → Envelope
  mismatched sign a s = record {
    action = a;
    nonce = env.now_ms s.world;
    signature = sign a (env.now_ms s.world);
    vault_address = vault_is cfg.vault;
  }

  envelope-vault :
      (a : Action) (nonce : ℕ) (sig : Str)
      → cfg.vault ≢ []
      → is_user_signed (action_type_of env cfg a) ≡ false
      → envelope env cfg a nonce sig
        ≡ record { action = a; nonce = nonce; signature = sig; vault_address = vault_is cfg.vault }
  unfolding envelope
  envelope-vault a nonce sig ne u =
      ap
        (λ (v : VaultKey). record { action = a; nonce = nonce; signature = sig; vault_address = v })
        (if_eq_false (is_user_signed (action_type_of env cfg a)) _ _ u
          ∙ if_eq_false (cfg.vault == []) _ _ (==_ne cfg.vault [] ne))

  posted_as :
      {A : Type 0} (sign : Action → ℕ → Str) (a : Action) (decode : Str → Option A) (s : St World)
      → cfg.vault ≢ []
      → ((a : Action) (nonce : ℕ)
          → env.sign_l1 a [] nonce cfg.expires_after cfg.is_mainnet ≡ some (sign a nonce))
      → is_user_signed (action_type_of env cfg a) ≡ false
      → (l1_call env kit cfg [] a decode s).0.posted ≡ s.posted ++ (mismatched sign a s ∷ [])
  posted_as sign a decode s ne signs u =
      l1_call-posts env kit cfg [] a decode (sign a _) s (signs a _)
      ∙ ap (λ (x : Envelope). s.posted ++ (x ∷ [])) (envelope-vault a _ _ ne u)

  -- The type of an action that is not signed by the user.
  not_user :
      (address name code : Str) (is_deposit enable : Bool) (usd : ℤ)
      → All
          (λ a. is_user_signed (action_type_of env cfg a) ≡ false)
          (vault_transfer address is_deposit usd
            ∷ create_sub_account name
            ∷ sub_account_transfer address is_deposit usd
            ∷ set_referrer code
            ∷ evm_user_modify enable
            ∷ [])
  unfolding is_user_signed action_type_of str_beq
  not_user address name code is_deposit enable usd = (refl, (refl, (refl, (refl, (refl, tt)))))

  -- For a client with a vault and a signer that signs every action for no vault, a vault transfer, a
  -- new sub-account, a USD transfer with a sub-account, a referral code and a big-blocks switch are
  -- each posted under the client's vault with a signature that was made for no vault.
  pub vault_free-mismatched :
      (sign : Action → ℕ → Str) (s : St World) (address name code : Str) (is_deposit enable : Bool)
      (usd : ℤ)
      → cfg.vault ≢ []
      → ((a : Action) (nonce : ℕ)
          → env.sign_l1 a [] nonce cfg.expires_after cfg.is_mainnet ≡ some (sign a nonce))
      → ((transfer_to_vault env kit cfg address is_deposit usd s).0.posted
          ≡ s.posted ++ (mismatched sign (vault_transfer address is_deposit usd) s ∷ []))
        × ((create env kit cfg name s).0.posted
            ≡ s.posted ++ (mismatched sign (create_sub_account name) s ∷ []))
        × ((transfer env kit cfg address is_deposit usd s).0.posted
            ≡ s.posted ++ (mismatched sign (sub_account_transfer address is_deposit usd) s ∷ []))
        × ((set_referrer_code env kit cfg code s).0.posted
            ≡ s.posted ++ (mismatched sign (set_referrer code) s ∷ []))
        × ((use_big_blocks env kit cfg enable s).0.posted
            ≡ s.posted ++ (mismatched sign (evm_user_modify enable) s ∷ []))
  unfolding transfer_to_vault create transfer set_referrer_code use_big_blocks
  vault_free-mismatched sign s address name code is_deposit enable usd ne signs =
      let (a, (b, (c, (d, (e, _))))) = not_user address name code is_deposit enable usd in
      (
        posted_as sign _ _ s ne signs a,
        posted_as sign _ _ s ne signs b,
        posted_as sign _ _ s ne signs c,
        posted_as sign _ _ s ne signs d,
        posted_as sign _ _ s ne signs e,
      )
