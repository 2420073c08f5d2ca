-- ===== src/Trade/Account/Proofs/Calls.antt =====
-- What the two kinds of call post.
use hyperliquid_go.Base.{
  str_beq, ==_ne, Bool, ℕ, ◌≡◌, refl, ◌∙◌, ◌⊎◌, inl, inr, Option-cases, Option, some, [], ◌∷◌, ◌++◌,
  true, ◌==◌, str_eq, if_eq_true, if_eq_false, ap, ◌≢◌,
}
use hyperliquid_go.Base.Text.{Str, codes}
use hyperliquid_go.Signing.{sign_user_signed, with_chain}
use hyperliquid_go.Signing.Values.{Fields, Schema, text, get_field}
use hyperliquid_go.Signing.Proofs.Declared.{get_field-set_field}
use hyperliquid_go.Trade.Client.{
  Env, Config, St, Action, map_action, VaultKey, vault_null, Envelope, sign_and_post, post_action,
  envelope, ◌>>=◌, or_throw, decode_failed, action_type_of, is_user_signed,
}
use hyperliquid_go.Trade.Client.Bind.{bind_cases, or_throw-Quiet}
use hyperliquid_go.Trade.Place.Posts.{Posted, sign_and_post-Posted, post_action-posted}
use hyperliquid_go.Trade.Account.Toolkit.{Toolkit, l1_call, execute_user_signed_action}

module _ (env : Env) (kit : Toolkit env.fl.F env.World) (cfg : Config) where
  open env use {World}
  open kit use {crypto, signature_json}

  -- An L1 action is posted once, or not at all.
  pub l1_call-Posted :
      {A : Type 0} (vault : Str) (a : Action) (decode : Str → Option A) (s : St World)
      → let s' = (l1_call env kit cfg vault a decode s).0 in
        (s'.posted ≡ s.posted) ⊎ Posted env cfg vault a s s'
  unfolding l1_call
  l1_call-Posted vault a decode s =
      bind_cases (sign_and_post env cfg vault a) _ s
        (λ t. (t.0.posted ≡ s.posted) ⊎ Posted env cfg vault a s t.0)
        (λ e h. sign_and_post-Posted env cfg vault a s)
        (λ body h.
          rw (or_throw-Quiet (decode body) decode_failed _)
            (sign_and_post-Posted env cfg vault a s))

  -- A signed L1 action is posted.
  pub l1_call-posts :
      {A : Type 0} (vault : Str) (a : Action) (decode : Str → Option A) (sig : Str) (s : St World)
      → env.sign_l1 a vault (env.now_ms s.world) cfg.expires_after cfg.is_mainnet ≡ some sig
      → (l1_call env kit cfg vault a decode s).0.posted
        ≡ s.posted ++ (envelope env cfg a (env.now_ms s.world) sig ∷ [])
  unfolding l1_call sign_and_post
  l1_call-posts vault a decode sig s e =
      let k : (sign_and_post env cfg vault a s).0.posted
          ≡ s.posted ++ (envelope env cfg a (env.now_ms s.world) sig ∷ []) =
        rw (e, sign_and_post) (post_action-posted env cfg (envelope env cfg a _ sig) s) in
      bind_cases (sign_and_post env cfg vault a) _ s
        (λ t. t.0.posted ≡ s.posted ++ (envelope env cfg a (env.now_ms s.world) sig ∷ []))
        (λ x h. k) (λ body h. or_throw-Quiet (decode body) decode_failed _ ∙ k)

  -- The body of a map action under the vault null.
  abbrev pub null_body : Fields → ℕ → Str → Envelope
  null_body m nonce sig = record {
    action = map_action m;
    nonce = nonce;
    signature = sig;
    vault_address = vault_null;
  }

  -- The state after a user-signed action of type `t`: nothing was posted, or one body with that
  -- action, the chain's name added, under the vault null.
  abbrev pub NullVault : Str → St World → St World → Type 0
  NullVault t s s' =
      (s'.posted ≡ s.posted)
      ⊎ ((m : Fields) × (nonce : ℕ) × (sig : Str) × (get_field (codes "type") m ≡ some (text t))
          × (s'.posted ≡ s.posted ++ (null_body m nonce sig ∷ [])))

  with_chain-type :
      (b : Bool) (m : Fields)
      → get_field (codes "type") (with_chain b m) ≡ get_field (codes "type") m
  unfolding with_chain str_beq
  with_chain-type b m =
      get_field-set_field (codes "signatureChainId") (codes "type") _ _
      ∙ get_field-set_field (codes "hyperliquidChain") (codes "type") _ m

  sent :
      {A : Type 0} (e : Envelope) (decode : Str → Option A) (s : St World)
      → ((post_action env cfg e >>= λ body. or_throw (decode body) decode_failed) s).0.posted
        ≡ s.posted ++ (e ∷ [])
  sent e decode s =
      bind_cases (post_action env cfg e) _ s (λ t. t.0.posted ≡ s.posted ++ (e ∷ []))
        (λ x h. post_action-posted env cfg e s)
        (λ body h. or_throw-Quiet (decode body) decode_failed _ ∙ post_action-posted env cfg e s)

  type_of_map :
      (m : Fields) (t : Str)
      → get_field (codes "type") m ≡ some (text t)
      → t ≢ []
      → action_type_of env cfg (map_action m) ≡ t
  unfolding action_type_of
  type_of_map m t e ne = rw (e, action_type_of) (if_eq_false (t == []) _ _ (==_ne t [] ne))

  user_envelope :
      (m : Fields) (nonce : ℕ) (sig t : Str)
      → get_field (codes "type") m ≡ some (text t)
      → t ≢ []
      → is_user_signed t ≡ true
      → envelope env cfg (map_action m) nonce sig ≡ null_body m nonce sig
  unfolding envelope
  user_envelope m nonce sig t e ne u =
      ap
        (λ (v : VaultKey). record {
          action = map_action m;
          nonce = nonce;
          signature = sig;
          vault_address = v;
        })
        (if_eq_true (is_user_signed (action_type_of env cfg (map_action m))) _ _
          (ap is_user_signed (type_of_map m t e ne) ∙ u))

  is_user_signed-ne : (t : Str) → is_user_signed t ≡ true → t ≢ []
  unfolding is_user_signed str_beq
  is_user_signed-ne [] u h = cc
  is_user_signed-ne (x ∷ t) u h = cc

  pub execute_user_signed_action-NullVault :
      {A : Type 0} (m : Fields) (schema : Schema) (primary : Str) (nonce : ℕ)
      (decode : Str → Option A) (s : St World) (t : Str)
      → get_field (codes "type") m ≡ some (text t)
      → is_user_signed t ≡ true
      → NullVault t s (execute_user_signed_action env kit cfg m schema primary nonce decode s).0
  unfolding execute_user_signed_action sign_user_signed
  execute_user_signed_action-NullVault m schema primary nonce decode s t e u =
      let signed = sign_user_signed crypto m schema primary cfg.is_mainnet in
      elim (Option-cases signed.1) [
        | inl p ↦ inl (rw (p, execute_user_signed_action) refl)
        | inr (sig, p) ↦ inr (
          signed.0,
          nonce,
          signature_json sig,
          with_chain-type cfg.is_mainnet m ∙ e,
          rw (p, execute_user_signed_action)
              (sent (envelope env cfg (map_action signed.0) nonce (signature_json sig)) decode s
                ∙ ap (λ (x : Envelope). s.posted ++ (x ∷ []))
                    (user_envelope signed.0 nonce (signature_json sig) t
                      (with_chain-type cfg.is_mainnet m ∙ e) (is_user_signed-ne t u) u)),
        )
      ]
