-- ===== src/Trade/Signed.antt =====
-- The signature of an L1 action beside the body that carries it: trade/exchange.go with
-- signing/signing.go. The encoder of an action (msgpack) and the JSON of a signature are parameters.
use hyperliquid_go.Base.{
  subst, ℕ, Bool, false, Option, none, some, [], ◌∷◌, ◌++◌, ◌≡◌, ◌↔◌, ◌⊎◌, inl, inr, refl, sym, ap,
  ◌∙◌, ◌==◌, ==_iff, str_eq, Bool-cases, Option-cases,
}
use hyperliquid_go.Base.Text.{Str}
use hyperliquid_go.Base.Int.{negsuc, ℤ, pos}
use hyperliquid_go.Signing.{Crypto, Signature, sign_l1_action, sign_inner, construct_phantom_agent}
use hyperliquid_go.Signing.Preimage.{preimage, expires_part, vault_part}
use hyperliquid_go.Signing.Bytes.{be_bytes}
use hyperliquid_go.Signing.Proofs.Binding.{append_parts, preimage_parts}
use hyperliquid_go.Trade.Client.{
  Env, Config, St, Action, Envelope, VaultKey, vault_null, vault_absent, vault_is, envelope,
  execute_action, is_user_signed, action_type_of,
}
use hyperliquid_go.Trade.Place.Posts.{execute_action-Posted}

abbrev pub printed : (Signature → Str) → Option Signature → Option Str
printed print none = none
printed print (some sig) = some (print sig)

none_ne_some : (x : Str) → ¬ (◌≡◌ {A = Option Str} none (some x))
none_ne_some x h = cc

module _ (crypto : Crypto) (encode : Action → Option Str) (print : Signature → Str) where
  open crypto use {decode_hex, keccak}

  -- The signature of an action that is encoded, if it is.
  abbrev pub sign_encoded : Option Str → Str → ℕ → Option ℤ → Bool → Option Str
  sign_encoded none vault nonce expires_after is_mainnet = none
  sign_encoded (some encoded) vault nonce expires_after is_mainnet =
      printed print (sign_l1_action crypto encoded vault (pos nonce) expires_after is_mainnet)

  -- `signing.SignL1Action`, as `executeAction` calls it.
  unfoldable pub sign_l1_with : Action → Str → ℕ → Option ℤ → Bool → Option Str
  sign_l1_with a vault nonce expires_after is_mainnet =
      sign_encoded (encode a) vault nonce expires_after is_mainnet

  -- The signature over hashed bytes.
  abbrev pub sign_bytes : Bool → Str → Option Str
  sign_bytes is_mainnet bytes =
      printed print (sign_inner crypto (construct_phantom_agent crypto (keccak bytes) is_mainnet))

  abbrev pub vault_text : VaultKey → Str
  vault_text vault_absent = []
  vault_text vault_null = []
  vault_text (vault_is v) = v

  -- What a reader of the body can hash: the body holds an action, a nonce and a vault, and no expiry.
  abbrev pub rehash : Option Str → VaultKey → ℕ → Option Str
  rehash none vault nonce = none
  rehash (some encoded) vault nonce =
      preimage decode_hex encoded (vault_text vault) (pos nonce) none

  abbrev pub rehashed : Envelope → Option Str
  rehashed e = rehash (encode e.action) e.vault_address e.nonce

  expires_part_nil : (d : Option ℤ) → expires_part d ≡ some [] → d ≡ none
  unfolding expires_part
  expires_part_nil none h = refl
  expires_part_nil (some (pos ms)) h = cc
  expires_part_nil (some (negsuc ms)) h = cc

  expires_part-none : expires_part none ≡ some []
  unfolding expires_part
  expires_part-none = refl

  -- The bytes with an expiry are those without one only where there is no expiry.
  preimage_expiry :
      (encoded vault bytes : Str) (nonce : ℕ) (d : Option ℤ)
      → preimage decode_hex encoded vault (pos nonce) d ≡ some bytes
      → (preimage decode_hex encoded vault (pos nonce) none ≡ some bytes) ↔ (d ≡ none)
  preimage_expiry encoded vault bytes nonce d h = (
    λ k.
        let (t, x, f) = preimage_parts decode_hex encoded vault bytes nonce d h in
        let (u, y, g) = preimage_parts decode_hex encoded vault bytes nonce none k in
        let r = append_parts encoded encoded refl (f ∙ sym g) in
        let r' = append_parts (be_bytes 8 nonce) (be_bytes 8 nonce) refl r.1 in
        let q =
          append_parts (vault_part decode_hex vault) (vault_part decode_hex vault) refl r'.1 in
        expires_part_nil d (x ∙ ap (λ (z : Str). some z) q.1 ∙ sym y ∙ expires_part-none),
    λ k. subst (λ (z : Option ℤ). preimage decode_hex encoded vault (pos nonce) z ≡ some bytes) k h,
  )

  -- The signature of what an encoder returned.
  abbrev Signs : Str → ℕ → Option ℤ → Bool → Str → Option Str → Type 0
  Signs vault nonce d m sig o = sign_encoded o vault nonce d m ≡ some sig

  -- The signature of what was written for the hash.
  abbrev over_preimage : Bool → Option Str → Option Str
  over_preimage m o = printed print (elim o [
    | none ↦ none
    | some bytes ↦ sign_inner crypto (construct_phantom_agent crypto (keccak bytes) m)
  ])

  signed_parts :
      (encoded vault : Str) (nonce : ℕ) (d : Option ℤ) (m : Bool) (sig : Str)
      → sign_encoded (some encoded) vault nonce d m ≡ some sig
      → (bytes : Str) × (preimage decode_hex encoded vault (pos nonce) d ≡ some bytes)
        × (sign_bytes m bytes ≡ some sig)
  unfolding sign_l1_action
  signed_parts encoded vault nonce d m sig h =
      elim (Option-cases (preimage decode_hex encoded vault (pos nonce) d)) [
        | inl e ↦
            absurd (none_ne_some sig (subst (λ (o : Option Str). over_preimage m o ≡ some sig) e h))
        | inr (bytes, e) ↦ (bytes, e, subst (λ (o : Option Str). over_preimage m o ≡ some sig) e h)
      ]

  sign_l1_with_parts :
      (a : Action) (vault : Str) (nonce : ℕ) (d : Option ℤ) (m : Bool) (sig : Str)
      → sign_l1_with a vault nonce d m ≡ some sig
      → (encoded : Str) × (bytes : Str) × (encode a ≡ some encoded)
        × (preimage decode_hex encoded vault (pos nonce) d ≡ some bytes)
        × (sign_bytes m bytes ≡ some sig)
  unfolding sign_l1_with
  sign_l1_with_parts a vault nonce d m sig h = elim (Option-cases (encode a)) [
    | inl e ↦ absurd (none_ne_some sig (subst (Signs vault nonce d m sig) e h))
    | inr (encoded, e) ↦
        let (bytes, p, k) =
          signed_parts encoded vault nonce d m sig (subst (Signs vault nonce d m sig) e h) in
        (encoded, bytes, e, p, k)
  ]

  module _ (env : Env) (cfg : Config) where
    open env use {World}

    -- The signature of a body is over bytes that its reader hashes too exactly when the client has no
    -- expiry.
    abbrev pub Verifies : Envelope → Type 0
    Verifies e =
        (bytes : Str) × (sign_bytes cfg.is_mainnet bytes ≡ some e.signature)
        × ((rehashed e ≡ some bytes) ↔ (cfg.expires_after ≡ none))

    envelope_vault :
        (a : Action) (nonce : ℕ) (sig : Str)
        → is_user_signed (action_type_of env cfg a) ≡ false
        → vault_text (envelope env cfg a nonce sig).vault_address ≡ cfg.vault
    unfolding envelope
    envelope_vault a nonce sig h = elim (Bool-cases (cfg.vault == [])) [
      | inl e ↦ rw (h, e) (sym ((==_iff cfg.vault []).0 e))
      | inr e ↦ rw (h, e) refl
    ]

    rehashed-envelope :
        (a : Action) (nonce : ℕ) (sig encoded : Str)
        → is_user_signed (action_type_of env cfg a) ≡ false
        → encode a ≡ some encoded
        → rehashed (envelope env cfg a nonce sig)
          ≡ preimage decode_hex encoded cfg.vault (pos nonce) none
    unfolding envelope
    rehashed-envelope a nonce sig encoded l1 e =
        ap (λ (o : Option Str). rehash o (envelope env cfg a nonce sig).vault_address nonce) e
        ∙ ap (λ (v : Str). preimage decode_hex encoded v (pos nonce) none)
            (envelope_vault a nonce sig l1)

    -- An action that is not user-signed, of a client whose signer is the one of package signing, is
    -- posted not at all, or in one body with that action whose signature is over some bytes; the
    -- body's action, nonce and vault, written for the hash without an expiry, are these bytes exactly
    -- when the client has no expiry.
    pub execute_action-Verifies :
        (a : Action) (s : St World)
        → ((b : Action) (v : Str) (n : ℕ) (d : Option ℤ) (m : Bool)
            → env.sign_l1 b v n d m ≡ sign_l1_with b v n d m)
        → is_user_signed (action_type_of env cfg a) ≡ false
        → let s' = (execute_action env cfg a s).0 in
          (s'.posted ≡ s.posted)
          ⊎ ((e : Envelope) × (s'.posted ≡ s.posted ++ (e ∷ [])) × (e.action ≡ a) × Verifies e)
    unfolding envelope
    execute_action-Verifies a s signer l1 = elim (execute_action-Posted env cfg a s) [
      | inl q ↦ inl q
      | inr (nonce, sig, signed, posted) ↦
          let (encoded, bytes, enc, pre, over) =
            sign_l1_with_parts a cfg.vault nonce cfg.expires_after cfg.is_mainnet sig
              (sym (signer a cfg.vault nonce cfg.expires_after cfg.is_mainnet) ∙ signed) in
          inr (
            envelope env cfg a nonce sig,
            posted,
            refl,
            (
              bytes,
              over,
              rw (rehashed-envelope a nonce sig encoded l1 enc)
                  (preimage_expiry encoded cfg.vault bytes nonce cfg.expires_after pre),
            ),
          )
    ]
