-- ===== src/Signing/Proofs/Binding.antt =====
-- What `ActionHash` hashes fixes the nonce, the vault and the expiry of an action.
use hyperliquid_go.Base.{
  ℕ, ◌^◌, ◌<◌, ◌≡◌, refl, ◌∙◌, ap, sym, Option, none, some, [], ◌∷◌, ◌++◌, arith, length, ◌⊎◌, inl,
  inr, Bool-cases, Option-cases, append_assoc, ◌==◌, str_eq, if◌then◌else◌, if_eq_true, if_eq_false,
  ◌≢◌, ==_iff,
}
use hyperliquid_go.Base.Text.{Str}
use hyperliquid_go.Base.Int.{ℤ, pos, negsuc}
use hyperliquid_go.Signing.Bytes.{be_bytes, be_value, be_value-be_bytes, length-be_bytes}
use hyperliquid_go.Signing.Preimage.{preimage, expires_part, vault_part, address_to_bytes}

-- Lists whose first parts are of one length are equal part by part.
pub append_parts :
    (xs us : Str) {ys vs : Str}
    → length xs ≡ length us
    → xs ++ ys ≡ us ++ vs
    → (xs ≡ us) × (ys ≡ vs)
append_parts [] [] l h = (refl, h)
append_parts (x ∷ xs) (u ∷ us) {ys} {vs} l h =
    let t : xs ++ ys ≡ us ++ vs = cc in
    let r : (xs ≡ us) × (ys ≡ vs) = append_parts xs us (omega (arith, l)) t in (cc, r.1)
append_parts [] (u ∷ us) l h = absurd (omega (arith, l))
append_parts (x ∷ xs) [] l h = absurd (omega (arith, l))

be_bytes-injective : (m n : ℕ) → m < 2 ^ 63 → n < 2 ^ 63 → be_bytes 8 m ≡ be_bytes 8 n → m ≡ n
be_bytes-injective m n hm hn h =
    sym (be_value-be_bytes 8 m (omega (arith, hm)))
    ∙ ap be_value h
    ∙ be_value-be_bytes 8 n (omega (arith, hn))

-- An int64.
abbrev pub IsInt64 : ℤ → Type 0
IsInt64 (pos n) = n < 2 ^ 63
IsInt64 (negsuc n) = n < 2 ^ 63

abbrev pub IsExpiry : Option ℤ → Type 0
IsExpiry none = Unit
IsExpiry (some ms) = IsInt64 ms

-- The tails of two expiries that do not panic.
expires_part-injective :
    (d e : Option ℤ) (s : Str)
    → IsExpiry d
    → IsExpiry e
    → expires_part d ≡ some s
    → expires_part e ≡ some s
    → d ≡ e
unfolding expires_part
expires_part-injective none none s hd he p q = refl
expires_part-injective none (some (pos n)) s hd he p q = cc
expires_part-injective (some (pos m)) none s hd he p q = cc
expires_part-injective (some (pos m)) (some (pos n)) s hd he p q =
    let r : be_bytes 8 m ≡ be_bytes 8 n = cc in
    ap (λ (k : ℕ). some (pos k)) (be_bytes-injective m n hd he r)
expires_part-injective (some (negsuc m)) e s hd he p q = cc
expires_part-injective d (some (negsuc n)) s hd he p q = cc

-- A vault that is no address, or one whose address is of twenty bytes.
abbrev pub IsVault : (Str → Str) → Str → Type 0
IsVault decode_hex vault = (vault ≡ []) ⊎ (length (address_to_bytes decode_hex vault) ≡ 20)

-- The vault that goes into the hash: none, or the bytes of its address.
abbrev pub vault_bytes : (Str → Str) → Str → Option Str
vault_bytes decode_hex vault =
    if vault == [] then none else some (address_to_bytes decode_hex vault)

module _ (decode_hex : Str → Str) where
  vault_part_cases :
      (v : Str)
      → ((vault_part decode_hex v ≡ 0 ∷ []) × (vault_bytes decode_hex v ≡ none))
        ⊎ ((vault_part decode_hex v ≡ 1 ∷ address_to_bytes decode_hex v)
            × (vault_bytes decode_hex v ≡ some (address_to_bytes decode_hex v))
            × (v ≢ []))
  unfolding vault_part
  vault_part_cases v = elim (Bool-cases (v == [])) [
    | inl e ↦ inl (if_eq_true _ _ _ e, if_eq_true _ _ _ e)
    | inr e ↦ inr (if_eq_false _ _ _ e, if_eq_false _ _ _ e, ground (arith, e, ==_iff v []))
  ]

  length_of :
      (v : Str) → IsVault decode_hex v → v ≢ [] → length (address_to_bytes decode_hex v) ≡ 20
  length_of v (inl e) n = absurd (n e)
  length_of v (inr l) n = l

  vault_part-injective :
      (v w : Str) (ys zs : Str)
      → IsVault decode_hex v
      → IsVault decode_hex w
      → vault_part decode_hex v ++ ys ≡ vault_part decode_hex w ++ zs
      → (vault_bytes decode_hex v ≡ vault_bytes decode_hex w) × (ys ≡ zs)
  vault_part-injective v w ys zs iv iw h = elim (vault_part_cases v) [
    | inl (p, q) ↦ elim (vault_part_cases w) [
      | inl (r, t) ↦
          let k : 0 ∷ ys ≡ 0 ∷ zs =
            sym (ap (λ (x : Str). x ++ ys) p) ∙ h ∙ ap (λ (x : Str). x ++ zs) r in
          (q ∙ sym t, cc)
      | inr (r, t, nw) ↦
          let k : 0 ∷ ys ≡ 1 ∷ (address_to_bytes decode_hex w ++ zs) =
            sym (ap (λ (x : Str). x ++ ys) p) ∙ h ∙ ap (λ (x : Str). x ++ zs) r in
          absurd cc
    ]
    | inr (p, q, nv) ↦ elim (vault_part_cases w) [
      | inl (r, t) ↦
          let k : 1 ∷ (address_to_bytes decode_hex v ++ ys) ≡ 0 ∷ zs =
            sym (ap (λ (x : Str). x ++ ys) p) ∙ h ∙ ap (λ (x : Str). x ++ zs) r in
          absurd cc
      | inr (r, t, nw) ↦
          let k : 1 ∷ (address_to_bytes decode_hex v ++ ys)
              ≡ 1 ∷ (address_to_bytes decode_hex w ++ zs) =
            sym (ap (λ (x : Str). x ++ ys) p) ∙ h ∙ ap (λ (x : Str). x ++ zs) r in
          let k' : address_to_bytes decode_hex v ++ ys ≡ address_to_bytes decode_hex w ++ zs = cc in
          let r' =
            append_parts (address_to_bytes decode_hex v) (address_to_bytes decode_hex w)
              (length_of v iv nv ∙ sym (length_of w iw nw)) k' in
          (q ∙ ap (λ (x : Str). some x) r'.0 ∙ sym t, r'.1)
    ]
  ]

  some_inj : (a b : Str) → some a ≡ some b → a ≡ b
  some_inj a b h = cc

  pub preimage_parts :
      (encoded v bytes : Str) (n : ℕ) (d : Option ℤ)
      → preimage decode_hex encoded v (pos n) d ≡ some bytes
      → (s : Str) × (expires_part d ≡ some s)
        × (encoded ++ (be_bytes 8 n ++ (vault_part decode_hex v ++ s)) ≡ bytes)
  unfolding preimage
  preimage_parts encoded v bytes n d p = elim (Option-cases (expires_part d)) [
    | inl x ↦ let k : none ≡ some bytes = rw (← p, preimage, x) refl in cc
    | inr (s, x) ↦
        let k : some (encoded ++ be_bytes 8 n ++ vault_part decode_hex v ++ s) ≡ some bytes =
          rw (← p, preimage, x) refl in
        (
          s,
          x,
          sym (append_assoc encoded (be_bytes 8 n) (vault_part decode_hex v ++ s))
              ∙ sym (append_assoc (encoded ++ be_bytes 8 n) (vault_part decode_hex v) s)
              ∙ some_inj _ bytes k,
        )
  ]

  -- For one encoding of the action, vaults that are empty or addresses of twenty bytes, and int64
  -- nonces and expiries, one preimage has one nonce, one vault and one expiry.
  pub preimage-injective :
      (encoded v w bytes : Str) (m n : ℤ) (d e : Option ℤ)
      → IsVault decode_hex v
      → IsVault decode_hex w
      → IsInt64 m
      → IsInt64 n
      → IsExpiry d
      → IsExpiry e
      → preimage decode_hex encoded v m d ≡ some bytes
      → preimage decode_hex encoded w n e ≡ some bytes
      → (m ≡ n) × (vault_bytes decode_hex v ≡ vault_bytes decode_hex w) × (d ≡ e)
  unfolding preimage
  preimage-injective encoded v w bytes (negsuc m) n d e iv iw hm hn hd he p q = cc
  preimage-injective encoded v w bytes m (negsuc n) d e iv iw hm hn hd he p q = cc
  preimage-injective encoded v w bytes (pos m) (pos n) d e iv iw hm hn hd he p q =
      let (s, x, f) = preimage_parts encoded v bytes m d p in
      let (t, y, g) = preimage_parts encoded w bytes n e q in
      let a = append_parts encoded encoded refl (f ∙ sym g) in
      let b =
        append_parts (be_bytes 8 m) (be_bytes 8 n) (length-be_bytes 8 m ∙ sym (length-be_bytes 8 n))
          a.1 in
      let c = vault_part-injective v w s t iv iw b.1 in
      (
        ap (λ (i : ℕ). pos i) (be_bytes-injective m n hm hn b.0),
        c.0,
        expires_part-injective d e s hd he x (y ∙ ap (λ (i : Str). some i) (sym c.1)),
      )
