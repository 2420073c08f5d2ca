-- ===== src/Signing/Preimage.antt =====
-- `ActionHash` up to the hash: the encoded action and what is written behind it.
use hyperliquid_go.Base.{Option, none, some, [], ◌∷◌, ◌++◌, ◌==◌, str_eq, if◌then◌else◌}
use hyperliquid_go.Base.Text.{Str, codes, take, drop}
use hyperliquid_go.Base.Int.{ℤ, pos, negsuc}
use hyperliquid_go.Signing.Bytes.{be_bytes}

-- `strings.TrimPrefix(address, "0x")`
unfoldable pub trim_0x : Str → Str
trim_0x s = if take 2 s == codes "0x" then drop 2 s else s

module _ (decode_hex : Str → Str) where
  -- `AddressToBytes`; an address that is no hexadecimal text gives the bytes before the error.
  unfoldable pub address_to_bytes : Str → Str
  address_to_bytes address = decode_hex (trim_0x address)

  unfoldable pub vault_part : Str → Str
  vault_part vault = if vault == [] then 0 ∷ [] else 1 ∷ address_to_bytes vault

-- The expiry, which panics below zero.
unfoldable pub expires_part : Option ℤ → Option Str
expires_part none = some []
expires_part (some (pos ms)) = some (0 ∷ be_bytes 8 ms)
expires_part (some (negsuc ms)) = none

-- What is hashed for an action; `none` is the panic on a negative nonce or expiry.
unfoldable pub preimage : (Str → Str) → Str → Str → ℤ → Option ℤ → Option Str
preimage decode_hex encoded vault (negsuc n) expires_after = none
preimage decode_hex encoded vault (pos n) expires_after = elim (expires_part expires_after) [
  | none ↦ none
  | some tail ↦ some (encoded ++ be_bytes 8 n ++ vault_part decode_hex vault ++ tail)
]
