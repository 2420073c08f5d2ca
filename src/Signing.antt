-- ===== src/Signing.antt =====
-- signing/signing.go and internal/eip712/eip712.go: what is hashed and signed for an action. The
-- hashes, the elliptic curve and the encoders are libraries, and parameters here.
pub mod Values
pub mod Bytes
pub mod Lenient
pub mod Preimage
pub mod Schemas
pub mod Proofs
use hyperliquid_go.Base.{
  ℕ, ◌+◌, Bool, Option, none, some, [], ◌∷◌, ◌++◌, if◌then◌else◌, ok, err, get_elem?,
}
use hyperliquid_go.Base.Text.{Str, codes, take, drop}
use hyperliquid_go.Base.Int.{ℤ}
use hyperliquid_go.Signing.Values.{Fields, no_fields, field, text, set_field, Schema}
use hyperliquid_go.Signing.Bytes.{fit, be_value}
use hyperliquid_go.Signing.Lenient.{Numbers, filter_fields}
use hyperliquid_go.Signing.Preimage.{preimage}
use hyperliquid_go.Signing.Schemas.{l1_schema}

-- `SignatureResult`, with r and s as the numbers that are printed.
pub record Signature : Type 0 where
  pub r : ℕ
  pub s : ℕ
  pub v : ℕ

-- go-ethereum: `HashStruct` of a message under one schema, the domain hashes, Keccak-256 and the
-- signature of a digest by the client's key. `none` is an error.
pub record Crypto : Type 1 where
  pub hash_struct : Str → Schema → Fields → Option Str
  pub user_domain : Option Str
  pub l1_domain : Str
  pub keccak : Str → Str
  pub sign_digest : Str → Option Str
  pub hex : Str → Str
  pub decode_hex : Str → Str
  pub numbers : Numbers

-- `sig[:32]`, `sig[32:64]` and `sig[64]` of the 65 bytes that the library returns.
unfoldable pub signature_of : Str → Signature
signature_of sig = record {
  r = be_value (take 32 sig);
  s = be_value (take 32 (drop 32 sig));
  v = elim (get_elem? sig 64) [ none ↦ 27 | some byte ↦ byte + 27 ];
}

-- The 66 bytes 0x19, 0x01, domain, message.
unfoldable pub raw_data : Str → Str → Str
raw_data domain message = 25 ∷ 1 ∷ (fit 32 domain ++ fit 32 message)

-- `HashStructLenient`
unfoldable pub hash_struct_lenient : Crypto → Schema → Str → Fields → Option Str
hash_struct_lenient crypto schema primary msg =
    elim (filter_fields crypto.numbers schema msg no_fields) [
      | err e ↦ none
      | ok filtered ↦ crypto.hash_struct primary schema filtered
    ]

unfoldable pub sign_raw : Crypto → Str → Str → Option Signature
sign_raw crypto domain message =
    elim (crypto.sign_digest (crypto.keccak (raw_data domain message))) [
      | none ↦ none
      | some sig ↦ some (signature_of sig)
    ]

-- The two keys that `SignUserSignedAction` adds to the caller's map.
unfoldable pub with_chain : Bool → Fields → Fields
with_chain is_mainnet action = set_field (codes "signatureChainId") (text (codes "0x66eee")) (
    set_field (codes "hyperliquidChain")
      (text (if is_mainnet then codes "Mainnet" else codes "Testnet")) action)

-- `SignUserSignedAction`: the map as it is left, and the signature of it.
unfoldable pub sign_user_signed : Crypto → Fields → Schema → Str → Bool → Fields × Option Signature
sign_user_signed crypto action schema primary is_mainnet =
    let signed = with_chain is_mainnet action in
    (
      signed,
      elim crypto.user_domain [
        | none ↦ none
        | some domain ↦ elim (hash_struct_lenient crypto schema primary signed) [
          | none ↦ none
          | some hash ↦ sign_raw crypto domain hash
        ]
      ],
    )

-- `ConstructPhantomAgent`
unfoldable pub construct_phantom_agent : Crypto → Str → Bool → Fields
construct_phantom_agent crypto hash is_mainnet =
    field (codes "source") (text (if is_mainnet then codes "a" else codes "b"))
      (field (codes "connectionId") (text (codes "0x" ++ crypto.hex hash)) no_fields)

-- `SignInner` over `L1Payload`
unfoldable pub sign_inner : Crypto → Fields → Option Signature
sign_inner crypto agent = elim (crypto.hash_struct (codes "Agent") l1_schema agent) [
  | none ↦ none
  | some hash ↦ sign_raw crypto crypto.l1_domain hash
]

-- `SignL1Action` of an action that is already encoded; `none` is an error or a panic.
unfoldable pub sign_l1_action : Crypto → Str → Str → ℤ → Option ℤ → Bool → Option Signature
sign_l1_action crypto encoded vault nonce expires_after is_mainnet =
    elim (preimage crypto.decode_hex encoded vault nonce expires_after) [
      | none ↦ none
      | some bytes ↦
          sign_inner crypto (construct_phantom_agent crypto (crypto.keccak bytes) is_mainnet)
    ]
