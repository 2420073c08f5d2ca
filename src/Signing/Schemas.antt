-- ===== src/Signing/Schemas.antt =====
-- The schemas of the actions: the fields that are signed, in order, of signing/signing.go and
-- internal/eip712/eip712.go.
use hyperliquid_go.Base.{[], ◌∷◌}
use hyperliquid_go.Base.Text.{codes}
use hyperliquid_go.Signing.Values.{Schema}

abbrev pub usd_send_schema : Schema
usd_send_schema =
    record { name = codes "hyperliquidChain"; kind = codes "string" }
    ∷ record { name = codes "destination"; kind = codes "string" }
    ∷ record { name = codes "amount"; kind = codes "string" }
    ∷ record { name = codes "time"; kind = codes "uint64" }
    ∷ []

abbrev pub spot_transfer_schema : Schema
spot_transfer_schema =
    record { name = codes "hyperliquidChain"; kind = codes "string" }
    ∷ record { name = codes "destination"; kind = codes "string" }
    ∷ record { name = codes "token"; kind = codes "string" }
    ∷ record { name = codes "amount"; kind = codes "string" }
    ∷ record { name = codes "time"; kind = codes "uint64" }
    ∷ []

abbrev pub withdraw_schema : Schema
withdraw_schema =
    record { name = codes "hyperliquidChain"; kind = codes "string" }
    ∷ record { name = codes "destination"; kind = codes "string" }
    ∷ record { name = codes "amount"; kind = codes "string" }
    ∷ record { name = codes "time"; kind = codes "uint64" }
    ∷ []

abbrev pub usd_class_transfer_schema : Schema
usd_class_transfer_schema =
    record { name = codes "hyperliquidChain"; kind = codes "string" }
    ∷ record { name = codes "amount"; kind = codes "string" }
    ∷ record { name = codes "toPerp"; kind = codes "bool" }
    ∷ record { name = codes "nonce"; kind = codes "uint64" }
    ∷ []

abbrev pub send_asset_schema : Schema
send_asset_schema =
    record { name = codes "hyperliquidChain"; kind = codes "string" }
    ∷ record { name = codes "destination"; kind = codes "string" }
    ∷ record { name = codes "sourceDex"; kind = codes "string" }
    ∷ record { name = codes "destinationDex"; kind = codes "string" }
    ∷ record { name = codes "token"; kind = codes "string" }
    ∷ record { name = codes "amount"; kind = codes "string" }
    ∷ record { name = codes "fromSubAccount"; kind = codes "string" }
    ∷ record { name = codes "nonce"; kind = codes "uint64" }
    ∷ []

abbrev pub token_delegate_schema : Schema
token_delegate_schema =
    record { name = codes "hyperliquidChain"; kind = codes "string" }
    ∷ record { name = codes "validator"; kind = codes "address" }
    ∷ record { name = codes "wei"; kind = codes "uint64" }
    ∷ record { name = codes "isUndelegate"; kind = codes "bool" }
    ∷ record { name = codes "nonce"; kind = codes "uint64" }
    ∷ []

abbrev pub convert_to_multi_sig_user_schema : Schema
convert_to_multi_sig_user_schema =
    record { name = codes "hyperliquidChain"; kind = codes "string" }
    ∷ record { name = codes "signers"; kind = codes "string" }
    ∷ record { name = codes "nonce"; kind = codes "uint64" }
    ∷ []

abbrev pub approve_agent_schema : Schema
approve_agent_schema =
    record { name = codes "hyperliquidChain"; kind = codes "string" }
    ∷ record { name = codes "agentAddress"; kind = codes "address" }
    ∷ record { name = codes "agentName"; kind = codes "string" }
    ∷ record { name = codes "nonce"; kind = codes "uint64" }
    ∷ []

abbrev pub approve_builder_fee_schema : Schema
approve_builder_fee_schema =
    record { name = codes "hyperliquidChain"; kind = codes "string" }
    ∷ record { name = codes "maxFeeRate"; kind = codes "string" }
    ∷ record { name = codes "builder"; kind = codes "address" }
    ∷ record { name = codes "nonce"; kind = codes "uint64" }
    ∷ []

abbrev pub l1_schema : Schema
l1_schema =
    record { name = codes "source"; kind = codes "string" }
    ∷ record { name = codes "connectionId"; kind = codes "bytes32" }
    ∷ []
