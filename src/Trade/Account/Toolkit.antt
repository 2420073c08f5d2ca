-- ===== src/Trade/Account/Toolkit.antt =====
-- The two ways in which an account action is posted, the responses, and the library functions that
-- the account actions call.
use hyperliquid_go.Base.{ℕ, Bool, Option, none, some, List}
use hyperliquid_go.Base.Text.{Str}
use hyperliquid_go.Base.Int.{ℤ}
use hyperliquid_go.Signing.{Crypto, Signature, sign_user_signed}
use hyperliquid_go.Signing.Values.{Fields, Schema}
use hyperliquid_go.Trade.Client.{
  Env, Config, M, UserState, Action, map_action, ◌>>=◌, or_throw, throw, decode_failed, sign_failed,
  sign_and_post, post_action, envelope,
}

-- `TransferResponse` and `AgentApprovalResponse`, with the response as raw JSON.
pub record TransferResponse : Type 0 where
  pub status : Str
  pub tx_hash : Str
  pub error : Str
  pub response : Str

-- `ValidatorResponse`, `SpotDeployResponse`, `ApprovalResponse`, `MultiSigResponse` and
-- `MultiSigConversionResponse`.
pub record StatusResponse : Type 0 where
  pub status : Str
  pub tx_hash : Str
  pub error : Str

-- `PerpDeployResponse`: the coins and their statuses.
pub record PerpDeployResponse : Type 0 where
  pub status : Str
  pub statuses : List (Str × Str)

-- `SetReferrerResponse` and `ScheduleCancelResponse`.
pub record BriefResponse : Type 0 where
  pub status : Str
  pub error : Str

-- `CreateSubAccountResponse`, with the sub-account as raw JSON.
pub record CreateSubAccountResponse : Type 0 where
  pub status : Str
  pub account : Option Str
  pub error : Str

-- `APIResponse[DefaultResponse]`
pub record DefaultResponse : Type 0 where
  pub is_ok : Bool
  pub kind : Str
  pub error : Str

pub record SpotToken : Type 0 where
  pub name : Str
  pub index : ℤ

pub record SpotPair : Type 0 where
  pub name : Str
  pub tokens : List ℤ

-- info.SpotMeta, as far as the search for a pair reads it.
pub record SpotUniverse : Type 0 where
  pub tokens : List SpotToken
  pub pairs : List SpotPair

-- Packages json, math, strings and sort, the random source and the venue's spot metadata. `none` is
-- an error.
pub record Toolkit (F World : Type 0) : Type 1 where
  pub crypto : Crypto
  pub signature_json : Signature → Str
  pub float_bits : F → ℕ
  pub to_lower : Str → Str
  pub equal_fold : Str → Str → Bool
  pub sort_strings : List Str → List Str
  pub marshal_signers : List Str → ℤ → Option Str
  -- A new agent key: its address in lower case, and the key.
  pub fresh_agent : World → World × Option (Str × Str)
  pub spot_meta : World → World × Option SpotUniverse
  pub decode_transfer : Str → Option TransferResponse
  pub decode_status : Str → Option StatusResponse
  pub decode_perp_deploy : Str → Option PerpDeployResponse
  pub decode_brief : Str → Option BriefResponse
  pub decode_sub_account : Str → Option CreateSubAccountResponse
  pub decode_user_state : Str → Option UserState
  pub decode_default : Str → Option DefaultResponse
  -- A JSON string, or the empty text for any other JSON.
  pub decode_reason : Str → Str

module _ (env : Env) (kit : Toolkit env.fl.F env.World) (cfg : Config) where
  open env use {World}
  open kit use {crypto, signature_json}

  -- An L1 action signed for `vault`, posted, and its response decoded.
  unfoldable pub l1_call : {A : Type 0} → Str → Action → (Str → Option A) → M World A
  l1_call vault a decode = do
    body ← sign_and_post env cfg vault a
    or_throw (decode body) decode_failed

  -- The time in milliseconds, as the nonce of an action.
  unfoldable pub with_nonce : {A : Type 0} → (ℕ → M World A) → M World A
  with_nonce f s = f (env.now_ms s.world) s

  -- `executeUserSignedAction`
  unfoldable pub execute_user_signed_action :
      {A : Type 0} → Fields → Schema → Str → ℕ → (Str → Option A) → M World A
  execute_user_signed_action action schema primary nonce decode =
      let signed = sign_user_signed crypto action schema primary cfg.is_mainnet in
      elim signed.1 [
        | none ↦ throw sign_failed
        | some sig ↦
            post_action env cfg (envelope env cfg (map_action signed.0) nonce (signature_json sig))
            >>= λ body. or_throw (decode body) decode_failed
      ]
