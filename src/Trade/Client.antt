-- ===== src/Trade/Client.antt =====
-- trade/exchange.go: the client's state, its view of the venue, and the signed post of an action.
pub mod Bind
mod Actions
pub use Actions.*
use hyperliquid_go.Base.{
  ℕ, ◌||◌, Bool, true, false, Option, none, some, List, [], ◌∷◌, ◌++◌, ◌==◌, str_eq, if◌then◌else◌,
  Result, ok, err,
}
use hyperliquid_go.Base.Dict.{Dict}
use hyperliquid_go.Base.Text.{Str, codes}
use hyperliquid_go.Signing.Values.{Fields, Value, text, get_field}
use hyperliquid_go.Base.Int.{ℤ}
use hyperliquid_go.Float.{Float}
use hyperliquid_go.Types.{BuilderInfo, OrderTypeWire, Grouping}
use hyperliquid_go.Info.{Tables}

-- The fields of `Client` that the operations read. The key's own address is `none` without a key.
pub record Config : Type 0 where
  pub vault : Str
  pub account_addr : Str
  pub dex : Str
  pub key_addr : Option Str
  pub expires_after : Option ℤ
  pub is_mainnet : Bool
  pub tables : Tables

-- What stands outside the repository: the venue behind HTTP with a state of its own, the signer, the
-- clock and the JSON decoders. `none` is an error.
pub record Env : Type 1 where
  pub fl : Float
  pub World : Type 0
  pub now_ms : World → ℕ
  pub user_state : World → Str → Str → World × Option UserState
  pub all_mids : World → Str → World × Option (Dict Str Str)
  pub open_orders : World → Str → World × Option (List OpenOrder)
  pub post_exchange : World → Envelope → World × Option Str
  pub sign_l1 : Action → Str → ℕ → Option ℤ → Bool → Option Str
  pub decode_response : Str → Option (Option ApiResponse)
  pub parse_status : Str → Option OrderStatus
  pub parse_cancel_error : Str → Option Str
  -- The field `type` of a map action's JSON, in any case of its letters.
  pub peek_type : Fields → Str

-- The codes of types.ValidationError, and the other errors, told apart by their origin.
pub data Code : Type 0 where
  coin_required unknown_coin size_below_min size_step_violation price_non_positive : Code
  significant_figures unsupported_option modify_target_required modify_no_change : Code
  tp_wrong_side_buy sl_wrong_side_buy tp_wrong_side_sell sl_wrong_side_sell : Code
  bracket_size_exceeds_entry wrong_side_for_reduce no_position : Code
  close_size_exceeds_position : Code

pub data Error : Type 0 where
  invalid : Code → Error
  no_address no_user_state no_mids no_midprice bad_midprice no_open_orders : Error
  spec_without_coin wire_failed sign_failed post_failed decode_failed : Error
  rejected : Str → Error
  no_status bad_status_type bad_status : Error
  bad_amount no_spot_meta no_spot_pair below_step : Error

-- The state of a call: the venue, the cached user state and the bodies that were posted so far.
pub record St (W : Type 0) : Type 0 where
  pub world : W
  pub cached : Option UserState
  pub posted : List Envelope

-- A Go method: the new state, and a value or an error.
abbrev pub M : Type 0 → Type 0 → Type 0
M W A = St W → St W × Result Error A

abbrev pub continue : {W A B : Type 0} → St W × Result Error A → (A → M W B) → St W × Result Error B
continue (s, ok a) f = f a s
continue (s, err e) f = (s, err e)

infixl 5 ◌>>=◌ ◌>>◌
abbrev pub ◌>>=◌ : {W A B : Type 0} → M W A → (A → M W B) → M W B
◌>>=◌ m f s = continue (m s) f

abbrev pub ◌>>◌ : {W B : Type 0} → M W (Unit {0}) → M W B → M W B
m >> k = m >>= λ _. k

abbrev pub return : {W A : Type 0} → A → M W A
return a s = (s, ok a)

abbrev pub throw : {W A : Type 0} → Error → M W A
throw e s = (s, err e)

abbrev pub or_throw : {W A : Type 0} → Option A → Error → M W A
or_throw none e s = (s, err e)
or_throw (some a) e s = (s, ok a)

-- A pure check that fails with a validation code.
abbrev pub checked : {W A : Type 0} → Result Code A → M W A
checked (ok a) s = (s, ok a)
checked (err c) s = (s, err (invalid c))

-- `t, _ := v.(string)`
abbrev pub text_or_empty : Option Value → Str
text_or_empty (some (text s)) = s
text_or_empty _ = []

unfoldable pub is_user_signed : Str → Bool
is_user_signed t =
    t == codes "usdClassTransfer"
    || t == codes "sendAsset"
    || t == codes "usdSend"
    || t == codes "spotSend"
    || t == codes "withdraw3"
    || t == codes "approveAgent"
    || t == codes "approveBuilderFee"
    || t == codes "tokenDelegate"
    || t == codes "convertToMultiSigUser"

module _ (env : Env) (cfg : Config) where
  open env use {World}

  -- `effectiveAddr`
  unfoldable pub effective_addr : Str
  effective_addr =
      if cfg.account_addr == []
      then if cfg.vault == [] then elim cfg.key_addr [ none ↦ [] | some a ↦ a ] else cfg.vault
      else cfg.account_addr

  abbrev pub query : {A : Type 0} → (World → World × Option A) → Error → M World A
  query f e s = let (w, r) = f s.world in or_throw r e (record s { world = w })

  abbrev pub set_cached : UserState → M World (Unit {0})
  set_cached u s = (record s { cached = some u }, ok tt)

  -- `RefreshState`. The query without a dex is the query at the empty one.
  unfoldable pub refresh_state : M World (Unit {0})
  refresh_state =
      if effective_addr == []
      then throw no_address
      else do u ← query (λ w. env.user_state w effective_addr cfg.dex) no_user_state; set_cached u

  -- The body is recorded when it is sent, whatever the venue answers.
  unfoldable pub post_action : Envelope → M World Str
  post_action e s =
      let (w, r) = env.post_exchange s.world e in
      or_throw r post_failed (record s { world = w; posted = s.posted ++ (e ∷ []) })

  -- `actionTypeOf`
  unfoldable pub action_type_of : Action → Str
  action_type_of (order a) = codes "order"
  action_type_of (modify a) = codes "modify"
  action_type_of (cancel cs) = codes "cancel"
  action_type_of (cancel_by_cloid cs) = codes "cancelByCloid"
  action_type_of (vault_transfer address is_deposit usd) = codes "vaultTransfer"
  action_type_of (create_sub_account name) = codes "createSubAccount"
  action_type_of (sub_account_transfer user is_deposit usd) = codes "subAccountTransfer"
  action_type_of (sub_account_spot_transfer user is_deposit token amount) =
      codes "subAccountSpotTransfer"
  action_type_of (update_leverage asset is_cross leverage) = codes "updateLeverage"
  action_type_of (update_isolated_margin asset is_buy ntli) = codes "updateIsolatedMargin"
  action_type_of (schedule_cancel time) = codes "scheduleCancel"
  action_type_of (set_referrer code) = codes "setReferrer"
  action_type_of (evm_user_modify big) = codes "evmUserModify"
  action_type_of (split_outcome outcome amount) = codes "userOutcome"
  action_type_of (merge_outcome outcome amount) = codes "userOutcome"
  action_type_of (merge_question question amount) = codes "userOutcome"
  action_type_of (negate_outcome question outcome amount) = codes "userOutcome"
  action_type_of (map_action m) =
      let t = text_or_empty (get_field (codes "type") m) in if t == [] then env.peek_type m else t

  -- `postAction`: the body it sends.
  unfoldable pub envelope : Action → ℕ → Str → Envelope
  envelope a nonce sig = record {
    action = a;
    nonce = nonce;
    signature = sig;
    vault_address =
        if is_user_signed (action_type_of a)
        then vault_null
        else if cfg.vault == []
        then vault_absent
        else vault_is cfg.vault;
  }

  -- Signing for `vault`, then the post under the client's own vault.
  unfoldable pub sign_and_post : Str → Action → M World Str
  sign_and_post vault a s =
      let nonce = env.now_ms s.world in
      elim (env.sign_l1 a vault nonce cfg.expires_after cfg.is_mainnet) [
        | none ↦ throw sign_failed s
        | some sig ↦ post_action (envelope a nonce sig) s
      ]

  -- `executeAction`, with the response decoded as a pointer that may be nil.
  unfoldable pub execute_action : Action → M World (Option ApiResponse)
  execute_action a = do
    body ← sign_and_post cfg.vault a
    or_throw (env.decode_response body) decode_failed
