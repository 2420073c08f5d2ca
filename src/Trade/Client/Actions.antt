-- ===== src/Trade/Client/Actions.antt =====
-- signing/actions.go and the responses: what the client posts and what it reads back.
use hyperliquid_go.Base.{ℕ, Bool, Option, List}
use hyperliquid_go.Base.Text.{Str}
use hyperliquid_go.Base.Int.{ℤ}
use hyperliquid_go.Types.{BuilderInfo, OrderTypeWire, Grouping}
use hyperliquid_go.Signing.Values.{Fields}

-- info.Position and info.UserState, less the fields that the checks do not read.
pub record Position : Type 0 where
  pub coin : Str
  pub szi : Str

pub record UserState : Type 0 where
  pub positions : List Position

-- signing/actions.go
pub record OrderWire : Type 0 where
  pub asset : ℕ
  pub is_buy : Bool
  pub limit_px : Str
  pub size : Str
  pub reduce_only : Bool
  pub order_type : OrderTypeWire
  pub cloid : Option Str

pub record OrderAction : Type 0 where
  pub orders : List OrderWire
  pub grouping : Grouping
  pub builder : Option BuilderInfo

-- `Oid any` holds an int64 or a client order id.
pub data OrderRef : Type 0 where
  by_oid : ℤ → OrderRef
  by_cloid : Str → OrderRef

pub record ModifyAction : Type 0 where
  pub oid : OrderRef
  pub order : OrderWire

pub record CancelOrderWire : Type 0 where
  pub asset : ℕ
  pub order_id : ℤ

pub record CancelByCloidWire : Type 0 where
  pub asset : ℕ
  pub client_id : Str

-- The structs of signing/actions.go that the client posts, with their fields in order and without the
-- type, and the actions that are maps. A float64 stands by its bits.
pub data Action : Type 0 where
  order : OrderAction → Action
  modify : ModifyAction → Action
  cancel : List CancelOrderWire → Action
  cancel_by_cloid : List CancelByCloidWire → Action
  vault_transfer : Str → Bool → ℤ → Action
  create_sub_account : Str → Action
  sub_account_transfer : Str → Bool → ℤ → Action
  sub_account_spot_transfer : Str → Bool → Str → ℕ → Action
  update_leverage : ℕ → Bool → ℤ → Action
  update_isolated_margin : ℕ → Bool → ℤ → Action
  schedule_cancel : Option ℤ → Action
  set_referrer : Str → Action
  evm_user_modify : Bool → Action
  split_outcome : ℕ → Str → Action
  merge_outcome : ℕ → Option Str → Action
  merge_question : ℕ → Option Str → Action
  negate_outcome : ℕ → ℕ → Str → Action
  map_action : Fields → Action

-- The key `vaultAddress` of a body: missing, null, or an address.
pub data VaultKey : Type 0 where
  vault_absent vault_null : VaultKey
  vault_is : Str → VaultKey

-- The body that `postAction` sends.
pub record Envelope : Type 0 where
  pub action : Action
  pub nonce : ℕ
  pub signature : Str
  pub vault_address : VaultKey

-- types.APIResponse with the statuses of an order or cancel response, each as raw JSON.
pub record ApiResponse : Type 0 where
  pub is_ok : Bool
  pub error : Str
  pub statuses : List Str

pub record RestingStatus : Type 0 where
  pub oid : ℤ
  pub client_id : Str
  pub status : Str

pub record FilledStatus : Type 0 where
  pub total_sz : Str
  pub avg_px : Str
  pub oid : ℤ

-- `OrderStatus`: one object of the statuses.
pub record OrderStatus : Type 0 where
  pub resting : Option RestingStatus
  pub filled : Option FilledStatus
  pub error : Option Str

pub record OpenOrder : Type 0 where
  pub coin : Str
  pub oid : ℤ
