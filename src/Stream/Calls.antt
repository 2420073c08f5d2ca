-- ===== src/Stream/Calls.antt =====
-- stream/post.go: `PostInfo` and `PostAction`, each as its two halves, and stream/webdata2.go.
use hyperliquid_go.Base.{◌*◌, ℕ, Option, List, [], ◌==◌, str_eq, if◌then◌else◌}
use hyperliquid_go.Base.Text.{Str, codes}
use hyperliquid_go.Base.Int.{ℤ, pos, int_eq}
use hyperliquid_go.Trade.Client.{Action, Envelope, vault_null, vault_is}
use hyperliquid_go.Info.Responses.Account.{UserState}
use hyperliquid_go.Info.Responses.Orders.{OpenOrder}
use hyperliquid_go.Info.Responses.Meta.{Meta}
use hyperliquid_go.Stream.Messages.{WsMessage, PostResponse}
use hyperliquid_go.Stream.State.{
  Fault, Net, Stream, Outcome, done, failed, info_error, action_error, after,
}
use hyperliquid_go.Stream.Reconnect.{second}
use hyperliquid_go.Stream.Post.{Waiting, Wake, post_start, post_end}

-- `if timeout == 0 { timeout = 30 * time.Second }`
unfoldable pub timeout_or_default : ℤ → ℤ
timeout_or_default timeout = if timeout == pos 0 then pos (30 * second) else timeout

-- The body of `PostAction`: an empty vault address is sent as null.
unfoldable pub action_payload : Action → Str → ℕ → Str → Envelope
action_payload action signature nonce vault_address = record {
  action = action;
  nonce = nonce;
  signature = signature;
  vault_address = if vault_address == [] then vault_null else vault_is vault_address;
}

module _ (net : Net) (encode_info : Str → Str) (encode_action : Envelope → Str) where
  open net use {World}

  -- `Post` up to the wait, with the time that it waits at most.
  abbrev started : ℤ → Stream World × Outcome Waiting → Stream World × Outcome (Waiting × ℤ)
  started timeout c = after c λ w s. (s, done (w, timeout_or_default timeout))

  unfoldable pub post_info_start : Str → ℤ → Stream World → Stream World × Outcome (Waiting × ℤ)
  post_info_start payload timeout s =
      started timeout (post_start net (codes "info") (encode_info payload) s)

  unfoldable pub post_action_start :
      Action → Str → ℕ → Str → ℤ → Stream World → Stream World × Outcome (Waiting × ℤ)
  post_action_start action signature nonce vault_address timeout s = started timeout (
      post_start net (codes "action")
        (encode_action (action_payload action signature nonce vault_address)) s)

  -- The end of both: the payload, or the error that the response carries.
  abbrev payload_of : (Str → Fault) → PostResponse → Stream World → Stream World × Outcome Str
  payload_of fault r s =
      if r.response_type == codes "error"
      then (s, failed (fault r.payload))
      else (s, done r.payload)

  unfoldable pub post_info_end : Waiting → Wake → Stream World → Stream World × Outcome Str
  post_info_end w wake s = after (post_end net w wake s) (payload_of info_error)

  unfoldable pub post_action_end : Waiting → Wake → Stream World → Stream World × Outcome Str
  post_action_end w wake s = after (post_end net w wake s) (payload_of action_error)

-- `WebData2`; `A` is the type of floats.
pub record WebData2 (A : Type 0) : Type 0 where
  pub clearinghouse_state : UserState
  pub open_orders : List (OpenOrder A)
  pub meta : Meta
  -- Raw JSON.
  pub leading_vaults : List Str
  pub total_vault_equity : Str
  pub agent_address : Str
  pub agent_valid_until : ℤ
  pub cum_ledger : Str
  pub user : Str

-- `DecodeWebData2`, over package json.
unfoldable pub decode_web_data2 :
    {A : Type 0} → (Str → Option (WebData2 A)) → WsMessage → Option (WebData2 A)
decode_web_data2 decode msg = decode msg.data_
