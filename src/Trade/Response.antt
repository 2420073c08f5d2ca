-- ===== src/Trade/Response.antt =====
-- The flattening of an /exchange response: the end of trade/trade.go, trade/modify_cancel.go and
-- trade/exchange_orders_cancel.go.
use hyperliquid_go.Base.{Option, none, some, [], ◌∷◌, ◌==◌, str_eq, if◌then◌else◌, map}
use hyperliquid_go.Base.Text.{Str, codes}
use hyperliquid_go.Base.Int.{pos}
use hyperliquid_go.Types.{OrderResult, BatchResult, BatchCancelResult}
use hyperliquid_go.Types.Mixed.{json_type}
use hyperliquid_go.Trade.Client.{ApiResponse, OrderStatus, RestingStatus, FilledStatus}

abbrev pub empty_result : OrderResult
empty_result = record {
  oid = pos 0;
  cloid = [];
  status = [];
  avg_px = [];
  total_sz = [];
  error = [];
}

abbrev pub empty_batch_cancel : BatchCancelResult
empty_batch_cancel = record { results = []; error = [] }

abbrev set_resting : Option RestingStatus → OrderResult → OrderResult
set_resting none r = r
set_resting (some s) r = record r { oid = s.oid; cloid = s.client_id; status = s.status }

abbrev set_filled : Option FilledStatus → OrderResult → OrderResult
set_filled none r = r
set_filled (some s) r = record r {
  oid = s.oid;
  avg_px = s.avg_px;
  total_sz = s.total_sz;
  status = codes "filled";
}

abbrev set_error : Option Str → OrderResult → OrderResult
set_error none r = r
set_error (some e) r = record r { error = e }

-- The three `if` statements over one decoded status, in their order.
unfoldable pub result_of_status : OrderStatus → OrderResult
result_of_status st =
    set_error st.error (set_filled st.filled (set_resting st.resting empty_result))

module _ (parse_status : Str → Option OrderStatus) where
  -- One raw status: an object is decoded, a string is kept as its raw bytes.
  unfoldable pub result_of_raw : Str → OrderResult
  result_of_raw raw =
      if json_type raw == codes "object"
      then elim (parse_status raw) [ none ↦ empty_result | some st ↦ result_of_status st ]
      else if json_type raw == codes "string"
      then record empty_result { status = raw }
      else empty_result

  -- `resultFromResponse`
  unfoldable pub result_from_response : Option ApiResponse → OrderResult
  result_from_response none = empty_result
  result_from_response (some resp) =
      if resp.is_ok
      then elim resp.statuses [ [] ↦ empty_result | first ∷ rest ↦ result_of_raw first ]
      else record empty_result { error = resp.error }

  -- `batchResultFromResponse`
  unfoldable pub batch_result_from_response : Option ApiResponse → BatchResult
  batch_result_from_response none = record { results = []; error = [] }
  batch_result_from_response (some resp) =
      if resp.is_ok
      then record { results = map result_of_raw resp.statuses; error = [] }
      else record { results = []; error = resp.error }

-- `cancelBatchFromResponse`
unfoldable pub cancel_batch_from_response : Option ApiResponse → BatchCancelResult
cancel_batch_from_response none = empty_batch_cancel
cancel_batch_from_response (some resp) =
    if resp.is_ok
    then record { results = map (λ s. record { status = s; error = [] }) resp.statuses; error = [] }
    else record { results = []; error = resp.error }
