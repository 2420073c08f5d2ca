-- ===== src/Trade/Account/Outcomes.antt =====
-- trade/outcome.go: minting and burning outcome shares, and the outcome of a canonical name.
use hyperliquid_go.Base.{ℕ, ◌/◌, Option, none, some, [], ◌∷◌, ◌==◌, str_eq, nat_eq, if◌then◌else◌}
use hyperliquid_go.Base.Text.{Str}
use hyperliquid_go.Base.Decimal.{parse_uint}
use hyperliquid_go.Float.{le, zero_f}
use hyperliquid_go.Wire.{format_usd_amount}
use hyperliquid_go.Trade.Client.{
  Env, Config, M, Action, ◌>>=◌, return, throw, bad_amount, split_outcome, merge_outcome,
  merge_question, negate_outcome,
}
use hyperliquid_go.Trade.Account.Toolkit.{Toolkit, TransferResponse, l1_call}
use hyperliquid_go.Trade.Account.Settings.{is_refused}

-- The two results of `submit` when the venue answered: the response, and the reason of a refusal.
pub record Submission : Type 0 where
  pub result : TransferResponse
  pub refusal : Option Str

module _ (env : Env) (kit : Toolkit env.fl.F env.World) (cfg : Config) where
  open env use {World, fl}
  open fl use {F}
  open kit use {decode_transfer, decode_reason}

  -- The end of `submit`.
  unfoldable pub submission_of : TransferResponse → Submission
  submission_of r =
      let reason = decode_reason r.response in
      record {
        result = r;
        refusal =
            if is_refused r.status then some (if reason == [] then r.status else reason) else none;
      }

  -- `submit`
  unfoldable pub submit_outcome : Action → M World Submission
  submit_outcome action = do
    r ← l1_call env kit cfg cfg.vault action decode_transfer
    return (submission_of r)

  -- `Split`
  unfoldable pub split_shares : ℕ → F → M World Submission
  split_shares outcome amount =
      if le fl amount (zero_f fl)
      then throw bad_amount
      else submit_outcome (split_outcome outcome (format_usd_amount fl amount))

  -- `Merge`
  unfoldable pub merge_shares : ℕ → Option F → M World Submission
  merge_shares outcome none = submit_outcome (merge_outcome outcome none)
  merge_shares outcome (some amount) =
      if le fl amount (zero_f fl)
      then throw bad_amount
      else submit_outcome (merge_outcome outcome (some (format_usd_amount fl amount)))

  -- `MergeQuestion`
  unfoldable pub merge_all : ℕ → Option F → M World Submission
  merge_all question none = submit_outcome (merge_question question none)
  merge_all question (some amount) =
      if le fl amount (zero_f fl)
      then throw bad_amount
      else submit_outcome (merge_question question (some (format_usd_amount fl amount)))

  -- `Negate`
  unfoldable pub negate_shares : ℕ → ℕ → F → M World Submission
  negate_shares question outcome amount =
      if le fl amount (zero_f fl)
      then throw bad_amount
      else submit_outcome (negate_outcome question outcome (format_usd_amount fl amount))

-- `outcomeIDFromCanonical`
unfoldable pub outcome_id_from_canonical : Str → Option ℕ
outcome_id_from_canonical [] = none
outcome_id_from_canonical (c ∷ []) = none
outcome_id_from_canonical (c ∷ d ∷ rest) =
    if c == b'#'
    then elim (parse_uint (d ∷ rest)) [ none ↦ none | some enc ↦ some (enc / 10) ]
    else none
