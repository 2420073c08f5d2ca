-- ===== src/Trade/Validate.antt =====
-- trade/validate.go: the pre-flight check of a spec.
pub mod Bracket
pub mod Exits
use hyperliquid_go.Base.{
  ℕ, Bool, true, false, not, ◌&&◌, ◌||◌, Option, none, some, List, [], ◌∷◌, ◌==◌, str_eq, nat_eq,
  if◌then◌else◌, Result, ok, err, fail_if,
}
use hyperliquid_go.Base
use hyperliquid_go.Base.Dict.{Dict}
use hyperliquid_go.Base.Text.{Str, codes}
use hyperliquid_go.Base.Int.{ℤ, pos, ltb_ℤ}
use hyperliquid_go.Float.{Float, zero_f, is_pos, le}
use hyperliquid_go.Types.{OrderSpec, is_buy}
use hyperliquid_go.Info.{Tables, asset_id, asset}
use hyperliquid_go.Info
use hyperliquid_go.Trade.Client.{
  Position, UserState, Code, coin_required, unknown_coin, size_below_min, size_step_violation,
  price_non_positive, significant_figures, unsupported_option, modify_target_required,
  modify_no_change, tp_wrong_side_buy, sl_wrong_side_buy, tp_wrong_side_sell, sl_wrong_side_sell,
  bracket_size_exceeds_entry, wrong_side_for_reduce, no_position, close_size_exceeds_position,
}

-- A check: no value, or the code of its failure.
abbrev pub Check : Type 0
Check = Result Code (Unit {0})

-- The checks in order, up to the first that fails.
infixr 5 ◌and_then◌
abbrev pub ◌and_then◌ : Check → Check → Check
ok _ and_then k = k
err c and_then k = err c

module _ (fl : Float) where
  open fl use {F, lit, lt, eq, neg, sub, mul, div, round, ceil, log10, pow, abs, parse_float}

  abbrev pub is_method : OrderSpec F → Str → Bool
  is_method spec m = spec.method == m

  -- `x != 0`
  abbrev is_set : F → Bool
  is_set x = not (eq x (zero_f fl))

  unfoldable pub validate_option_compatibility : OrderSpec F → Check
  validate_option_compatibility spec =
      fail_if
        (is_set spec.slippage
          && (not (is_method spec (codes "market")) && not (is_method spec (codes "close"))))
        unsupported_option
      and_then fail_if
          (is_set spec.override_size
            && (not (is_method spec (codes "close")) && not (is_method spec (codes "modify"))))
          unsupported_option
      and_then fail_if
          (is_set spec.limit_price
            && (not (is_method spec (codes "close")) && not (is_method spec (codes "modify"))))
          unsupported_option

  -- `ModifyOID == 0`
  abbrev pub is_zero_ℤ : ℤ → Bool
  is_zero_ℤ i = not (ltb_ℤ i (pos 0)) && not (ltb_ℤ (pos 0) i)

  unfoldable pub validate_modify : OrderSpec F → Check
  validate_modify spec =
      fail_if (is_zero_ℤ spec.modify_oid && (spec.modify_cloid == [])) modify_target_required
      and_then fail_if (le fl spec.limit_price (zero_f fl) && le fl spec.override_size (zero_f fl))
          modify_no_change

  unfoldable pub validate_significant_figures : F → Check
  validate_significant_figures px =
      let digits = ceil (log10 (abs px)) in
      let scale = pow (lit 10 0) (sub (lit 5 0) digits) in
      let rounded = div (round (mul px scale)) scale in
      fail_if (is_set px && lt (mul (abs px) (lit 1 9)) (abs (sub rounded px))) significant_figures

  -- The side rules for one direction.
  unfoldable pub bracket_sides : OrderSpec F → Check
  bracket_sides spec =
      let entry = spec.price in
      if is_buy spec.side
      then fail_if (is_pos fl spec.take_profit && le fl spec.take_profit entry) tp_wrong_side_buy
        and_then fail_if (is_pos fl spec.stop_loss && le fl entry spec.stop_loss) sl_wrong_side_buy
      else fail_if (is_pos fl spec.take_profit && le fl entry spec.take_profit) tp_wrong_side_sell
        and_then fail_if (is_pos fl spec.stop_loss && le fl spec.stop_loss entry) sl_wrong_side_sell

  unfoldable pub bracket_sizes : OrderSpec F → Check
  bracket_sizes spec =
      fail_if (is_pos fl spec.tp_size && (is_pos fl spec.size && lt spec.size spec.tp_size))
        bracket_size_exceeds_entry
      and_then fail_if
          (is_pos fl spec.sl_size && (is_pos fl spec.size && lt spec.size spec.sl_size))
          bracket_size_exceeds_entry

  unfoldable pub validate_bracket : OrderSpec F → Check
  validate_bracket spec =
      if eq spec.take_profit (zero_f fl) && eq spec.stop_loss (zero_f fl)
      then ok tt
      else if eq spec.price (zero_f fl)
      then ok tt
      else bracket_sides spec and_then bracket_sizes spec

  unfoldable pub is_multiple_of : F → F → Bool
  is_multiple_of x step =
      let q = div x step in le fl step (zero_f fl) || lt (abs (sub q (round q))) (lit 1 9)

  -- `isFirstAsset`: some entry of the map has this name and the id 0.
  unfoldable pub is_first_asset : Dict Str ℕ → Str → Bool
  is_first_asset [] coin = false
  is_first_asset ((c, id) ∷ m) coin = (id == 0 && c == coin) || is_first_asset m coin

  unfoldable pub known_coin : Tables → Str → Check
  known_coin t coin =
      fail_if (asset_id t coin == 0 && not (is_first_asset t.coin_to_asset coin)) unknown_coin

  -- The checks on the size and its step.
  unfoldable pub validate_size : Tables → OrderSpec F → Check
  validate_size t spec =
      let min = (asset fl t spec.coin).min_size in
      fail_if (le fl spec.size (zero_f fl) && not (is_method spec (codes "close"))) size_below_min
      and_then fail_if (is_pos fl spec.size && (is_pos fl min && lt spec.size min)) size_below_min
      and_then fail_if
          (is_pos fl spec.size && (is_pos fl min && not (is_multiple_of spec.size min)))
          size_step_violation

  unfoldable pub validate_price : OrderSpec F → Check
  validate_price spec =
      let needs_price =
        is_method spec (codes "alo")
        || (is_method spec (codes "ioc") || is_method spec (codes "gtc")) in
      fail_if (needs_price && le fl spec.price (zero_f fl)) price_non_positive
      and_then (if is_pos fl spec.price then validate_significant_figures spec.price else ok tt)

  -- `validate` from the coin to the bracket, the part that needs no user state.
  unfoldable pub validate_static : Tables → OrderSpec F → Check
  validate_static t spec =
      fail_if (spec.coin == []) coin_required
      and_then known_coin t spec.coin
      and_then validate_size t spec
      and_then validate_price spec
      and_then validate_bracket spec

  -- `positionFor`: the first position in the coin, with its size; a size that does not parse counts
  -- as the value that ParseFloat returns beside its error.
  unfoldable pub position_for : List Position → Str → Option F
  position_for [] coin = none
  position_for (p ∷ ps) coin =
      if p.coin == coin then some (parse_float p.szi).0 else position_for ps coin

  -- The reduce-only rules at an open position of signed size `szi`.
  unfoldable pub reduce_rules : OrderSpec F → F → Check
  reduce_rules spec szi =
      fail_if (spec.reduce_only && (is_buy spec.side && is_pos fl szi)) wrong_side_for_reduce
      and_then fail_if (spec.reduce_only && (not (is_buy spec.side) && lt szi (zero_f fl)))
          wrong_side_for_reduce

  unfoldable pub close_rules : OrderSpec F → F → Check
  close_rules spec szi =
      fail_if (eq szi (zero_f fl)) no_position
      and_then fail_if (is_pos fl spec.override_size && lt (abs szi) spec.override_size)
          close_size_exceeds_position

  unfoldable pub position_rules : OrderSpec F → Option F → Check
  position_rules spec none = fail_if (is_method spec (codes "close")) no_position
  position_rules spec (some szi) =
      reduce_rules spec szi
      and_then (if is_method spec (codes "close") then close_rules spec szi else ok tt)

  -- `validatePositionState`; no state in the cache skips the rules.
  unfoldable pub validate_position_state : OrderSpec F → Option UserState → Check
  validate_position_state spec none = ok tt
  validate_position_state spec (some u) = position_rules spec (position_for u.positions spec.coin)
