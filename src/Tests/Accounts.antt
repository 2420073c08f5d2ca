-- ===== src/Tests/Accounts.antt =====
-- Concrete runs of the account actions and of signing.
use hyperliquid_go.Trade.Signed.{execute_action-Verifies, Verifies, sign_l1_with}
use hyperliquid_go.Base.{
  length, ℕ, suc, true, none, some, [], ◌∷◌, ◌++◌, ◌≡◌, refl, ◌⊎◌, inl, inr, str_beq, arith, Any,
  ◌+◌, ◌*◌,
}
use hyperliquid_go.Base.Text.{Str, codes, take}
use hyperliquid_go.Base.Int.{ℤ, pos, magnitude}
use hyperliquid_go.Signing.{Crypto, sign_user_signed, hash_struct_lenient}
use hyperliquid_go.Signing.Values.{Fields, map_of, text, int, get_field}
use hyperliquid_go.Signing.Schemas.{usd_send_schema, withdraw_schema}
use hyperliquid_go.Signing.Preimage.{preimage, address_to_bytes, trim_0x, expires_part}
use hyperliquid_go.Signing.Proofs.Binding.{preimage-injective, vault_bytes}
use hyperliquid_go.Signing.Proofs.Declared.{sign_user_signed-Agree, hash_struct_lenient-missing}
use hyperliquid_go.Types.{buy}
use hyperliquid_go.Wire.{format_usd_amount}
use hyperliquid_go.Trade.Client.{
  Envelope, execute_action, is_user_signed, action_type_of, Env, Config, Action, vault_transfer,
  create_sub_account, sub_account_transfer, set_referrer, evm_user_modify, split_outcome,
  merge_outcome, merge_question, negate_outcome,
}
use hyperliquid_go.Trade.Market.{place_market}
use hyperliquid_go.Trade.Account.Toolkit.{Toolkit, SpotUniverse}
use hyperliquid_go.Trade.Account.Transfers.{
  transfer_to_vault, send_usd, send_spot, usd_class_transfer, send_asset, withdraw, token_delegate,
}
use hyperliquid_go.Trade.Account.SubAccounts.{create, transfer}
use hyperliquid_go.Trade.Account.Settings.{
  set_referrer_code, use_big_blocks, approve_agent, approve_builder_fee, convert_to_multi_sig,
}
use hyperliquid_go.Trade.Account.Outcomes.{
  split_shares, merge_shares, merge_all, negate_shares, outcome_id_from_canonical,
}
use hyperliquid_go.Trade.Account.Convert.{
  find_pair, token_index, pair_of, starts_with, convert_spot, convert_spot_size,
}
use hyperliquid_go.Trade.Account.Proofs.Vaults.{mismatched, vault_free-mismatched}
use hyperliquid_go.Trade.Account.Proofs.Calls.{NullVault}
use hyperliquid_go.Trade.Account.Proofs.NullVault.{user_signed-NullVault}
use hyperliquid_go.Trade.Account.Proofs.Shares.{Guarded, Once, shares-Guarded}
use hyperliquid_go.Trade.Account.Proofs.Pairs.{HasIndex, Trades, find_pair-Trades}
use hyperliquid_go.Trade.Account.Proofs.Conversions.{
  ConvertsBy, QuoteConverted, BaseConverted, conversions-ConvertsBy,
}
use hyperliquid_go.Trade.Spec.{apply_opts}
use hyperliquid_go.Trade.Account.Proofs.Ids.{outcome_id_from_canonical-canonical}
use hyperliquid_go.Info.Outcome.{canonical}
use hyperliquid_go.Tests.Floats.{tenths}
use hyperliquid_go.Tests.World.{venue, client, start}

abbrev crypto : Crypto
crypto = record {
  hash_struct = λ primary schema m. some primary;
  user_domain = some (codes "domain");
  l1_domain = codes "exchange";
  keccak = λ s. s;
  sign_digest = λ s. some s;
  hex = λ s. s;
  decode_hex = λ s. s;
  numbers = record {
    fl = tenths;
    float_of_bits = λ n. pos n;
    to_uint64 = λ x. magnitude x;
    parse_big = λ s. none;
  };
}

abbrev universe : SpotUniverse
universe = record {
  tokens =
      record { name = codes "USDC"; index = pos 0 }
      ∷ record { name = codes "USDH"; index = pos 4 }
      ∷ [];
  pairs = record { name = codes "@7"; tokens = pos 4 ∷ pos 0 ∷ [] } ∷ [];
}

abbrev kit : Toolkit ℤ ℕ
kit = record {
  crypto = crypto;
  signature_json = λ s. codes "{}";
  float_bits = magnitude;
  to_lower = λ s. s;
  equal_fold = str_beq;
  sort_strings = λ xs. xs;
  marshal_signers = λ xs n. some (codes "{}");
  fresh_agent = λ w. (suc w, some (codes "0xa", codes "key"));
  spot_meta = λ w. (suc w, some universe);
  decode_transfer =
      λ b. some (record { status = codes "ok"; tx_hash = []; error = []; response = [] });
  decode_status = λ b. some (record { status = codes "ok"; tx_hash = []; error = [] });
  decode_perp_deploy = λ b. none;
  decode_brief = λ b. some (record { status = codes "ok"; error = [] });
  decode_sub_account = λ b. some (record { status = codes "ok"; account = none; error = [] });
  decode_user_state = λ b. none;
  decode_default = λ b. none;
  decode_reason = λ b. [];
}

-- A client that trades for a vault.
abbrev vault_client : Config
vault_client = record client { vault = codes "0xfeed" }

abbrev sign : Action → ℕ → Str
sign a nonce = codes "sig"

vault_free-mismatched_example :
    ((transfer_to_vault venue kit vault_client (codes "0xv") true (pos 5) start).0.posted
      ≡ []
        ++ (mismatched venue kit vault_client sign (vault_transfer (codes "0xv") true (pos 5)) start
            ∷ []))
    × ((create venue kit vault_client (codes "sub") start).0.posted
        ≡ []
          ++ (mismatched venue kit vault_client sign (create_sub_account (codes "sub")) start ∷ []))
    × ((transfer venue kit vault_client (codes "0xv") true (pos 5) start).0.posted
        ≡ []
          ++ (mismatched venue kit vault_client sign
                (sub_account_transfer (codes "0xv") true (pos 5))
                start
              ∷ []))
    × ((set_referrer_code venue kit vault_client (codes "ref") start).0.posted
        ≡ [] ++ (mismatched venue kit vault_client sign (set_referrer (codes "ref")) start ∷ []))
    × ((use_big_blocks venue kit vault_client true start).0.posted
        ≡ [] ++ (mismatched venue kit vault_client sign (evm_user_modify true) start ∷ []))
vault_free-mismatched_example =
    vault_free-mismatched venue kit vault_client sign start (codes "0xv") (codes "sub")
      (codes "ref") true true (pos 5) (λ h. cc) (λ a nonce. refl)

abbrev vault20 : Str
vault20 = codes "12345678901234567890"

preimage-injective_example :
    (pos 7 ≡ pos 7)
    × (vault_bytes (λ s. s) vault20 ≡ vault_bytes (λ s. s) vault20)
    × (some (pos 9) ≡ some (pos 9))
unfolding preimage address_to_bytes trim_0x str_beq take expires_part
preimage-injective_example =
    preimage-injective (λ s. s) (codes "action") vault20 vault20 _ (pos 7) (pos 7) (some (pos 9))
      (some (pos 9)) (inr refl) (inr refl) (omega arith) (omega arith) (omega arith) (omega arith)
      refl refl

abbrev payment : Fields
payment = map_of (
    (codes "type", text (codes "usdSend"))
    ∷ (codes "destination", text (codes "0xd"))
    ∷ (codes "amount", text (codes "1.0"))
    ∷ (codes "time", int (pos 7))
    ∷ [])

-- The same payment under another type.
abbrev disguised : Fields
disguised = map_of (
    (codes "type", text (codes "other"))
    ∷ (codes "destination", text (codes "0xd"))
    ∷ (codes "amount", text (codes "1.0"))
    ∷ (codes "time", int (pos 7))
    ∷ [])

sign_user_signed-Agree_example :
    (sign_user_signed crypto payment usd_send_schema (codes "UsdSend") true).1
    ≡ (sign_user_signed crypto disguised usd_send_schema (codes "UsdSend") true).1
unfolding get_field str_beq
sign_user_signed-Agree_example =
    sign_user_signed-Agree crypto payment disguised usd_send_schema (codes "UsdSend") true
      (refl, (refl, (refl, (refl, tt))))

hash_struct_lenient-missing_example :
    hash_struct_lenient crypto withdraw_schema (codes "Withdraw") payment ≡ none
unfolding get_field str_beq
hash_struct_lenient-missing_example =
    hash_struct_lenient-missing crypto withdraw_schema (codes "Withdraw") payment (inl refl)

find_pair-Trades_example :
    (b : ℤ) × (q : ℤ) × Any (HasIndex str_beq (codes "USDH") b) universe.tokens
    × Any (HasIndex str_beq (codes "USDC") q) universe.tokens
    × Any (Trades b q (codes "@7")) universe.pairs
unfolding find_pair token_index pair_of starts_with str_beq
find_pair-Trades_example =
    find_pair-Trades str_beq (codes "USDH") (codes "USDC") (codes "@7") universe refl

outcome_id_from_canonical-canonical_example :
    outcome_id_from_canonical (canonical (10 * 12 + 1)) ≡ some 12
outcome_id_from_canonical-canonical_example =
    outcome_id_from_canonical-canonical 12 1 (omega arith) (omega arith)

-- The venue with mid prices.
abbrev priced_venue : Env
priced_venue = record venue {
  all_mids = λ w d. (suc w, some ((codes "BTC", codes "100.0") ∷ (codes "@7", codes "2.0") ∷ []));
}

-- The order is posted.
market_posted :
    length (place_market priced_venue client (codes "BTC") buy (pos 10) [] start).0.posted ≡ 1
unfolding place_market hyperliquid_go.Trade.Market.slippage_price
    hyperliquid_go.Trade.Market.mid_price hyperliquid_go.Trade.Market.slippage_adjust
    hyperliquid_go.Trade.Market.slippage_or_default hyperliquid_go.Trade.Market.dex_prefix
    hyperliquid_go.Trade.Market.clamp_outcome hyperliquid_go.Base.Text.index_of
    hyperliquid_go.Base.Text.take hyperliquid_go.Trade.Action.format_price_to_tick_size
    hyperliquid_go.Trade.Action.validate_and_adjust_price
    hyperliquid_go.Trade.Action.round_to_tick_size hyperliquid_go.Trade.Action.get_asset_tick_size
    hyperliquid_go.Wire.round_to_decimals hyperliquid_go.Trade.Spec.with_slippage
    hyperliquid_go.Trade.Place.place hyperliquid_go.Trade.Place.validate
    hyperliquid_go.Trade.Spec.market hyperliquid_go.Trade.Validate.validate_option_compatibility
    hyperliquid_go.Base.str_beq hyperliquid_go.Trade.Place.validate_placement
    hyperliquid_go.Trade.Validate.validate_static hyperliquid_go.Trade.Validate.known_coin
    hyperliquid_go.Info.asset_id hyperliquid_go.Base.Dict.lookup
    hyperliquid_go.Trade.Validate.validate_size hyperliquid_go.Info.asset
    hyperliquid_go.Info.divide_by_ten hyperliquid_go.Info.sz_decimals
    hyperliquid_go.Trade.Validate.is_multiple_of hyperliquid_go.Trade.Action.new_create_order_action
    hyperliquid_go.Trade.Action.order_wire hyperliquid_go.Trade.Action.order_wires
    hyperliquid_go.Trade.Action.price_to_wire hyperliquid_go.Trade.Action.order_type_wire
    hyperliquid_go.Trade.Client.effective_addr hyperliquid_go.Trade.Client.execute_action
    hyperliquid_go.Trade.Client.post_action hyperliquid_go.Trade.Client.refresh_state
    hyperliquid_go.Trade.Client.sign_and_post hyperliquid_go.Trade.Place.requests_of
    hyperliquid_go.Trade.Place.submit hyperliquid_go.Trade.Place.validate_cached
    hyperliquid_go.Trade.Requests.bracket_orders hyperliquid_go.Trade.Requests.bracket_grouping
    hyperliquid_go.Trade.Requests.spec_to_requests hyperliquid_go.Trade.Requests.parent_request
    hyperliquid_go.Trade.Requests.parent_order_type apply_opts
    hyperliquid_go.Trade.Validate.is_first_asset hyperliquid_go.Trade.Validate.position_for
    hyperliquid_go.Trade.Validate.position_rules hyperliquid_go.Trade.Validate.validate_bracket
    hyperliquid_go.Trade.Validate.validate_position_state
    hyperliquid_go.Trade.Validate.validate_price
    hyperliquid_go.Trade.Validate.validate_significant_figures
    hyperliquid_go.Trade.Validate.reduce_rules hyperliquid_go.Types.Asset.classify_asset
    hyperliquid_go.Types.Asset.is_outcome hyperliquid_go.Types.is_buy
    hyperliquid_go.Wire.price_to_wire_decimals hyperliquid_go.Wire.round_to_significant_figures
market_posted = refl

-- A client that knows the pair of the two tokens.
abbrev spot_client : Config
spot_client = record client {
  tables = record {
    coin_to_asset = (codes "@7", 10007) ∷ [];
    name_to_coin = (codes "@7", codes "@7") ∷ [];
    asset_to_decimal = (10007, 1) ∷ [];
  };
}

conversions-ConvertsBy_example :
    let base = codes "USDH" in
    let quote = codes "USDC" in
    ConvertsBy priced_venue kit spot_client
      (QuoteConverted priced_venue kit spot_client base quote buy (pos 50))
      (pos 50)
      start
      (convert_spot priced_venue kit spot_client base quote buy (pos 50) start)
    × ConvertsBy priced_venue kit spot_client
        (BaseConverted priced_venue kit spot_client base quote buy (pos 50))
        (pos 50)
        start
        (convert_spot_size priced_venue kit spot_client base quote buy (pos 50) start)
conversions-ConvertsBy_example =
    conversions-ConvertsBy priced_venue kit spot_client (codes "USDH") (codes "USDC") buy (pos 50)
      start

-- The order of a conversion is posted.
converted_posted :
    length
      (convert_spot priced_venue kit spot_client
        (codes "USDH")
        (codes "USDC")
        buy
        (pos 50)
        start).0.posted
    ≡ 1
unfolding place_market hyperliquid_go.Trade.Market.slippage_price
    hyperliquid_go.Trade.Market.mid_price hyperliquid_go.Trade.Market.slippage_adjust
    hyperliquid_go.Trade.Market.slippage_or_default hyperliquid_go.Trade.Market.dex_prefix
    hyperliquid_go.Trade.Market.clamp_outcome hyperliquid_go.Base.Text.index_of
    hyperliquid_go.Base.Text.take hyperliquid_go.Trade.Action.format_price_to_tick_size
    hyperliquid_go.Trade.Action.validate_and_adjust_price
    hyperliquid_go.Trade.Action.round_to_tick_size hyperliquid_go.Trade.Action.get_asset_tick_size
    hyperliquid_go.Wire.round_to_decimals hyperliquid_go.Trade.Spec.with_slippage
    hyperliquid_go.Trade.Place.place hyperliquid_go.Trade.Place.validate
    hyperliquid_go.Trade.Spec.market hyperliquid_go.Trade.Validate.validate_option_compatibility
    hyperliquid_go.Base.str_beq hyperliquid_go.Trade.Place.validate_placement
    hyperliquid_go.Trade.Validate.validate_static hyperliquid_go.Trade.Validate.known_coin
    hyperliquid_go.Info.asset_id hyperliquid_go.Base.Dict.lookup
    hyperliquid_go.Trade.Validate.validate_size hyperliquid_go.Info.asset
    hyperliquid_go.Info.divide_by_ten hyperliquid_go.Info.sz_decimals
    hyperliquid_go.Trade.Validate.is_multiple_of hyperliquid_go.Trade.Action.new_create_order_action
    hyperliquid_go.Trade.Action.order_wire hyperliquid_go.Trade.Action.order_wires
    hyperliquid_go.Trade.Action.price_to_wire hyperliquid_go.Trade.Action.order_type_wire
    hyperliquid_go.Trade.Client.effective_addr hyperliquid_go.Trade.Client.execute_action
    hyperliquid_go.Trade.Client.post_action hyperliquid_go.Trade.Client.refresh_state
    hyperliquid_go.Trade.Client.sign_and_post hyperliquid_go.Trade.Place.requests_of
    hyperliquid_go.Trade.Place.submit hyperliquid_go.Trade.Place.validate_cached
    hyperliquid_go.Trade.Requests.bracket_orders hyperliquid_go.Trade.Requests.bracket_grouping
    hyperliquid_go.Trade.Requests.spec_to_requests hyperliquid_go.Trade.Requests.parent_request
    hyperliquid_go.Trade.Requests.parent_order_type apply_opts
    hyperliquid_go.Trade.Validate.is_first_asset hyperliquid_go.Trade.Validate.position_for
    hyperliquid_go.Trade.Validate.position_rules hyperliquid_go.Trade.Validate.validate_bracket
    hyperliquid_go.Trade.Validate.validate_position_state
    hyperliquid_go.Trade.Validate.validate_price
    hyperliquid_go.Trade.Validate.validate_significant_figures
    hyperliquid_go.Trade.Validate.reduce_rules hyperliquid_go.Types.Asset.classify_asset
    hyperliquid_go.Types.Asset.is_outcome hyperliquid_go.Types.is_buy
    hyperliquid_go.Wire.price_to_wire_decimals hyperliquid_go.Wire.round_to_significant_figures
    convert_spot hyperliquid_go.Trade.Account.Convert.convert_at
    hyperliquid_go.Trade.Account.Convert.place_snapped
    hyperliquid_go.Trade.Account.Convert.snap_spot_size
    hyperliquid_go.Trade.Account.Convert.find_spot_pair find_pair token_index pair_of starts_with
converted_posted = refl

shares-Guarded_example :
    let x = format_usd_amount tenths (pos 20) in
    Guarded venue kit client
      (pos 20)
      (split_outcome 4 x)
      (split_shares venue kit client 4 (pos 20))
      start
    × Guarded venue kit client
        (pos 20)
        (merge_outcome 4 (some x))
        (merge_shares venue kit client 4 (some (pos 20)))
        start
    × Guarded venue kit client
        (pos 20)
        (merge_question 2 (some x))
        (merge_all venue kit client 2 (some (pos 20)))
        start
    × Guarded venue kit client
        (pos 20)
        (negate_outcome 2 4 x)
        (negate_shares venue kit client 2 4 (pos 20))
        start
    × Once venue kit client
        (merge_outcome 4 none)
        start
        (merge_shares venue kit client 4 none start).0
    × Once venue kit client
        (merge_question 2 none)
        start
        (merge_all venue kit client 2 none start).0
shares-Guarded_example = shares-Guarded venue kit client 2 4 (pos 20) start

user_signed-NullVault_example :
    NullVault venue kit client
      (codes "usdSend")
      start
      (send_usd venue kit client (codes "0xd") (pos 20) start).0
    × NullVault venue kit client
        (codes "spotSend")
        start
        (send_spot venue kit client (codes "0xd") (codes "USDC") (pos 20) start).0
    × NullVault venue kit client
        (codes "usdClassTransfer")
        start
        (usd_class_transfer venue kit client (pos 20) true start).0
    × NullVault venue kit client
        (codes "sendAsset")
        start
        (send_asset venue kit client (codes "0xd") (codes "USDC") (codes "t") (pos 20) start).0
    × NullVault venue kit client
        (codes "withdraw3")
        start
        (withdraw venue kit client (pos 20) (codes "0xd") start).0
    × NullVault venue kit client
        (codes "tokenDelegate")
        start
        (token_delegate venue kit client (codes "0xd") (pos 3) true start).0
    × NullVault venue kit client
        (codes "approveAgent")
        start
        (approve_agent venue kit client (codes "0xd") start).0
    × NullVault venue kit client
        (codes "approveBuilderFee")
        start
        (approve_builder_fee venue kit client (codes "0xd") (codes "USDC") start).0
    × NullVault venue kit client
        (codes "convertToMultiSigUser")
        start
        (convert_to_multi_sig venue kit client [] (pos 3) start).0
user_signed-NullVault_example =
    user_signed-NullVault venue kit client start (codes "0xd") (codes "USDC") (codes "t") (pos 20)
      true (pos 3) []

-- The venue with the signer of package signing, and a client with an expiry.
abbrev signing_venue : Env
signing_venue = record venue {
  sign_l1 = sign_l1_with crypto (λ a. some (codes "action")) (λ sig. codes "sig");
}

abbrev hurried : Config
hurried = record client { expires_after = some (pos 9) }

execute_action-Verifies_example :
    let s' = (execute_action signing_venue hurried (create_sub_account (codes "s")) start).0 in
    (s'.posted ≡ start.posted)
    ⊎ ((e : Envelope) × (s'.posted ≡ start.posted ++ (e ∷ []))
        × (e.action ≡ create_sub_account (codes "s"))
        × Verifies crypto (λ a. some (codes "action")) (λ sig. codes "sig") signing_venue hurried e)
unfolding action_type_of is_user_signed str_beq
execute_action-Verifies_example =
    execute_action-Verifies crypto (λ a. some (codes "action")) (λ sig. codes "sig") signing_venue
      hurried (create_sub_account (codes "s")) start (λ b v n d m. refl) refl
