-- ===== src/Tests/Clients.antt =====
-- Concrete runs of the HTTP queries, of the reconnect timer and of the facade.
use hyperliquid_go.Info.Outcome.{canonical}
use hyperliquid_go.Base.{
  subst, inr, ◌≢◌, inl, Any, ℕ, suc, ◌+◌, true, false, none, some, List, [], ◌∷◌, ◌≡◌, ◌↔◌, refl,
  arith, str_beq,
}
use hyperliquid_go.Base.Text.{Str, codes, index_of, take}
use hyperliquid_go.Base.Dict.{lookup}
use hyperliquid_go.Base.Int.{ℤ, pos}
use hyperliquid_go.Types.Asset.{classify_asset}
use hyperliquid_go.Info.{asset_id, sz_decimals}
use hyperliquid_go.Info.Registry.{friendly, new_client, or_panic, given_or, perp_base}
use hyperliquid_go.Info.Proofs.Classes.{new_client-sz_decimals, perp_class}
use hyperliquid_go.Info.Queries.Json.{Json}
use hyperliquid_go.Info.Queries.Metadata.{
  panicked, parse_meta_response, table_of_row, tables_of_rows, margin_tables_of, collateral_of,
}
use hyperliquid_go.Info.Queries.Market.{coin_dex}
use hyperliquid_go.Info.Proofs.Panics.{BadMeta, parse_meta_response-panicked}
use hyperliquid_go.Http.{Http, Transport, new_transport, base_or_mainnet, testnet_api_url}
use hyperliquid_go.Stream.State.{Net, Stream}
use hyperliquid_go.Stream.Setup.{Urls, fresh_stream, ws_url, new_stream}
use hyperliquid_go.Stream.Reconnect.{run_timer}
use hyperliquid_go.Stream.Proofs.GivingUp.{HasStopped, run_timer-HasStopped}
use hyperliquid_go.Facade.{
  Host, FacadeClient, ClientOption, with_private_key, with_testnet, apply_options,
  default_client_config, new, info_handle, stream_handle, trade_handle, configured,
}
use hyperliquid_go.Facade.Proofs.{Fits, chosen, new-Fits}
use hyperliquid_go.Tests.Floats.{tenths}
use hyperliquid_go.Tests.Questions.{answers, registered}

-- Servers that answer every request with an empty object. HTTP clients are numbers.
abbrev web : Http
web = record {
  World = ℕ;
  HttpClient = ℕ;
  default_client = 0;
  marshal = λ fields. some (codes "{}");
  is_url = λ url. true;
  send = λ client w url body. (suc w, some (200, some (codes "{}")));
}

abbrev mainnet : Transport web
mainnet = new_transport web [] none

-- A decoder that finds one margin table in every answer, whose id is no number.
abbrev lenient : Json ℤ
lenient = record {
  Any = ℕ;
  nil = 0;
  raw_array = λ s. some [];
  raw_object = λ s. some ((codes "marginTables", codes "[[null,{}]]") ∷ []);
  int = λ s. some (pos 0);
  text = λ s. some [];
  texts = λ s. some [];
  rows = λ s. some ((0 ∷ 1 ∷ []) ∷ []);
  pair = λ s. some (0, 0);
  fields = λ s. some [];
  marshal = λ v. some [];
  as_float = λ v. none;
  as_text = λ v. none;
  user_state = λ s. none;
  user_fees = λ s. none;
  sub_accounts = λ s. none;
  signers = λ s. none;
  spot_state = λ f s. none;
  open_orders = λ s. none;
  frontend_orders = λ s. none;
  fills = λ s. none;
  order_status = λ s. none;
  referral = λ s. none;
  book = λ s. none;
  candles = λ s. none;
  funding = λ s. none;
  user_funding = λ s. none;
  universe = λ s. some [];
  margin_tiers = λ s. some [];
  margin_body = λ s. none;
  meta = λ f s. none;
  asset_ctxs = λ s. none;
  spot_meta = λ s. none;
  outcome_meta = λ s. none;
  staking_summary = λ s. none;
  delegations = λ s. none;
  rewards = λ s. none;
}

parse_meta_response-panicked_example :
    (parse_meta_response tenths web lenient mainnet (codes "{}") ≡ panicked)
    ↔ BadMeta tenths web lenient mainnet (codes "{}")
parse_meta_response-panicked_example =
    parse_meta_response-panicked tenths web lenient mainnet (codes "{}")

-- The answer of `lenient` panics.
parse_meta_response-null : parse_meta_response tenths web lenient mainnet (codes "{}") ≡ panicked
unfolding parse_meta_response collateral_of margin_tables_of tables_of_rows table_of_row lookup
    str_beq
parse_meta_response-null = refl

-- The dex of a builder's coin, of a coin of the default dex and of a coin that starts with a colon.
coin_dex_builder : coin_dex (codes "flx:TSLA") ≡ codes "flx" ∷ []
unfolding coin_dex index_of take
coin_dex_builder = refl

coin_dex_default : (coin_dex (codes "BTC") ≡ []) × (coin_dex (codes ":BTC") ≡ [])
unfolding coin_dex index_of take
coin_dex_default = (refl, refl)

-- A text that a side ends after a colon has a colon.
friendly-colon : (p side : Str) → Any (λ c. c ≡ b':') (friendly p side)
unfolding friendly
friendly-colon [] side = inl refl
friendly-colon (c ∷ p) side = inr (friendly-colon p side)

btc_colon : Any (λ c. c ≡ b':') (codes "BTC") → ⊥
btc_colon h = ground (arith, h)

friendly-btc : (side p : Str) → friendly p side ≢ codes "BTC"
friendly-btc side p e = btc_colon (subst (Any (λ c. c ≡ b':')) e (friendly-colon p side))

canonical-btc : (e : ℕ) → canonical e ≢ codes "BTC"
unfolding canonical
canonical-btc e h = let k : ◌≡◌ {A = ℕ} b'#' b'B' = cc in absurd (omega (arith, k))

new_client-sz_decimals_example :
    (asset_id registered.tables (codes "BTC") ≡ 0 + 0)
    × (classify_asset (0 + 0) ≡ perp_class [])
    × (sz_decimals registered.tables (0 + 0) ≡ 5)
unfolding new_client or_panic given_or perp_base str_beq
new_client-sz_decimals_example =
    new_client-sz_decimals answers none none none [] registered
      (record { name = codes "BTC"; sz_decimals = 5 } ∷ [])
      (record {
        universe = record { name = codes "@1"; tokens = []; index = 1 } ∷ [];
        token_decimals = [];
      })
      0 0 (record { name = codes "BTC"; sz_decimals = 5 }) refl refl refl refl refl (omega arith)
      (omega arith) (omega arith) tt ((λ e. absurd (ground arith)), tt)
      (
        canonical-btc,
        ((friendly-btc _, (friendly-btc _, tt)), ((friendly-btc _, (friendly-btc _, tt)), tt)),
      )

-- A network on which no dial succeeds, and a client with its second attempt before it.
abbrev unreachable : Net
unreachable = record {
  World = ℕ;
  dial = λ w. (suc w, false);
  write = λ w f. (w, false);
  coin_and_user = λ d. none;
  decode_post = λ d. none;
  equal_fold = str_beq;
}

abbrev armed : Stream ℕ
armed = record (fresh_stream 0) {
  reconnect_timer = some (pos 1000000000);
  reconnect_attempts = 1;
  max_reconnect_attempts = 2;
}

run_timer-HasStopped_example :
    let t = run_timer unreachable tenths (pos 5 ∷ pos 5 ∷ []) armed in
    (t.reconnect_timer ≡ none) × HasStopped unreachable t
run_timer-HasStopped_example =
    run_timer-HasStopped unreachable tenths (pos 5 ∷ pos 5 ∷ []) armed (pos 1000000000) refl
      (omega arith) (omega arith) (omega arith)

-- URLs that are printed as they were read.
abbrev plain_urls : Urls
plain_urls = record {
  Url = Str;
  parse = λ s. some s;
  set_scheme = λ scheme u. u;
  set_path = λ path u. u;
  print = λ u. u;
}

abbrev host : Host
host = record {
  http = web;
  urls = plain_urls;
  Key = ℕ;
  address = λ k. codes "0xabc";
  Network = ℕ;
  answers = λ t. answers;
}

abbrev options : List (ClientOption ℕ ℕ)
options = with_private_key ℕ ℕ (some 3) ∷ with_testnet ℕ ℕ ∷ []

abbrev handles : FacadeClient host
handles = record {
  info = record { transport = new_transport web testnet_api_url none; client = registered };
  trade = trade_handle host (chosen host options) registered;
  stream = some (
      configured host (chosen host options)
        (record { url = testnet_api_url; logger = none; stream = fresh_stream 0 }));
}

new-Fits_example : Fits host (chosen host options) handles
unfolding new info_handle stream_handle trade_handle apply_options default_client_config
    with_private_key with_testnet new_transport base_or_mainnet new_stream ws_url new_client
    or_panic given_or perp_base str_beq
new-Fits_example = new-Fits host options 0 handles refl
