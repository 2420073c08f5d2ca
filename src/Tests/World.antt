-- ===== src/Tests/World.antt =====
-- A venue that accepts everything, and a client of it.
use hyperliquid_go.Base.{ℕ, suc, true, none, some, [], ◌∷◌}
use hyperliquid_go.Base.Text.{codes}
use hyperliquid_go.Info.{Tables}
use hyperliquid_go.Trade.Client.{Env, Config, St}
use hyperliquid_go.Tests.Floats.{tenths}

abbrev pub venue : Env
venue = record {
  fl = tenths;
  World = ℕ;
  now_ms = λ w. w;
  user_state = λ w a d. (suc w, some (record { positions = [] }));
  all_mids = λ w d. (suc w, some []);
  open_orders = λ w a. (suc w, some []);
  post_exchange = λ w e. (suc w, some (codes "{}"));
  sign_l1 = λ a v n x m. some (codes "sig");
  decode_response = λ b. some (some (record { is_ok = true; error = []; statuses = [] }));
  parse_status = λ s. none;
  parse_cancel_error = λ s. none;
  peek_type = λ m. [];
}

abbrev pub tables : Tables
tables = record {
  coin_to_asset = (codes "BTC", 3) ∷ [];
  name_to_coin = (codes "BTC", codes "BTC") ∷ [];
  asset_to_decimal = (3, 1) ∷ [];
}

abbrev pub client : Config
client = record {
  vault = [];
  account_addr = codes "0xabc";
  dex = [];
  key_addr = none;
  expires_after = none;
  is_mainnet = true;
  tables = tables;
}

abbrev pub start : St ℕ
start = record { world = 7; cached = none; posted = [] }
