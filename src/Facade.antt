-- ===== src/Facade.antt =====
-- The root package: client.go and options.go, with `New` of trade/exchange.go.
pub mod Proofs
use hyperliquid_go.Base.{
  ◌>>=◌, ℕ, Bool, true, false, Option, none, some, List, [], ◌∷◌, ◌==◌, str_eq, if◌then◌else◌,
  Result, ok, err,
}
use hyperliquid_go.Base.Text.{Str, codes}
use hyperliquid_go.Base.Int.{ℤ, pos}
use hyperliquid_go.Http.{Http, Transport, new_transport, mainnet_api_url, testnet_api_url}
use hyperliquid_go.Info.{Tables}
use hyperliquid_go.Info.Registry.{AssetInfo, SpotMeta, Answers, InfoClient, NewError, new_client}
use hyperliquid_go.Trade.Client.{Config}
use hyperliquid_go.Stream.Setup.{
  Urls, Logger, StreamClient, new_stream, set_logger, set_max_reconnect_attempts,
  set_reconnect_wait,
}

-- `clientConfig`, over the HTTP clients and the private keys.
pub record ClientConfig (HttpClient Key : Type 0) : Type 0 where
  pub base_url : Str
  pub http_client : Option HttpClient
  pub private_key : Option Key
  pub account : Str
  pub vault : Str
  pub builder_dex : Str
  pub meta : Option (List AssetInfo)
  pub spot_meta : Option SpotMeta
  pub perp_dexs : Option (List Str)
  pub skip_stream : Bool
  pub logger : Logger
  pub max_reconnect_attempts : ℤ
  pub reconnect_wait : ℤ
  pub expires_after : Option ℤ

module _ (HttpClient Key : Type 0) where
  -- `Option`
  abbrev pub ClientOption : Type 0
  ClientOption = ClientConfig HttpClient Key → ClientConfig HttpClient Key

  -- `defaultClientConfig`
  unfoldable pub default_client_config : ClientConfig HttpClient Key
  default_client_config = record {
    base_url = mainnet_api_url;
    http_client = none;
    private_key = none;
    account = [];
    vault = [];
    builder_dex = [];
    meta = none;
    spot_meta = none;
    perp_dexs = none;
    skip_stream = false;
    logger = none;
    max_reconnect_attempts = pos 0;
    reconnect_wait = pos 0;
    expires_after = none;
  }

  unfoldable pub with_mainnet : ClientOption
  with_mainnet c = record c { base_url = mainnet_api_url }

  unfoldable pub with_testnet : ClientOption
  with_testnet c = record c { base_url = testnet_api_url }

  unfoldable pub with_base_url : Str → ClientOption
  with_base_url url c = record c { base_url = url }

  unfoldable pub with_private_key : Option Key → ClientOption
  with_private_key key c = record c { private_key = key }

  unfoldable pub with_account : Str → ClientOption
  with_account addr c = record c { account = addr }

  unfoldable pub with_vault : Str → ClientOption
  with_vault addr c = record c { vault = addr }

  unfoldable pub with_builder_dex : Str → ClientOption
  with_builder_dex dex c = record c { builder_dex = dex }

  unfoldable pub with_http_client : Option HttpClient → ClientOption
  with_http_client client c = record c { http_client = client }

  unfoldable pub with_meta :
      Option (List AssetInfo) → Option SpotMeta → Option (List Str) → ClientOption
  with_meta meta spot_meta perp_dexs c = record c {
    meta = meta;
    spot_meta = spot_meta;
    perp_dexs = perp_dexs;
  }

  unfoldable pub with_skip_stream : Bool → ClientOption
  with_skip_stream skip c = record c { skip_stream = skip }

  -- A nil logger changes nothing.
  unfoldable pub with_logger : Logger → ClientOption
  with_logger none c = c
  with_logger (some l) c = record c { logger = some l }

  unfoldable pub with_max_reconnect_attempts : ℤ → ClientOption
  with_max_reconnect_attempts n c = record c { max_reconnect_attempts = n }

  unfoldable pub with_reconnect_wait : ℤ → ClientOption
  with_reconnect_wait d c = record c { reconnect_wait = d }

  -- The deadline in milliseconds since the epoch.
  unfoldable pub with_expires_after : ℤ → ClientOption
  with_expires_after deadline_ms c = record c { expires_after = some deadline_ms }

  -- The loop over the options.
  unfoldable pub apply_options :
      List ClientOption → ClientConfig HttpClient Key → ClientConfig HttpClient Key
  apply_options [] c = c
  apply_options (o ∷ os) c = apply_options os (o c)

-- What stands outside the repository, and the answers that the queries of info.New get over a
-- transport.
pub record Host : Type 1 where
  pub http : Http
  pub urls : Urls
  pub Key : Type 0
  -- The lower-case address of a key.
  pub address : Key → Str
  pub Network : Type 0
  pub answers : Transport http → Answers

-- The errors of `New`: a panic of info.New, and the error of stream.New.
pub data FacadeError : Type 0 where
  info_panic : NewError → FacadeError
  invalid_stream_url : FacadeError

module _ (host : Host) where
  open host use {http, urls, Key, address, Network, answers}

  -- The read-only client with its transport.
  pub record InfoHandle : Type 0 where
    pub transport : Transport http
    pub client : InfoClient

  -- `trade.Client` with its transport, without the subgroups, which hold nothing of their own.
  pub record Trader : Type 0 where
    pub transport : Transport http
    pub config : Config

  -- `Client`
  pub record FacadeClient : Type 0 where
    pub info : InfoHandle
    pub trade : Option Trader
    pub stream : Option (StreamClient Network)

  abbrev pub Settings : Type 0
  Settings = ClientConfig http.HttpClient Key

  -- `New` of trade/exchange.go. Whether actions are signed for mainnet is read off the transport's URL.
  unfoldable pub new_trader :
      Transport http → Option Key → Str → Str → Str → Tables → Option ℤ → Trader
  new_trader api key vault account dex tables expires_after = record {
    transport = api;
    config = record {
      vault = vault;
      account_addr = account;
      dex = dex;
      key_addr = elim key [ none ↦ none | some k ↦ some (address k) ];
      expires_after = expires_after;
      is_mainnet = api.base_url == mainnet_api_url;
      tables = tables;
    };
  }

  -- The trading client, where there is a key.
  unfoldable pub trade_handle : Settings → InfoClient → Option Trader
  trade_handle cfg info = elim cfg.private_key [
    | none ↦ none
    | some key ↦ some (
        new_trader (new_transport http cfg.base_url cfg.http_client) (some key) cfg.vault
          cfg.account cfg.builder_dex info.tables cfg.expires_after)
  ]

  -- The stream client with its settings.
  unfoldable pub configured : Settings → StreamClient Network → StreamClient Network
  configured cfg s =
      set_reconnect_wait cfg.reconnect_wait
        (set_max_reconnect_attempts cfg.max_reconnect_attempts (set_logger cfg.logger s))

  abbrev pub settled :
      Settings → Option (StreamClient Network) → Result FacadeError (Option (StreamClient Network))
  settled cfg none = err invalid_stream_url
  settled cfg (some s) = ok (some (configured cfg s))

  -- The stream client, where it is not skipped.
  unfoldable pub stream_handle :
      Settings → Network → Result FacadeError (Option (StreamClient Network))
  stream_handle cfg net =
      if cfg.skip_stream then ok none else settled cfg (new_stream urls cfg.base_url net)

  -- The handle of a read-only client that was built.
  abbrev pub handle_of : Transport http → Result NewError InfoClient → Result FacadeError InfoHandle
  handle_of t (ok client) = ok (record { transport = t; client = client })
  handle_of t (err e) = err (info_panic e)

  -- info.New builds a transport of its own, with the default HTTP client.
  unfoldable pub info_handle : Settings → Result FacadeError InfoHandle
  info_handle cfg =
      let t = new_transport http cfg.base_url none in
      handle_of t (new_client (answers t) cfg.meta cfg.spot_meta cfg.perp_dexs cfg.builder_dex)

  -- `New`, with the network that the stream runs on.
  unfoldable pub new :
      List (ClientOption http.HttpClient Key) → Network → Result FacadeError FacadeClient
  new opts net = do
    let cfg = apply_options http.HttpClient Key opts (default_client_config http.HttpClient Key)
    info ← info_handle cfg
    stream ← stream_handle cfg net
    ok (record { info = info; trade = trade_handle cfg info.client; stream = stream })
