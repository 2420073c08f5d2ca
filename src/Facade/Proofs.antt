-- ===== src/Facade/Proofs.antt =====
-- The three handles of a client fit together.
use hyperliquid_go.Info.Proofs.Registered.{new_client-dex}
use hyperliquid_go.Base.{
  ◌∷◌, str_beq, if_eq_false, if_eq_true, inr, inl, true, Option, none, some, List, [], ◌≡◌, ◌↔◌,
  ◌∙◌, refl, sym, ap, subst, arith, ==_iff, str_eq, Bool-cases, Option-cases, Result, ok, err,
  ◌>>=◌,
}
use hyperliquid_go.Base.Text.{Str}
use hyperliquid_go.Base.Int.{pos, ltb_ℤ}
use hyperliquid_go.Http.{base_or_mainnet, Transport, new_transport, mainnet_api_url}
use hyperliquid_go.Info.Registry.{InfoClient, new_client}
use hyperliquid_go.Stream.Setup.{
  stream_at, fresh_stream, StreamClient, ws_url, new_stream, set_logger, set_max_reconnect_attempts,
  set_reconnect_wait,
}
use hyperliquid_go.Facade.{
  settled, handle_of, NewError, ClientOption, default_client_config, apply_options, Host,
  FacadeError, InfoHandle, Trader, FacadeClient, Settings, new_trader, trade_handle, configured,
  stream_handle, info_handle, new,
}

-- Two steps that succeeded.
two_ok :
    {E A B C : Type 0} (r : Result E A) (s : Result E B) (f : A → B → C) (c : C)
    → (r >>= λ a. s >>= λ b. ok (f a b)) ≡ ok c
    → (a : A) × (b : B) × (r ≡ ok a) × (s ≡ ok b) × (f a b ≡ c)
two_ok {C = C} (ok a) (ok b) f c h = (a, b, refl, refl, cc)
two_ok (err e) s f c h = cc
two_ok (ok a) (err e) f c h = cc

some_inj : {A : Type 0} (x y : A) → ◌≡◌ {A = Option A} (some x) (some y) → x ≡ y
some_inj x y h = cc

ok_inj : {A : Type 0} (x y : A) → ◌≡◌ {A = Result FacadeError A} (ok x) (ok y) → x ≡ y
ok_inj x y h = cc

module _ (host : Host) where
  open host use {http, urls, Network, answers}

  -- The trading client of a read-only one: it talks to the same venue, through the HTTP client of the
  -- options, with the same tables for the same dex, and signs for mainnet where it talks to mainnet.
  abbrev pub TradeFits : Settings host → InfoHandle host → Option (Trader host) → Type 0
  TradeFits cfg i none = Unit
  TradeFits cfg i (some t) =
      (t.transport.base_url ≡ i.transport.base_url)
      × (t.transport ≡ new_transport http cfg.base_url cfg.http_client)
      × (t.config.tables ≡ i.client.tables)
      × (t.config.dex ≡ i.client.perp_dex_name)
      × ((t.config.is_mainnet ≡ true) ↔ (t.transport.base_url ≡ mainnet_api_url))

  -- The stream client of a read-only one: its socket is at the same venue, and it waits before it
  -- connects again.
  abbrev pub StreamFits : InfoHandle host → Option (StreamClient Network) → Type 0
  StreamFits i none = Unit
  StreamFits i (some s) =
      (ws_url urls i.transport.base_url ≡ some s.url)
      × (ltb_ℤ (pos 0) s.stream.reconnect_wait ≡ true)

  -- The three handles, where the read-only client has the default HTTP client.
  abbrev pub Fits : Settings host → FacadeClient host → Type 0
  Fits cfg c =
      (c.info.transport.http_client ≡ http.default_client)
      × TradeFits cfg c.info c.trade
      × StreamFits c.info c.stream

  abbrev pub chosen : List (ClientOption http.HttpClient host.Key) → Settings host
  chosen opts =
      apply_options http.HttpClient host.Key opts (default_client_config http.HttpClient host.Key)

  handle_of-ok :
      (r : Result NewError InfoClient) (t : Transport http) (i : InfoHandle host)
      → handle_of host t r ≡ ok i
      → (c : InfoClient) × (r ≡ ok c) × (t ≡ i.transport) × (c ≡ i.client)
  handle_of-ok (ok c) t i h =
      let k : ◌≡◌ {A = InfoHandle host} (record { transport = t; client = c }) i = cc in
      (
        c,
        refl,
        ap (λ (x : InfoHandle host). x.transport) k,
        ap (λ (x : InfoHandle host). x.client) k,
      )
  handle_of-ok (err e) t i h = cc

  info_handle-transport :
      (cfg : Settings host) (i : InfoHandle host)
      → info_handle host cfg ≡ ok i
      → (i.transport ≡ new_transport http cfg.base_url none)
        × (i.client.perp_dex_name ≡ cfg.builder_dex)
  unfolding info_handle
  info_handle-transport cfg i h =
      let t = new_transport http cfg.base_url none in
      let (c, r, e, k) =
        handle_of-ok (new_client (answers t) cfg.meta cfg.spot_meta cfg.perp_dexs cfg.builder_dex) t
          i h in
      (
        sym e,
        rw (← k)
            (new_client-dex (answers t) cfg.meta cfg.spot_meta cfg.perp_dexs cfg.builder_dex c r),
      )

  trade_handle-Fits :
      (cfg : Settings host) (i : InfoHandle host)
      → i.transport ≡ new_transport http cfg.base_url none
      → i.client.perp_dex_name ≡ cfg.builder_dex
      → TradeFits cfg i (trade_handle host cfg i.client)
  unfolding trade_handle new_trader new_transport
  trade_handle-Fits cfg i e d = elim (Option-cases cfg.private_key) [
    | inl k ↦ rw (k, trade_handle) tt
    | inr (key, k) ↦
        rw (k, trade_handle)
          (
            ap (λ (x : Transport http). x.base_url) (sym e),
            refl,
            refl,
            sym d,
            ==_iff _ mainnet_api_url,
          )
  ]

  base_or_mainnet_twice : (b : Str) → base_or_mainnet (base_or_mainnet b) ≡ base_or_mainnet b
  unfolding base_or_mainnet str_beq
  base_or_mainnet_twice [] = refl
  base_or_mainnet_twice (c ∷ b) = refl

  -- The socket's address of a base URL and of the URL that a transport resolves it to.
  ws_url-resolved : (b : Str) → ws_url urls (base_or_mainnet b) ≡ ws_url urls b
  unfolding ws_url
  ws_url-resolved b = rw (ws_url, base_or_mainnet_twice b) refl

  stream_at_parts :
      (o : Option Str) (net : Network) (s : StreamClient Network)
      → stream_at net o ≡ some s
      → (o ≡ some s.url) × (fresh_stream net ≡ s.stream)
  stream_at_parts none net s h = cc
  stream_at_parts (some u) net s h =
      let k = some_inj (record { url = u; logger = none; stream = fresh_stream net }) s h in
      (
        ap (λ (x : StreamClient Network). some x.url) k,
        ap (λ (x : StreamClient Network). x.stream) k,
      )

  configured_parts :
      (cfg : Settings host) (s : StreamClient Network)
      → ltb_ℤ (pos 0) s.stream.reconnect_wait ≡ true
      → ((configured host cfg s).url ≡ s.url)
        × (ltb_ℤ (pos 0) (configured host cfg s).stream.reconnect_wait ≡ true)
  unfolding configured set_logger set_max_reconnect_attempts set_reconnect_wait
  configured_parts cfg s p = ground (arith, p)

  new_stream-Fits :
      (cfg : Settings host) (i : InfoHandle host) (net : Network) (s : StreamClient Network)
      → i.transport ≡ new_transport http cfg.base_url none
      → new_stream urls cfg.base_url net ≡ some s
      → StreamFits i (some (configured host cfg s))
  unfolding new_transport new_stream
  new_stream-Fits cfg i net s e h =
      let (u, f) = stream_at_parts (ws_url urls cfg.base_url) net s h in
      let (q, w) = configured_parts cfg s (rw (← f) refl) in
      (
        ap (λ (x : Transport http). ws_url urls x.base_url) e
            ∙ ws_url-resolved cfg.base_url
            ∙ u
            ∙ ap some (sym q),
        w,
      )

  settled-Fits :
      (cfg : Settings host) (i : InfoHandle host) (net : Network)
      (o s : Option (StreamClient Network))
      → i.transport ≡ new_transport http cfg.base_url none
      → new_stream urls cfg.base_url net ≡ o
      → settled host cfg o ≡ ok s
      → StreamFits i s
  settled-Fits cfg i net none s e n h = cc
  settled-Fits cfg i net (some t) s e n h =
      rw (← ok_inj (some (configured host cfg t)) s h) (new_stream-Fits cfg i net t e n)

  stream_handle-Fits :
      (cfg : Settings host) (i : InfoHandle host) (net : Network)
      (s : Option (StreamClient Network))
      → i.transport ≡ new_transport http cfg.base_url none
      → stream_handle host cfg net ≡ ok s
      → StreamFits i s
  unfolding stream_handle
  stream_handle-Fits cfg i net s e h = elim (Bool-cases cfg.skip_stream) [
    | inl k ↦ rw (← ok_inj none s (sym (if_eq_true _ _ _ k) ∙ h)) tt
    | inr k ↦ settled-Fits cfg i net _ s e refl (sym (if_eq_false _ _ _ k) ∙ h)
  ]

  -- `New` with any options, where it succeeds: the read-only client always has the default HTTP
  -- client; the trading client, if there is a key, talks to the same venue through the HTTP client of
  -- the options, for the same dex with the same tables, and signs for mainnet exactly where it talks to
  -- mainnet; the stream, if it is not skipped, is at the same venue and waits before it reconnects.
  pub new-Fits :
      (opts : List (ClientOption http.HttpClient host.Key)) (net : Network) (c : FacadeClient host)
      → new host opts net ≡ ok c
      → Fits (chosen opts) c
  unfolding new new_transport
  new-Fits opts net c h =
      let cfg = chosen opts in
      let (i, s, hi, hs, k) = two_ok (info_handle host cfg) (stream_handle host cfg net) _ c h in
      let (e, d) = info_handle-transport cfg i hi in
      subst (Fits cfg) k (
        ap (λ (x : Transport http). x.http_client) e,
        trade_handle-Fits cfg i e d,
        stream_handle-Fits cfg i net s e hs,
      )
