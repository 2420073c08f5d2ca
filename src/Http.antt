-- ===== src/Http.antt =====
-- internal/transport/client.go: the HTTP wrapper under the read-only and the trading client.
use hyperliquid_go.Base.{
  ℕ, Bool, not, Option, none, some, [], ◌∷◌, ◌++◌, ◌==◌, str_eq, leb, if◌then◌else◌, Result, ok,
  err,
}
use hyperliquid_go.Base.Text.{Str, codes}
use hyperliquid_go.Signing.Values.{Fields, text, map_of}

-- types/urls.go
abbrev pub mainnet_api_url : Str
mainnet_api_url = codes "https://api.hyperliquid.xyz"

abbrev pub testnet_api_url : Str
testnet_api_url = codes "https://api.hyperliquid-testnet.xyz"

abbrev pub local_api_url : Str
local_api_url = codes "http://localhost:3001"

-- types.APIError, less the data, which no code sets.
pub record ApiError : Type 0 where
  pub code : ℕ
  pub message : Str

-- The errors of `Post`, in the order of the code.
pub data TransportError : Type 0 where
  marshal_failed request_invalid request_failed read_failed : TransportError
  api_error : ApiError → TransportError

-- What stands outside the repository: package json, and package net/http with the servers behind it.
-- `send` is the POST of a body to a URL: none where the request fails, else the status and the body,
-- which is none where it cannot be read.
pub record Http : Type 1 where
  pub World : Type 0
  -- A client that the caller owns, or the default one.
  pub HttpClient : Type 0
  pub default_client : HttpClient
  pub marshal : Fields → Option Str
  pub is_url : Str → Bool
  pub send : HttpClient → World → Str → Str → World × Option (ℕ × Option Str)

-- An empty base URL is mainnet's.
unfoldable pub base_or_mainnet : Str → Str
base_or_mainnet base_url = if base_url == [] then mainnet_api_url else base_url

abbrev pub http_error_status_code : ℕ
http_error_status_code = 400

module _ (http : Http) where
  open http use {World, HttpClient, default_client, marshal, is_url, send}

  -- `Client`
  pub record Transport : Type 0 where
    pub base_url : Str
    pub http_client : HttpClient

  -- `New`
  unfoldable pub new_transport : Str → Option HttpClient → Transport
  new_transport base_url client = record {
    base_url = base_or_mainnet base_url;
    http_client = elim client [ none ↦ default_client | some c ↦ c ];
  }

  -- The end of `Post`: the status and the body of the response.
  unfoldable pub read_response : Option (ℕ × Option Str) → Result TransportError Str
  read_response none = err request_failed
  read_response (some (status, none)) = err read_failed
  read_response (some (status, some body)) =
      if leb http_error_status_code status
      then err (api_error (record { code = status; message = body }))
      else ok body

  -- `Post`, less the debug output.
  unfoldable pub post : Transport → Str → Fields → World → World × Result TransportError Str
  post c path payload w = elim (marshal payload) [
    | none ↦ (w, err marshal_failed)
    | some body ↦
        if not (is_url (c.base_url ++ path))
        then (w, err request_invalid)
        else let (v, response) = send c.http_client w (c.base_url ++ path) body in
          (v, read_response response)
  ]

  -- `WarmUp`: the answer is dropped.
  unfoldable pub warm_up : Transport → World → World × Option TransportError
  warm_up c w =
      let (v, r) = post c (codes "/info") (map_of ((codes "type", text (codes "meta")) ∷ [])) w in
      (v, (elim r [ ok body ↦ none | err e ↦ some e ]))
