-- ===== src/Info/Query.antt =====
-- What the queries of package info share: the requests that a client sends, and how answers are read.
use hyperliquid_go.Base.{
  Option, none, some, List, [], ◌∷◌, ◌++◌, ◌==◌, str_eq, if◌then◌else◌, Result, ok, err,
}
use hyperliquid_go.Base.Dict.{Dict}
use hyperliquid_go.Base.Text.{Str, codes}
use hyperliquid_go.Base.Int.{ℤ}
use hyperliquid_go.Signing.Values.{Fields, Value, text, int, map_of, set_field}
use hyperliquid_go.Http.{Http, Transport, TransportError, post}

-- The errors of a query, told apart by their origin.
pub data QueryError : Type 0 where
  fetch_failed : TransportError → QueryError
  decode_failed no_mid bad_mid fill_not_found : QueryError

-- The servers, and the requests that were sent to them so far.
pub record Session (W : Type 0) : Type 0 where
  pub world : W
  pub requests : List Fields

-- A query: the new state, and a value or an error.
abbrev pub Q : Type 0 → Type 0 → Type 0
Q W A = Session W → Session W × Result QueryError A

abbrev pub continue :
    {W A B : Type 0}
    → Session W × Result QueryError A
    → (A → Q W B)
    → Session W × Result QueryError B
continue (s, ok a) f = f a s
continue (s, err e) f = (s, err e)

infixl 5 ◌>>=◌
abbrev pub ◌>>=◌ : {W A B : Type 0} → Q W A → (A → Q W B) → Q W B
◌>>=◌ m f s = continue (m s) f

abbrev pub return : {W A : Type 0} → A → Q W A
return a s = (s, ok a)

abbrev pub throw : {W A : Type 0} → QueryError → Q W A
throw e s = (s, err e)

-- `json.Unmarshal` of an answer.
abbrev pub decoded : {W A : Type 0} → Option A → Q W A
decoded none s = (s, err decode_failed)
decoded (some a) s = (s, ok a)

-- The variadic argument: a dex is set where the first one is not empty.
abbrev pub with_dex : List Str → Fields → Fields
with_dex [] payload = payload
with_dex (dex ∷ rest) payload =
    if dex == [] then payload else set_field (codes "dex") (text dex) payload

-- A payload of a type, and one of a type and a user.
abbrev pub typed : Str → Fields
typed request_type = map_of ((codes "type", text request_type) ∷ [])

abbrev pub typed_user : Str → Str → Fields
typed_user request_type user =
    map_of ((codes "type", text request_type) ∷ (codes "user", text user) ∷ [])

-- `payload[k] = v` for the entries of a map.
abbrev pub set_fields : Dict Str Value → Fields → Fields
set_fields [] payload = payload
set_fields ((k, v) ∷ m) payload = set_fields m (set_field k v payload)

module _ (http : Http) (client : Transport http) where
  open http use {World}

  abbrev answered :
      Fields
      → Session World
      → World × Result TransportError Str
      → Session World × Result QueryError Str
  answered payload s (w, ok body) =
      (record { world = w; requests = s.requests ++ (payload ∷ []) }, ok body)
  answered payload s (w, err e) =
      (record { world = w; requests = s.requests ++ (payload ∷ []) }, err (fetch_failed e))

  -- `c.client.Post("/info", payload)` with its error wrapped. A request is recorded whatever becomes of
  -- it.
  unfoldable pub ask : Fields → Q World Str
  ask payload s = answered payload s (post http client (codes "/info") payload s.world)

  -- A query whose answer is decoded.
  abbrev pub fetch : {A : Type 0} → Fields → (Str → Option A) → Q World A
  fetch payload decode = ask payload >>= λ body. decoded (decode body)

  -- The payload of `postTimeRangeRequest`.
  unfoldable pub time_range : Str → Str → ℤ → Option ℤ → Dict Str Value → Fields
  time_range request_type user start end_time extra =
      let base = map_of ((codes "type", text request_type) ∷ (codes "startTime", int start) ∷ []) in
      let named = if user == [] then base else set_field (codes "user") (text user) base in
      let ended : Fields = elim end_time [
        | none ↦ named
        | some t ↦ set_field (codes "endTime") (int t) named
      ] in
      set_fields extra ended

  -- `postTimeRangeRequest`
  unfoldable pub post_time_range_request : Str → Str → ℤ → Option ℤ → Dict Str Value → Q World Str
  post_time_range_request request_type user start end_time extra =
      ask (time_range request_type user start end_time extra)
