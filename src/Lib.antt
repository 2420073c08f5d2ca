-- ===== src/Lib.antt =====
-- A verification library of hyperliquid-go, a Go client of the Hyperliquid exchange.
--
-- The trading client (trade/) turns an order spec into checks against the asset tables and the cached
-- account state, into requests (a parent and its bracket legs), into a wire action, and posts the
-- signed action. The read-only client (info/) owns the asset tables. The stream client (stream/) keeps
-- a WebSocket connection, its subscriptions, its pending requests and a reconnect timer.
--
--   Float             float64 and the functions of math, strconv and fmt on it, as a parameter; the
--                     order laws of IEEE 754 are a record of hypotheses
--   Http              internal/transport/client.go and types/urls.go
--   Types, Info       types/*.go and the asset tables of info/info.go and info/account.go
--   Info.Registry     `New` of info/info.go, over the answers of its queries
--   Info.Responses    the structs that the answers of the queries are decoded into
--   Info.Queries      the queries of info/*.go: the request that each sends to /info, and the reading of
--                     the answer, with its errors and its panics
--   Info.Outcome      info/outcome_question.go and the types of info/meta.go that it reads
--   Signing           internal/eip712/eip712.go and signing/signing.go: the bytes that are hashed and
--                     signed; the hashes and the curve are parameters
--   Wire              internal/wire/wire.go
--   Trade.Spec        trade/opts.go and the spec constructors of trade/place.go
--   Trade.Requests    trade/bracket.go and `specToRequests` of trade/trade.go
--   Trade.Client      trade/exchange.go: a method is a function from the client's state to a new state
--                     and a value or an error. The state holds the venue, the cached user state and the
--                     bodies posted so far
--   Trade.Validate    trade/validate.go
--   Trade.Action      trade/wire.go and the wire actions of trade/exchange_orders.go
--   Trade.Response    the reading of order and cancel responses
--   Trade.Place       `place` and `placeMany` of trade/trade.go
--   Trade.Market      market orders and position exits of trade/place.go
--   Trade.Modify      `Modify` and `ModifyByCloid` of trade/modify_cancel.go
--   Trade.Cancel      the cancellations of trade/modify_cancel.go and trade/exchange_orders_cancel.go
--   Trade.Account     trade/account.go, transfer.go, withdraw.go, stake.go, subaccount.go, multisig.go,
--                     validators.go, deploy_spot.go, deploy_perp.go, outcome.go and convert.go: what
--                     each operation signs and posts
--   Stream            stream/*.go: each method as an operation on the client's state. A call returns a
--                     value, fails or blocks for ever. connMu's write lock is part of the state, since a
--                     method takes it again while it holds it, and so is writeMu where a call keeps it
--                     for ever; the other locks are released before the method that takes them returns.
--                     Channels of pending requests stand on a heap
--   Facade            client.go, options.go and `New` of trade/exchange.go
--   Tests             concrete instances of the parameters, and runs on them
--
-- Integers are unbounded where the code counts indices and decimals; int32 ids and int64 durations
-- wrap. Outcome ids and spot indices are not negative. A Go map is an association list whose order is
-- one of the orders of `range`. The digits of a number are printed by as many steps as the number plus
-- one, which is more than it has digits; nothing else runs on fuel. The venue, the signer of L1 actions
-- inside the trading client, the clock and the JSON decoders are parameters.
--
-- Not modelled: net/http, Keccak, msgpack and the elliptic curve, which are libraries; package json on
-- plain structs; the interleaving of the pump goroutines of the stream with other calls (each pump is a
-- run by itself); what a logger does with its lines; the texts of errors. The operations of trade/ take
-- the answers to their queries from the venue's state, and the queries that ask for them are in
-- Info.Queries.
pub mod Base
pub mod Float
pub mod Types
pub mod Signing
pub mod Http
pub mod Info
pub mod Wire
pub mod Trade
pub mod Stream
pub mod Facade
pub mod Tests
