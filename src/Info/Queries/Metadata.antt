-- ===== src/Info/Queries/Metadata.antt =====
-- The metadata queries of info/meta.go, and those of info/market.go that read contexts.
use hyperliquid_go.Info.Responses.Meta.{
  MarginTable, Meta, SpotMeta, OutcomeMeta, MetaAndAssetCtxsResponse,
}
use hyperliquid_go.Base.Dict.{Dict, lookup}
use hyperliquid_go.Base.{str_eq}
use hyperliquid_go.Base.Int.{pos}
use hyperliquid_go.Info.{or_empty}
use hyperliquid_go.Info.Queries.Json.{and_then, margin_table, mixed_array}
use hyperliquid_go.Base.{Option, none, some, List, [], ◌∷◌}
use hyperliquid_go.Base.Text.{Str, codes}
use hyperliquid_go.Base.Int.{ℤ}
use hyperliquid_go.Float.{Float}
use hyperliquid_go.Http.{Http, Transport}
use hyperliquid_go.Info.Query.{Q, return, decoded, with_dex, typed, ask, fetch, ◌>>=◌}
use hyperliquid_go.Info.Queries.Json.{Json}

-- What a decoder does: a value, an error, or a panic of the code.
pub data Parsed (A : Type 0) : Type 0 where
  parsed : A → Parsed A
  refused : Parsed A
  panicked : Parsed A

abbrev pub then_parse : {A B : Type 0} → Parsed A → (A → Parsed B) → Parsed B
then_parse (parsed a) f = f a
then_parse refused f = refused
then_parse panicked f = panicked

abbrev pub or_refused : {A : Type 0} → Option A → Parsed A
or_refused none = refused
or_refused (some a) = parsed a

abbrev pub blank_table : MarginTable
blank_table = record { id = pos 0; description = []; margin_tiers = [] }

-- `m[k]` on a map of raw JSON: a missing key reads as no bytes.
abbrev raw_at : Str → Dict Str Str → Str
raw_at k m = or_empty (lookup k m)

module _ (fl : Float) (http : Http) (json : Json fl.F) (client : Transport http) where
  open http use {World}
  open json use {Any, nil, as_float, as_text, marshal, fields, margin_tiers}

  -- The description and the tiers of a margin table, out of its dynamic value.
  unfoldable pub table_of : ℤ → Any → Parsed MarginTable
  table_of id table = then_parse (or_refused (marshal table)) λ body.
      then_parse (or_refused (fields body)) λ m.
        let tiers_value : Any = elim (lookup (codes "marginTiers") m) [ none ↦ nil | some v ↦ v ] in
        then_parse (or_refused (marshal tiers_value)) λ raw.
          then_parse (or_refused (margin_tiers raw)) λ tiers. parsed (record {
            id = id;
            description = elim (lookup (codes "description") m) [
              | none ↦ []
              | some v ↦ elim (as_text v) [ none ↦ [] | some d ↦ d ]
            ];
            margin_tiers = tiers;
          })

  -- One row: a short one leaves the zero table, and an id that is no number panics.
  unfoldable pub table_of_row : List Any → Parsed MarginTable
  table_of_row [] = parsed blank_table
  table_of_row (id ∷ []) = parsed blank_table
  table_of_row (id ∷ table ∷ rest) = elim (as_float id) [
    | none ↦ panicked
    | some n ↦ table_of n table
  ]

  unfoldable pub tables_of_rows : List (List Any) → Parsed (List MarginTable)
  tables_of_rows [] = parsed []
  tables_of_rows (row ∷ rows) =
      let rest = tables_of_rows rows in
      then_parse (table_of_row row) λ t. then_parse rest λ ts. parsed (t ∷ ts)

  -- The margin tables of a metadata object, where it has the key.
  unfoldable pub margin_tables_of : Option Str → Parsed (List MarginTable)
  margin_tables_of none = parsed []
  margin_tables_of (some raw) = then_parse (or_refused (json.rows raw)) tables_of_rows

  unfoldable pub collateral_of : Option Str → Parsed ℤ
  collateral_of none = parsed (pos 0)
  collateral_of (some raw) = or_refused (json.int raw)

  -- `parseMetaResponse`
  unfoldable pub parse_meta_response : Str → Parsed Meta
  parse_meta_response resp = then_parse (or_refused (json.raw_object resp)) λ m.
      then_parse (or_refused (json.universe (raw_at (codes "universe") m))) λ universe.
        then_parse (collateral_of (lookup (codes "collateralToken") m)) λ collateral.
          then_parse (margin_tables_of (lookup (codes "marginTables") m)) λ tables.
            parsed (record {
              universe = universe;
              margin_tables = tables;
              collateral_token = collateral;
            })

  -- `Meta`; the answer may make it panic.
  unfoldable pub meta : List Str → Q World (Parsed Meta)
  meta dex = ask http client (with_dex dex (typed (codes "meta"))) >>= λ resp.
      return (parse_meta_response resp)

  -- `SpotMeta`
  unfoldable pub spot_meta : Q World SpotMeta
  spot_meta = fetch http client (typed (codes "spotMeta")) json.spot_meta

  -- `OutcomeMeta`
  unfoldable pub outcome_meta : Q World OutcomeMeta
  outcome_meta = fetch http client (typed (codes "outcomeMeta")) json.outcome_meta

  -- `PerpDexs`
  unfoldable pub perp_dexs : Q World (List Str)
  perp_dexs = fetch http client (typed (codes "perpDexs")) (mixed_array json)

  -- The two elements of the answer, each encoded and decoded again.
  unfoldable pub contexts_of : Any × Any → Option MetaAndAssetCtxsResponse
  contexts_of (first, second) = and_then (marshal first) λ meta_bytes.
      and_then (json.meta (margin_table json) meta_bytes) λ m.
        and_then (marshal second) λ ctx_bytes.
          and_then (json.asset_ctxs ctx_bytes) λ ctxs. some (record { meta = m; asset_ctxs = ctxs })

  -- `MetaAndAssetCtxs`
  unfoldable pub meta_and_asset_ctxs : Q World MetaAndAssetCtxsResponse
  meta_and_asset_ctxs = ask http client (typed (codes "metaAndAssetCtxs")) >>= λ resp.
      decoded (and_then (json.pair resp) contexts_of)

  -- `SpotMetaAndAssetCtxs`, whose answer is decoded as an object.
  unfoldable pub spot_meta_and_asset_ctxs : Q World (Dict Str Any)
  spot_meta_and_asset_ctxs = fetch http client (typed (codes "spotMetaAndAssetCtxs")) fields
