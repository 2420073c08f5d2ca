-- ===== src/Info/Registry.antt =====
-- `New` of info/info.go: the registration of perps, spot assets and outcomes in the three maps.
use hyperliquid_go.Base.{
  ℕ, suc, ◌+◌, ◌*◌, not, Option, none, some, List, [], ◌∷◌, ◌++◌, ◌==◌, str_eq, nat_eq,
  if◌then◌else◌, Result, ok, err, ◌>>=◌, get_elem?,
}
use hyperliquid_go.Base.Dict.{insert}
use hyperliquid_go.Base.Text.{Str, codes}
use hyperliquid_go.Base.Int.{ℤ, pos, negsuc}
use hyperliquid_go.Types.Asset.{asset_spot_offset, asset_builder_perp_base, asset_outcome_base}
use hyperliquid_go.Types.Mixed.{json_type}
use hyperliquid_go.Info.{Tables}
use hyperliquid_go.Info.Outcome.{
  OutcomeInfo, OutcomeMeta, Question, canonical, bucket_label, find_question,
}

pub record AssetInfo : Type 0 where
  pub name : Str
  pub sz_decimals : ℕ

pub record SpotAssetInfo : Type 0 where
  pub name : Str
  pub tokens : List ℤ
  pub index : ℕ

-- The universe, and the size decimals of the tokens in their order.
pub record SpotMeta : Type 0 where
  pub universe : List SpotAssetInfo
  pub token_decimals : List ℕ

-- The answers to the queries of `New`; `none` is an error. A dex is raw JSON.
pub record Answers : Type 0 where
  pub meta : Str → Option (List AssetInfo)
  pub spot_meta : Option SpotMeta
  pub perp_dexs : Option (List Str)
  pub outcome_meta : Option OutcomeMeta
  pub dex_name : Str → Option Str

-- The panics of `New`.
pub data NewError : Type 0 where
  meta_failed spot_meta_failed perp_dexs_failed : NewError
  unknown_dex : Str → NewError

-- The fields that `New` sets from the answers.
pub record InfoClient : Type 0 where
  pub tables : Tables
  pub outcome_meta : Option OutcomeMeta
  pub perp_dex_name : Str

-- The two name maps.
unfoldable pub register_name : Str → Str → ℕ → Tables → Tables
register_name name coin asset t = record t {
  coin_to_asset = insert name asset t.coin_to_asset;
  name_to_coin = insert name coin t.name_to_coin;
}

unfoldable pub register_decimals : ℕ → ℕ → Tables → Tables
register_decimals asset decimals t = record t {
  asset_to_decimal = insert asset decimals t.asset_to_decimal;
}

-- The perps of a universe, whose ids count up from `asset`.
unfoldable pub register_perps : ℕ → List AssetInfo → Tables → Tables
register_perps asset [] t = t
register_perps asset (a ∷ rest) t =
    register_perps (suc asset) rest
      (register_decimals asset a.sz_decimals (register_name a.name a.name asset t))

-- The decimals of the base token, where the first index is in range.
unfoldable pub base_decimals : List ℤ → List ℕ → Option ℕ
base_decimals [] decimals = none
base_decimals (negsuc n ∷ ts) decimals = none
base_decimals (pos n ∷ ts) decimals = get_elem? decimals n

unfoldable pub register_spot : List ℕ → SpotAssetInfo → Tables → Tables
register_spot decimals a t =
    let asset = a.index + asset_spot_offset in
    let named = register_name a.name a.name asset t in
    elim (base_decimals a.tokens decimals) [
      | none ↦ named
      | some d ↦ register_decimals asset d named
    ]

unfoldable pub register_spots : List ℕ → List SpotAssetInfo → Tables → Tables
register_spots decimals [] t = t
register_spots decimals (a ∷ rest) t = register_spots decimals rest (register_spot decimals a t)

-- `name:side`, and `question:label:side`.
unfoldable pub friendly : Str → Str → Str
friendly name side = name ++ (b':' ∷ side)

-- The label of the outcome's bucket, where the outcome has a question and a label.
unfoldable pub bucket_prefix : Option Question → Option Str → Option Str
bucket_prefix none label = none
bucket_prefix (some q) none = none
bucket_prefix (some q) (some label) = if label == [] then none else some (friendly q.name label)

-- The bucket's name of a side, where there is one.
unfoldable pub register_prefixed : Option Str → Str → Str → ℕ → Tables → Tables
register_prefixed none side coin asset t = t
register_prefixed (some p) side coin asset t = register_name (friendly p side) coin asset t

-- One side of an outcome: the friendly name, the bucket's, then the canonical one.
unfoldable pub register_side : OutcomeInfo → Option Str → ℕ → Str → Tables → Tables
register_side oc prefix side_index side t =
    let enc = 10 * oc.outcome + side_index in
    let asset = asset_outcome_base + enc in
    let named = register_name (friendly oc.name side) (canonical enc) asset t in
    let bucketed = register_prefixed prefix side (canonical enc) asset named in
    register_decimals asset 0 (register_name (canonical enc) (canonical enc) asset bucketed)

unfoldable pub register_sides : OutcomeInfo → Option Str → ℕ → List Str → Tables → Tables
register_sides oc prefix i [] t = t
register_sides oc prefix i (side ∷ sides) t =
    register_sides oc prefix (suc i) sides (register_side oc prefix i side t)

unfoldable pub register_outcome : OutcomeMeta → OutcomeInfo → Tables → Tables
register_outcome meta oc t =
    register_sides oc
      (bucket_prefix (find_question (some meta) oc.outcome) (bucket_label (some meta) oc.outcome)) 0
      oc.side_specs t

unfoldable pub register_outcomes : OutcomeMeta → List OutcomeInfo → Tables → Tables
register_outcomes meta [] t = t
register_outcomes meta (oc ∷ ocs) t = register_outcomes meta ocs (register_outcome meta oc t)

abbrev next_index : Option ℕ → Option ℕ
next_index none = none
next_index (some i) = some (suc i)

-- The place of the dex of that name among the objects that parse.
unfoldable pub dex_index : (Str → Option Str) → Str → List Str → Option ℕ
dex_index dex_name name [] = none
dex_index dex_name name (raw ∷ raws) =
    let later = next_index (dex_index dex_name name raws) in
    if not (json_type raw == codes "object")
    then later
    else elim (dex_name raw) [ none ↦ later | some n ↦ if n == name then some 0 else later ]

unfoldable pub or_panic : {A : Type 0} → Option A → NewError → Result NewError A
or_panic none e = err e
or_panic (some a) e = ok a

-- A given value, or the answer to the query.
unfoldable pub given_or : {A : Type 0} → Option A → Option A → Option A
given_or (some a) answer = some a
given_or none answer = answer

abbrev pub empty_tables : Tables
empty_tables = record { coin_to_asset = []; name_to_coin = []; asset_to_decimal = [] }

-- The id of the first perp: zero, or the base of the builder dex.
unfoldable pub perp_base : Answers → Option (List Str) → Str → Result NewError ℕ
perp_base answers perp_dexs name = if name == [] then ok 0 else do
  raws ← or_panic (given_or perp_dexs answers.perp_dexs) perp_dexs_failed
  i ← or_panic (dex_index answers.dex_name name raws) (unknown_dex name)
  ok (asset_builder_perp_base + i * 10_000)

unfoldable pub with_outcomes : Option OutcomeMeta → Tables → Tables
with_outcomes none t = t
with_outcomes (some meta) t = register_outcomes meta meta.outcomes t

-- `New`: the first three arguments are the caller's metadata.
unfoldable pub new_client :
    Answers
    → Option (List AssetInfo)
    → Option SpotMeta
    → Option (List Str)
    → Str
    → Result NewError InfoClient
new_client answers meta spot_meta perp_dexs name = do
  universe ← or_panic (given_or meta (answers.meta name)) meta_failed
  spot ← or_panic (given_or spot_meta answers.spot_meta) spot_meta_failed
  base ← perp_base answers perp_dexs name
  ok (record {
    tables = with_outcomes answers.outcome_meta (
        register_spots spot.token_decimals spot.universe
          (register_perps base universe empty_tables));
    outcome_meta = answers.outcome_meta;
    perp_dex_name = name;
  })
