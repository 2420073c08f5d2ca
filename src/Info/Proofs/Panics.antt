-- ===== src/Info/Proofs/Panics.antt =====
-- When the decoding of a perp universe's metadata panics.
use hyperliquid_go.Base.{
  Option, none, some, List, [], ◌∷◌, ◌≡◌, ◌≢◌, ◌↔◌, ◌⊎◌, inl, inr, refl, str_eq, subst,
  Option-cases,
}
use hyperliquid_go.Base.Dict.{Dict, lookup}
use hyperliquid_go.Base.Text.{Str, codes}
use hyperliquid_go.Base.Int.{ℤ}
use hyperliquid_go.Float.{Float}
use hyperliquid_go.Http.{Http, Transport}
use hyperliquid_go.Info.{or_empty}
use hyperliquid_go.Info.Responses.Meta.{AssetInfo, MarginTable}
use hyperliquid_go.Info.Queries.Json.{Json}
use hyperliquid_go.Info.Queries.Metadata.{
  Parsed, parsed, refused, panicked, then_parse, or_refused, table_of, table_of_row, tables_of_rows,
  margin_tables_of, collateral_of, parse_meta_response,
}

-- A step that panics, or one that succeeded before a panic.
then_parse-panicked :
    {A B : Type 0} (r : Parsed A) (f : A → Parsed B)
    → then_parse r f ≡ panicked
    → (r ≡ panicked) ⊎ ((a : A) × (r ≡ parsed a) × (f a ≡ panicked))
then_parse-panicked (parsed a) f h = inr (a, refl, h)
then_parse-panicked refused f h = cc
then_parse-panicked panicked f h = inl refl

or_refused-panicked :
    {A B : Type 0} (o : Option A) (f : A → Parsed B)
    → then_parse (or_refused o) f ≡ panicked
    → (a : A) × (o ≡ some a) × (f a ≡ panicked)
or_refused-panicked none f h = cc
or_refused-panicked (some a) f h = (a, refl, h)

parsed_ne_panicked : {A : Type 0} (a : A) → parsed a ≢ panicked
parsed_ne_panicked a h = cc

refuses :
    {A B : Type 0} (o : Option A) (f : A → Parsed B)
    → ((a : A) → f a ≢ panicked)
    → then_parse (or_refused o) f ≢ panicked
refuses none f h e = cc
refuses (some a) f h e = h a e

module _ (fl : Float) (http : Http) (json : Json fl.F) (client : Transport http) where
  open json use {Any, as_float, marshal, fields, margin_tiers}

  -- A row of two elements or more whose first is no number.
  abbrev pub HasBadId : List Any → Type 0
  HasBadId [] = ⊥
  HasBadId (id ∷ []) = ⊥
  HasBadId (id ∷ table ∷ rest) = as_float id ≡ none

  -- Such a row after rows that are margin tables.
  abbrev pub HasBadRow : List (List Any) → Type 0
  HasBadRow [] = ⊥
  HasBadRow (row ∷ rows) =
      HasBadId row
      ⊎ ((t : MarginTable) × (table_of_row fl http json client row ≡ parsed t) × HasBadRow rows)

  -- A row's id, read.
  abbrev read_id : Any → Option ℤ → Parsed MarginTable
  read_id table o = elim o [ none ↦ panicked | some n ↦ table_of fl http json client n table ]

  table_of_returns : (id : ℤ) (table : Any) → table_of fl http json client id table ≢ panicked
  unfolding table_of
  table_of_returns id table = refuses (marshal table) _ λ body.
      refuses (fields body) _
        λ m. refuses (marshal _) _ λ raw. refuses (margin_tiers raw) _ λ tiers. parsed_ne_panicked _

  table_of_row-panicked :
      (row : List Any) → (table_of_row fl http json client row ≡ panicked) ↔ HasBadId row
  unfolding table_of_row
  table_of_row-panicked [] = (λ h. cc, λ b. absurd b)
  table_of_row-panicked (id ∷ []) = (λ h. cc, λ b. absurd b)
  table_of_row-panicked (id ∷ table ∷ rest) = elim (Option-cases (as_float id)) [
    | inl e ↦ (λ h. e, λ h. rw (e, table_of_row) refl)
    | inr (n, e) ↦ (
      λ h. absurd (table_of_returns n table (subst (λ o. read_id table o ≡ panicked) e h)),
      λ h. cc,
    )
  ]

  tables_of_rows-panicked :
      (rows : List (List Any))
      → (tables_of_rows fl http json client rows ≡ panicked) ↔ HasBadRow rows
  unfolding tables_of_rows
  tables_of_rows-panicked [] = (λ h. cc, λ b. absurd b)
  tables_of_rows-panicked (row ∷ rows) = (
    λ h. elim (then_parse-panicked (table_of_row fl http json client row) _ h) [
      | inl b ↦ inl ((table_of_row-panicked row).0 b)
      | inr (t, e, k) ↦ elim (then_parse-panicked (tables_of_rows fl http json client rows) _ k) [
        | inl r ↦ inr (t, e, (tables_of_rows-panicked rows).0 r)
        | inr (ts, f, g) ↦ absurd (parsed_ne_panicked (t ∷ ts) g)
      ]
    ],
    λ b. elim b [
      | inl bad ↦ rw ((table_of_row-panicked row).1 bad) refl
      | inr (t, e, r) ↦ rw (e, (tables_of_rows-panicked rows).1 r) refl
    ],
  )

  -- The margin tables that a metadata object may have, with a bad row.
  abbrev BadTables : Option Str → Type 0
  BadTables o =
      (raw : Str) × (o ≡ some raw)
      × (rows : List (List Any)) × (json.rows raw ≡ some rows)
      × HasBadRow rows

  margin_tables_of-panicked :
      (o : Option Str) → (margin_tables_of fl http json client o ≡ panicked) ↔ BadTables o
  unfolding margin_tables_of
  margin_tables_of-panicked none = (λ h. cc, λ b. cc)
  margin_tables_of-panicked (some raw) = (
    λ h.
        let (rows, e, k) = or_refused-panicked (json.rows raw) _ h in
        (raw, refl, rows, e, (tables_of_rows-panicked rows).0 k),
    λ (text, e, rows, f, b).
        let q : raw ≡ text = cc in rw (q, f) ((tables_of_rows-panicked rows).1 b),
  )

  collateral_of_returns : (o : Option Str) → collateral_of fl http json client o ≢ panicked
  unfolding collateral_of
  collateral_of_returns none h = cc
  collateral_of_returns (some raw) h = returns (json.int raw) h
    where
      returns : (o : Option ℤ) → or_refused o ≢ panicked
      returns none e = cc
      returns (some n) e = cc

  -- The parts of an answer that are read before the rows, and the rows, among which is a bad one.
  abbrev pub BadMeta : Str → Type 0
  BadMeta resp =
      (m : Dict Str Str) × (json.raw_object resp ≡ some m)
      × (universe : List AssetInfo) × (json.universe (or_empty (lookup (codes "universe") m))
          ≡ some universe)
      × (token : ℤ) × (collateral_of fl http json client (lookup (codes "collateralToken") m)
          ≡ parsed token)
      × (raw : Str) × (lookup (codes "marginTables") m ≡ some raw)
      × (rows : List (List Any)) × (json.rows raw ≡ some rows)
      × HasBadRow rows

  -- The decoding of a metadata answer panics exactly when the answer, its universe and its collateral
  -- token decode, and its margin tables are rows of which one with two elements or more has an id
  -- that is no number, after rows that are margin tables.
  pub parse_meta_response-panicked :
      (resp : Str) → (parse_meta_response fl http json client resp ≡ panicked) ↔ BadMeta resp
  unfolding parse_meta_response
  parse_meta_response-panicked resp = (
    λ h.
        let (m, em, h1) = or_refused-panicked (json.raw_object resp) _ h in
        let (u, eu, h2) =
          or_refused-panicked (json.universe (or_empty (lookup (codes "universe") m))) _ h1 in
        elim (then_parse-panicked
          (collateral_of fl http json client (lookup (codes "collateralToken") m)) _ h2) [
            | inl b ↦ absurd (collateral_of_returns _ b)
            | inr (c, ec, h3) ↦
                elim (then_parse-panicked
                  (margin_tables_of fl http json client (lookup (codes "marginTables") m)) _ h3) [
                    | inl b ↦
                        let (raw, e, rows, f, bad) = (margin_tables_of-panicked _).0 b in
                        (m, em, u, eu, c, ec, raw, e, rows, f, bad)
                    | inr (ts, f, g) ↦ absurd (parsed_ne_panicked _ g)
                  ]
          ],
    λ (m, em, u, eu, c, ec, raw, e, rows, f, bad).
        rw (em, eu, ec, (margin_tables_of-panicked _).1 (raw, e, rows, f, bad)) refl,
  )
