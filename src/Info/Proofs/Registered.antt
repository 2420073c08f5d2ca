-- ===== src/Info/Proofs/Registered.antt =====
-- The tables that `New` leaves behind.
use hyperliquid_go.Types.Asset.{asset_outcome_base}
use hyperliquid_go.Info.Outcome.{OutcomeInfo, canonical, OutcomeMeta}
use hyperliquid_go.Base.Text.{Str}
use hyperliquid_go.Info.{Tables, sz_decimals, asset_id}
use hyperliquid_go.Base.{
  refl, none, subst, length, Any, err, ◌+◌, ◌*◌, ◌<◌, sym, ap, some, ℕ, ok, List, ◌≡◌, Option,
  Result, ◌>>=◌,
}
use hyperliquid_go.Info.Registry.{
  register_perps, register_spots, register_outcomes, SpotMeta, AssetInfo, NewError, with_outcomes,
  new_client, InfoClient, Answers, empty_tables, or_panic, given_or, meta_failed, spot_meta_failed,
  perp_base,
}
use hyperliquid_go.Info.Proofs.Canonical.{Named, register_outcomes-Named}

ok_inj : (a b : InfoClient) → ◌≡◌ {A = Result NewError InfoClient} (ok a) (ok b) → a ≡ b
ok_inj a b h = cc

-- Three steps that succeeded: each has a value.
three_ok :
    {A B C : Type 0} (r : Result NewError A) (s : Result NewError B) (t : Result NewError C)
    (f : A → B → C → InfoClient) (c : InfoClient)
    → (r >>= λ a. s >>= λ b. t >>= λ d. ok (f a b d)) ≡ ok c
    → (a : A) × (b : B) × (d : C) × (f a b d ≡ c)
three_ok (ok a) (ok b) (ok d) f c h = (a, b, d, ok_inj (f a b d) c h)
three_ok (err e) s t f c h = cc
three_ok (ok a) (err e) t f c h = cc
three_ok (ok a) (ok b) (err e) f c h = cc

abbrev pub built : Answers → Str → List AssetInfo → SpotMeta → ℕ → InfoClient
built answers name universe spot base = record {
  tables = with_outcomes answers.outcome_meta (
      register_spots spot.token_decimals spot.universe (register_perps base universe empty_tables));
  outcome_meta = answers.outcome_meta;
  perp_dex_name = name;
}

new_client-tables :
    (answers : Answers) (meta : Option (List AssetInfo)) (spot : Option SpotMeta)
    (dexs : Option (List Str)) (name : Str) (c : InfoClient)
    → new_client answers meta spot dexs name ≡ ok c
    → (t : Tables) × (with_outcomes answers.outcome_meta t ≡ c.tables)
unfolding new_client
new_client-tables answers meta spot dexs name c h =
    let (u, sp, base, k) =
      three_ok (or_panic (given_or meta (answers.meta name)) meta_failed)
        (or_panic (given_or spot answers.spot_meta) spot_meta_failed) (perp_base answers dexs name)
        (built answers name) c h in
    (
      register_spots sp.token_decimals sp.universe (register_perps base u empty_tables),
      ap (λ (r : InfoClient). r.tables) k,
    )

pub new_client-dex :
    (answers : Answers) (meta : Option (List AssetInfo)) (spot : Option SpotMeta)
    (dexs : Option (List Str)) (name : Str) (c : InfoClient)
    → new_client answers meta spot dexs name ≡ ok c
    → c.perp_dex_name ≡ name
unfolding new_client
new_client-dex answers meta spot dexs name c h =
    let (u, sp, base, k) =
      three_ok (or_panic (given_or meta (answers.meta name)) meta_failed)
        (or_panic (given_or spot answers.spot_meta) spot_meta_failed) (perp_base answers dexs name)
        (built answers name) c h in
    ap (λ (r : InfoClient). r.perp_dex_name) (sym k)

tables_of :
    (outcomes : OutcomeMeta) (o : Option OutcomeMeta) (t : Tables) (c : InfoClient)
    → o ≡ some outcomes
    → with_outcomes o t ≡ c.tables
    → register_outcomes outcomes outcomes.outcomes t ≡ c.tables
unfolding with_outcomes
tables_of outcomes none t c e k = cc
tables_of outcomes (some m) t c e k =
    rw (← k) (ap (λ (x : OutcomeMeta). register_outcomes x x.outcomes t) (sym cc))

asset_id-Named :
    (enc : ℕ) (t : Tables)
    → Named enc t
    → (asset_id t (canonical enc) ≡ asset_outcome_base + enc)
      × (sz_decimals t (asset_outcome_base + enc) ≡ 0)
unfolding asset_id sz_decimals
asset_id-Named enc t (p, q, r) = (rw (q, p) refl, rw r refl)

-- After `New`, the canonical name "#e" of each side of each outcome of the metadata stands for the
-- asset of that side, 100000000 + e with e = 10 * outcome + side, and the asset has no size decimals,
-- whatever else was registered.
pub new_client-canonical :
    (answers : Answers) (meta : Option (List AssetInfo)) (spot : Option SpotMeta)
    (dexs : Option (List Str)) (name : Str) (c : InfoClient) (outcomes : OutcomeMeta)
    (oc : OutcomeInfo) (j : ℕ)
    → new_client answers meta spot dexs name ≡ ok c
    → answers.outcome_meta ≡ some outcomes
    → Any (λ x. x ≡ oc) outcomes.outcomes
    → j < length oc.side_specs
    → let enc = 10 * oc.outcome + j in
      (asset_id c.tables (canonical enc) ≡ asset_outcome_base + enc)
      × (sz_decimals c.tables (asset_outcome_base + enc) ≡ 0)
new_client-canonical answers meta spot dexs name c outcomes oc j h e m l =
    let (t, k) = new_client-tables answers meta spot dexs name c h in
    let n = register_outcomes-Named outcomes outcomes.outcomes t oc j m l in
    asset_id-Named _ c.tables (subst (Named _) (tables_of outcomes answers.outcome_meta t c e k) n)
