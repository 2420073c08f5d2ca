-- ===== src/Info/Proofs/Classes.antt =====
-- The asset ids of perps, spot assets and outcomes do not meet in the tables that `New` leaves.
use hyperliquid_go.Info.Proofs.Decimals.{
  register_perps-get_elem?, register_spots_ne, with_outcomes_below, NotSpot,
}
use hyperliquid_go.Info.Proofs.Registered.{built}
use hyperliquid_go.Base.{
  ◌>>=◌, ℕ, zero, suc, ◌+◌, ◌*◌, ◌≤◌, ◌<◌, ◌≡◌, ◌≢◌, ◌∙◌, ◌⊎◌, inl, inr, refl, sym, ap, true, false,
  Option, some, List, [], ◌∷◌, ◌==◌, str_eq, nat_eq, if◌then◌else◌, Result, ok, err, arith, All,
  length, get_elem?, Bool-cases, if_eq_true, if_eq_false,
}
use hyperliquid_go.Base.Text.{Str}
use hyperliquid_go.Types.Asset.{
  asset_builder_perp_base, AssetClass, perp, builder_perp, classify_asset, asset_spot_offset,
}
use hyperliquid_go.Info.{or_zero, sz_decimals, asset_id}
use hyperliquid_go.Info.Proofs.Names.{
  IsLast, NotSpotName, NotOutcome, Stands-asset_id, register_perps-Stands, register_spots-keeps,
  with_outcomes-keeps,
}
use hyperliquid_go.Info.Registry.{
  unknown_dex, dex_index, perp_dexs_failed, AssetInfo, SpotAssetInfo, SpotMeta, Answers, InfoClient,
  NewError, perp_base, or_panic, given_or, new_client, empty_tables,
}

-- The class of the perps of a client.
abbrev pub perp_class : Str → AssetClass
perp_class name = if name == [] then perp else builder_perp

bind_ok :
    {A : Type 0} (r : Result NewError A) (f : A → Result NewError ℕ) (n : ℕ)
    → (r >>= f) ≡ ok n
    → (a : A) × (f a ≡ ok n)
bind_ok (ok a) f n h = (a, h)
bind_ok (err e) f n h = cc

ok_inj : {A : Type 0} (x y : A) → ◌≡◌ {A = Result NewError A} (ok x) (ok y) → x ≡ y
ok_inj x y e = cc

-- A base is zero on the default dex, and that of a builder dex on another one.
perp_base_cases :
    (answers : Answers) (dexs : Option (List Str)) (name : Str) (base : ℕ)
    → perp_base answers dexs name ≡ ok base
    → ((name == [] ≡ true) × (base ≡ 0)) ⊎ ((name == [] ≡ false) × (100_000 ≤ base))
unfolding perp_base
perp_base_cases answers dexs name base h = elim (Bool-cases (name == [])) [
  | inl e ↦ inl (e, ok_inj base 0 (sym h ∙ if_eq_true _ _ _ e))
  | inr e ↦
      let (raws, h') =
        bind_ok (or_panic (given_or dexs answers.perp_dexs) perp_dexs_failed) _ base
          (sym (if_eq_false _ _ _ e) ∙ h) in
      let (n, h'') =
        bind_ok (or_panic (dex_index answers.dex_name name raws) (unknown_dex name)) _ base h' in
      let k : asset_builder_perp_base + n * 10_000 ≡ base = ok_inj _ base h'' in
      inr (e, omega (arith, k))
]

-- The id of a perp lies below those of the outcomes, and off those of the spot assets.
class_at :
    (name : Str) (base i : ℕ)
    → ((name == [] ≡ true) × (base ≡ 0)) ⊎ ((name == [] ≡ false) × (100_000 ≤ base))
    → i < 10_000
    → base + 10_000 ≤ 100_000_000
    → (classify_asset (base + i) ≡ perp_class name)
      × ((j : ℕ) → j < 90_000 → j + asset_spot_offset ≢ base + i)
unfolding classify_asset
class_at name base i (inl (e, z)) l b = (rw (e, z) (ground arith), λ j h k. omega (arith, k, z))
class_at name base i (inr (e, z)) l b = (rw e (ground arith), λ j h k. omega (arith, k, z))

off-NotSpot :
    (k : ℕ) (u : List SpotAssetInfo)
    → ((j : ℕ) → j < 90_000 → j + asset_spot_offset ≢ k)
    → All (λ s. s.index < 90_000) u
    → NotSpot k u
off-NotSpot k [] off h = tt
off-NotSpot k (s ∷ u) off (l, h) = (off s.index l, off-NotSpot k u off h)

get_elem?_lt : (u : List AssetInfo) (i : ℕ) (a : AssetInfo) → get_elem? u i ≡ some a → i < length u
get_elem?_lt [] i a e = cc
get_elem?_lt (b ∷ u) zero a e = omega arith
get_elem?_lt (b ∷ u) (suc i) a e = omega (arith, get_elem?_lt u i a e)

new_client-built :
    (answers : Answers) (meta : Option (List AssetInfo)) (spot : Option SpotMeta)
    (dexs : Option (List Str)) (name : Str) (u : List AssetInfo) (sp : SpotMeta) (base : ℕ)
    → given_or meta (answers.meta name) ≡ some u
    → given_or spot answers.spot_meta ≡ some sp
    → perp_base answers dexs name ≡ ok base
    → new_client answers meta spot dexs name ≡ ok (built answers name u sp base)
unfolding new_client or_panic
new_client-built answers meta spot dexs name u sp base hu hs hb = rw (hu, hs, hb) refl

-- After `New` over a universe of at most 10000 perps, the perp at each place i, the last one of its
-- name in the universe, is known by its name under the id that is the base of the dex and i, where no
-- spot asset has the name and no outcome can: no canonical name is the name, and it does not end in
-- one of their sides after a colon. The id is of the class of the dex, and under it stand the size
-- decimals of the universe: no other perp, no spot asset whose index is below 90000 and no outcome
-- writes them over, where the ids of the dex end below those of the outcomes.
pub new_client-sz_decimals :
    (answers : Answers) (meta : Option (List AssetInfo)) (spot : Option SpotMeta)
    (dexs : Option (List Str)) (name : Str) (c : InfoClient) (u : List AssetInfo) (sp : SpotMeta)
    (base i : ℕ) (a : AssetInfo)
    → new_client answers meta spot dexs name ≡ ok c
    → given_or meta (answers.meta name) ≡ some u
    → given_or spot answers.spot_meta ≡ some sp
    → perp_base answers dexs name ≡ ok base
    → get_elem? u i ≡ some a
    → length u ≤ 10_000
    → base + 10_000 ≤ 100_000_000
    → All (λ s. s.index < 90_000) sp.universe
    → IsLast a.name i u
    → NotSpotName a.name sp.universe
    → NotOutcome a.name answers.outcome_meta
    → (asset_id c.tables a.name ≡ base + i)
      × (classify_asset (base + i) ≡ perp_class name)
      × (sz_decimals c.tables (base + i) ≡ a.sz_decimals)
unfolding sz_decimals
new_client-sz_decimals answers meta spot dexs name c u sp base i a h hu hs hb g l b ss il ns out =
    let (class, off) =
      class_at name base i (perp_base_cases answers dexs name base hb)
        (omega (arith, get_elem?_lt u i a g)) b in
    let k : built answers name u sp base ≡ c =
      ok_inj _ c (sym (new_client-built answers meta spot dexs name u sp base hu hs hb) ∙ h) in
    let written =
      with_outcomes_below answers.outcome_meta (base + i) _ (omega (arith, get_elem?_lt u i a g))
      ∙ register_spots_ne sp.token_decimals sp.universe (base + i) _
          (off-NotSpot (base + i) sp.universe off ss)
      ∙ register_perps-get_elem? u i base (base + i) empty_tables a g refl in
    let named = with_outcomes-keeps a.name (base + i) answers.outcome_meta _ out (
      register_spots-keeps a.name (base + i) sp.token_decimals sp.universe _ ns
        (register_perps-Stands u i base (base + i) a empty_tables g refl il)) in
    (rw (← k) (Stands-asset_id a.name (base + i) _ named), class, rw (← k) (ap or_zero written))
