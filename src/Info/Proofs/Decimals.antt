-- ===== src/Info/Proofs/Decimals.antt =====
-- The size decimals in the tables that `New` leaves: what writes them over.
use hyperliquid_go.Base.{
  ℕ, zero, suc, ◌+◌, ◌<◌, ◌≡◌, ◌≢◌, ◌∙◌, refl, ap, Option, none, some, List, [], ◌∷◌, str_eq,
  nat_eq, arith, All, get_elem?,
}
use hyperliquid_go.Base.Dict.{lookup, lookup-insert_self, lookup-insert_ne}
use hyperliquid_go.Base.Text.{Str}
use hyperliquid_go.Types.Asset.{asset_spot_offset}
use hyperliquid_go.Info.{Tables}
use hyperliquid_go.Info.Outcome.{OutcomeInfo, OutcomeMeta}
use hyperliquid_go.Info.Registry.{
  AssetInfo, SpotAssetInfo, register_name, register_decimals, register_perps, register_spot,
  register_spots, base_decimals, register_prefixed, register_side, register_sides, register_outcome,
  register_outcomes, with_outcomes,
}

-- The size decimals of an id, where they are known.
abbrev pub decimals_at : ℕ → Tables → Option ℕ
decimals_at k t = lookup k t.asset_to_decimal

register_decimals_ne :
    (asset d k : ℕ) (t : Tables)
    → asset ≢ k
    → decimals_at k (register_decimals asset d t) ≡ decimals_at k t
unfolding register_decimals
register_decimals_ne asset d k t n = lookup-insert_ne asset k d t.asset_to_decimal n

register_decimals_self :
    (asset d : ℕ) (t : Tables) → decimals_at asset (register_decimals asset d t) ≡ some d
unfolding register_decimals
register_decimals_self asset d t = lookup-insert_self asset d t.asset_to_decimal

register_perps_below :
    (k asset : ℕ) (u : List AssetInfo) (t : Tables)
    → k < asset
    → decimals_at k (register_perps asset u t) ≡ decimals_at k t
unfolding register_perps register_name
register_perps_below k asset [] t h = refl
register_perps_below k asset (a ∷ rest) t h =
    register_perps_below k (suc asset) rest _ (omega arith)
    ∙ register_decimals_ne asset a.sz_decimals k _ (λ e. omega (arith, e))

some_inj : {A : Type 0} (x y : A) → ◌≡◌ {A = Option A} (some x) (some y) → x ≡ y
some_inj x y e = cc

pub register_perps-get_elem? :
    (u : List AssetInfo) (i asset k : ℕ) (t : Tables) (a : AssetInfo)
    → get_elem? u i ≡ some a
    → asset + i ≡ k
    → decimals_at k (register_perps asset u t) ≡ some a.sz_decimals
unfolding register_perps register_name
register_perps-get_elem? [] i asset k t a e h = cc
register_perps-get_elem? (b ∷ rest) zero asset k t a e h =
    let q : asset ≡ k = omega (arith, h) in
    register_perps_below k (suc asset) rest _ (omega (arith, h))
    ∙ rw (← q) (register_decimals_self asset b.sz_decimals _)
    ∙ ap (λ (x : AssetInfo). some x.sz_decimals) (some_inj b a e)
register_perps-get_elem? (b ∷ rest) (suc i) asset k t a e h =
    register_perps-get_elem? rest i (suc asset) k _ a e (omega (arith, h))

register_spot_ne :
    (ds : List ℕ) (s : SpotAssetInfo) (k : ℕ) (t : Tables)
    → s.index + asset_spot_offset ≢ k
    → decimals_at k (register_spot ds s t) ≡ decimals_at k t
unfolding register_spot register_name register_decimals
register_spot_ne ds s k t n =
    elim (base_decimals s.tokens ds)
      as (λ o.
        decimals_at k (elim o [
          | none ↦ register_name s.name s.name (s.index + asset_spot_offset) t
          | some d ↦
              register_decimals (s.index + asset_spot_offset) d
                (register_name s.name s.name (s.index + asset_spot_offset) t)
        ])
        ≡ decimals_at k t) [ none ↦ refl | some d ↦ lookup-insert_ne _ k d t.asset_to_decimal n ]

-- No spot asset of the universe has the id.
abbrev pub NotSpot : ℕ → List SpotAssetInfo → Type 0
NotSpot k = All λ s. s.index + asset_spot_offset ≢ k

pub register_spots_ne :
    (ds : List ℕ) (u : List SpotAssetInfo) (k : ℕ) (t : Tables)
    → NotSpot k u
    → decimals_at k (register_spots ds u t) ≡ decimals_at k t
unfolding register_spots
register_spots_ne ds [] k t h = refl
register_spots_ne ds (s ∷ u) k t (n, h) =
    register_spots_ne ds u k (register_spot ds s t) h ∙ register_spot_ne ds s k t n

register_prefixed-decimals_at :
    (p : Option Str) (side coin : Str) (asset k : ℕ) (t : Tables)
    → decimals_at k (register_prefixed p side coin asset t) ≡ decimals_at k t
unfolding register_prefixed register_name
register_prefixed-decimals_at none side coin asset k t = refl
register_prefixed-decimals_at (some p) side coin asset k t = refl

register_sides_below :
    (oc : OutcomeInfo) (p : Option Str) (i : ℕ) (sides : List Str) (k : ℕ) (t : Tables)
    → k < 100_000_000
    → decimals_at k (register_sides oc p i sides t) ≡ decimals_at k t
unfolding register_sides register_side register_name
register_sides_below oc p i [] k t h = refl
register_sides_below oc p i (side ∷ sides) k t h =
    register_sides_below oc p (suc i) sides k (register_side oc p i side t) h
    ∙ register_decimals_ne _ 0 k _ (λ e. omega (arith, e))
    ∙ register_prefixed-decimals_at p side _ _ k _

register_outcomes_below :
    (meta : OutcomeMeta) (ocs : List OutcomeInfo) (k : ℕ) (t : Tables)
    → k < 100_000_000
    → decimals_at k (register_outcomes meta ocs t) ≡ decimals_at k t
unfolding register_outcomes register_outcome
register_outcomes_below meta [] k t h = refl
register_outcomes_below meta (oc ∷ ocs) k t h =
    register_outcomes_below meta ocs k (register_outcome meta oc t) h
    ∙ register_sides_below oc _ 0 oc.side_specs k t h

pub with_outcomes_below :
    (o : Option OutcomeMeta) (k : ℕ) (t : Tables)
    → k < 100_000_000
    → decimals_at k (with_outcomes o t) ≡ decimals_at k t
unfolding with_outcomes
with_outcomes_below none k t h = refl
with_outcomes_below (some meta) k t h = register_outcomes_below meta meta.outcomes k t h
