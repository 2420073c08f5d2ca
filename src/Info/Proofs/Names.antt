-- ===== src/Info/Proofs/Names.antt =====
-- The names of perps in the tables that `New` leaves.
use hyperliquid_go.Base.{
  ℕ, zero, suc, ◌+◌, ◌*◌, ◌≡◌, ◌≢◌, ◌∙◌, refl, sym, str_eq, Option, none, some, List, [], ◌∷◌, All,
  arith, get_elem?, subst,
}
use hyperliquid_go.Base.Dict.{lookup, lookup-insert_self, lookup-insert_ne}
use hyperliquid_go.Base.Text.{Str}
use hyperliquid_go.Types.Asset.{asset_spot_offset, asset_outcome_base}
use hyperliquid_go.Info.{Tables, asset_id}
use hyperliquid_go.Info.Outcome.{OutcomeInfo, OutcomeMeta, canonical}
use hyperliquid_go.Info.Registry.{
  AssetInfo, SpotAssetInfo, register_name, register_decimals, register_perps, register_spot,
  register_spots, base_decimals, friendly, register_prefixed, register_side, register_sides,
  register_outcome, register_outcomes, with_outcomes,
}

-- A name that stands for itself and for an asset.
abbrev pub Stands : Str → ℕ → Tables → Type 0
Stands name k t = (lookup name t.coin_to_asset ≡ some k) × (lookup name t.name_to_coin ≡ some name)

pub Stands-asset_id : (name : Str) (k : ℕ) (t : Tables) → Stands name k t → asset_id t name ≡ k
unfolding asset_id
Stands-asset_id name k t (p, q) = rw (q, p) refl

register_name-Stands :
    (name : Str) (k : ℕ) (t : Tables) → Stands name k (register_name name name k t)
unfolding register_name
register_name-Stands name k t =
    (lookup-insert_self name k t.coin_to_asset, lookup-insert_self name name t.name_to_coin)

register_name-keeps :
    (other coin name : Str) (asset k : ℕ) (t : Tables)
    → other ≢ name
    → Stands name k t
    → Stands name k (register_name other coin asset t)
unfolding register_name
register_name-keeps other coin name asset k t n (p, q) = (
  lookup-insert_ne other name asset t.coin_to_asset n ∙ p,
  lookup-insert_ne other name coin t.name_to_coin n ∙ q,
)

register_decimals-keeps :
    (name : Str) (k asset d : ℕ) (t : Tables)
    → Stands name k t
    → Stands name k (register_decimals asset d t)
unfolding register_decimals
register_decimals-keeps name k asset d t h = h

-- No perp of the universe has the name.
abbrev NotPerp : Str → List AssetInfo → Type 0
NotPerp name = All λ a. a.name ≢ name

register_perps-keeps :
    (name : Str) (k asset : ℕ) (u : List AssetInfo) (t : Tables)
    → NotPerp name u
    → Stands name k t
    → Stands name k (register_perps asset u t)
unfolding register_perps
register_perps-keeps name k asset [] t n h = h
register_perps-keeps name k asset (a ∷ u) t (n, ns) h =
    register_perps-keeps name k (suc asset) u _ ns (
      register_decimals-keeps name k asset a.sz_decimals _
        (register_name-keeps a.name a.name name asset k t n h))

-- The perp at the place i is the last one of its name.
abbrev pub IsLast : Str → ℕ → List AssetInfo → Type 0
IsLast name i [] = Unit
IsLast name zero (a ∷ u) = NotPerp name u
IsLast name (suc i) (a ∷ u) = IsLast name i u

pub register_perps-Stands :
    (u : List AssetInfo) (i asset k : ℕ) (a : AssetInfo) (t : Tables)
    → get_elem? u i ≡ some a
    → asset + i ≡ k
    → IsLast a.name i u
    → Stands a.name k (register_perps asset u t)
unfolding register_perps
register_perps-Stands [] i asset k a t e h l = cc
register_perps-Stands (b ∷ u) zero asset k a t e h l =
    let q : b ≡ a = cc in
    let r : asset ≡ k = omega (arith, h) in
    register_perps-keeps a.name k (suc asset) u _ l (
      register_decimals-keeps a.name k asset b.sz_decimals _ (
        subst (λ (x : AssetInfo). Stands a.name k (register_name x.name x.name asset t)) (sym q)
          (subst (λ x. Stands a.name k (register_name a.name a.name x t)) (sym r)
            (register_name-Stands a.name k t))))
register_perps-Stands (b ∷ u) (suc i) asset k a t e h l =
    register_perps-Stands u i (suc asset) k a _ e (omega (arith, h)) l

-- No spot asset of the universe has the name.
abbrev pub NotSpotName : Str → List SpotAssetInfo → Type 0
NotSpotName name = All λ s. s.name ≢ name

register_spot-keeps :
    (name : Str) (k : ℕ) (ds : List ℕ) (s : SpotAssetInfo) (t : Tables)
    → s.name ≢ name
    → Stands name k t
    → Stands name k (register_spot ds s t)
unfolding register_spot register_decimals
register_spot-keeps name k ds s t n h =
    let asset = s.index + asset_spot_offset in
    let q = register_name-keeps s.name s.name name asset k t n h in
    elim (base_decimals s.tokens ds)
      as (λ o. Stands name k (elim o [
        | none ↦ register_name s.name s.name asset t
        | some d ↦ register_decimals asset d (register_name s.name s.name asset t)
      ])) [ none ↦ q | some d ↦ q ]

pub register_spots-keeps :
    (name : Str) (k : ℕ) (ds : List ℕ) (u : List SpotAssetInfo) (t : Tables)
    → NotSpotName name u
    → Stands name k t
    → Stands name k (register_spots ds u t)
unfolding register_spots
register_spots-keeps name k ds [] t n h = h
register_spots-keeps name k ds (s ∷ u) t (n, ns) h =
    register_spots-keeps name k ds u _ ns (register_spot-keeps name k ds s t n h)

-- No name that ends in one of the sides after a colon is this one, and no canonical name is.
abbrev NotSides : Str → List Str → Type 0
NotSides name = All λ side. (p : Str) → friendly p side ≢ name

abbrev NotCanonical : Str → Type 0
NotCanonical name = (e : ℕ) → canonical e ≢ name

abbrev pub NotOutcome : Str → Option OutcomeMeta → Type 0
NotOutcome name none = Unit
NotOutcome name (some meta) =
    NotCanonical name × All (λ (oc : OutcomeInfo). NotSides name oc.side_specs) meta.outcomes

register_prefixed-keeps :
    (name : Str) (k : ℕ) (p : Option Str) (side coin : Str) (asset : ℕ) (t : Tables)
    → ((q : Str) → friendly q side ≢ name)
    → Stands name k t
    → Stands name k (register_prefixed p side coin asset t)
unfolding register_prefixed
register_prefixed-keeps name k none side coin asset t n h = h
register_prefixed-keeps name k (some p) side coin asset t n h =
    register_name-keeps (friendly p side) coin name asset k t (n p) h

register_sides-keeps :
    (name : Str) (k : ℕ) (oc : OutcomeInfo) (p : Option Str) (i : ℕ) (sides : List Str) (t : Tables)
    → NotCanonical name
    → NotSides name sides
    → Stands name k t
    → Stands name k (register_sides oc p i sides t)
unfolding register_sides register_side
register_sides-keeps name k oc p i [] t c n h = h
register_sides-keeps name k oc p i (side ∷ sides) t c (n, ns) h =
    let enc = 10 * oc.outcome + i in
    let asset = asset_outcome_base + enc in
    register_sides-keeps name k oc p (suc i) sides _ c ns (
      register_decimals-keeps name k asset 0 _ (
        register_name-keeps (canonical enc) (canonical enc) name asset k _ (c enc) (
          register_prefixed-keeps name k p side (canonical enc) asset _ n (
            register_name-keeps (friendly oc.name side) (canonical enc) name asset k t (n oc.name)
              h))))

register_outcomes-keeps :
    (name : Str) (k : ℕ) (meta : OutcomeMeta) (ocs : List OutcomeInfo) (t : Tables)
    → NotCanonical name
    → All (λ (oc : OutcomeInfo). NotSides name oc.side_specs) ocs
    → Stands name k t
    → Stands name k (register_outcomes meta ocs t)
unfolding register_outcomes register_outcome
register_outcomes-keeps name k meta [] t c n h = h
register_outcomes-keeps name k meta (oc ∷ ocs) t c (n, ns) h =
    register_outcomes-keeps name k meta ocs _ c ns
      (register_sides-keeps name k oc _ 0 oc.side_specs t c n h)

pub with_outcomes-keeps :
    (name : Str) (k : ℕ) (o : Option OutcomeMeta) (t : Tables)
    → NotOutcome name o
    → Stands name k t
    → Stands name k (with_outcomes o t)
unfolding with_outcomes
with_outcomes-keeps name k none t n h = h
with_outcomes-keeps name k (some meta) t (c, n) h =
    register_outcomes-keeps name k meta meta.outcomes t c n h
