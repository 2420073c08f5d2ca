-- ===== src/Trade/Place/Verbs.antt =====
-- The one-line verbs of trade/place.go over `place`.
use hyperliquid_go.Base.{List}
use hyperliquid_go.Base.Text.{Str}
use hyperliquid_go.Types.{OrderResult, Side}
use hyperliquid_go.Trade.Spec.{PlaceOpt, alo, ioc, gtc, trigger}
use hyperliquid_go.Trade.Client.{Env, Config, M}
use hyperliquid_go.Trade.Place.{place}

module _ (env : Env) (cfg : Config) where
  open env use {World, fl}
  open fl use {F}

  -- `PlaceALO`
  unfoldable pub place_alo : Str → Side → F → F → List (PlaceOpt F) → M World OrderResult
  place_alo coin side size px opts = place env cfg (alo fl coin side size px opts)

  -- `PlaceIOC`
  unfoldable pub place_ioc : Str → Side → F → F → List (PlaceOpt F) → M World OrderResult
  place_ioc coin side size px opts = place env cfg (ioc fl coin side size px opts)

  -- `PlaceGTC`
  unfoldable pub place_gtc : Str → Side → F → F → List (PlaceOpt F) → M World OrderResult
  place_gtc coin side size px opts = place env cfg (gtc fl coin side size px opts)

  -- `PlaceTrigger`
  unfoldable pub place_trigger : Str → Side → F → F → List (PlaceOpt F) → M World OrderResult
  place_trigger coin side size trigger_px opts =
      place env cfg (trigger fl coin side size trigger_px opts)
