-- ===== src/Stream/Proofs/Routing.antt =====
-- Which callbacks a message reaches.
use hyperliquid_go.Stream.Proofs.Matching.{Belongs}
use hyperliquid_go.Base.{ℕ, ◌≡◌, str_eq, Any}
use hyperliquid_go.Base.Dict.{Dict}
use hyperliquid_go.Base.Int.{ℤ}
use hyperliquid_go.Stream.Messages.{SubKey, WsMessage}
use hyperliquid_go.Stream.State.{Net, Stream}

module _ (net : Net) where
  open net use {World}

  -- `cb` stands in a map of listeners.
  abbrev pub Listens : ℕ → Dict ℤ ℕ → Type 0
  Listens cb subs = Any (λ (id, c). c ≡ cb) subs

  -- `cb` listens under a key that the message belongs to.
  abbrev pub IsAddressed : WsMessage → ℕ → Dict SubKey (Dict ℤ ℕ) → Type 0
  IsAddressed msg cb m = Any (λ (k, subs). Belongs net k msg × Listens cb subs) m
