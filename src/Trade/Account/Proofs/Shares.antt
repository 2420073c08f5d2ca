-- ===== src/Trade/Account/Proofs/Shares.antt =====
-- What the outcome share operations post, and when they refuse.
use hyperliquid_go.Base.{
  ℕ, ◌≡◌, ◌⊎◌, inl, inr, refl, true, false, Bool-cases, none, some, err, if◌then◌else◌,
}
use hyperliquid_go.Float.{le, zero_f}
use hyperliquid_go.Wire.{format_usd_amount}
use hyperliquid_go.Trade.Client.{
  Env, Config, St, M, Action, bad_amount, throw, split_outcome, merge_outcome, merge_question,
  negate_outcome,
}
use hyperliquid_go.Trade.Client.Bind.{bind_cases}
use hyperliquid_go.Trade.Place.Posts.{Posted}
use hyperliquid_go.Trade.Account.Toolkit.{Toolkit, l1_call}
use hyperliquid_go.Trade.Account.Outcomes.{
  Submission, submit_outcome, split_shares, merge_shares, merge_all, negate_shares,
}
use hyperliquid_go.Trade.Account.Proofs.Calls.{l1_call-Posted}

module _ (env : Env) (kit : Toolkit env.fl.F env.World) (cfg : Config) where
  open env use {World, fl}
  open fl use {F}

  -- Nothing is posted, or the action alone, signed for the client's vault.
  abbrev pub Once : Action → St World → St World → Type 0
  Once a s s' = (s'.posted ≡ s.posted) ⊎ Posted env cfg cfg.vault a s s'

  -- An operation with an amount: it fails in the state it started in where the amount is not
  -- positive, and else posts its action once or not at all.
  abbrev pub Guarded : F → Action → M World Submission → St World → Type 0
  Guarded amount a m s =
      ((le fl amount (zero_f fl) ≡ true) × (m s ≡ (s, err bad_amount)))
      ⊎ ((le fl amount (zero_f fl) ≡ false) × Once a s (m s).0)

  submit_outcome-Once : (a : Action) (s : St World) → Once a s (submit_outcome env kit cfg a s).0
  unfolding submit_outcome
  submit_outcome-Once a s =
      bind_cases (l1_call env kit cfg cfg.vault a kit.decode_transfer) _ s (λ t. Once a s t.0)
        (λ e h. l1_call-Posted env kit cfg cfg.vault a kit.decode_transfer s)
        (λ r h. l1_call-Posted env kit cfg cfg.vault a kit.decode_transfer s)

  guarded :
      (amount : F) (a : Action) (s : St World)
      → Guarded amount a
          (if le fl amount (zero_f fl) then throw bad_amount else submit_outcome env kit cfg a)
          s
  guarded amount a s = elim (Bool-cases (le fl amount (zero_f fl))) [
    | inl e ↦ inl (e, rw e refl)
    | inr e ↦ inr (e, rw e (submit_outcome-Once a s))
  ]

  -- A split, a merge, a merge of a question and a negation with an amount fail without a post where
  -- the amount is zero or less, and else post their action with the amount's text once, for the
  -- client's vault, or nothing; a merge without an amount posts its action without one, or nothing.
  pub shares-Guarded :
      (question outcome : ℕ) (amount : F) (s : St World)
      → let x = format_usd_amount fl amount in
        Guarded amount (split_outcome outcome x) (split_shares env kit cfg outcome amount) s
        × Guarded amount
            (merge_outcome outcome (some x))
            (merge_shares env kit cfg outcome (some amount))
            s
        × Guarded amount
            (merge_question question (some x))
            (merge_all env kit cfg question (some amount))
            s
        × Guarded amount
            (negate_outcome question outcome x)
            (negate_shares env kit cfg question outcome amount)
            s
        × Once (merge_outcome outcome none) s (merge_shares env kit cfg outcome none s).0
        × Once (merge_question question none) s (merge_all env kit cfg question none s).0
  unfolding split_shares merge_shares merge_all negate_shares
  shares-Guarded question outcome amount s = (
    guarded amount _ s,
    guarded amount _ s,
    guarded amount _ s,
    guarded amount _ s,
    submit_outcome-Once _ s,
    submit_outcome-Once _ s,
  )
