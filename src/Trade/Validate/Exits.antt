-- ===== src/Trade/Validate/Exits.antt =====
-- What the position checks guarantee of a reduce-only order and of a close.
use hyperliquid_go.Base.{
  ◌≡◌, refl, true, false, Bool, ok, some, none, arith, Option-cases, inl, inr, fail_if, ◌&&◌, not,
  if_eq_true, sym, ◌∙◌,
}
use hyperliquid_go.Base.Text.{codes}
use hyperliquid_go.Float.{Float, zero_f, is_pos}
use hyperliquid_go.Types.{OrderSpec, is_buy}
use hyperliquid_go.Trade.Client.{
  UserState, no_position, wrong_side_for_reduce, close_size_exceeds_position,
}
use hyperliquid_go.Trade.Validate.{
  is_method, position_for, reduce_rules, close_rules, position_rules, validate_position_state,
}
use hyperliquid_go.Trade.Validate.Bracket.{and_then-ok}

fail_if-ok {ℓ} : {E : Type ℓ} (b : Bool) (e : E) → fail_if b e ≡ ok tt → b ≡ false
fail_if-ok true e h = cc
fail_if-ok false e h = refl

module _ (fl : Float) where
  open fl use {F, lt, eq, abs}

  -- The order does not add to a position of size `szi`.
  abbrev pub Reduces : OrderSpec F → F → Type 0
  Reduces spec szi =
      (is_buy spec.side ≡ true → is_pos fl szi ≡ false)
      × (is_buy spec.side ≡ false → lt szi (zero_f fl) ≡ false)

  reduce_rules-Reduces :
      (spec : OrderSpec F) (szi : F)
      → spec.reduce_only ≡ true
      → reduce_rules fl spec szi ≡ ok tt
      → Reduces spec szi
  unfolding reduce_rules
  reduce_rules-Reduces spec szi r h =
      let (p, q) =
        and_then-ok
          (fail_if (spec.reduce_only && (is_buy spec.side && is_pos fl szi)) wrong_side_for_reduce)
          _ h in
      let p' = fail_if-ok _ wrong_side_for_reduce p in
      let q' =
        fail_if-ok (spec.reduce_only && (not (is_buy spec.side) && lt szi (zero_f fl)))
          wrong_side_for_reduce q in
      ground arith

  close_rules-ok :
      (spec : OrderSpec F) (szi : F)
      → close_rules fl spec szi ≡ ok tt
      → (eq szi (zero_f fl) ≡ false)
        × (is_pos fl spec.override_size ≡ true → lt (abs szi) spec.override_size ≡ false)
  unfolding close_rules
  close_rules-ok spec szi h =
      let (p, q) = and_then-ok (fail_if (eq szi (zero_f fl)) no_position) _ h in
      let p' = fail_if-ok (eq szi (zero_f fl)) no_position p in
      let q' =
        fail_if-ok (is_pos fl spec.override_size && lt (abs szi) spec.override_size)
          close_size_exceeds_position q in
      ground arith

  refused :
      (spec : OrderSpec F)
      → is_method fl spec (codes "close") ≡ true
      → position_rules fl spec none ≡ ok tt
      → ⊥
  unfolding position_rules
  refused spec c h = ground arith

  close_rules-at :
      (spec : OrderSpec F) (szi : F)
      → is_method fl spec (codes "close") ≡ true
      → position_rules fl spec (some szi) ≡ ok tt
      → (reduce_rules fl spec szi ≡ ok tt) × (close_rules fl spec szi ≡ ok tt)
  unfolding position_rules
  close_rules-at spec szi c h =
      let (a, b) = and_then-ok (reduce_rules fl spec szi) _ h in (a, sym (if_eq_true _ _ _ c) ∙ b)

  -- With a user state in the cache, a reduce-only close passes the position checks only where there
  -- is a position in its coin, of a size that is not zero, to which the order does not add, and whose
  -- absolute size a size set by option does not exceed.
  pub validate_position_state-close :
      (spec : OrderSpec F) (u : UserState)
      → spec.reduce_only ≡ true
      → is_method fl spec (codes "close") ≡ true
      → validate_position_state fl spec (some u) ≡ ok tt
      → (szi : F) × (position_for fl u.positions spec.coin ≡ some szi)
        × Reduces spec szi
        × (eq szi (zero_f fl) ≡ false)
        × (is_pos fl spec.override_size ≡ true → lt (abs szi) spec.override_size ≡ false)
  unfolding validate_position_state
  validate_position_state-close spec u r c h =
      elim (Option-cases (position_for fl u.positions spec.coin)) [
        | inl e ↦ absurd (refused spec c (rw e at h))
        | inr (szi, e) ↦
            let (a, b) = close_rules-at spec szi c (rw e at h) in
            let (x, y) = close_rules-ok spec szi b in
            (szi, e, reduce_rules-Reduces spec szi r a, x, y)
      ]
