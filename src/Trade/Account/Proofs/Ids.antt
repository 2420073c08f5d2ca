-- ===== src/Trade/Account/Proofs/Ids.antt =====
-- The outcome id of a canonical name.
use hyperliquid_go.Base.{
  ℕ, ◌+◌, ◌*◌, ◌/◌, ◌<◌, ◌^◌, ◌≡◌, refl, ◌∙◌, ap, some, none, [], ◌∷◌, arith, nat_eq,
}
use hyperliquid_go.Base.Text.{Str}
use hyperliquid_go.Base.Decimal.{decimal, parse_uint, parse_uint-decimal}
use hyperliquid_go.Info.Outcome.{canonical}
use hyperliquid_go.Trade.Account.Outcomes.{outcome_id_from_canonical}

id_of_digits :
    (s : Str) (enc : ℕ)
    → parse_uint s ≡ some enc
    → outcome_id_from_canonical (b'#' ∷ s) ≡ some (enc / 10)
unfolding outcome_id_from_canonical parse_uint
id_of_digits [] enc h = let k : none ≡ some enc = rw (← h, parse_uint) refl in cc
id_of_digits (d ∷ rest) enc h = rw (h, outcome_id_from_canonical) refl

-- The outcome id of the canonical name of a side below ten is the outcome, where the number in the
-- name fits an uint64.
pub outcome_id_from_canonical-canonical :
    (outcome side : ℕ)
    → side < 10
    → 10 * outcome + side < 2 ^ 64
    → outcome_id_from_canonical (canonical (10 * outcome + side)) ≡ some outcome
unfolding canonical
outcome_id_from_canonical-canonical outcome side h l =
    id_of_digits (decimal (10 * outcome + side)) _ (parse_uint-decimal (10 * outcome + side) l)
    ∙ ap (λ (n : ℕ). some n) (omega (arith, h))
