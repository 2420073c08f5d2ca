-- ===== src/Trade/Account/Proofs/Pairs.antt =====
-- The pair that `findSpotPair` finds.
use hyperliquid_go.Base.{
  if_eq_false, subst, if_eq_true, ◌≡◌, refl, sym, ◌∙◌, ap, ◌⊎◌, inl, inr, Bool, Bool-cases, none,
  some, List, [], ◌∷◌, arith, Any, true, false, ==_iff,
}
use hyperliquid_go.Base.Text.{Str}
use hyperliquid_go.Base.Int.{ℤ, int_eq, pos, negsuc, ltb_ℤ}
use hyperliquid_go.Trade.Account.Toolkit.{SpotToken, SpotPair, SpotUniverse}
use hyperliquid_go.Trade.Account.Convert.{starts_with, token_index, pair_of, find_pair}

some_inj : (a b : Str) → some a ≡ some b → a ≡ b
some_inj a b h = cc

-- The first two tokens of a pair.
abbrev pub Trades : ℤ → ℤ → Str → SpotPair → Type 0
Trades base quote name p = (p.name ≡ name) × ((more : List ℤ) × (p.tokens ≡ base ∷ quote ∷ more))

starts_with-tokens :
    (base quote : ℤ) (ts : List ℤ)
    → starts_with base quote ts ≡ true
    → (more : List ℤ) × (ts ≡ base ∷ quote ∷ more)
unfolding starts_with
starts_with-tokens base quote [] h = cc
starts_with-tokens base quote (b ∷ []) h = cc
starts_with-tokens base quote (b ∷ q ∷ more) h =
    let e : (b ≡ base) × (q ≡ quote) = ground (arith, ==_iff b base, ==_iff q quote) in
    (more, rw (e.0, e.1) refl)

pair_of-Trades :
    (base quote : ℤ) (ps : List SpotPair) (name : Str)
    → pair_of base quote ps ≡ some name
    → Any (Trades base quote name) ps
unfolding pair_of
pair_of-Trades base quote [] name h = cc
pair_of-Trades base quote (p ∷ ps) name h = elim (Bool-cases (starts_with base quote p.tokens)) [
  | inl e ↦
      let k : some p.name ≡ some name = rw (← h, pair_of, e) refl in
      inl (some_inj _ _ k, starts_with-tokens base quote p.tokens e)
  | inr e ↦ inr (pair_of-Trades base quote ps name (rw (← h, pair_of, e) refl))
]

module _ (equal_fold : Str → Str → Bool) where
  -- A token of that name, in any case of its letters, under that index.
  abbrev pub HasIndex : Str → ℤ → SpotToken → Type 0
  HasIndex name index t = (equal_fold t.name name ≡ true) × (t.index ≡ index)

  token_index-HasIndex :
      (name : Str) (ts : List SpotToken) (found : ℤ)
      → (token_index equal_fold name ts found ≡ found)
        ⊎ Any (HasIndex name (token_index equal_fold name ts found)) ts
  unfolding token_index
  token_index-HasIndex name [] found = inl refl
  token_index-HasIndex name (t ∷ ts) found = elim (Bool-cases (equal_fold t.name name)) [
    | inl e ↦
        let k = ap (λ (i : ℤ). token_index equal_fold name ts i) (if_eq_true _ t.index found e) in
        subst (λ (x : ℤ). (x ≡ found) ⊎ Any (HasIndex name x) (t ∷ ts)) (sym k)
          (elim (token_index-HasIndex name ts t.index) [
            | inl i ↦ inr (inl (e, sym i))
            | inr a ↦ inr (inr a)
          ])
    | inr e ↦
        let k = ap (λ (i : ℤ). token_index equal_fold name ts i) (if_eq_false _ t.index found e) in
        subst (λ (x : ℤ). (x ≡ found) ⊎ Any (HasIndex name x) (t ∷ ts)) (sym k)
          (elim (token_index-HasIndex name ts found) [ inl i ↦ inl i | inr a ↦ inr (inr a) ])
  ]

  found_token :
      (name : Str) (ts : List SpotToken)
      → ltb_ℤ (token_index equal_fold name ts (negsuc 0)) (pos 0) ≡ false
      → Any (HasIndex name (token_index equal_fold name ts (negsuc 0))) ts
  found_token name ts h = elim (token_index-HasIndex name ts (negsuc 0)) [
    | inl e ↦ let k : true ≡ false = sym (ap (λ (i : ℤ). ltb_ℤ i (pos 0)) e) ∙ h in absurd cc
    | inr a ↦ a
  ]

  -- A pair that is found stands in the universe under the name given, and its first two tokens are
  -- the indices of tokens with the names asked for.
  pub find_pair-Trades :
      (base quote name : Str) (u : SpotUniverse)
      → find_pair equal_fold base quote u ≡ some name
      → (b : ℤ) × (q : ℤ) × Any (HasIndex base b) u.tokens
        × Any (HasIndex quote q) u.tokens
        × Any (Trades b q name) u.pairs
  unfolding find_pair
  find_pair-Trades base quote name u h =
      let b = token_index equal_fold base u.tokens (negsuc 0) in
      let q = token_index equal_fold quote u.tokens (negsuc 0) in
      elim (Bool-cases (ltb_ℤ b (pos 0))) [
        | inl e ↦ let k : none ≡ some name = rw (← h, find_pair, e) refl in cc
        | inr e ↦ elim (Bool-cases (ltb_ℤ q (pos 0))) [
          | inl f ↦ let k : none ≡ some name = rw (← h, find_pair, e, f) refl in cc
          | inr f ↦ (
            b,
            q,
            found_token base u.tokens e,
            found_token quote u.tokens f,
            pair_of-Trades b q u.pairs name (rw (← h, find_pair, e, f) refl),
          )
        ]
      ]
