-- ===== src/Info/Proofs/Questions.antt =====
-- The question that `FindQuestion` finds.
use hyperliquid_go.Base.{
  ℕ, ◌≡◌, refl, ◌∙◌, inl, inr, ◌⊎◌, true, false, ◌||◌, Bool-cases, Option, none, some, List, [],
  ◌∷◌, arith, All, Any, ◌==◌, ==_iff, nat_eq, if_eq_true, if_eq_false,
}
use hyperliquid_go.Info.Outcome.{Question, OutcomeMeta, names_outcome, find_in, find_question}

-- The outcome is the question's fallback, or one of its named outcomes.
abbrev pub Owns : ℕ → Question → Type 0
Owns o q = (q.fallback_outcome ≡ o) ⊎ Any (λ n. n ≡ o) q.named_outcomes

names_outcome-Any :
    (o : ℕ) (ns : List ℕ)
    → ((names_outcome o ns ≡ true) → Any (λ n. n ≡ o) ns)
      × ((names_outcome o ns ≡ false) → ¬ (Any (λ n. n ≡ o) ns))
unfolding names_outcome
names_outcome-Any o [] = ((λ h. cc), (λ h a. a))
names_outcome-Any o (n ∷ ns) = ground (arith, names_outcome-Any o ns, ==_iff n o)

Owns-test :
    (o : ℕ) (q : Question)
    → ((q.fallback_outcome == o || names_outcome o q.named_outcomes ≡ true) → Owns o q)
      × ((q.fallback_outcome == o || names_outcome o q.named_outcomes ≡ false) → ¬ (Owns o q))
Owns-test o q = ground (arith, names_outcome-Any o q.named_outcomes, ==_iff q.fallback_outcome o)

-- What was found: a question of the list that owns the outcome, or none, and then none owns it.
abbrev pub Found : ℕ → List Question → Option Question → Type 0
Found o qs found =
    ((q : Question) × (found ≡ some q) × Any (λ r. (r ≡ q) × Owns o r) qs)
    ⊎ ((found ≡ none) × All (λ r. ¬ (Owns o r)) qs)

find_in-Found : (o : ℕ) (qs : List Question) → Found o qs (find_in qs o)
unfolding find_in
find_in-Found o [] = inr (refl, tt)
find_in-Found o (q ∷ qs) =
    let b = q.fallback_outcome == o || names_outcome o q.named_outcomes in
    elim (Bool-cases b) [
      | inl e ↦ inl (q, if_eq_true b _ _ e, inl (refl, (Owns-test o q).0 e))
      | inr e ↦
          let k = if_eq_false b (some q) (find_in qs o) e in
          elim (find_in-Found o qs) [
            | inl (r, f, m) ↦ inl (r, k ∙ f, inr m)
            | inr (f, a) ↦ inr (k ∙ f, ((Owns-test o q).1 e, a))
          ]
    ]

-- Either `FindQuestion` finds a question of the metadata that owns the outcome, or it finds none and
-- no question of the metadata owns it.
pub find_question-Found :
    (meta : OutcomeMeta) (o : ℕ) → Found o meta.questions (find_question (some meta) o)
unfolding find_question
find_question-Found meta o = find_in-Found o meta.questions
