-- ===== src/Tests/Questions.antt =====
-- Concrete runs of the outcome questions and of the registration.
use hyperliquid_go.Info.Proofs.Descriptions.{
  parse_outcome_description-print_pairs, IsPair, insert_pairs, print_pairs,
}
use hyperliquid_go.Base.{
  ◌<◌, arith, ℕ, ◌+◌, ◌*◌, none, some, [], ◌∷◌, ◌≡◌, ◌≢◌, refl, inl, inr, arith, str_beq,
}
use hyperliquid_go.Base.Text.{Str, codes, split, index_of, take, drop}
use hyperliquid_go.Base.Dict.{insert, lookup}
use hyperliquid_go.Types.Asset.{asset_outcome_base}
use hyperliquid_go.Info.{asset_id, sz_decimals}
use hyperliquid_go.Info.Outcome.{
  bucket_labels_from_thresholds, parse_outcome_description, add_pairs, add_pair, threshold_labels,
  labels_after, OutcomeInfo, Question, OutcomeMeta, canonical, bucket_label, question_labels,
  buckets, question_buckets, panics, find_question,
}
use hyperliquid_go.Info.Registry.{Answers, InfoClient, new_client, or_panic, given_or, perp_base}
use hyperliquid_go.Info.Proofs.Labels.{labels_in_range}
use hyperliquid_go.Info.Proofs.Questions.{Found, find_question-Found}
use hyperliquid_go.Info.Proofs.Registered.{new_client-canonical, built}

abbrev below : OutcomeInfo
below = record { outcome = 4; name = codes "B"; side_specs = codes "Yes" ∷ codes "No" ∷ [] }

abbrev above : OutcomeInfo
above = record { outcome = 5; name = codes "B"; side_specs = codes "Yes" ∷ codes "No" ∷ [] }

abbrev price : Question
price = record {
  name = codes "BTC";
  description = codes "class:priceBucket|priceThresholds:90";
  fallback_outcome = 9;
  named_outcomes = 4 ∷ 5 ∷ [];
}

abbrev markets : OutcomeMeta
markets = record { outcomes = below ∷ above ∷ []; questions = price ∷ [] }

abbrev pub answers : Answers
answers = record {
  meta = λ dex. some (record { name = codes "BTC"; sz_decimals = 5 } ∷ []);
  spot_meta = some (record {
    universe = record { name = codes "@1"; tokens = []; index = 1 } ∷ [];
    token_decimals = [];
  });
  perp_dexs = none;
  outcome_meta = some markets;
  dex_name = λ raw. none;
}

-- The labels of a question with one threshold.
question_labels-price :
    question_labels (some markets) (some price) ≡ some (codes "Below 90" ∷ codes "Above 90" ∷ [])
unfolding question_labels bucket_labels_from_thresholds parse_outcome_description add_pairs add_pair
    split index_of take drop insert lookup threshold_labels labels_after str_beq
question_labels-price = refl

labels_in_range_example :
    ((label : Str) × (bucket_label (some markets) 5 ≡ some label))
    × (buckets price ≢ panics)
    × (question_buckets (some markets) (some price) ≢ panics)
labels_in_range_example = labels_in_range (some markets) 5 price (some price)

find_question-Found_example : Found 5 markets.questions (find_question (some markets) 5)
find_question-Found_example = find_question-Found markets 5

abbrev pub registered : InfoClient
registered =
    built answers [] (record { name = codes "BTC"; sz_decimals = 5 } ∷ [])
      (record {
        universe = record { name = codes "@1"; tokens = []; index = 1 } ∷ [];
        token_decimals = [];
      })
      0

new_client-canonical_example :
    (asset_id registered.tables (canonical (10 * 5 + 1)) ≡ asset_outcome_base + (10 * 5 + 1))
    × (sz_decimals registered.tables (asset_outcome_base + (10 * 5 + 1)) ≡ 0)
unfolding new_client or_panic given_or perp_base str_beq
new_client-canonical_example =
    new_client-canonical answers none none none [] registered markets above 1 refl refl
      (inr (inl refl)) (omega arith)

letter-IsPair : (c : ℕ) → 100 < c → c < 123 → IsPair (c ∷ [], c ∷ [])
letter-IsPair c l u = (
  ((λ h. cc), (((λ e. omega (arith, e, l)), (λ e. omega (arith, e, u))), tt)),
  ((λ h. cc), ((λ e. omega (arith, e, u)), tt)),
)

abbrev k_pair : Str × Str
k_pair = (codes "k", codes "k")

abbrev l_pair : Str × Str
l_pair = (codes "l", codes "l")

parse_outcome_description-print_pairs_example :
    parse_outcome_description (print_pairs k_pair (l_pair ∷ []))
    ≡ insert_pairs (k_pair ∷ l_pair ∷ []) []
parse_outcome_description-print_pairs_example =
    parse_outcome_description-print_pairs k_pair (l_pair ∷ []) (
      letter-IsPair 107 (omega arith) (omega arith),
      (letter-IsPair 108 (omega arith) (omega arith), tt),
    )
