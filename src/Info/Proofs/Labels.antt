-- ===== src/Info/Proofs/Labels.antt =====
-- The labels of a question match its outcomes one by one, so no index runs out of range.
use hyperliquid_go.Base.{
  ℕ, ◌+◌, ◌≡◌, refl, ◌∙◌, sym, ap, ◌≢◌, inl, inr, Bool, true, false, not, Bool-cases, Option-cases,
  Option, none, some, List, [], ◌∷◌, arith, length, ◌==◌, ◌++◌, ==_iff, nat_eq, nat_beq, if_eq_true,
  if_eq_false, if◌then◌else◌, str_eq,
}
use hyperliquid_go.Base.Dict.{Dict, lookup}
use hyperliquid_go.Base.Text.{Str, codes, split}
use hyperliquid_go.Info.{or_empty}
use hyperliquid_go.Info.Outcome.{
  name_index, bucket_of, buckets_of, Question, OutcomeMeta, labels_after, threshold_labels,
  bucket_labels_from_thresholds, names_from, names_for_outcomes, question_labels, label_at,
  bucket_label, find_question, make_buckets, panics, buckets_from, buckets, question_buckets,
  parse_outcome_description, Bucket,
}

length-labels_after : (t : Str) (ts : List Str) → length (labels_after t ts) ≡ length ts + 1
unfolding labels_after
length-labels_after t [] = omega arith
length-labels_after t (u ∷ us) = omega (arith, length-labels_after u us)

split-cons : (sep : ℕ) (s : Str) → (t : Str) × (ts : List Str) × (split sep s ≡ t ∷ ts)
unfolding split
split-cons sep [] = ([], [], refl)
split-cons sep (c ∷ s) =
    let (t, ts, e) = split-cons sep s in
    elim (Bool-cases (nat_beq c sep)) [
      | inl b ↦ ([], split sep s, if_eq_true (nat_beq c sep) _ _ b)
      | inr b ↦ (c ∷ t, ts, if_eq_false (nat_beq c sep) _ _ b ∙ rw e refl)
    ]

length-threshold_labels :
    (sep : ℕ) (s : Str) → length (threshold_labels (split sep s)) ≡ length (split sep s) + 1
unfolding threshold_labels
length-threshold_labels sep s =
    let (t, ts, e) = split-cons sep s in rw e (omega (arith, length-labels_after t ts))

guards :
    (a b c : Bool) (x labels : List Str)
    → (if not a then none else if b then none else if not c then none else some x) ≡ some labels
    → (c ≡ true) × (x ≡ labels)
guards true false true x labels h = (refl, cc)
guards false b c x labels h = cc
guards true true c x labels h = cc
guards true false false x labels h = cc

length-bucket_labels :
    (q : Question) (labels : List Str)
    → bucket_labels_from_thresholds q ≡ some labels
    → length labels ≡ length q.named_outcomes
unfolding bucket_labels_from_thresholds
length-bucket_labels q labels h =
    let ts =
      split b','
        (or_empty (lookup (codes "priceThresholds") (parse_outcome_description q.description))) in
    let (c, e) =
      guards _ _ (length q.named_outcomes == length ts + 1) (threshold_labels ts) labels h in
    sym (ap (λ (l : List Str). length l) e)
    ∙ length-threshold_labels b',' _
    ∙ sym ((==_iff (length q.named_outcomes) (length ts + 1)).0 c)

name_and_rest :
    (b : Bool) (n : Str) (o : Option (List Str)) (names : List Str)
    → (if b then none else elim o [ none ↦ none | some rest ↦ some (n ∷ rest) ]) ≡ some names
    → (rest : List Str) × (o ≡ some rest) × (names ≡ n ∷ rest)
name_and_rest true n o names h = cc
name_and_rest false n none names h = cc
name_and_rest false n (some rest) names h = (rest, refl, cc)

length-names_from :
    (m : Dict ℕ Str) (os : List ℕ) (names : List Str)
    → names_from m os ≡ some names
    → length names ≡ length os
unfolding names_from
length-names_from m [] names h = ground (arith, h)
length-names_from m (o ∷ os) names h =
    let n = or_empty (lookup o m) in
    let (rest, e, p) = name_and_rest (n == []) n (names_from m os) names h in
    omega (arith, length-names_from m os rest e, ap (λ (l : List Str). length l) p)

-- `QuestionLabels` gives as many labels as the question has named outcomes.
pub length-question_labels :
    (meta : Option OutcomeMeta) (q : Question) (labels : List Str)
    → question_labels meta (some q) ≡ some labels
    → length labels ≡ length q.named_outcomes
unfolding question_labels names_for_outcomes
length-question_labels none q labels h = cc
length-question_labels (some meta) q labels h = elim (Bool-cases (length q.named_outcomes == 0)) [
  | inl e ↦ let k : none ≡ some labels = rw (← h, question_labels, e) refl in cc
  | inr e ↦ elim (Option-cases (bucket_labels_from_thresholds q)) [
    | inl o ↦
        length-names_from (name_index meta.outcomes []) q.named_outcomes labels
          (rw (← h, question_labels, e, o) refl)
    | inr (ls, o) ↦ length-bucket_labels q labels (o ∙ rw (← h, question_labels, e, o) refl)
  ]
]

label_at-some :
    (o : ℕ) (ns : List ℕ) (ls : List Str)
    → length ls ≡ length ns
    → (l : Str) × (label_at o ns ls ≡ some l)
unfolding label_at
label_at-some o [] ls h = ([], refl)
label_at-some o (n ∷ ns) [] h = absurd (omega (arith, h))
label_at-some o (n ∷ ns) (l ∷ ls) h =
    let (m, e) = label_at-some o ns ls (omega (arith, h)) in
    elim (Bool-cases (n == o)) [
      | inl b ↦ (l, if_eq_true (n == o) _ _ b)
      | inr b ↦ (m, if_eq_false (n == o) _ _ b ∙ e)
    ]

make_buckets-some :
    (os : List ℕ) (ls : List Str)
    → length ls ≡ length os
    → (bs : List Bucket) × (make_buckets os ls ≡ some bs)
unfolding make_buckets
make_buckets-some [] ls h = ([], refl)
make_buckets-some (o ∷ os) [] h = absurd (omega (arith, h))
make_buckets-some (o ∷ os) (l ∷ ls) h =
    let (bs, e) = make_buckets-some os ls (omega (arith, h)) in
    (bucket_of o l ∷ bs, rw (e, make_buckets) refl)

buckets_from-safe :
    (os : List ℕ) (o : Option (List Str))
    → ((ls : List Str) → o ≡ some ls → length ls ≡ length os)
    → buckets_from os o ≢ panics
unfolding buckets_from
buckets_from-safe os none h e = cc
buckets_from-safe os (some ls) h e =
    let (bs, p) = make_buckets-some os ls (h ls refl) in
    let k : buckets_of bs ≡ panics = rw (← e, buckets_from, p) refl in cc

bucket_label-safe :
    (meta : Option OutcomeMeta) (o : ℕ) → (label : Str) × (bucket_label meta o ≡ some label)
unfolding bucket_label
bucket_label-safe meta o = elim (Option-cases (find_question meta o)) [
  | inl f ↦ ([], rw (f, bucket_label) refl)
  | inr (q, f) ↦ elim (Bool-cases (o == q.fallback_outcome)) [
    | inl b ↦ (q.name ++ codes " fallback", rw (f, bucket_label, b) refl)
    | inr b ↦ elim (Option-cases (question_labels meta (some q))) [
      | inl l ↦ ([], rw (f, bucket_label, b, l) refl)
      | inr (ls, l) ↦
          let (x, e) = label_at-some o q.named_outcomes ls (length-question_labels meta q ls l) in
          (x, rw (f, bucket_label, b, l) e)
    ]
  ]
]

question_buckets-safe :
    (meta : Option OutcomeMeta) (p : Option Question) → question_buckets meta p ≢ panics
unfolding question_buckets
question_buckets-safe meta none e = cc
question_buckets-safe meta (some q) e =
    buckets_from-safe q.named_outcomes (question_labels meta (some q))
      (length-question_labels meta q) e

-- No index of a label runs out of range: `BucketLabel` returns for every metadata and outcome, and
-- `Buckets` and `QuestionBuckets` return for every question.
pub labels_in_range :
    (meta : Option OutcomeMeta) (o : ℕ) (q : Question) (p : Option Question)
    → ((label : Str) × (bucket_label meta o ≡ some label))
      × (buckets q ≢ panics)
      × (question_buckets meta p ≢ panics)
unfolding buckets
labels_in_range meta o q p = (
  bucket_label-safe meta o,
  buckets_from-safe q.named_outcomes _ (length-bucket_labels q),
  question_buckets-safe meta p,
)
