-- ===== src/Info/Outcome.antt =====
-- info/outcome_question.go: descriptions, questions, their labels and their buckets. Ids are numbers
-- that are not negative. A nil slice, map or pointer is `none`.
use hyperliquid_go.Base.{
  ℕ, ◌+◌, ◌-◌, ◌*◌, Bool, false, ◌||◌, not, Option, none, some, List, [], ◌∷◌, ◌++◌, ◌==◌, str_eq,
  nat_eq, if◌then◌else◌, length, suc,
}
use hyperliquid_go.Base.Dict.{Dict, lookup, insert}
use hyperliquid_go.Base.Text.{Str, codes, split, index_of, take, drop}
use hyperliquid_go.Base.Decimal.{decimal}
use hyperliquid_go.Info.{or_empty}

pub record OutcomeInfo : Type 0 where
  pub outcome : ℕ
  pub name : Str
  pub side_specs : List Str

pub record Question : Type 0 where
  pub name : Str
  pub description : Str
  pub fallback_outcome : ℕ
  pub named_outcomes : List ℕ

pub record OutcomeMeta : Type 0 where
  pub outcomes : List OutcomeInfo
  pub questions : List Question

-- One part "key:value" of a description.
unfoldable pub add_pair : Str → Dict Str Str → Dict Str Str
add_pair kv m = elim (index_of kv b':') [
  | none ↦ m
  | some i ↦ if i == 0 || i == length kv - 1 then m else insert (take i kv) (drop (suc i) kv) m
]

unfoldable pub add_pairs : List Str → Dict Str Str → Dict Str Str
add_pairs [] m = m
add_pairs (kv ∷ kvs) m = add_pairs kvs (add_pair kv m)

-- `ParseOutcomeDescription`
unfoldable pub parse_outcome_description : Str → Dict Str Str
parse_outcome_description s = if s == [] then [] else add_pairs (split b'|' s) []

-- The labels after the first: between two thresholds, and above the last.
unfoldable pub labels_after : Str → List Str → List Str
labels_after last [] = (codes "Above " ++ last) ∷ []
labels_after last (t ∷ ts) = (last ++ codes " to " ++ t) ∷ labels_after t ts

unfoldable pub threshold_labels : List Str → List Str
threshold_labels [] = []
threshold_labels (t ∷ ts) = (codes "Below " ++ t) ∷ labels_after t ts

-- `bucketLabelsFromThresholds`
unfoldable pub bucket_labels_from_thresholds : Question → Option (List Str)
bucket_labels_from_thresholds q =
    let desc = parse_outcome_description q.description in
    let raw = or_empty (lookup (codes "priceThresholds") desc) in
    let thresholds = split b',' raw in
    if not (or_empty (lookup (codes "class") desc) == codes "priceBucket")
    then none
    else if raw == []
    then none
    else if not (length q.named_outcomes == length thresholds + 1)
    then none
    else some (threshold_labels thresholds)

-- The names by outcome id; the last entry of an id wins.
unfoldable pub name_index : List OutcomeInfo → Dict ℕ Str → Dict ℕ Str
name_index [] m = m
name_index (oc ∷ ocs) m = name_index ocs (insert oc.outcome oc.name m)

unfoldable pub names_from : Dict ℕ Str → List ℕ → Option (List Str)
names_from m [] = some []
names_from m (o ∷ os) =
    let rest = names_from m os in
    let n = or_empty (lookup o m) in
    if n == [] then none else elim rest [ none ↦ none | some names ↦ some (n ∷ names) ]

-- `namesForOutcomes`
unfoldable pub names_for_outcomes : OutcomeMeta → List ℕ → Option (List Str)
names_for_outcomes meta os = names_from (name_index meta.outcomes []) os

-- `QuestionLabels`
unfoldable pub question_labels : Option OutcomeMeta → Option Question → Option (List Str)
question_labels none q = none
question_labels (some meta) none = none
question_labels (some meta) (some q) =
    if length q.named_outcomes == 0 then none else elim (bucket_labels_from_thresholds q) [
      | some labels ↦ some labels
      | none ↦ names_for_outcomes meta q.named_outcomes
    ]

unfoldable pub names_outcome : ℕ → List ℕ → Bool
names_outcome o [] = false
names_outcome o (n ∷ ns) = n == o || names_outcome o ns

-- The loop of `FindQuestion`.
unfoldable pub find_in : List Question → ℕ → Option Question
find_in [] o = none
find_in (q ∷ qs) o =
    let rest = find_in qs o in
    if q.fallback_outcome == o || names_outcome o q.named_outcomes then some q else rest

-- `FindQuestion`
unfoldable pub find_question : Option OutcomeMeta → ℕ → Option Question
find_question none o = none
find_question (some meta) o = find_in meta.questions o

-- The label at the place of the outcome, or the empty text. An index out of range is `none`.
unfoldable pub label_at : ℕ → List ℕ → List Str → Option Str
label_at o [] labels = some []
label_at o (n ∷ ns) [] = if n == o then none else label_at o ns []
label_at o (n ∷ ns) (l ∷ ls) = let rest = label_at o ns ls in if n == o then some l else rest

-- `BucketLabel`; `none` is a panic.
unfoldable pub bucket_label : Option OutcomeMeta → ℕ → Option Str
bucket_label meta o = elim (find_question meta o) [
  | none ↦ some []
  | some q ↦
      if o == q.fallback_outcome
      then some (q.name ++ codes " fallback")
      else elim (question_labels meta (some q)) [
        | none ↦ some []
        | some labels ↦ label_at o q.named_outcomes labels
      ]
]

unfoldable pub question_named : List Question → Str → Option Question
question_named [] name = none
question_named (q ∷ qs) name =
    let rest = question_named qs name in if q.name == name then some q else rest

-- `QuestionByName`
unfoldable pub question_by_name : Option OutcomeMeta → Str → Option Question
question_by_name none name = none
question_by_name (some meta) name = question_named meta.questions name

pub record Bucket : Type 0 where
  pub outcome : ℕ
  pub label : Str
  pub yes_canonical : Str
  pub no_canonical : Str

-- `fmt.Sprintf("#%d", enc)`
unfoldable pub canonical : ℕ → Str
canonical enc = b'#' ∷ decimal enc

abbrev pub bucket_of : ℕ → Str → Bucket
bucket_of o label = record {
  outcome = o;
  label = label;
  yes_canonical = canonical (10 * o + 0);
  no_canonical = canonical (10 * o + 1);
}

-- `makeBuckets`; `none` is a panic on an index out of range.
unfoldable pub make_buckets : List ℕ → List Str → Option (List Bucket)
make_buckets [] labels = some []
make_buckets (o ∷ os) [] = none
make_buckets (o ∷ os) (l ∷ ls) = elim (make_buckets os ls) [
  | none ↦ none
  | some rest ↦ some (bucket_of o l ∷ rest)
]

-- A nil slice, a slice, or a panic.
pub data Buckets : Type 0 where
  no_buckets panics : Buckets
  buckets_of : List Bucket → Buckets

unfoldable pub buckets_from : List ℕ → Option (List Str) → Buckets
buckets_from os none = no_buckets
buckets_from os (some labels) = elim (make_buckets os labels) [
  | none ↦ panics
  | some bs ↦ buckets_of bs
]

-- `Question.Buckets`
unfoldable pub buckets : Question → Buckets
buckets q = buckets_from q.named_outcomes (bucket_labels_from_thresholds q)

-- `QuestionBuckets`
unfoldable pub question_buckets : Option OutcomeMeta → Option Question → Buckets
question_buckets meta none = no_buckets
question_buckets meta (some q) = buckets_from q.named_outcomes (question_labels meta (some q))
