-- ===== src/Info/Proofs/Descriptions.antt =====
-- A description that is printed from pairs parses to these pairs.
use hyperliquid_go.Base.{
  All-append, ℕ, suc, ◌+◌, ◌-◌, ◌≡◌, refl, ◌∙◌, ap, ◌≢◌, false, ◌||◌, some, List, [], ◌∷◌, ◌++◌,
  arith, All, length, length-append, ◌==◌, ==_iff, ==_ne, nat_eq, str_eq, nat_beq, if_eq_false,
}
use hyperliquid_go.Base.Dict.{Dict, insert}
use hyperliquid_go.Base.Text.{Str, split, index_of, take, drop}
use hyperliquid_go.Info.Outcome.{add_pair, add_pairs, parse_outcome_description}

-- A key and a value that a description can hold: neither is empty, the key has no colon, and none
-- has a bar.
abbrev pub IsKey : Str → Type 0
IsKey k = (k ≢ []) × All (λ c. (c ≢ b':') × (c ≢ b'|')) k

abbrev pub IsValue : Str → Type 0
IsValue v = (v ≢ []) × All (λ c. c ≢ b'|') v

abbrev pub IsPair : Str × Str → Type 0
IsPair p = IsKey p.0 × IsValue p.1

-- "key:value|key:value"
abbrev pub print_pair : Str × Str → Str
print_pair p = p.0 ++ (b':' ∷ p.1)

abbrev pub print_pairs : Str × Str → List (Str × Str) → Str
print_pairs p [] = print_pair p
print_pairs p (q ∷ ps) = print_pair p ++ (b'|' ∷ print_pairs q ps)

abbrev pub insert_pairs : List (Str × Str) → Dict Str Str → Dict Str Str
insert_pairs [] m = m
insert_pairs ((k, v) ∷ ps) m = insert_pairs ps (insert k v m)

split-last : (s : Str) → All (λ c. c ≢ b'|') s → split b'|' s ≡ s ∷ []
unfolding split
split-last [] h = refl
split-last (c ∷ s) (n, h) =
    if_eq_false (nat_beq c b'|') _ _ (==_ne c b'|' n) ∙ rw (split-last s h) refl

split-append : (s t : Str) → All (λ c. c ≢ b'|') s → split b'|' (s ++ (b'|' ∷ t)) ≡ s ∷ split b'|' t
unfolding split
split-append [] t h = refl
split-append (c ∷ s) t (n, h) =
    if_eq_false (nat_beq c b'|') _ _ (==_ne c b'|' n) ∙ rw (split-append s t h) refl

index_of-key :
    (k v : Str)
    → All (λ c. (c ≢ b':') × (c ≢ b'|')) k
    → index_of (k ++ (b':' ∷ v)) b':' ≡ some (length k)
unfolding index_of
index_of-key [] v h = refl
index_of-key (c ∷ k) v ((n, m), h) =
    if_eq_false (nat_beq c b':') _ _ (==_ne c b':' n) ∙ rw (index_of-key k v h) refl

take-key : (k v : Str) (c : ℕ) → take (length k) (k ++ (c ∷ v)) ≡ k
unfolding take
take-key [] v c = refl
take-key (x ∷ k) v c = ap (λ (l : Str). x ∷ l) (take-key k v c)

drop-key : (k v : Str) (c : ℕ) → drop (suc (length k)) (k ++ (c ∷ v)) ≡ v
unfolding drop
drop-key [] v c = refl
drop-key (x ∷ k) v c = drop-key k v c

length-ne : (s : Str) → s ≢ [] → length s ≢ 0
length-ne [] h e = h refl
length-ne (c ∷ s) h e = omega (arith, e)

no_edge : (i j : ℕ) → i ≢ 0 → i ≢ j → (i == 0 || i == j) ≡ false
no_edge i j h k = ground (arith, ==_iff i 0, ==_iff i j)

add_pair-insert :
    (k v : Str) (m : Dict Str Str)
    → IsKey k
    → IsValue v
    → add_pair (print_pair (k, v)) m ≡ insert k v m
unfolding add_pair
add_pair-insert k v m (nk, hk) (nv, hv) =
    let kv = print_pair (k, v) in
    let a = length-ne k nk in
    let b = length-ne v nv in
    let l : length kv ≡ length k + suc (length v) = length-append k (b':' ∷ v) in
    let t : (length k == 0 || length k == length kv - 1) ≡ false =
      no_edge (length k) (length kv - 1) a (λ e. b (omega (arith, e, l))) in
    rw (index_of-key k v hk, add_pair)
      (if_eq_false _ _ _ t ∙ rw (take-key k v b':', drop-key k v b':') refl)

key-bars : (k : Str) → All (λ c. (c ≢ b':') × (c ≢ b'|')) k → All (λ c. c ≢ b'|') k
key-bars [] h = tt
key-bars (c ∷ k) ((n, m), h) = (m, key-bars k h)

print_pair-bars : (p : Str × Str) → IsPair p → All (λ c. c ≢ b'|') (print_pair p)
print_pair-bars (k, v) ((nk, hk), (nv, hv)) =
    All-append (λ c. c ≢ b'|') k (b':' ∷ v) (key-bars k hk) ((λ e. absurd (omega (arith, e))), hv)

add_pairs-print :
    (p : Str × Str) (ps : List (Str × Str)) (m : Dict Str Str)
    → All IsPair (p ∷ ps)
    → add_pairs (split b'|' (print_pairs p ps)) m ≡ insert_pairs (p ∷ ps) m
unfolding add_pairs
add_pairs-print (k, v) [] m (h, t) =
    ap (λ (parts : List Str). add_pairs parts m)
      (split-last (print_pair (k, v)) (print_pair-bars (k, v) h))
    ∙ add_pair-insert k v m h.0 h.1
add_pairs-print (k, v) (q ∷ ps) m (h, t) =
    ap (λ (parts : List Str). add_pairs parts m)
      (split-append (print_pair (k, v)) (print_pairs q ps) (print_pair-bars (k, v) h))
    ∙ ap (λ (d : Dict Str Str). add_pairs (split b'|' (print_pairs q ps)) d)
        (add_pair-insert k v m h.0 h.1)
    ∙ add_pairs-print q ps (insert k v m) t

print_pairs-ne :
    (p : Str × Str) (ps : List (Str × Str)) → All IsPair (p ∷ ps) → print_pairs p ps ≢ []
print_pairs-ne ([], v) ps (((n, h), x), t) e = n refl
print_pairs-ne (c ∷ k, v) [] h e = cc
print_pairs-ne (c ∷ k, v) (q ∷ ps) h e = cc

-- A printed list of pairs, with keys and values that a description can hold, parses to the map that
-- the pairs make one after the other.
pub parse_outcome_description-print_pairs :
    (p : Str × Str) (ps : List (Str × Str))
    → All IsPair (p ∷ ps)
    → parse_outcome_description (print_pairs p ps) ≡ insert_pairs (p ∷ ps) []
unfolding parse_outcome_description
parse_outcome_description-print_pairs p ps h =
    if_eq_false (print_pairs p ps == []) _ _ (==_ne (print_pairs p ps) [] (print_pairs-ne p ps h))
    ∙ add_pairs-print p ps [] h
