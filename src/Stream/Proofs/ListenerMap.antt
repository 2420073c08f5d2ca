-- ===== src/Stream/Proofs/ListenerMap.antt =====
-- The subscription map as a map from keys and ids to callbacks: the writes and deletions of
-- `Subscribe` and `unsubscribe` in stream/stream.go.
use hyperliquid_go.Base.{
  ℕ, true, ◌&&◌, Option, none, some, [], ◌≡◌, refl, arith, ==_iff, ◌==◌, inl, inr, if◌then◌else◌,
  ◌∙◌, ap, sym, Option-cases,
}
use hyperliquid_go.Base.Dict.{Dict, lookup, insert, erase, lookup-insert, lookup-erase}
use hyperliquid_go.Base.Int.{int_eq, ℤ}
use hyperliquid_go.Stream.Messages.{SubKey, key_eq}
use hyperliquid_go.Stream.Registry.{listeners, drop_listener}

-- The callback under a key and an id.
abbrev pub listener : SubKey → ℤ → Dict SubKey (Dict ℤ ℕ) → Option ℕ
listener k id m = lookup id (listeners k m)

pub listeners-insert :
    (k j : SubKey) (v : Dict ℤ ℕ) (m : Dict SubKey (Dict ℤ ℕ))
    → listeners j (insert k v m) ≡ (if k == j then v else listeners j m)
unfolding listeners
listeners-insert k j v m = ground (arith, lookup-insert k j v m)

pub listeners-erase :
    (k j : SubKey) (m : Dict SubKey (Dict ℤ ℕ))
    → listeners j (erase k m) ≡ (if k == j then [] else listeners j m)
unfolding listeners
listeners-erase k j m = ground (arith, lookup-erase k j m)

pub listener-insert :
    (k : SubKey) (id : ℤ) (cb : ℕ) (m : Dict SubKey (Dict ℤ ℕ)) (j : SubKey) (i : ℤ)
    → listener j i (insert k (insert id cb (listeners k m)) m)
      ≡ (if k == j && id == i then some cb else listener j i m)
listener-insert k id cb m j i = ground (
  arith,
  listeners-insert k j (insert id cb (listeners k m)) m,
  lookup-insert id i cb (listeners k m),
  ==_iff k j,
)

pub lookup-nil : (i : ℤ) → lookup {V = ℕ} i [] ≡ none
unfolding lookup
lookup-nil i = refl

pub listeners-none :
    (k : SubKey) (m : Dict SubKey (Dict ℤ ℕ)) → lookup k m ≡ none → listeners k m ≡ []
unfolding listeners
listeners-none k m e = rw (e, listeners) refl

pub listeners-some :
    (k : SubKey) (m : Dict SubKey (Dict ℤ ℕ)) (subs : Dict ℤ ℕ)
    → lookup k m ≡ some subs
    → listeners k m ≡ subs
unfolding listeners
listeners-some k m subs e = rw (e, listeners) refl

-- Listeners under equal keys.
pub listeners-eq :
    (k j : SubKey) (m : Dict SubKey (Dict ℤ ℕ)) → k == j ≡ true → listeners j m ≡ listeners k m
listeners-eq k j m h = ap (λ x. listeners x m) (sym ((==_iff k j).0 h))

pub listener-eq :
    (k j : SubKey) (id i : ℤ) (m : Dict SubKey (Dict ℤ ℕ))
    → k == j ≡ true
    → id == i ≡ true
    → listener j i m ≡ listener k id m
listener-eq k j id i m h e =
    ap (λ x. listener j x m) (sym ((==_iff id i).0 e)) ∙ ap (lookup id) (listeners-eq k j m h)

drop_listener-some :
    (k : SubKey) (id : ℤ) (m : Dict SubKey (Dict ℤ ℕ)) (subs : Dict ℤ ℕ)
    → lookup k m ≡ some subs
    → drop_listener k id m ≡ insert k (erase id subs) m
unfolding drop_listener
drop_listener-some k id m subs e = rw (e, drop_listener) refl

drop_listener-none :
    (k : SubKey) (id : ℤ) (m : Dict SubKey (Dict ℤ ℕ))
    → lookup k m ≡ none
    → drop_listener k id m ≡ m
unfolding drop_listener
drop_listener-none k id m e = rw (e, drop_listener) refl

pub listener-drop :
    (k : SubKey) (id : ℤ) (m : Dict SubKey (Dict ℤ ℕ)) (j : SubKey) (i : ℤ)
    → listener j i (drop_listener k id m) ≡ (if k == j && id == i then none else listener j i m)
listener-drop k id m j i = elim (Option-cases (lookup k m)) [
  | inl e ↦
      rw (drop_listener-none k id m e)
        (ground (arith, listeners-none k m e, listeners-eq k j m, lookup-nil i))
  | inr (subs, e) ↦ rw (drop_listener-some k id m subs e) (
      ground (
        arith,
        listeners-insert k j (erase id subs) m,
        lookup-erase id i subs,
        listeners-some k m subs e,
        listeners-eq k j m,
      ))
]
