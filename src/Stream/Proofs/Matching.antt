-- ===== src/Stream/Proofs/Matching.antt =====
-- What messages belong to a subscription, against `matchSubscription` of stream/stream.go.
use hyperliquid_go.Base.{
  ℕ, Bool, true, false, not, ◌&&◌, Option, none, some, List, [], ◌∷◌, ◌++◌, map, ◌≡◌, ◌≢◌, ◌↔◌,
  refl, arith, ==_iff, ◌==◌, str_eq, Bool-cases, inl, inr, ◌⊎◌, if◌then◌else◌, ◌∙◌, ap, Any,
  Any-append, if_eq_false, if_eq_true, Option-cases, All, sym, subst,
}
use hyperliquid_go.Base.Dict.{Dict, lookup}
use hyperliquid_go.Base.Text.{Str, codes}
use hyperliquid_go.Stream.Messages.{SubKey, WsMessage}
use hyperliquid_go.Stream.State.{Net}
use hyperliquid_go.Stream.Match.{channel_table, channel_match, match_subscription, fields_match}

channel_match-some : (typ c : Str) → channel_match typ c ≡ true → lookup typ channel_table ≡ some c
unfolding channel_match
channel_match-some typ c h = elim (Option-cases (lookup typ channel_table)) [
  | inl e ↦ absurd (ground arith)
  | inr (d, e) ↦ ground (arith, ==_iff c d)
]

-- The types of a subscription that messages are routed by.
abbrev pub served_types : List Str
served_types =
    codes "allMids"
    ∷ codes "notification"
    ∷ codes "webData2"
    ∷ codes "candle"
    ∷ codes "l2Book"
    ∷ codes "trades"
    ∷ codes "orderUpdates"
    ∷ codes "userEvents"
    ∷ codes "userFills"
    ∷ codes "userFundings"
    ∷ codes "userNonFundingLedgerUpdates"
    ∷ codes "activeAssetCtx"
    ∷ codes "activeAssetData"
    ∷ codes "userTwapSliceFills"
    ∷ codes "userTwapHistory"
    ∷ codes "bbo"
    ∷ []

-- The channel of a type is named as the type, but for the events of a user.
abbrev pub channel_of : Str → Str
channel_of typ = if typ == codes "userEvents" then codes "user" else typ

abbrev keys_of : Dict Str Str → List Str
keys_of m = map (λ (k, c). k) m

some_inj : (x y : Str) → ◌≡◌ {A = Option Str} (some x) (some y) → x ≡ y
some_inj x y h = cc

lookup-channel_of :
    (m : Dict Str Str) (typ c : Str)
    → All (λ (k, c). c ≡ channel_of k) m
    → lookup typ m ≡ some c
    → Any (λ t. t ≡ typ) (keys_of m) × (c ≡ channel_of typ)
unfolding lookup
lookup-channel_of [] typ c a h = cc
lookup-channel_of ((k, d) ∷ m) typ c (e, a) h = elim (Bool-cases (k == typ)) [
  | inl b ↦
      let q = (==_iff k typ).0 b in
      (inl q, sym (some_inj d c (sym (if_eq_true _ _ _ b) ∙ h)) ∙ e ∙ ap channel_of q)
  | inr b ↦ let (x, y) = lookup-channel_of m typ c a (sym (if_eq_false _ _ _ b) ∙ h) in (inr x, y)
]

channel_of-lookup :
    (m : Dict Str Str) (typ : Str)
    → All (λ (k, c). c ≡ channel_of k) m
    → Any (λ t. t ≡ typ) (keys_of m)
    → lookup typ m ≡ some (channel_of typ)
unfolding lookup
channel_of-lookup [] typ a h = absurd h
channel_of-lookup ((k, d) ∷ m) typ (e, a) h = elim (Bool-cases (k == typ)) [
  | inl b ↦ if_eq_true _ _ _ b ∙ ap some (e ∙ ap channel_of ((==_iff k typ).0 b))
  | inr b ↦ if_eq_false _ _ _ b ∙ elim h [
    | inl q ↦ absurd (ground (arith, b, q, ==_iff k typ))
    | inr x ↦ channel_of-lookup m typ a x
  ]
]

table-channel_of : All (λ (k, c). c ≡ channel_of k) channel_table
unfolding channel_table hyperliquid_go.Base.str_beq
table-channel_of = (
  refl,
  (
    refl,
    (
      refl,
      (
        refl,
        (
          refl,
          (
            refl,
            (refl, (refl, (refl, (refl, (refl, (refl, (refl, (refl, (refl, (refl, tt)))))))))),
          ),
        ),
      ),
    ),
  ),
)

table-served : keys_of channel_table ≡ served_types
unfolding channel_table
table-served = refl

channel_match-of :
    (typ channel c : Str)
    → lookup typ channel_table ≡ some c
    → channel ≡ c
    → channel_match typ channel ≡ true
unfolding channel_match
channel_match-of typ channel c l e = rw (l, channel_match) ((==_iff channel c).1 e)

channel_match-served :
    (typ channel : Str)
    → (channel_match typ channel ≡ true)
      ↔ (Any (λ t. t ≡ typ) served_types × (channel ≡ channel_of typ))
channel_match-served typ channel =
    let Served = λ (ks : List Str). Any (λ t. t ≡ typ) ks in
    (
      (λ h.
          let (a, e) =
            lookup-channel_of channel_table typ channel table-channel_of
              (channel_match-some typ channel h) in
          (subst Served table-served a, e)),
      (λ (a, e).
          channel_match-of typ channel (channel_of typ)
            (channel_of-lookup channel_table typ table-channel_of
              (subst Served (sym table-served) a))
            e),
    )

-- The tests of `matchSubscription`, one after the other.
one_test :
    (a b o e : Bool)
    → ((if not a then false else if b then true else if o then true else e) ≡ true)
      ↔ ((a ≡ true) × ((b ≡ true) ⊎ (o ≡ true) ⊎ (e ≡ true)))
one_test a b o e = ground arith

two_empty : (a b : Str) → ((a == [] && b == []) ≡ true) ↔ ((a ≡ []) × (b ≡ []))
two_empty a b = ground (arith, ==_iff a [], ==_iff b [])

module _ (net : Net) where
  open net use {World}

  -- The data of a message answer a subscription's coin and user, where it has them.
  abbrev Fits : SubKey → Option (Str × Str) → Type 0
  Fits k none = ⊥
  Fits k (some (coin, user)) =
      ((k.coin ≡ []) ⊎ (coin ≡ k.coin)) × ((k.user ≡ []) ⊎ (net.equal_fold user k.user ≡ true))

  -- A message belongs to a subscription: it is on the channel of its type, and the subscription has no
  -- coin and no user, or is one to the updates of a user's own orders, or the message's data are an
  -- object with that coin and that user.
  abbrev pub Belongs : SubKey → WsMessage → Type 0
  Belongs k msg =
      Any (λ t. t ≡ k.typ) served_types
      × (msg.channel ≡ channel_of k.typ)
      × (((k.coin ≡ []) × (k.user ≡ []))
          ⊎ (k.typ ≡ codes "orderUpdates")
          ⊎ Fits k (net.coin_and_user msg.data_))

  fields_match-Fits : (k : SubKey) (d : Str × Str) → (fields_match net k d ≡ true) ↔ Fits k (some d)
  unfolding fields_match
  fields_match-Fits k (coin, user) =
      ground (arith, ==_iff k.coin [], ==_iff coin k.coin, ==_iff k.user [])

  data_match-Fits :
      (k : SubKey) (o : Option (Str × Str))
      → ((elim o [ none ↦ false | some d ↦ fields_match net k d ]) ≡ true) ↔ Fits k o
  data_match-Fits k none = (λ h. absurd (ground arith), λ h. absurd h)
  data_match-Fits k (some d) = fields_match-Fits k d

  pub match_subscription-Belongs :
      (k : SubKey) (msg : WsMessage) → (match_subscription net k msg ≡ true) ↔ Belongs k msg
  unfolding match_subscription
  match_subscription-Belongs k msg =
      let (c, c') = channel_match-served k.typ msg.channel in
      let (d, d') = data_match-Fits k (net.coin_and_user msg.data_) in
      let (n, n') = two_empty k.coin k.user in
      let (o, o') = ==_iff k.typ (codes "orderUpdates") in
      let (t, t') =
        one_test (channel_match k.typ msg.channel) (k.coin == [] && k.user == [])
          (k.typ == codes "orderUpdates") _ in
      (
        (λ h.
            let (x, y) = t h in
            let (a, e) = c x in
            (
              a,
              e,
              elim y [
                | inl p ↦ inl (n p)
                | inr (inl p) ↦ inr (inl (o p))
                | inr (inr p) ↦ inr (inr (d p))
              ],
            )),
        (λ (a, e, y). t' (
          c' (a, e),
          elim y [
            | inl p ↦ inl (n' p)
            | inr (inl p) ↦ inr (inl (o' p))
            | inr (inr p) ↦ inr (inr (d' p))
          ],
        )),
      )
