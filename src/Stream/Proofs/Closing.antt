-- ===== src/Stream/Proofs/Closing.antt =====
-- `Close` ends the wait of every pending request.
use hyperliquid_go.Base.{
  ℕ, true, false, none, some, [], ◌∷◌, ◌≡◌, ◌≢◌, refl, ◌∙◌, sym, ◌⊎◌, inl, inr, arith, ◌==◌, ==_iff,
  nat_eq, str_eq, Bool-cases, Option-cases, if_eq_true, if_eq_false,
}
use hyperliquid_go.Base.Dict.{Dict, lookup, insert, lookup-insert_self, lookup-insert_ne}
use hyperliquid_go.Base.Int.{ℤ, int_eq}
use hyperliquid_go.Stream.State.{Net, Chan, Stream, failed, request_cancelled}
use hyperliquid_go.Stream.Connection.{close_pending, close}
use hyperliquid_go.Stream.Post.{Waiting, from_channel, receive, post_end}
use hyperliquid_go.Stream.Proofs.Requests.{post_end-receive}

-- The channel, closed.
abbrev shut : Chan → Chan
shut ch = record ch { is_closed = true }

-- One round of the loop.
abbrev shut_at : ℕ → Dict ℕ Chan → Dict ℕ Chan
shut_at c heap = elim (lookup c heap) [ none ↦ heap | some ch ↦ insert c (shut ch) heap ]

shut_at_self :
    (c : ℕ) (heap : Dict ℕ Chan) (ch : Chan)
    → lookup c heap ≡ some ch
    → lookup c (shut_at c heap) ≡ some (shut ch)
shut_at_self c heap ch e = rw (e, shut_at) (lookup-insert_self c (shut ch) heap)

shut_at_other : (d c : ℕ) (heap : Dict ℕ Chan) → d ≢ c → lookup c (shut_at d heap) ≡ lookup c heap
shut_at_other d c heap n = elim (Option-cases (lookup d heap)) [
  | inl e ↦ rw (e, shut_at) refl
  | inr (ch, e) ↦ rw (e, shut_at) (lookup-insert_ne d c (shut ch) heap n)
]

-- A round leaves a channel as it is, or shuts it.
ne_of_false : (m n : ℕ) → m == n ≡ false → m ≢ n
ne_of_false m n h = ground (arith, h)

shut_at_cases :
    (d c : ℕ) (heap : Dict ℕ Chan) (ch : Chan)
    → lookup c heap ≡ some ch
    → (lookup c (shut_at d heap) ≡ some ch) ⊎ (lookup c (shut_at d heap) ≡ some (shut ch))
shut_at_cases d c heap ch e = elim (Bool-cases (d == c)) [
  | inl b ↦ inr (rw ((==_iff d c).0 b) (shut_at_self c heap ch e))
  | inr b ↦ inl (shut_at_other d c heap (ne_of_false d c b) ∙ e)
]

close_pending_cases :
    (m : Dict ℤ ℕ) (c : ℕ) (heap : Dict ℕ Chan) (ch : Chan)
    → lookup c heap ≡ some ch
    → (lookup c (close_pending m heap) ≡ some ch)
      ⊎ (lookup c (close_pending m heap) ≡ some (shut ch))
unfolding close_pending
close_pending_cases [] c heap ch e = inl e
close_pending_cases ((id, d) ∷ m) c heap ch e = elim (close_pending_cases m c heap ch e) [
  | inl p ↦ shut_at_cases d c (close_pending m heap) ch p
  | inr p ↦ elim (shut_at_cases d c (close_pending m heap) (shut ch) p) [
    | inl q ↦ inr q
    | inr q ↦ inr q
  ]
]

close_pending-shut :
    (m : Dict ℤ ℕ) (id : ℤ) (c : ℕ) (heap : Dict ℕ Chan) (ch : Chan)
    → lookup id m ≡ some c
    → lookup c heap ≡ some ch
    → lookup c (close_pending m heap) ≡ some (shut ch)
unfolding close_pending lookup
close_pending-shut [] id c heap ch p e = cc
close_pending-shut ((j, d) ∷ m) id c heap ch p e = elim (Bool-cases (j == id)) [
  | inl b ↦
      let k : some d ≡ some c = sym (if_eq_true (j == id) _ _ b) ∙ p in
      let q : d ≡ c = cc in
      elim (close_pending_cases m c heap ch e) [
        | inl r ↦ rw q (shut_at_self c (close_pending m heap) ch r)
        | inr r ↦ rw q (shut_at_self c (close_pending m heap) (shut ch) r)
      ]
  | inr b ↦
      let r = close_pending-shut m id c heap ch (sym (if_eq_false (j == id) _ _ b) ∙ p) e in
      elim (shut_at_cases d c (close_pending m heap) (shut ch) r) [ inl q ↦ q | inr q ↦ q ]
]

module _ (net : Net) where
  open net use {World}

  close-channels :
      (s : Stream World)
      → s.closed ≡ false
      → (close net s).0.channels ≡ close_pending s.pending_requests s.channels
  unfolding close
  close-channels s o = ground arith

  -- After a `Close` of an open client, a call that waits for a response on an empty channel, pending
  -- under its id, ends with the error that the request was cancelled, also where `Close` itself blocks
  -- on the lock.
  pub close-cancelled :
      (w : Waiting) (ch : Chan) (s : Stream World)
      → s.closed ≡ false
      → lookup w.id s.pending_requests ≡ some w.chan
      → lookup w.chan s.channels ≡ some ch
      → ch.buffer ≡ none
      → (post_end net w from_channel (close net s).0).1 ≡ failed request_cancelled
  unfolding receive
  close-cancelled w ch s o p h b =
      post_end-receive net w (close net s).0
      ∙ rw
          (
            close-channels s o,
            close_pending-shut s.pending_requests w.id w.chan s.channels ch p h,
            receive,
            b,
          )
          refl
