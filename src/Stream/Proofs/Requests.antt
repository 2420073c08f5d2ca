-- ===== src/Stream/Proofs/Requests.antt =====
-- Requests over the socket: which response ends which wait.
use hyperliquid_go.Base.{
  subst, ℕ, ◌+◌, ◌<◌, Bool, true, false, not, Option, none, some, List, [], ◌∷◌, ◌≡◌, ◌≢◌, refl,
  arith, ==_iff, ◌==◌, str_eq, nat_eq, Bool-cases, inl, inr, if◌then◌else◌, ◌∙◌, ap, sym,
  Option-cases, if_eq_false, if_eq_true, ==_ne, ==_refl,
}
use hyperliquid_go.Base.Dict.{Dict, lookup, lookup-insert_self, lookup-insert_ne, lookup-insert}
use hyperliquid_go.Base.Text.{Str, codes}
use hyperliquid_go.Base.Int.{int_eq, ℤ}
use hyperliquid_go.Stream.Messages.{post_frame, Frame, WsMessage, PostResponse}
use hyperliquid_go.Stream.State.{
  not_connected, next32, int32, Net, Chan, Stream, Outcome, done, failed, blocked,
}
use hyperliquid_go.Stream.Dispatch.{deliver, dispatch, offer}
use hyperliquid_go.Stream.Connection.{write_json}
use hyperliquid_go.Stream.Post.{
  post_start, post_sent, open_request, Waiting, from_channel, receive, post_end,
}

-- `w` waits in `s` on a channel that is open, empty and no other request's.
abbrev pub IsWaiting : {W : Type 0} → Waiting → Stream W → Type 0
IsWaiting w s =
    (lookup w.id s.pending_requests ≡ some w.chan)
    × (lookup w.chan s.channels ≡ some (record { buffer = none; is_closed = false }))
    × ((id : ℤ) → lookup id s.pending_requests ≡ some w.chan → id ≡ w.id)

module _ (net : Net) where
  open net use {World, decode_post}

  deliver-same :
      (pending : Dict ℤ ℕ) (r : PostResponse) (heap : Dict ℕ Chan) (c : ℕ)
      → lookup r.id pending ≡ some c
      → lookup c heap ≡ some (record { buffer = none; is_closed = false })
      → lookup c (deliver pending r heap) ≡ some (record { buffer = some r; is_closed = false })
  unfolding deliver
  deliver-same pending r heap c p h = rw (p, h, deliver) (lookup-insert_self c _ heap)

  deliver-other :
      (pending : Dict ℤ ℕ) (r : PostResponse) (heap : Dict ℕ Chan) (c : ℕ)
      → lookup r.id pending ≢ some c
      → lookup c (deliver pending r heap) ≡ lookup c heap
  unfolding deliver
  deliver-other pending r heap c p = elim (Option-cases (lookup r.id pending)) [
    | inl e ↦ rw (e, deliver) refl
    | inr (d, e) ↦ elim (Option-cases (lookup d heap)) [
      | inl f ↦ rw (e, f, deliver) refl
      | inr (ch, f) ↦
          rw (e, f, deliver)
            (lookup-insert_ne d c (offer r ch) heap (λ x. p (e ∙ ap (λ n. some n) x)))
    ]
  ]

  -- The channels after a response on the `post` channel.
  dispatch-post :
      (msg : WsMessage) (r : PostResponse) (s : Stream World)
      → msg.channel ≡ codes "post"
      → decode_post msg.data_ ≡ some r
      → (dispatch net msg s).channels ≡ deliver s.pending_requests r s.channels
  unfolding dispatch hyperliquid_go.Base.str_beq
  dispatch-post msg r s c d = rw (c, d) refl

  pub post_end-receive :
      (w : Waiting) (s : Stream World)
      → (post_end net w from_channel s).1 ≡ receive net (lookup w.chan s.channels)
  unfolding post_end
  post_end-receive w s = ground arith

  -- After a decodable message on the post channel, a call that waits on an open, empty channel of its
  -- own receives the response when the ids are equal, and waits on when they are not.
  pub post_end-response :
      (w : Waiting) (msg : WsMessage) (r : PostResponse) (s : Stream World)
      → IsWaiting w s
      → msg.channel ≡ codes "post"
      → decode_post msg.data_ ≡ some r
      → (post_end net w from_channel (dispatch net msg s)).1
        ≡ (if r.id == w.id then done r else blocked)
  unfolding receive
  post_end-response w msg r s (p, h, only) c d =
      let heap = dispatch-post msg r s c d in
      post_end-receive w (dispatch net msg s) ∙ (elim (Bool-cases (r.id == w.id)) [
        | inl e ↦
            let q : (lookup r.id s.pending_requests ≡ some w.chan) =
              rw ((==_iff r.id w.id).0 e) p in
            rw (heap, deliver-same s.pending_requests r s.channels w.chan q h, e) refl
        | inr e ↦
            let q : (lookup r.id s.pending_requests ≢ some w.chan) =
              λ x. absurd (ground (arith, only r.id x, ==_iff r.id w.id)) in
            rw (heap, deliver-other s.pending_requests r s.channels w.chan q, h, e) refl
      ])

  -- The channels of the pending requests are on the heap's used part.
  abbrev pub IsAllocated : Stream World → Type 0
  IsAllocated s = (id : ℤ) (c : ℕ) → lookup id s.pending_requests ≡ some c → c < s.next_channel

  open_request-IsWaiting :
      (s : Stream World)
      → IsAllocated s
      → IsWaiting
          (record { id = int32 (next32 s.next_post_id); chan = s.next_channel })
          (open_request net s)
  unfolding open_request
  open_request-IsWaiting s allocated =
      let id = int32 (next32 s.next_post_id) in
      (
        lookup-insert_self id s.next_channel s.pending_requests,
        lookup-insert_self s.next_channel _ s.channels,
        λ i h. ground (
          arith,
          lookup-insert id i s.next_channel s.pending_requests,
          ==_iff id i,
          allocated i s.next_channel,
        ),
      )

  write_json-requests :
      (f : Frame) (s : Stream World)
      → let t = (write_json net f s).0 in
        (t.pending_requests ≡ s.pending_requests) × (t.channels ≡ s.channels)
  unfolding write_json
  write_json-requests f s = ground arith

  post_sent-IsWaiting :
      (v w : Waiting) (r : Stream World × Outcome (Unit {0})) (t : Stream World)
      → IsWaiting v r.0
      → post_sent net v r ≡ (t, done w)
      → IsWaiting w t
  post_sent-IsWaiting v w (u, done _) t h e =
      let p : (u ≡ t) = ap (λ (r : Stream World × Outcome Waiting). r.0) e in
      let q : (v ≡ w) = ground arith in
      subst (λ (x : Waiting). IsWaiting x t) q (subst (λ (x : Stream World). IsWaiting v x) p h)
  post_sent-IsWaiting v w (u, failed x) t h e = absurd (ground arith)
  post_sent-IsWaiting v w (u, blocked) t h e = absurd (ground arith)

  waiting-written :
      (v : Waiting) (f : Frame) (s : Stream World)
      → IsWaiting v s
      → IsWaiting v (write_json net f s).0
  waiting-written v f s (p, h, only) =
      let (e, c) = write_json-requests f s in
      (
        ap (lookup v.id) e ∙ p,
        ap (lookup v.chan) c ∙ h,
        λ id k. only id (sym (ap (lookup id) e) ∙ k),
      )

  refused :
      (s t : Stream World) (w : Waiting)
      → ◌≡◌ {A = Stream World × Outcome Waiting} (s, failed not_connected) (t, done w)
      → ⊥
  refused s t w h = ground arith

  -- When the channels of all pending requests are allocated, a request whose frame is sent is pending
  -- under its id with an open, empty channel that no other request has.
  pub post_start-IsWaiting :
      (request_type payload : Str) (s t : Stream World) (w : Waiting)
      → IsAllocated s
      → post_start net request_type payload s ≡ (t, done w)
      → IsWaiting w t
  unfolding post_start
  post_start-IsWaiting request_type payload s t w allocated h =
      let id = int32 (next32 s.next_post_id) in
      let v : Waiting = record { id = id; chan = s.next_channel } in
      elim (Bool-cases (not s.connected)) [
        | inl e ↦ absurd (refused s t w (sym (if_eq_true _ _ _ e) ∙ h))
        | inr e ↦
            post_sent-IsWaiting v w
              (write_json net (post_frame id request_type payload) (open_request net s)) t
              (waiting-written v (post_frame id request_type payload) (open_request net s)
                (open_request-IsWaiting s allocated))
              (sym (if_eq_false _ _ _ e) ∙ h)
      ]
