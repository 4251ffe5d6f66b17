-- ===== src/Reply/Out/Once.antt =====
-- How many replies a reply object sends.
use zmf.Prelude.{
  ℕ, zero, suc, ◌+◌, ◌<◌, ◌≤◌, ◌≡◌, refl, none, some, List, [], ◌∷◌, length, length-append, arith,
  Option-cases, inl, inr,
}
use zmf.Data.RequestIdentity.{ExternalRequestIdentity}
use zmf.Data.Message.{ZmfMessage}
use zmf.Data.Reply.{future_reply}
use zmf.Reply.Out.{
  ReplyHandler, open_reply, finished, Replying, pick, inject_service, begin_send, end_send,
  ReplyStep, injects, begins, ends, ReplyRun, none_yet, one_more, made,
}

length-pick :
    (n : ℕ) (xs rest : List ZmfMessage) (x : ZmfMessage)
    → pick n xs ≡ some (x, rest)
    → length xs ≡ suc (length rest)
unfolding pick
length-pick n [] rest x e = absurd (ground arith)
length-pick zero (y ∷ xs) rest x e = ground arith
length-pick (suc n) (y ∷ xs) rest x e = elim (Option-cases (pick n xs)) [
  | inl p ↦ absurd (ground arith)
  | inr ((z, zs), p) ↦ ground (arith, length-pick n xs zs z p)
]

module _ {M : Type 0} (send_reply : ReplyHandler M) where
  -- An open reply has sent nothing, nor has one without a service; and at most the limit of replies
  -- are sent or about to be.
  abbrev pub IsWithin : ℕ → Replying M → Type 0
  IsWithin limit p =
      (p.reply.state ≡ open_reply → p.sent ≡ [])
      × (p.reply.injected ≡ none → p.sent ≡ [])
      × (length p.sent + length p.waiting ≤ limit)

  begin_send-IsWithin :
      (limit : ℕ) (message : ZmfMessage) (p : Replying M)
      → length p.waiting < limit
      → IsWithin limit p
      → IsWithin limit (begin_send send_reply message p)
  unfolding begin_send
  begin_send-IsWithin limit message p room (a, b, c) =
      (λ e. ground arith, λ e. ground arith, ground (arith, length-append p.waiting (message ∷ [])))

  end_send-IsWithin :
      (limit n : ℕ) (p p' : Replying M)
      → end_send send_reply n p ≡ some p'
      → IsWithin limit p
      → IsWithin limit p'
  unfolding end_send
  end_send-IsWithin limit n p p' e (a, b, c) = elim (Option-cases (pick n p.waiting)) [
    | inl q ↦ absurd (ground arith)
    | inr ((message, others), q) ↦ elim (Option-cases p.reply.injected) [
      | inl r ↦ absurd (ground arith)
      | inr (id, r) ↦ elim (Option-cases (send_reply id message p.handler)) [
        | inl t ↦
            let k : p' ≡ record p { waiting = others } = ground arith in
            rw k (a, b, ground (arith, length-pick n p.waiting others message q))
        | inr (m, t) ↦ (
          λ h. ground arith,
          λ h. ground arith,
          ground (arith, length-pick n p.waiting others message q),
        )
      ]
    ]
  ]

  ReplyStep-IsWithin :
      (limit : ℕ) {p p' : Replying M}
      → ReplyStep send_reply limit p p'
      → IsWithin limit p
      → IsWithin limit p'
  unfolding inject_service
  ReplyStep-IsWithin limit (injects {p} id) (a, b, c) = (a, (λ e. ground arith), c)
  ReplyStep-IsWithin limit (begins {p} message room) within =
      begin_send-IsWithin limit message p room within
  ReplyStep-IsWithin limit (ends {p} {p'} n e) within = end_send-IsWithin limit n p p' e within

  -- However the calls of `sendFutureReply` and `injectService` on a new reply interleave, and
  -- whether or not the handler throws, nothing is sent before the service is there, and no more
  -- replies are sent than calls of `sendFutureReply` ever overlap: where at most one runs at a
  -- time, at most one reply.
  pub ReplyRun-IsWithin :
      (limit : ℕ) (m : M) {p : Replying M} → ReplyRun send_reply limit (made m) p → IsWithin limit p
  ReplyRun-IsWithin limit m none_yet = ((λ e. refl), (λ e. refl), omega arith)
  ReplyRun-IsWithin limit m (one_more run step) =
      ReplyStep-IsWithin limit step (ReplyRun-IsWithin limit m run)

  -- Where the handler does not throw, one call of `sendFutureReply` on a new reply sends the
  -- message under the identity that is injected, whether the call comes before the injection or
  -- behind it, and later calls and injections change nothing of what is sent.
  pub send_future_reply_lem :
      (message later : ZmfMessage) (id : ExternalRequestIdentity) (m m' : M)
      → send_reply id message m ≡ some m'
      → let inject : Replying M → Replying M =
          λ p. record p { reply = inject_service id p.reply } in
        let first = end_send send_reply 0 (inject (begin_send send_reply message (made m))) in
        let second = end_send send_reply 0 (begin_send send_reply message (inject (made m))) in
        (p : Replying M) × (first ≡ some p)
        × (second ≡ some p)
        × (p.sent ≡ (id, message) ∷ [])
        × (p.handler ≡ m')
        × (p.reply.state ≡ finished)
        × (begin_send send_reply later p ≡ p)
  unfolding begin_send end_send inject_service pick
  send_future_reply_lem message later id m m' accepted = (
    record {
      reply = record { answer = future_reply; state = finished; injected = some id };
      waiting = [];
      handler = m';
      sent = (id, message) ∷ [];
    },
    ground arith,
    ground arith,
    refl,
    refl,
    refl,
    refl,
  )
