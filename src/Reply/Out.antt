-- ===== src/Reply/Out.antt =====
-- ZmfOutReply: a reply object, and the calls of `sendFutureReply` and `injectService` on it, which
-- come from several threads.
pub mod Once
use zmf.Prelude.{ℕ, zero, suc, ◌<◌, ◌≡◌, Option, none, some, List, [], ◌∷◌, ◌++◌, length}
use zmf.Data.RequestIdentity.{ExternalRequestIdentity}
use zmf.Data.MessageType.{MessageType}
use zmf.Data.Message.{ZmfMessage}
use zmf.Data.Reply.{ZmfOutReply, immediate_reply, future_reply, no_reply}

pub data ReplyState : Type 0 where
  open_reply finished : ReplyState

-- `answer` is `type`, with `reply_immediate` where that is read. `injected` is the identity that
-- came with the service, `none` while `service` is null.
pub record OutReply : Type 0 where
  pub answer : ZmfOutReply
  pub state : ReplyState
  pub injected : Option ExternalRequestIdentity

-- createNoReply
abbrev pub create_no_reply : OutReply
create_no_reply = record { answer = no_reply; state = finished; injected = none }

-- createImmediateReply
unfoldable pub create_immediate_reply : ZmfMessage → OutReply
create_immediate_reply message = record {
  answer = immediate_reply message;
  state = finished;
  injected = none;
}

-- createFutureReply
abbrev pub create_future_reply : OutReply
create_future_reply = record { answer = future_reply; state = open_reply; injected = none }

-- injectService, which wakes a call that waits for the service.
unfoldable pub inject_service : ExternalRequestIdentity → OutReply → OutReply
inject_service id r = record r { injected = some id }

-- `ZmfMessage()`
abbrev pub empty_message : ZmfMessage
empty_message = record { type = record { match = [] }; payload = [] }

-- The move constructor: it takes the type and the state.
unfoldable pub move_reply : OutReply → OutReply
move_reply r = record {
  answer = elim r.answer [
    | immediate_reply message ↦ immediate_reply empty_message
    | future_reply ↦ future_reply
    | no_reply ↦ no_reply
  ];
  state = r.state;
  injected = none;
}

-- A reply object with the calls of sendFutureReply that are behind its test of the state and have
-- not sent yet, the state of the handler, and what was handed to it, the newest first.
pub record Replying (M : Type 0) : Type 0 where
  pub reply : OutReply
  pub waiting : List ZmfMessage
  pub handler : M
  pub sent : List (ExternalRequestIdentity × ZmfMessage)

-- One of the calls that wait, and the others.
unfoldable pub pick : ℕ → List ZmfMessage → Option (ZmfMessage × List ZmfMessage)
pick n [] = none
pick zero (x ∷ xs) = some (x, xs)
pick (suc n) (x ∷ xs) = elim (pick n xs) [ none ↦ none | some (y, ys) ↦ some (y, x ∷ ys) ]

-- Whoever handles `sendReply`; `none` is an exception.
abbrev pub ReplyHandler : Type 0 → Type 0
ReplyHandler M = ExternalRequestIdentity → ZmfMessage → M → Option M

module _ {M : Type 0} (send_reply : ReplyHandler M) where
  -- sendFutureReply, up to the mutex.
  unfoldable pub begin_send : ZmfMessage → Replying M → Replying M
  begin_send message p = elim p.reply.state [
    | finished ↦ p
    | open_reply ↦ record p { waiting = p.waiting ++ message ∷ [] }
  ]

  -- sendFutureReply, from the mutex on, by the call with the number; `none` where there is no such
  -- call, or where it waits for the service.
  unfoldable pub end_send : ℕ → Replying M → Option (Replying M)
  unfolding pick
  end_send n p = elim (pick n p.waiting) [
    | none ↦ none
    | some (message, others) ↦ elim p.reply.injected [
      | none ↦ none
      | some id ↦ elim (send_reply id message p.handler) [
        | none ↦ some (record p { waiting = others })
        | some m ↦ some (record p {
          reply = record p.reply { state = finished };
          waiting = others;
          handler = m;
          sent = (id, message) ∷ p.sent;
        })
      ]
    ]
  ]

  -- A step of one of the threads, where at most `limit` calls of sendFutureReply overlap.
  pub data ReplyStep (limit : ℕ) : Replying M → Replying M → Type 0 where
    injects :
        {p : Replying M} (id : ExternalRequestIdentity)
        → ReplyStep limit p (record p { reply = inject_service id p.reply })
    begins :
        {p : Replying M} (message : ZmfMessage)
        → length p.waiting < limit
        → ReplyStep limit p (begin_send message p)
    ends : {p p' : Replying M} (n : ℕ) → end_send n p ≡ some p' → ReplyStep limit p p'

  pub data ReplyRun (limit : ℕ) : Replying M → Replying M → Type 0 where
    none_yet : {p : Replying M} → ReplyRun limit p p
    one_more :
        {p p' p'' : Replying M}
        → ReplyRun limit p p'
        → ReplyStep limit p' p''
        → ReplyRun limit p p''

-- A reply object as a module makes it for an answer in the future.
abbrev pub made : {M : Type 0} → M → Replying M
made m = record { reply = create_future_reply; waiting = []; handler = m; sent = [] }
