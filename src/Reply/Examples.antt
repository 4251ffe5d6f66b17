-- ===== src/Reply/Examples.antt =====
-- Replies of a module that answers later, and the handles of a request.
use zmf.Prelude.{ℕ, suc, ◌≡◌, refl, some, [], ◌∷◌, arith}
use zmf.Registry.Examples.{sensor}
use zmf.Data.Message.{ZmfMessage}
use zmf.Data.RequestIdentity.{ExternalRequestIdentity}
use zmf.Messaging.Examples.{live}
use zmf.Messaging.Requests.{cancel_request}
use zmf.Reply.Out.{
  ReplyHandler, Replying, finished, create_immediate_reply, create_future_reply, inject_service,
  move_reply, empty_message, begin_send, end_send, pick, ReplyRun, none_yet, one_more, injects,
  begins, ends, made,
}
use zmf.Reply.Out.Once.{IsWithin, ReplyRun-IsWithin}
use zmf.Reply.In.{moves, destroys, new_in_reply, handle_calls}
use zmf.Reply.In.Handles.{handle_calls_lem}

-- The handler counts.
abbrev counts : ReplyHandler ℕ
counts id message n = some (suc n)

abbrev yes : ZmfMessage
yes = record { type = record { match = 7 ∷ [] }; payload = 1 ∷ [] }

abbrev no : ZmfMessage
no = record { type = record { match = 7 ∷ [] }; payload = 0 ∷ [] }

abbrev asked : ExternalRequestIdentity
asked = record { sender_id = sensor.unique_id; request_id = 9 }

-- The reply object after one reply.
abbrev replied : Replying ℕ
replied = record {
  reply = record create_future_reply { state = finished; injected = some asked };
  waiting = [];
  handler = 1;
  sent = (asked, yes) ∷ [];
}

one_call : ReplyRun counts 1 (made 0) replied
unfolding begin_send end_send inject_service pick
one_call =
    one_more (one_more (one_more none_yet (begins yes (omega arith))) (injects asked)) (ends 0 refl)

ReplyRun-IsWithin_example : IsWithin counts 1 replied
ReplyRun-IsWithin_example = ReplyRun-IsWithin counts 1 0 one_call

-- Two calls that overlap both send: the test of the state is outside the mutex.
two_replies :
    ReplyRun counts 2
      (made 0)
      (record replied { handler = 2; sent = (asked, no) ∷ (asked, yes) ∷ [] })
unfolding begin_send end_send inject_service pick
two_replies =
    one_more
      (one_more
        (one_more
          (one_more (one_more none_yet (begins yes (omega arith))) (begins no (omega arith)))
          (injects asked))
        (ends 0 refl))
      (ends 0 refl)

-- A reply that is moved loses its message.
moved_empty : move_reply (create_immediate_reply yes) ≡ create_immediate_reply empty_message
unfolding move_reply create_immediate_reply
moved_empty = refl

handle_calls_lem_example :
    let (r, m) = handle_calls (moves ∷ destroys ∷ destroys ∷ []) (new_in_reply 3) live in
    (r.request_id ≡ 3) × (r.owners ≡ 0) × (m ≡ cancel_request 3 live)
unfolding new_in_reply
handle_calls_lem_example =
    handle_calls_lem (moves ∷ destroys ∷ destroys ∷ []) (new_in_reply 3) live (omega arith)
      (omega arith, (omega arith, (omega arith, tt)))
