-- ===== src/Reply/In.antt =====
-- ZmfInReply: the handles of one request that was sent. A handle that is moved from keeps its share
-- of the request id, so that all of them are counted; the future itself is not modelled, but the
-- answer that the service gives it is (`answers` of the service).
pub mod Handles
use zmf.Prelude.{ℕ, ◌+◌, ◌-◌, ◌==◌, Bool, true, false, List, [], ◌∷◌, if◌then◌else◌}
use zmf.Messaging.State.{Messaging}
use zmf.Messaging.Requests.{cancel_request}

-- `requestId_`, with the number of handles that share it.
pub record InReply : Type 0 where
  pub request_id : ℕ
  pub owners : ℕ

-- What is done with the handles.
pub data HandleCall : Type 0 where
  moves destroys cancels : HandleCall

-- The constructor.
unfoldable pub new_in_reply : ℕ → InReply
new_in_reply id = record { request_id = id; owners = 1 }

-- The move constructor.
unfoldable pub move_in_reply : InReply → InReply
move_in_reply r = record r { owners = r.owners + 1 }

-- The destructor: the last handle cancels the request.
unfoldable pub destroy_in_reply : InReply → Messaging → InReply × Messaging
destroy_in_reply r m =
    (record r { owners = r.owners - 1 }, if r.owners == 1 then cancel_request r.request_id m else m)

-- cancelRequest
unfoldable pub cancel_in_reply : InReply → Messaging → Messaging
cancel_in_reply r m = cancel_request r.request_id m

handle_call : HandleCall → InReply → Messaging → InReply × Messaging
handle_call moves r m = (move_in_reply r, m)
handle_call destroys r m = destroy_in_reply r m
handle_call cancels r m = (r, cancel_in_reply r m)

unfoldable pub handle_calls : List HandleCall → InReply → Messaging → InReply × Messaging
unfolding handle_call
handle_calls [] r m = (r, m)
handle_calls (call ∷ calls) r m = let (r', m') = handle_call call r m in handle_calls calls r' m'
