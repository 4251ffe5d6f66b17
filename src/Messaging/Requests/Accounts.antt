-- ===== src/Messaging/Requests/Accounts.antt =====
-- The requests that wait for a reply, and the answers that their futures got.
use zmf.Prelude.{
  ℕ, ◌+◌, ◌%◌, ◌^◌, ◌<◌, ◌==◌, ltb, ◌≡◌, sym, Bool, true, false, Bytes, Option, none, some, List,
  [], ◌∷◌, ◌++◌, map, arith, if◌then◌else◌, Bool-cases, inl, inr,
}
use zmf.Prelude.Map.{Map, same, lookup, contains, put, erase, keys, lookup-put, lookup-erase}
use zmf.Prelude.Map.Ordered.{IsOrdered, absent, put-IsOrdered, erase-IsOrdered}
use zmf.Data.UniqueId.{ModuleUniqueId}
use zmf.Data.UniqueId.Order.{id_key, number_key}
use zmf.Data.Message.{ZmfMessage}
use zmf.Messaging.State.{Wire, Messaging, Fulfilment, target_unknown, broken}
use zmf.Messaging.Requests.{break_promise, break_promises, to_target, send_request}

-- How often a request has got its answer.
abbrev pub answers_of : ℕ → List (ℕ × Fulfilment) → ℕ
answers_of id [] = 0
answers_of id ((k, a) ∷ answers) = (if k == id then 1 else 0) + answers_of id answers

abbrev pub one_if : Bool → ℕ
one_if b = if b then 1 else 0

-- Each request that was sent waits, or it has got one answer; no other id waits or was answered.
abbrev pub IsAccounted : Messaging → Type 0
IsAccounted m =
    IsOrdered m.outstanding_requests
    × ((id : ℕ)
        → answers_of id m.answers + one_if (contains id m.outstanding_requests)
          ≡ one_if (ltb id m.next_request_id))

same_number : (a b : ℕ) → same a b ≡ (a == b)
unfolding same
same_number a b = ground arith

pub contains-put :
    (id j : ℕ) (m : Map ℕ (Unit {0}))
    → contains j (put id tt m) ≡ (if id == j then true else contains j m)
unfolding contains
contains-put id j m = ground (arith, lookup-put id j tt m, same_number id j)

pub contains-erase :
    (id j : ℕ) (m : Map ℕ (Unit {0}))
    → contains j (erase id m) ≡ (if id == j then false else contains j m)
unfolding contains
contains-erase id j m = ground (arith, lookup-erase id j m, same_number id j)

answers_of-broken :
    (id : ℕ) (m : Map ℕ (Unit {0})) (answers : List (ℕ × Fulfilment))
    → IsOrdered m
    → answers_of id (map (λ k. (k, broken)) (keys m) ++ answers)
      ≡ one_if (contains id m) + answers_of id answers
unfolding contains lookup
answers_of-broken id [] answers s = omega arith
answers_of-broken id ((k, v) ∷ m) answers s =
    ground (arith, answers_of-broken id m answers s.1, absent k m s.0, same_number k id)

-- The request that gets its answer was waiting.
pub settled :
    (id : ℕ) (a : Fulfilment) (m : Messaging)
    → contains id m.outstanding_requests ≡ true
    → IsAccounted m
    → IsAccounted (record m {
      outstanding_requests = erase id m.outstanding_requests;
      answers = (id, a) ∷ m.answers;
    })
settled id a m waits s = (
  erase-IsOrdered id m.outstanding_requests s.0,
  λ j. ground (arith, s.1 j, contains-erase id j m.outstanding_requests),
)

pub break_promise-IsAccounted :
    (id : ℕ) (m : Messaging) → IsAccounted m → IsAccounted (break_promise id m)
unfolding break_promise
break_promise-IsAccounted id m s = elim (Bool-cases (contains id m.outstanding_requests)) [
  | inl e ↦ rw e (settled id broken m e s)
  | inr e ↦ rw e s
]

pub break_promises-IsAccounted : (m : Messaging) → IsAccounted m → IsAccounted (break_promises m)
unfolding break_promises contains lookup
break_promises-IsAccounted m s =
    (tt, λ j. ground (arith, s.1 j, answers_of-broken j m.outstanding_requests m.answers s.0))

-- The id that is given out is new.
asked :
    (m : Messaging)
    → m.next_request_id + 1 < 2 ^ 64
    → IsAccounted m
    → IsAccounted (record m {
      next_request_id = (m.next_request_id + 1) % 2 ^ 64;
      outstanding_requests = put m.next_request_id tt m.outstanding_requests;
    })
asked m bound s = (
  put-IsOrdered m.next_request_id tt m.outstanding_requests s.0,
  λ j. ground (arith, s.1 j, contains-put m.next_request_id j m.outstanding_requests),
)

to_target-IsAccounted :
    (w : Wire) (address : Option Bytes) (id : ℕ) (msg : ZmfMessage) (m : Messaging)
    → contains id m.outstanding_requests ≡ true
    → IsAccounted m
    → IsAccounted (to_target w address id msg m)
unfolding to_target
to_target-IsAccounted w (some a) id msg m waits s = s
to_target-IsAccounted w none id msg m waits s = settled id target_unknown m waits s

pub send_request-IsAccounted :
    (w : Wire) (target : ModuleUniqueId) (msg : ZmfMessage) (m m' : Messaging) (id : ℕ)
    → send_request w target msg m ≡ some (id, m')
    → m.next_request_id + 1 < 2 ^ 64
    → IsAccounted m
    → IsAccounted m'
unfolding send_request
send_request-IsAccounted w target msg m m' id e bound s =
    let n = record m {
      next_request_id = (m.next_request_id + 1) % 2 ^ 64;
      outstanding_requests = put m.next_request_id tt m.outstanding_requests;
    } in
    let q : to_target w (lookup target m.sockets_req) m.next_request_id msg n ≡ m' = ground arith in
    rw (sym q) (
      to_target-IsAccounted w (lookup target m.sockets_req) m.next_request_id msg n
        (ground (arith, contains-put m.next_request_id m.next_request_id m.outstanding_requests))
        (asked m bound s))
