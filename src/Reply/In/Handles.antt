-- ===== src/Reply/In/Handles.antt =====
-- When a request is cancelled by its handles.
use zmf.Prelude.{
  ℕ, ◌+◌, ◌-◌, ◌<◌, ◌≡◌, refl, subst, ◌∙◌, ◌==◌, ◌||◌, Bool, true, false, List, [], ◌∷◌, arith,
  Bool-cases, inl, inr, if◌then◌else◌,
}
use zmf.Prelude.Map.{contains, lookup-erase, same_refl}
use zmf.Data.UniqueId.Order.{number_key}
use zmf.Messaging.State.{Messaging}
use zmf.Messaging.Requests.{cancel_request, break_promise}
use zmf.Reply.In.{
  InReply, HandleCall, moves, destroys, cancels, move_in_reply, destroy_in_reply, cancel_in_reply,
  handle_call, handle_calls,
}

-- The number of handles after the calls.
abbrev pub owners_after : List HandleCall → ℕ → ℕ
owners_after [] n = n
owners_after (moves ∷ calls) n = owners_after calls (n + 1)
owners_after (destroys ∷ calls) n = owners_after calls (n - 1)
owners_after (cancels ∷ calls) n = owners_after calls n

-- Every call is made on a handle that there is.
abbrev pub AreOnHandles : List HandleCall → ℕ → Type 0
AreOnHandles [] n = Unit
AreOnHandles (moves ∷ calls) n = (0 < n) × AreOnHandles calls (n + 1)
AreOnHandles (destroys ∷ calls) n = (0 < n) × AreOnHandles calls (n - 1)
AreOnHandles (cancels ∷ calls) n = (0 < n) × AreOnHandles calls n

abbrev pub has_cancel : List HandleCall → Bool
has_cancel [] = false
has_cancel (moves ∷ calls) = has_cancel calls
has_cancel (destroys ∷ calls) = has_cancel calls
has_cancel (cancels ∷ calls) = true

cancel_twice :
    (id : ℕ) (m : Messaging) → cancel_request id (cancel_request id m) ≡ cancel_request id m
unfolding cancel_request break_promise contains
cancel_twice id m = elim (Bool-cases m.alive) [
  | inr down ↦ ground arith
  | inl up ↦ elim (Bool-cases (contains id m.outstanding_requests)) [
    | inr free ↦ ground arith
    | inl waits ↦ ground (arith, lookup-erase id id m.outstanding_requests, same_refl id)
  ]
]

-- Nothing is left to do without a handle.
no_handles : (calls : List HandleCall) → AreOnHandles calls 0 → calls ≡ []
no_handles [] on = refl
no_handles (moves ∷ calls) on = absurd (omega (arith, on.0))
no_handles (destroys ∷ calls) on = absurd (omega (arith, on.0))
no_handles (cancels ∷ calls) on = absurd (omega (arith, on.0))

-- However the handles of a request are moved and destroyed, the request is cancelled if the last of
-- them is destroyed or one of them was told to cancel it, and only then; otherwise the service
-- is as it was. The calls must be made on handles that there are.
pub handle_calls_lem :
    (calls : List HandleCall) (r : InReply) (m : Messaging)
    → 0 < r.owners
    → AreOnHandles calls r.owners
    → let (r', m') = handle_calls calls r m in
      (r'.request_id ≡ r.request_id)
      × (r'.owners ≡ owners_after calls r.owners)
      × (m' ≡ (
          if has_cancel calls || owners_after calls r.owners == 0
          then cancel_request r.request_id m
          else m))
unfolding handle_calls handle_call move_in_reply destroy_in_reply cancel_in_reply
handle_calls_lem [] r m some_one on = (refl, refl, ground arith)
handle_calls_lem (moves ∷ calls) r m some_one on =
    handle_calls_lem calls (record r { owners = r.owners + 1 }) m (omega arith) on.1
handle_calls_lem (cancels ∷ calls) r m some_one on =
    let k = handle_calls_lem calls r (cancel_request r.request_id m) some_one on.1 in
    (k.0, k.1, k.2 ∙ ground (arith, cancel_twice r.request_id m))
handle_calls_lem (destroys ∷ calls) r m some_one on = elim (Bool-cases (r.owners == 1)) [
  | inl last ↦
      let none_left : r.owners - 1 ≡ 0 = ground arith in
      let e = no_handles calls (subst (AreOnHandles calls) none_left on.1) in
      rw (e, last) (refl, refl, ground arith)
  | inr more ↦
      let q : handle_calls (destroys ∷ calls) r m
          ≡ handle_calls calls (record r { owners = r.owners - 1 }) m =
        ground arith in
      rw q (handle_calls_lem calls (record r { owners = r.owners - 1 }) m (ground arith) on.1)
]
