-- ===== src/Discovery/Runs/Silence.antt =====
-- A peer that falls silent, over any run of the loop.
use zmf.Prelude.{
  ℕ, ◌+◌, ◌≤◌, ◌<◌, ◌^◌, ltb, ◌≡◌, refl, ap, ◌∙◌, subst, true, false, none, some, List, [], ◌∷◌,
  All, arith, Bool-cases, inl, inr,
}
use zmf.Data.UniqueId.{ModuleUniqueId}
use zmf.Registry.View.{Entry, view}
use zmf.Discovery.State.{Discovery, PeerStateChange}
use zmf.Discovery.Service.{send_state_multicast}
use zmf.Discovery.Runs.{Turn, go_rounds, multicast_loop}
use zmf.Discovery.Runs.Health.{
  IsHealthy, IsRemote, IsOther, HasPeer, IsAged, IsAged-late, IsAged-low, send_state_multicast-sent,
  grown,
}
use zmf.Discovery.Runs.Rounds.{loop_round_lem}

-- The timeout of a silent peer after the rounds: the frequency is added in each in which a
-- broadcast is due.
abbrev pub silent_for : ℕ → List Turn → ℕ → ℕ
silent_for frequency [] timeout = timeout
silent_for frequency (turn ∷ turns) timeout =
    silent_for frequency turns (grown frequency turn.time_diff timeout)

silent_for-grows :
    (frequency : ℕ) (turns : List Turn) (timeout : ℕ) → timeout ≤ silent_for frequency turns timeout
silent_for-grows frequency [] timeout = omega arith
silent_for-grows frequency (turn ∷ turns) timeout =
    ground (arith, silent_for-grows frequency turns (grown frequency turn.time_diff timeout))

module _ {C : Type 0} (notify : PeerStateChange C) where
  go_rounds-silent :
      (id : ModuleUniqueId) (turns : List Turn) (d : Discovery C)
      → IsHealthy d
      → All (λ turn. IsRemote turn.input) turns
      → All (λ turn. IsOther id turn.input) turns
      → (d' : Discovery C) × (go_rounds notify turns d ≡ some d')
        × IsHealthy d'
        × (view d.registry id ≡ none → view d'.registry id ≡ none)
        × ((e : Entry) (timeout : ℕ)
            → HasPeer id e timeout d
            → timeout ≤ d.peer_timeout
            → d.peer_timeout + d.multicast_frequency < 2 ^ 32
            → IsAged d.peer_timeout id e (silent_for d.multicast_frequency turns timeout) d')
  unfolding go_rounds
  go_rounds-silent id [] d healthy remote other = (
    d,
    refl,
    healthy,
    λ p. p,
    λ e t has low bound. let late : ltb d.peer_timeout t ≡ false = ground arith in rw late has,
  )
  go_rounds-silent id (turn ∷ turns) d healthy remote other =
      let (d1, q, healthy1, same, f) =
        loop_round_lem notify turn.time_diff turn.input d healthy remote.0 in
      let (gone, aged) = f id other.0 in
      let (d2, r, healthy2, gone2, aged2) =
        go_rounds-silent id turns d1 healthy1 remote.1 other.1 in
      (
        d2,
        ground arith,
        healthy2,
        λ p. gone2 (gone p),
        λ e t has low bound.
            let g = grown d.multicast_frequency turn.time_diff t in
            elim (Bool-cases (ltb d.peer_timeout g)) [
              | inl late ↦
                  let later : ltb d.peer_timeout (silent_for d.multicast_frequency turns g) ≡ true =
                    ground (arith, silent_for-grows d.multicast_frequency turns g) in
                  rw later
                    (gone2 (IsAged-late d.peer_timeout id e g d1 late (aged e t has low bound)))
              | inr in_time ↦
                  let there =
                    IsAged-low d.peer_timeout id e g d1 in_time (aged e t has low bound) in
                  let k = aged2 e g there (ground arith) (ground arith) in
                  subst (λ l. IsAged l id e (silent_for d.multicast_frequency turns g) d2) same.4
                    (subst (λ m. IsAged d1.peer_timeout id e (silent_for m turns g) d2) same.3 k)
            ],
      )

  -- In any number of rounds of the loop of a healthy service in which no broadcast of a registered
  -- peer comes in, but any broadcasts of other peers on other hosts, that peer is still there, with
  -- the handle and the states that it had, as long as its timeout, to which the frequency is added
  -- in each round in which a broadcast of the service is due, is within the limit; it is not there
  -- any more once its timeout is over the limit. The loop comes through these rounds, and the
  -- service is healthy after them. The timeout must be within the limit at first, and the sum of
  -- the limit and the frequency must fit into 32 bits.
  pub multicast_loop_lem :
      (id : ModuleUniqueId) (e : Entry) (timeout : ℕ) (turns : List Turn) (d : Discovery C)
      → IsHealthy d
      → HasPeer id e timeout d
      → timeout ≤ d.peer_timeout
      → d.peer_timeout + d.multicast_frequency < 2 ^ 32
      → All (λ turn. IsRemote turn.input) turns
      → All (λ turn. IsOther id turn.input) turns
      → (d' : Discovery C) × (multicast_loop notify turns d ≡ some d')
        × IsHealthy d'
        × IsAged d.peer_timeout id e (silent_for d.multicast_frequency turns timeout) d'
  unfolding multicast_loop
  multicast_loop_lem id e timeout turns d (v, s, running) has low bound remote other =
      let d1 : Discovery C = record d { sent = (send_state_multicast d).sent } in
      let r =
        go_rounds-silent id turns d1
          (record { consistent = v.consistent; directory = v.directory }, s, running) remote
          other in
      (
        r.0,
        ap (go_rounds notify turns) (send_state_multicast-sent d running) ∙ r.1,
        r.2,
        r.4 e timeout has low bound,
      )
