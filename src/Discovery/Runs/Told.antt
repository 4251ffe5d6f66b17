-- ===== src/Discovery/Runs/Told.antt =====
-- What any run of the loop keeps: the health of the service, and of the core what each call of
-- `peerStateChange` keeps.
use zmf.Prelude.{◌≡◌, refl, some, List, [], ◌∷◌, All, arith}
use zmf.Data.Handle.{ModuleHandle, ModuleState}
use zmf.Discovery.State.{Discovery, PeerStateChange}
use zmf.Discovery.Service.{send_state_multicast}
use zmf.Discovery.Timeouts.Kept.{loop_round-IsKept}
use zmf.Discovery.Runs.{Turn, go_rounds, multicast_loop}
use zmf.Discovery.Runs.Health.{IsHealthy, IsRemote, send_state_multicast-sent}
use zmf.Discovery.Runs.Rounds.{loop_round_lem}

module _ {C : Type 0} (notify : PeerStateChange C) (P : C → Type 0)
    (told : (h : ModuleHandle) (new_state last_state : ModuleState) (c : C)
      → P c
      → P (notify h new_state last_state c)) where
  go_rounds-told :
      (turns : List Turn) (d : Discovery C)
      → IsHealthy d
      → P d.core
      → All (λ turn. IsRemote turn.input) turns
      → (d' : Discovery C) × (go_rounds notify turns d ≡ some d') × IsHealthy d' × P d'.core
  unfolding go_rounds
  go_rounds-told [] d healthy p remote = (d, refl, healthy, p)
  go_rounds-told (turn ∷ turns) d healthy p remote =
      let r = loop_round_lem notify turn.time_diff turn.input d healthy remote.0 in
      let k = loop_round-IsKept notify P told turn.time_diff turn.input d r.0 r.1 in
      let s = go_rounds-told turns r.0 r.2 (k.core p) remote.1 in
      (s.0, ground (arith, r.1, s.1), s.2, s.3)

  -- Whatever broadcasts of other hosts come in, and whether peers are registered or not, known or
  -- new, heard or silent, the loop of a service that runs with a sound directory and an ordered map
  -- of peers comes through any number of its rounds: it never follows a null pointer and no
  -- assertion fails. After them the service still runs, its directory is sound and its map in order;
  -- and what every call of `peerStateChange` keeps of the core is kept.
  pub multicast_loop-IsHealthy :
      (turns : List Turn) (d : Discovery C)
      → IsHealthy d
      → P d.core
      → All (λ turn. IsRemote turn.input) turns
      → (d' : Discovery C) × (multicast_loop notify turns d ≡ some d') × IsHealthy d' × P d'.core
  unfolding multicast_loop
  multicast_loop-IsHealthy turns d (v, s, running) p remote =
      let d1 : Discovery C = record d { sent = (send_state_multicast d).sent } in
      let r =
        go_rounds-told turns d1
          (record { consistent = v.consistent; directory = v.directory }, s, running) p remote in
      rw (send_state_multicast-sent d running) r
