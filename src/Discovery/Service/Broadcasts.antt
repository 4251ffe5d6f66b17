-- ===== src/Discovery/Service/Broadcasts.antt =====
-- What a service broadcasts about itself, as another one reads it.
use zmf.Prelude.{ℕ, ◌≡◌, ◌<◌, ◌^◌, ◌⊎◌, refl, false, Bytes, ◌∷◌, arith}
use zmf.Data.Handle.{ModuleState, dead, inactive, active}
use zmf.Discovery.State.{
  StateBroadcast, Discovery, is_stopping, state_of_number, number_of_state, sender_id,
  additional_state_of, new_handle,
}
use zmf.Discovery.Service.{own_broadcast, send_state_multicast}

-- A state that the enumeration has.
abbrev pub IsDeclared : ModuleState → Type 0
IsDeclared s = (s ≡ dead) ⊎ (s ≡ inactive) ⊎ (s ≡ active)

state_of_number-number_of_state :
    (s : ModuleState) → IsDeclared s → state_of_number (number_of_state s) ≡ s
state_of_number-number_of_state s h = ground arith

module _ {C : Type 0} where
  -- A service that is running sends one broadcast, and who receives it reads from it the id, the
  -- name and the version of the module, its state and its additional state. The type id and the
  -- version must fit 16 bits, and the state be one of the enumeration.
  pub send_state_multicast_lem :
      (d : Discovery C) (ip : Bytes) (ref : ℕ)
      → is_stopping d ≡ false
      → d.self_handle.unique_id.type_id < 2 ^ 16
      → d.self_handle.version < 2 ^ 16
      → IsDeclared d.self_state
      → (b : StateBroadcast) × ((send_state_multicast d).sent ≡ b ∷ d.sent)
        × (sender_id b ≡ d.self_handle.unique_id)
        × (state_of_number b.lifecycle_state ≡ d.self_state)
        × (additional_state_of b ≡ d.self_additional_state)
        × ((new_handle b ip ref).unique_id ≡ d.self_handle.unique_id)
        × ((new_handle b ip ref).name ≡ d.self_handle.name)
        × ((new_handle b ip ref).version ≡ d.self_handle.version)
  unfolding send_state_multicast own_broadcast new_handle
  send_state_multicast_lem d ip ref running small small_version declared = (
    own_broadcast d,
    ground arith,
    ground arith,
    state_of_number-number_of_state d.self_state declared,
    refl,
    ground arith,
    refl,
    ground arith,
  )
