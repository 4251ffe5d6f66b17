-- ===== src/Discovery/Receive/Refresh.antt =====
-- What a broadcast of a registered peer that is not dead does.
use mathlib.Core.Path.{fun_ext}
use zmf.Prelude.{
  ◌≡◌, ◌≢◌, refl, ◌∙◌, true, false, Bytes, Option, none, some, arith, inl, inr, Bool-cases,
  Option-cases, if◌then◌else◌, ap,
}
use zmf.Prelude.Map.{same_iff, same_refl}
use zmf.Data.UniqueId.{ModuleUniqueId}
use zmf.Data.UniqueId.Order.{id_key}
use zmf.Data.Handle.{dead, state_eq, state_eq_iff}
use zmf.Registry.{PeerRegistry, update_peer_state, update_peer_additional_state}
use zmf.Registry.Consistent.{IsConsistent}
use zmf.Registry.View.{Entry, view, promise, apply-promise, update_state, update_additional_state}
use zmf.Registry.Faults.{update_peer_state-fault}
use zmf.Registry.Queries.{get_peer_state}
use zmf.Registry.Queries.Answers.{get_peer_state_lem}
use zmf.Discovery.State.{
  StateBroadcast, Discovery, PeerStateChange, update, sender_id, additional_state_of,
}
use zmf.Discovery.Receive.{peer_refreshed}
use zmf.Discovery.Receive.Soundness.{IsSound, set_entry, Fits}
use zmf.Discovery.Receive.Effects.{heard_state, known, Heard, IsSound-after}

module _ {C : Type 0} (notify : PeerStateChange C) (b : StateBroadcast) (ip : Bytes)
    (d : Discovery C) (v : IsSound d) (e : Entry) (p : known notify b ip d ≡ some e)
    (live : heard_state b ≢ dead) where
  key : e.handle.unique_id ≡ sender_id b
  key = v.directory.keyed (sender_id b) e p

  -- The service after the timeout and the additional state have been written.
  abbrev informed : Discovery C
  informed = record d {
    timeouts = update d.timeouts e.handle.ref 0;
    registry = update_peer_additional_state (sender_id b) (additional_state_of b) d.registry;
  }

  informed-promise :
      IsConsistent informed.registry
      × (view informed.registry
          ≡ promise
              (update_additional_state (sender_id b) (additional_state_of b))
              (view d.registry))
  informed-promise =
      apply-promise (update_additional_state (sender_id b) (additional_state_of b)) d.registry
        v.consistent refl

  informed-entry :
      view informed.registry (sender_id b)
      ≡ some (record e { additional_state = additional_state_of b })
  informed-entry =
      ap (λ dir. dir (sender_id b)) informed-promise.1 ∙ ground (arith, p, same_refl (sender_id b))

  informed-state : get_peer_state e.handle informed.registry ≡ e.state
  informed-state =
      (get_peer_state_lem informed.registry informed-promise.0 (sender_id b) e.handle
        (record e { additional_state = additional_state_of b }) key informed-entry).0

  -- The entry of the peer afterwards.
  abbrev refreshed : Option Entry
  refreshed = some (record {
    handle = e.handle;
    state = heard_state b;
    additional_state = additional_state_of b;
  })

  refreshed-Fits : Fits d.next_ref (sender_id b) (view d.registry) refreshed
  refreshed-Fits = (
    key,
    live,
    v.directory.allocated (sender_id b) e p,
    λ j f q s. v.directory.distinct (sender_id b) j e f p q s,
  )

  -- The effects, from those on the registry and on the core.
  effects :
      (d' : Discovery C)
      → IsConsistent d'.registry
      → ((j : ModuleUniqueId)
          → view d'.registry j ≡ set_entry (sender_id b) refreshed (view d.registry) j)
      → d'.next_ref ≡ d.next_ref
      → d'.timeouts ≡ update d.timeouts e.handle.ref 0
      → d'.core ≡ (
          if state_eq e.state (heard_state b)
          then d.core
          else notify e.handle (heard_state b) e.state d.core)
      → Heard notify b ip d d'
  effects d' c w n t k = record {
    sound =
        IsSound-after notify b ip d v d' refreshed c (fun_ext w) (omega (arith, n))
          (rw n refreshed-Fits);
    directory = λ j. w j ∙ ground (arith, p, live, state_eq_iff (heard_state b) dead);
    told = k ∙ ground (arith, p);
    timed = λ ref. ap (λ f. f ref) t ∙ ground (arith, p, live, state_eq_iff (heard_state b) dead);
  }

  -- The service after a change of state.
  abbrev changed : PeerRegistry → Discovery C
  changed r = record informed {
    registry = r;
    core = notify e.handle (heard_state b) e.state d.core;
  }

  same_state-Heard : state_eq e.state (heard_state b) ≡ true → Heard notify b ip d informed
  same_state-Heard s =
      effects informed informed-promise.0
        (λ j.
          ap (λ dir. dir j) informed-promise.1
          ∙ ground (arith, p, same_iff (sender_id b) j, state_eq_iff e.state (heard_state b)))
        refl refl (rw s)

  changed-Heard :
      (r : PeerRegistry)
      → state_eq e.state (heard_state b) ≡ false
      → update_peer_state (sender_id b) (heard_state b) informed.registry ≡ some r
      → Heard notify b ip d (changed r)
  changed-Heard r s step =
      let (c, w) =
        apply-promise (update_state (sender_id b) (heard_state b)) informed.registry
          informed-promise.0 step in
      effects (changed r) c
        (λ j.
          ap (λ dir. dir j) w
          ∙ ground (
            arith,
            p,
            informed-entry,
            ap (λ dir. dir j) informed-promise.1,
            same_iff (sender_id b) j,
          ))
        refl refl (rw s)

  no_fault : update_peer_state (sender_id b) (heard_state b) informed.registry ≢ none
  no_fault f =
      let (_, _, _, gone, _) =
        (update_peer_state-fault (sender_id b) (heard_state b) informed.registry
            informed-promise.0).0
          f in
      ground (arith, gone, informed-entry)

  pub refreshed-Heard :
      (d' : Discovery C) × (peer_refreshed notify e.handle b d ≡ some d') × Heard notify b ip d d'
  unfolding peer_refreshed
  refreshed-Heard = elim (Bool-cases (state_eq e.state (heard_state b))) [
    | inl s ↦ (informed, simp (key, informed-state, s), same_state-Heard s)
    | inr s ↦
        elim (Option-cases (update_peer_state (sender_id b) (heard_state b) informed.registry)) [
          | inl f ↦ absurd (no_fault f)
          | inr (r, step) ↦ (changed r, simp (key, informed-state, s, step), changed-Heard r s step)
        ]
  ]
