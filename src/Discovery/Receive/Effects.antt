-- ===== src/Discovery/Receive/Effects.antt =====
-- What a broadcast does to the directory, to the timeouts and to the core.
use mathlib.Core.Path.{fun_ext}
use zmf.Prelude.{
  ℕ, ◌+◌, ◌≤◌, ◌≡◌, ◌≢◌, refl, sym, ◌∙◌, false, Bytes, Option, none, some, arith, if◌then◌else◌, ap,
  ◌==◌, subst, not, ◌&&◌,
}
use zmf.Prelude.Map.{same_iff}
use zmf.Data.UniqueId.{ModuleUniqueId}
use zmf.Data.UniqueId.Order.{id_key}
use zmf.Data.Handle.{ModuleHandle, ModuleState, dead, state_eq, state_eq_iff}
use zmf.Registry.{add_module, remove_module}
use zmf.Registry.Consistent.{IsConsistent}
use zmf.Registry.View.{Entry, Directory, view, promise, apply-promise, add, remove}
use zmf.Registry.Queries.Answers.{get_peer_state_lem}
use zmf.Discovery.State.{
  StateBroadcast, Discovery, PeerStateChange, is_stopping, state_of_number, update, sender_id,
  additional_state_of, new_handle, is_loopback,
}
use zmf.Discovery.Service.{on_peer_new, on_peer_dead}
use zmf.Discovery.Receive.{peer_appeared}
use zmf.Discovery.Receive.Soundness.{
  IsSound, IsSoundDirectory, set_entry, Fits, set_entry-IsSoundDirectory,
}

-- The state of a peer, Dead where it is not registered.
abbrev pub state_in : Option Entry → ModuleState
state_in none = dead
state_in (some e) = e.state

-- The state that a broadcast carries.
abbrev pub heard_state : StateBroadcast → ModuleState
heard_state b = state_of_number b.lifecycle_state

-- The handle of the sender: the registered one, or a new one.
abbrev pub handle_or_new : StateBroadcast → Bytes → ℕ → Option Entry → ModuleHandle
handle_or_new b ip ref none = new_handle b ip ref
handle_or_new b ip ref (some e) = e.handle

-- The entry of the sender afterwards.
abbrev pub heard_entry : StateBroadcast → ModuleHandle → Option Entry
heard_entry b h =
    if state_eq (heard_state b) dead
    then none
    else some
        (record { handle = h; state = heard_state b; additional_state = additional_state_of b })

promise_of_new :
    (h : ModuleHandle) (s : ModuleState) (a : Bytes) (dir : Directory) (j : ModuleUniqueId)
    → dir h.unique_id ≡ none
    → promise (add h s a) dir j
      ≡ set_entry h.unique_id (some (record { handle = h; state = s; additional_state = a })) dir j
promise_of_new h s a dir j e = rw (e, promise)

module _ {C : Type 0} (notify : PeerStateChange C) (b : StateBroadcast) (ip : Bytes)
    (d : Discovery C) where
  -- The sender as the directory has it, and its handle.
  abbrev pub known : Option Entry
  known = view d.registry (sender_id b)

  abbrev pub peer : ModuleHandle
  peer = handle_or_new b ip d.next_ref known

  -- The effects of a broadcast that is not dropped.
  pub record Heard (d' : Discovery C) : Type 0 where
    pub sound : IsSound d'
    pub directory :
        (j : ModuleUniqueId)
        → view d'.registry j ≡ set_entry (sender_id b) (heard_entry b peer) (view d.registry) j
    pub told : d'.core ≡ (
        if state_eq (state_in known) (heard_state b)
        then d.core
        else notify peer (heard_state b) (state_in known) d.core)
    pub timed :
        (ref : ℕ)
        → d'.timeouts ref
          ≡ (if not (state_eq (heard_state b) dead) && ref == peer.ref then 0 else d.timeouts ref)

  module _ (v : IsSound d) where
    pub IsSound-after :
        (d' : Discovery C) (o : Option Entry)
        → IsConsistent d'.registry
        → view d'.registry ≡ set_entry (sender_id b) o (view d.registry)
        → d.next_ref ≤ d'.next_ref
        → Fits d'.next_ref (sender_id b) (view d.registry) o
        → IsSound d'
    IsSound-after d' o c e n f = record {
      consistent = c;
      directory = subst (IsSoundDirectory d'.next_ref) (sym e) (
          set_entry-IsSoundDirectory d.next_ref d'.next_ref (sender_id b) (view d.registry)
            v.directory n o f);
    }

    -- The state after a registered peer has said that it is dead.
    abbrev pub left : Entry → Discovery C
    left e = record d {
      registry = remove_module (sender_id b) d.registry;
      core = notify e.handle dead e.state d.core;
    }

    pub on_peer_dead-left :
        (e : Entry)
        → is_stopping d ≡ false
        → known ≡ some e
        → on_peer_dead notify e.handle d ≡ left e
    unfolding on_peer_dead
    on_peer_dead-left e running p =
        let key = v.directory.keyed (sender_id b) e p in
        let (s, _) = get_peer_state_lem d.registry v.consistent (sender_id b) e.handle e key p in
        rw (running, s, key)

    pub left-Heard : (e : Entry) → known ≡ some e → heard_state b ≡ dead → Heard (left e)
    left-Heard e p gone =
        let (c, w) = apply-promise (remove (sender_id b)) d.registry v.consistent refl in
        record {
          sound = IsSound-after (left e) none c w (omega arith) tt;
          directory = λ j. ap (λ dir. dir j) w ∙ rw gone;
          told = ground (arith, p, gone, v.directory.alive (sender_id b) e);
          timed = λ ref. ground (arith, gone);
        }

    -- A dead message of a peer that is not registered.
    pub unknown-Heard : known ≡ none → heard_state b ≡ dead → Heard d
    unknown-Heard p gone = record {
      sound = v;
      directory = λ j. ground (arith, p, gone, same_iff (sender_id b) j);
      told = ground (arith, p, gone);
      timed = λ ref. ground (arith, gone);
    }

    -- The state after a new peer has been heard.
    abbrev pub joined : Discovery C
    joined =
        let h = new_handle b ip d.next_ref in
        record d {
          registry = add_module h (heard_state b) (additional_state_of b) d.registry;
          core = notify h (heard_state b) dead d.core;
          timeouts = update d.timeouts d.next_ref 0;
          next_ref = d.next_ref + 1;
        }

    pub peer_appeared-joined :
        is_stopping d ≡ false → is_loopback ip ≡ false → peer_appeared notify b ip d ≡ some joined
    unfolding peer_appeared on_peer_new
    peer_appeared-joined running remote = rw (remote, running)

    pub joined-Heard : known ≡ none → heard_state b ≢ dead → Heard joined
    unfolding new_handle
    joined-Heard p live =
        let h : ModuleHandle = new_handle b ip d.next_ref in
        let (c, w) =
          apply-promise (add h (heard_state b) (additional_state_of b)) d.registry v.consistent
            refl in
        let o : Option Entry = some (record {
          handle = h;
          state = heard_state b;
          additional_state = additional_state_of b;
        }) in
        let shape : view joined.registry ≡ set_entry (sender_id b) o (view d.registry) =
          w
          ∙ fun_ext (λ j.
            promise_of_new h (heard_state b) (additional_state_of b) (view d.registry) j p) in
        record {
          sound = IsSound-after joined o c shape (omega arith) (
            refl,
            live,
            omega arith,
            λ j f q e. absurd (omega (arith, v.directory.allocated j f q, e)),
          );
          directory = λ j.
              ap (λ dir. dir j) shape ∙ ground (arith, p, live, state_eq_iff (heard_state b) dead);
          told = ground (
            arith,
            p,
            live,
            state_eq_iff (heard_state b) dead,
            state_eq_iff dead (heard_state b),
          );
          timed = λ ref. ground (arith, p, live, state_eq_iff (heard_state b) dead);
        }
