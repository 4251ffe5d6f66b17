-- ===== src/Instance/Linked.antt =====
-- The core and its services in front of the last part of the start of an instance.
use zmf.Prelude.{ℕ, ◌≡◌, ap, ◌∙◌, Bool, true, false, Option, some, arith}
use zmf.Prelude.Int.{ℤ}
use zmf.Data.Handle.{ModuleHandle}
use zmf.Dispatcher.State.{MessagingService, Dispatcher}
use zmf.Dispatcher.Control
use zmf.Dispatcher.Steady.{IsSameModule}
use zmf.Discovery.State.{Discovery, is_stopping}
use zmf.Discovery.Service
use zmf.Core.State.{Core, returned, dispatcher}
use zmf.Core.Switch.{Switches, start_instance, started}
use zmf.Core.Loop.Ends.{IsIdle}

module _ {M U : Type 0} (svc : MessagingService M) (module_switch : Switches M U) where
  pub start-same :
      (h : ModuleHandle) (size : Option ℤ) (e : Dispatcher M U)
      → IsSameModule e (Control.start svc h size e).2
  unfolding Control.start
  start-same h size e = ground arith

  -- The discovery service as `start` leaves it, where the network is up.
  pub discovery_started :
      (e : Dispatcher M U) (h : ModuleHandle) (disable_equal : Bool) (random : ℕ)
      (d : Discovery (Dispatcher M U))
      → d.is_started ≡ false
      → let (up, d') = Service.start e h 1000 disable_equal random true d in
        (up ≡ true)
        × (d'.core ≡ e)
        × (d'.is_started ≡ true)
        × (d'.peer_timeout ≡ 4000)
        × (d'.registry ≡ d.registry)
        × (d'.next_ref ≡ d.next_ref)
        × (is_stopping d' ≡ false)
        × (d'.disable_equal_module_interconnect ≡ disable_equal)
  unfolding Service.start
  discovery_started e h disable_equal random d off = ground arith

  -- The core in front of the last part of its start.
  abbrev pub linked : Bool → Option ℤ → ℕ → Core M U → Bool × Discovery (Dispatcher M U)
  linked disable_equal size random c =
      let r = Control.start svc c.self_handle size (dispatcher c) in
      Service.start r.2 r.1 1000 disable_equal random true (record c.discovery { core = r.2 })

  abbrev pub prepared :
      Bool
      → Option ℤ
      → ℕ
      → (Discovery (Dispatcher M U) → Discovery (Dispatcher M U))
      → Core M U
      → Core M U
  prepared disable_equal size random heard c = record c {
    is_stopped = false;
    self_handle = (Control.start svc c.self_handle size (dispatcher c)).1;
    discovery = heard (linked disable_equal size random c).1;
  }

  pub start_instance-returned :
      (auto_enable exit disable_equal : Bool) (size : Option ℤ) (random : ℕ)
      (heard : Discovery (Dispatcher M U) → Discovery (Dispatcher M U)) (c : Core M U)
      → c.is_started ≡ false
      → (Control.start svc c.self_handle size (dispatcher c)).0 ≡ some true
      → (linked disable_equal size random c).0 ≡ true
      → start_instance svc module_switch auto_enable exit disable_equal size random true heard c
        ≡ returned (
          true,
          started svc module_switch auto_enable exit (prepared disable_equal size random heard c),
        )
  unfolding start_instance
  start_instance-returned auto_enable exit disable_equal size random heard c fresh up on =
      simp (fresh, up, on)

  pub prepared-IsIdle :
      (disable_equal : Bool) (size : Option ℤ) (random : ℕ)
      (heard : Discovery (Dispatcher M U) → Discovery (Dispatcher M U)) (c : Core M U)
      → c.discovery.is_started ≡ false
      → IsIdle c
      → let d = (linked disable_equal size random c).1 in
        IsSameModule d.core (heard d).core → IsIdle (prepared disable_equal size random heard c)
  prepared-IsIdle disable_equal size random heard c silent idle same =
      let r = Control.start svc c.self_handle size (dispatcher c) in
      let k = start-same c.self_handle size (dispatcher c) in
      let s =
        discovery_started r.2 r.1 disable_equal random (record c.discovery { core = r.2 }) silent in
      (
        same.0 ∙ ap (λ e. e.activity) s.1 ∙ k.0 ∙ idle.0,
        same.1 ∙ ap (λ e. e.alive) s.1 ∙ k.1 ∙ idle.1,
        same.2 ∙ ap (λ e. e.module_locked) s.1 ∙ k.2 ∙ idle.2,
        idle.3,
      )
