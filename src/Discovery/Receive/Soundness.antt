-- ===== src/Discovery/Receive/Soundness.antt =====
-- What holds of the directory of a discovery service: registered peers are not dead, and each has a
-- handle object of its own.
use zmf.Prelude.{ℕ, ◌<◌, ◌≤◌, ◌≡◌, ◌≢◌, Option, none, some, arith, if◌then◌else◌}
use zmf.Prelude.Map.{same, same_iff}
use zmf.Data.UniqueId.{ModuleUniqueId}
use zmf.Data.UniqueId.Order.{id_key}
use zmf.Data.Handle.{dead}
use zmf.Registry.Consistent.{IsConsistent}
use zmf.Registry.View.{Entry, Directory, view}
use zmf.Discovery.State.{Discovery}

pub record IsSoundDirectory (next_ref : ℕ) (dir : Directory) : Type 0 where
  pub keyed : (id : ModuleUniqueId) (e : Entry) → dir id ≡ some e → e.handle.unique_id ≡ id
  pub alive : (id : ModuleUniqueId) (e : Entry) → dir id ≡ some e → e.state ≢ dead
  pub allocated : (id : ModuleUniqueId) (e : Entry) → dir id ≡ some e → e.handle.ref < next_ref
  pub distinct :
      (i j : ModuleUniqueId) (e f : Entry)
      → dir i ≡ some e
      → dir j ≡ some f
      → e.handle.ref ≡ f.handle.ref
      → i ≡ j

-- The registry is consistent, and its directory sound for the objects that were made so far.
pub record IsSound {C : Type 0} (d : Discovery C) : Type 0 where
  pub consistent : IsConsistent d.registry
  pub directory : IsSoundDirectory d.next_ref (view d.registry)

-- A directory with one entry changed.
abbrev pub set_entry : ModuleUniqueId → Option Entry → Directory → Directory
set_entry id o dir j = if same id j then o else dir j

-- An entry that may stand at an id: none, or one of a live peer with an object that no other peer
-- has.
abbrev pub Fits : ℕ → ModuleUniqueId → Directory → Option Entry → Type 0
Fits next_ref id dir none = Unit
Fits next_ref id dir (some e) =
    (e.handle.unique_id ≡ id)
    × (e.state ≢ dead)
    × (e.handle.ref < next_ref)
    × ((j : ModuleUniqueId) (f : Entry) → dir j ≡ some f → e.handle.ref ≡ f.handle.ref → id ≡ j)

module _ (next_ref next_ref' : ℕ) (id : ModuleUniqueId) (dir : Directory)
    (v : IsSoundDirectory next_ref dir) (grows : next_ref ≤ next_ref') where
  removed_entry : IsSoundDirectory next_ref' (set_entry id none dir)
  removed_entry = record {
    keyed = λ j e p. ground (arith, v.keyed j e);
    alive = λ j e p. ground (arith, v.alive j e);
    allocated = λ j e p. ground (arith, v.allocated j e);
    distinct = λ i j e f p q s. ground (arith, v.distinct i j e f);
  }

  changed_entry :
      (g : Entry)
      → Fits next_ref' id dir (some g)
      → IsSoundDirectory next_ref' (set_entry id (some g) dir)
  changed_entry g (key, live, fresh, own) = record {
    keyed = λ j e p. ground (arith, v.keyed j e, same_iff id j);
    alive = λ j e p. ground (arith, v.alive j e);
    allocated = λ j e p. ground (arith, v.allocated j e);
    distinct = λ i j e f p q s.
        ground (arith, v.distinct i j e f, same_iff id i, same_iff id j, own j f, own i e);
  }

  pub set_entry-IsSoundDirectory :
      (o : Option Entry) → Fits next_ref' id dir o → IsSoundDirectory next_ref' (set_entry id o dir)
  set_entry-IsSoundDirectory none fits = removed_entry
  set_entry-IsSoundDirectory (some g) fits = changed_entry g fits
