-- ===== src/Discovery/Timeouts/Peers.antt =====
-- The peers of a registry, as `updatePeerTimeouts` goes through them.
use zmf.Prelude.{
  ℕ, ltb, ◌≡◌, ◌≢◌, refl, sym, subst, Bool, true, false, Option, none, some, List, [], ◌∷◌, All,
  arith, Bool-cases, inl, inr,
}
use zmf.Prelude.Map.{same, same_iff, lookup, contains, values}
use zmf.Prelude.Map.Ordered.{IsOrdered, absent, lookup_behind}
use zmf.Data.UniqueId.{ModuleUniqueId}
use zmf.Data.UniqueId.Order.{id_key}
use zmf.Data.Handle.{ModuleHandle}
use zmf.Registry.{Peers}
use zmf.Registry.View.{Entry, Directory}
use zmf.Discovery.Timeouts.Ages.{HasOwnObjects, has_object, aged, overdue}
use zmf.Discovery.Timeouts.Drops.{has_id, IsListed}

-- Each peer stands under its own id and has an object of its own.
abbrev pub IsKeyed : Peers → Type 0
IsKeyed m = (j : ModuleUniqueId) (h : ModuleHandle) → lookup j m ≡ some h → h.unique_id ≡ j

abbrev pub IsOwned : Peers → Type 0
IsOwned m =
    (i j : ModuleUniqueId) (g h : ModuleHandle)
    → lookup i m ≡ some g
    → lookup j m ≡ some h
    → g.ref ≡ h.ref
    → i ≡ j

module _ (k : ModuleUniqueId) (h : ModuleHandle) (m : Peers) (s : IsOrdered ((k, h) ∷ m)) where
  behind-IsKeyed : IsKeyed ((k, h) ∷ m) → IsKeyed m
  behind-IsKeyed keyed j g e = keyed j g (lookup_behind j k h g m s e).1

  behind-IsOwned : IsOwned ((k, h) ∷ m) → IsOwned m
  behind-IsOwned own i j f g p q =
      own i j f g (lookup_behind i k h f m s p).1 (lookup_behind j k h g m s q).1

  lookup-first : lookup k ((k, h) ∷ m) ≡ some h
  unfolding lookup
  lookup-first = ground (arith, same_iff k k)

-- What holds of every entry holds of every value.
All-values :
    (P : ModuleHandle → Type 0) (m : Peers)
    → IsOrdered m
    → ((j : ModuleUniqueId) (h : ModuleHandle) → lookup j m ≡ some h → P h)
    → All P (values m)
All-values P [] s f = tt
All-values P ((k, h) ∷ m) s f = (
  f k h (lookup-first k h m s),
  All-values P m s.1 (λ j g e. f j g (lookup_behind j k h g m s e).1),
)

pub values-HasOwnObjects : (m : Peers) → IsOrdered m → IsOwned m → HasOwnObjects (values m)
values-HasOwnObjects [] s own = tt
values-HasOwnObjects ((k, h) ∷ m) s own = (
  All-values (λ g. h.ref ≢ g.ref) m s.1
      (λ j g e r.
        let b = lookup_behind j k h g m s e in
        let q = own k j h g (lookup-first k h m s) b.1 r in
        absurd (ground (arith, b.0, (same_iff k j).1 q))),
  values-HasOwnObjects m s.1 (behind-IsOwned k h m s own),
)

module _ (frequency limit : ℕ) (t : ℕ → ℕ) where
  All-overdue :
      (P : ModuleHandle → Type 0) (hs : List ModuleHandle)
      → All P hs
      → All P (overdue frequency limit t hs)
  All-overdue P [] a = tt
  All-overdue P (h ∷ hs) a = elim (Bool-cases (ltb limit (aged frequency (t h.ref)))) [
    | inl e ↦ rw e (a.0, All-overdue P hs a.1)
    | inr e ↦ rw e (All-overdue P hs a.1)
  ]

  pub overdue-IsListed :
      (dir : Directory) (m : Peers)
      → IsOrdered m
      → IsKeyed m
      → ((j : ModuleUniqueId) (h : ModuleHandle)
          → lookup j m ≡ some h
          → (e : Entry) × (dir j ≡ some e))
      → IsListed dir (overdue frequency limit t (values m))
  overdue-IsListed dir [] s keyed f = tt
  overdue-IsListed dir ((k, h) ∷ m) s keyed f =
      let rest =
        overdue-IsListed dir m s.1 (behind-IsKeyed k h m s keyed)
          (λ j g e. f j g (lookup_behind j k h g m s e).1) in
      let key : h.unique_id ≡ k = keyed k h (lookup-first k h m s) in
      let others : All (λ g. same h.unique_id g.unique_id ≡ false) (values m) =
        All-values (λ g. same h.unique_id g.unique_id ≡ false) m s.1
          (λ j g e. let b = lookup_behind j k h g m s e in rw (key, keyed j g b.1) b.0) in
      elim (Bool-cases (ltb limit (aged frequency (t h.ref)))) [
        | inl e ↦ rw e (
          f h.unique_id h
              (subst (λ i. lookup i ((k, h) ∷ m) ≡ some h) (sym key) (lookup-first k h m s)),
          All-overdue (λ g. same h.unique_id g.unique_id ≡ false) (values m) others,
          rest,
        )
        | inr e ↦ rw e rest
      ]

  -- Who is over the limit, at an id.
  abbrev pub is_overdue : Option ModuleHandle → Bool
  is_overdue none = false
  is_overdue (some h) = ltb limit (aged frequency (t h.ref))

  pub has_id-overdue :
      (m : Peers) (j : ModuleUniqueId)
      → IsOrdered m
      → IsKeyed m
      → has_id j (overdue frequency limit t (values m)) ≡ is_overdue (lookup j m)
  unfolding lookup contains
  has_id-overdue [] j s keyed = refl
  has_id-overdue ((k, h) ∷ m) j s keyed = ground (
    arith,
    has_id-overdue m j s.1 (behind-IsKeyed k h m s keyed),
    keyed k h (lookup-first k h m s),
    absent k m s.0,
    same_iff k j,
  )

pub has_object-values :
    (m : Peers) (j : ModuleUniqueId) (h : ModuleHandle)
    → lookup j m ≡ some h
    → has_object h.ref (values m) ≡ true
unfolding lookup
has_object-values [] j h e = absurd (ground arith)
has_object-values ((k, g) ∷ m) j h e = ground (arith, has_object-values m j h)
