-- ===== src/Prelude/Map/Ordered.antt =====
-- The order of the keys in a `std::map`.
use zmf.Prelude.Tests.{Bool-cases}
use mathlib.Core.Path.{◌≡◌, refl, sym, subst}
use mathlib.Core.Option.{some}
use mathlib.Core.Bool.{true, false}
use mathlib.Core.List.{[], ◌∷◌}
use mathlib.Core.Logic.{inl, inr}
use native.Mathlib.Omega.{arith}
use zmf.Prelude.Map.{OrdKey, Map, same, same_iff, lookup, contains, put, erase}

module _ {ℓ κ} {K : Type ℓ} {V : Type κ} ⦃o : OrdKey K⦄ where
  -- Each key comes after `k`.
  abbrev pub IsAbove : K → Map K V → Type 0
  IsAbove k [] = Unit {0}
  IsAbove k ((j, v) ∷ m) = (o.lt k j ≡ true) × IsAbove k m

  -- The keys come in their order, and none of them comes twice.
  abbrev pub IsOrdered : Map K V → Type 0
  IsOrdered [] = Unit {0}
  IsOrdered ((k, v) ∷ m) = IsAbove k m × IsOrdered m

  IsAbove-trans : (i k : K) (m : Map K V) → o.lt i k ≡ true → IsAbove k m → IsAbove i m
  IsAbove-trans i k [] p a = tt
  IsAbove-trans i k ((j, v) ∷ m) p a = (o.lt_trans i k j p a.0, IsAbove-trans i k m p a.1)

  put-IsAbove :
      (i k : K) (v : V) (m : Map K V) → o.lt i k ≡ true → IsAbove i m → IsAbove i (put k v m)
  unfolding put
  put-IsAbove i k v [] p a = (p, tt)
  put-IsAbove i k v ((j, w) ∷ m) p a = elim (Bool-cases (o.lt k j)) [
    | inl e ↦ rw e (p, a)
    | inr e ↦ elim (Bool-cases (o.lt j k)) [
      | inl u ↦ rw e (rw u (a.0, put-IsAbove i k v m p a.1))
      | inr u ↦ rw e (rw u (p, a.1))
    ]
  ]

  pub put-IsOrdered : (k : K) (v : V) (m : Map K V) → IsOrdered m → IsOrdered (put k v m)
  unfolding put same
  put-IsOrdered k v [] s = (tt, tt)
  put-IsOrdered k v ((j, w) ∷ m) s = elim (Bool-cases (o.lt k j)) [
    | inl e ↦ rw e ((e, IsAbove-trans k j m e s.0), s)
    | inr e ↦ elim (Bool-cases (o.lt j k)) [
      | inl u ↦ rw e (rw u (put-IsAbove j k v m u s.0, put-IsOrdered k v m s.1))
      | inr u ↦
          rw e (rw u (subst (λ x. IsAbove x m) (sym ((same_iff k j).0 (ground arith))) s.0, s.1))
    ]
  ]

  erase-IsAbove : (i k : K) (m : Map K V) → IsAbove i m → IsAbove i (erase k m)
  unfolding erase
  erase-IsAbove i k [] a = tt
  erase-IsAbove i k ((j, v) ∷ m) a = elim (Bool-cases (same j k)) [
    | inl e ↦ rw e (erase-IsAbove i k m a.1)
    | inr e ↦ rw e (a.0, erase-IsAbove i k m a.1)
  ]

  pub erase-IsOrdered : (k : K) (m : Map K V) → IsOrdered m → IsOrdered (erase k m)
  unfolding erase
  erase-IsOrdered k [] s = tt
  erase-IsOrdered k ((j, v) ∷ m) s = elim (Bool-cases (same j k)) [
    | inl e ↦ rw e (erase-IsOrdered k m s.1)
    | inr e ↦ rw e (erase-IsAbove j k m s.0, erase-IsOrdered k m s.1)
  ]

  pub absent : (k : K) (m : Map K V) → IsAbove k m → contains k m ≡ false
  unfolding contains lookup same
  absent k [] a = refl
  absent k ((j, v) ∷ m) a = ground (arith, absent k m a.1)

  -- An entry behind the first one is found with the first one in front.
  pub lookup_behind :
      (j k : K) (v x : V) (m : Map K V)
      → IsOrdered ((k, v) ∷ m)
      → lookup j m ≡ some x
      → (same k j ≡ false) × (lookup j ((k, v) ∷ m) ≡ some x)
  unfolding lookup contains
  lookup_behind j k v x m s e = ground (arith, absent k m s.0, same_iff k j)
