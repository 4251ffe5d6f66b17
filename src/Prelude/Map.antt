-- ===== src/Prelude/Map.antt =====
-- `std::map`: the entries in the order of their keys, found by the key's `operator<`. Two keys are
-- one key when neither is less than the other.
pub mod Ordered
use zmf.Prelude.Tests.{if◌then◌else◌}
use mathlib.Core.Path.{◌≡◌, refl}
use mathlib.Core.Logic.{◌↔◌}
use mathlib.Core.Bool.{Bool, true, false}
use mathlib.Core.Option.{Option, none, some}
use mathlib.Core.List.{List, [], ◌∷◌}
use native.Mathlib.Omega.{arith}

-- Neither of two keys is less than the other, for the comparison `lt`.
abbrev pub equiv_by {ℓ} : {K : Type ℓ} → (K → K → Bool) → K → K → Bool
equiv_by lt a b = if lt a b then false else if lt b a then false else true

-- What `std::map` asks of `operator<`: a strict total order.
pub record OrdKey {ℓ} (K : Type ℓ) : Type ℓ where
  pub lt : K → K → Bool
  pub equiv_iff : (a b : K) → (equiv_by lt a b ≡ true) ↔ (a ≡ b)
  pub lt_trans : (a b c : K) → lt a b ≡ true → lt b c ≡ true → lt a c ≡ true

abbrev pub Map {ℓ κ} : Type ℓ → Type κ → Type (ℓ ⊔ κ)
Map K V = List (K × V)

module _ {ℓ} {K : Type ℓ} ⦃o : OrdKey K⦄ where
  -- One key: neither is less than the other.
  unfoldable pub same : K → K → Bool
  same a b = equiv_by o.lt a b

  pub same_iff : (a b : K) → (same a b ≡ true) ↔ (a ≡ b)
  unfolding same
  same_iff a b = o.equiv_iff a b

  pub same_refl : (a : K) → same a a ≡ true
  same_refl a = (same_iff a a).1 refl

module _ {ℓ κ} {K : Type ℓ} {V : Type κ} ⦃o : OrdKey K⦄ where
  -- `find`: the value at a key.
  unfoldable pub lookup : K → Map K V → Option V
  lookup k [] = none
  lookup k ((j, v) ∷ m) = if same j k then some v else lookup k m

  -- `m.count(k) > 0`.
  unfoldable pub contains : K → Map K V → Bool
  unfolding lookup
  contains k m = elim (lookup k m) [ none ↦ false | some _ ↦ true ]

  -- `m[k] = v`: the value at the key is given anew, or the entry is new.
  unfoldable pub put : K → V → Map K V → Map K V
  put k v [] = (k, v) ∷ []
  put k v ((j, w) ∷ m) =
      if o.lt k j then (k, v) ∷ (j, w) ∷ m else if o.lt j k then (j, w) ∷ put k v m else (k, v) ∷ m

  -- `m.insert({k, v})`: an entry that is there stays as it is.
  unfoldable pub insert : K → V → Map K V → Map K V
  unfolding contains put
  insert k v m = if contains k m then m else put k v m

  -- `m.erase(k)`.
  unfoldable pub erase : K → Map K V → Map K V
  erase k [] = []
  erase k ((j, v) ∷ m) = let rest = erase k m in if same j k then rest else (j, v) ∷ rest

  -- `m[k]` where it is read: a key that is not there is put in with the default value `d`.
  unfoldable pub subscript : V → K → Map K V → V × Map K V
  unfolding lookup put
  subscript d k m = elim (lookup k m) [ none ↦ (d, put k d m) | some v ↦ (v, m) ]

  -- The values, in the order of the keys.
  abbrev pub values : Map K V → List V
  values [] = []
  values ((k, v) ∷ m) = v ∷ values m

  -- The keys, in their order.
  abbrev pub keys : Map K V → List K
  keys [] = []
  keys ((k, v) ∷ m) = k ∷ keys m

  pub contains_of_none : (k : K) (m : Map K V) → lookup k m ≡ none → contains k m ≡ false
  unfolding contains
  contains_of_none k m e = ground arith

  pub contains_of_some : (k : K) (m : Map K V) {v : V} → lookup k m ≡ some v → contains k m ≡ true
  unfolding contains
  contains_of_some k m e = ground arith

  pub subscript_of_none :
      (d : V) (k : K) (m : Map K V) → lookup k m ≡ none → subscript d k m ≡ (d, put k d m)
  unfolding subscript
  subscript_of_none d k m e = ground arith

  pub subscript_of_some :
      (d : V) (k : K) (m : Map K V) {v : V} → lookup k m ≡ some v → subscript d k m ≡ (v, m)
  unfolding subscript
  subscript_of_some d k m e = ground arith

  pub lookup-put :
      (k j : K) (v : V) (m : Map K V)
      → lookup j (put k v m) ≡ (if same k j then some v else lookup j m)
  unfolding lookup put same
  lookup-put k j v [] = refl
  lookup-put k j v ((i, w) ∷ m) =
      ground (arith, lookup-put k j v m, same_iff k j, same_iff i j, same_iff i k)

  pub lookup-erase :
      (k j : K) (m : Map K V) → lookup j (erase k m) ≡ (if same k j then none else lookup j m)
  unfolding lookup erase
  lookup-erase k j [] = ground arith
  lookup-erase k j ((i, v) ∷ m) =
      ground (arith, lookup-erase k j m, same_iff i k, same_iff i j, same_iff k j)

  pub lookup-insert :
      (k j : K) (v : V) (m : Map K V)
      → lookup j (insert k v m)
        ≡ (if same k j then elim (lookup k m) [ none ↦ some v | some w ↦ some w ] else lookup j m)
  unfolding insert contains
  lookup-insert k j v m = ground (arith, lookup-put k j v m, same_iff k j)
