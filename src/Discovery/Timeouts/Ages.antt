-- ===== src/Discovery/Timeouts/Ages.antt =====
-- The loop of `updatePeerTimeouts` that ages the peers.
use zmf.Prelude.{
  ℕ, ◌+◌, ◌%◌, ◌^◌, ◌==◌, ltb, ◌≡◌, ◌≢◌, refl, Bool, true, false, List, [], ◌∷◌, All, arith,
  if◌then◌else◌,
}
use zmf.Data.Handle.{ModuleHandle}
use zmf.Discovery.State.{update}
use zmf.Discovery.Timeouts.{age_peers}

-- No two of the peers have one object.
abbrev pub HasOwnObjects : List ModuleHandle → Type 0
HasOwnObjects [] = Unit {0}
HasOwnObjects (h ∷ hs) = All (λ g. h.ref ≢ g.ref) hs × HasOwnObjects hs

abbrev pub has_object : ℕ → List ModuleHandle → Bool
has_object ref [] = false
has_object ref (h ∷ hs) = if h.ref == ref then true else has_object ref hs

-- A timeout after one more broadcast.
abbrev pub aged : ℕ → ℕ → ℕ
aged frequency timeout = (timeout + frequency) % 2 ^ 32

module _ (frequency limit : ℕ) where
  -- The peers that are over the limit once they are aged.
  abbrev pub overdue : (ℕ → ℕ) → List ModuleHandle → List ModuleHandle
  overdue timeouts [] = []
  overdue timeouts (h ∷ hs) =
      if ltb limit (aged frequency (timeouts h.ref))
      then h ∷ overdue timeouts hs
      else overdue timeouts hs

  overdue_of_same :
      (t u : ℕ → ℕ) (hs : List ModuleHandle)
      → All (λ h. t h.ref ≡ u h.ref) hs
      → overdue t hs ≡ overdue u hs
  overdue_of_same t u [] a = refl
  overdue_of_same t u (h ∷ hs) a = ground (arith, a.0, overdue_of_same t u hs a.1)

  unchanged :
      (t : ℕ → ℕ) (ref v : ℕ) (hs : List ModuleHandle)
      → All (λ h. ref ≢ h.ref) hs
      → All (λ h. update t ref v h.ref ≡ t h.ref) hs
  unchanged t ref v [] a = tt
  unchanged t ref v (h ∷ hs) a = (ground (arith, a.0), unchanged t ref v hs a.1)

  not_among :
      (ref : ℕ) (hs : List ModuleHandle) → All (λ h. ref ≢ h.ref) hs → has_object ref hs ≡ false
  not_among ref [] a = refl
  not_among ref (h ∷ hs) a = ground (arith, a.0, not_among ref hs a.1)

  pub age_peers_lem :
      (hs : List ModuleHandle) (t : ℕ → ℕ)
      → HasOwnObjects hs
      → let r = age_peers frequency limit hs t in
        (r.0 ≡ overdue t hs)
        × ((ref : ℕ) → r.1 ref ≡ (if has_object ref hs then aged frequency (t ref) else t ref))
  unfolding age_peers
  age_peers_lem [] t own = (refl, λ ref. refl)
  age_peers_lem (h ∷ hs) t own =
      let u = update t h.ref (aged frequency (t h.ref)) in
      let k = age_peers_lem hs u own.1 in
      (
        ground (
          arith,
          k.0,
          overdue_of_same u t hs (unchanged t h.ref (aged frequency (t h.ref)) hs own.0),
        ),
        λ ref. ground (arith, k.1 ref, not_among h.ref hs own.0),
      )
