-- ===== src/Prelude/Int.antt =====
-- Signed numbers, for the settings that a configuration file gives.
use Prim.Native.Nat.{ℕ}

-- `negsuc n` is -(n + 1).
pub data ℤ : Type 0 where
  pos : ℕ → ℤ
  negsuc : ℕ → ℤ
