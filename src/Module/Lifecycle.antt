-- ===== src/Module/Lifecycle.antt =====
-- The lifecycle of a module.
use zmf.Prelude.{if◌then◌else◌, true, ◌≡◌, Bool, none, some, arith, ◌⊎◌}
use zmf.Module.{Activity, disabled, enabled, is_enabled, internal_enable, internal_disable, get_zmf}

-- Between the calls of its instance a module is either disabled or enabled.
abbrev pub IsSettled : Activity → Type 0
IsSettled a = (a ≡ disabled) ⊎ (a ≡ enabled)

-- Of a settled module: enabling a disabled one calls its `enable` once, and it is then enabled
-- exactly when that succeeded; enabling an enabled one calls nothing and answers true; disabling
-- calls its `disable` once if it is enabled and nothing otherwise, and it is then disabled; and it
-- is settled after each of them.
pub lifecycle_lem :
    {W : Type 0} (enable : W → Bool × W) (disable : W → W) (w : W) (a : Activity)
    → IsSettled a
    → let (answer, a', w') = internal_enable enable a w in
      let (a'', w'') = internal_disable disable a w in
      IsSettled a'
      × (is_enabled a' ≡ answer)
      × (answer ≡ (if is_enabled a then true else (enable w).0))
      × (w' ≡ (if is_enabled a then w else (enable w).1))
      × (a'' ≡ disabled)
      × (w'' ≡ (if is_enabled a then disable w else w))
unfolding internal_enable internal_disable
lifecycle_lem enable disable w a s = ground arith

-- A settled module that its instance was told to enable has access to the instance where the answer
-- was true, and one that was told to disable has none.
get_zmf-lifecycle :
    {W Z : Type 0} (enable : W → Bool × W) (disable : W → W) (zmf : Z) (w : W) (a : Activity)
    → IsSettled a
    → let (answer, a', w') = internal_enable enable a w in
      let (a'', w'') = internal_disable disable a w in
      (get_zmf a' zmf ≡ (if answer then some zmf else none)) × (get_zmf a'' zmf ≡ none)
unfolding internal_enable internal_disable get_zmf
get_zmf-lifecycle enable disable zmf w a s = ground arith
