-- ===== src/Data/UniqueId/Order.antt =====
-- The operators of `ModuleUniqueId` fit together, so the ids can be the keys of a `std::map`.
use zmf.Prelude.{◌&&◌, ℕ, ◌≡◌, ◌↔◌, ◌⊎◌, true, false, arith, ltb, not}
use zmf.Prelude.Map.{OrdKey, equiv_by}
use zmf.Data.UniqueId.{ModuleUniqueId, lt, gt, eq, ne}

pub eq_iff : (a b : ModuleUniqueId) → (eq a b ≡ true) ↔ (a ≡ b)
unfolding eq
eq_iff a b = ground arith

pub lt-equiv_iff : (a b : ModuleUniqueId) → (equiv_by lt a b ≡ true) ↔ (a ≡ b)
unfolding lt
lt-equiv_iff a b = ground arith

pub lt_trans : (a b c : ModuleUniqueId) → lt a b ≡ true → lt b c ≡ true → lt a c ≡ true
unfolding lt
lt_trans a b c p q = ground arith

-- The operators describe one strict total order: no id is less than itself, `<` is transitive,
-- exactly one of `a < b`, `a == b` and `a > b` is true, `a > b` is `b < a`, `==` is equality and
-- `!=` is its negation.
pub lt-total_order :
    (a b c : ModuleUniqueId)
    → (lt a a ≡ false)
      × ((lt a b && (lt b c && not (lt a c))) ≡ false)
      × (((lt a b ≡ true) × (eq a b ≡ false) × (gt a b ≡ false))
          ⊎ ((lt a b ≡ false) × (eq a b ≡ true) × (gt a b ≡ false))
          ⊎ ((lt a b ≡ false) × (eq a b ≡ false) × (gt a b ≡ true)))
      × (gt a b ≡ lt b a)
      × ((eq a b ≡ true) ↔ (a ≡ b))
      × (ne a b ≡ not (eq a b))
unfolding lt eq gt ne
lt-total_order a b c =
    (ground arith, ground arith, ground arith, ground arith, eq_iff a b, ground arith)

instance abbrev pub id_key : OrdKey ModuleUniqueId
id_key = record { lt = lt; equiv_iff = lt-equiv_iff; lt_trans = lt_trans }

pub type_equiv_iff : (a b : ℕ) → (equiv_by ltb a b ≡ true) ↔ (a ≡ b)
type_equiv_iff a b = ground arith

pub type_trans : (a b c : ℕ) → ltb a b ≡ true → ltb b c ≡ true → ltb a c ≡ true
type_trans a b c p q = ground arith

-- Numbers as keys: type ids, request ids, subscription ids.
instance abbrev pub number_key : OrdKey ℕ
number_key = record { lt = ltb; equiv_iff = type_equiv_iff; lt_trans = type_trans }
