-- ===== src/Data/RequestIdentity.antt =====
-- include/zmf/ExternalRequestIdentity.hpp: the key of the replies that are still owed.
use zmf.Prelude.{ℕ, ◌≡◌, ◌↔◌, Bool, true, false, arith, ltb, if◌then◌else◌}
use zmf.Prelude.Map.{OrdKey, equiv_by}
use zmf.Data.UniqueId.{ModuleUniqueId, lt, gt}

pub record ExternalRequestIdentity : Type 0 where
  pub sender_id : ModuleUniqueId
  pub request_id : ℕ

-- operator<
unfoldable pub identity_lt : ExternalRequestIdentity → ExternalRequestIdentity → Bool
identity_lt l r =
    if lt l.sender_id r.sender_id
    then true
    else if gt l.sender_id r.sender_id
    then false
    else if ltb l.request_id r.request_id
    then true
    else if ltb r.request_id l.request_id
    then false
    else false

pub identity_lt-equiv_iff :
    (a b : ExternalRequestIdentity) → (equiv_by identity_lt a b ≡ true) ↔ (a ≡ b)
unfolding identity_lt lt gt
identity_lt-equiv_iff a b = ground arith

pub identity_lt_trans :
    (a b c : ExternalRequestIdentity)
    → identity_lt a b ≡ true
    → identity_lt b c ≡ true
    → identity_lt a c ≡ true
unfolding identity_lt lt gt
identity_lt_trans a b c p q = ground arith

instance abbrev pub identity_key : OrdKey ExternalRequestIdentity
identity_key = record {
  lt = identity_lt;
  equiv_iff = identity_lt-equiv_iff;
  lt_trans = identity_lt_trans;
}
