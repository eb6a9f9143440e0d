-- ===== src/Policy/Validate.antt =====
-- src/policy/validate.rs
use xdp_firewall.Prelude.{
  ℕ, ◌<◌, ◌≡◌, ◌↔◌, Bool, false, true, not, ◌&&◌, Option, none, some, arith, ltb, ◌==◌,
  if◌then◌else◌, Result, ok, err, not_positive, not_set, icmp_port, ◌>>◌, String,
}
use xdp_firewall.Policy.Model.{is_icmp, DynamicDefensePolicy, DynamicRateLimitPolicy, TempBanPolicy}

abbrev pub is_some {ℓ} : {A : Type ℓ} → Option A → Bool
is_some none = false
is_some (some a) = true

require_positive_dynamic_value : String → Option ℕ → Result (Unit {0})
require_positive_dynamic_value name (some value) =
    if ltb 0 value then ok tt else err (not_positive name)
require_positive_dynamic_value name none = err (not_set name)

-- the body of `if policy.ip_rate_limit_enabled`
validate_ip_rate_limit : DynamicDefensePolicy → Result (Unit {0})
unfolding require_positive_dynamic_value
validate_ip_rate_limit policy = do
  require_positive_dynamic_value "ip packets_per_second" policy.ip_packets_per_second
  require_positive_dynamic_value "ip burst" policy.ip_burst

-- the body of `if policy.flood_enabled`
validate_flood : DynamicDefensePolicy → Result (Unit {0})
unfolding require_positive_dynamic_value
validate_flood policy = do
  require_positive_dynamic_value "flood packets_per_second" policy.flood_packets_per_second
  require_positive_dynamic_value "flood burst" policy.flood_burst
  require_positive_dynamic_value "flood block seconds" policy.flood_block_seconds

unfoldable pub validate_dynamic_defense_policy : DynamicDefensePolicy → Result (Unit {0})
unfolding validate_ip_rate_limit validate_flood
validate_dynamic_defense_policy policy =
    if not policy.enabled
    then ok tt
    else (if policy.ip_rate_limit_enabled then validate_ip_rate_limit policy else ok tt)
      >> (if policy.flood_enabled then validate_flood policy else ok tt)
      >> ok tt

unfoldable pub validate_dynamic_rate_limit_policy : DynamicRateLimitPolicy → Result (Unit {0})
validate_dynamic_rate_limit_policy policy =
    if policy.packets_per_second == 0
    then err (not_positive "packets_per_second")
    else if policy.burst == 0
    then err (not_positive "burst")
    else if is_icmp policy.protocol && is_some policy.port
    then err (icmp_port "dynamic rate limit")
    else ok tt

unfoldable pub validate_temp_ban_policy :
    {IpNet DateTime : Type 0} → TempBanPolicy IpNet DateTime → Result (Unit {0})
validate_temp_ban_policy policy =
    if is_icmp policy.protocol && is_some policy.port
    then err (icmp_port "temporary ban")
    else ok tt

-- A value that is set and not zero.
abbrev pub IsPositive : Option ℕ → Type 0
IsPositive none = ⊥
IsPositive (some n) = 0 < n

-- The dynamic defense that the data plane can run: each enabled part has all its values.
pub record IsRunnable (policy : DynamicDefensePolicy) : Type 0 where
  pub ip :
      policy.enabled ≡ true
      → policy.ip_rate_limit_enabled ≡ true
      → IsPositive policy.ip_packets_per_second × IsPositive policy.ip_burst
  pub flood :
      policy.enabled ≡ true
      → policy.flood_enabled ≡ true
      → IsPositive policy.flood_packets_per_second
        × IsPositive policy.flood_burst
        × IsPositive policy.flood_block_seconds

-- The validation of the dynamic defense accepts a policy exactly when each part that is enabled has
-- all its values set and positive; a disabled policy is accepted whatever its values.
pub validate_dynamic_defense_iff :
    (policy : DynamicDefensePolicy)
    → (validate_dynamic_defense_policy policy ≡ ok tt) ↔ IsRunnable policy
unfolding validate_dynamic_defense_policy
validate_dynamic_defense_iff policy = (
  (λ h. record { ip = λ e f. ground arith; flood = λ e f. ground arith }),
  (λ r. ground (arith, r.ip, r.flood)),
)
