-- ===== src/Xdp/Apply/Sizes.antt =====
-- `required_policy_map_sizes` of src/data_plane/xdp/linux/apply.rs.
use xdp_firewall.Prelude.{
  ℕ, ◌+◌, ◌^◌, List, map, if◌then◌else◌, ltb, length, ◌==◌, Result, ok, err, out_of_range, ◌>>=◌,
}
use xdp_firewall.Net.{Ipnet, Chrono}
use xdp_firewall.Dedup.{unique}
use xdp_firewall.Policy.Model.{XdpCountryRule, CompiledPolicy}
use xdp_firewall.Xdp.Capacity.{XdpMapSizes, usize_to_u32}
use xdp_firewall.Xdp.Local.{compact_trusted_prefixes, compact_temp_bans}

-- usize::checked_add on a 64-bit machine, with its context
unfoldable pub checked_count : ℕ → ℕ → Result ℕ
checked_count a b =
    if ltb (a + b) (2 ^ 64) then ok (a + b) else err (out_of_range "rule entry count")

-- the size of the HashSet of countries
unfoldable pub country_count : List XdpCountryRule → ℕ
unfolding unique
country_count rules =
    length (unique ◌==◌ (λ (country : ℕ). country) (map (λ country. country.country) rules)).1

module _ (net : Ipnet) (chrono : Chrono) where
  open chrono use {DateTime}

  unfoldable pub required_policy_map_sizes :
      XdpMapSizes → CompiledPolicy DateTime → Result XdpMapSizes
  unfolding checked_count country_count usize_to_u32 compact_trusted_prefixes compact_temp_bans
  required_policy_map_sizes map_sizes policy = do
    count ← checked_count (length policy.rules) (length policy.threat_prefixes)
    rule ← usize_to_u32 "rule_cidrs" count
    geo ← usize_to_u32 "geo_cidrs" (length policy.geo_prefixes)
    trusted ←
        usize_to_u32 "trusted_cidrs" (length (compact_trusted_prefixes net policy.trusted_prefixes))
    country ← usize_to_u32 "country_rules" (country_count policy.country_rules)
    custom ← usize_to_u32 "custom_rate_limits" (length policy.dynamic_rate_limits)
    temp ← usize_to_u32 "temp_bans" (length (compact_temp_bans net chrono policy.temp_bans))
    let sizes : XdpMapSizes = record {
      rule_entries = rule;
      geo_entries = geo;
      trusted_entries = trusted;
      country_entries = country;
      rate_entries = map_sizes.rate_entries;
      custom_rate_limit_entries = custom;
      temp_ban_entries = temp;
    }
    ok sizes
