-- ===== src/Xdp/Capacity.antt =====
-- Map capacities: XdpMapSizes and its validation in src/data_plane/xdp/types.rs, and the checks
-- and the growth of src/data_plane/xdp/maps.rs. Entry counts are u32.
pub mod Growth
pub mod Resize
use xdp_firewall.Prelude.{
  ℕ, zero, suc, ◌*◌, ◌^◌, ◌-◌, ◌+◌, max, Bool, true, false, not, ◌&&◌, ◌||◌, Option, none, some,
  if◌then◌else◌, leb, ltb, ◌==◌, Result, ok, err, capacity, capacity_overflow, not_positive,
  out_of_range, ◌>>=◌, ◌>>◌, String,
}

abbrev pub u32_max : ℕ
u32_max = 2 ^ 32 - 1

pub record XdpMapSizes : Type 0 where
  pub rule_entries : ℕ
  pub geo_entries : ℕ
  pub trusted_entries : ℕ
  pub country_entries : ℕ
  pub rate_entries : ℕ
  pub custom_rate_limit_entries : ℕ
  pub temp_ban_entries : ℕ

-- the derived `==`
abbrev pub sizes_eq : XdpMapSizes → XdpMapSizes → Bool
sizes_eq a b =
    a.rule_entries == b.rule_entries
    && a.geo_entries == b.geo_entries
    && a.trusted_entries == b.trusted_entries
    && a.country_entries == b.country_entries
    && a.rate_entries == b.rate_entries
    && a.custom_rate_limit_entries == b.custom_rate_limit_entries
    && a.temp_ban_entries == b.temp_ban_entries

-- impl Default for XdpMapSizes
abbrev pub default_map_sizes : XdpMapSizes
default_map_sizes = record {
  rule_entries = 262144;
  geo_entries = 262144;
  trusted_entries = 4096;
  country_entries = 676;
  rate_entries = 1048576;
  custom_rate_limit_entries = 4096;
  temp_ban_entries = 4096;
}

ensure_nonzero : String → ℕ → Result (Unit {0})
ensure_nonzero map entries = if entries == 0 then err (not_positive map) else ok tt

-- XdpMapSizes::validate
unfoldable pub validate : XdpMapSizes → Result XdpMapSizes
unfolding ensure_nonzero
validate sizes = do
  ensure_nonzero "rule_cidrs" sizes.rule_entries
  ensure_nonzero "geo_cidrs" sizes.geo_entries
  ensure_nonzero "trusted_cidrs" sizes.trusted_entries
  ensure_nonzero "country_rules" sizes.country_entries
  ensure_nonzero "rate_buckets" sizes.rate_entries
  ensure_nonzero "custom_rate_limits" sizes.custom_rate_limit_entries
  ensure_nonzero "temp_bans" sizes.temp_ban_entries
  ok sizes

ensure_capacity : String → ℕ → ℕ → Result (Unit {0})
ensure_capacity map needed configured =
    if ltb configured needed then err (capacity map needed configured) else ok tt

unfoldable pub validate_map_capacity : XdpMapSizes → XdpMapSizes → Result (Unit {0})
unfolding ensure_capacity
validate_map_capacity required configured = do
  ensure_capacity "rule_cidrs" required.rule_entries configured.rule_entries
  ensure_capacity "trusted_cidrs" required.trusted_entries configured.trusted_entries
  ensure_capacity "geo_cidrs" required.geo_entries configured.geo_entries
  ensure_capacity "country_rules" required.country_entries configured.country_entries
  ensure_capacity "custom_rate_limits" required.custom_rate_limit_entries
      configured.custom_rate_limit_entries
  ensure_capacity "temp_bans" required.temp_ban_entries configured.temp_ban_entries
  ok tt

-- u64::checked_mul
abbrev checked_mul : ℕ → ℕ → Option ℕ
checked_mul a b = if ltb (a * b) (2 ^ 64) then some (a * b) else none

-- The least power of two that is at least `n`, among 2 ^ e with e from `e` on, `rounds` of them.
power_from : ℕ → ℕ → ℕ → Option ℕ
power_from zero e n = none
power_from (suc rounds) e n =
    let rest = power_from rounds (suc e) n in if leb n (2 ^ e) then some (2 ^ e) else rest

-- u64::checked_next_power_of_two: the powers that u64 holds have exponents 0 to 63
abbrev checked_next_power_of_two : ℕ → Option ℕ
checked_next_power_of_two n = power_from 64 0 n

-- u32::try_from
abbrev u32_try_from : String → ℕ → Result ℕ
u32_try_from map n = if leb n u32_max then ok n else err (out_of_range map)

unfoldable pub usize_to_u32 : String → ℕ → Result ℕ
usize_to_u32 map value = u32_try_from map value

or_overflow : String → Option ℕ → Result ℕ
or_overflow map none = err (capacity_overflow map)
or_overflow map (some n) = ok n

-- the part behind the early return
grow : String → ℕ → ℕ → Result ℕ
unfolding or_overflow power_from
grow map current required = do
  doubled ← or_overflow map (checked_mul current 2)
  rounded ← or_overflow map (checked_next_power_of_two (max (max doubled required) 1))
  u32_try_from map rounded

unfoldable pub expanded_capacity : String → ℕ → ℕ → Result ℕ
unfolding grow
expanded_capacity map current required =
    if leb required current then ok current else grow map current required

unfoldable pub resized_map_sizes : XdpMapSizes → XdpMapSizes → Result (Option XdpMapSizes)
unfolding expanded_capacity
resized_map_sizes current required = do
  rule ← expanded_capacity "rule_cidrs" current.rule_entries required.rule_entries
  geo ← expanded_capacity "geo_cidrs" current.geo_entries required.geo_entries
  trusted ← expanded_capacity "trusted_cidrs" current.trusted_entries required.trusted_entries
  country ← expanded_capacity "country_rules" current.country_entries required.country_entries
  custom ←
      expanded_capacity "custom_rate_limits" current.custom_rate_limit_entries
        required.custom_rate_limit_entries
  temp ← expanded_capacity "temp_bans" current.temp_ban_entries required.temp_ban_entries
  let resized : XdpMapSizes = record {
    rule_entries = rule;
    geo_entries = geo;
    trusted_entries = trusted;
    country_entries = country;
    rate_entries = current.rate_entries;
    custom_rate_limit_entries = custom;
    temp_ban_entries = temp;
  }
  ok (if sizes_eq resized current then none else some resized)
