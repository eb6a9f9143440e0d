-- ===== src/Policy/Compile.antt =====
-- src/policy/compile.rs: the snapshot of the policy turned into the form of the data plane.
pub mod Networks
pub mod Accepts
pub mod ActiveBans
use xdp_firewall.Prelude.{
  ℕ, suc, ◌≡◌, Bool, Option, none, some, List, [], ◌∷◌, ◌++◌, map, if◌then◌else◌, Result, ok, err,
  ◌>>=◌, ◌>>◌, collect_map,
}
use xdp_firewall.Net.{IpAddr, Ipnet, Chrono}
use xdp_firewall.Policy.Model.{
  RuleAction, deny, any, FirewallRule, GeoCountryPolicy, GeoIpPrefixPolicy, DynamicDefensePolicy,
  DynamicRateLimitPolicy, TempBanPolicy, TrustedCidrPolicy, ThreatPrefix, PolicySnapshot,
  firewall_rule, threat_intel, XdpTrustedPrefix, XdpPrefixRule, XdpGeoPrefix, XdpCountryRule,
  XdpTempBan, XdpDynamicDefense, XdpDynamicRateLimit, CompiledPolicy, i32_min,
}
use xdp_firewall.Policy.Validate.{
  validate_dynamic_defense_policy, validate_dynamic_rate_limit_policy,
}
use xdp_firewall.Policy.Country.{encode_country}

abbrev pub unwrap_or : Option ℕ → ℕ → ℕ
unwrap_or none d = d
unwrap_or (some n) d = n

-- the loop of `validate_policy` over the rate limits
validate_rate_limits : List DynamicRateLimitPolicy → Result (Unit {0})
validate_rate_limits [] = ok tt
validate_rate_limits (limit ∷ limits) = do
  validate_dynamic_rate_limit_policy limit
  validate_rate_limits limits

compile_threat_prefix : ThreatPrefix → XdpPrefixRule
compile_threat_prefix p = record {
  addr = p.addr;
  prefix = p.prefix;
  priority = i32_min;
  action = deny;
  protocol = any;
  port = 0;
  source = threat_intel;
}

unfoldable pub compile_threat_prefixes : List ThreatPrefix → List XdpPrefixRule
unfolding compile_threat_prefix
compile_threat_prefixes prefixes = map compile_threat_prefix prefixes

compile_country_rule : GeoCountryPolicy → Result XdpCountryRule
compile_country_rule policy = do
  code ← encode_country policy.country
  ok (record { country = code; action = policy.action })

unfoldable pub compile_country_rules : List GeoCountryPolicy → Result (List XdpCountryRule)
unfolding compile_country_rule
compile_country_rules policies = collect_map compile_country_rule policies

unfoldable pub compile_dynamic_defense : DynamicDefensePolicy → XdpDynamicDefense
compile_dynamic_defense policy = record {
  enabled = policy.enabled;
  ip_rate_limit_enabled = policy.ip_rate_limit_enabled;
  ip_packets_per_second = unwrap_or policy.ip_packets_per_second 0;
  ip_burst = unwrap_or policy.ip_burst 0;
  flood_enabled = policy.flood_enabled;
  flood_packets_per_second = unwrap_or policy.flood_packets_per_second 0;
  flood_burst = unwrap_or policy.flood_burst 0;
  flood_block_seconds = unwrap_or policy.flood_block_seconds 0;
}

compile_dynamic_rate_limit : DynamicRateLimitPolicy → XdpDynamicRateLimit
compile_dynamic_rate_limit limit = record {
  protocol = limit.protocol;
  port = unwrap_or limit.port 0;
  packets_per_second = limit.packets_per_second;
  burst = limit.burst;
}

unfoldable pub compile_dynamic_rate_limits : List DynamicRateLimitPolicy → List XdpDynamicRateLimit
unfolding compile_dynamic_rate_limit
compile_dynamic_rate_limits limits = map compile_dynamic_rate_limit limits

module _ (net : Ipnet) where
  open net use {IpNet, network, prefix_len}

  -- both variants of IpNet give their network address and their prefix length
  abbrev pub cidr_network : IpNet → IpAddr × ℕ
  cidr_network cidr = (network cidr, prefix_len cidr)

  compile_geo_prefix : GeoIpPrefixPolicy IpNet → Result XdpGeoPrefix
  compile_geo_prefix p =
      let (addr, len) = cidr_network p.cidr in
      do code ← encode_country p.country; ok (record { addr = addr; prefix = len; country = code })

  pub compile_geo_prefixes : List (GeoIpPrefixPolicy IpNet) → Result (List XdpGeoPrefix)
  compile_geo_prefixes prefixes = collect_map compile_geo_prefix prefixes

  compile_trusted_prefix : TrustedCidrPolicy IpNet → XdpTrustedPrefix
  compile_trusted_prefix trusted =
      let (addr, prefix) = cidr_network trusted.cidr in record { addr = addr; prefix = prefix }

  pub compile_trusted_prefixes : List (TrustedCidrPolicy IpNet) → List XdpTrustedPrefix
  compile_trusted_prefixes prefixes = map compile_trusted_prefix prefixes

  compile_firewall_rule : FirewallRule IpNet → XdpPrefixRule
  compile_firewall_rule rule =
      let (addr, prefix) = cidr_network rule.cidr in
      record {
        addr = addr;
        prefix = prefix;
        priority = rule.priority;
        action = rule.action;
        protocol = rule.protocol;
        port = unwrap_or rule.port 0;
        source = firewall_rule;
      }

  pub compile_firewall_rules : List (FirewallRule IpNet) → List XdpPrefixRule
  compile_firewall_rules rules = map compile_firewall_rule rules

  module _ (chrono : Chrono) where
    open chrono use {DateTime, lt}

    pub compile_temp_ban : TempBanPolicy IpNet DateTime → XdpTempBan DateTime
    compile_temp_ban ban =
        let (addr, prefix) = cidr_network ban.cidr in
        record {
          addr = addr;
          prefix = prefix;
          protocol = ban.protocol;
          port = unwrap_or ban.port 0;
          expires_at = ban.expires_at;
        }

    -- `Utc::now()` is read once for each ban: `now i` is the reading at the ban number `i`
    active_temp_bans :
        (ℕ → DateTime) → ℕ → List (TempBanPolicy IpNet DateTime) → List (XdpTempBan DateTime)
    unfolding compile_temp_ban
    active_temp_bans now i [] = []
    active_temp_bans now i (ban ∷ bans) =
        let rest = active_temp_bans now (suc i) bans in
        if lt (now i) ban.expires_at then compile_temp_ban ban ∷ rest else rest

    pub compile_active_temp_bans :
        (ℕ → DateTime) → List (TempBanPolicy IpNet DateTime) → List (XdpTempBan DateTime)
    compile_active_temp_bans now bans = active_temp_bans now 0 bans

    pub validate_policy : PolicySnapshot IpNet DateTime → Result (Unit {0})
    validate_policy snapshot = do
      validate_dynamic_defense_policy snapshot.dynamic_defense
      validate_rate_limits snapshot.dynamic_rate_limits
      ok tt

    unfoldable pub compile_policy :
        (ℕ → DateTime) → PolicySnapshot IpNet DateTime → Result (CompiledPolicy DateTime)
    unfolding validate_policy validate_rate_limits compile_country_rules compile_country_rule
        compile_geo_prefixes compile_geo_prefix compile_trusted_prefixes compile_trusted_prefix
        compile_firewall_rules compile_firewall_rule compile_active_temp_bans active_temp_bans
    compile_policy now snapshot = do
      validate_policy snapshot
      country_rules ← compile_country_rules snapshot.geo_countries
      geo_prefixes ← compile_geo_prefixes snapshot.geo_prefixes
      ok (record {
        version = snapshot.version;
        trusted_prefixes = compile_trusted_prefixes snapshot.trusted_cidrs;
        rules = compile_firewall_rules snapshot.rules;
        country_rules = country_rules;
        temp_bans = compile_active_temp_bans now snapshot.temp_bans;
        dynamic_defense = compile_dynamic_defense snapshot.dynamic_defense;
        dynamic_rate_limits = compile_dynamic_rate_limits snapshot.dynamic_rate_limits;
        geo_prefixes = geo_prefixes;
        threat_prefixes = compile_threat_prefixes snapshot.threat_prefixes;
      })
