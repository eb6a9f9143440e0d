-- ===== src/Policy/Model.antt =====
-- src/policy/model.rs, model/snapshot.rs and model/xdp.rs. The types of ipnet and chrono are
-- parameters of the records that hold them; u8, u16 and u32 are numbers, i32 and i64 integers.
use xdp_firewall.Prelude.{ℕ, ◌-◌, ◌^◌, Bool, true, false, Option, some, List}
use xdp_firewall.Prelude.Int.{ℤ, negsuc}
use xdp_firewall.Text.{Text}
use xdp_firewall.Net.{IpAddr}

pub data RuleAction : Type 0 where
  allow deny : RuleAction

pub data L4Protocol : Type 0 where
  any tcp udp icmp : L4Protocol

abbrev pub protocol_eq : L4Protocol → L4Protocol → Bool
protocol_eq any any = true
protocol_eq tcp tcp = true
protocol_eq udp udp = true
protocol_eq icmp icmp = true
protocol_eq _ _ = false

abbrev pub is_icmp : L4Protocol → Bool
is_icmp icmp = true
is_icmp _ = false

pub record FirewallRule (IpNet : Type 0) : Type 0 where
  pub priority : ℤ
  pub action : RuleAction
  pub cidr : IpNet
  pub protocol : L4Protocol
  pub port : Option ℕ
  pub comment : Option Text

pub record GeoCountryPolicy : Type 0 where
  pub country : Text
  pub action : RuleAction

pub record GeoIpPrefixPolicy (IpNet : Type 0) : Type 0 where
  pub cidr : IpNet
  pub country : Text

pub record DynamicDefensePolicy : Type 0 where
  pub enabled : Bool
  pub ip_rate_limit_enabled : Bool
  pub ip_packets_per_second : Option ℕ
  pub ip_burst : Option ℕ
  pub flood_enabled : Bool
  pub flood_packets_per_second : Option ℕ
  pub flood_burst : Option ℕ
  pub flood_block_seconds : Option ℕ

-- impl Default for DynamicDefensePolicy, with the DEFAULT_ constants
unfoldable pub default_dynamic_defense : DynamicDefensePolicy
default_dynamic_defense = record {
  enabled = true;
  ip_rate_limit_enabled = true;
  ip_packets_per_second = some 5000;
  ip_burst = some 10000;
  flood_enabled = true;
  flood_packets_per_second = some 20000;
  flood_burst = some 40000;
  flood_block_seconds = some 60;
}

pub record DynamicRateLimitPolicy : Type 0 where
  pub priority : ℤ
  pub protocol : L4Protocol
  pub port : Option ℕ
  pub packets_per_second : ℕ
  pub burst : ℕ
  pub comment : Option Text

pub record TempBanPolicy (IpNet DateTime : Type 0) : Type 0 where
  pub cidr : IpNet
  pub protocol : L4Protocol
  pub port : Option ℕ
  pub expires_at : DateTime
  pub comment : Option Text

pub record TrustedCidrPolicy (IpNet : Type 0) : Type 0 where
  pub cidr : IpNet
  pub comment : Option Text

-- ThreatPrefix of src/intelligence/threat.rs
pub record ThreatPrefix : Type 0 where
  pub addr : IpAddr
  pub prefix : ℕ

-- `threat_sources` is carried for display and never compiled; it is left out.
pub record PolicySnapshot (IpNet DateTime : Type 0) : Type 0 where
  pub policy_name : Text
  pub version : ℤ
  pub rules : List (FirewallRule IpNet)
  pub geo_countries : List GeoCountryPolicy
  pub geo_prefixes : List (GeoIpPrefixPolicy IpNet)
  pub temp_bans : List (TempBanPolicy IpNet DateTime)
  pub dynamic_defense : DynamicDefensePolicy
  pub dynamic_rate_limits : List DynamicRateLimitPolicy
  pub trusted_cidrs : List (TrustedCidrPolicy IpNet)
  pub threat_prefixes : List ThreatPrefix

pub data XdpRuleSource : Type 0 where
  firewall_rule threat_intel : XdpRuleSource

pub record XdpTrustedPrefix : Type 0 where
  pub addr : IpAddr
  pub prefix : ℕ

pub record XdpPrefixRule : Type 0 where
  pub addr : IpAddr
  pub prefix : ℕ
  pub priority : ℤ
  pub action : RuleAction
  pub protocol : L4Protocol
  pub port : ℕ
  pub source : XdpRuleSource

pub record XdpGeoPrefix : Type 0 where
  pub addr : IpAddr
  pub prefix : ℕ
  pub country : ℕ

pub record XdpCountryRule : Type 0 where
  pub country : ℕ
  pub action : RuleAction

pub record XdpTempBan (DateTime : Type 0) : Type 0 where
  pub addr : IpAddr
  pub prefix : ℕ
  pub protocol : L4Protocol
  pub port : ℕ
  pub expires_at : DateTime

pub record XdpDynamicDefense : Type 0 where
  pub enabled : Bool
  pub ip_rate_limit_enabled : Bool
  pub ip_packets_per_second : ℕ
  pub ip_burst : ℕ
  pub flood_enabled : Bool
  pub flood_packets_per_second : ℕ
  pub flood_burst : ℕ
  pub flood_block_seconds : ℕ

-- the derived Default
abbrev pub default_xdp_dynamic_defense : XdpDynamicDefense
default_xdp_dynamic_defense = record {
  enabled = false;
  ip_rate_limit_enabled = false;
  ip_packets_per_second = 0;
  ip_burst = 0;
  flood_enabled = false;
  flood_packets_per_second = 0;
  flood_burst = 0;
  flood_block_seconds = 0;
}

pub record XdpDynamicRateLimit : Type 0 where
  pub protocol : L4Protocol
  pub port : ℕ
  pub packets_per_second : ℕ
  pub burst : ℕ

pub record CompiledPolicy (DateTime : Type 0) : Type 0 where
  pub version : ℤ
  pub trusted_prefixes : List XdpTrustedPrefix
  pub rules : List XdpPrefixRule
  pub country_rules : List XdpCountryRule
  pub temp_bans : List (XdpTempBan DateTime)
  pub dynamic_defense : XdpDynamicDefense
  pub dynamic_rate_limits : List XdpDynamicRateLimit
  pub geo_prefixes : List XdpGeoPrefix
  pub threat_prefixes : List XdpPrefixRule

-- i32::MIN
abbrev pub i32_min : ℤ
i32_min = negsuc (2 ^ 31 - 1)
