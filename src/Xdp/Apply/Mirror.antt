-- ===== src/Xdp/Apply/Mirror.antt =====
-- What the maps hold behind a successful write: the pending entries of the policy, and nothing else.
use xdp_firewall.Prelude.{ℕ, ◌≡◌, Option, none, some, ◌++◌, ◌==◌, All, Result, ok, err}
use xdp_firewall.Net.{IpAddr, IsNetwork, Ipnet, Chrono}
use xdp_firewall.Dedup.{find_key}
use xdp_firewall.Policy.Model.{
  L4Protocol, XdpTrustedPrefix, XdpPrefixRule, XdpGeoPrefix, XdpTempBan, CompiledPolicy,
}
use xdp_firewall.Xdp.Encoding.{
  RuleKey, GeoKey, CustomRateKey, rule_key, geo_key, rule_key_id, temp_ban_key_id, geo_key_id,
  trusted_key_id, custom_rate_key_id, rule_id_eq, geo_id_eq, custom_rate_id_eq,
}
use xdp_firewall.Xdp.Values.{
  TempBanValue, rule_value, geo_value, country_value, custom_rate_value, temp_ban_value,
}
use xdp_firewall.Xdp.Pending.{
  rule_entry_id, ban_entry_id, geo_entry_id, country_entry_id, limit_entry_id, pending_rules,
  pending_temp_bans, pending_geo_prefixes, pending_country_rules, pending_custom_rate_limits,
  pending_trusted_keys,
}
use xdp_firewall.Xdp.BpfMap.{BpfMapLaws}
use xdp_firewall.Xdp.BpfMap.Sync.{held, value_of}
use xdp_firewall.Xdp.Apply.{Kernel, LinuxXdpManager}

-- The keys of an LPM trie that the program writes: those of a network with cleared host bits.
abbrev pub IsRuleKey : RuleKey → Type 0
IsRuleKey k =
    (addr : IpAddr) × (prefix : ℕ) × (protocol : L4Protocol) × (port : ℕ) × IsNetwork addr prefix
    × (k ≡ rule_key addr prefix protocol port)

abbrev pub IsGeoKey : GeoKey → Type 0
IsGeoKey k = (addr : IpAddr) × (prefix : ℕ) × IsNetwork addr prefix × (k ≡ geo_key addr prefix)

abbrev pub IsAnyKey : {K : Type 0} → K → Type 0
IsAnyKey k = Unit

pub record KernelLaws (kernel : Kernel) : Type 1 where
  pub rules : BpfMapLaws kernel.rules IsRuleKey
  pub geo : BpfMapLaws kernel.geo IsGeoKey
  pub trusted : BpfMapLaws kernel.trusted IsGeoKey
  pub countries : BpfMapLaws kernel.countries IsAnyKey
  pub custom_rates : BpfMapLaws kernel.custom_rates IsAnyKey
  pub bans : BpfMapLaws kernel.bans IsRuleKey

-- All keys of the maps are canonical.
pub record IsClean (kernel : Kernel) (laws : KernelLaws kernel) (m : LinuxXdpManager kernel)
    : Type 0 where
  pub rules : laws.rules.Clean m.rule_cidrs
  pub geo : laws.geo.Clean m.geo_cidrs
  pub trusted : laws.trusted.Clean m.trusted_cidrs
  pub countries : laws.countries.Clean m.country_rules
  pub custom_rates : laws.custom_rates.Clean m.custom_rate_limits
  pub bans : laws.bans.Clean m.temp_bans

-- The networks of a policy, threat intelligence included.
pub record HasCanonicalKeys {DateTime : Type 0} (policy : CompiledPolicy DateTime) : Type 0 where
  pub trusted : All (λ (p : XdpTrustedPrefix). IsNetwork p.addr p.prefix) policy.trusted_prefixes
  pub rules :
      All
        (λ (r : XdpPrefixRule). IsNetwork r.addr r.prefix)
        (policy.threat_prefixes ++ policy.rules)
  pub temp_bans : All (λ (b : XdpTempBan DateTime). IsNetwork b.addr b.prefix) policy.temp_bans
  pub geo : All (λ (p : XdpGeoPrefix). IsNetwork p.addr p.prefix) policy.geo_prefixes

-- The written value of a ban: an entry that has no value leaves the key as it was.
abbrev pub ban_after : Result (Option TempBanValue) → Option TempBanValue → Option TempBanValue
ban_after (ok (some value)) old = some value
ban_after (ok none) old = old
ban_after (err e) old = old

module _ (kernel : Kernel) (laws : KernelLaws kernel) (net : Ipnet) (chrono : Chrono) where
  open chrono use {DateTime, lt}

  -- Each map of `m'` holds, under each canonical key, the value of the pending entry with that key and
  -- nothing where there is none; `m` is the manager before.
  pub record Mirrors (policy : CompiledPolicy DateTime) (wall_now : DateTime)
      (m m' : LinuxXdpManager kernel) : Type 0 where
    pub rules :
        (k : RuleKey)
        → IsRuleKey k
        → kernel.rules.get m'.rule_cidrs k
          ≡ value_of
              (λ e. rule_value e.1)
              (find_key rule_id_eq rule_entry_id
                (rule_key_id k)
                (pending_rules net m.local_interface_cidrs policy).1)
    pub geo :
        (k : GeoKey)
        → IsGeoKey k
        → kernel.geo.get m'.geo_cidrs k
          ≡ value_of
              (λ e. geo_value e.1)
              (find_key geo_id_eq geo_entry_id
                (geo_key_id k)
                (pending_geo_prefixes policy.geo_prefixes).1)
    pub trusted :
        (k : GeoKey)
        → IsGeoKey k
        → kernel.trusted.get m'.trusted_cidrs k
          ≡ value_of
              (λ e. record { value = 1 })
              (find_key geo_id_eq trusted_key_id
                (trusted_key_id k)
                (pending_trusted_keys net policy.trusted_prefixes).1)
    pub countries :
        (k : ℕ)
        → kernel.countries.get m'.country_rules k
          ≡ value_of
              (λ e. country_value e.1)
              (find_key ◌==◌ country_entry_id k (pending_country_rules policy.country_rules).1)
    pub custom_rates :
        (k : CustomRateKey)
        → kernel.custom_rates.get m'.custom_rate_limits k
          ≡ value_of
              (λ e. custom_rate_value e.1)
              (find_key custom_rate_id_eq limit_entry_id
                (custom_rate_key_id k)
                (pending_custom_rate_limits policy.dynamic_rate_limits).1)
    pub now : ℕ
    pub clock : kernel.monotonic_now_ns ≡ ok now
    pub bans :
        (k : RuleKey)
        → IsRuleKey k
        → kernel.bans.get m'.temp_bans k
          ≡ held
              (λ (e : RuleKey × XdpTempBan DateTime).
                ban_after (temp_ban_value chrono e.1 wall_now now))
              (find_key rule_id_eq
                (ban_entry_id net m.local_interface_cidrs chrono)
                (temp_ban_key_id k)
                (pending_temp_bans net m.local_interface_cidrs chrono wall_now policy.temp_bans).1)
              (kernel.bans.get m.temp_bans k)
