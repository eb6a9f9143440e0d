-- ===== src/Xdp/Pending.antt =====
-- src/data_plane/xdp/linux/pending.rs and pending/*.rs: the keys that a policy asks for, each with
-- the entry that is written for it, and the set of their ids. The log messages are left out.
pub mod Rules
pub mod Bans
use xdp_firewall.Prelude.{
  ℕ, Bool, false, true, not, ◌&&◌, ◌||◌, Option, none, some, List, [], ◌∷◌, ◌++◌, map, retain, ltb,
  ◌==◌, if◌then◌else◌,
}
use xdp_firewall.Prelude.Int.{ℤ, ltb_ℤ}
use xdp_firewall.Net.{IpAddr, Ipnet, Chrono}
use xdp_firewall.Dedup.{unique}
use xdp_firewall.Sorting.{sort_by}
use xdp_firewall.Policy.Model.{
  XdpTrustedPrefix, XdpPrefixRule, XdpGeoPrefix, XdpCountryRule, XdpTempBan, XdpDynamicRateLimit,
  CompiledPolicy,
}
use xdp_firewall.Policy.Validate.{is_some}
use xdp_firewall.Xdp.Encoding.{
  RuleKey, GeoKey, CustomRateKey, RuleId, GeoId, CustomRateId, rule_key, temp_ban_key, geo_key,
  trusted_key, custom_rate_key, country_key, rule_key_id, temp_ban_key_id, geo_key_id,
  trusted_key_id, custom_rate_key_id, rule_id_eq, geo_id_eq, custom_rate_id_eq, rule_source_order,
}
use xdp_firewall.Xdp.Local.{
  LocalInterfaceCidr, deny_rule_matching_local_cidr, temp_ban_matching_local_cidr,
  compact_trusted_prefixes, compact_temp_bans,
}

-- the comparison of `sort_by` in `ordered_policy_rules`
unfoldable pub rule_before : XdpPrefixRule → XdpPrefixRule → Bool
unfolding rule_source_order
rule_before left right =
    ltb_ℤ left.priority right.priority
    || not (ltb_ℤ right.priority left.priority)
      && ltb (rule_source_order left.source) (rule_source_order right.source)

pub ordered_policy_rules : {DateTime : Type 0} → CompiledPolicy DateTime → List XdpPrefixRule
unfolding rule_before sort_by
ordered_policy_rules policy = sort_by rule_before (policy.threat_prefixes ++ policy.rules)

abbrev pub rule_entry : XdpPrefixRule → RuleKey × XdpPrefixRule
rule_entry rule = (rule_key rule.addr rule.prefix rule.protocol rule.port, rule)

abbrev pub rule_entry_id : RuleKey × XdpPrefixRule → RuleId
rule_entry_id e = rule_key_id e.0

abbrev pub limit_entry : XdpDynamicRateLimit → CustomRateKey × XdpDynamicRateLimit
limit_entry limit = (custom_rate_key limit.protocol limit.port, limit)

abbrev pub limit_entry_id : CustomRateKey × XdpDynamicRateLimit → CustomRateId
limit_entry_id e = custom_rate_key_id e.0

unfoldable pub pending_custom_rate_limits :
    List XdpDynamicRateLimit → List CustomRateId × List (CustomRateKey × XdpDynamicRateLimit)
unfolding unique custom_rate_id_eq
pending_custom_rate_limits limits = unique custom_rate_id_eq limit_entry_id (map limit_entry limits)

abbrev pub geo_entry : XdpGeoPrefix → GeoKey × XdpGeoPrefix
geo_entry prefix = (geo_key prefix.addr prefix.prefix, prefix)

abbrev pub geo_entry_id : GeoKey × XdpGeoPrefix → GeoId
geo_entry_id e = geo_key_id e.0

unfoldable pub pending_geo_prefixes : List XdpGeoPrefix → List GeoId × List (GeoKey × XdpGeoPrefix)
unfolding unique geo_id_eq
pending_geo_prefixes prefixes = unique geo_id_eq geo_entry_id (map geo_entry prefixes)

abbrev pub country_entry : XdpCountryRule → ℕ × XdpCountryRule
country_entry country = (country_key country.country, country)

abbrev pub country_entry_id : ℕ × XdpCountryRule → ℕ
country_entry_id e = e.0

unfoldable pub pending_country_rules : List XdpCountryRule → List ℕ × List (ℕ × XdpCountryRule)
unfolding unique
pending_country_rules rules = unique ◌==◌ country_entry_id (map country_entry rules)

abbrev pub trusted_entry : XdpTrustedPrefix → GeoKey
trusted_entry prefix = trusted_key prefix.addr prefix.prefix

unfoldable pub pending_trusted_keys : Ipnet → List XdpTrustedPrefix → List GeoId × List GeoKey
unfolding unique geo_id_eq compact_trusted_prefixes
pending_trusted_keys net prefixes =
    unique geo_id_eq trusted_key_id (map trusted_entry (compact_trusted_prefixes net prefixes))

module _ (chrono : Chrono) where
  open chrono use {DateTime}

  -- The borrowed entries are copies.
  pub record PendingPolicyKeys : Type 0 where
    pub rule_ids : List RuleId
    pub rules : List (RuleKey × XdpPrefixRule)
    pub geo_ids : List GeoId
    pub geo_prefixes : List (GeoKey × XdpGeoPrefix)
    pub trusted_ids : List GeoId
    pub trusted_keys : List GeoKey
    pub country_ids : List ℕ
    pub country_rules : List (ℕ × XdpCountryRule)
    pub custom_rate_ids : List CustomRateId
    pub custom_rate_limits : List (CustomRateKey × XdpDynamicRateLimit)
    pub temp_ban_ids : List RuleId
    pub temp_bans : List (RuleKey × XdpTempBan DateTime)

module _ (net : Ipnet) (locals : List LocalInterfaceCidr) where
  -- safety.rs: the logged refusal is the answer `true`
  unfoldable pub deny_rule_matches_local_interface : XdpPrefixRule → Bool
  unfolding deny_rule_matching_local_cidr
  deny_rule_matches_local_interface rule = is_some (deny_rule_matching_local_cidr net rule locals)

  pub safe_rules : List XdpPrefixRule → List XdpPrefixRule
  unfolding retain
  safe_rules rules = retain (λ rule. not (deny_rule_matches_local_interface rule)) rules

  -- the loop of `pending_rules` with `collect_rule`, which returns early on an unsafe rule
  unfoldable pub pending_rules :
      {DateTime : Type 0} → CompiledPolicy DateTime → List RuleId × List (RuleKey × XdpPrefixRule)
  unfolding unique rule_id_eq safe_rules ordered_policy_rules
  pending_rules policy =
      unique rule_id_eq rule_entry_id (map rule_entry (safe_rules (ordered_policy_rules policy)))

  module _ (chrono : Chrono) where
    open chrono use {DateTime, lt}

    abbrev pub ban_entry : XdpTempBan DateTime → RuleKey × XdpTempBan DateTime
    ban_entry ban = (temp_ban_key ban.addr ban.prefix ban.protocol ban.port, ban)

    abbrev pub ban_entry_id : RuleKey × XdpTempBan DateTime → RuleId
    ban_entry_id e = temp_ban_key_id e.0

    unfoldable pub temp_ban_matches_local_interface : XdpTempBan DateTime → Bool
    unfolding temp_ban_matching_local_cidr
    temp_ban_matches_local_interface ban =
        is_some (temp_ban_matching_local_cidr net chrono ban locals)

    -- `ban.expires_at <= wall_now` is `!(wall_now < ban.expires_at)`
    pub safe_bans : DateTime → List (XdpTempBan DateTime) → List (XdpTempBan DateTime)
    unfolding retain
    safe_bans wall_now bans =
        retain
          (λ ban. not (not (lt wall_now ban.expires_at) || temp_ban_matches_local_interface ban))
          bans

    unfoldable pub pending_temp_bans :
        DateTime → List (XdpTempBan DateTime) → List RuleId × List (RuleKey × XdpTempBan DateTime)
    unfolding unique rule_id_eq safe_bans compact_temp_bans
    pending_temp_bans wall_now bans =
        unique rule_id_eq ban_entry_id
          (map ban_entry (safe_bans wall_now (compact_temp_bans net chrono bans)))

    abbrev pub build_pending_policy_keys :
        CompiledPolicy DateTime → DateTime → PendingPolicyKeys chrono
    build_pending_policy_keys policy wall_now = record {
      rule_ids = (pending_rules policy).0;
      rules = (pending_rules policy).1;
      geo_ids = (pending_geo_prefixes policy.geo_prefixes).0;
      geo_prefixes = (pending_geo_prefixes policy.geo_prefixes).1;
      trusted_ids = (pending_trusted_keys net policy.trusted_prefixes).0;
      trusted_keys = (pending_trusted_keys net policy.trusted_prefixes).1;
      country_ids = (pending_country_rules policy.country_rules).0;
      country_rules = (pending_country_rules policy.country_rules).1;
      custom_rate_ids = (pending_custom_rate_limits policy.dynamic_rate_limits).0;
      custom_rate_limits = (pending_custom_rate_limits policy.dynamic_rate_limits).1;
      temp_ban_ids = (pending_temp_bans wall_now policy.temp_bans).0;
      temp_bans = (pending_temp_bans wall_now policy.temp_bans).1;
    }
