-- ===== src/Xdp/Apply/Canonical.antt =====
-- The entries of a policy of canonical networks have canonical keys.
use xdp_firewall.Prelude.{refl, Bool, List, ◌++◌, map, All, All-map_imp, retain, retain-All}
use xdp_firewall.Net.{IsNetwork, Ipnet, Chrono}
use xdp_firewall.Compaction.{compact}
use xdp_firewall.Compaction.Coverage.{compact-All}
use xdp_firewall.Sorting.{sort_by}
use xdp_firewall.Sorting.Laws.{sort_by-All}
use xdp_firewall.Policy.Model.{XdpTrustedPrefix, XdpPrefixRule, XdpTempBan, CompiledPolicy}
use xdp_firewall.Xdp.Encoding.{RuleKey}
use xdp_firewall.Xdp.Local.{
  LocalInterfaceCidr, trusted_prefix_covers, temp_ban_covers_or_supersedes,
}
use xdp_firewall.Xdp.Pending.{rule_before, rule_entry, ban_entry, trusted_entry}
use xdp_firewall.Xdp.Apply.Mirror.{IsRuleKey, IsGeoKey, HasCanonicalKeys}

pub rule_entries-canonical :
    {DateTime : Type 0} (policy : CompiledPolicy DateTime)
    → HasCanonicalKeys policy
    → (safe : XdpPrefixRule → Bool)
    → All
        (λ (e : RuleKey × XdpPrefixRule). IsRuleKey e.0)
        (map rule_entry
          (retain safe (sort_by rule_before (policy.threat_prefixes ++ policy.rules))))
rule_entries-canonical policy keys safe =
    All-map_imp _ (λ (e : RuleKey × XdpPrefixRule). IsRuleKey e.0) rule_entry _
      (λ r h. (r.addr, r.prefix, r.protocol, r.port, h.0, refl))
      (retain-All (λ (r : XdpPrefixRule). IsNetwork r.addr r.prefix) safe _
        (sort_by-All rule_before (λ (r : XdpPrefixRule). IsNetwork r.addr r.prefix)
          (policy.threat_prefixes ++ policy.rules) keys.rules))

module _ (net : Ipnet) where
  pub trusted_entries-canonical :
      {DateTime : Type 0} (policy : CompiledPolicy DateTime)
      → HasCanonicalKeys policy
      → All IsGeoKey
          (map trusted_entry (compact (trusted_prefix_covers net) policy.trusted_prefixes))
  trusted_entries-canonical policy keys =
      All-map_imp (λ (p : XdpTrustedPrefix). IsNetwork p.addr p.prefix) IsGeoKey trusted_entry _
        (λ p h. (p.addr, p.prefix, h, refl))
        (compact-All (trusted_prefix_covers net)
          (λ (p : XdpTrustedPrefix). IsNetwork p.addr p.prefix) policy.trusted_prefixes
          keys.trusted)

  module _ (locals : List LocalInterfaceCidr) (chrono : Chrono) where
    open chrono use {DateTime}

    pub ban_entries-canonical :
        (policy : CompiledPolicy DateTime)
        → HasCanonicalKeys policy
        → (safe : XdpTempBan DateTime → Bool)
        → All
            (λ (e : RuleKey × XdpTempBan DateTime). IsRuleKey e.0)
            (map
              (ban_entry net locals chrono)
              (retain safe (compact (temp_ban_covers_or_supersedes net chrono) policy.temp_bans)))
    ban_entries-canonical policy keys safe =
        All-map_imp _ (λ (e : RuleKey × XdpTempBan DateTime). IsRuleKey e.0)
          (ban_entry net locals chrono) _ (λ b h. (b.addr, b.prefix, b.protocol, b.port, h.0, refl))
          (retain-All (λ (b : XdpTempBan DateTime). IsNetwork b.addr b.prefix) safe _
            (compact-All (temp_ban_covers_or_supersedes net chrono)
              (λ (b : XdpTempBan DateTime). IsNetwork b.addr b.prefix) policy.temp_bans
              keys.temp_bans))
