-- ===== src/Tests/DataPlane.antt =====
-- The XDP data plane at the agent of the fixtures.
use xdp_firewall.Prelude.{
  ◌++◌, ℕ, ◌+◌, ◌^◌, ◌≤◌, ◌≡◌, refl, ◌↔◌, ◌⊎◌, inl, inr, false, none, some, [], ◌∷◌, arith, All,
  Any, ok, err, Error, length, if◌then◌else◌,
}
use xdp_firewall.Prelude.Int.{pos}
use xdp_firewall.Net.{v4}
use xdp_firewall.Net.Example.{nets, nets-laws, clock, clock-laws}
use xdp_firewall.Dedup.{find_key}
use xdp_firewall.Dedup.First.{IsDistinct}
use xdp_firewall.Policy.Model.{deny, any, tcp, XdpPrefixRule, XdpTempBan}
use xdp_firewall.Xdp.Capacity.{
  XdpMapSizes, default_map_sizes, expanded_capacity, validate_map_capacity, resized_map_sizes,
}
use xdp_firewall.Xdp.Capacity.Growth.{expanded_capacity_iff}
use xdp_firewall.Xdp.Capacity.Resize.{resized-some}
use xdp_firewall.Xdp.Encoding.{RuleKey, rule_key, rule_id_eq, map_addr, addr_bytes, family_of}
use xdp_firewall.Xdp.Encoding.Keys.{rule_key_id-injective, map_addr-addr_bytes}
use xdp_firewall.Compaction.{compact}
use xdp_firewall.Xdp.Local.{compact_trusted_prefixes, compact_temp_bans, prefix_contains_ip}
use xdp_firewall.Xdp.Local.TrustedCoverage.{Trusts, compact_trusted_coverage}
use xdp_firewall.Xdp.Local.BanCoverage.{Bans, compact_temp_bans_coverage}
use xdp_firewall.Xdp.Local.Safety.{Avoids}
use xdp_firewall.Xdp.Values.{RuleValue, rule_value, temp_ban_value, nanoseconds, temp_ban_value_lem}
use xdp_firewall.Xdp.Pending.{
  temp_ban_matches_local_interface, pending_custom_rate_limits, pending_trusted_keys,
  pending_geo_prefixes, pending_country_rules, pending_rules, pending_temp_bans, rule_entry_id,
  ban_entry_id, deny_rule_matches_local_interface,
}
use xdp_firewall.Xdp.Pending.Rules.{IsFirst, id_of, pending_rules-IsFirst}
use xdp_firewall.Xdp.Pending.Bans.{IsSafeBan, pending_temp_bans_safe}
use xdp_firewall.Xdp.Apply.{LinuxXdpManager, apply_to_current_maps}
use xdp_firewall.Xdp.Apply.Mirror.{Mirrors}
use xdp_firewall.Xdp.Apply.Refines.{apply_to_current_maps-Mirrors}
use xdp_firewall.Xdp.Apply.Lockout.{applied_rules_avoid_locals}
use xdp_firewall.Tests.Fixtures.{
  default-IsSizes, kernel, kernel-laws, locals, test_net, test_net-network, allow_test_net, ban,
  trusted_nets, trusted_nets-networks, bans-networks, policy, manager, manager-IsClean, policy-keys,
}

after : LinuxXdpManager kernel
unfolding apply_to_current_maps
after = (apply_to_current_maps kernel nets clock policy 100 manager).1

run : apply_to_current_maps kernel nets clock policy 100 manager ≡ (ok tt, after)
unfolding apply_to_current_maps after compact validate_map_capacity pending_temp_bans
    temp_ban_matches_local_interface prefix_contains_ip temp_ban_value pending_custom_rate_limits
    pending_trusted_keys pending_rules deny_rule_matches_local_interface addr_bytes
    pending_geo_prefixes pending_country_rules rule_value
run = refl

apply_to_current_maps-Mirrors_example :
    Mirrors kernel kernel-laws nets clock policy 100 manager after
apply_to_current_maps-Mirrors_example =
    apply_to_current_maps-Mirrors kernel kernel-laws nets clock policy 100 manager after
      manager-IsClean policy-keys run

abbrev test_net_key : RuleKey
test_net_key = rule_key test_net 24 tcp 443

abbrev blocked : RuleValue
blocked = record { action = 2; source = 1; pad = 0 ∷ 0 ∷ []; priority = pos 10 }

looked_up : kernel.rules.get after.rule_cidrs test_net_key ≡ some blocked
unfolding apply_to_current_maps after compact validate_map_capacity pending_temp_bans
    temp_ban_matches_local_interface prefix_contains_ip temp_ban_value pending_custom_rate_limits
    pending_trusted_keys pending_rules deny_rule_matches_local_interface addr_bytes
    pending_geo_prefixes pending_country_rules rule_value
looked_up = refl

applied_rules_avoid_locals_example :
    (rule : XdpPrefixRule) × Any (λ r. r ≡ rule) (policy.threat_prefixes ++ policy.rules)
    × (rule.action ≡ deny)
    × (rule_key rule.addr rule.prefix rule.protocol rule.port ≡ test_net_key)
    × Avoids rule.addr rule.prefix locals
applied_rules_avoid_locals_example =
    applied_rules_avoid_locals kernel kernel-laws nets nets-laws clock policy 100 manager after
      manager-IsClean policy-keys run test_net_key blocked
      (test_net, 24, tcp, 443, test_net-network, refl) looked_up refl

safe_rule : deny_rule_matches_local_interface nets locals allow_test_net ≡ false
unfolding deny_rule_matches_local_interface
safe_rule = refl

-- The deny rule comes before the allow rule with the same key.
pending_rules-IsFirst_example :
    (e : RuleKey × XdpPrefixRule) × (find_key rule_id_eq rule_entry_id
        (id_of allow_test_net)
        (pending_rules nets locals policy).1
      ≡ some e)
    × Any (λ r. r ≡ e.1) (policy.threat_prefixes ++ policy.rules)
    × (id_of e.1 ≡ id_of allow_test_net)
    × IsFirst e.1 allow_test_net
pending_rules-IsFirst_example =
    pending_rules-IsFirst nets locals policy allow_test_net (inr (inl refl)) safe_rule

pending_temp_bans_safe_example :
    All
      (λ (e : RuleKey × XdpTempBan ℕ). IsSafeBan nets nets-laws locals clock 100 e.1)
      (pending_temp_bans nets locals clock 100 policy.temp_bans).1
    × IsDistinct rule_id_eq
        (ban_entry_id nets locals clock)
        (pending_temp_bans nets locals clock 100 policy.temp_bans).1
pending_temp_bans_safe_example =
    pending_temp_bans_safe nets nets-laws locals clock 100 policy.temp_bans
      (omega arith, (omega arith, (omega arith, tt)))

compact_trusted_coverage_example :
    (Any (Trusts (v4 0x0a010203)) (compact_trusted_prefixes nets trusted_nets)
      ↔ Any (Trusts (v4 0x0a010203)) trusted_nets)
    × (length (compact_trusted_prefixes nets trusted_nets) ≤ length trusted_nets)
compact_trusted_coverage_example =
    compact_trusted_coverage nets nets-laws trusted_nets (v4 0x0a010203) trusted_nets-networks

compact_temp_bans_coverage_example :
    (Any
        (Bans nets nets-laws clock clock-laws (v4 0xcb007107) any 0 140)
        (compact_temp_bans nets clock policy.temp_bans)
      ↔ Any (Bans nets nets-laws clock clock-laws (v4 0xcb007107) any 0 140) policy.temp_bans)
    × (length (compact_temp_bans nets clock policy.temp_bans) ≤ length policy.temp_bans)
compact_temp_bans_coverage_example =
    compact_temp_bans_coverage nets nets-laws clock clock-laws policy.temp_bans (v4 0xcb007107) any
      0 140 bans-networks

-- 262145 rules where 262144 fit.
abbrev one_more : XdpMapSizes
one_more = record default_map_sizes { rule_entries = 262145 }

abbrev doubled : XdpMapSizes
doubled = record default_map_sizes { rule_entries = 524288 }

asks_to_double : resized_map_sizes default_map_sizes one_more ≡ ok (some doubled)
unfolding resized_map_sizes
asks_to_double = refl

resized-some_example :
    ((e : Error) × (validate_map_capacity one_more default_map_sizes ≡ err e))
    × (validate_map_capacity one_more doubled ≡ ok tt)
    × (resized_map_sizes doubled one_more ≡ ok none)
    × (doubled.rate_entries ≡ default_map_sizes.rate_entries)
resized-some_example =
    resized-some default_map_sizes one_more doubled default-IsSizes asks_to_double

expanded_capacity_iff_example :
    ((r : ℕ) × (expanded_capacity "rule_cidrs" 262144 262145 ≡ ok r))
    ↔ ((262145 ≤ 262144) ⊎ ((262145 ≤ 2 ^ 31) × (262144 ≤ 2 ^ 30)))
expanded_capacity_iff_example = expanded_capacity_iff "rule_cidrs" 262144 262145

temp_ban_value_lem_example :
    temp_ban_value clock (ban 150) 100 1000
    ≡ ok (
        if clock.lt 100 150
        then some (record { expires_at_ns = 1000 + nanoseconds (pos 50) })
        else none)
temp_ban_value_lem_example =
    temp_ban_value_lem clock clock-laws (ban 150) 100 1000 (pos 50) refl (omega arith)

rule_key_id-injective_example :
    (test_net ≡ test_net) × (◌≡◌ {A = ℕ} 24 24) × (tcp ≡ tcp) × (◌≡◌ {A = ℕ} 443 443)
rule_key_id-injective_example =
    rule_key_id-injective test_net test_net 24 24 tcp tcp 443 443 (omega arith) (omega arith)
      (omega arith) (omega arith) (inr refl)

map_addr-addr_bytes_example : map_addr (family_of test_net) (addr_bytes test_net) ≡ test_net
map_addr-addr_bytes_example = map_addr-addr_bytes test_net (omega arith)
