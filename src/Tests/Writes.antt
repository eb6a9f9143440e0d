-- ===== src/Tests/Writes.antt =====
-- Writes that fail, and writes to maps that hold entries already.
use xdp_firewall.Prelude.{◌≡◌, refl, ◌⊎◌, true, false, [], ◌∷◌, Error, Result, ok, err, foreign}
use xdp_firewall.Prelude.Int.{pos}
use xdp_firewall.Exec.{Exec}
use xdp_firewall.Net.Example.{nets, clock}
use xdp_firewall.Compaction.{compact}
use xdp_firewall.Dedup.{contains_key}
use xdp_firewall.Policy.Model.{tcp}
use xdp_firewall.Xdp.Capacity.{XdpMapSizes, default_map_sizes, validate_map_capacity}
use xdp_firewall.Xdp.Encoding.{RuleKey, rule_key, rule_key_id, rule_id_eq, addr_bytes}
use xdp_firewall.Xdp.Local.{prefix_contains_ip}
use xdp_firewall.Xdp.Values.{RuleValue}
use xdp_firewall.Xdp.Pending.{pending_rules, deny_rule_matches_local_interface}
use xdp_firewall.Xdp.Apply.{Kernel, LinuxXdpManager, apply, apply_to_current_maps}
use xdp_firewall.Xdp.Apply.Sizes.{required_policy_map_sizes}
use xdp_firewall.Xdp.Apply.Mirror.{IsRuleKey, KernelLaws}
use xdp_firewall.Xdp.Apply.Lapse.{HasRule, wanted_rules_stay}
use xdp_firewall.Xdp.Apply.Resizing.{apply_fixed_cases}
use xdp_firewall.Tests.Fixtures.{
  kernel, kernel-laws, locals, test_net, test_net-network, policy, manager, policy-keys,
  one_rule-Clean, default-IsSizes,
}

abbrev key : RuleKey
key = rule_key test_net 24 tcp 443

abbrev old_value : RuleValue
old_value = record { action = 1; source = 1; pad = 0 ∷ 0 ∷ []; priority = pos 99 }

-- A kernel whose clock fails: the write stops behind the defense value.
abbrev no_clock : Kernel
no_clock = record kernel { monotonic_now_ns = err (foreign "clock_gettime") }

abbrev no_clock_laws : KernelLaws no_clock
no_clock_laws = record {
  rules = kernel-laws.rules;
  geo = kernel-laws.geo;
  trusted = kernel-laws.trusted;
  countries = kernel-laws.countries;
  custom_rates = kernel-laws.custom_rates;
  bans = kernel-laws.bans;
}

-- The rule of an earlier policy.
abbrev holding : LinuxXdpManager no_clock
holding = record {
  rule_cidrs = (key, old_value) ∷ [];
  geo_cidrs = [];
  trusted_cidrs = [];
  country_rules = [];
  defense_policy = manager.defense_policy;
  custom_rate_limits = [];
  temp_bans = [];
  map_sizes = default_map_sizes;
  local_interface_cidrs = locals;
  auto_resize_maps = false;
}

key_is_wanted :
    contains_key rule_id_eq (pending_rules nets locals policy).0 (rule_key_id key) ≡ true
unfolding pending_rules deny_rule_matches_local_interface prefix_contains_ip addr_bytes
key_is_wanted = refl

abbrev is_key : IsRuleKey key
is_key = (test_net, 24, tcp, 443, test_net-network, refl)

key_is_there : HasRule no_clock no_clock_laws nets clock key is_key holding
unfolding addr_bytes rule_id_eq
key_is_there = refl

abbrev outcome : Result (Unit {0}) × LinuxXdpManager no_clock
outcome = apply_to_current_maps no_clock nets clock policy 100 holding

fails : outcome.0 ≡ err (foreign "clock_gettime")
unfolding apply_to_current_maps required_policy_map_sizes compact validate_map_capacity
fails = refl

wanted_rules_stay_example : HasRule no_clock no_clock_laws nets clock key is_key outcome.1
wanted_rules_stay_example =
    wanted_rules_stay no_clock no_clock_laws nets clock key is_key policy 100 holding outcome.1
      outcome.0 (one_rule-Clean key old_value is_key) policy-keys key_is_wanted key_is_there refl

abbrev no_resize : XdpMapSizes → Exec (LinuxXdpManager kernel) (Unit {0})
no_resize sizes m = (ok tt, m)

abbrev needed : XdpMapSizes
needed = record {
  rule_entries = 3;
  geo_entries = 1;
  trusted_entries = 1;
  country_entries = 1;
  rate_entries = 1048576;
  custom_rate_limit_entries = 1;
  temp_ban_entries = 1;
}

needs : required_policy_map_sizes nets clock default_map_sizes policy ≡ ok needed
unfolding required_policy_map_sizes compact
needs = refl

apply_fixed_cases_example :
    ((validate_map_capacity needed default_map_sizes ≡ ok tt)
      × (apply kernel nets clock no_resize policy 100 manager
          ≡ apply_to_current_maps kernel nets clock policy 100 manager))
    ⊎ ((e : Error) × (apply kernel nets clock no_resize policy 100 manager ≡ (err e, manager)))
apply_fixed_cases_example =
    apply_fixed_cases kernel nets clock no_resize policy 100 manager needed refl default-IsSizes
      needs
