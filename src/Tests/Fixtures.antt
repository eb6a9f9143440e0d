-- ===== src/Tests/Fixtures.antt =====
-- An agent at 10.0.0.5 with empty maps, and a policy for it.
use xdp_firewall.Prelude.{
  ℕ, ◌^◌, ◌%◌, ◌-◌, ◌≤◌, ◌≡◌, refl, ap, ◌↔◌, Bool, true, false, List, [], ◌∷◌, ◌==◌, arith, All, ok,
  ==→eq, ==_refl, subst,
}
use xdp_firewall.Prelude.Int.{pos}
use xdp_firewall.Net.{IpAddr, v4, IsNetwork, width, bits}
use xdp_firewall.Policy.Model.{
  allow, deny, any, tcp, udp, firewall_rule, threat_intel, XdpTrustedPrefix, XdpPrefixRule,
  XdpTempBan, CompiledPolicy, default_xdp_dynamic_defense,
}
use xdp_firewall.Xdp.Capacity.{default_map_sizes}
use xdp_firewall.Xdp.Capacity.Resize.{IsSizes}
use xdp_firewall.Xdp.Encoding.{
  RuleKey, GeoKey, CustomRateKey, rule_key_id, geo_key_id, custom_rate_key_id, rule_id_eq,
  geo_id_eq, custom_rate_id_eq,
}
use xdp_firewall.Xdp.Encoding.Keys.{rule_id_eq_iff, geo_id_eq_iff, custom_rate_id_eq_iff}
use xdp_firewall.Xdp.Local.{LocalInterfaceCidr}
use xdp_firewall.Xdp.Values.{
  RuleValue, GeoValue, TrustedValue, CountryValue, CustomRateValue, TempBanValue, DefenseValue,
  defense_value,
}
use xdp_firewall.Xdp.BpfMap.Example.{assoc, assoc-laws, empty-Clean, single-Clean}
use xdp_firewall.Xdp.Apply.{Kernel, LinuxXdpManager}
use xdp_firewall.Xdp.Apply.Mirror.{
  IsRuleKey, IsGeoKey, IsAnyKey, KernelLaws, IsClean, HasCanonicalKeys,
}
use xdp_firewall.Xdp.Apply.Refines.{
  rule_key_injective, geo_key_injective, custom_rate_key_injective,
}

abbrev rule_key_eq : RuleKey → RuleKey → Bool
rule_key_eq a b = rule_id_eq (rule_key_id a) (rule_key_id b)

abbrev geo_key_eq : GeoKey → GeoKey → Bool
geo_key_eq a b = geo_id_eq (geo_key_id a) (geo_key_id b)

abbrev rate_key_eq : CustomRateKey → CustomRateKey → Bool
rate_key_eq a b = custom_rate_id_eq (custom_rate_key_id a) (custom_rate_key_id b)

rule_key_eq_iff : (a b : RuleKey) → (rule_key_eq a b ≡ true) ↔ (a ≡ b)
rule_key_eq_iff a b = (
  (λ h. rule_key_injective a b ((rule_id_eq_iff (rule_key_id a) (rule_key_id b)).0 h)),
  (λ e. (rule_id_eq_iff (rule_key_id a) (rule_key_id b)).1 (ap rule_key_id e)),
)

geo_key_eq_iff : (a b : GeoKey) → (geo_key_eq a b ≡ true) ↔ (a ≡ b)
geo_key_eq_iff a b = (
  (λ h. geo_key_injective a b ((geo_id_eq_iff (geo_key_id a) (geo_key_id b)).0 h)),
  (λ e. (geo_id_eq_iff (geo_key_id a) (geo_key_id b)).1 (ap geo_key_id e)),
)

rate_key_eq_iff : (a b : CustomRateKey) → (rate_key_eq a b ≡ true) ↔ (a ≡ b)
rate_key_eq_iff a b = (
  (λ h.
      custom_rate_key_injective a b
        ((custom_rate_id_eq_iff (custom_rate_key_id a) (custom_rate_key_id b)).0 h)),
  (λ e.
      (custom_rate_id_eq_iff (custom_rate_key_id a) (custom_rate_key_id b)).1
        (ap custom_rate_key_id e)),
)

number_eq_iff : (a b : ℕ) → ((a == b) ≡ true) ↔ (a ≡ b)
number_eq_iff a b = (==→eq a b, (λ e. subst (λ c. (a == c) ≡ true) e (==_refl a)))

-- The clock of the kernel stands at 1000 nanoseconds.
abbrev pub kernel : Kernel
kernel = record {
  rules = assoc rule_key_eq;
  geo = assoc geo_key_eq;
  trusted = assoc geo_key_eq;
  countries = assoc ◌==◌;
  custom_rates = assoc rate_key_eq;
  bans = assoc rule_key_eq;
  Defense = DefenseValue;
  set_defense = λ v d. (ok tt, v);
  monotonic_now_ns = ok 1000;
}

pub kernel-laws : KernelLaws kernel
kernel-laws = record {
  rules = assoc-laws rule_key_eq rule_key_eq_iff IsRuleKey;
  geo = assoc-laws geo_key_eq geo_key_eq_iff IsGeoKey;
  trusted = assoc-laws geo_key_eq geo_key_eq_iff IsGeoKey;
  countries = assoc-laws ◌==◌ number_eq_iff IsAnyKey;
  custom_rates = assoc-laws rate_key_eq rate_key_eq_iff IsAnyKey;
  bans = assoc-laws rule_key_eq rule_key_eq_iff IsRuleKey;
}

abbrev pub agent_ip : IpAddr
agent_ip = v4 0x0a000005

abbrev pub locals : List LocalInterfaceCidr
locals = record { ip = agent_ip; prefix = 24 } ∷ []

-- 192.0.2.0/24
abbrev pub test_net : IpAddr
test_net = v4 0xc0000200

abbrev pub block_test_net : XdpPrefixRule
block_test_net = record {
  addr = test_net;
  prefix = 24;
  priority = pos 10;
  action = deny;
  protocol = tcp;
  port = 443;
  source = firewall_rule;
}

-- the same key, behind the deny rule
abbrev pub allow_test_net : XdpPrefixRule
allow_test_net = record {
  addr = test_net;
  prefix = 24;
  priority = pos 20;
  action = allow;
  protocol = tcp;
  port = 443;
  source = firewall_rule;
}

-- 10.0.0.0/8, which holds the agent
abbrev pub block_own_net : XdpPrefixRule
block_own_net = record {
  addr = v4 0x0a000000;
  prefix = 8;
  priority = pos 1;
  action = deny;
  protocol = any;
  port = 0;
  source = threat_intel;
}

abbrev pub ban : ℕ → XdpTempBan ℕ
ban expires_at = record {
  addr = v4 0xcb007100;
  prefix = 24;
  protocol = any;
  port = 0;
  expires_at = expires_at;
}

abbrev pub host_ban : XdpTempBan ℕ
host_ban = record { addr = v4 0xcb007107; prefix = 32; protocol = any; port = 0; expires_at = 150 }

abbrev pub trusted_nets : List XdpTrustedPrefix
trusted_nets =
    record { addr = v4 0x0a010000; prefix = 16 } ∷ record { addr = v4 0x0a000000; prefix = 8 } ∷ []

abbrev pub policy : CompiledPolicy ℕ
policy = record {
  version = pos 7;
  trusted_prefixes = trusted_nets;
  rules = allow_test_net ∷ block_test_net ∷ [];
  country_rules = record { country = 17230; action = deny } ∷ [];
  temp_bans = host_ban ∷ ban 150 ∷ ban 200 ∷ [];
  dynamic_defense = default_xdp_dynamic_defense;
  dynamic_rate_limits =
      record { protocol = udp; port = 53; packets_per_second = 100; burst = 200 } ∷ [];
  geo_prefixes = record { addr = v4 0xc6336400; prefix = 24; country = 17230 } ∷ [];
  threat_prefixes = block_own_net ∷ [];
}

abbrev pub manager : LinuxXdpManager kernel
manager = record {
  rule_cidrs = [];
  geo_cidrs = [];
  trusted_cidrs = [];
  country_rules = [];
  defense_policy = defense_value default_xdp_dynamic_defense;
  custom_rate_limits = [];
  temp_bans = [];
  map_sizes = default_map_sizes;
  local_interface_cidrs = locals;
  auto_resize_maps = false;
}

pub manager-IsClean : IsClean kernel kernel-laws manager
unfolding kernel-laws
manager-IsClean = record {
  rules = empty-Clean RuleValue rule_key_eq rule_key_eq_iff IsRuleKey;
  geo = empty-Clean GeoValue geo_key_eq geo_key_eq_iff IsGeoKey;
  trusted = empty-Clean TrustedValue geo_key_eq geo_key_eq_iff IsGeoKey;
  countries = empty-Clean CountryValue ◌==◌ number_eq_iff IsAnyKey;
  custom_rates = empty-Clean CustomRateValue rate_key_eq rate_key_eq_iff IsAnyKey;
  bans = empty-Clean TempBanValue rule_key_eq rule_key_eq_iff IsRuleKey;
}

network : (a : IpAddr) (p : ℕ) → p ≤ width a → bits a % 2 ^ (width a - p) ≡ 0 → IsNetwork a p
network a p h e = record { fits = h; host_zero = e }

pub test_net-network : IsNetwork test_net 24
test_net-network = network test_net 24 (omega arith) refl

pub trusted_nets-networks : All (λ (p : XdpTrustedPrefix). IsNetwork p.addr p.prefix) trusted_nets
trusted_nets-networks = (
  network (v4 0x0a010000) 16 (omega arith) refl,
  (network (v4 0x0a000000) 8 (omega arith) refl, tt),
)

pub bans-networks : All (λ (b : XdpTempBan ℕ). IsNetwork b.addr b.prefix) policy.temp_bans
bans-networks = (
  network (v4 0xcb007107) 32 (omega arith) refl,
  (
    network (v4 0xcb007100) 24 (omega arith) refl,
    (network (v4 0xcb007100) 24 (omega arith) refl, tt),
  ),
)

pub policy-keys : HasCanonicalKeys policy
policy-keys = record {
  trusted = trusted_nets-networks;
  rules =
      (network (v4 0x0a000000) 8 (omega arith) refl, (test_net-network, (test_net-network, tt)));
  temp_bans = bans-networks;
  geo = (network (v4 0xc6336400) 24 (omega arith) refl, tt);
}

pub one_rule-Clean :
    (k : RuleKey) (v : RuleValue) → IsRuleKey k → kernel-laws.rules.Clean ((k, v) ∷ [])
unfolding kernel-laws
one_rule-Clean k v c = single-Clean RuleValue rule_key_eq rule_key_eq_iff IsRuleKey k v c

pub default-IsSizes : IsSizes default_map_sizes
default-IsSizes = record {
  rule = omega arith;
  geo = omega arith;
  trusted = omega arith;
  country = omega arith;
  custom = omega arith;
  temp = omega arith;
}
