-- ===== src/Tests/ControlPlane.antt =====
-- The trusted CIDRs of a control plane with a discovered network.
use xdp_firewall.Prelude.{
  ℕ, ◌%◌, ◌^◌, ◌-◌, min, ◌≤◌, ◌≡◌, refl, ◌↔◌, ◌⊎◌, Option, none, some, List, [], ◌∷◌, arith,
}
use xdp_firewall.Prelude.Int.{pos}
use xdp_firewall.Net.{v4}
use xdp_firewall.Net.Example.{nets, nets-laws, Network}
use xdp_firewall.Text.{codes}
use xdp_firewall.Policy.Model.{default_dynamic_defense, PolicySnapshot}
use xdp_firewall.Xds.RuntimeCidrs.{
  static_cidrs, compact_covered_cidrs, current_snapshot, load_policy_snapshot,
}
use xdp_firewall.Xds.RuntimeCidrs.Cover.{IsCanonicalCidr, Holds, compact_covered_cidrs_loses_twins}
use xdp_firewall.Xds.RuntimeCidrs.Coverage.{discovered, Hit, load_policy_snapshot-trusts}

abbrev cidr : ℕ → ℕ → Network
cidr a p = record { address = v4 a; len = p }

-- 172.30.0.0/16 is trusted by the policy.
abbrev snapshot : PolicySnapshot Network ℕ
snapshot = record {
  policy_name = codes "default";
  version = pos 3;
  rules = [];
  geo_countries = [];
  geo_prefixes = [];
  temp_bans = [];
  dynamic_defense = default_dynamic_defense;
  dynamic_rate_limits = [];
  trusted_cidrs = record { cidr = cidr 0xac1e0000 16; comment = none } ∷ [];
  threat_prefixes = [];
}

-- 172.30.133.54/32 is covered, 198.51.100.0/24 is not.
abbrev configured : List Network
configured = cidr 0xac1e8536 32 ∷ cidr 0xc6336400 24 ∷ []

abbrev cache : Option (List Network)
cache = some (cidr 0xcb007100 24 ∷ cidr 0xc6336400 24 ∷ [])

canonical : (a p : ℕ) → p ≤ 32 → a % 2 ^ (32 - p) ≡ 0 → IsCanonicalCidr nets (cidr a p)
canonical a p h e =
    let same : min p 32 ≡ p = omega arith in rw same (record { fits = h; host_zero = e })

load_policy_snapshot-trusts_example :
    Hit nets nets-laws (v4 0xcb007107) (
      static_cidrs nets
        (load_policy_snapshot nets snapshot (current_snapshot nets configured cache)))
    ↔ (Hit nets nets-laws (v4 0xcb007107) (static_cidrs nets snapshot)
        ⊎ Hit nets nets-laws (v4 0xcb007107) configured
        ⊎ Hit nets nets-laws (v4 0xcb007107) (discovered cache))
load_policy_snapshot-trusts_example =
    load_policy_snapshot-trusts nets nets-laws (v4 0xcb007107) snapshot configured cache
      (canonical 0xac1e0000 16 (omega arith) refl, tt)
      (canonical 0xac1e8536 32 (omega arith) refl, (canonical 0xc6336400 24 (omega arith) refl, tt))
      (canonical 0xcb007100 24 (omega arith) refl, (canonical 0xc6336400 24 (omega arith) refl, tt))

-- 10.0.0.1/8 and 10.0.0.2/8
compact_covered_cidrs_loses_twins_example :
    ((compact_covered_cidrs nets (cidr 0x0a000001 8 ∷ cidr 0x0a000002 8 ∷ [])).cidrs ≡ [])
    × Holds nets (v4 0x0a000001) (cidr 0x0a000001 8)
    × Holds nets (v4 0x0a000001) (cidr 0x0a000002 8)
compact_covered_cidrs_loses_twins_example =
    compact_covered_cidrs_loses_twins nets nets-laws (cidr 0x0a000001 8) (cidr 0x0a000002 8) refl
      refl refl
