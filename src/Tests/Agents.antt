-- ===== src/Tests/Agents.antt =====
-- An agent that loses its control plane, and one that applies a policy.
use xdp_firewall.Prelude.{
  ℕ, ◌≡◌, refl, ◌↔◌, ◌⊎◌, true, false, ◌&&◌, none, some, List, [], ◌∷◌, arith, Any, ok, leb,
}
use xdp_firewall.Prelude.Int.{pos, negsuc}
use xdp_firewall.Exec.{Exec}
use xdp_firewall.Net.{IpAddr, v4}
use xdp_firewall.Net.Example.{nets, nets-laws, clock, Network}
use xdp_firewall.Text.{codes}
use xdp_firewall.Policy.Model.{default_dynamic_defense, PolicySnapshot, CompiledPolicy}
use xdp_firewall.Policy.Validate.{validate_dynamic_defense_policy}
use xdp_firewall.Policy.Compile.{compile_policy}
use xdp_firewall.Xdp.Local.{compact_trusted_prefixes}
use xdp_firewall.Xdp.Local.TrustedCoverage.{Trusts}
use xdp_firewall.Xds.Refresh.{refresh_gate, refresh_skip_with_missing, HasElapsed, refresh_runs_iff}
use xdp_firewall.Agent.Offline.{
  unload_rules, is_unload_rules, AgentRuntime, handle_control_plane_failure,
  record_control_plane_failure, should_unload_rules,
}
use xdp_firewall.Agent.Offline.Outage.{outage, after_outage, outage_lem}
use xdp_firewall.Agent.Offline.Invariant.{failed, here, next, unloaded_version}
use xdp_firewall.Agent.Trust.{
  add_control_plane_trusted_cidrs, resolve_control_plane_prefixes, ip_literal_prefix,
  add_control_plane_trusted_cidr,
}
use xdp_firewall.Agent.Trust.Latest.{apply_latest, apply_latest-Trusts}

-- The policies that were written, the last one first.
abbrev Log : Type 0
Log = List (CompiledPolicy ℕ)

abbrev write : CompiledPolicy ℕ → Exec Log (Unit {0})
write policy log = (ok tt, policy ∷ log)

abbrev keep_monitor : Log → Log
keep_monitor log = log

abbrev running : AgentRuntime Log
running = record {
  offline = record { consecutive_failures = 0; rules_unloaded = false };
  xdp = [];
  applied_version = pos 4;
}

outage_lem_example : outage write keep_monitor unload_rules 3 5 running ≡ (
  ok tt,
  after_outage
      (λ policy log. policy ∷ log)
      keep_monitor
      (is_unload_rules unload_rules && leb 3 5)
      5
      running,
)
outage_lem_example =
    outage_lem write keep_monitor (λ policy log. policy ∷ log) (λ p x. refl) unload_rules 3 5
      running (omega arith) (omega arith) refl

abbrev lost : AgentRuntime Log
lost = (handle_control_plane_failure write keep_monitor unload_rules 1 running).1

unloads : lost.offline.rules_unloaded ≡ true
unfolding handle_control_plane_failure record_control_plane_failure should_unload_rules
unloads = refl

unloaded_version_example : lost.applied_version ≡ negsuc 0
unloaded_version_example =
    unloaded_version write keep_monitor unload_rules 1 running lost
      (next running running lost (here running) (
        failed running lost
          (handle_control_plane_failure write keep_monitor unload_rules 1 running).0 refl))
      (λ e. absurd (cc)) unloads

-- 203.0.113.9
abbrev control_plane : IpAddr
control_plane = v4 0xcb007109

abbrev snapshot : PolicySnapshot Network ℕ
snapshot = record {
  policy_name = codes "default";
  version = pos 5;
  rules = [];
  geo_countries = [];
  geo_prefixes = [];
  temp_bans = [];
  dynamic_defense = default_dynamic_defense;
  dynamic_rate_limits = [];
  trusted_cidrs = [];
  threat_prefixes = [];
}

abbrev now : ℕ → ℕ
now i = 100

abbrev written : Log
written = (apply_latest nets clock write now snapshot (some control_plane) []).1

applies : apply_latest nets clock write now snapshot (some control_plane) [] ≡ (ok (pos 5), written)
unfolding apply_latest add_control_plane_trusted_cidrs resolve_control_plane_prefixes
    ip_literal_prefix add_control_plane_trusted_cidr compile_policy validate_dynamic_defense_policy
    default_dynamic_defense
applies = refl

apply_latest-Trusts_example :
    (policy : CompiledPolicy ℕ) × (write policy [] ≡ (ok tt, written))
    × (policy.version ≡ pos 5)
    × Any (Trusts control_plane) (compact_trusted_prefixes nets policy.trusted_prefixes)
apply_latest-Trusts_example =
    apply_latest-Trusts nets nets-laws clock write now snapshot control_plane [] written (pos 5)
      applies

refresh_runs_iff_example :
    (refresh_skip_with_missing (refresh_gate false (some 100) (some 990) 1000 300 60) true ≡ none)
    ↔ ((false ≡ false)
        × HasElapsed (some 990) 1000 60
        × ((true ≡ true) ⊎ HasElapsed (some 100) 1000 300))
refresh_runs_iff_example = refresh_runs_iff false true (some 100) (some 990) 1000 300 60
