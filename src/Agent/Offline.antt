-- ===== src/Agent/Offline.antt =====
-- src/agent/offline.rs and src/agent/sync/runtime/offline_handling.rs: what the agent does while the
-- control plane is out of reach. The log messages and the wait before the reconnect are left out.
pub mod Outage
pub mod Invariant
use xdp_firewall.Prelude.{
  ℕ, ◌+◌, ◌-◌, ◌^◌, min, Bool, true, false, not, ◌&&◌, List, [], leb, if◌then◌else◌, Result, ok,
  err,
}
use xdp_firewall.Prelude.Int.{ℤ, pos, negsuc}
use xdp_firewall.Exec.{Exec}
use xdp_firewall.Policy.Model.{CompiledPolicy, default_xdp_dynamic_defense}

-- AgentOfflineMode of src/cli/agent.rs
pub data AgentOfflineMode : Type 0 where
  unload_rules keep_rules : AgentOfflineMode

abbrev pub is_unload_rules : AgentOfflineMode → Bool
is_unload_rules unload_rules = true
is_unload_rules keep_rules = false

abbrev pub u32_max : ℕ
u32_max = 2 ^ 32 - 1

pub record OfflinePolicyState : Type 0 where
  pub consecutive_failures : ℕ
  pub rules_unloaded : Bool

-- `saturating_add(1)`
unfoldable pub record_control_plane_failure : OfflinePolicyState → OfflinePolicyState
record_control_plane_failure s = record s {
  consecutive_failures = min (s.consecutive_failures + 1) u32_max;
}

unfoldable pub record_control_plane_healthy : OfflinePolicyState → OfflinePolicyState
record_control_plane_healthy s = record s { consecutive_failures = 0 }

unfoldable pub record_policy_applied : OfflinePolicyState → OfflinePolicyState
record_policy_applied s = record { consecutive_failures = 0; rules_unloaded = false }

unfoldable pub should_unload_rules : OfflinePolicyState → AgentOfflineMode → ℕ → Bool
should_unload_rules s offline_mode failure_limit =
    is_unload_rules offline_mode && not s.rules_unloaded && leb failure_limit s.consecutive_failures

-- `previous_version.max(0)`
abbrev pub not_negative : ℤ → ℤ
not_negative (pos n) = pos n
not_negative (negsuc n) = pos 0

abbrev pub empty_policy : {DateTime : Type 0} → ℤ → CompiledPolicy DateTime
empty_policy previous_version = record {
  version = not_negative previous_version;
  trusted_prefixes = [];
  rules = [];
  country_rules = [];
  temp_bans = [];
  dynamic_defense = default_xdp_dynamic_defense;
  dynamic_rate_limits = [];
  geo_prefixes = [];
  threat_prefixes = [];
}

-- The fields of AgentRuntime that an outage changes; `X` is the state of the XdpManager.
pub record AgentRuntime (X : Type 0) : Type 0 where
  pub offline : OfflinePolicyState
  pub xdp : X
  pub applied_version : ℤ

-- `xdp.apply` and `drop_monitor::disable`
module _ {DateTime X : Type 0} (apply : CompiledPolicy DateTime → Exec X (Unit {0}))
    (disable : X → X) where
  abbrev pub unload_firewall_rules_for_offline_mode : ℤ → Exec X (Unit {0})
  unload_firewall_rules_for_offline_mode previous_version = apply (empty_policy previous_version)

  -- the lines behind the unload, which `?` skips
  abbrev pub unloaded : Result (Unit {0}) → Exec (AgentRuntime X) (Unit {0})
  unloaded (err e) s = (err e, s)
  unloaded (ok u) s = (
    ok tt,
    record s { applied_version = negsuc 0; offline = record s.offline { rules_unloaded = true } },
  )

  unfoldable pub handle_control_plane_failure :
      AgentOfflineMode → ℕ → Exec (AgentRuntime X) (Unit {0})
  unfolding record_control_plane_failure should_unload_rules
  handle_control_plane_failure offline_mode failure_limit s =
      let offline = record_control_plane_failure s.offline in
      let (r, x) = unload_firewall_rules_for_offline_mode s.applied_version (disable s.xdp) in
      if should_unload_rules offline offline_mode failure_limit
      then unloaded r (record s { offline = offline; xdp = x })
      else (ok tt, record s { offline = offline })
