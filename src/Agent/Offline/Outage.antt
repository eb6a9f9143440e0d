-- ===== src/Agent/Offline/Outage.antt =====
-- Failures in a row: when the rules are unloaded, and how often.
use xdp_firewall.Prelude.{
  ℕ, zero, suc, ◌+◌, min, ◌≤◌, ◌≡◌, inl, inr, Bool, true, false, ◌&&◌, leb, if◌then◌else◌, arith,
  Bool-cases, ok,
}
use xdp_firewall.Prelude.Int.{negsuc}
use xdp_firewall.Exec.{Exec, pure, ◌>>◌}
use xdp_firewall.Policy.Model.{CompiledPolicy}
use xdp_firewall.Agent.Offline.{
  AgentOfflineMode, unload_rules, keep_rules, is_unload_rules, u32_max, AgentRuntime,
  record_control_plane_failure, should_unload_rules, empty_policy, handle_control_plane_failure,
}

module _ {DateTime X : Type 0} (apply : CompiledPolicy DateTime → Exec X (Unit {0}))
    (disable : X → X) (mode : AgentOfflineMode) (limit : ℕ) where
  -- `count` failures in a row
  unfoldable pub outage : ℕ → Exec (AgentRuntime X) (Unit {0})
  unfolding handle_control_plane_failure
  outage zero = pure tt
  outage (suc count) = outage count >> handle_control_plane_failure apply disable mode limit

-- The state after the failures of an outage, the empty policy written once if the limit is reached.
abbrev pub after_outage :
    {DateTime X : Type 0}
    → (CompiledPolicy DateTime → X → X)
    → (X → X)
    → Bool
    → ℕ
    → AgentRuntime X
    → AgentRuntime X
after_outage effect disable reached count s = record {
  offline = record { consecutive_failures = min count u32_max; rules_unloaded = reached };
  xdp = if reached then effect (empty_policy s.applied_version) (disable s.xdp) else s.xdp;
  applied_version = if reached then negsuc 0 else s.applied_version;
}

module _ {DateTime X : Type 0} (apply : CompiledPolicy DateTime → Exec X (Unit {0}))
    (disable : X → X) (effect : CompiledPolicy DateTime → X → X)
    (applies : (p : CompiledPolicy DateTime) (x : X) → apply p x ≡ (ok tt, effect p x)) where
  next_failure :
      (mode : AgentOfflineMode) (limit count : ℕ) (s : AgentRuntime X)
      → 1 ≤ limit
      → limit ≤ u32_max
      → handle_control_plane_failure apply disable mode limit
          (after_outage effect disable (is_unload_rules mode && leb limit count) count s)
        ≡ (
          ok tt,
          after_outage effect disable (is_unload_rules mode && leb limit (suc count)) (suc count) s,
        )
  unfolding handle_control_plane_failure record_control_plane_failure should_unload_rules
  next_failure keep_rules limit count s positive small =
      let failures : min (min count u32_max + 1) u32_max ≡ min (suc count) u32_max = omega arith in
      rw failures
  next_failure unload_rules limit count s positive small =
      let failures : min (min count u32_max + 1) u32_max ≡ min (suc count) u32_max = omega arith in
      let test : leb limit (min (suc count) u32_max) ≡ leb limit (suc count) = ground arith in
      elim (Bool-cases (leb limit count)) [
        | inl reached ↦
            let still : leb limit (suc count) ≡ true = ground arith in
            rw (failures, test, reached, still)
        | inr below ↦ elim (Bool-cases (leb limit (suc count))) [
          | inl now ↦ rw (failures, test, below, now, applies)
          | inr not_yet ↦ rw (failures, test, below, not_yet)
        ]
      ]

  -- In an outage of `count` failures in a row from a state without failures and with the rules loaded,
  -- the agent that unloads rules writes the empty policy exactly once, when the limit is reached, and
  -- sets the applied version to -1; the agent that keeps them writes nothing. The limit is a positive
  -- u32, and the write succeeds.
  pub outage_lem :
      (mode : AgentOfflineMode) (limit count : ℕ) (s : AgentRuntime X)
      → 1 ≤ limit
      → limit ≤ u32_max
      → s.offline ≡ record { consecutive_failures = 0; rules_unloaded = false }
      → outage apply disable mode limit count s
        ≡ (ok tt, after_outage effect disable (is_unload_rules mode && leb limit count) count s)
  unfolding outage
  outage_lem mode limit zero s positive small fresh =
      let none_reached : is_unload_rules mode && leb limit 0 ≡ false = ground arith in
      rw none_reached (λ i. (ok tt, record s { offline = fresh i }))
  outage_lem mode limit (suc count) s positive small fresh =
      rw (outage_lem mode limit count s positive small fresh)
        (next_failure mode limit count s positive small)
