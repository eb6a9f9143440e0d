-- ===== src/Agent/Offline/Invariant.antt =====
-- The runs of the agent as sequences of steps.
use xdp_firewall.Prelude.{ℕ, ◌≡◌, refl, subst, inl, inr, true, Bool-cases, Result, ok, err}
use xdp_firewall.Prelude.Int.{ℤ, negsuc}
use xdp_firewall.Exec.{Exec}
use xdp_firewall.Policy.Model.{CompiledPolicy}
use xdp_firewall.Agent.Offline.{
  AgentOfflineMode, AgentRuntime, record_control_plane_failure, record_control_plane_healthy,
  record_policy_applied, should_unload_rules, empty_policy, unloaded, handle_control_plane_failure,
}

module _ {DateTime X : Type 0} (apply : CompiledPolicy DateTime → Exec X (Unit {0}))
    (disable : X → X) (mode : AgentOfflineMode) (limit : ℕ) where
  -- What the loops of src/agent/sync/runtime/stream.rs do to the state: a failure, whose handling may
  -- fail itself, a good heartbeat, a policy that was applied, and a change of the maps alone.
  pub data Step : AgentRuntime X → AgentRuntime X → Type 0 where
    failed :
        (s t : AgentRuntime X) (r : Result (Unit {0}))
        → handle_control_plane_failure apply disable mode limit s ≡ (r, t)
        → Step s t
    healthy :
        (s : AgentRuntime X)
        → Step s (record s { offline = record_control_plane_healthy s.offline })
    applied :
        (s : AgentRuntime X) (x : X) (version : ℤ)
        → Step s (record {
          offline = record_policy_applied s.offline;
          xdp = x;
          applied_version = version;
        })
    -- a policy that was not applied, or a setting of the drop monitor: only the maps may differ
    changed : (s : AgentRuntime X) (x : X) → Step s (record s { xdp = x })

  pub data Reaches : AgentRuntime X → AgentRuntime X → Type 0 where
    here : (s : AgentRuntime X) → Reaches s s
    next : (s t u : AgentRuntime X) → Reaches s t → Step t u → Reaches s u

  -- While the rules are unloaded no version counts as applied, so that the next subscription asks for
  -- the whole policy.
  abbrev pub WillReload : AgentRuntime X → Type 0
  WillReload s = s.offline.rules_unloaded ≡ true → s.applied_version ≡ negsuc 0

  unloaded-WillReload :
      (r : Result (Unit {0})) (s : AgentRuntime X)
      → WillReload s
      → WillReload (unloaded apply disable r s).1
  unloaded-WillReload (ok u) s h e = refl
  unloaded-WillReload (err f) s h e = h e

  failure-WillReload :
      (s : AgentRuntime X)
      → WillReload s
      → WillReload (handle_control_plane_failure apply disable mode limit s).1
  unfolding handle_control_plane_failure record_control_plane_failure
  failure-WillReload s h =
      elim (Bool-cases (should_unload_rules (record_control_plane_failure s.offline) mode limit)) [
        | inl unloads ↦
            rw unloads
              (unloaded-WillReload (apply (empty_policy s.applied_version) (disable s.xdp)).0 _ h)
        | inr keeps ↦ rw keeps h
      ]

  Step-WillReload : (s t : AgentRuntime X) → Step s t → WillReload s → WillReload t
  unfolding record_control_plane_healthy record_policy_applied
  Step-WillReload s t (failed _ _ r e) h = subst (λ p. WillReload p.1) e (failure-WillReload s h)
  Step-WillReload s t (healthy _) h = h
  Step-WillReload s t (applied _ x version) h = λ e. absurd (cc)
  Step-WillReload s t (changed _ x) h = h

  Reaches-WillReload : (s t : AgentRuntime X) → Reaches s t → WillReload s → WillReload t
  Reaches-WillReload s t (here _) h = h
  Reaches-WillReload s t (next _ m _ run step) h =
      Step-WillReload m t step (Reaches-WillReload s m run h)

  -- In every state that the agent reaches from one where a policy counts as applied only while the rules
  -- are loaded, while the rules are unloaded the applied version is -1, so the agent asks for the whole
  -- policy when it subscribes again.
  pub unloaded_version :
      (s t : AgentRuntime X)
      → Reaches s t
      → (s.offline.rules_unloaded ≡ true → s.applied_version ≡ negsuc 0)
      → t.offline.rules_unloaded ≡ true
      → t.applied_version ≡ negsuc 0
  unloaded_version s t run h e = Reaches-WillReload s t run h e
