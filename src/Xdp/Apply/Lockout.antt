-- ===== src/Xdp/Apply/Lockout.antt =====
-- A written policy never blocks the agent's own addresses by a rule.
use xdp_firewall.Prelude.{
  ◌≡◌, refl, sym, ap, ◌∙◌, Option, none, some, arith, All-imp, Any, ◌++◌, ok,
}
use xdp_firewall.Net.{IsNetwork, Ipnet, IpnetLaws, Chrono}
use xdp_firewall.Dedup.{find_key}
use xdp_firewall.Dedup.First.{find_key-All}
use xdp_firewall.Policy.Model.{RuleAction, allow, deny, XdpPrefixRule, CompiledPolicy}
use xdp_firewall.Xdp.Encoding.{RuleKey, rule_key, rule_key_id, rule_id_eq, action_code}
use xdp_firewall.Xdp.Encoding.Keys.{rule_id_eq_iff}
use xdp_firewall.Xdp.Local.Safety.{Avoids}
use xdp_firewall.Xdp.Values.{RuleValue, rule_value}
use xdp_firewall.Xdp.Pending.{rule_entry_id, pending_rules}
use xdp_firewall.Xdp.Pending.Rules.{pending_rules_safe, pending_rules-key, pending_rules-Any}
use xdp_firewall.Xdp.BpfMap.Sync.{value_of}
use xdp_firewall.Xdp.Apply.{Kernel, LinuxXdpManager, apply_to_current_maps}
use xdp_firewall.Xdp.Apply.Mirror.{IsRuleKey, KernelLaws, IsClean, HasCanonicalKeys}
use xdp_firewall.Xdp.Apply.Refines.{rule_key_injective, apply_to_current_maps-Mirrors}

value_of-some :
    {E V : Type 0} (f : E → V) (o : Option E) (v : V)
    → value_of f o ≡ some v
    → (e : E) × (o ≡ some e) × (f e ≡ v)
value_of-some f none v h = absurd (cc)
value_of-some f (some e) v h = (e, refl, cc)

deny_of_code : (action : RuleAction) → action_code action ≡ 2 → action ≡ deny
unfolding action_code
deny_of_code allow h = absurd (omega arith)
deny_of_code deny h = refl

denies :
    (rule : XdpPrefixRule) (v : RuleValue) → rule_value rule ≡ v → v.action ≡ 2 → rule.action ≡ deny
unfolding rule_value
denies rule v h d = deny_of_code rule.action (ap (λ (v : RuleValue). v.action) h ∙ d)

module _ (kernel : Kernel) (laws : KernelLaws kernel) (net : Ipnet) (nets : IpnetLaws net)
    (chrono : Chrono) where
  open chrono use {DateTime}

  -- When `apply_to_current_maps` succeeds, for a policy of canonical networks and from maps with
  -- canonical keys, a canonical key whose value in the rule map denies, which is the code 2, is that of a
  -- deny rule of the policy whose network holds none of the agent's own addresses.
  pub applied_rules_avoid_locals :
      (policy : CompiledPolicy DateTime) (wall_now : DateTime) (m m' : LinuxXdpManager kernel)
      → IsClean kernel laws m
      → HasCanonicalKeys policy
      → apply_to_current_maps kernel net chrono policy wall_now m ≡ (ok tt, m')
      → (k : RuleKey) (v : RuleValue) → IsRuleKey k
      → kernel.rules.get m'.rule_cidrs k ≡ some v
      → v.action ≡ 2
      → (rule : XdpPrefixRule) × Any (λ r. r ≡ rule) (policy.threat_prefixes ++ policy.rules)
        × (rule.action ≡ deny)
        × (rule_key rule.addr rule.prefix rule.protocol rule.port ≡ k)
        × Avoids rule.addr rule.prefix m.local_interface_cidrs
  applied_rules_avoid_locals policy wall_now m m' clean keys run k v ck got d =
      let mirror =
        apply_to_current_maps-Mirrors kernel laws net chrono policy wall_now m m' clean keys run in
      let locals = m.local_interface_cidrs in
      let pending = (pending_rules net locals policy).1 in
      let (e, found, value) =
        value_of-some (λ (e : RuleKey × XdpPrefixRule). rule_value e.1)
          (find_key rule_id_eq rule_entry_id (rule_key_id k) pending) v
          (sym (mirror.rules k ck) ∙ got) in
      let safe =
        find_key-All rule_id_eq rule_entry_id rule_id_eq_iff
          (λ e. e.1.action ≡ deny → Avoids e.1.addr e.1.prefix locals) (rule_key_id k) pending e
          (pending_rules_safe net locals policy nets (
            All-imp _ _ _ (λ (r : XdpPrefixRule) (n : IsNetwork r.addr r.prefix). n.fits)
              keys.rules))
          found in
      let shape =
        find_key-All rule_id_eq rule_entry_id rule_id_eq_iff
          (λ e. e.0 ≡ rule_key e.1.addr e.1.prefix e.1.protocol e.1.port) (rule_key_id k) pending e
          (pending_rules-key net locals policy) found in
      let own =
        find_key-All rule_id_eq rule_entry_id rule_id_eq_iff
          (λ e. Any (λ r. r ≡ e.1) (policy.threat_prefixes ++ policy.rules)) (rule_key_id k) pending
          e (pending_rules-Any net locals policy) found in
      let denied = denies e.1 v value d in
      (e.1, own.0, denied, sym shape.0 ∙ rule_key_injective e.0 k shape.1, safe.0 denied)
