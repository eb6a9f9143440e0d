-- ===== src/Xdp/Apply/Lapse.antt =====
-- No write of a policy, not even one that fails, lets go of a rule that the policy still wants.
use xdp_firewall.Prelude.{ℕ, ◌≡◌, subst, true, not, List, All, Result}
use xdp_firewall.Exec.{Exec, pure, lift, ◌>>=◌, ◌>>◌, Leads, bind-Leads}
use xdp_firewall.Net.{Ipnet, Chrono}
use xdp_firewall.Dedup.{contains_key}
use xdp_firewall.Dedup.First.{is_found, unique-All}
use xdp_firewall.Policy.Model.{XdpPrefixRule, CompiledPolicy}
use xdp_firewall.Xdp.Capacity.{XdpMapSizes, validate_map_capacity}
use xdp_firewall.Xdp.Encoding.{RuleKey, rule_key_id, rule_id_eq}
use xdp_firewall.Xdp.Encoding.Keys.{rule_id_eq_iff}
use xdp_firewall.Xdp.Local.{LocalInterfaceCidr}
use xdp_firewall.Xdp.Values.{rule_value}
use xdp_firewall.Xdp.Pending.{
  PendingPolicyKeys, build_pending_policy_keys, rule_entry_id, pending_rules,
  deny_rule_matches_local_interface,
}
use xdp_firewall.Xdp.BpfMap.{for_each}
use xdp_firewall.Xdp.BpfMap.Keeps.{inserts-Leads, remove_stale-Leads}
use xdp_firewall.Xdp.Apply.{
  Kernel, LinuxXdpManager, on_rules, on_geo, on_trusted, on_countries, on_custom_rates, on_bans,
  put_dynamic_defense, put_rule_key, put_geo_key, put_trusted_key, put_country_key,
  put_custom_rate_key, put_temp_ban_key, remove_stale_rule_keys, remove_stale_geo_keys,
  remove_stale_trusted_keys, remove_stale_country_keys, remove_stale_custom_rate_keys,
  remove_stale_temp_ban_keys, put_policy_keys, remove_stale_policy_keys, apply_to_current_maps,
}
use xdp_firewall.Xdp.Apply.Sizes.{required_policy_map_sizes}
use xdp_firewall.Xdp.Apply.Canonical.{rule_entries-canonical}
use xdp_firewall.Xdp.Apply.Mirror.{IsRuleKey, KernelLaws, HasCanonicalKeys}
use xdp_firewall.Xdp.Apply.Refines.{rule_key_injective}

pub pending_rules-canonical :
    {DateTime : Type 0} (net : Ipnet) (locals : List LocalInterfaceCidr)
    (policy : CompiledPolicy DateTime)
    → HasCanonicalKeys policy
    → All (λ (e : RuleKey × XdpPrefixRule). IsRuleKey e.0) (pending_rules net locals policy).1
unfolding pending_rules deny_rule_matches_local_interface
pending_rules-canonical net locals policy keys =
    unique-All rule_id_eq rule_entry_id rule_id_eq_iff
      (λ (e : RuleKey × XdpPrefixRule). IsRuleKey e.0) _
      (rule_entries-canonical policy keys
        (λ r. not (deny_rule_matches_local_interface net locals r)))

module _ (kernel : Kernel) (laws : KernelLaws kernel) (net : Ipnet) (chrono : Chrono) (k : RuleKey)
    (ck : IsRuleKey k) where
  open chrono use {DateTime}

  -- The rule map has an entry under the key.
  abbrev pub HasRule : LinuxXdpManager kernel → Type 0
  HasRule m = is_found (kernel.rules.get m.rule_cidrs k) ≡ true

  abbrev pub HasRuleClean : LinuxXdpManager kernel → Type 0
  HasRuleClean m = laws.rules.Clean m.rule_cidrs × HasRule m

  seq :
      (P Q R : LinuxXdpManager kernel → Type 0)
      → ((s : LinuxXdpManager kernel) → Q s → R s)
      → (call rest : Exec (LinuxXdpManager kernel) (Unit {0})) → Leads P Q call
      → Leads Q R rest
      → Leads P R (call >> rest)
  seq P Q R weaken call rest h k = bind-Leads P Q R weaken call (λ _. rest) h (λ _. k)

  put_policy_keys-Leads :
      (wall_now : DateTime) (now : ℕ) (pending : PendingPolicyKeys chrono)
      → All (λ (e : RuleKey × XdpPrefixRule). IsRuleKey e.0) pending.rules
      → Leads HasRuleClean HasRuleClean (put_policy_keys kernel net chrono wall_now now pending)
  unfolding put_policy_keys
  put_policy_keys-Leads wall_now now pending canonical =
      let S = LinuxXdpManager kernel in
      let f7 : Exec S (Unit {0}) = pure tt in
      let c6 : Exec S (Unit {0}) =
        on_countries kernel (for_each (put_country_key kernel) pending.country_rules) in
      let c5 : Exec S (Unit {0}) =
        on_geo kernel (for_each (put_geo_key kernel) pending.geo_prefixes) in
      let c4 : Exec S (Unit {0}) = on_rules kernel (for_each (put_rule_key kernel) pending.rules) in
      let c3 : Exec S (Unit {0}) =
        on_trusted kernel (for_each (put_trusted_key kernel) pending.trusted_keys) in
      let c2 : Exec S (Unit {0}) =
        on_custom_rates kernel (for_each (put_custom_rate_key kernel) pending.custom_rate_limits) in
      let c1 : Exec S (Unit {0}) =
        on_bans kernel
          (for_each (put_temp_ban_key kernel net chrono wall_now now) pending.temp_bans) in
      let next = seq HasRuleClean HasRuleClean HasRuleClean (λ s q. q) in
      next c1 (c2 >> (c3 >> (c4 >> (c5 >> (c6 >> f7))))) (λ s p. p)
        (next c2 (c3 >> (c4 >> (c5 >> (c6 >> f7)))) (λ s p. p)
          (next c3 (c4 >> (c5 >> (c6 >> f7))) (λ s p. p)
            (next c4 (c5 >> (c6 >> f7))
              (λ s p.
                inserts-Leads kernel.rules IsRuleKey laws.rules rule_key_id rule_id_eq
                  rule_id_eq_iff rule_key_injective k ck (λ (e : RuleKey × XdpPrefixRule). e.0)
                  (λ e. rule_value e.1) pending.rules canonical s.rule_cidrs p)
              (next c5 (c6 >> f7) (λ s p. p) (next c6 f7 (λ s p. p) (λ s p. p))))))

  remove_stale_policy_keys-Leads :
      (pending : PendingPolicyKeys chrono)
      → contains_key rule_id_eq pending.rule_ids (rule_key_id k) ≡ true
      → Leads HasRuleClean HasRule (remove_stale_policy_keys kernel net chrono pending)
  unfolding remove_stale_policy_keys remove_stale_rule_keys
  remove_stale_policy_keys-Leads pending wanted =
      let S = LinuxXdpManager kernel in
      let f7 : Exec S (Unit {0}) = pure tt in
      let c1 : Exec S (Unit {0}) =
        on_rules kernel (remove_stale_rule_keys kernel pending.rule_ids) in
      let c2 : Exec S (Unit {0}) = on_geo kernel (remove_stale_geo_keys kernel pending.geo_ids) in
      let c3 : Exec S (Unit {0}) =
        on_trusted kernel (remove_stale_trusted_keys kernel pending.trusted_ids) in
      let c4 : Exec S (Unit {0}) =
        on_countries kernel (remove_stale_country_keys kernel pending.country_ids) in
      let c5 : Exec S (Unit {0}) =
        on_custom_rates kernel (remove_stale_custom_rate_keys kernel pending.custom_rate_ids) in
      let c6 : Exec S (Unit {0}) =
        on_bans kernel (remove_stale_temp_ban_keys kernel pending.temp_ban_ids) in
      let next = seq HasRule HasRule HasRule (λ s q. q) in
      seq HasRuleClean HasRule HasRule (λ s q. q) c1 (c2 >> (c3 >> (c4 >> (c5 >> (c6 >> f7)))))
        (λ s p.
          remove_stale-Leads kernel.rules IsRuleKey laws.rules rule_key_id rule_id_eq rule_id_eq_iff
            rule_key_injective k ck
            (λ key. contains_key rule_id_eq pending.rule_ids (rule_key_id key)) wanted s.rule_cidrs
            p)
        (next c2 (c3 >> (c4 >> (c5 >> (c6 >> f7)))) (λ s p. p)
          (next c3 (c4 >> (c5 >> (c6 >> f7))) (λ s p. p)
            (next c4 (c5 >> (c6 >> f7)) (λ s p. p)
              (next c5 (c6 >> f7) (λ s p. p) (next c6 f7 (λ s p. p) (λ s p. p))))))

  -- Whatever `apply_to_current_maps` returns, an error included, a canonical key that has an entry in the
  -- rule map and is among the pending ids of the policy still has an entry there. The networks of the
  -- policy and the keys of the map are canonical.
  pub wanted_rules_stay :
      (policy : CompiledPolicy DateTime) (wall_now : DateTime) (m m' : LinuxXdpManager kernel)
      (r : Result (Unit {0}))
      → laws.rules.Clean m.rule_cidrs
      → HasCanonicalKeys policy
      → contains_key rule_id_eq (pending_rules net m.local_interface_cidrs policy).0 (rule_key_id k)
        ≡ true
      → HasRule m
      → apply_to_current_maps kernel net chrono policy wall_now m ≡ (r, m')
      → HasRule m'
  unfolding apply_to_current_maps
  wanted_rules_stay policy wall_now m m' r clean keys wanted there h =
      let S = LinuxXdpManager kernel in
      let pending = build_pending_policy_keys net m.local_interface_cidrs chrono policy wall_now in
      let puts : ℕ → Exec S (Unit {0}) =
        λ now. put_policy_keys kernel net chrono wall_now now pending in
      let removes : Exec S (Unit {0}) = remove_stale_policy_keys kernel net chrono pending in
      let last : Exec S (Unit {0}) = removes >> pure tt in
      let write : ℕ → Exec S (Unit {0}) = λ now. puts now >> last in
      let timed : Exec S (Unit {0}) = lift kernel.monotonic_now_ns >>= write in
      let defend : Exec S (Unit {0}) = put_dynamic_defense kernel policy.dynamic_defense >> timed in
      let checked : XdpMapSizes → Exec S (Unit {0}) =
        λ required. lift (validate_map_capacity required m.map_sizes) >> defend in
      let weaken : (s : S) → HasRuleClean s → HasRule s = λ s q. q.1 in
      let canonical = pending_rules-canonical net m.local_interface_cidrs policy keys in
      let last_leads =
        seq HasRuleClean HasRule HasRule (λ s q. q) removes (pure tt)
          (remove_stale_policy_keys-Leads pending wanted) (λ s q. q) in
      let write_leads : (now : ℕ) → Leads HasRuleClean HasRule (write now) = λ now.
        seq HasRuleClean HasRuleClean HasRule weaken (puts now) last
          (put_policy_keys-Leads wall_now now pending canonical) last_leads in
      let timed_leads =
        bind-Leads HasRuleClean HasRuleClean HasRule weaken (lift kernel.monotonic_now_ns) write
          (λ s p. p) write_leads in
      let defend_leads =
        seq HasRuleClean HasRuleClean HasRule weaken
          (put_dynamic_defense kernel policy.dynamic_defense) timed (λ s p. p) timed_leads in
      let checked_leads : (required : XdpMapSizes) → Leads HasRuleClean HasRule (checked required) =
        λ required.
          seq HasRuleClean HasRuleClean HasRule weaken
            (lift (validate_map_capacity required m.map_sizes)) defend (λ s p. p) defend_leads in
      subst (λ p. HasRule p.1) h
        (bind-Leads HasRuleClean HasRuleClean HasRule weaken
          (lift (required_policy_map_sizes net chrono m.map_sizes policy)) checked (λ s p. p)
          checked_leads m (clean, there))
