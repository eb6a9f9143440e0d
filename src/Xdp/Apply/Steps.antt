-- ===== src/Xdp/Apply/Steps.antt =====
-- A successful write is the success of each of its loops, on its own map.
use xdp_firewall.Prelude.{ℕ, ◌≡◌, ◌∙◌, ok}
use xdp_firewall.Exec.{Exec, pure, lift, ◌>>=◌, ◌>>◌, on-bind-ok, lift-bind-ok, bind-ok}
use xdp_firewall.Net.{Ipnet, Chrono}
use xdp_firewall.Policy.Model.{CompiledPolicy}
use xdp_firewall.Xdp.Capacity.{XdpMapSizes, validate_map_capacity}
use xdp_firewall.Xdp.Pending.{PendingPolicyKeys, build_pending_policy_keys}
use xdp_firewall.Xdp.BpfMap.{for_each}
use xdp_firewall.Xdp.Values.{defense_value}
use xdp_firewall.Xdp.Apply.{
  Kernel, LinuxXdpManager, on_rules, on_geo, on_trusted, on_countries, on_custom_rates, on_bans,
  put_dynamic_defense, put_rule_key, put_geo_key, put_trusted_key, put_country_key,
  put_custom_rate_key, put_temp_ban_key, remove_stale_rule_keys, remove_stale_geo_keys,
  remove_stale_trusted_keys, remove_stale_country_keys, remove_stale_custom_rate_keys,
  remove_stale_temp_ban_keys, put_policy_keys, remove_stale_policy_keys, apply_to_current_maps,
}
use xdp_firewall.Xdp.Apply.Sizes.{required_policy_map_sizes}

module _ (kernel : Kernel) (net : Ipnet) (chrono : Chrono) where
  open chrono use {DateTime}

  -- The six loops of writes take the maps of `m` to those of `m'`.
  pub record Puts (wall_now : DateTime) (now : ℕ) (pending : PendingPolicyKeys chrono)
      (m m' : LinuxXdpManager kernel) : Type 0 where
    pub bans :
        for_each (put_temp_ban_key kernel net chrono wall_now now) pending.temp_bans m.temp_bans
        ≡ (ok tt, m'.temp_bans)
    pub custom_rates :
        for_each (put_custom_rate_key kernel) pending.custom_rate_limits m.custom_rate_limits
        ≡ (ok tt, m'.custom_rate_limits)
    pub trusted :
        for_each (put_trusted_key kernel) pending.trusted_keys m.trusted_cidrs
        ≡ (ok tt, m'.trusted_cidrs)
    pub rules : for_each (put_rule_key kernel) pending.rules m.rule_cidrs ≡ (ok tt, m'.rule_cidrs)
    pub geo : for_each (put_geo_key kernel) pending.geo_prefixes m.geo_cidrs ≡ (ok tt, m'.geo_cidrs)
    pub countries :
        for_each (put_country_key kernel) pending.country_rules m.country_rules
        ≡ (ok tt, m'.country_rules)

  -- The six loops of removals.
  pub record Removes (pending : PendingPolicyKeys chrono) (m m' : LinuxXdpManager kernel)
      : Type 0 where
    pub rules : remove_stale_rule_keys kernel pending.rule_ids m.rule_cidrs ≡ (ok tt, m'.rule_cidrs)
    pub geo : remove_stale_geo_keys kernel pending.geo_ids m.geo_cidrs ≡ (ok tt, m'.geo_cidrs)
    pub trusted :
        remove_stale_trusted_keys kernel pending.trusted_ids m.trusted_cidrs
        ≡ (ok tt, m'.trusted_cidrs)
    pub countries :
        remove_stale_country_keys kernel pending.country_ids m.country_rules
        ≡ (ok tt, m'.country_rules)
    pub custom_rates :
        remove_stale_custom_rate_keys kernel pending.custom_rate_ids m.custom_rate_limits
        ≡ (ok tt, m'.custom_rate_limits)
    pub bans :
        remove_stale_temp_ban_keys kernel pending.temp_ban_ids m.temp_bans ≡ (ok tt, m'.temp_bans)

  put_policy_keys-Puts :
      (wall_now : DateTime) (now : ℕ) (pending : PendingPolicyKeys chrono)
      (m m' : LinuxXdpManager kernel)
      → put_policy_keys kernel net chrono wall_now now pending m ≡ (ok tt, m')
      → Puts wall_now now pending m m'
  unfolding put_policy_keys
  put_policy_keys-Puts wall_now now pending m m' h =
      let S = LinuxXdpManager kernel in
      let f6 : Exec S (Unit {0}) =
        on_countries kernel (for_each (put_country_key kernel) pending.country_rules) >> pure tt in
      let f5 : Exec S (Unit {0}) =
        on_geo kernel (for_each (put_geo_key kernel) pending.geo_prefixes) >> f6 in
      let f4 : Exec S (Unit {0}) =
        on_rules kernel (for_each (put_rule_key kernel) pending.rules) >> f5 in
      let f3 : Exec S (Unit {0}) =
        on_trusted kernel (for_each (put_trusted_key kernel) pending.trusted_keys) >> f4 in
      let f2 : Exec S (Unit {0}) =
        on_custom_rates kernel (for_each (put_custom_rate_key kernel) pending.custom_rate_limits)
        >> f3 in
      let (u1, x1, e1, r1) =
        on-bind-ok {S = S} (λ m. m.temp_bans) (λ x m. record m { temp_bans = x })
          (for_each (put_temp_ban_key kernel net chrono wall_now now) pending.temp_bans) (λ _. f2) m
          h in
      let m1 : S = record m { temp_bans = x1 } in
      let (u2, x2, e2, r2) =
        on-bind-ok {S = S} (λ m. m.custom_rate_limits) (λ x m. record m { custom_rate_limits = x })
          (for_each (put_custom_rate_key kernel) pending.custom_rate_limits) (λ _. f3) m1 r1 in
      let m2 : S = record m1 { custom_rate_limits = x2 } in
      let (u3, x3, e3, r3) =
        on-bind-ok {S = S} (λ m. m.trusted_cidrs) (λ x m. record m { trusted_cidrs = x })
          (for_each (put_trusted_key kernel) pending.trusted_keys) (λ _. f4) m2 r2 in
      let m3 : S = record m2 { trusted_cidrs = x3 } in
      let (u4, x4, e4, r4) =
        on-bind-ok {S = S} (λ m. m.rule_cidrs) (λ x m. record m { rule_cidrs = x })
          (for_each (put_rule_key kernel) pending.rules) (λ _. f5) m3 r3 in
      let m4 : S = record m3 { rule_cidrs = x4 } in
      let (u5, x5, e5, r5) =
        on-bind-ok {S = S} (λ m. m.geo_cidrs) (λ x m. record m { geo_cidrs = x })
          (for_each (put_geo_key kernel) pending.geo_prefixes) (λ _. f6) m4 r4 in
      let m5 : S = record m4 { geo_cidrs = x5 } in
      let (u6, x6, e6, r6) =
        on-bind-ok {S = S} (λ m. m.country_rules) (λ x m. record m { country_rules = x })
          (for_each (put_country_key kernel) pending.country_rules) (λ _. pure tt) m5 r5 in
      record {
        bans = e1 ∙ (λ i. (ok tt, (r6 i).1.temp_bans));
        custom_rates = e2 ∙ (λ i. (ok tt, (r6 i).1.custom_rate_limits));
        trusted = e3 ∙ (λ i. (ok tt, (r6 i).1.trusted_cidrs));
        rules = e4 ∙ (λ i. (ok tt, (r6 i).1.rule_cidrs));
        geo = e5 ∙ (λ i. (ok tt, (r6 i).1.geo_cidrs));
        countries = e6 ∙ (λ i. (ok tt, (r6 i).1.country_rules));
      }

  remove_stale_policy_keys-Removes :
      (pending : PendingPolicyKeys chrono) (m m' : LinuxXdpManager kernel)
      → remove_stale_policy_keys kernel net chrono pending m ≡ (ok tt, m')
      → Removes pending m m'
  unfolding remove_stale_policy_keys
  remove_stale_policy_keys-Removes pending m m' h =
      let S = LinuxXdpManager kernel in
      let f6 : Exec S (Unit {0}) =
        on_bans kernel (remove_stale_temp_ban_keys kernel pending.temp_ban_ids) >> pure tt in
      let f5 : Exec S (Unit {0}) =
        on_custom_rates kernel (remove_stale_custom_rate_keys kernel pending.custom_rate_ids)
        >> f6 in
      let f4 : Exec S (Unit {0}) =
        on_countries kernel (remove_stale_country_keys kernel pending.country_ids) >> f5 in
      let f3 : Exec S (Unit {0}) =
        on_trusted kernel (remove_stale_trusted_keys kernel pending.trusted_ids) >> f4 in
      let f2 : Exec S (Unit {0}) =
        on_geo kernel (remove_stale_geo_keys kernel pending.geo_ids) >> f3 in
      let (u1, x1, e1, r1) =
        on-bind-ok {S = S} (λ m. m.rule_cidrs) (λ x m. record m { rule_cidrs = x })
          (remove_stale_rule_keys kernel pending.rule_ids) (λ _. f2) m h in
      let m1 : S = record m { rule_cidrs = x1 } in
      let (u2, x2, e2, r2) =
        on-bind-ok {S = S} (λ m. m.geo_cidrs) (λ x m. record m { geo_cidrs = x })
          (remove_stale_geo_keys kernel pending.geo_ids) (λ _. f3) m1 r1 in
      let m2 : S = record m1 { geo_cidrs = x2 } in
      let (u3, x3, e3, r3) =
        on-bind-ok {S = S} (λ m. m.trusted_cidrs) (λ x m. record m { trusted_cidrs = x })
          (remove_stale_trusted_keys kernel pending.trusted_ids) (λ _. f4) m2 r2 in
      let m3 : S = record m2 { trusted_cidrs = x3 } in
      let (u4, x4, e4, r4) =
        on-bind-ok {S = S} (λ m. m.country_rules) (λ x m. record m { country_rules = x })
          (remove_stale_country_keys kernel pending.country_ids) (λ _. f5) m3 r3 in
      let m4 : S = record m3 { country_rules = x4 } in
      let (u5, x5, e5, r5) =
        on-bind-ok {S = S} (λ m. m.custom_rate_limits) (λ x m. record m { custom_rate_limits = x })
          (remove_stale_custom_rate_keys kernel pending.custom_rate_ids) (λ _. f6) m4 r4 in
      let m5 : S = record m4 { custom_rate_limits = x5 } in
      let (u6, x6, e6, r6) =
        on-bind-ok {S = S} (λ m. m.temp_bans) (λ x m. record m { temp_bans = x })
          (remove_stale_temp_ban_keys kernel pending.temp_ban_ids) (λ _. pure tt) m5 r5 in
      record {
        rules = e1 ∙ (λ i. (ok tt, (r6 i).1.rule_cidrs));
        geo = e2 ∙ (λ i. (ok tt, (r6 i).1.geo_cidrs));
        trusted = e3 ∙ (λ i. (ok tt, (r6 i).1.trusted_cidrs));
        countries = e4 ∙ (λ i. (ok tt, (r6 i).1.country_rules));
        custom_rates = e5 ∙ (λ i. (ok tt, (r6 i).1.custom_rate_limits));
        bans = e6 ∙ (λ i. (ok tt, (r6 i).1.temp_bans));
      }

-- A successful `apply_to_current_maps`: the policy fits the sizes, and behind the write of the defense
-- value the two groups of loops succeed, on the pending keys of the policy.
module _ (kernel : Kernel) (net : Ipnet) (chrono : Chrono) where
  open chrono use {DateTime}

  pub record Applied (policy : CompiledPolicy DateTime) (wall_now : DateTime)
      (m m' : LinuxXdpManager kernel) : Type 0 where
    pub required : XdpMapSizes
    pub sizes : required_policy_map_sizes net chrono m.map_sizes policy ≡ ok required
    pub fits : validate_map_capacity required m.map_sizes ≡ ok tt
    pub defense : kernel.Defense
    pub defended :
        kernel.set_defense (defense_value policy.dynamic_defense) m.defense_policy
        ≡ (ok tt, defense)
    pub now : ℕ
    pub clock : kernel.monotonic_now_ns ≡ ok now
    pub middle : LinuxXdpManager kernel
    pub puts :
        Puts kernel net chrono wall_now now
          (build_pending_policy_keys net m.local_interface_cidrs chrono policy wall_now)
          (record m { defense_policy = defense })
          middle
    pub removes :
        Removes kernel net chrono
          (build_pending_policy_keys net m.local_interface_cidrs chrono policy wall_now)
          middle
          m'

  pub apply_to_current_maps-Applied :
      (policy : CompiledPolicy DateTime) (wall_now : DateTime) (m m' : LinuxXdpManager kernel)
      → apply_to_current_maps kernel net chrono policy wall_now m ≡ (ok tt, m')
      → Applied policy wall_now m m'
  unfolding apply_to_current_maps
  apply_to_current_maps-Applied policy wall_now m m' h =
      let S = LinuxXdpManager kernel in
      let pending = build_pending_policy_keys net m.local_interface_cidrs chrono policy wall_now in
      let write : ℕ → Exec S (Unit {0}) = λ now.
        put_policy_keys kernel net chrono wall_now now pending
        >> (remove_stale_policy_keys kernel net chrono pending >> pure tt) in
      let defend : Exec S (Unit {0}) =
        put_dynamic_defense kernel policy.dynamic_defense
        >> (lift kernel.monotonic_now_ns >>= write) in
      let (required, sizes, r1) =
        lift-bind-ok {S = S} (required_policy_map_sizes net chrono m.map_sizes policy)
          (λ required. lift (validate_map_capacity required m.map_sizes) >> defend) m h in
      let (u2, fits, r2) =
        lift-bind-ok {S = S} (validate_map_capacity required m.map_sizes) (λ _. defend) m r1 in
      let (u3, defense, defended, r3) =
        on-bind-ok {S = S} (λ m. m.defense_policy) (λ x m. record m { defense_policy = x })
          (kernel.set_defense (defense_value policy.dynamic_defense))
          (λ _. lift kernel.monotonic_now_ns >>= write) m r2 in
      let m1 : S = record m { defense_policy = defense } in
      let (now, clock, r4) = lift-bind-ok {S = S} kernel.monotonic_now_ns write m1 r3 in
      let (u5, middle, puts, r5) =
        bind-ok {S = S} (put_policy_keys kernel net chrono wall_now now pending)
          (λ _. remove_stale_policy_keys kernel net chrono pending >> pure tt) m1 r4 in
      let (u6, last, removes, r6) =
        bind-ok {S = S} (remove_stale_policy_keys kernel net chrono pending) (λ _. pure tt) middle
          r5 in
      record {
        required = required;
        sizes = sizes;
        fits = fits;
        defense = defense;
        defended = defended;
        now = now;
        clock = clock;
        middle = middle;
        puts = put_policy_keys-Puts kernel net chrono wall_now now pending m1 middle puts;
        removes =
            remove_stale_policy_keys-Removes kernel net chrono pending middle m'
              (removes ∙ (λ i. (ok tt, (r6 i).1)));
      }
