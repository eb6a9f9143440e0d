-- ===== src/Xdp/Apply.antt =====
-- src/data_plane/xdp/linux.rs, linux/apply.rs, linux/apply/write.rs and linux/apply/cleanup.rs: the
-- manager writes a compiled policy to the maps. The log messages are left out.
pub mod Sizes
pub mod Steps
pub mod Mirror
pub mod Canonical
pub mod Refines
pub mod Lockout
pub mod Lapse
pub mod Resizing
use xdp_firewall.Prelude.{ℕ, Bool, true, false, Option, none, some, List, [], ◌∷◌, Result, ok, ◌==◌}
use xdp_firewall.Exec.{Exec, continue, pure, lift, on, ◌>>=◌, ◌>>◌}
use xdp_firewall.Net.{Ipnet, Chrono}
use xdp_firewall.Dedup.{contains_key}
use xdp_firewall.Policy.Model.{
  XdpPrefixRule, XdpGeoPrefix, XdpCountryRule, XdpTempBan, XdpDynamicDefense, XdpDynamicRateLimit,
  CompiledPolicy,
}
use xdp_firewall.Xdp.Capacity.{XdpMapSizes, validate_map_capacity, resized_map_sizes}
use xdp_firewall.Xdp.Encoding.{
  RuleKey, GeoKey, CustomRateKey, RuleId, GeoId, CustomRateId, rule_key_id, geo_key_id,
  trusted_key_id, custom_rate_key_id, temp_ban_key_id, rule_id_eq, geo_id_eq, custom_rate_id_eq,
}
use xdp_firewall.Xdp.Values.{
  DefenseValue, RuleValue, GeoValue, TrustedValue, CountryValue, CustomRateValue, TempBanValue,
  defense_value, rule_value, custom_rate_value, temp_ban_value, geo_value, country_value,
}
use xdp_firewall.Xdp.Local.{LocalInterfaceCidr}
use xdp_firewall.Xdp.Pending.{PendingPolicyKeys, build_pending_policy_keys}
use xdp_firewall.Xdp.BpfMap.{BpfMap, for_each, remove_stale}
use xdp_firewall.Xdp.Apply.Sizes.{required_policy_map_sizes}

-- The maps of aya and the calls of the system that the manager makes.
pub record Kernel : Type 1 where
  pub rules : BpfMap RuleKey RuleValue
  pub geo : BpfMap GeoKey GeoValue
  pub trusted : BpfMap GeoKey TrustedValue
  pub countries : BpfMap ℕ CountryValue
  pub custom_rates : BpfMap CustomRateKey CustomRateValue
  pub bans : BpfMap RuleKey TempBanValue
  -- the array of one defense value
  pub Defense : Type 0
  pub set_defense : DefenseValue → Exec Defense (Unit {0})
  pub monotonic_now_ns : Result ℕ

-- The fields that `apply` reads and writes; the interface, the program and its attachment are left out.
pub record LinuxXdpManager (kernel : Kernel) : Type 0 where
  pub rule_cidrs : kernel.rules.Map
  pub geo_cidrs : kernel.geo.Map
  pub trusted_cidrs : kernel.trusted.Map
  pub country_rules : kernel.countries.Map
  pub defense_policy : kernel.Defense
  pub custom_rate_limits : kernel.custom_rates.Map
  pub temp_bans : kernel.bans.Map
  pub map_sizes : XdpMapSizes
  pub local_interface_cidrs : List LocalInterfaceCidr
  pub auto_resize_maps : Bool

module _ (kernel : Kernel) where
  -- a call on one map of the manager
  abbrev pub on_rules : Exec kernel.rules.Map (Unit {0}) → Exec (LinuxXdpManager kernel) (Unit {0})
  on_rules = on (λ m. m.rule_cidrs) (λ x m. record m { rule_cidrs = x })

  abbrev pub on_geo : Exec kernel.geo.Map (Unit {0}) → Exec (LinuxXdpManager kernel) (Unit {0})
  on_geo = on (λ m. m.geo_cidrs) (λ x m. record m { geo_cidrs = x })

  abbrev pub on_trusted :
      Exec kernel.trusted.Map (Unit {0}) → Exec (LinuxXdpManager kernel) (Unit {0})
  on_trusted = on (λ m. m.trusted_cidrs) (λ x m. record m { trusted_cidrs = x })

  abbrev pub on_countries :
      Exec kernel.countries.Map (Unit {0}) → Exec (LinuxXdpManager kernel) (Unit {0})
  on_countries = on (λ m. m.country_rules) (λ x m. record m { country_rules = x })

  abbrev pub on_custom_rates :
      Exec kernel.custom_rates.Map (Unit {0}) → Exec (LinuxXdpManager kernel) (Unit {0})
  on_custom_rates = on (λ m. m.custom_rate_limits) (λ x m. record m { custom_rate_limits = x })

  abbrev pub on_bans : Exec kernel.bans.Map (Unit {0}) → Exec (LinuxXdpManager kernel) (Unit {0})
  on_bans = on (λ m. m.temp_bans) (λ x m. record m { temp_bans = x })

  abbrev pub put_dynamic_defense : XdpDynamicDefense → Exec (LinuxXdpManager kernel) (Unit {0})
  put_dynamic_defense policy =
      on (λ m. m.defense_policy) (λ x m. record m { defense_policy = x })
        (kernel.set_defense (defense_value policy))

  abbrev pub put_rule_key : RuleKey × XdpPrefixRule → Exec kernel.rules.Map (Unit {0})
  put_rule_key e = kernel.rules.insert e.0 (rule_value e.1)

  abbrev pub put_geo_key : GeoKey × XdpGeoPrefix → Exec kernel.geo.Map (Unit {0})
  put_geo_key e = kernel.geo.insert e.0 (geo_value e.1)

  abbrev pub put_trusted_key : GeoKey → Exec kernel.trusted.Map (Unit {0})
  put_trusted_key key = kernel.trusted.insert key (record { value = 1 })

  abbrev pub put_country_key : ℕ × XdpCountryRule → Exec kernel.countries.Map (Unit {0})
  put_country_key e = kernel.countries.insert e.0 (country_value e.1)

  abbrev pub put_custom_rate_key :
      CustomRateKey × XdpDynamicRateLimit → Exec kernel.custom_rates.Map (Unit {0})
  put_custom_rate_key e = kernel.custom_rates.insert e.0 (custom_rate_value e.1)

  abbrev pub put_ban_value : RuleKey → Option TempBanValue → Exec kernel.bans.Map (Unit {0})
  put_ban_value key none = pure tt
  put_ban_value key (some value) = kernel.bans.insert key value

  pub remove_stale_rule_keys : List RuleId → Exec kernel.rules.Map (Unit {0})
  unfolding remove_stale
  remove_stale_rule_keys ids =
      remove_stale kernel.rules (λ key. contains_key rule_id_eq ids (rule_key_id key))

  pub remove_stale_geo_keys : List GeoId → Exec kernel.geo.Map (Unit {0})
  unfolding remove_stale
  remove_stale_geo_keys ids =
      remove_stale kernel.geo (λ key. contains_key geo_id_eq ids (geo_key_id key))

  pub remove_stale_trusted_keys : List GeoId → Exec kernel.trusted.Map (Unit {0})
  unfolding remove_stale
  remove_stale_trusted_keys ids =
      remove_stale kernel.trusted (λ key. contains_key geo_id_eq ids (trusted_key_id key))

  pub remove_stale_country_keys : List ℕ → Exec kernel.countries.Map (Unit {0})
  unfolding remove_stale
  remove_stale_country_keys ids = remove_stale kernel.countries (λ key. contains_key ◌==◌ ids key)

  pub remove_stale_custom_rate_keys : List CustomRateId → Exec kernel.custom_rates.Map (Unit {0})
  unfolding remove_stale
  remove_stale_custom_rate_keys ids =
      remove_stale kernel.custom_rates
        (λ key. contains_key custom_rate_id_eq ids (custom_rate_key_id key))

  pub remove_stale_temp_ban_keys : List RuleId → Exec kernel.bans.Map (Unit {0})
  unfolding remove_stale
  remove_stale_temp_ban_keys ids =
      remove_stale kernel.bans (λ key. contains_key rule_id_eq ids (temp_ban_key_id key))

  module _ (net : Ipnet) (chrono : Chrono) where
    open chrono use {DateTime}

    abbrev pub put_temp_ban_key :
        DateTime → ℕ → RuleKey × XdpTempBan DateTime → Exec kernel.bans.Map (Unit {0})
    put_temp_ban_key wall_now monotonic_now_ns e =
        lift (temp_ban_value chrono e.1 wall_now monotonic_now_ns) >>= λ value.
        put_ban_value e.0 value

    unfoldable pub remove_stale_policy_keys :
        PendingPolicyKeys chrono → Exec (LinuxXdpManager kernel) (Unit {0})
    unfolding remove_stale_rule_keys remove_stale_geo_keys remove_stale_trusted_keys
        remove_stale_country_keys remove_stale_custom_rate_keys remove_stale_temp_ban_keys
    remove_stale_policy_keys pending =
        on_rules (remove_stale_rule_keys pending.rule_ids)
        >> (on_geo (remove_stale_geo_keys pending.geo_ids)
            >> (on_trusted (remove_stale_trusted_keys pending.trusted_ids)
                >> (on_countries (remove_stale_country_keys pending.country_ids)
                    >> (on_custom_rates (remove_stale_custom_rate_keys pending.custom_rate_ids)
                        >> (on_bans (remove_stale_temp_ban_keys pending.temp_ban_ids)
                            >> pure tt)))))

    -- the loops over the pending entries
    unfoldable pub put_policy_keys :
        DateTime → ℕ → PendingPolicyKeys chrono → Exec (LinuxXdpManager kernel) (Unit {0})
    unfolding for_each
    put_policy_keys wall_now monotonic_now_ns pending =
        on_bans (for_each (put_temp_ban_key wall_now monotonic_now_ns) pending.temp_bans)
        >> (on_custom_rates (for_each put_custom_rate_key pending.custom_rate_limits)
            >> (on_trusted (for_each put_trusted_key pending.trusted_keys)
                >> (on_rules (for_each put_rule_key pending.rules)
                    >> (on_geo (for_each put_geo_key pending.geo_prefixes)
                        >> (on_countries (for_each put_country_key pending.country_rules)
                            >> pure tt)))))

    unfoldable pub apply_to_current_maps :
        CompiledPolicy DateTime → DateTime → Exec (LinuxXdpManager kernel) (Unit {0})
    unfolding required_policy_map_sizes put_policy_keys remove_stale_policy_keys
    apply_to_current_maps policy wall_now manager =
        (lift (required_policy_map_sizes net chrono manager.map_sizes policy) >>= λ required.
        lift (validate_map_capacity required manager.map_sizes)
        >> (put_dynamic_defense policy.dynamic_defense
            >> (lift kernel.monotonic_now_ns >>= λ monotonic_now_ns.
                let pending =
                  build_pending_policy_keys net manager.local_interface_cidrs chrono policy
                    wall_now in
                put_policy_keys wall_now monotonic_now_ns pending
                >> (remove_stale_policy_keys pending >> pure tt))))
          manager

    abbrev pub unless_auto :
        Bool → Exec (LinuxXdpManager kernel) (Unit {0}) → Exec (LinuxXdpManager kernel) (Unit {0})
    unless_auto true check = pure tt
    unless_auto false check = check

    -- `if let Some(resized) = …`
    abbrev pub resize_if_needed :
        (XdpMapSizes → Exec (LinuxXdpManager kernel) (Unit {0}))
        → LinuxXdpManager kernel
        → XdpMapSizes
        → Option XdpMapSizes
        → Exec (LinuxXdpManager kernel) (Unit {0})
    resize_if_needed resize_maps manager required none = pure tt
    resize_if_needed resize_maps manager required (some resized) =
        unless_auto manager.auto_resize_maps
          (lift (validate_map_capacity required manager.map_sizes))
        >> resize_maps resized

    -- `Self::attach` with the new sizes behind the detach, as an argument
    unfoldable pub apply :
        (XdpMapSizes → Exec (LinuxXdpManager kernel) (Unit {0}))
        → CompiledPolicy DateTime
        → DateTime
        → Exec (LinuxXdpManager kernel) (Unit {0})
    unfolding apply_to_current_maps
    apply resize_maps policy wall_now manager =
        (lift (required_policy_map_sizes net chrono manager.map_sizes policy) >>= λ required.
        lift (resized_map_sizes manager.map_sizes required) >>= λ resized.
        resize_if_needed resize_maps manager required resized
        >> apply_to_current_maps policy wall_now)
          manager
