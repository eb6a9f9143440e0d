-- ===== src/Xdp/Apply/Refines.antt =====
-- A successful write makes the maps mirror the policy.
use xdp_firewall.Prelude.{
  ℕ, ◌≡◌, ◌≢◌, refl, sym, ap, subst, ◌↔◌, true, not, Option, none, some, map, ◌==◌, All-map,
  All-map_imp, Result, ok, err, ==→eq, ==_refl, ◌||◌,
}
use xdp_firewall.Exec.{lift, ◌>>=◌}
use xdp_firewall.Net.{IsNetwork, Ipnet, Chrono}
use xdp_firewall.Dedup.{find_key}
use xdp_firewall.Policy.Model.{
  XdpPrefixRule, XdpGeoPrefix, XdpCountryRule, XdpTempBan, XdpDynamicRateLimit, CompiledPolicy,
}
use xdp_firewall.Xdp.Encoding.{
  RuleKey, GeoKey, CustomRateKey, rule_key_id, temp_ban_key_id, geo_key_id, trusted_key_id,
  custom_rate_key_id, rule_id_eq, geo_id_eq, custom_rate_id_eq,
}
use xdp_firewall.Xdp.Encoding.Keys.{rule_id_eq_iff, geo_id_eq_iff, custom_rate_id_eq_iff}
use xdp_firewall.Xdp.Local.{compact_trusted_prefixes, compact_temp_bans}
use xdp_firewall.Xdp.Values.{
  TempBanValue, rule_value, geo_value, country_value, custom_rate_value, temp_ban_value,
}
use xdp_firewall.Xdp.Pending.{
  ban_entry_id, ordered_policy_rules, rule_entry, ban_entry, geo_entry, country_entry, limit_entry,
  trusted_entry, safe_rules, safe_bans, pending_rules, pending_temp_bans, pending_geo_prefixes,
  pending_country_rules, pending_custom_rate_limits, pending_trusted_keys,
  deny_rule_matches_local_interface, temp_ban_matches_local_interface,
}
use xdp_firewall.Xdp.BpfMap.Sync.{held, Writes}
use xdp_firewall.Xdp.BpfMap.Outcome.{get-sync, get-sync_insert}
use xdp_firewall.Xdp.Apply.{
  Kernel, LinuxXdpManager, put_ban_value, put_temp_ban_key, remove_stale_rule_keys,
  remove_stale_geo_keys, remove_stale_trusted_keys, remove_stale_country_keys,
  remove_stale_custom_rate_keys, remove_stale_temp_ban_keys, apply_to_current_maps,
}
use xdp_firewall.Xdp.Apply.Steps.{Applied, apply_to_current_maps-Applied}
use xdp_firewall.Xdp.Apply.Canonical.{
  rule_entries-canonical, trusted_entries-canonical, ban_entries-canonical,
}
use xdp_firewall.Xdp.Apply.Mirror.{
  IsRuleKey, IsGeoKey, IsAnyKey, KernelLaws, IsClean, HasCanonicalKeys, ban_after, Mirrors,
}

pub rule_key_injective : (a b : RuleKey) → rule_key_id a ≡ rule_key_id b → a ≡ b
rule_key_injective a b h = λ i. record {
  prefix_len = (h i).0;
  family = (h i).1;
  proto = (h i).2;
  dport = (h i).3;
  addr = (h i).4;
}

pub geo_key_injective : (a b : GeoKey) → geo_key_id a ≡ geo_key_id b → a ≡ b
geo_key_injective a b h = λ i. record { prefix_len = (h i).0; family = (h i).1; addr = (h i).2 }

pub custom_rate_key_injective :
    (a b : CustomRateKey) → custom_rate_key_id a ≡ custom_rate_key_id b → a ≡ b
custom_rate_key_injective a b h = λ i. record { proto = (h i).0; dport = (h i).1 }

==_iff : (a b : ℕ) → ((a == b) ≡ true) ↔ (a ≡ b)
==_iff a b = (==→eq a b, (λ e. subst (λ c. (a == c) ≡ true) e (==_refl a)))

module _ (kernel : Kernel) (laws : KernelLaws kernel) (net : Ipnet) (chrono : Chrono) where
  open chrono use {DateTime, lt}

  ban_here :
      (key : RuleKey) (r : Result (Option TempBanValue)) (m m' : kernel.bans.Map)
      → IsRuleKey key
      → (lift r >>= λ value. put_ban_value kernel key value) m ≡ (ok tt, m')
      → kernel.bans.get m' key ≡ ban_after r (kernel.bans.get m key)
  ban_here key (ok none) m m' c h = ap (λ p. kernel.bans.get p.1 key) (sym h)
  ban_here key (ok (some value)) m m' c h = laws.bans.insert_get key value m m' c h
  ban_here key (err e) m m' c h = absurd (not_ok (ap (λ p. p.0) h))
    where
      not_ok : {A : Type 0} {a : A} → err e ≡ ok a → ⊥
      not_ok h = cc

  ban_elsewhere :
      (key k : RuleKey) (r : Result (Option TempBanValue)) (m m' : kernel.bans.Map)
      → IsRuleKey key
      → IsRuleKey k
      → key ≢ k
      → (lift r >>= λ value. put_ban_value kernel key value) m ≡ (ok tt, m')
      → kernel.bans.get m' k ≡ kernel.bans.get m k
  ban_elsewhere key k (ok none) m m' c ck n h = ap (λ p. kernel.bans.get p.1 k) (sym h)
  ban_elsewhere key k (ok (some value)) m m' c ck n h =
      laws.bans.insert_other key k value m m' c ck n h
  ban_elsewhere key k (err e) m m' c ck n h = ap (λ p. kernel.bans.get p.1 k) (sym h)

  ban_clean :
      (key : RuleKey) (r : Result (Option TempBanValue)) (m m' : kernel.bans.Map)
      → IsRuleKey key
      → laws.bans.Clean m
      → (lift r >>= λ value. put_ban_value kernel key value) m ≡ (ok tt, m')
      → laws.bans.Clean m'
  ban_clean key (ok none) m m' c cl h = subst (λ p. laws.bans.Clean p.1) h cl
  ban_clean key (ok (some value)) m m' c cl h = laws.bans.insert_clean key value m m' c cl h
  ban_clean key (err e) m m' c cl h = subst (λ p. laws.bans.Clean p.1) h cl

  ban_writes :
      (wall_now : DateTime) (now : ℕ)
      → Writes kernel.bans IsRuleKey laws.bans temp_ban_key_id rule_id_eq rule_id_eq_iff
          rule_key_injective
          (λ (e : RuleKey × XdpTempBan DateTime). e.0)
          (put_temp_ban_key kernel net chrono wall_now now)
          (λ e. ban_after (temp_ban_value chrono e.1 wall_now now))
  ban_writes wall_now now = record {
    here = λ e m m' c h. ban_here e.0 (temp_ban_value chrono e.1 wall_now now) m m' c h;
    elsewhere = λ e k m m' c ck n h.
        ban_elsewhere e.0 k (temp_ban_value chrono e.1 wall_now now) m m' c ck n h;
    clean = λ e m m' c cl h. ban_clean e.0 (temp_ban_value chrono e.1 wall_now now) m m' c cl h;
  }

  module _ (policy : CompiledPolicy DateTime) (wall_now : DateTime) (m m' : LinuxXdpManager kernel)
      (clean : IsClean kernel laws m) (keys : HasCanonicalKeys policy)
      (run : Applied kernel net chrono policy wall_now m m') where
    bans_mirrored :
        (k : RuleKey)
        → IsRuleKey k
        → kernel.bans.get m'.temp_bans k
          ≡ held
              (λ (e : RuleKey × XdpTempBan DateTime).
                ban_after (temp_ban_value chrono e.1 wall_now run.now))
              (find_key rule_id_eq
                (ban_entry_id net m.local_interface_cidrs chrono)
                (temp_ban_key_id k)
                (pending_temp_bans net m.local_interface_cidrs chrono wall_now policy.temp_bans).1)
              (kernel.bans.get m.temp_bans k)
    unfolding pending_temp_bans remove_stale_temp_ban_keys compact_temp_bans
        temp_ban_matches_local_interface
    bans_mirrored k ck =
        get-sync kernel.bans IsRuleKey laws.bans temp_ban_key_id rule_id_eq rule_id_eq_iff
          rule_key_injective (λ (e : RuleKey × XdpTempBan DateTime). e.0)
          (put_temp_ban_key kernel net chrono wall_now run.now)
          (λ e. ban_after (temp_ban_value chrono e.1 wall_now run.now))
          (ban_writes wall_now run.now)
          (map (ban_entry net m.local_interface_cidrs chrono) (
            safe_bans net m.local_interface_cidrs chrono wall_now
              (compact_temp_bans net chrono policy.temp_bans)))
          m.temp_bans run.middle.temp_bans m'.temp_bans k clean.bans
          (ban_entries-canonical net m.local_interface_cidrs chrono policy keys (λ ban. not (
            not (lt wall_now ban.expires_at)
            || temp_ban_matches_local_interface net m.local_interface_cidrs chrono ban)))
          ck run.puts.bans run.removes.bans

    mirrored : Mirrors kernel laws net chrono policy wall_now m m'
    unfolding pending_rules remove_stale_rule_keys pending_geo_prefixes remove_stale_geo_keys
        pending_trusted_keys remove_stale_trusted_keys pending_country_rules
        remove_stale_country_keys pending_custom_rate_limits remove_stale_custom_rate_keys
        compact_trusted_prefixes deny_rule_matches_local_interface
    mirrored = record {
      rules = λ k ck.
          get-sync_insert kernel.rules IsRuleKey laws.rules rule_key_id rule_id_eq rule_id_eq_iff
            rule_key_injective (λ (e : RuleKey × XdpPrefixRule). e.0) (λ e. rule_value e.1)
            (map rule_entry (safe_rules net m.local_interface_cidrs (ordered_policy_rules policy)))
            m.rule_cidrs run.middle.rule_cidrs m'.rule_cidrs k clean.rules
            (rule_entries-canonical policy keys
              (λ r. not (deny_rule_matches_local_interface net m.local_interface_cidrs r)))
            ck run.puts.rules run.removes.rules;
      geo = λ k ck.
          get-sync_insert kernel.geo IsGeoKey laws.geo geo_key_id geo_id_eq geo_id_eq_iff
            geo_key_injective (λ (e : GeoKey × XdpGeoPrefix). e.0) (λ e. geo_value e.1)
            (map geo_entry policy.geo_prefixes) m.geo_cidrs run.middle.geo_cidrs m'.geo_cidrs k
            clean.geo
            (All-map_imp (λ (p : XdpGeoPrefix). IsNetwork p.addr p.prefix)
              (λ (e : GeoKey × XdpGeoPrefix). IsGeoKey e.0) geo_entry policy.geo_prefixes
              (λ p h. (p.addr, p.prefix, h, refl)) keys.geo)
            ck run.puts.geo run.removes.geo;
      trusted = λ k ck.
          get-sync_insert kernel.trusted IsGeoKey laws.trusted trusted_key_id geo_id_eq
            geo_id_eq_iff geo_key_injective (λ (e : GeoKey). e) (λ e. record { value = 1 })
            (map trusted_entry (compact_trusted_prefixes net policy.trusted_prefixes))
            m.trusted_cidrs run.middle.trusted_cidrs m'.trusted_cidrs k clean.trusted
            (trusted_entries-canonical net policy keys) ck run.puts.trusted run.removes.trusted;
      countries = λ k.
          get-sync_insert kernel.countries IsAnyKey laws.countries (λ c. c) ◌==◌ ==_iff (λ a b h. h)
            (λ (e : ℕ × XdpCountryRule). e.0) (λ e. country_value e.1)
            (map country_entry policy.country_rules) m.country_rules run.middle.country_rules
            m'.country_rules k clean.countries
            (All-map (λ (e : ℕ × XdpCountryRule). IsAnyKey e.0) country_entry policy.country_rules
              (λ c. tt))
            tt run.puts.countries run.removes.countries;
      custom_rates = λ k.
          get-sync_insert kernel.custom_rates IsAnyKey laws.custom_rates custom_rate_key_id
            custom_rate_id_eq custom_rate_id_eq_iff custom_rate_key_injective
            (λ (e : CustomRateKey × XdpDynamicRateLimit). e.0) (λ e. custom_rate_value e.1)
            (map limit_entry policy.dynamic_rate_limits) m.custom_rate_limits
            run.middle.custom_rate_limits m'.custom_rate_limits k clean.custom_rates
            (All-map (λ (e : CustomRateKey × XdpDynamicRateLimit). IsAnyKey e.0) limit_entry
              policy.dynamic_rate_limits (λ c. tt))
            tt run.puts.custom_rates run.removes.custom_rates;
      now = run.now;
      clock = run.clock;
      bans = bans_mirrored;
    }

  -- When `apply_to_current_maps` succeeds, for a policy of canonical networks and from maps with
  -- canonical keys, each map holds under each canonical key the value of the policy's pending entry with
  -- that key, and nothing where there is none. A ban without a value, which is one whose rest i64 does not
  -- hold, leaves what its key held before.
  pub apply_to_current_maps-Mirrors :
      (policy : CompiledPolicy DateTime) (wall_now : DateTime) (m m' : LinuxXdpManager kernel)
      → IsClean kernel laws m
      → HasCanonicalKeys policy
      → apply_to_current_maps kernel net chrono policy wall_now m ≡ (ok tt, m')
      → Mirrors kernel laws net chrono policy wall_now m m'
  apply_to_current_maps-Mirrors policy wall_now m m' clean keys h =
      mirrored policy wall_now m m' clean keys
        (apply_to_current_maps-Applied kernel net chrono policy wall_now m m' h)
