-- ===== src/Policy/Compile/Networks.antt =====
-- What a compiled policy holds: networks with their host bits cleared, bans that are running, and
-- the values of the snapshot.
use xdp_firewall.Prelude.{
  ℕ, suc, ◌≡◌, List, [], ◌∷◌, ok, check_two-eq-ok, >>=-eq-ok, ok-injective, collect_map-All, All,
  Any, All-map, subst, Bool-cases, inl, inr,
}
use xdp_firewall.Net.Prefix.{SamePrefix-symm, SamePrefix-trans}
use xdp_firewall.Net.{IpAddr, SamePrefix, Ipnet, IpnetLaws, IsNetwork, Chrono}
use xdp_firewall.Policy.Model.{
  GeoIpPrefixPolicy, PolicySnapshot, XdpTrustedPrefix, XdpPrefixRule, XdpGeoPrefix, XdpCountryRule,
  XdpTempBan, CompiledPolicy, TempBanPolicy, TrustedCidrPolicy,
}
use xdp_firewall.Policy.Country.{encode_country}
use xdp_firewall.Policy.Compile.{
  compile_geo_prefix, compile_geo_prefixes, compile_trusted_prefix, compile_trusted_prefixes,
  compile_firewall_rule, compile_firewall_rules, active_temp_bans, compile_active_temp_bans,
  validate_policy, compile_country_rules, compile_dynamic_defense, compile_dynamic_rate_limits,
  compile_threat_prefixes, compile_policy,
}

-- Every entry but those of threat intelligence is a network.
pub record HasNetworks {DateTime : Type 0} (policy : CompiledPolicy DateTime) : Type 0 where
  pub trusted : All (λ (p : XdpTrustedPrefix). IsNetwork p.addr p.prefix) policy.trusted_prefixes
  pub rules : All (λ (r : XdpPrefixRule). IsNetwork r.addr r.prefix) policy.rules
  pub temp_bans : All (λ (b : XdpTempBan DateTime). IsNetwork b.addr b.prefix) policy.temp_bans
  pub geo : All (λ (p : XdpGeoPrefix). IsNetwork p.addr p.prefix) policy.geo_prefixes

module _ (net : Ipnet) (chrono : Chrono) where
  open net use {IpNet}
  open chrono use {DateTime, lt}

  abbrev pub compiled :
      (ℕ → DateTime)
      → PolicySnapshot IpNet DateTime
      → List XdpCountryRule
      → List XdpGeoPrefix
      → CompiledPolicy DateTime
  compiled now snapshot country_rules geo_prefixes = record {
    version = snapshot.version;
    trusted_prefixes = compile_trusted_prefixes net snapshot.trusted_cidrs;
    rules = compile_firewall_rules net snapshot.rules;
    country_rules = country_rules;
    temp_bans = compile_active_temp_bans net chrono now snapshot.temp_bans;
    dynamic_defense = compile_dynamic_defense snapshot.dynamic_defense;
    dynamic_rate_limits = compile_dynamic_rate_limits snapshot.dynamic_rate_limits;
    geo_prefixes = geo_prefixes;
    threat_prefixes = compile_threat_prefixes snapshot.threat_prefixes;
  }

  -- Inversion of a successful compilation.
  pub compile_policy-parts :
      (now : ℕ → DateTime) (snapshot : PolicySnapshot IpNet DateTime)
      {policy : CompiledPolicy DateTime}
      → compile_policy net chrono now snapshot ≡ ok policy
      → (country_rules : List XdpCountryRule) × (geo_prefixes : List XdpGeoPrefix)
        × (validate_policy net chrono snapshot ≡ ok tt)
        × (compile_country_rules snapshot.geo_countries ≡ ok country_rules)
        × (compile_geo_prefixes net snapshot.geo_prefixes ≡ ok geo_prefixes)
        × (compiled now snapshot country_rules geo_prefixes ≡ policy)
  unfolding compile_policy
  compile_policy-parts now snapshot h =
      check_two-eq-ok (validate_policy net chrono snapshot)
        (compile_country_rules snapshot.geo_countries)
        (compile_geo_prefixes net snapshot.geo_prefixes) (compiled now snapshot) h

  active_temp_bans-networks :
      IpnetLaws net
      → (now : ℕ → DateTime) (i : ℕ) (bans : List (TempBanPolicy IpNet DateTime))
      → All
          (λ (b : XdpTempBan DateTime). IsNetwork b.addr b.prefix)
          (active_temp_bans net chrono now i bans)
  unfolding active_temp_bans
  active_temp_bans-networks laws now i [] = tt
  active_temp_bans-networks laws now i (ban ∷ bans) =
      elim (Bool-cases (lt (now i) ban.expires_at)) [
        | inl active ↦
            rw active
              (laws.network-IsNetwork ban.cidr, active_temp_bans-networks laws now (suc i) bans)
        | inr expired ↦ rw expired (active_temp_bans-networks laws now (suc i) bans)
      ]

  geo_prefix-network :
      IpnetLaws net
      → (p : GeoIpPrefixPolicy IpNet) (q : XdpGeoPrefix) → compile_geo_prefix net p ≡ ok q
      → IsNetwork q.addr q.prefix
  unfolding compile_geo_prefix
  geo_prefix-network laws p q e =
      let made : ℕ → XdpGeoPrefix = λ code. record {
        addr = net.network p.cidr;
        prefix = net.prefix_len p.cidr;
        country = code;
      } in
      let (code, _, k) = >>=-eq-ok (encode_country p.country) (λ code. ok (made code)) e in
      subst (λ (q : XdpGeoPrefix). IsNetwork q.addr q.prefix) (ok-injective k)
        (laws.network-IsNetwork p.cidr)

  -- A policy that compiles has only networks with cleared host bits, whatever CIDRs the snapshot
  -- holds: in its trusted prefixes, its firewall rules, its temporary bans and its country prefixes.
  -- The network library is assumed to clear the host bits in `network`.
  pub compile-HasNetworks :
      IpnetLaws net
      → (now : ℕ → DateTime) (snapshot : PolicySnapshot IpNet DateTime)
        (policy : CompiledPolicy DateTime)
      → compile_policy net chrono now snapshot ≡ ok policy
      → HasNetworks policy
  unfolding compile_trusted_prefixes compile_trusted_prefix compile_firewall_rules
      compile_firewall_rule compile_active_temp_bans compile_geo_prefixes
  compile-HasNetworks laws now snapshot policy h =
      let (country_rules, geo_prefixes, _, _, g, same) = compile_policy-parts now snapshot h in
      subst HasNetworks same (record {
        trusted =
            All-map _ (compile_trusted_prefix net) snapshot.trusted_cidrs
              (λ t. laws.network-IsNetwork t.cidr);
        rules =
            All-map _ (compile_firewall_rule net) snapshot.rules
              (λ r. laws.network-IsNetwork r.cidr);
        temp_bans = active_temp_bans-networks laws now 0 snapshot.temp_bans;
        geo =
            collect_map-All _ (compile_geo_prefix net) snapshot.geo_prefixes
              (geo_prefix-network laws) g;
      })

  trusted_prefixes-Any :
      IpnetLaws net
      → (ip : IpAddr) (trusted : List (TrustedCidrPolicy IpNet))
      → Any
          (λ (t : TrustedCidrPolicy IpNet). SamePrefix (net.prefix_len t.cidr) (net.addr t.cidr) ip)
          trusted
      → Any
          (λ (p : XdpTrustedPrefix). SamePrefix p.prefix p.addr ip)
          (compile_trusted_prefixes net trusted)
  unfolding compile_trusted_prefixes compile_trusted_prefix
  trusted_prefixes-Any laws ip [] h = h
  trusted_prefixes-Any laws ip (t ∷ trusted) (inl p) = inl (
      SamePrefix-trans (net.prefix_len t.cidr) (net.network t.cidr) (net.addr t.cidr) ip
        (SamePrefix-symm (net.prefix_len t.cidr) (net.addr t.cidr) (net.network t.cidr)
          (laws.network-SamePrefix t.cidr))
        p)
  trusted_prefixes-Any laws ip (t ∷ trusted) (inr h) = inr (trusted_prefixes-Any laws ip trusted h)

  -- An address that a CIDR of the snapshot's trusted list holds is held by a trusted prefix of the
  -- compiled policy.
  pub compiled-trusts :
      IpnetLaws net
      → (now : ℕ → DateTime) (snapshot : PolicySnapshot IpNet DateTime)
        (policy : CompiledPolicy DateTime) (ip : IpAddr)
      → compile_policy net chrono now snapshot ≡ ok policy
      → Any
          (λ (t : TrustedCidrPolicy IpNet). SamePrefix (net.prefix_len t.cidr) (net.addr t.cidr) ip)
          snapshot.trusted_cidrs
      → Any (λ (p : XdpTrustedPrefix). SamePrefix p.prefix p.addr ip) policy.trusted_prefixes
  compiled-trusts laws now snapshot policy ip h held =
      let (_, _, _, _, _, same) = compile_policy-parts now snapshot h in
      subst
        (λ (policy : CompiledPolicy DateTime).
          Any (λ (p : XdpTrustedPrefix). SamePrefix p.prefix p.addr ip) policy.trusted_prefixes)
        same (trusted_prefixes-Any laws ip snapshot.trusted_cidrs held)
