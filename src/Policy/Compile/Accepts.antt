-- ===== src/Policy/Compile/Accepts.antt =====
-- When a snapshot compiles.
use xdp_firewall.Prelude.{
  ℕ, ◌<◌, ◌≡◌, refl, ◌↔◌, true, none, List, [], ◌∷◌, arith, Result, ok, ◌>>=◌, ◌>>◌, >>=-eq-ok,
  collect_map, All, All-imp,
}
use xdp_firewall.Net.{Ipnet, Chrono}
use xdp_firewall.Policy.Model.{
  GeoIpPrefixPolicy, GeoCountryPolicy, DynamicRateLimitPolicy, PolicySnapshot, XdpGeoPrefix,
  XdpCountryRule, CompiledPolicy, is_icmp,
}
use xdp_firewall.Policy.Validate.{
  IsRunnable, validate_dynamic_defense_policy, validate_dynamic_defense_iff,
  validate_dynamic_rate_limit_policy,
}
use xdp_firewall.Policy.Country.{encode_country, IsTwoLetters, encode_country_iff}
use xdp_firewall.Text.{trim}
use xdp_firewall.Policy.Compile.{
  compile_geo_prefix, compile_geo_prefixes, validate_policy, validate_rate_limits,
  compile_country_rule, compile_country_rules, compile_policy,
}
use xdp_firewall.Policy.Compile.Networks.{compile_policy-parts, compiled}

-- A rate limit that the data plane can run.
pub record IsRunnableLimit (limit : DynamicRateLimitPolicy) : Type 0 where
  pub packets : 0 < limit.packets_per_second
  pub burst : 0 < limit.burst
  pub no_icmp_port : is_icmp limit.protocol ≡ true → limit.port ≡ none

-- A text that stands for a country: two letters, with white space around them at most.
abbrev pub Encodes : List ℕ → Type 0
Encodes s = IsTwoLetters (trim s)

rate_limit_accepts :
    (limit : DynamicRateLimitPolicy)
    → validate_dynamic_rate_limit_policy limit ≡ ok tt
    → IsRunnableLimit limit
unfolding validate_dynamic_rate_limit_policy
rate_limit_accepts limit h = ground arith

accepts_rate_limit :
    (limit : DynamicRateLimitPolicy)
    → IsRunnableLimit limit
    → validate_dynamic_rate_limit_policy limit ≡ ok tt
unfolding validate_dynamic_rate_limit_policy
accepts_rate_limit limit r = ground (arith, r.no_icmp_port)

rate_limits_accept :
    (limits : List DynamicRateLimitPolicy)
    → validate_rate_limits limits ≡ ok tt
    → All IsRunnableLimit limits
unfolding validate_rate_limits
rate_limits_accept [] h = tt
rate_limits_accept (limit ∷ limits) h =
    let (u, first, rest) =
      >>=-eq-ok (validate_dynamic_rate_limit_policy limit) (λ _. validate_rate_limits limits) h in
    (rate_limit_accepts limit first, rate_limits_accept limits rest)

accept_rate_limits :
    (limits : List DynamicRateLimitPolicy)
    → All IsRunnableLimit limits
    → validate_rate_limits limits ≡ ok tt
unfolding validate_rate_limits
accept_rate_limits [] h = refl
accept_rate_limits (limit ∷ limits) h =
    rw (accepts_rate_limit limit h.0) (accept_rate_limits limits h.1)

module _ {ℓ} {A : Type ℓ} {B : Type 0} (f : A → Result B) where
  collected :
      (xs : List A) {ys : List B} → collect_map f xs ≡ ok ys → All (λ x. (y : B) × (f x ≡ ok y)) xs
  collected [] h = tt
  collected (x ∷ xs) h =
      let (y, ey, k) = >>=-eq-ok (f x) (λ y. collect_map f xs >>= λ ys. ok (y ∷ ys)) h in
      let (zs, ez, _) = >>=-eq-ok (collect_map f xs) (λ ys. ok (y ∷ ys)) k in
      ((y, ey), collected xs ez)

  collects :
      (xs : List A)
      → All (λ x. (y : B) × (f x ≡ ok y)) xs
      → (ys : List B) × (collect_map f xs ≡ ok ys)
  collects [] h = ([], refl)
  collects (x ∷ xs) h = let (y, ey) = h.0 in let (ys, es) = collects xs h.1 in (y ∷ ys, rw (ey, es))

country_rule-Encodes :
    (p : GeoCountryPolicy)
    → (q : XdpCountryRule) × (compile_country_rule p ≡ ok q)
    → Encodes p.country
unfolding compile_country_rule
country_rule-Encodes p (q, e) =
    let (n, en, _) =
      >>=-eq-ok (encode_country p.country)
        (λ code. ok (record { country = code; action = p.action })) e in
    (encode_country_iff p.country).0 (n, en)

Encodes-country_rule :
    (p : GeoCountryPolicy)
    → Encodes p.country
    → (q : XdpCountryRule) × (compile_country_rule p ≡ ok q)
unfolding compile_country_rule
Encodes-country_rule p h =
    let (n, e) = (encode_country_iff p.country).1 h in
    (record { country = n; action = p.action }, rw e)

module _ (net : Ipnet) where
  open net use {IpNet}

  geo_prefix-Encodes :
      (p : GeoIpPrefixPolicy IpNet)
      → (q : XdpGeoPrefix) × (compile_geo_prefix net p ≡ ok q)
      → Encodes p.country
  unfolding compile_geo_prefix
  geo_prefix-Encodes p (q, e) =
      let made : ℕ → XdpGeoPrefix = λ code. record {
        addr = net.network p.cidr;
        prefix = net.prefix_len p.cidr;
        country = code;
      } in
      let (n, en, _) = >>=-eq-ok (encode_country p.country) (λ code. ok (made code)) e in
      (encode_country_iff p.country).0 (n, en)

  Encodes-geo_prefix :
      (p : GeoIpPrefixPolicy IpNet)
      → Encodes p.country
      → (q : XdpGeoPrefix) × (compile_geo_prefix net p ≡ ok q)
  unfolding compile_geo_prefix
  Encodes-geo_prefix p h =
      let (n, e) = (encode_country_iff p.country).1 h in
      (record { addr = net.network p.cidr; prefix = net.prefix_len p.cidr; country = n }, rw e)

  module _ (chrono : Chrono) where
    open chrono use {DateTime, lt}

    -- What a snapshot must hold to be compiled.
    pub record IsCompilable (snapshot : PolicySnapshot IpNet DateTime) : Type 0 where
      pub defense : IsRunnable snapshot.dynamic_defense
      pub limits : All IsRunnableLimit snapshot.dynamic_rate_limits
      pub countries : All (λ (p : GeoCountryPolicy). Encodes p.country) snapshot.geo_countries
      pub geo : All (λ (p : GeoIpPrefixPolicy IpNet). Encodes p.country) snapshot.geo_prefixes

    validate_policy-parts :
        (snapshot : PolicySnapshot IpNet DateTime)
        → validate_policy net chrono snapshot ≡ ok tt
        → IsRunnable snapshot.dynamic_defense × All IsRunnableLimit snapshot.dynamic_rate_limits
    unfolding validate_policy
    validate_policy-parts snapshot h =
        let (_, d, k) =
          >>=-eq-ok (validate_dynamic_defense_policy snapshot.dynamic_defense)
            (λ _. validate_rate_limits snapshot.dynamic_rate_limits >> ok tt) h in
        let (_, l, _) =
          >>=-eq-ok (validate_rate_limits snapshot.dynamic_rate_limits) (λ _. ok tt) k in
        (
          (validate_dynamic_defense_iff snapshot.dynamic_defense).0 d,
          rate_limits_accept snapshot.dynamic_rate_limits l,
        )

    compilable :
        (now : ℕ → DateTime) (snapshot : PolicySnapshot IpNet DateTime)
        (policy : CompiledPolicy DateTime)
        → compile_policy net chrono now snapshot ≡ ok policy
        → IsCompilable snapshot
    unfolding compile_country_rules compile_geo_prefixes
    compilable now snapshot policy h =
        let (_, _, v, c, g, _) = compile_policy-parts net chrono now snapshot h in
        let (d, l) = validate_policy-parts snapshot v in
        record {
          defense = d;
          limits = l;
          countries =
              All-imp _ _ snapshot.geo_countries country_rule-Encodes
                (collected compile_country_rule snapshot.geo_countries c);
          geo =
              All-imp _ _ snapshot.geo_prefixes geo_prefix-Encodes
                (collected (compile_geo_prefix net) snapshot.geo_prefixes g);
        }

    compiles :
        (now : ℕ → DateTime) (snapshot : PolicySnapshot IpNet DateTime)
        → IsCompilable snapshot
        → (policy : CompiledPolicy DateTime) × (compile_policy net chrono now snapshot ≡ ok policy)
    unfolding compile_policy
    compiles now snapshot c =
        let (cs, ec) =
          collects compile_country_rule snapshot.geo_countries
            (All-imp _ _ snapshot.geo_countries Encodes-country_rule c.countries) in
        let (gs, eg) =
          collects (compile_geo_prefix net) snapshot.geo_prefixes
            (All-imp _ _ snapshot.geo_prefixes Encodes-geo_prefix c.geo) in
        let d = (validate_dynamic_defense_iff snapshot.dynamic_defense).1 c.defense in
        let l = accept_rate_limits snapshot.dynamic_rate_limits c.limits in
        (compiled net chrono now snapshot cs gs, rw (d, l, ec, eg))

    -- A snapshot compiles exactly when its dynamic defense and its rate limits are runnable and each
    -- country of its country rules and prefixes is two ASCII letters, with white space around them at most.
    pub compile_policy_iff :
        (now : ℕ → DateTime) (snapshot : PolicySnapshot IpNet DateTime)
        → ((policy : CompiledPolicy DateTime) × (compile_policy net chrono now snapshot
              ≡ ok policy))
          ↔ IsCompilable snapshot
    compile_policy_iff now snapshot =
        ((λ p. compilable now snapshot p.0 p.1), compiles now snapshot)
