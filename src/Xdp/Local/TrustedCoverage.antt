-- ===== src/Xdp/Local/TrustedCoverage.antt =====
-- Compaction of the trusted prefixes loses no trusted address.
use xdp_firewall.Prelude.{
  ◌≤◌, ◌<◌, ◌≡◌, subst, ◌↔◌, inl, inr, false, true, List, leb, arith, All, Any, Bool-cases, length,
  not_leb→lt, leb→le,
}
use xdp_firewall.Net.{IpAddr, Ipnet, IpnetLaws, SamePrefix, IsNetwork}
use xdp_firewall.Net.Prefix.{
  addr_eq→eq, addr_eq_refl, SamePrefix-trans, SamePrefix-weaken, IsNetwork-eq,
}
use xdp_firewall.Compaction.Coverage.{Covering, compact-Any, Any-compact, length-compact}
use xdp_firewall.Policy.Model.{XdpTrustedPrefix}
use xdp_firewall.Xdp.Local.{
  trusted_eq, truncated, both_in, trusted_prefix_covers, compact_trusted_prefixes,
}
use xdp_firewall.Xdp.Local.Truncation.{both_in_iff}

-- A prefix of a compiled policy.
abbrev pub IsNetworkPrefix : XdpTrustedPrefix → Type 0
IsNetworkPrefix p = IsNetwork p.addr p.prefix

-- The prefix holds the address.
abbrev pub Trusts : IpAddr → XdpTrustedPrefix → Type 0
Trusts ip p = SamePrefix p.prefix p.addr ip

trusted_eq_refl : (p : XdpTrustedPrefix) → trusted_eq p p ≡ true
trusted_eq_refl p = ground (arith, addr_eq_refl p.addr)

trusted_eq→eq : (a b : XdpTrustedPrefix) → trusted_eq a b ≡ true → a ≡ b
trusted_eq→eq a b h = ground (arith, addr_eq→eq a.addr b.addr)

module _ (net : Ipnet) (laws : IpnetLaws net) where
  -- On networks the test is proper containment.
  covers_facts :
      (c p : XdpTrustedPrefix)
      → IsNetworkPrefix c
      → IsNetworkPrefix p
      → trusted_prefix_covers net c p ≡ true
      → (c.prefix < p.prefix) × SamePrefix c.prefix c.addr p.addr
  unfolding trusted_prefix_covers
  covers_facts c p nc np h =
      let differ : trusted_eq c p ≡ false = ground arith in
      let order : c.prefix ≤ p.prefix = ground arith in
      let inside : both_in net (truncated net c.addr c.prefix) (truncated net p.addr p.prefix)
          ≡ true =
        ground arith in
      let same =
        (both_in_iff net laws c.addr p.addr c.prefix p.prefix nc.fits np.fits order).0 inside in
      (
        elim (Bool-cases (leb p.prefix c.prefix)) [
          | inl back ↦
              let e : p.prefix ≡ c.prefix = omega (arith, leb→le p.prefix c.prefix back) in
              let addrs =
                IsNetwork-eq c.prefix c.addr p.addr nc (subst (IsNetwork p.addr) e np) same in
              absurd (ground (arith, addrs, addr_eq_refl p.addr, e, differ))
          | inr forth ↦ not_leb→lt p.prefix c.prefix forth
        ],
        same,
      )

  facts_cover :
      (c p : XdpTrustedPrefix)
      → IsNetworkPrefix c
      → IsNetworkPrefix p
      → c.prefix < p.prefix
      → SamePrefix c.prefix c.addr p.addr
      → trusted_prefix_covers net c p ≡ true
  unfolding trusted_prefix_covers
  facts_cover c p nc np lt same =
      let inside =
        (both_in_iff net laws c.addr p.addr c.prefix p.prefix nc.fits np.fits (omega arith)).1
          same in
      ground (arith, inside)

  covers_irreflexive : (p : XdpTrustedPrefix) → trusted_prefix_covers net p p ≡ false
  unfolding trusted_prefix_covers
  covers_irreflexive p = rw (trusted_eq_refl p)

  covers_order : (ip : IpAddr) → Covering (trusted_prefix_covers net) IsNetworkPrefix (Trusts ip)
  covers_order ip = record {
    irreflexive = covers_irreflexive;
    transitive = λ x y z gx gy gz zy yx.
        let (lt1, s1) = covers_facts z y gz gy zy in
        let (lt2, s2) = covers_facts y x gy gx yx in
        facts_cover z x gz gx (omega arith) (
          SamePrefix-trans z.prefix z.addr y.addr x.addr s1
            (SamePrefix-weaken z.prefix y.prefix y.addr x.addr (omega arith) s2));
    monotone = λ x y gx gy yx h.
        let (lt, s) = covers_facts y x gy gx yx in
        SamePrefix-trans y.prefix y.addr x.addr ip s
          (SamePrefix-weaken y.prefix x.prefix x.addr ip (omega arith) h);
  }

  -- Among prefixes whose host bits are cleared, as every compiled policy has them, an address is
  -- trusted by the compacted list exactly when the list trusted it, and the list gets no longer.
  pub compact_trusted_coverage :
      (prefixes : List XdpTrustedPrefix) (ip : IpAddr)
      → All IsNetworkPrefix prefixes
      → (Any (Trusts ip) (compact_trusted_prefixes net prefixes) ↔ Any (Trusts ip) prefixes)
        × (length (compact_trusted_prefixes net prefixes) ≤ length prefixes)
  unfolding compact_trusted_prefixes
  compact_trusted_coverage prefixes ip networks = (
    (
      compact-Any (trusted_prefix_covers net) (Trusts ip) prefixes,
      Any-compact (trusted_prefix_covers net) IsNetworkPrefix (Trusts ip) (covers_order ip) prefixes
          networks,
    ),
    length-compact (trusted_prefix_covers net) prefixes,
  )
