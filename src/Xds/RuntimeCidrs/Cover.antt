-- ===== src/Xds/RuntimeCidrs/Cover.antt =====
-- The test `cidr_covers` on networks with cleared host bits, and on others.
use xdp_firewall.Prelude.{
  ◌≤◌, ◌<◌, ◌≡◌, refl, sym, subst, ◌↔◌, ◌∙◌, inl, inr, Bool, false, true, not, List, [], ◌∷◌, leb,
  if◌then◌else◌, arith, All, Any, Bool-cases, &&-eq_true, not_leb→lt, leb→le, absurd_true,
}
use xdp_firewall.Net.{IpAddr, Ipnet, IpnetLaws, SamePrefix, IsNetwork}
use xdp_firewall.Net.Prefix.{
  SamePrefix-refl, SamePrefix-symm, SamePrefix-trans, SamePrefix-weaken, SamePrefix-is_ipv4,
  IsNetwork-eq,
}
use xdp_firewall.Compaction.Coverage.{Covering, compact-pair, compact-Any, Any-compact, compact-All}
use xdp_firewall.Xdp.Local.{network_in}
use xdp_firewall.Xds.RuntimeCidrs.{cidr_covers, compact_covered_cidrs}

family_test : (a b : Bool) → a ≡ b → (if a then b else not b) ≡ true
family_test a b h = ground arith

module _ (net : Ipnet) where
  open net use {IpNet, addr, prefix_len, net_eq}

  -- The address of the CIDR is that of its network.
  abbrev pub IsCanonicalCidr : IpNet → Type 0
  IsCanonicalCidr n = IsNetwork (addr n) (prefix_len n)

  -- The CIDR holds the address.
  abbrev pub Holds : IpAddr → IpNet → Type 0
  Holds ip n = SamePrefix (prefix_len n) (addr n) ip

module _ (net : Ipnet) (laws : IpnetLaws net) where
  open net use {IpNet, is_v4, addr, prefix_len, network, contains, net_eq}

  -- On the prefix length of the first, or more, the test compares the first bits of the addresses.
  pub network_in_iff :
      (c d : IpNet)
      → prefix_len c ≤ prefix_len d
      → (network_in net c d ≡ true) ↔ SamePrefix (prefix_len c) (addr c) (addr d)
  network_in_iff c d order =
      let near =
        SamePrefix-weaken (prefix_len c) (prefix_len d) (addr d) (network d) order
          (laws.network-SamePrefix d) in
      (
        (λ h.
            SamePrefix-trans (prefix_len c) (addr c) (network d) (addr d)
              ((laws.contains_iff c (network d)).0 (&&-eq_true _ _ h).1)
              (SamePrefix-symm (prefix_len c) (addr d) (network d) near)),
        (λ s.
            let holds =
              (laws.contains_iff c (network d)).1
                (SamePrefix-trans (prefix_len c) (addr c) (addr d) (network d) s near) in
            let families = family_test (is_v4 c) (is_v4 d) (
              laws.is_v4_addr c
              ∙ SamePrefix-is_ipv4 (prefix_len c) (addr c) (addr d) s
              ∙ sym (laws.is_v4_addr d)) in
            rw (families, holds)),
      )

  net_eq_refl : (c : IpNet) → net_eq c c ≡ true
  net_eq_refl c = (laws.net_eq_iff c c).1 (refl, refl)

  -- What covers is shorter or as long, and holds the other.
  pub cover_facts :
      (c d : IpNet)
      → IsCanonicalCidr net c
      → IsCanonicalCidr net d
      → cidr_covers net c d ≡ true
      → (prefix_len c < prefix_len d) × SamePrefix (prefix_len c) (addr c) (addr d)
  unfolding cidr_covers
  cover_facts c d nc nd h =
      let differ : net_eq c d ≡ false = ground arith in
      let order : prefix_len c ≤ prefix_len d = ground arith in
      let inside : network_in net c d ≡ true = ground arith in
      let same = (network_in_iff c d order).0 inside in
      (
        elim (Bool-cases (leb (prefix_len d) (prefix_len c))) [
          | inl back ↦
              let e : prefix_len d ≡ prefix_len c =
                omega (arith, leb→le (prefix_len d) (prefix_len c) back) in
              let addrs =
                IsNetwork-eq (prefix_len c) (addr c) (addr d) nc (subst (IsNetwork (addr d)) e nd)
                  same in
              absurd (absurd_true ((laws.net_eq_iff c d).1 (addrs, sym e)) differ)
          | inr forth ↦ not_leb→lt (prefix_len d) (prefix_len c) forth
        ],
        same,
      )

  facts_cover :
      (c d : IpNet)
      → prefix_len c < prefix_len d
      → SamePrefix (prefix_len c) (addr c) (addr d)
      → cidr_covers net c d ≡ true
  unfolding cidr_covers
  facts_cover c d lt same =
      let inside = (network_in_iff c d (omega arith)).1 same in
      elim (Bool-cases (net_eq c d)) [
        | inl equal ↦ absurd (omega (arith, ((laws.net_eq_iff c d).0 equal).1))
        | inr differ ↦ ground (arith, differ, inside)
      ]

  covers_irreflexive : (c : IpNet) → cidr_covers net c c ≡ false
  unfolding cidr_covers
  covers_irreflexive c = let self = net_eq_refl c in rw self

  covers_order : (ip : IpAddr) → Covering (cidr_covers net) (IsCanonicalCidr net) (Holds net ip)
  covers_order ip = record {
    irreflexive = covers_irreflexive;
    transitive = λ x y z gx gy gz zy yx.
        let (lt1, s1) = cover_facts z y gz gy zy in
        let (lt2, s2) = cover_facts y x gy gx yx in
        facts_cover z x (omega arith) (
          SamePrefix-trans (prefix_len z) (addr z) (addr y) (addr x) s1
            (SamePrefix-weaken (prefix_len z) (prefix_len y) (addr y) (addr x) (omega arith) s2));
    monotone = λ x y gx gy yx h.
        let (lt, s) = cover_facts y x gy gx yx in
        SamePrefix-trans (prefix_len y) (addr y) (addr x) ip s
          (SamePrefix-weaken (prefix_len y) (prefix_len x) (addr x) ip (omega arith) h);
  }

  -- For CIDRs with cleared host bits, the compacted list holds an address exactly when the list does.
  pub compact_covered_cidrs_coverage :
      (cidrs : List IpNet) (ip : IpAddr)
      → All (IsCanonicalCidr net) cidrs
      → Any (Holds net ip) (compact_covered_cidrs net cidrs).cidrs ↔ Any (Holds net ip) cidrs
  unfolding compact_covered_cidrs
  compact_covered_cidrs_coverage cidrs ip canonical = (
    compact-Any (cidr_covers net) (Holds net ip) cidrs,
    Any-compact (cidr_covers net) (IsCanonicalCidr net) (Holds net ip) (covers_order ip) cidrs
        canonical,
  )

  pub compact_covered_cidrs-All :
      (P : IpNet → Type 0) (cidrs : List IpNet)
      → All P cidrs
      → All P (compact_covered_cidrs net cidrs).cidrs
  unfolding compact_covered_cidrs
  compact_covered_cidrs-All P cidrs h = compact-All (cidr_covers net) P cidrs h

  covers_twin :
      (c d : IpNet)
      → net_eq c d ≡ false
      → prefix_len c ≡ prefix_len d
      → SamePrefix (prefix_len c) (addr c) (addr d)
      → cidr_covers net c d ≡ true
  unfolding cidr_covers
  covers_twin c d differ e same =
      let inside = (network_in_iff c d (omega arith)).1 same in ground (arith, differ, inside)

  -- Two different spellings of one network cover each other, and both are dropped: of a list of the two
  -- nothing is left, and the addresses of the network are lost.
  pub compact_covered_cidrs_loses_twins :
      (c d : IpNet)
      → net_eq c d ≡ false
      → prefix_len c ≡ prefix_len d
      → SamePrefix (prefix_len c) (addr c) (addr d)
      → ((compact_covered_cidrs net (c ∷ d ∷ [])).cidrs ≡ [])
        × Holds net (addr c) c
        × Holds net (addr c) d
  unfolding compact_covered_cidrs
  compact_covered_cidrs_loses_twins c d differ e same =
      let back : net_eq d c ≡ false = elim (Bool-cases (net_eq d c)) [
        | inl equal ↦
            let (a, p) = (laws.net_eq_iff d c).0 equal in
            absurd (absurd_true ((laws.net_eq_iff c d).1 (sym a, sym p)) differ)
        | inr unequal ↦ unequal
      ] in
      let other =
        subst (λ p. SamePrefix p (addr d) (addr c)) e
          (SamePrefix-symm (prefix_len c) (addr c) (addr d) same) in
      let first = covers_twin d c back (sym e) other in
      let second = covers_twin c d differ e same in
      (
        compact-pair (cidr_covers net) c d first second,
        SamePrefix-refl (prefix_len c) (addr c),
        other,
      )
