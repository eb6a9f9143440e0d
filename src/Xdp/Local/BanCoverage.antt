-- ===== src/Xdp/Local/BanCoverage.antt =====
-- Compaction of the temporary bans shortens no ban.
use xdp_firewall.Prelude.{
  ℕ, ◌≤◌, ◌<◌, ◌≡◌, refl, sym, subst, ◌↔◌, ◌⊎◌, inl, inr, false, true, ◌&&◌, List, leb, ◌==◌, arith,
  All, Any, Bool-cases, length, not_leb→lt, leb→le, absurd_true, ◌∙◌,
}
use xdp_firewall.Net.{IpAddr, addr_eq, Ipnet, IpnetLaws, SamePrefix, IsNetwork, Chrono, ChronoLaws}
use xdp_firewall.Net.Prefix.{
  addr_eq→eq, addr_eq_refl, SamePrefix-refl, SamePrefix-trans, SamePrefix-weaken, IsNetwork-eq,
}
use xdp_firewall.Compaction.Coverage.{Covering, compact-Any, Any-compact, length-compact}
use xdp_firewall.Policy.Model.{L4Protocol, any, tcp, udp, icmp, protocol_eq, XdpTempBan}
use xdp_firewall.Xdp.Local.{truncated, both_in, temp_ban_covers_or_supersedes, compact_temp_bans}
use xdp_firewall.Xdp.Local.Truncation.{both_in_iff}

protocol_eq→eq : (a b : L4Protocol) → protocol_eq a b ≡ true → a ≡ b
protocol_eq→eq a b h = ground arith

protocol_eq_refl : (a : L4Protocol) → protocol_eq a a ≡ true
protocol_eq_refl any = refl
protocol_eq_refl tcp = refl
protocol_eq_refl udp = refl
protocol_eq_refl icmp = refl

module _ (net : Ipnet) (laws : IpnetLaws net) (chrono : Chrono) (times : ChronoLaws chrono) where
  open chrono use {DateTime, lt}

  -- A ban of a compiled policy.
  abbrev pub IsNetworkBan : XdpTempBan DateTime → Type 0
  IsNetworkBan b = IsNetwork b.addr b.prefix

  -- At time `t` the ban stops the address with this protocol and port.
  abbrev pub Bans : IpAddr → L4Protocol → ℕ → DateTime → XdpTempBan DateTime → Type 0
  Bans ip protocol port t b =
      SamePrefix b.prefix b.addr ip
      × (b.protocol ≡ protocol)
      × (b.port ≡ port)
      × (lt t b.expires_at ≡ true)

  -- What the test says on networks.
  record Supersedes (c b : XdpTempBan DateTime) : Type 0 where
    protocol : c.protocol ≡ b.protocol
    port : c.port ≡ b.port
    inside : SamePrefix c.prefix c.addr b.addr
    not_earlier : lt c.expires_at b.expires_at ≡ false
    strict : (c.prefix < b.prefix) ⊎ (c.prefix ≡ b.prefix) × (lt b.expires_at c.expires_at ≡ true)

  later_not_earlier : (a b : DateTime) → lt a b ≡ true → lt b a ≡ false
  later_not_earlier a b h = elim (Bool-cases (lt b a)) [
    | inl back ↦ absurd_true (times.transitive a b a h back) (times.irreflexive a)
    | inr none_back ↦ none_back
  ]

  not_earlier_trans : (a b c : DateTime) → lt a b ≡ false → lt b c ≡ false → lt a c ≡ false
  not_earlier_trans a b c h k = elim (Bool-cases (lt a c)) [
    | inl earlier ↦ elim (times.total a b c earlier) [
      | inl p ↦ absurd_true p h
      | inr p ↦ absurd_true p k
    ]
    | inr fine ↦ fine
  ]

  outlasts : (t a b : DateTime) → lt t a ≡ true → lt b a ≡ false → lt t b ≡ true
  outlasts t a b h k = elim (times.total t b a h) [ inl p ↦ p | inr p ↦ absurd_true p k ]

  same_place :
      (c b : XdpTempBan DateTime) → addr_eq c.addr b.addr ≡ true → SamePrefix c.prefix c.addr b.addr
  same_place c b h =
      subst (SamePrefix c.prefix c.addr) (addr_eq→eq c.addr b.addr h)
        (SamePrefix-refl c.prefix c.addr)

  -- Networks of one length, one in the other, are the same.
  one_network :
      (c b : XdpTempBan DateTime)
      → IsNetworkBan c
      → IsNetworkBan b
      → c.prefix ≡ b.prefix
      → SamePrefix c.prefix c.addr b.addr
      → (addr_eq c.addr b.addr && c.prefix == b.prefix) ≡ true
  one_network c b nc nb e s =
      let addrs = IsNetwork-eq c.prefix c.addr b.addr nc (subst (IsNetwork b.addr) (sym e) nb) s in
      ground (arith, addr_eq_refl b.addr, addrs, e)

  covers-Supersedes :
      (c b : XdpTempBan DateTime)
      → IsNetworkBan c
      → IsNetworkBan b
      → temp_ban_covers_or_supersedes net chrono c b ≡ true
      → Supersedes c b
  unfolding temp_ban_covers_or_supersedes
  covers-Supersedes c b nc nb h =
      let protocol : protocol_eq c.protocol b.protocol ≡ true = ground arith in
      let port : c.port ≡ b.port = ground arith in
      elim (Bool-cases (addr_eq c.addr b.addr && c.prefix == b.prefix)) [
        | inl same ↦
            let later : lt b.expires_at c.expires_at ≡ true = ground arith in
            record {
              protocol = protocol_eq→eq c.protocol b.protocol protocol;
              port = port;
              inside = same_place c b (ground arith);
              not_earlier = later_not_earlier b.expires_at c.expires_at later;
              strict = inr (ground arith, later);
            }
        | inr other ↦
            let order : c.prefix ≤ b.prefix = ground arith in
            let inside : both_in net (truncated net c.addr c.prefix) (truncated net b.addr b.prefix)
                ≡ true =
              ground arith in
            let within =
              (both_in_iff net laws c.addr b.addr c.prefix b.prefix nc.fits nb.fits order).0
                inside in
            record {
              protocol = protocol_eq→eq c.protocol b.protocol protocol;
              port = port;
              inside = within;
              not_earlier = ground arith;
              strict = elim (Bool-cases (leb b.prefix c.prefix)) [
                | inl back ↦
                    let e : c.prefix ≡ b.prefix = omega (arith, leb→le b.prefix c.prefix back) in
                    absurd_true (one_network c b nc nb e within) other
                | inr forth ↦ inl (not_leb→lt b.prefix c.prefix forth)
              ];
            }
      ]

  Supersedes-covers :
      (c b : XdpTempBan DateTime)
      → IsNetworkBan c
      → IsNetworkBan b
      → Supersedes c b
      → temp_ban_covers_or_supersedes net chrono c b ≡ true
  unfolding temp_ban_covers_or_supersedes
  Supersedes-covers c b nc nb s =
      let protocol : protocol_eq c.protocol b.protocol ≡ true =
        rw s.protocol (protocol_eq_refl b.protocol) in
      elim s.strict [
        | inr (e, later) ↦ ground (arith, protocol, s.port, one_network c b nc nb e s.inside, later)
        | inl shorter ↦
            let inside =
              (both_in_iff net laws c.addr b.addr c.prefix b.prefix nc.fits nb.fits (omega arith)).1
                s.inside in
            ground (arith, protocol, s.port, s.not_earlier, inside)
      ]

  supersedes_irreflexive :
      (b : XdpTempBan DateTime) → temp_ban_covers_or_supersedes net chrono b b ≡ false
  unfolding temp_ban_covers_or_supersedes
  supersedes_irreflexive b =
      ground
        (arith, protocol_eq_refl b.protocol, addr_eq_refl b.addr, times.irreflexive b.expires_at)

  strict_trans :
      (z y x : XdpTempBan DateTime)
      → Supersedes z y
      → Supersedes y x
      → (z.prefix < x.prefix) ⊎ (z.prefix ≡ x.prefix) × (lt x.expires_at z.expires_at ≡ true)
  strict_trans z y x s r = elim s.strict [
    | inl p ↦ elim r.strict [ inl q ↦ inl (omega arith) | inr (e, _) ↦ inl (omega arith) ]
    | inr (e, later) ↦ elim r.strict [
      | inl q ↦ inl (omega arith)
      | inr (f, later') ↦
          inr (omega arith, times.transitive x.expires_at y.expires_at z.expires_at later' later)
    ]
  ]

  Supersedes-le : (c b : XdpTempBan DateTime) → Supersedes c b → c.prefix ≤ b.prefix
  Supersedes-le c b s = elim s.strict [ inl p ↦ omega arith | inr (e, _) ↦ omega arith ]

  Supersedes-trans :
      (z y x : XdpTempBan DateTime) → Supersedes z y → Supersedes y x → Supersedes z x
  Supersedes-trans z y x s r = record {
    protocol = s.protocol ∙ r.protocol;
    port = s.port ∙ r.port;
    inside =
        SamePrefix-trans z.prefix z.addr y.addr x.addr s.inside
          (SamePrefix-weaken z.prefix y.prefix y.addr x.addr (Supersedes-le z y s) r.inside);
    not_earlier =
        not_earlier_trans z.expires_at y.expires_at x.expires_at s.not_earlier r.not_earlier;
    strict = strict_trans z y x s r;
  }

  supersedes_order :
      (ip : IpAddr) (protocol : L4Protocol) (port : ℕ) (t : DateTime)
      → Covering (temp_ban_covers_or_supersedes net chrono) IsNetworkBan (Bans ip protocol port t)
  supersedes_order ip protocol port t = record {
    irreflexive = supersedes_irreflexive;
    transitive = λ x y z gx gy gz zy yx.
        Supersedes-covers z x gz gx (
          Supersedes-trans z y x (covers-Supersedes z y gz gy zy) (covers-Supersedes y x gy gx yx));
    monotone = λ x y gx gy yx h.
        let s = covers-Supersedes y x gy gx yx in
        (
          SamePrefix-trans y.prefix y.addr x.addr ip s.inside
              (SamePrefix-weaken y.prefix x.prefix x.addr ip (Supersedes-le y x s) h.0),
          s.protocol ∙ h.1,
          s.port ∙ h.2,
          outlasts t x.expires_at y.expires_at h.3 s.not_earlier,
        );
  }

  -- Among bans on networks with cleared host bits, as every compiled policy has them, an address is
  -- banned for a protocol and a port at a time by the compacted list exactly when it was by the list,
  -- and the list gets no longer.
  pub compact_temp_bans_coverage :
      (bans : List (XdpTempBan DateTime)) (ip : IpAddr) (protocol : L4Protocol) (port : ℕ)
      (t : DateTime)
      → All IsNetworkBan bans
      → (Any (Bans ip protocol port t) (compact_temp_bans net chrono bans)
          ↔ Any (Bans ip protocol port t) bans)
        × (length (compact_temp_bans net chrono bans) ≤ length bans)
  unfolding compact_temp_bans
  compact_temp_bans_coverage bans ip protocol port t networks = (
    (
      compact-Any (temp_ban_covers_or_supersedes net chrono) (Bans ip protocol port t) bans,
      Any-compact (temp_ban_covers_or_supersedes net chrono) IsNetworkBan (Bans ip protocol port t)
          (supersedes_order ip protocol port t) bans networks,
    ),
    length-compact (temp_ban_covers_or_supersedes net chrono) bans,
  )
