-- ===== src/Xdp/Local/Truncation.antt =====
-- What the tests on truncated networks say of the addresses.
use xdp_firewall.Prelude.{
  ℕ, ◌≤◌, ◌≡◌, refl, sym, subst, ◌↔◌, ◌∙◌, Bool, false, true, not, some, if◌then◌else◌, arith,
  &&-eq_true,
}
use xdp_firewall.Net.{IpAddr, is_ipv4, width, Ipnet, IpnetLaws, SamePrefix}
use xdp_firewall.Net.Prefix.{
  SamePrefix-refl, SamePrefix-symm, SamePrefix-trans, SamePrefix-weaken, SamePrefix-is_ipv4,
}
use xdp_firewall.Xdp.Local.{truncated, both_in, same_family, prefix_contains_ip}

family_test : (a b : Bool) → a ≡ b → (if a then b else not b) ≡ true
family_test a b h = ground arith

guarded : (b c : Bool) → (if not b then false else c) ≡ true → c ≡ true
guarded b c h = ground arith

guard_both : (b c : Bool) → b ≡ true → c ≡ true → (if not b then false else c) ≡ true
guard_both b c h k = ground arith

module _ (net : Ipnet) (laws : IpnetLaws net) where
  open net use {IpNet, new, is_v4, addr, prefix_len, network, trunc, contains}

  -- What the library says of the truncated network of `a` and `p`.
  record IsTruncated (a : IpAddr) (p : ℕ) (n : IpNet) : Type 0 where
    made : (m : IpNet) × (new a p ≡ some m) × (trunc m ≡ n)
    found : truncated net a p ≡ some n
    prefix : prefix_len n ≡ p
    base : SamePrefix p a (addr n)
    start : SamePrefix p a (network n)
    family : is_v4 n ≡ is_ipv4 a

  network-same :
      (a : IpAddr) (p : ℕ) (m : IpNet)
      → prefix_len m ≡ p
      → SamePrefix p a (addr m)
      → SamePrefix p a (network m)
  network-same a p m ep h =
      SamePrefix-trans p a (addr m) (network m) h
        (subst (λ q. SamePrefix q (addr m) (network m)) ep (laws.network-SamePrefix m))

  truncated-new :
      (a : IpAddr) (p : ℕ) (m : IpNet) → new a p ≡ some m → truncated net a p ≡ some (trunc m)
  truncated-new a p m e = rw (e, truncated)

  truncation : (a : IpAddr) (p : ℕ) → p ≤ width a → (n : IpNet) × IsTruncated a p n
  truncation a p fits =
      let (m, e) = laws.new_some a p fits in
      let pm = laws.new_prefix_len a p m e in
      let am = laws.new_addr a p m e in
      let pt : prefix_len (trunc m) ≡ p = laws.trunc_prefix_len m ∙ pm in
      let at_base : SamePrefix p a (addr m) = rw am (SamePrefix-refl p a) in
      let base : SamePrefix p a (addr (trunc m)) =
        rw (laws.trunc_addr m) (network-same a p m pm at_base) in
      (
        trunc m,
        record {
          made = (m, e, refl);
          found = truncated-new a p m e;
          prefix = pt;
          base = base;
          start = network-same a p (trunc m) pt base;
          family = laws.is_v4_addr (trunc m) ∙ sym (SamePrefix-is_ipv4 p a (addr (trunc m)) base);
        },
      )

  contains-truncated_iff :
      (a : IpAddr) (p : ℕ) (n : IpNet) (ip : IpAddr)
      → IsTruncated a p n
      → (contains n ip ≡ true) ↔ SamePrefix p a ip
  contains-truncated_iff a p n ip t = (
    (λ h.
        SamePrefix-trans p a (addr n) ip t.base
          (subst (λ q. SamePrefix q (addr n) ip) t.prefix ((laws.contains_iff n ip).0 h))),
    (λ h. (laws.contains_iff n ip).1 (
        subst (λ q. SamePrefix q (addr n) ip) (sym t.prefix)
          (SamePrefix-trans p (addr n) a ip (SamePrefix-symm p a (addr n) t.base) h))),
  )

  -- Of two networks with the lengths `p` and `q`, `p` not above `q`, the first holds the second's
  -- start exactly when the addresses agree on the first `p` bits.
  pub both_in_iff :
      (a b : IpAddr) (p q : ℕ)
      → p ≤ width a
      → q ≤ width b
      → p ≤ q
      → (both_in net (truncated net a p) (truncated net b q) ≡ true) ↔ SamePrefix p a b
  both_in_iff a b p q fa fb h =
      let (m, tm) = truncation a p fa in
      let (n, tn) = truncation b q fb in
      let near : SamePrefix p b (network n) = SamePrefix-weaken p q b (network n) h tn.start in
      rw (tm.found, tn.found)
        (
          (λ e.
              SamePrefix-trans p a (network n) b
                ((contains-truncated_iff a p m (network n) tm).0 (&&-eq_true _ _ e).1)
                (SamePrefix-symm p b (network n) near)),
          (λ s.
              let holds =
                (contains-truncated_iff a p m (network n) tm).1
                  (SamePrefix-trans p a b (network n) s near) in
              let families =
                family_test (is_v4 m) (is_v4 n)
                  (tm.family ∙ SamePrefix-is_ipv4 p a b s ∙ sym tn.family) in
              rw (families, holds)),
        )

  -- The containment test of an address compares the first bits, for every prefix length that the
  -- address has.
  pub prefix_contains_ip_iff :
      (a : IpAddr) (p : ℕ) (ip : IpAddr)
      → p ≤ width a
      → (prefix_contains_ip net a p ip ≡ true) ↔ SamePrefix p a ip
  unfolding prefix_contains_ip
  prefix_contains_ip_iff a p ip fits =
      let (n, t) = truncation a p fits in
      let (m, e, same) = t.made in
      let test = contains-truncated_iff a p n ip t in
      rw e (
        (λ h. test.0 (rw same at (guarded (same_family a ip) (contains (trunc m) ip) h))),
        (λ s.
            guard_both (same_family a ip) (contains (trunc m) ip)
              (family_test (is_ipv4 a) (is_ipv4 ip) (SamePrefix-is_ipv4 p a ip s))
              (rw same (test.1 s))),
      )
