-- ===== src/ControlPlane/Validation/Nodes.antt =====
-- Which networks the check against the addresses of the nodes accepts.
use xdp_firewall.Prelude.{
  ℕ, ◌≡◌, refl, sym, ap, ◌∙◌, inl, inr, true, false, Bool-cases, List, [], ◌∷◌, All, if◌then◌else◌,
  ok, err_not_ok, ◌>>◌, >>=-eq-ok,
}
use xdp_firewall.Text.{Text}
use xdp_firewall.Net.{IpAddr, v4, v6, is_ipv4, SamePrefix, Ipnet, IpnetLaws}
use xdp_firewall.ControlPlane.Validation.{
  parse_node_interface_ips, reject_ips, reject_nodes, cidr_contains_ip, same_family,
}

abbrev pub Outside : (net : Ipnet) → net.IpNet → IpAddr → Type 0
Outside net cidr ip = ¬ SamePrefix (net.prefix_len cidr) (net.addr cidr) ip

-- Each text is a list of addresses, of which none is in the network.
abbrev pub Spares : (net : Ipnet) → net.IpNet → List Text → Type 0
Spares net cidr rows =
    All
      (λ interface_ips.
        (ips : List IpAddr) × (parse_node_interface_ips interface_ips ≡ ok ips)
        × All (Outside net cidr) ips)
      rows

same_prefix_family :
    (p : ℕ) (a b : IpAddr) → SamePrefix p a b → same_family (is_ipv4 a) (is_ipv4 b) ≡ true
same_prefix_family p (v4 a) (v4 b) h = refl
same_prefix_family p (v6 a) (v6 b) h = refl
same_prefix_family p (v4 a) (v6 b) h = absurd h
same_prefix_family p (v6 a) (v4 b) h = absurd h

module _ (net : Ipnet) (laws : IpnetLaws net) where
  not_contained :
      (cidr : net.IpNet) (ip : IpAddr) → cidr_contains_ip net cidr ip ≡ false → Outside net cidr ip
  unfolding cidr_contains_ip
  not_contained cidr ip h same =
      let family : same_family (net.is_v4 cidr) (is_ipv4 ip) ≡ true =
        ap (λ b. same_family b (is_ipv4 ip)) (laws.is_v4_addr cidr)
        ∙ same_prefix_family (net.prefix_len cidr) (net.addr cidr) ip same in
      let contained : net.contains cidr ip ≡ true = (laws.contains_iff cidr ip).1 same in
      let split : true ≡ false =
        sym contained ∙ sym (ap (λ b. if b then net.contains cidr ip else false) family) ∙ h in
      absurd (cc)

  reject_ips-ok :
      (cidr : net.IpNet) (ips : List IpAddr)
      → reject_ips net cidr ips ≡ ok tt
      → All (Outside net cidr) ips
  unfolding reject_ips
  reject_ips-ok cidr [] h = tt
  reject_ips-ok cidr (ip ∷ ips) h = elim (Bool-cases (cidr_contains_ip net cidr ip)) [
    | inl held ↦ absurd (err_not_ok (rw held at h))
    | inr free ↦ (not_contained cidr ip free, reject_ips-ok cidr ips (rw free at h))
  ]

  pub reject_nodes-ok :
      (cidr : net.IpNet) (rows : List Text)
      → reject_nodes net cidr rows ≡ ok tt
      → Spares net cidr rows
  unfolding reject_nodes
  reject_nodes-ok cidr [] h = tt
  reject_nodes-ok cidr (row ∷ rows) h =
      let (ips, e, h0) =
        >>=-eq-ok (parse_node_interface_ips row)
          (λ ips. reject_ips net cidr ips >> reject_nodes net cidr rows) h in
      let (u, e1, h1) = >>=-eq-ok (reject_ips net cidr ips) (λ _. reject_nodes net cidr rows) h0 in
      ((ips, e, reject_ips-ok cidr ips e1), reject_nodes-ok cidr rows h1)
