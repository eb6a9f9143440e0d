-- ===== src/Xdp/Local/Safety.antt =====
-- The tests against the addresses of the agent's interface find every entry that holds one.
use xdp_firewall.Prelude.{
  ℕ, ◌≤◌, ◌≡◌, inl, inr, Bool, false, true, List, [], ◌∷◌, arith, All, Bool-cases,
}
use xdp_firewall.Net.{IpAddr, width, Ipnet, IpnetLaws, SamePrefix, Chrono}
use xdp_firewall.Policy.Model.{deny, XdpPrefixRule, XdpTempBan}
use xdp_firewall.Policy.Validate.{is_some}
use xdp_firewall.Xdp.Local.{
  LocalInterfaceCidr, find_local, is_deny, prefix_contains_ip, deny_rule_matching_local_cidr,
  temp_ban_matching_local_cidr,
}
use xdp_firewall.Xdp.Local.Truncation.{prefix_contains_ip_iff}

find_local-none :
    (test : IpAddr → Bool) (locals : List LocalInterfaceCidr)
    → is_some (find_local test locals) ≡ false
    → All (λ (l : LocalInterfaceCidr). test l.ip ≡ false) locals
unfolding find_local
find_local-none test [] h = tt
find_local-none test (l ∷ ls) h = elim (Bool-cases (test l.ip)) [
  | inl hit ↦ absurd (ground (arith, hit))
  | inr miss ↦ (miss, find_local-none test ls (ground (arith, miss)))
]

-- The networks hold none of the interface's addresses.
abbrev pub Avoids : IpAddr → ℕ → List LocalInterfaceCidr → Type 0
Avoids addr prefix locals = All (λ (l : LocalInterfaceCidr). ¬ SamePrefix prefix addr l.ip) locals

module _ (net : Ipnet) (laws : IpnetLaws net) where
  All-avoid :
      (addr : IpAddr) (prefix : ℕ)
      → prefix ≤ width addr
      → (locals : List LocalInterfaceCidr)
      → All (λ (l : LocalInterfaceCidr). prefix_contains_ip net addr prefix l.ip ≡ false) locals
      → Avoids addr prefix locals
  All-avoid addr prefix fits [] h = tt
  All-avoid addr prefix fits (l ∷ ls) h = (
    (λ s. let e = (prefix_contains_ip_iff net laws addr prefix l.ip fits).1 s in cc (h.0)),
    All-avoid addr prefix fits ls h.1,
  )

  -- A deny rule for which no interface address is found holds none.
  pub deny_rule-Avoids :
      (rule : XdpPrefixRule) (locals : List LocalInterfaceCidr)
      → rule.prefix ≤ width rule.addr
      → rule.action ≡ deny
      → is_some (deny_rule_matching_local_cidr net rule locals) ≡ false
      → Avoids rule.addr rule.prefix locals
  unfolding deny_rule_matching_local_cidr
  deny_rule-Avoids rule locals fits d h = All-avoid rule.addr rule.prefix fits locals (
      find_local-none (prefix_contains_ip net rule.addr rule.prefix) locals
        (let denies : is_deny rule.action ≡ true = rw d in ground (arith, denies)))

  pub temp_ban-Avoids :
      (chrono : Chrono) (ban : XdpTempBan chrono.DateTime) (locals : List LocalInterfaceCidr)
      → ban.prefix ≤ width ban.addr
      → is_some (temp_ban_matching_local_cidr net chrono ban locals) ≡ false
      → Avoids ban.addr ban.prefix locals
  unfolding temp_ban_matching_local_cidr
  temp_ban-Avoids chrono ban locals fits h =
      All-avoid ban.addr ban.prefix fits locals
        (find_local-none (prefix_contains_ip net ban.addr ban.prefix) locals h)
