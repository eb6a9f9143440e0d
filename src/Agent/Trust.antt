-- ===== src/Agent/Trust.antt =====
-- src/agent/policy_apply.rs and src/agent/policy_apply/control_plane_trust.rs: the agent always trusts
-- a control plane that it is given by address. The parsing of the URL is left out: its host, read as
-- an address, is an argument.
pub mod Latest
use xdp_firewall.Prelude.{
  ℕ, ◌≤◌, ◌≡◌, refl, sym, ap, subst, ◌∙◌, ◌↔◌, inl, inr, Bool, true, false, Option, none, some,
  List, [], ◌∷◌, ◌++◌, map, if◌then◌else◌, arith, All, Any, Bool-cases, Result, ok, err,
  invalid_cidr, ◌>>=◌, >>=-eq-ok,
}
use xdp_firewall.Net.{IpAddr, width, SamePrefix, Ipnet, IpnetLaws, Chrono}
use xdp_firewall.Net.Prefix.{SamePrefix-refl, SamePrefix-symm}
use xdp_firewall.Text.{codes}
use xdp_firewall.Dedup.{contains_key}
use xdp_firewall.Policy.Model.{PolicySnapshot, TrustedCidrPolicy, CompiledPolicy, XdpTrustedPrefix}
use xdp_firewall.Policy.Compile.{compile_policy, compile_trusted_prefixes}
use xdp_firewall.Policy.Compile.Networks.{compile_policy-parts, compile-HasNetworks}
use xdp_firewall.Xdp.Local.{compact_trusted_prefixes}
use xdp_firewall.Xdp.Local.TrustedCoverage.{Trusts, compact_trusted_coverage}

module _ (net : Ipnet) where
  open net use {IpNet, new, net_eq}

  pub or_invalid : Option IpNet → Result IpNet
  or_invalid none = err (invalid_cidr "xDS control-plane CIDR")
  or_invalid (some cidr) = ok cidr

  unfoldable pub ip_literal_prefix : IpAddr → Result IpNet
  unfolding or_invalid
  ip_literal_prefix ip = or_invalid (new ip (width ip))

  -- a host that is no address literal gives no prefix
  unfoldable pub resolve_control_plane_prefixes : Option IpAddr → Result (List IpNet)
  unfolding ip_literal_prefix
  resolve_control_plane_prefixes none = ok []
  resolve_control_plane_prefixes (some ip) = do cidr ← ip_literal_prefix ip; ok (cidr ∷ [])

  module _ {DateTime : Type 0} where
    unfoldable pub add_control_plane_trusted_cidr :
        PolicySnapshot IpNet DateTime → IpNet → PolicySnapshot IpNet DateTime
    add_control_plane_trusted_cidr snapshot cidr =
        if contains_key net_eq (map (λ trusted. trusted.cidr) snapshot.trusted_cidrs) cidr
        then snapshot
        else record snapshot {
          trusted_cidrs =
              snapshot.trusted_cidrs
              ++ (record { cidr = cidr; comment = some (codes "local xDS control-plane allow") }
                  ∷ []);
        }

    -- the loop over the prefixes
    pub add_each : PolicySnapshot IpNet DateTime → List IpNet → PolicySnapshot IpNet DateTime
    unfolding add_control_plane_trusted_cidr
    add_each snapshot [] = snapshot
    add_each snapshot (cidr ∷ cidrs) = add_each (add_control_plane_trusted_cidr snapshot cidr) cidrs

    unfoldable pub add_control_plane_trusted_cidrs :
        PolicySnapshot IpNet DateTime → Option IpAddr → Result (PolicySnapshot IpNet DateTime)
    unfolding resolve_control_plane_prefixes add_each
    add_control_plane_trusted_cidrs snapshot host = do
      prefixes ← resolve_control_plane_prefixes host
      ok (add_each snapshot prefixes)
