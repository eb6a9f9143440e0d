-- ===== src/Xds/RuntimeCidrs.antt =====
-- src/control_plane/xds/runtime_cidrs.rs, runtime_cidrs/compaction.rs and runtime_cidrs/snapshot.rs:
-- the trusted CIDRs that the control plane adds to a policy at run time, from its configuration and
-- from Kubernetes. The log messages are left out.
pub mod Cover
pub mod Coverage
use xdp_firewall.Prelude.{
  ℕ, ◌+◌, ◌-◌, Bool, false, true, not, ◌||◌, Option, none, some, List, [], ◌∷◌, ◌++◌, map, ltb,
  if◌then◌else◌, length, retain,
}
use xdp_firewall.Net.{Ipnet}
use xdp_firewall.Text.{Text, codes}
use xdp_firewall.Compaction.{compact}
use xdp_firewall.Dedup.{contains_key, unique_from}
use xdp_firewall.Dedup.Members.{own}
use xdp_firewall.Policy.Model.{PolicySnapshot, TrustedCidrPolicy}
use xdp_firewall.Xdp.Local.{network_in}

pub record CidrCompaction (IpNet : Type 0) : Type 0 where
  pub cidrs : List IpNet
  pub covered : ℕ

pub record RuntimeTrustedCidrSnapshot (IpNet : Type 0) : Type 0 where
  pub configured : List IpNet
  pub all : List IpNet
  pub inject : List IpNet
  pub covered : ℕ

abbrev pub is_empty : {A : Type 0} → List A → Bool
is_empty [] = true
is_empty (x ∷ xs) = false

module _ (net : Ipnet) where
  open net use {IpNet, prefix_len, net_eq}

  pub cidr_covers : IpNet → IpNet → Bool
  cidr_covers cover cidr =
      if net_eq cover cidr || ltb (prefix_len cidr) (prefix_len cover)
      then false
      else network_in net cover cidr

  -- the subtraction is `saturating_sub`
  unfoldable pub compact_covered_cidrs : List IpNet → CidrCompaction IpNet
  unfolding compact cidr_covers
  compact_covered_cidrs cidrs =
      let compacted = compact cidr_covers cidrs in
      record { cidrs = compacted; covered = length cidrs - length compacted }

  -- RuntimeTrustedCidrs::current_snapshot; the second argument is the content of the discovery cache,
  -- `none` without Kubernetes discovery
  unfoldable pub current_snapshot :
      List IpNet → Option (List IpNet) → RuntimeTrustedCidrSnapshot IpNet
  unfolding unique_from compact_covered_cidrs
  current_snapshot cidrs none =
      let configured = compact_covered_cidrs (unique_from net_eq (own net_eq) [] cidrs).1 in
      record {
        configured = configured.cidrs;
        all = configured.cidrs;
        inject = configured.cidrs;
        covered = configured.covered;
      }
  current_snapshot cidrs (some cached) =
      let first = unique_from net_eq (own net_eq) [] cidrs in
      let configured = compact_covered_cidrs first.1 in
      let all =
        compact_covered_cidrs (first.1 ++ (unique_from net_eq (own net_eq) first.0 cached).1) in
      record {
        configured = configured.cidrs;
        all = all.cidrs;
        inject = all.cidrs;
        covered = all.covered;
      }

  module _ {DateTime : Type 0} where
    abbrev pub static_cidrs : PolicySnapshot IpNet DateTime → List IpNet
    static_cidrs snapshot = map (λ trusted. trusted.cidr) snapshot.trusted_cidrs

    unfoldable pub compact_runtime_trusted_cidrs_with_snapshot :
        PolicySnapshot IpNet DateTime
        → RuntimeTrustedCidrSnapshot IpNet
        → RuntimeTrustedCidrSnapshot IpNet
    unfolding compact_covered_cidrs retain
    compact_runtime_trusted_cidrs_with_snapshot snapshot runtime =
        let static = static_cidrs snapshot in
        let compacted = compact_covered_cidrs (static ++ runtime.all) in
        let effective = retain (λ cidr. not (contains_key net_eq static cidr)) compacted.cidrs in
        if is_empty runtime.all || is_empty static then runtime else record {
          configured = runtime.configured;
          all = effective;
          inject = effective;
          covered = runtime.covered + (length runtime.all - length effective);
        }

    unfoldable pub inject_runtime_trusted_cidrs :
        PolicySnapshot IpNet DateTime → List IpNet → PolicySnapshot IpNet DateTime
    unfolding unique_from
    inject_runtime_trusted_cidrs snapshot cidrs = record snapshot {
      trusted_cidrs =
          snapshot.trusted_cidrs
          ++ map (λ cidr. record { cidr = cidr; comment = some (codes "runtime xDS trusted CIDR") })
              (unique_from net_eq (own net_eq) (static_cidrs snapshot) cidrs).1;
    }

    -- the part behind the load of the snapshot from the database, which is the argument
    unfoldable pub load_policy_snapshot :
        PolicySnapshot IpNet DateTime
        → RuntimeTrustedCidrSnapshot IpNet
        → PolicySnapshot IpNet DateTime
    unfolding compact_runtime_trusted_cidrs_with_snapshot inject_runtime_trusted_cidrs
    load_policy_snapshot snapshot runtime =
        inject_runtime_trusted_cidrs snapshot
          (compact_runtime_trusted_cidrs_with_snapshot snapshot runtime).inject
