-- ===== src/Xdp/Local.antt =====
-- src/data_plane/xdp/local.rs and local/compaction.rs: covered entries are dropped before the maps
-- are written, and rules that would block the agent's own interface are found.
pub mod Truncation
pub mod TrustedCoverage
pub mod BanCoverage
pub mod Safety
use xdp_firewall.Prelude.{
  ℕ, Bool, false, true, not, ◌&&◌, ◌||◌, Option, none, some, List, [], ◌∷◌, ltb, ◌==◌,
  if◌then◌else◌,
}
use xdp_firewall.Net.{IpAddr, is_ipv4, addr_eq, Ipnet, Chrono}
use xdp_firewall.Compaction.{compact}
use xdp_firewall.Policy.Model.{
  RuleAction, allow, deny, protocol_eq, XdpTrustedPrefix, XdpPrefixRule, XdpTempBan,
}

-- LocalInterfaceCidr of src/data_plane/xdp/local/interface.rs
pub record LocalInterfaceCidr : Type 0 where
  pub ip : IpAddr
  pub prefix : ℕ

-- the derived `==` of XdpTrustedPrefix
abbrev pub trusted_eq : XdpTrustedPrefix → XdpTrustedPrefix → Bool
trusted_eq a b = addr_eq a.addr b.addr && a.prefix == b.prefix

abbrev same_family : IpAddr → IpAddr → Bool
same_family a b = if is_ipv4 a then is_ipv4 b else not (is_ipv4 b)

abbrev pub is_deny : RuleAction → Bool
is_deny deny = true
is_deny allow = false

-- `iter().find(..)`
find_local : (IpAddr → Bool) → List LocalInterfaceCidr → Option LocalInterfaceCidr
find_local test [] = none
find_local test (local ∷ locals) =
    let rest = find_local test locals in if test local.ip then some local else rest

module _ (net : Ipnet) where
  open net use {IpNet, new, is_v4, network, trunc, contains}

  contains_truncated : Option IpNet → IpAddr → Bool
  contains_truncated none ip = false
  contains_truncated (some n) ip = contains (trunc n) ip

  unfoldable pub prefix_contains_ip : IpAddr → ℕ → IpAddr → Bool
  unfolding contains_truncated
  prefix_contains_ip addr prefix ip =
      if not (same_family addr ip) then false else contains_truncated (new addr prefix) ip

  -- `trusted_prefix_ipnet` and `temp_ban_ipnet`
  abbrev pub truncated : IpAddr → ℕ → Option IpNet
  truncated addr prefix = elim (new addr prefix) [ none ↦ none | some n ↦ some (trunc n) ]

  -- the match on the two variants
  abbrev pub network_in : IpNet → IpNet → Bool
  network_in cover inner =
      (if is_v4 cover then is_v4 inner else not (is_v4 inner)) && contains cover (network inner)

  -- the two `let … else`
  abbrev pub both_in : Option IpNet → Option IpNet → Bool
  both_in none inner = false
  both_in (some cover) none = false
  both_in (some cover) (some inner) = network_in cover inner

  pub trusted_prefix_covers : XdpTrustedPrefix → XdpTrustedPrefix → Bool
  trusted_prefix_covers cover prefix =
      if trusted_eq cover prefix || ltb prefix.prefix cover.prefix
      then false
      else both_in (truncated cover.addr cover.prefix) (truncated prefix.addr prefix.prefix)

  unfoldable pub compact_trusted_prefixes : List XdpTrustedPrefix → List XdpTrustedPrefix
  unfolding trusted_prefix_covers
  compact_trusted_prefixes prefixes = compact trusted_prefix_covers prefixes

  unfoldable pub deny_rule_matching_local_cidr :
      XdpPrefixRule → List LocalInterfaceCidr → Option LocalInterfaceCidr
  unfolding find_local
  deny_rule_matching_local_cidr rule local_cidrs =
      if not (is_deny rule.action)
      then none
      else find_local (prefix_contains_ip rule.addr rule.prefix) local_cidrs

  module _ (chrono : Chrono) where
    open chrono use {DateTime, lt}

    unfoldable pub temp_ban_matching_local_cidr :
        XdpTempBan DateTime → List LocalInterfaceCidr → Option LocalInterfaceCidr
    unfolding find_local
    temp_ban_matching_local_cidr ban local_cidrs =
        find_local (prefix_contains_ip ban.addr ban.prefix) local_cidrs

    pub temp_ban_covers_or_supersedes : XdpTempBan DateTime → XdpTempBan DateTime → Bool
    temp_ban_covers_or_supersedes cover ban =
        if not (protocol_eq cover.protocol ban.protocol) || not (cover.port == ban.port)
        then false
        else if addr_eq cover.addr ban.addr && cover.prefix == ban.prefix
        then lt ban.expires_at cover.expires_at
        else if ltb ban.prefix cover.prefix || lt cover.expires_at ban.expires_at
        then false
        else both_in (truncated cover.addr cover.prefix) (truncated ban.addr ban.prefix)

    unfoldable pub compact_temp_bans : List (XdpTempBan DateTime) → List (XdpTempBan DateTime)
    unfolding temp_ban_covers_or_supersedes
    compact_temp_bans bans = compact temp_ban_covers_or_supersedes bans
