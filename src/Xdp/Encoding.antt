-- ===== src/Xdp/Encoding.antt =====
-- src/data_plane/xdp/encoding.rs, encoding/abi.rs, encoding/codes.rs and encoding/keys.rs: the
-- keys, the ids and the codes of the maps that the XDP program reads. `to_be` is that of a
-- little-endian machine.
pub mod Keys
use xdp_firewall.Prelude.{
  ℕ, zero, suc, ◌+◌, ◌-◌, ◌*◌, ◌/◌, ◌%◌, ◌^◌, Bool, true, false, ◌&&◌, List, [], ◌∷◌, ◌++◌, ◌==◌,
  if◌then◌else◌, take, replicate,
}
use xdp_firewall.Net.{IpAddr, v4, v6, is_ipv4}
use xdp_firewall.Policy.Model.{
  RuleAction, allow, deny, L4Protocol, any, tcp, udp, icmp, XdpRuleSource, firewall_rule,
  threat_intel,
}

-- `octets()`: the last `count` bytes of a number, the first byte first
abbrev pub octets : ℕ → ℕ → List ℕ
octets zero n = []
octets (suc k) n = (n / 256 ^ k % 256) ∷ octets k n

-- the number of a list of bytes, behind the number `acc`
abbrev pub number : ℕ → List ℕ → ℕ
number acc [] = acc
number acc (b ∷ bs) = number (acc * 256 + b) bs

-- `bytes` starts as 16 zeros
unfoldable pub addr_bytes : IpAddr → List ℕ
addr_bytes (v4 a) = octets 4 a ++ replicate 12 0
addr_bytes (v6 a) = octets 16 a

unfoldable pub map_addr : ℕ → List ℕ → IpAddr
map_addr family addr = if family == 4 then v4 (number 0 (take 4 addr)) else v6 (number 0 addr)

unfoldable pub action_code : RuleAction → ℕ
action_code allow = 1
action_code deny = 2

unfoldable pub rule_source_code : XdpRuleSource → ℕ
rule_source_code firewall_rule = 1
rule_source_code threat_intel = 2

abbrev pub proto_code : L4Protocol → ℕ
proto_code any = 0
proto_code tcp = 6
proto_code udp = 17
proto_code icmp = 1

unfoldable pub rule_source_order : XdpRuleSource → ℕ
rule_source_order threat_intel = 0
rule_source_order firewall_rule = 1

-- u16::to_be: the two bytes swapped
abbrev pub to_be : ℕ → ℕ
to_be port = port % 256 * 256 + port / 256 % 256

abbrev pub lpm_prefix_len : ℕ → ℕ
lpm_prefix_len prefix = 32 + prefix

abbrev pub family_of : IpAddr → ℕ
family_of addr = if is_ipv4 addr then 4 else 6

-- aya's LpmKey with RuleData, and the same shape with TempBanData
pub record RuleKey : Type 0 where
  pub prefix_len : ℕ
  pub family : ℕ
  pub proto : ℕ
  pub dport : ℕ
  pub addr : List ℕ

-- LpmKey with GeoData, and the same shape with TrustedData; `pad` is always zero
pub record GeoKey : Type 0 where
  pub prefix_len : ℕ
  pub family : ℕ
  pub addr : List ℕ

pub record CustomRateKey : Type 0 where
  pub proto : ℕ
  pub dport : ℕ

abbrev pub rule_key : IpAddr → ℕ → L4Protocol → ℕ → RuleKey
rule_key addr prefix protocol port = record {
  prefix_len = lpm_prefix_len prefix;
  family = family_of addr;
  proto = proto_code protocol;
  dport = to_be port;
  addr = addr_bytes addr;
}

abbrev pub temp_ban_key : IpAddr → ℕ → L4Protocol → ℕ → RuleKey
temp_ban_key addr prefix protocol port = record {
  prefix_len = lpm_prefix_len prefix;
  family = family_of addr;
  proto = proto_code protocol;
  dport = to_be port;
  addr = addr_bytes addr;
}

abbrev pub geo_key : IpAddr → ℕ → GeoKey
geo_key addr prefix = record {
  prefix_len = lpm_prefix_len prefix;
  family = family_of addr;
  addr = addr_bytes addr;
}

abbrev pub trusted_key : IpAddr → ℕ → GeoKey
trusted_key addr prefix = record {
  prefix_len = lpm_prefix_len prefix;
  family = family_of addr;
  addr = addr_bytes addr;
}

abbrev pub custom_rate_key : L4Protocol → ℕ → CustomRateKey
custom_rate_key protocol port = record { proto = proto_code protocol; dport = to_be port }

abbrev pub country_key : ℕ → ℕ
country_key country = country

-- The ids are the tuples of the keys' fields.
abbrev pub RuleId : Type 0
RuleId = ℕ × ℕ × ℕ × ℕ × List ℕ

abbrev pub GeoId : Type 0
GeoId = ℕ × ℕ × List ℕ

abbrev pub CustomRateId : Type 0
CustomRateId = ℕ × ℕ

abbrev pub rule_key_id : RuleKey → RuleId
rule_key_id key = (key.prefix_len, key.family, key.proto, key.dport, key.addr)

abbrev pub temp_ban_key_id : RuleKey → RuleId
temp_ban_key_id key = (key.prefix_len, key.family, key.proto, key.dport, key.addr)

abbrev pub geo_key_id : GeoKey → GeoId
geo_key_id key = (key.prefix_len, key.family, key.addr)

abbrev pub trusted_key_id : GeoKey → GeoId
trusted_key_id key = (key.prefix_len, key.family, key.addr)

abbrev pub custom_rate_key_id : CustomRateKey → CustomRateId
custom_rate_key_id key = (key.proto, key.dport)

-- `==` on arrays and on the tuples
abbrev pub bytes_eq : List ℕ → List ℕ → Bool
bytes_eq [] [] = true
bytes_eq (a ∷ s) (b ∷ t) = a == b && bytes_eq s t
bytes_eq _ _ = false

unfoldable pub rule_id_eq : RuleId → RuleId → Bool
rule_id_eq a b = a.0 == b.0 && a.1 == b.1 && a.2 == b.2 && a.3 == b.3 && bytes_eq a.4 b.4

unfoldable pub geo_id_eq : GeoId → GeoId → Bool
geo_id_eq a b = a.0 == b.0 && a.1 == b.1 && bytes_eq a.2 b.2

unfoldable pub custom_rate_id_eq : CustomRateId → CustomRateId → Bool
custom_rate_id_eq a b = a.0 == b.0 && a.1 == b.1
