-- ===== src/Policy/Rows.antt =====
-- The rows of the database as the values of the model: src/policy/firewall/parse.rs,
-- parse/common.rs and src/db/scalars.rs, with the columns of src/db/entities that they read. i32 is
-- an integer; a network is read by ipnet.
pub mod Loads
pub mod Stored
use xdp_firewall.Prelude.{
  ℕ, ◌^◌, ◌||◌, Bool, Option, none, some, ltb, if◌then◌else◌, String, Result, ok, err,
  unsupported_action, unsupported_protocol, out_of_range, invalid_cidr, transpose_map, ◌>>=◌, ◌>>◌,
}
use xdp_firewall.Prelude.Int.{ℤ, pos, negsuc}
use xdp_firewall.Text.{Text, codes, text_eq, to_ascii_lowercase}
use xdp_firewall.Net.{Ipnet}
use xdp_firewall.Policy.Model.{
  RuleAction, allow, deny, L4Protocol, any, tcp, udp, icmp, FirewallRule, DynamicDefensePolicy,
  DynamicRateLimitPolicy, TempBanPolicy, TrustedCidrPolicy,
}
use xdp_firewall.Policy.Validate.{validate_dynamic_rate_limit_policy, validate_temp_ban_policy}

abbrev pub i32_to_u32 : String → ℤ → Result ℕ
i32_to_u32 label (pos n) = ok n
i32_to_u32 label (negsuc n) = err (out_of_range label)

abbrev pub optional_i32_to_u32 : String → Option ℤ → Result (Option ℕ)
optional_i32_to_u32 label value = transpose_map (i32_to_u32 label) value

-- i32::try_from of a u32
abbrev pub i32_try_from : String → ℕ → Result ℤ
i32_try_from label n = if ltb n (2 ^ 31) then ok (pos n) else err (out_of_range label)

abbrev pub optional_u32_to_i32 : String → Option ℕ → Result (Option ℤ)
optional_u32_to_i32 label value = transpose_map (i32_try_from label) value

-- u16::try_from of an i32
abbrev pub u16_try_from : String → ℤ → Result ℕ
u16_try_from label (pos n) = if ltb n (2 ^ 16) then ok n else err (out_of_range label)
u16_try_from label (negsuc n) = err (out_of_range label)

unfoldable pub parse_optional_port : Option ℤ → String → Result (Option ℕ)
parse_optional_port value label = transpose_map (u16_try_from label) value

unfoldable pub parse_protocol : Text → Result L4Protocol
parse_protocol value =
    let value = to_ascii_lowercase value in
    if text_eq value (codes "any")
    then ok any
    else if text_eq value (codes "tcp")
    then ok tcp
    else if text_eq value (codes "udp")
    then ok udp
    else if text_eq value (codes "icmp")
    then ok icmp
    else err unsupported_protocol

-- The columns of dynamic_rate_limit::Model that are read.
pub record DynamicRateLimitRow : Type 0 where
  pub priority : ℤ
  pub protocol : Text
  pub port : Option ℤ
  pub packets_per_second : ℤ
  pub burst : ℤ
  pub comment : Option Text

unfoldable pub parse_dynamic_rate_limit : DynamicRateLimitRow → Result DynamicRateLimitPolicy
unfolding parse_protocol parse_optional_port validate_dynamic_rate_limit_policy
parse_dynamic_rate_limit row = do
  protocol ← parse_protocol row.protocol
  port ← parse_optional_port row.port "dynamic rate limit port"
  packets_per_second ← i32_to_u32 "dynamic rate limit packets_per_second" row.packets_per_second
  burst ← i32_to_u32 "dynamic rate limit burst" row.burst
  let policy : DynamicRateLimitPolicy = record {
    priority = row.priority;
    protocol = protocol;
    port = port;
    packets_per_second = packets_per_second;
    burst = burst;
    comment = row.comment;
  }
  validate_dynamic_rate_limit_policy policy
  ok policy

-- The columns of dynamic_defense::Model that are read.
pub record DynamicDefenseRow : Type 0 where
  pub enabled : Bool
  pub ip_rate_limit_enabled : Bool
  pub ip_packets_per_second : Option ℤ
  pub ip_burst : Option ℤ
  pub flood_enabled : Bool
  pub flood_packets_per_second : Option ℤ
  pub flood_burst : Option ℤ
  pub flood_block_seconds : Option ℤ

unfoldable pub parse_dynamic_defense : DynamicDefenseRow → Result DynamicDefensePolicy
parse_dynamic_defense row = do
  ip_pps ← optional_i32_to_u32 "dynamic defense ip_packets_per_second" row.ip_packets_per_second
  ip_burst ← optional_i32_to_u32 "dynamic defense ip_burst" row.ip_burst
  flood_pps ←
      optional_i32_to_u32 "dynamic defense flood_packets_per_second" row.flood_packets_per_second
  flood_burst ← optional_i32_to_u32 "dynamic defense flood_burst" row.flood_burst
  flood_block ← optional_i32_to_u32 "dynamic defense flood_block_seconds" row.flood_block_seconds
  ok (record {
    enabled = row.enabled;
    ip_rate_limit_enabled = row.ip_rate_limit_enabled;
    ip_packets_per_second = ip_pps;
    ip_burst = ip_burst;
    flood_enabled = row.flood_enabled;
    flood_packets_per_second = flood_pps;
    flood_burst = flood_burst;
    flood_block_seconds = flood_block;
  })

-- The columns of temp_ban::Model.
pub record TempBanRow (DateTime : Type 0) : Type 0 where
  pub id : ℤ
  pub policy_name : Text
  pub cidr : Text
  pub protocol : Text
  pub port : Option ℤ
  pub expires_at : DateTime
  pub comment : Option Text
  pub created_at : DateTime

module _ (net : Ipnet) (parse : Text → Option net.IpNet) where
  open net use {IpNet}

  -- `str::parse::<IpNet>` of a text that is not a literal
  abbrev pub parse_cidr : String → Text → Result IpNet
  parse_cidr label value = elim (parse value) [
    | none ↦ err (invalid_cidr label)
    | some cidr ↦ ok cidr
  ]

  unfoldable pub parse_temp_ban :
      {DateTime : Type 0} → TempBanRow DateTime → Result (TempBanPolicy IpNet DateTime)
  unfolding parse_protocol parse_optional_port validate_temp_ban_policy
  parse_temp_ban {DateTime} row = do
    cidr ← parse_cidr "temporary ban" row.cidr
    protocol ← parse_protocol row.protocol
    port ← parse_optional_port row.port "temporary ban port"
    let policy : TempBanPolicy IpNet DateTime = record {
      cidr = cidr;
      protocol = protocol;
      port = port;
      expires_at = row.expires_at;
      comment = row.comment;
    }
    validate_temp_ban_policy policy
    ok policy
