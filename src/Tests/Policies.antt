-- ===== src/Tests/Policies.antt =====
-- A small policy compiled, and rows of the database read.
use xdp_firewall.Prelude.{ℕ, ◌≡◌, refl, ◌↔◌, none, some, [], ◌∷◌, All, Any, ok, arith}
use xdp_firewall.Prelude.Int.{pos}
use xdp_firewall.Net.{v4}
use xdp_firewall.Net.Example.{nets, nets-laws, clock, Network}
use xdp_firewall.Text.{codes, trim}
use xdp_firewall.Policy.Model.{
  deny, tcp, udp, any, default_dynamic_defense, TempBanPolicy, PolicySnapshot,
  DynamicRateLimitPolicy, CompiledPolicy,
}
use xdp_firewall.Policy.Validate.{
  IsRunnable, validate_dynamic_rate_limit_policy, validate_dynamic_defense_policy,
  validate_dynamic_defense_iff,
}
use xdp_firewall.Policy.Rows.{
  DynamicRateLimitRow, DynamicDefenseRow, parse_dynamic_rate_limit, parse_protocol,
  parse_optional_port, parse_dynamic_defense,
}
use xdp_firewall.Policy.Rows.Loads.{Loads, parse_dynamic_rate_limit_iff}
use xdp_firewall.Policy.Rows.Stored.{
  IsStorable, set_dynamic_defense_fields, dynamic_defense_policy_from_model,
  dynamic_defense_roundtrip,
}
use xdp_firewall.Policy.Country.{
  normalize_country, encode_country, decode_country, decode-encode_country,
}
use xdp_firewall.Policy.Compile.{compile_policy, compile_active_temp_bans}
use xdp_firewall.Policy.Compile.Networks.{HasNetworks, compiled, compile-HasNetworks}
use xdp_firewall.Policy.Compile.Accepts.{IsCompilable, compile_policy_iff}
use xdp_firewall.Policy.Compile.ActiveBans.{
  Runs, CompiledFrom, numbered, compile_active_temp_bans_exact,
}

-- 10.1.2.3/8: the host bits are not cleared.
abbrev spelled : Network
spelled = record { address = v4 0x0a010203; len = 8 }

abbrev temp_ban : TempBanPolicy Network ℕ
temp_ban = record { cidr = spelled; protocol = any; port = none; expires_at = 200; comment = none }

abbrev snapshot : PolicySnapshot Network ℕ
snapshot = record {
  policy_name = codes "default";
  version = pos 3;
  rules =
      record {
        priority = pos 10;
        action = deny;
        cidr = spelled;
        protocol = tcp;
        port = some 22;
        comment = none;
      }
      ∷ [];
  geo_countries = record { country = codes " cn "; action = deny } ∷ [];
  geo_prefixes = record { cidr = spelled; country = codes "CN" } ∷ [];
  temp_bans = temp_ban ∷ [];
  dynamic_defense = default_dynamic_defense;
  dynamic_rate_limits =
      record {
        priority = pos 1;
        protocol = udp;
        port = some 53;
        packets_per_second = 10;
        burst = 20;
        comment = none;
      }
      ∷ [];
  trusted_cidrs = record { cidr = spelled; comment = none } ∷ [];
  threat_prefixes = [];
}

-- The clock stands at 100.
abbrev now : ℕ → ℕ
now i = 100

compile_policy_iff_example :
    ((policy : CompiledPolicy ℕ) × (compile_policy nets clock now snapshot ≡ ok policy))
    ↔ IsCompilable nets clock snapshot
compile_policy_iff_example = compile_policy_iff nets clock now snapshot

abbrev result : CompiledPolicy ℕ
result =
    compiled nets clock now snapshot (record { country = 17230; action = deny } ∷ [])
      (record { addr = v4 0x0a000000; prefix = 8; country = 17230 } ∷ [])

compiles : compile_policy nets clock now snapshot ≡ ok result
unfolding compile_policy validate_dynamic_defense_policy default_dynamic_defense
    validate_dynamic_rate_limit_policy encode_country trim
compiles = refl

compile-HasNetworks_example : HasNetworks result
compile-HasNetworks_example = compile-HasNetworks nets clock nets-laws now snapshot result compiles

china : normalize_country (codes " cn ") ≡ ok (codes "CN")
unfolding normalize_country trim
china = refl

decode-encode_country_example :
    (n : ℕ) × (encode_country (codes " cn ") ≡ ok n) × (decode_country n ≡ ok (codes "CN"))
decode-encode_country_example = decode-encode_country (codes " cn ") china

validate_dynamic_defense_iff_example :
    (validate_dynamic_defense_policy default_dynamic_defense ≡ ok tt)
    ↔ IsRunnable default_dynamic_defense
validate_dynamic_defense_iff_example = validate_dynamic_defense_iff default_dynamic_defense

compile_active_temp_bans_exact_example :
    All
      (λ b.
        Any
          (λ p. Runs nets clock now p × CompiledFrom nets clock p.1 b)
          (numbered nets clock 0 (temp_ban ∷ [])))
      (compile_active_temp_bans nets clock now (temp_ban ∷ []))
    × All
        (λ p.
          Runs nets clock now p
          → Any
              (CompiledFrom nets clock p.1)
              (compile_active_temp_bans nets clock now (temp_ban ∷ [])))
        (numbered nets clock 0 (temp_ban ∷ []))
compile_active_temp_bans_exact_example =
    compile_active_temp_bans_exact nets clock now (temp_ban ∷ [])

abbrev limit_row : DynamicRateLimitRow
limit_row = record {
  priority = pos 1;
  protocol = codes "Udp";
  port = some (pos 53);
  packets_per_second = pos 10;
  burst = pos 20;
  comment = none;
}

abbrev limit : DynamicRateLimitPolicy
limit = record {
  priority = pos 1;
  protocol = udp;
  port = some 53;
  packets_per_second = 10;
  burst = 20;
  comment = none;
}

limit_loads : parse_dynamic_rate_limit limit_row ≡ ok limit
unfolding parse_dynamic_rate_limit parse_protocol parse_optional_port
    validate_dynamic_rate_limit_policy
limit_loads = refl

parse_dynamic_rate_limit_iff_example :
    (parse_dynamic_rate_limit limit_row ≡ ok limit) ↔ Loads limit_row limit
parse_dynamic_rate_limit_iff_example = parse_dynamic_rate_limit_iff limit_row limit

default-IsStorable : IsStorable default_dynamic_defense
unfolding default_dynamic_defense
default-IsStorable = record {
  ip_packets_per_second = ground arith;
  ip_burst = ground arith;
  flood_packets_per_second = ground arith;
  flood_burst = ground arith;
  flood_block_seconds = ground arith;
}

dynamic_defense_roundtrip_example :
    (row : DynamicDefenseRow) × (set_dynamic_defense_fields default_dynamic_defense ≡ ok row)
    × (parse_dynamic_defense row ≡ ok default_dynamic_defense)
    × (dynamic_defense_policy_from_model row ≡ ok default_dynamic_defense)
dynamic_defense_roundtrip_example =
    dynamic_defense_roundtrip default_dynamic_defense default-IsStorable
