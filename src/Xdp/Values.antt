-- ===== src/Xdp/Values.antt =====
-- src/data_plane/xdp/linux/apply/write/values.rs: the values that are written to the maps.
use xdp_firewall.Prelude.{
  ℕ, suc, ◌+◌, ◌*◌, ◌%◌, ◌^◌, ◌<◌, ◌≡◌, refl, ap, ◌∙◌, Bool, true, false, Option, none, some,
  if◌then◌else◌, ltb, List, replicate, arith, Bool-cases, Result, ok, err, expiration_overflow,
  absurd_true, zero, ◌==◌, inl, inr, sym,
}
use xdp_firewall.Prelude.Int.{ℤ, pos, negsuc}
use xdp_firewall.Net.{Chrono, ChronoLaws}
use xdp_firewall.Policy.Model.{
  XdpDynamicDefense, XdpPrefixRule, XdpDynamicRateLimit, XdpTempBan, XdpGeoPrefix, XdpCountryRule,
}
use xdp_firewall.Xdp.Encoding.{action_code, rule_source_code}

pub record DefenseValue : Type 0 where
  pub enabled : ℕ
  pub ip_rate_limit_enabled : ℕ
  pub flood_enabled : ℕ
  pub pad : ℕ
  pub ip_packets_per_second : ℕ
  pub ip_burst : ℕ
  pub flood_packets_per_second : ℕ
  pub flood_burst : ℕ
  pub flood_block_ns : ℕ

pub record RuleValue : Type 0 where
  pub action : ℕ
  pub source : ℕ
  pub pad : List ℕ
  pub priority : ℤ

pub record CustomRateValue : Type 0 where
  pub packets_per_second : ℕ
  pub burst : ℕ

pub record TempBanValue : Type 0 where
  pub expires_at_ns : ℕ

pub record GeoValue : Type 0 where
  pub country : ℕ

pub record CountryValue : Type 0 where
  pub action : ℕ

pub record TrustedValue : Type 0 where
  pub value : ℕ

-- u8::from(bool)
abbrev byte_of : Bool → ℕ
byte_of true = 1
byte_of false = 0

-- the product is one of u64
unfoldable pub defense_value : XdpDynamicDefense → DefenseValue
defense_value policy = record {
  enabled = byte_of policy.enabled;
  ip_rate_limit_enabled = byte_of policy.ip_rate_limit_enabled;
  flood_enabled = byte_of policy.flood_enabled;
  pad = 0;
  ip_packets_per_second = policy.ip_packets_per_second;
  ip_burst = policy.ip_burst;
  flood_packets_per_second = policy.flood_packets_per_second;
  flood_burst = policy.flood_burst;
  flood_block_ns = policy.flood_block_seconds * 1000000000 % 2 ^ 64;
}

unfoldable pub rule_value : XdpPrefixRule → RuleValue
unfolding action_code rule_source_code
rule_value rule = record {
  action = action_code rule.action;
  source = rule_source_code rule.source;
  pad = replicate 2 0;
  priority = rule.priority;
}

unfoldable pub custom_rate_value : XdpDynamicRateLimit → CustomRateValue
custom_rate_value limit = record {
  packets_per_second = limit.packets_per_second;
  burst = limit.burst;
}

unfoldable pub geo_value : XdpGeoPrefix → GeoValue
geo_value prefix = record { country = prefix.country }

unfoldable pub country_value : XdpCountryRule → CountryValue
unfolding action_code
country_value country = record { action = action_code country.action }

-- the part of `temp_ban_value` behind the duration; `checked_add` is one of u64
unfoldable pub ban_value_at : ℕ → Option ℤ → Result (Option TempBanValue)
ban_value_at monotonic_now_ns none = ok none
ban_value_at monotonic_now_ns (some (negsuc n)) = ok none
ban_value_at monotonic_now_ns (some (pos n)) =
    if n == 0
    then ok none
    else (if ltb (monotonic_now_ns + n) (2 ^ 64)
        then ok (some (record { expires_at_ns = monotonic_now_ns + n }))
        else err expiration_overflow)

module _ (chrono : Chrono) where
  open chrono use {DateTime, lt, nanoseconds_since}

  unfoldable pub temp_ban_value : XdpTempBan DateTime → DateTime → ℕ → Result (Option TempBanValue)
  unfolding ban_value_at
  temp_ban_value ban wall_now monotonic_now_ns =
      ban_value_at monotonic_now_ns (nanoseconds_since ban.expires_at wall_now)

-- The block time of the flood defense, a u32 number of seconds, is never cut in nanoseconds.
pub flood_block_exact :
    (policy : XdpDynamicDefense)
    → policy.flood_block_seconds < 2 ^ 32
    → (defense_value policy).flood_block_ns ≡ policy.flood_block_seconds * 1000000000
unfolding defense_value
flood_block_exact policy h = omega arith

-- A number of nanoseconds that is not negative.
abbrev pub nanoseconds : ℤ → ℕ
nanoseconds (pos n) = n
nanoseconds (negsuc n) = 0

not_positive_none :
    (now : ℕ) (d : ℤ) → (((n : ℕ) × (d ≡ pos (suc n))) → ⊥) → ban_value_at now (some d) ≡ ok none
unfolding ban_value_at
not_positive_none now (negsuc n) h = refl
not_positive_none now (pos zero) h = refl
not_positive_none now (pos (suc n)) h = absurd (h (n, refl))

positive_value :
    (now n : ℕ)
    → now + suc n < 2 ^ 64
    → ban_value_at now (some (pos (suc n))) ≡ ok (some (record { expires_at_ns = now + suc n }))
unfolding ban_value_at
positive_value now n h = ground arith

module _ (chrono : Chrono) (times : ChronoLaws chrono) where
  open chrono use {DateTime, lt, nanoseconds_since}

  -- For a ban whose rest is a number of nanoseconds within i64 and a clock below 2 ^ 63, no error is
  -- returned; the value is the clock plus the rest if the ban ends after now, and none otherwise.
  pub temp_ban_value_lem :
      (ban : XdpTempBan DateTime) (wall_now : DateTime) (monotonic_now_ns : ℕ) (d : ℤ)
      → nanoseconds_since ban.expires_at wall_now ≡ some d
      → monotonic_now_ns < 2 ^ 63
      → temp_ban_value chrono ban wall_now monotonic_now_ns
        ≡ ok (
            if lt wall_now ban.expires_at
            then some (record { expires_at_ns = monotonic_now_ns + nanoseconds d })
            else none)
  unfolding temp_ban_value
  temp_ban_value_lem ban wall_now monotonic_now_ns d span clock =
      elim (Bool-cases (lt wall_now ban.expires_at)) [
        | inl later ↦
            let (n, e) = (times.positive_iff ban.expires_at wall_now d span).0 later in
            let small = times.in_i64 ban.expires_at wall_now (suc n) (span ∙ ap some e) in
            rw later (
              ap (ban_value_at monotonic_now_ns) (span ∙ ap some e)
              ∙ positive_value monotonic_now_ns n (omega arith)
              ∙ ap (λ d. ok (some (record { expires_at_ns = monotonic_now_ns + nanoseconds d })))
                  (sym e))
        | inr over ↦
            rw (over, span)
              (not_positive_none monotonic_now_ns d
                (λ p. absurd_true ((times.positive_iff ban.expires_at wall_now d span).1 p) over))
      ]
