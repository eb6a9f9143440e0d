-- ===== src/Btmp/Config.antt =====
-- tools/btmp-monitor/src/config.rs
use xdp_firewall.Prelude.{
  ℕ, Bool, true, false, not, ◌&&◌, ◌||◌, Option, none, some, List, [], ◌∷◌, ltb, leb, ◌==◌,
  if◌then◌else◌, Result, ok, err, out_of_range, not_set, unsupported_protocol, ◌>>◌,
}
use xdp_firewall.Prelude.Int.{ℤ, pos, negsuc}
use xdp_firewall.Text.{Text, codes, text_eq, trim}

pub record BanConfig : Type 0 where
  pub threshold : ℕ
  pub window_seconds : ℕ
  pub duration_seconds : ℤ
  pub protocol : Text
  pub port : ℤ
  pub comment : Text

pub record MonitorConfig (IpNet : Type 0) : Type 0 where
  pub btmp_path : Text
  pub trusted_cidrs : List IpNet

pub record Config (IpNet : Type 0) : Type 0 where
  pub api_url : Text
  pub api_token : Text
  pub ban : BanConfig
  pub monitor : MonitorConfig IpNet

abbrev pub max_temp_ban_seconds : ℕ
max_temp_ban_seconds = 31536000

-- `(1..=high).contains(&value)`
abbrev pub in_range : ℕ → ℤ → Bool
in_range high (pos n) = leb 1 n && leb n high
in_range high (negsuc n) = false

abbrev pub is_zero : ℤ → Bool
is_zero (pos n) = n == 0
is_zero (negsuc n) = false

abbrev pub is_empty : Text → Bool
is_empty [] = true
is_empty (c ∷ s) = false

-- the match on the protocol
unfoldable pub validate_protocol : BanConfig → Result (Unit {0})
validate_protocol ban =
    if text_eq ban.protocol (codes "any")
    then (if is_zero ban.port then ok tt else err (out_of_range "port"))
    else if text_eq ban.protocol (codes "tcp") || text_eq ban.protocol (codes "udp")
    then (if in_range 65535 ban.port then ok tt else err (out_of_range "port"))
    else err unsupported_protocol

unfoldable pub validate : {IpNet : Type 0} → Config IpNet → Result (Unit {0})
unfolding validate_protocol
validate config =
    if is_empty config.api_url
    then err (not_set "api-url")
    else if ltb config.ban.threshold 1
    then err (out_of_range "threshold")
    else if config.ban.window_seconds == 0
    then err (out_of_range "window-seconds")
    else if not (in_range max_temp_ban_seconds config.ban.duration_seconds)
    then err (out_of_range "duration-seconds")
    else validate_protocol config.ban
      >> (if is_empty (trim config.monitor.btmp_path) then err (not_set "btmp-path") else ok tt)

unfoldable pub ban_port : {IpNet : Type 0} → Config IpNet → Option ℤ
ban_port config = if text_eq config.ban.protocol (codes "any") then none else some config.ban.port
