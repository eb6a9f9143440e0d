-- ===== src/Btmp/Monitor/Items.antt =====
-- What an item of Monitor::run_once bans, tools/btmp-monitor/src/monitor.rs.
use xdp_firewall.Prelude.{◌≡◌, refl, true, false, Option, none, some}
use xdp_firewall.Prelude.Int.{ℤ}
use xdp_firewall.Text.{codes, text_eq}
use xdp_firewall.Net.{IpAddr, v4, v6, Ipnet}
use xdp_firewall.Net.Display.{print_decimal}
use xdp_firewall.Net.Display.Printed.{single_host}
use xdp_firewall.Btmp.Config.{BanConfig, Config, ban_port}
use xdp_firewall.Btmp.Api.{CreateTempBanItem}
use xdp_firewall.Btmp.Monitor.{Candidate, ip_cidr, item_of}

-- The port of a ban: every one for the protocol `any`, and else the one that is configured.
abbrev pub HasPort : BanConfig → Option ℤ → Type 0
HasPort ban port =
    (text_eq ban.protocol (codes "any") ≡ true → port ≡ none)
    × (text_eq ban.protocol (codes "any") ≡ false → port ≡ some ban.port)

-- An item that bans one address as the configuration asks for.
pub record IsBanOf (ban : BanConfig) (ip : IpAddr) (item : CreateTempBanItem) : Type 0 where
  pub single_host : item.cidr ≡ single_host ip
  pub protocol : item.protocol ≡ ban.protocol
  pub port : HasPort ban item.port
  pub duration : item.duration_seconds ≡ ban.duration_seconds

-- The text that the monitor sends for an address is that of the address alone.
pub ip_cidr-host : (ip : IpAddr) → ip_cidr ip ≡ single_host ip
unfolding ip_cidr print_decimal
ip_cidr-host (v4 a) = refl
ip_cidr-host (v6 a) = refl

ban_port-HasPort : {IpNet : Type 0} (config : Config IpNet) → HasPort config.ban (ban_port config)
unfolding ban_port
ban_port-HasPort config = (λ e. rw e refl, λ e. rw e refl)

pub item_of-IsBanOf :
    (net : Ipnet) (config : Config net.IpNet) (c : Candidate)
    → IsBanOf config.ban c.0 (item_of net config c)
unfolding item_of
item_of-IsBanOf net config (ip, count) = record {
  single_host = ip_cidr-host ip;
  protocol = refl;
  port = ban_port-HasPort config;
  duration = refl;
}
