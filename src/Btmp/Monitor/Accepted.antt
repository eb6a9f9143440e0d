-- ===== src/Btmp/Monitor/Accepted.antt =====
-- The monitor's check of its configuration, Config::validate of tools/btmp-monitor/src/config.rs, and
-- the API's check of a request, src/control_plane/api/temp_bans/input.rs.
use xdp_firewall.Prelude.{
  ◌≡◌, refl, sym, ap, ◌∙◌, subst, arith, Bool, true, false, not, ◌||◌, ltb, ◌==◌, Option, none,
  some, Error, Result, ok, err, if◌then◌else◌, ◌>>◌, expiration_overflow, not_set,
}
use xdp_firewall.Prelude.Int.{ℤ, pos, negsuc}
use xdp_firewall.Text.{Text, codes, text_eq, trim}
use xdp_firewall.Text.Laws.{text_eq→eq}
use xdp_firewall.Net.{Ipnet}
use xdp_firewall.Net.Display.Printed.{single_host}
use xdp_firewall.Btmp.Config.{
  BanConfig, Config, in_range, is_zero, is_empty, validate_protocol, validate, ban_port,
}
use xdp_firewall.Btmp.Api.{CreateTempBanItem}
use xdp_firewall.Btmp.Monitor.{Candidate, ip_cidr, item_of}
use xdp_firewall.Btmp.Monitor.Items.{ip_cidr-host}
use xdp_firewall.ControlPlane.Validation.{
  normalize_protocol, validate_dynamic_rate_port, normalize_cidr, is_port,
}
use xdp_firewall.ControlPlane.Validation.SingleHost.{IsHost, normalize_cidr-single_host}
use xdp_firewall.ControlPlane.TempBanInput.{
  CreateTempBanRequest, default_policy_name, validate_duration, expires_after, active_model,
}

-- The request that the API reads from an item.
abbrev pub request_of : CreateTempBanItem → CreateTempBanRequest
request_of item = record {
  cidr = item.cidr;
  protocol = some item.protocol;
  port = item.port;
  duration_seconds = some item.duration_seconds;
  comment = item.comment;
}

-- The protocols and ports that Config::validate accepts.
data Matches (protocol : Text) (port : ℤ) : Type 0 where
  is_any : text_eq protocol (codes "any") ≡ true → Matches protocol port
  is_tcp :
      text_eq protocol (codes "tcp") ≡ true → in_range 65535 port ≡ true → Matches protocol port
  is_udp :
      text_eq protocol (codes "udp") ≡ true → in_range 65535 port ≡ true → Matches protocol port

match_arms :
    {P : Type 0} (a t u zero range : Bool) (e f g : Error)
    → (if a
        then (if zero then ok tt else err e)
        else if t || u
        then (if range then ok tt else err f)
        else err g)
      ≡ ok (tt {0})
    → (a ≡ true → P)
    → (t ≡ true → range ≡ true → P)
    → (u ≡ true → range ≡ true → P)
    → P
match_arms true t u z r e f g h any tcp udp = any refl
match_arms false true u z true e f g h any tcp udp = tcp refl refl
match_arms false false true z true e f g h any tcp udp = udp refl refl
match_arms false true u z false e f g h any tcp udp = absurd (cc)
match_arms false false true z false e f g h any tcp udp = absurd (cc)
match_arms false false false z r e f g h any tcp udp = absurd (cc)

validate_protocol-Matches :
    (ban : BanConfig) → validate_protocol ban ≡ ok tt → Matches ban.protocol ban.port
unfolding validate_protocol
validate_protocol-Matches ban h =
    match_arms (text_eq ban.protocol (codes "any")) (text_eq ban.protocol (codes "tcp"))
      (text_eq ban.protocol (codes "udp")) (is_zero ban.port) (in_range 65535 ban.port) _ _ _ h
      is_any is_tcp is_udp

-- the conditions of validate before the match
validate_chain :
    (a b c d : Bool) (r s : Result (Unit {0})) (e f g k : Error)
    → (if a
        then err e
        else if b
        then err f
        else if c
        then err g
        else if not d
        then err k
        else r >> s)
      ≡ ok tt
    → (d ≡ true) × (r ≡ ok tt)
validate_chain false false false true (ok u) s e f g k h = (refl, refl)
validate_chain false false false true (err x) s e f g k h = absurd (cc)
validate_chain false false false false r s e f g k h = absurd (cc)
validate_chain false false true d r s e f g k h = absurd (cc)
validate_chain false true c d r s e f g k h = absurd (cc)
validate_chain true b c d r s e f g k h = absurd (cc)

in_range-is_port : (port : ℤ) → in_range 65535 port ≡ true → is_port port ≡ true
in_range-is_port (pos n) h = ground arith
in_range-is_port (negsuc n) h = h

in_range-validate_duration :
    (d : ℤ) → in_range 31536000 d ≡ true → validate_duration (some d) ≡ ok d
unfolding validate_duration
in_range-validate_duration (pos n) h = ground arith
in_range-validate_duration (negsuc n) h = absurd (cc)

-- The API takes the protocol as it is, with the port.
record Agrees (protocol : Text) (port : Option ℤ) : Type 0 where
  protocol_kept : normalize_protocol protocol ≡ ok protocol
  port_kept : validate_dynamic_rate_port protocol port ≡ ok port

tcp_port :
    (port : ℤ)
    → is_port port ≡ true
    → validate_dynamic_rate_port (codes "tcp") (some port) ≡ ok (some port)
unfolding validate_dynamic_rate_port
tcp_port port h = rw h refl

udp_port :
    (port : ℤ)
    → is_port port ≡ true
    → validate_dynamic_rate_port (codes "udp") (some port) ≡ ok (some port)
unfolding validate_dynamic_rate_port
udp_port port h = rw h refl

-- The port of an item with the protocol.
abbrev pub port_of : Text → ℤ → Option ℤ
port_of protocol port = if text_eq protocol (codes "any") then none else some port

Matches-Agrees :
    (protocol : Text) (port : ℤ) → Matches protocol port → Agrees protocol (port_of protocol port)
unfolding normalize_protocol validate_dynamic_rate_port
Matches-Agrees protocol port (is_any e) =
    subst (λ p. Agrees p (port_of p port)) (sym (text_eq→eq protocol (codes "any") e))
      (record { protocol_kept = refl; port_kept = refl })
Matches-Agrees protocol port (is_tcp e r) =
    subst (λ p. Agrees p (port_of p port)) (sym (text_eq→eq protocol (codes "tcp") e))
      (record { protocol_kept = refl; port_kept = tcp_port port (in_range-is_port port r) })
Matches-Agrees protocol port (is_udp e r) =
    subst (λ p. Agrees p (port_of p port)) (sym (text_eq→eq protocol (codes "udp") e))
      (record { protocol_kept = refl; port_kept = udp_port port (in_range-is_port port r) })

module _ (net : Ipnet) (parse : Text → Option net.IpNet) {DateTime : Type 0}
    (add_seconds : DateTime → ℤ → Option DateTime) where
  -- If the monitor accepts its configuration, the API's check of a request (active_model) passes every
  -- item that the monitor makes, and the row that it gives has the address alone as the CIDR, and the
  -- protocol, the port and the duration of the configuration, with no port for the protocol `any`. The
  -- conditions on the libraries are that the parser reads the text of the address's /32 or /128 as that
  -- network, and that the end of the ban is a time that the type can hold.
  pub item_of_accepted :
      (config : Config net.IpNet) (candidate : Candidate) (now : DateTime) {n : net.IpNet}
      {end : DateTime}
      → validate config ≡ ok tt
      → parse (single_host candidate.0) ≡ some n
      → IsHost net candidate.0 n
      → add_seconds now config.ban.duration_seconds ≡ some end
      → active_model net parse add_seconds now (request_of (item_of net config candidate))
        ≡ ok (record {
          policy_name = default_policy_name;
          cidr = single_host candidate.0;
          protocol = config.ban.protocol;
          port = port_of config.ban.protocol config.ban.port;
          expires_at = end;
          comment = (item_of net config candidate).comment;
          created_at = now;
        })
  unfolding validate active_model item_of ban_port
  item_of_accepted config (ip, count) now {n = n} {end = end} v p h t =
      let ban = config.ban in
      let (d, r) =
        validate_chain (is_empty config.api_url) (ltb ban.threshold 1) (ban.window_seconds == 0)
          (in_range 31536000 ban.duration_seconds) (validate_protocol ban)
          (if is_empty (trim config.monitor.btmp_path) then err (not_set "btmp-path") else ok tt) _
          _ _ _ v in
      let agrees = Matches-Agrees ban.protocol ban.port (validate_protocol-Matches ban r) in
      let ends : expires_after net parse add_seconds now ban.duration_seconds ≡ ok end =
        ap (λ o. elim o [ none ↦ err expiration_overflow | some e ↦ ok e ]) t in
      let c : normalize_cidr net parse (ip_cidr ip) ≡ ok (single_host ip) =
        ap (normalize_cidr net parse) (ip_cidr-host ip)
        ∙ normalize_cidr-single_host net parse ip n p h in
      simp (
        c,
        agrees.protocol_kept,
        agrees.port_kept,
        in_range-validate_duration ban.duration_seconds d,
        ends,
      )
