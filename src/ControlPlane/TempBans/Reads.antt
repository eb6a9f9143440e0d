-- ===== src/ControlPlane/TempBans/Reads.antt =====
-- The protocol and the port that an accepted request stores are read back by parse_protocol and
-- parse_optional_port of src/policy/firewall/parse/common.rs.
use xdp_firewall.Prelude.{
  ℕ, ◌≡◌, refl, subst, ◌&&◌, Bool, true, false, not, &&-eq_true, Option, none, some, if◌then◌else◌,
  ltb, ◌^◌, Error, Result, ok, err, >>=-eq-ok, ok-injective, transpose_map, err_not_ok,
}
use xdp_firewall.Prelude.Int.{ℤ, pos, negsuc}
use xdp_firewall.Text.{Text, codes, text_eq, to_ascii_lowercase}
use xdp_firewall.Policy.Model.{L4Protocol, any, tcp, udp, icmp, is_icmp}
use xdp_firewall.Policy.Validate.{is_some}
use xdp_firewall.Policy.Rows.{parse_protocol, parse_optional_port}
use xdp_firewall.ControlPlane.Validation.{normalize_protocol, is_port, validate_dynamic_rate_port}
use xdp_firewall.ControlPlane.TempBanInput.{or_default}

pub data Known : Text → Type 0 where
  is_any : Known (codes "any")
  is_tcp : Known (codes "tcp")
  is_udp : Known (codes "udp")
  is_icmp_text : Known (codes "icmp")

protocol_choice :
    (a b c d : Bool) (e : Error) (p : Text)
    → (if a
        then ok (codes "any")
        else if b
        then ok (codes "tcp")
        else if c
        then ok (codes "udp")
        else if d
        then ok (codes "icmp")
        else err e)
      ≡ ok p
    → Known p
protocol_choice true b c d e p h = subst Known (ok-injective h) is_any
protocol_choice false true c d e p h = subst Known (ok-injective h) is_tcp
protocol_choice false false true d e p h = subst Known (ok-injective h) is_udp
protocol_choice false false false true e p h = subst Known (ok-injective h) is_icmp_text
protocol_choice false false false false e p h = absurd (cc)

normalize_protocol-Known : (v p : Text) → normalize_protocol v ≡ ok p → Known p
unfolding normalize_protocol
normalize_protocol-Known v p h =
    let w = to_ascii_lowercase v in
    protocol_choice (text_eq w (codes "any")) (text_eq w (codes "tcp")) (text_eq w (codes "udp"))
      (text_eq w (codes "icmp")) _ p h

pub given-Known :
    (given : Option Text) {p : Option Text}
    → transpose_map normalize_protocol given ≡ ok p
    → Known (or_default (codes "any") p)
given-Known none h = subst (λ p. Known (or_default (codes "any") p)) (ok-injective h) is_any
given-Known (some v) h =
    let (q, e, k) = >>=-eq-ok (normalize_protocol v) (λ b. ok (some b)) h in
    subst (λ p. Known (or_default (codes "any") p)) (ok-injective k)
      (normalize_protocol-Known v q e)

-- How the columns of the protocol and the port are read.
pub record Reads (protocol : Text) (port : Option ℤ) : Type 0 where
  pub l4 : L4Protocol
  pub number : Option ℕ
  pub protocol_read : parse_protocol protocol ≡ ok l4
  pub port_read : parse_optional_port port "temporary ban port" ≡ ok number
  pub no_icmp_port : (is_icmp l4 && is_some number) ≡ false

pub guard-ok :
    {A : Type 0} (b : Bool) (e : Error) (r : Result A) {a : A}
    → (if not b then err e else r) ≡ ok a
    → (b ≡ true) × (r ≡ ok a)
guard-ok true e r h = (refl, h)
guard-ok false e r h = absurd (cc)

port_number :
    (port : ℤ)
    → is_port port ≡ true
    → (n : ℕ) × (parse_optional_port (some port) "temporary ban port" ≡ ok (some n))
unfolding parse_optional_port
port_number (pos n) h = (n, rw (&&-eq_true (ltb 0 n) (ltb n (2 ^ 16)) h).1 refl)
port_number (negsuc n) h = absurd (cc)

no_port-Reads :
    (p : Text) (l4 : L4Protocol) {q : Option ℤ}
    → parse_protocol p ≡ ok l4
    → ok none ≡ ok q
    → Reads p q
unfolding parse_optional_port
no_port-Reads p l4 e h = subst (Reads p) (ok-injective h) (record {
  l4 = l4;
  number = none;
  protocol_read = e;
  port_read = refl;
  no_icmp_port = no_port l4;
})
  where
    no_port : (l : L4Protocol) → (is_icmp l && false) ≡ false
    no_port any = refl
    no_port tcp = refl
    no_port udp = refl
    no_port icmp = refl

port-Reads :
    (p : Text) (l4 : L4Protocol) (port : ℤ) {q : Option ℤ}
    → parse_protocol p ≡ ok l4
    → is_icmp l4 ≡ false
    → (is_port port ≡ true) × (ok (some port) ≡ ok q)
    → Reads p q
port-Reads p l4 port e no_icmp h =
    let (n, read) = port_number port h.0 in
    subst (Reads p) (ok-injective h.1) (record {
      l4 = l4;
      number = some n;
      protocol_read = e;
      port_read = read;
      no_icmp_port = rw no_icmp refl;
    })

pub port_columns-Reads :
    (p : Text)
    → Known p
    → (port : Option ℤ) {q : Option ℤ} → validate_dynamic_rate_port p port ≡ ok q
    → Reads p q
unfolding validate_dynamic_rate_port parse_protocol
port_columns-Reads _ is_any none h = no_port-Reads (codes "any") any refl h
port_columns-Reads _ is_tcp none h = no_port-Reads (codes "tcp") tcp refl h
port_columns-Reads _ is_udp none h = no_port-Reads (codes "udp") udp refl h
port_columns-Reads _ is_icmp_text none h = no_port-Reads (codes "icmp") icmp refl h
port_columns-Reads _ is_any (some port) h =
    port-Reads (codes "any") any port refl refl (guard-ok (is_port port) _ _ h)
port_columns-Reads _ is_tcp (some port) h =
    port-Reads (codes "tcp") tcp port refl refl (guard-ok (is_port port) _ _ h)
port_columns-Reads _ is_udp (some port) h =
    port-Reads (codes "udp") udp port refl refl (guard-ok (is_port port) _ _ h)
port_columns-Reads _ is_icmp_text (some port) h =
    absurd (err_not_ok (guard-ok (is_port port) _ _ h).1)
