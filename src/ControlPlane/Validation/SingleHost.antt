-- ===== src/ControlPlane/Validation/SingleHost.antt =====
-- normalize_cidr on the network of an address alone.
use xdp_firewall.Prelude.{
  ℕ, ◌≡◌, refl, ap, ◌∙◌, Bool, true, false, ◌||◌, Option, none, some, [], ◌∷◌, ◌++◌, All-imp, arith,
  ◌==◌, ok, err, invalid_cidr,
}
use xdp_firewall.Text.{Text, is_whitespace, trim}
use xdp_firewall.Text.Laws.{trim_none}
use xdp_firewall.Net.{IpAddr, width, Ipnet}
use xdp_firewall.Net.Display.{print_ip, print_decimal}
use xdp_firewall.Net.Display.Printed.{IsPrinted, single_host, single_host-IsPrinted}
use xdp_firewall.Policy.Rows.{parse_cidr}
use xdp_firewall.ControlPlane.Validation.{contains_slash, print_net, normalize_cidr}

IsPrinted-white : (c : ℕ) → IsPrinted c → is_whitespace c ≡ false
IsPrinted-white c (low, high) = ground arith

or_true : (b : Bool) → (b || true) ≡ true
or_true true = refl
or_true false = refl

slash_inside : (s t : Text) → contains_slash (s ++ 47 ∷ t) ≡ true
slash_inside [] t = refl
slash_inside (c ∷ s) t = ap (λ b. c == 47 || b) (slash_inside s t) ∙ or_true (c == 47)

trim-single_host : (ip : IpAddr) → trim (single_host ip) ≡ single_host ip
trim-single_host ip = trim_none (single_host ip) (
    All-imp IsPrinted (λ c. is_whitespace c ≡ false) (single_host ip) IsPrinted-white
      (single_host-IsPrinted ip))

module _ (net : Ipnet) where
  open net use {IpNet, network, prefix_len}

  -- A parsed network that is the one of an address alone.
  pub record IsHost (ip : IpAddr) (n : IpNet) : Type 0 where
    pub same_network : network n ≡ ip
    pub whole_prefix : prefix_len n ≡ width ip

  print_net-host : (ip : IpAddr) (n : IpNet) → IsHost ip n → print_net net n ≡ single_host ip
  unfolding print_net
  print_net-host ip n h = rw (h.same_network, h.whole_prefix) refl

  pub normalize_cidr-single_host :
      (parse : Text → Option IpNet) (ip : IpAddr) (n : IpNet)
      → parse (single_host ip) ≡ some n
      → IsHost ip n
      → normalize_cidr net parse (single_host ip) ≡ ok (single_host ip)
  unfolding normalize_cidr
  normalize_cidr-single_host parse ip n parsed h =
      let read : parse_cidr net parse "CIDR" (single_host ip) ≡ ok n =
        ap (λ o. elim o [ none ↦ err (invalid_cidr "CIDR") | some cidr ↦ ok cidr ]) parsed in
      rw
        (
          trim-single_host ip,
          slash_inside (print_ip ip) (print_decimal (width ip)),
          read,
          print_net-host ip n h,
        )
        refl
