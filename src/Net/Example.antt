-- ===== src/Net/Example.antt =====
-- Concrete values of the two interfaces, at which the laws hold: an IpNet is an address with a
-- prefix length, a DateTime a number of nanoseconds.
use native.Mathlib.Nat.{mul-div_left, mul-mod_left, one-le-pow}
use text.Mathlib.Text.{◌==◌ as str_eq}
use xdp_firewall.Prelude.{
  ℕ, suc, ◌-◌, ◌*◌, ◌/◌, ◌^◌, ◌≤◌, ◌≡◌, refl, sym, ◌↔◌, Bool, false, true, ◌&&◌, &&-eq_true, ==→eq,
  ==_refl, Option, none, some, arith, ltb, leb, ◌==◌, if◌then◌else◌, min,
}
use xdp_firewall.Prelude.Int.{ℤ, pos, negsuc}
use xdp_firewall.Net.{
  IpAddr, v4, v6, is_ipv4, addr_eq, width, SamePrefix, IsNetwork, Ipnet, IpnetLaws, Chrono,
  ChronoLaws,
}
use xdp_firewall.Net.Prefix.{addr_eq→eq, addr_eq_refl}

pub record Network : Type 0 where
  pub address : IpAddr
  pub len : ℕ

-- The prefix length, within the family's bits for any value of the record.
abbrev pub length_of : Network → ℕ
length_of n = min n.len (width n.address)

-- The address with its bits behind the first `p` cleared.
abbrev pub clear : IpAddr → ℕ → IpAddr
clear (v4 a) p = v4 (a / 2 ^ (32 - p) * 2 ^ (32 - p))
clear (v6 a) p = v6 (a / 2 ^ (128 - p) * 2 ^ (128 - p))

abbrev pub same_prefix : ℕ → IpAddr → IpAddr → Bool
same_prefix p (v4 a) (v4 b) = a / 2 ^ (32 - p) == b / 2 ^ (32 - p)
same_prefix p (v6 a) (v6 b) = a / 2 ^ (128 - p) == b / 2 ^ (128 - p)
same_prefix p _ _ = false

abbrev pub nets : Ipnet
nets = record {
  IpNet = Network;
  new = λ a p. if leb p (width a) then some (record { address = a; len = p }) else none;
  is_v4 = λ n. is_ipv4 n.address;
  addr = λ n. n.address;
  prefix_len = λ n. length_of n;
  network = λ n. clear n.address (length_of n);
  trunc = λ n. record { address = clear n.address (length_of n); len = length_of n };
  contains = λ n ip. same_prefix (length_of n) n.address ip;
  net_eq = λ m n. addr_eq m.address n.address && length_of m == length_of n;
  parse = λ s.
      if str_eq s "10.0.0.0/8" then some (record { address = v4 0x0a000000; len = 8 }) else none;
}

width-clear : (a : IpAddr) (p : ℕ) → width (clear a p) ≡ width a
width-clear (v4 a) p = refl
width-clear (v6 a) p = refl

same_prefix_iff : (p : ℕ) (a b : IpAddr) → (same_prefix p a b ≡ true) ↔ SamePrefix p a b
same_prefix_iff p (v4 a) (v4 b) = ground arith
same_prefix_iff p (v6 a) (v6 b) = ground arith
same_prefix_iff p (v4 a) (v6 b) = ((λ h. cc), (λ h. absurd h))
same_prefix_iff p (v6 a) (v4 b) = ((λ h. cc), (λ h. absurd h))

clear-SamePrefix : (p : ℕ) (a : IpAddr) → SamePrefix p a (clear a p)
clear-SamePrefix p (v4 a) =
    sym (mul-div_left (a / 2 ^ (32 - p)) (one-le-pow (32 - p) 2 (omega arith)))
clear-SamePrefix p (v6 a) =
    sym (mul-div_left (a / 2 ^ (128 - p)) (one-le-pow (128 - p) 2 (omega arith)))

clear-IsNetwork : (a : IpAddr) (p : ℕ) → p ≤ width a → IsNetwork (clear a p) p
clear-IsNetwork (v4 a) p h = record {
  fits = h;
  host_zero = mul-mod_left (a / 2 ^ (32 - p)) (2 ^ (32 - p));
}
clear-IsNetwork (v6 a) p h = record {
  fits = h;
  host_zero = mul-mod_left (a / 2 ^ (128 - p)) (2 ^ (128 - p));
}

net_eq-parts :
    (m n : Network) → nets.net_eq m n ≡ true → (m.address ≡ n.address) × (length_of m ≡ length_of n)
net_eq-parts m n h =
    let (a, l) = &&-eq_true _ _ h in (addr_eq→eq m.address n.address a, ==→eq _ _ l)

parts-net_eq :
    (m n : Network) → (m.address ≡ n.address) × (length_of m ≡ length_of n) → nets.net_eq m n ≡ true
parts-net_eq m n h = rw (h.1, h.0, addr_eq_refl n.address, ==_refl (length_of n))

pub nets-laws : IpnetLaws nets
nets-laws = record {
  new_some = λ a p h. (record { address = a; len = p }, ground arith);
  new_addr = λ a p n e. ground arith;
  new_prefix_len = λ a p n e. ground arith;
  prefix_len_fits = λ n. omega arith;
  is_v4_addr = λ n. refl;
  network-SamePrefix = λ n. clear-SamePrefix (length_of n) n.address;
  network-IsNetwork = λ n. clear-IsNetwork n.address (length_of n) (omega arith);
  trunc_addr = λ n. refl;
  trunc_prefix_len = λ n. omega (arith, width-clear n.address (length_of n));
  contains_iff = λ n ip. same_prefix_iff (length_of n) n.address ip;
  net_eq_iff = λ m n. (net_eq-parts m n, parts-net_eq m n);
}

-- Nanoseconds from now on; a duration that i64 does not hold is `none`.
abbrev pub span : ℕ → ℕ → Option ℤ
span a b =
    if ltb b a
    then (if ltb (a - b) (2 ^ 63) then some (pos (a - b)) else none)
    else (if a == b
        then some (pos 0)
        else if leb (b - a) (2 ^ 63)
        then some (negsuc (b - a - 1))
        else none)

abbrev pub clock : Chrono
clock = record { DateTime = ℕ; lt = ltb; nanoseconds_since = span }

span_positive : (a b : ℕ) (d : ℤ) → span a b ≡ some d → ltb b a ≡ true → (n : ℕ) × (d ≡ pos (suc n))
span_positive a b d e h = (a - b - 1, ground arith)

span_later : (a b : ℕ) (d : ℤ) (n : ℕ) → span a b ≡ some d → d ≡ pos (suc n) → ltb b a ≡ true
span_later a b d n e h = ground arith

pub clock-laws : ChronoLaws clock
clock-laws = record {
  irreflexive = λ a. ground arith;
  transitive = λ a b c h k. ground arith;
  total = λ a b c h. ground arith;
  positive_iff = λ a b d e. (span_positive a b d e, (λ p. span_later a b d p.0 e p.1));
  in_i64 = λ a b n e. ground arith;
}
