-- ===== src/Net/Display/Printed.antt =====
-- The characters of a printed address.
use native.Mathlib.Nat.{mod-lt}
use xdp_firewall.Prelude.{
  ℕ, zero, suc, ◌+◌, ◌^◌, ◌/◌, ◌%◌, ◌≤◌, ◌<◌, inl, inr, List, [], ◌∷◌, ◌++◌, All, All-append,
  Bool-cases, arith, ltb, ◌==◌, take, drop,
}
use xdp_firewall.Text.{Text, codes}
use xdp_firewall.Net.{IpAddr, v4, v6, width}
use xdp_firewall.Net.Display.{
  digit_char, print_from, print_decimal, print_hex, print_ipv4, segments, fmt_subslice, Span,
  longest_zeros, print_ipv6, print_ip,
}

-- The characters from '.' to 'f', which are no white space.
abbrev pub IsPrinted : ℕ → Type 0
IsPrinted c = (46 ≤ c) × (c ≤ 102)

digit_char-IsPrinted : (d : ℕ) → d < 16 → IsPrinted (digit_char d)
digit_char-IsPrinted d h = ground arith

print_from-IsPrinted :
    (places radix n : ℕ) (after : Text)
    → 1 ≤ radix
    → radix ≤ 16
    → All IsPrinted after
    → All IsPrinted (print_from places radix n after)
unfolding print_from
print_from-IsPrinted zero radix n after low high h = h
print_from-IsPrinted (suc places) radix n after low high h = elim (Bool-cases (ltb n radix)) [
  | inl small ↦ rw small (digit_char-IsPrinted n (ground arith), h)
  | inr large ↦
      let digit : n % radix < 16 = omega (arith, mod-lt n low) in
      rw large (
        print_from-IsPrinted places radix (n / radix) (digit_char (n % radix) ∷ after) low high
          (digit_char-IsPrinted (n % radix) digit, h))
]

pub print_decimal-IsPrinted : (n : ℕ) → All IsPrinted (print_decimal n)
unfolding print_decimal
print_decimal-IsPrinted n = print_from-IsPrinted 20 10 n [] (omega arith) (omega arith) tt

print_hex-IsPrinted : (n : ℕ) → All IsPrinted (print_hex n)
unfolding print_hex
print_hex-IsPrinted n = print_from-IsPrinted 4 16 n [] (omega arith) (omega arith) tt

-- Two printed parts with a printed character between.
pub between :
    (s t : Text) (c : ℕ)
    → IsPrinted c
    → All IsPrinted s
    → All IsPrinted t
    → All IsPrinted (s ++ c ∷ t)
between s t c p h k = All-append IsPrinted s (c ∷ t) h (p, k)

dot : IsPrinted 46
dot = (omega arith, omega arith)

colon : IsPrinted 58
colon = (omega arith, omega arith)

letter_f : IsPrinted 102
letter_f = (omega arith, omega arith)

print_ipv4-IsPrinted : (a : ℕ) → All IsPrinted (print_ipv4 a)
unfolding print_ipv4
print_ipv4-IsPrinted a =
    between _ _ 46 dot
      (between _ _ 46 dot
        (between _ _ 46 dot (print_decimal-IsPrinted (a / 2 ^ 24))
          (print_decimal-IsPrinted (a / 2 ^ 16 % 256)))
        (print_decimal-IsPrinted (a / 2 ^ 8 % 256)))
      (print_decimal-IsPrinted (a % 256))

fmt_subslice-IsPrinted : (gs : List ℕ) → All IsPrinted (fmt_subslice gs)
unfolding fmt_subslice
fmt_subslice-IsPrinted [] = tt
fmt_subslice-IsPrinted (g ∷ []) = print_hex-IsPrinted g
fmt_subslice-IsPrinted (g ∷ h ∷ gs) =
    between _ _ 58 colon (print_hex-IsPrinted g) (fmt_subslice-IsPrinted (h ∷ gs))

print_ipv6-IsPrinted : (a : ℕ) → All IsPrinted (print_ipv6 a)
unfolding print_ipv6
print_ipv6-IsPrinted a =
    let groups = segments 8 a in
    let none_yet : Span = record { start = 0; len = 0 } in
    let zeros = longest_zeros 0 none_yet none_yet groups in
    elim (Bool-cases (a / 2 ^ 32 == 0xffff)) [
      | inl mapped ↦ rw mapped (
          All-append IsPrinted (codes "::ffff:") (print_ipv4 (a % 2 ^ 32))
            (colon, (colon, (letter_f, (letter_f, (letter_f, (letter_f, (colon, tt)))))))
            (print_ipv4-IsPrinted (a % 2 ^ 32)))
      | inr plain ↦ elim (Bool-cases (ltb 1 zeros.len)) [
        | inl run ↦
            rw (plain, run)
              (All-append IsPrinted (fmt_subslice (take zeros.start groups) ++ codes "::")
                (fmt_subslice (drop (zeros.start + zeros.len) groups))
                (All-append IsPrinted (fmt_subslice (take zeros.start groups)) (codes "::")
                  (fmt_subslice-IsPrinted (take zeros.start groups)) (colon, (colon, tt)))
                (fmt_subslice-IsPrinted (drop (zeros.start + zeros.len) groups)))
        | inr none ↦ rw (plain, none) (fmt_subslice-IsPrinted groups)
      ]
    ]

pub print_ip-IsPrinted : (ip : IpAddr) → All IsPrinted (print_ip ip)
unfolding print_ip
print_ip-IsPrinted (v4 a) = print_ipv4-IsPrinted a
print_ip-IsPrinted (v6 a) = print_ipv6-IsPrinted a

-- The network of an address alone, as a text.
abbrev pub single_host : IpAddr → Text
single_host ip = print_ip ip ++ 47 ∷ print_decimal (width ip)

pub single_host-IsPrinted : (ip : IpAddr) → All IsPrinted (single_host ip)
single_host-IsPrinted ip =
    between (print_ip ip) (print_decimal (width ip)) 47 (omega arith, omega arith)
      (print_ip-IsPrinted ip) (print_decimal-IsPrinted (width ip))
